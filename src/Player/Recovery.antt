-- ===== src/Player/Recovery.antt =====
-- The player after it has recovered from an error.
use streamplayer.Base.{suc, ◌≡◌, refl, none, ◌∷◌}
use streamplayer.Queue.{is_empty, get_removed, get_dropped}
use streamplayer.Buffering.{new, reset}
use streamplayer.Reasons.{Reason}
use streamplayer.Player.{
  Player, stopped, not_requested, no_failure, fail_with, ids, others, mk_id_array,
  mk_id_array_from_dropped_items, set_stopped, emit, report_stopped, emit_stopped,
  stopped_with_error, emit_stopped_with_error, rebuild_playbin,
  do_stop_pipeline_and_recover_from_error, do_error_recovery,
}

-- Nothing is played, requested or failing.
pub record IsIdle (p : Player) : Type 0 where
  pub is_stopped : p.supposed_play_status ≡ stopped
  pub nothing_handled : p.current_stream ≡ none
  pub no_uri : p.uri ≡ ""
  pub no_buffering : p.stream_buffering_data ≡ new
  pub no_request : p.next_stream_request ≡ not_requested
  pub no_fault : p.failure ≡ no_failure

-- After an error the player is idle with a new pipeline and its queue as it was; it has told of the
-- error once, with all IDs that had been dropped, and nothing is left to tell: a stop that is
-- reported now changes nothing.
pub recovery_stops :
    (reason : Reason) (p : Player)
    → let r = do_error_recovery reason p in
      let dropped_ids = (mk_id_array_from_dropped_items p.queue).1 in
      IsIdle r
      × (r.pipeline ≡ suc p.pipeline)
      × (r.queue.queue ≡ p.queue.queue)
      × (r.signals
          ≡ stopped_with_error reason dropped_ids (is_empty p.queue) p.current_stream ∷ p.signals)
      × (emit_stopped r ≡ r)
unfolding do_error_recovery do_stop_pipeline_and_recover_from_error emit_stopped_with_error
    emit_stopped set_stopped emit report_stopped rebuild_playbin fail_with
    mk_id_array_from_dropped_items mk_id_array ids others get_removed get_dropped reset new is_empty
recovery_stops reason p = (
  record {
    is_stopped = refl;
    nothing_handled = refl;
    no_uri = refl;
    no_buffering = refl;
    no_request = refl;
    no_fault = refl;
  },
  refl,
  refl,
  refl,
  refl,
)
