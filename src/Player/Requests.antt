-- ===== src/Player/Requests.antt =====
-- What clients and the pipeline ask of the player, src/streamer.cc: the functions of the namespace
-- Streamer, "about-to-finish" and the end of a stream.
-- A function that checks it takes whether the player is activated. The pipeline's pending state is
-- `void_pending` if there is none. A callback from the pipeline comes with the number of the pipeline
-- that sent it. The tags of a pushed item are left out; a negative number of items to keep is `none`;
-- an ID of UINT32_MAX is `none`.
pub mod Stopping
pub mod Pushing
pub mod Starting
use Prim.Native.String.{String}
use text.Mathlib.Text.{◌==◌ as str_eq}
use streamplayer.Base.{
  ℕ, Bool, true, false, not, ◌&&◌, ◌||◌, Option, none, some, List, [], ◌∷◌, ◌==◌, if◌then◌else◌,
}
use streamplayer.Queue.{Queue, push, clear, peek, is_empty, mark_as_dropped}
use streamplayer.Buffering.{is_buffering, reset}
use streamplayer.Reasons.{already_stopped}
use streamplayer.Item.{
  Item, ItemState, in_queue, about_to_activate, active_half_playing, active_now_playing,
  about_to_phase_out, about_to_be_skipped, PipelineStartRequired, not_required, start_now,
  when_ready, pipeline_start_required_when_ready,
}
use streamplayer.Player.{
  Player, GstState, void_pending, null, ready, paused, playing, NextStreamRequestState,
  not_requested, requested, request_deferred, PlayStatus, no_failure,
  mk_id_array_from_dropped_items, mk_id_array_from_queued_items, emit_stopped,
  emit_stopped_with_error, rebuild_playbin, invalidate_position_information,
}
use streamplayer.Player.Take.{
  Picked, nothing, current_stream, queue_head, pick_next_item, Taken, try_take_next,
}
use streamplayer.Player.Play.{
  Pipeline, Place, handled, set_state_at, put_at, set_stream_state, play_next_stream,
}

unfoldable pub queue_picked : Pipeline → Picked → Player → Player
queue_picked g nothing p = set_state_at about_to_phase_out handled p
queue_picked g (current_stream i) p =
    (play_next_stream g (some handled) handled null false true p).0
queue_picked g (queue_head i) p = (play_next_stream g none Place.queue_head null false true p).0

-- queue_stream_from_url_fifo__unlocked().
unfoldable pub queue_stream : Pipeline → Player → Player
queue_stream g p = queue_picked g (pick_next_item p.current_stream (peek p.queue)) p

-- The signal "about-to-finish".
unfoldable pub queue_stream_from_url_fifo : Pipeline → ℕ → Player → Player
queue_stream_from_url_fifo g sender p =
    if sender == p.pipeline
    then queue_stream g (record p { next_stream_request = requested })
    else p

unfoldable pub is_phasing_out : Option Item → Bool
is_phasing_out none = false
is_phasing_out (some i) = elim i.state [ about_to_phase_out ↦ true | _ ↦ false ]

unfoldable pub queue_if_requested : Pipeline → NextStreamRequestState → Player → Player
queue_if_requested g requested p = if is_phasing_out p.current_stream then queue_stream g p else p
queue_if_requested g request_deferred p = p
queue_if_requested g not_requested p = p

-- The IDs that were dropped before, and now, and whether the item has been accepted.
unfoldable pub push_item : Pipeline → Bool → Item → ℕ → Player → Player × List ℕ × List ℕ × Bool
push_item g false item keep_items p = (p, [], [], false)
push_item g true item keep_items p =
    let (before, dropped_ids_before) = mk_id_array_from_dropped_items p.queue in
    let (pushed, accepted) = push item keep_items before in
    let queued = queue_if_requested g p.next_stream_request (record p { queue = pushed }) in
    let (after, dropped_ids_now) = mk_id_array_from_dropped_items queued.queue in
    if accepted == 0
    then (record p { queue = pushed }, dropped_ids_before, [], false)
    else (record queued { queue = after }, dropped_ids_before, dropped_ids_now, true)

unfoldable pub clear_kept : Option ℕ → Queue Item → Queue Item
clear_kept none q = q
clear_kept (some keep_first_n_entries) q = (clear keep_first_n_entries q).0

-- The IDs that are queued, and those that were dropped.
unfoldable pub clear_queue : Option ℕ → Player → Player × List ℕ × List ℕ
clear_queue keep_first_n_entries p =
    let q = clear_kept keep_first_n_entries p.queue in
    let (r, dropped_ids) = mk_id_array_from_dropped_items q in
    (record p { queue = r }, mk_id_array_from_queued_items q, dropped_ids)

unfoldable pub end_by_start : PipelineStartRequired → Player → Player × Bool
end_by_start not_required p = (emit_stopped p, false)
end_by_start start_now p = (p, true)
end_by_start when_ready p = (p, false)

unfoldable pub end_with_head : Option Item → Player → Player × Bool
end_with_head none p = (emit_stopped p, false)
end_with_head (some i) p =
    let (j, required, reported) = pipeline_start_required_when_ready i in
    end_by_start required (put_at Place.queue_head j p)

-- handle_end_of_stream(): whether the player is to be started again when idle.
unfoldable pub handle_end_of_stream : Pipeline → ℕ → Player → Player × Bool
handle_end_of_stream g sender p =
    let (q, restart_required_now) = end_with_head (peek p.queue) (set_stream_state g ready p).0 in
    if sender == p.pipeline
    then (record q { current_stream = none; uri = "" }, restart_required_now)
    else (p, false)

unfoldable pub clear_all : Player → Player
clear_all p = record p { queue = (clear 0 p.queue).0 }

-- do_stop(), by the state the pipeline is in or will be in: whether the state of the stream is
-- unchanged, and whether it has failed hard.
unfoldable pub stop_in_state : Pipeline → GstState → Player → Player × Bool × Bool
stop_in_state g playing p =
    let (q, accepted) = set_stream_state g ready p in
    if accepted then (clear_all q, false, false) else (
      record q {
        failure = record q.failure {
          details = record q.failure.details { clear_fifo_on_error = true };
        };
      },
      true,
      false,
    )
stop_in_state g paused p =
    let (q, accepted) = set_stream_state g ready p in
    if accepted then (clear_all q, false, false) else (
      record q {
        failure = record q.failure {
          details = record q.failure.details { clear_fifo_on_error = true };
        };
      },
      true,
      false,
    )
stop_in_state g ready p = (clear_all p, true, false)
stop_in_state g null p = (clear_all p, true, false)
stop_in_state g void_pending p = (p, true, true)

unfoldable pub state_or_pending : GstState → GstState → GstState
state_or_pending state void_pending = state
state_or_pending state pending = pending

unfoldable pub do_stop : Pipeline → GstState → Player → Player × Bool × Bool
do_stop g pending p =
    stop_in_state g (state_or_pending g.current_state pending)
      (record p { supposed_play_status = PlayStatus.stopped })

-- The pipeline is stopped already and nothing is pending.
unfoldable pub is_stopped_already : GstState → GstState → Bool
is_stopped_already ready void_pending = true
is_stopped_already null void_pending = true
is_stopped_already _ _ = false

-- Streamer::stop(): its return value is what do_stop() gives back as a hard failure.
unfoldable pub stop : Pipeline → Bool → GstState → GstState → Player → Player × Bool
stop g false pending state_after p = (p, false)
stop g true pending state_after p =
    let (q, may_emit_stopped_with_error, retval) = do_stop g pending p in
    if str_eq p.uri ""
    then (p, false)
    else (if may_emit_stopped_with_error && is_stopped_already state_after pending
        then (
          emit_stopped_with_error already_stopped q.current_stream
              (record q { current_stream = none }),
          retval,
        )
        else (q, retval))

unfoldable pub play_taken : Pipeline → GstState → Player × Taken → Player
play_taken g next_state (p, t) =
    if t.found && (t.replaced_current_stream || t.current_stream_is_just_in_queue)
    then (play_next_stream g none handled next_state false false p).0
    else p

unfoldable pub try_play_next_stream : Pipeline → GstState → Player → Player
try_play_next_stream g next_state p = play_taken g next_state (try_take_next true p)

unfoldable pub rebuild_playbin_for_workarounds : Player → Player
rebuild_playbin_for_workarounds p = record (rebuild_playbin p) {
  current_stream_protected_once = true;
  stream_has_just_started = false;
  next_stream_request = not_requested;
  stream_buffering_data = reset p.stream_buffering_data;
  failure = no_failure;
  current_time = invalidate_position_information;
  previous_time = invalidate_position_information;
}

unfoldable pub start_in_state : Pipeline → GstState → Player → Player × Bool
start_in_state g playing p = (p, true)
start_in_state g paused p = ((set_stream_state g playing p).0, true)
start_in_state g ready p =
    (try_play_next_stream g playing (rebuild_playbin_for_workarounds p), true)
start_in_state g null p = (try_play_next_stream g playing (rebuild_playbin_for_workarounds p), true)
start_in_state g void_pending p = (p, false)

unfoldable pub start_pending : Pipeline → GstState → Player → Player × Bool
start_pending g playing p = (p, true)
start_pending g paused p = start_in_state g paused p
start_pending g _ p = start_in_state g g.current_state p

-- Streamer::start(), with the pending state.
unfoldable pub start : Pipeline → Bool → GstState → Player → Player × Bool
start g false pending p = (p, false)
start g true pending p =
    let q = record p { supposed_play_status = PlayStatus.playing } in
    if is_buffering p.stream_buffering_data then (q, true) else start_pending g pending q

unfoldable pub pause_in_state : Pipeline → GstState → Player → Player × Bool
pause_in_state g paused p = (p, true)
pause_in_state g null p = (try_play_next_stream g paused p, true)
pause_in_state g ready p = ((set_stream_state g paused p).0, true)
pause_in_state g playing p = ((set_stream_state g paused p).0, true)
pause_in_state g void_pending p = (p, false)

unfoldable pub pause : Pipeline → Bool → Player → Player × Bool
pause g false p = (p, false)
pause g true p =
    let q = record p { supposed_play_status = PlayStatus.paused } in
    if str_eq p.uri ""
    then (p, false)
    else (if is_buffering p.stream_buffering_data
        then (q, true)
        else pause_in_state g g.current_state q)
