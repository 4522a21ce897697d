-- ===== src/Player/StateChange/Stopped.antt =====
-- A stop, from the request to the report.
use text.Mathlib.Text.{◌==◌ as str_eq}
use streamplayer.Base.{
  ℕ, ◌≡◌, refl, ◌∙◌, ap, sym, subst, true, false, ◌⊎◌, inl, inr, none, some, [], ◌∷◌, ◌++◌, map,
  eq→==,
}
use streamplayer.Queue.{pop, get_removed, get_dropped}
use streamplayer.Queue.History.{present, present-append, present-map}
use streamplayer.Buffering.{new, reset}
use streamplayer.Item.{Item, known_direct_url, known_resolved_url, get_selected_url_state}
use streamplayer.Player.{
  Player, GstState, void_pending, ready, PlayStatus, from_pipeline, is_same_pipeline, mk_id_array,
  mk_id_array_from_dropped_items, emits_stopped, set_stopped, emit, report_stopped, emit_stopped,
}
use streamplayer.Player.Play.{Pipeline}
use streamplayer.Player.Requests.{state_or_pending}
use streamplayer.Player.Requests.Stopping.{IsActive, stop_clears}
use streamplayer.Player.StateChange.{
  new_state, nothing_pending, pop_or_wipe, after_stop, stopped_with, previous_stream_stopped,
  target_reached, same_rest, state_changed, handle_stream_state_change,
}
use streamplayer.Player.Events
use streamplayer.Player.Events.{handle, run}

-- The URL that the pipeline has been given is known.
unfoldable pub HasUrl : Item → Type 0
HasUrl i =
    (get_selected_url_state i ≡ known_direct_url) ⊎ (get_selected_url_state i ≡ known_resolved_url)

reports :
    (p : Player) (i : Item)
    → p.current_stream ≡ some i
    → HasUrl i
    → previous_stream_stopped p.current_stream p ≡ after_stop (emit_stopped p)
unfolding previous_stream_stopped stopped_with HasUrl
reports p i here (inl e) = rw (here, e, stopped_with) refl
reports p i here (inr e) = rw (here, e, stopped_with) refl

-- The player once its pipeline has become READY, as it has been asked to.
abbrev pub at_ready : Player → Player
at_ready p = after_stop (emit_stopped (record p { progress_watcher = false; uri = "" }))

ready_reached :
    (g : Pipeline) (old : GstState) (p : Player) (i : Item)
    → IsActive old
    → p.current_stream ≡ some i
    → HasUrl i
    → g.target_state ≡ ready
    → (handle_stream_state_change g
        (from_pipeline p.pipeline)
        true
        false
        old
        ready
        void_pending
        p).0
      ≡ at_ready p
unfolding handle_stream_state_change is_same_pipeline state_changed new_state target_reached
    same_rest nothing_pending IsActive
ready_reached g old p i (inl e) here url target = rw (e) (
    simp (eq→== p.pipeline p.pipeline refl, target)
      (reports (record p { progress_watcher = false; uri = "" }) i here url))
ready_reached g old p i (inr e) here url target = rw (e) (
    simp (eq→== p.pipeline p.pipeline refl, target)
      (reports (record p { progress_watcher = false; uri = "" }) i here url))

-- The player between the request and the report.
abbrev stopping : Player → Player
stopping p = record p {
  supposed_play_status = PlayStatus.stopped;
  asked_states = ready ∷ p.asked_states;
  queue = record p.queue { queue = []; removed = p.queue.removed ++ map some p.queue.queue };
}

all_dropped :
    (p : Player)
    → (mk_id_array_from_dropped_items (stopping p).queue).1
      ≡ mk_id_array (present p.queue.removed ++ p.queue.queue) p.queue.dropped
unfolding mk_id_array_from_dropped_items get_removed get_dropped
all_dropped p =
    rw (present-append p.queue.removed (map some p.queue.queue), present-map p.queue.queue) refl

-- Exactly one signal has been emitted, which says that the stream has stopped.
pub record StopReported (i : Item) (p q : Player) : Type 0 where
  pub signals :
      q.signals
      ≡ emits_stopped i.stream_id
          (mk_id_array (present p.queue.removed ++ p.queue.queue) p.queue.dropped)
        ∷ p.signals
  pub nothing_handled : q.current_stream ≡ none
  pub nothing_queued : q.queue.queue ≡ []
  pub no_buffering : q.stream_buffering_data ≡ new
  pub no_boost : q.is_boost_enabled ≡ false
  pub is_stopped : q.supposed_play_status ≡ PlayStatus.stopped
  pub nothing_left : (mk_id_array_from_dropped_items q.queue).1 ≡ []

stopped-StopReported :
    (p : Player) (i : Item)
    → p.current_stream ≡ some i
    → p.current_stream_protected_once ≡ false
    → StopReported i p (at_ready (stopping p))
unfolding after_stop pop_or_wipe pop emit_stopped set_stopped report_stopped emit reset new
    mk_id_array mk_id_array_from_dropped_items get_removed get_dropped
stopped-StopReported p i here mortal =
    simp (mortal, here)
      (record {
        signals = ap (λ d. emits_stopped i.stream_id d ∷ p.signals) (all_dropped p);
        nothing_handled = refl;
        nothing_queued = refl;
        no_buffering = refl;
        no_boost = refl;
        is_stopped = refl;
        nothing_left = refl;
      })

-- A stop of a player that plays or pauses a stream whose URL is known, if the pipeline accepts to stop, and
-- the message that the pipeline has become READY from there, while the stream is not to outlive the
-- stop: exactly one signal is emitted, which says that this stream has stopped, with the IDs of all
-- that the queue has held and of all that had been dropped before; then nothing is handled or queued,
-- no data is awaited, the threads are not boosted, the status is stopped, and no dropped ID is left to
-- be reported.
pub stop_is_reported :
    (scale : ℕ → ℕ → ℕ → ℕ) (g g' : Pipeline) (pending after old : GstState) (p : Player) (i : Item)
    → str_eq p.uri "" ≡ false
    → IsActive (state_or_pending g.current_state pending)
    → g.accepts ready ≡ true
    → p.current_stream ≡ some i
    → HasUrl i
    → p.current_stream_protected_once ≡ false
    → IsActive old
    → g'.target_state ≡ ready
    → StopReported i p (
        run scale
          ((g, Events.stops pending after)
            ∷ (
              g',
              Events.state_changed (from_pipeline p.pipeline) true false old ready void_pending,
            )
            ∷ [])
          p)
unfolding run handle
stop_is_reported scale g g' pending after old p i u active a here url mortal was target =
    let message = from_pipeline p.pipeline in
    let e =
      ap (λ r. (handle_stream_state_change g' message true false old ready void_pending r.0).0)
        (stop_clears g pending after p u active a)
      ∙ ready_reached g' old (stopping p) i was here url target in
    subst (StopReported i p) (sym e) (stopped-StopReported p i here mortal)
