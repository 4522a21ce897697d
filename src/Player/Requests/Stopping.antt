-- ===== src/Player/Requests/Stopping.antt =====
-- Streamer::stop() and the end of a stream.
use text.Mathlib.Text.{◌==◌ as str_eq}
use streamplayer.Base.{
  ℕ, ◌≡◌, refl, ◌≢◌, ◌↔◌, ◌⊎◌, inl, inr, Bool, true, false, ◌&&◌, none, some, List, [], ◌∷◌, ◌++◌,
  map, ◌==◌, eq→==, Bool-cases, if◌then◌else◌, take, drop, arith,
}
use streamplayer.Queue.{peek}
use streamplayer.Queue.Clear.{clear_lem}
use streamplayer.Reasons.{already_stopped}
use streamplayer.Item.{
  Item, PipelineStartRequired, not_required, start_now, when_ready,
  pipeline_start_required_when_ready,
}
use streamplayer.Player.{
  Player, GstState, void_pending, null, ready, paused, playing, PlayStatus, emit_stopped,
  emit_stopped_with_error,
}
use streamplayer.Player.Play.{Pipeline, Place, put_at, set_stream_state}
use streamplayer.Player.Requests.{
  clear_all, stop_in_state, state_or_pending, do_stop, is_stopped_already, stop, end_by_start,
  end_with_head, handle_end_of_stream,
}

clear_all_lem :
    (p : Player)
    → clear_all p ≡ record p {
      queue = record p.queue { queue = []; removed = p.queue.removed ++ map some p.queue.queue };
    }
unfolding clear_all
clear_all_lem p = rw (clear_lem 0 p.queue) (taken p.queue.queue)
  where
    taken :
        (xs : List Item)
        → record p {
          queue = record p.queue {
            queue = take 0 xs;
            removed = p.queue.removed ++ map some (drop 0 xs);
          };
        }
          ≡ record p {
            queue = record p.queue { queue = []; removed = p.queue.removed ++ map some xs };
          }
    taken [] = refl
    taken (x ∷ xs) = refl

-- The pipeline plays or pauses, or is about to.
unfoldable pub IsActive : GstState → Type 0
IsActive s = (s ≡ playing) ⊎ (s ≡ paused)

stop_active :
    (g : Pipeline) (s : GstState) (p : Player)
    → IsActive s
    → g.accepts ready ≡ true
    → stop_in_state g s p ≡ (clear_all (set_stream_state g ready p).0, false, false)
unfolding stop_in_state set_stream_state IsActive
stop_active g s p (inl e) a = rw (e, stop_in_state, a) refl
stop_active g s p (inr e) a = rw (e, stop_in_state, a) refl

-- A stop while the pipeline plays or pauses, or is about to, and accepts to stop: the player is
-- stopped and its queue is empty, and all that was in the queue waits to be reported as dropped;
-- the stream that is handled is kept until the pipeline has stopped, and nothing is emitted before.
-- The value that is returned is false.
pub stop_clears :
    (g : Pipeline) (pending state_after : GstState) (p : Player)
    → str_eq p.uri "" ≡ false
    → IsActive (state_or_pending g.current_state pending)
    → g.accepts ready ≡ true
    → stop g true pending state_after p ≡ (
      record p {
        supposed_play_status = PlayStatus.stopped;
        asked_states = ready ∷ p.asked_states;
        queue = record p.queue { queue = []; removed = p.queue.removed ++ map some p.queue.queue };
      },
      false,
    )
unfolding stop do_stop set_stream_state
stop_clears g pending state_after p u active a =
    let q = record p { supposed_play_status = PlayStatus.stopped } in
    simp
      (
        u,
        stop_active g (state_or_pending g.current_state pending) q active a,
        clear_all_lem (record q { asked_states = ready ∷ p.asked_states }),
      )
      refl

either_way :
    (b : Bool) (x y : Player) (r : Bool) → (if◌then◌else◌ {A = Player × Bool} b (x, r) (y, r)).1 ≡ r
either_way true x y r = refl
either_way false x y r = refl

stop_hard :
    (g : Pipeline) (s : GstState) (p : Player)
    → ((stop_in_state g s p).2 ≡ true) ↔ (s ≡ void_pending)
unfolding stop_in_state set_stream_state
stop_hard g playing p = elim (Bool-cases (g.accepts ready)) [
  | inl a ↦ rw a (ground arith)
  | inr a ↦ rw a (ground arith)
]
stop_hard g paused p = elim (Bool-cases (g.accepts ready)) [
  | inl a ↦ rw a (ground arith)
  | inr a ↦ rw a (ground arith)
]
stop_hard g ready p = ground arith
stop_hard g null p = ground arith
stop_hard g void_pending p = ground arith

-- The value that a stop returns, if it is not ignored, is true exactly if the pipeline is in no state in
-- which it could be stopped, so never if the stop has been done.
pub stop_returns_failure :
    (g : Pipeline) (pending state_after : GstState) (p : Player)
    → str_eq p.uri "" ≡ false
    → ((stop g true pending state_after p).1 ≡ true)
      ↔ (state_or_pending g.current_state pending ≡ void_pending)
unfolding stop do_stop
stop_returns_failure g pending state_after p u =
    let s = state_or_pending g.current_state pending in
    let q = record p { supposed_play_status = PlayStatus.stopped } in
    let r = stop_in_state g s q in
    simp
      (
        u,
        either_way (r.1 && is_stopped_already state_after pending)
            (emit_stopped_with_error already_stopped r.0.current_stream
              (record r.0 { current_stream = none }))
            r.0 r.2,
      )
      (stop_hard g s q)

-- The stream that is handled is gone after its end, and the URI with it.
abbrev pub over : Player → Player
over p = record p { current_stream = none; uri = "" }

by_start :
    (s : PipelineStartRequired) (m : Player)
    → ((s ≡ not_required)
        → ◌≡◌ {A = Player × Bool}
            (over (end_by_start s m).0, (end_by_start s m).1)
            (over (emit_stopped m), false))
      × ((s ≢ not_required) → over (end_by_start s m).0 ≡ over m)
      × (((end_by_start s m).1 ≡ true) ↔ (s ≡ start_now))
unfolding end_by_start
by_start not_required m = (λ _. refl, λ n. elim (n refl) [ ], ground arith)
by_start start_now m = (λ e. cc, λ _. refl, ground arith)
by_start when_ready m = (λ e. cc, λ _. refl, ground arith)

-- At the end of a stream, reported by the pipeline in use: the pipeline is asked for READY, and the
-- stream that is handled is gone. If the queue is empty, or if its head could neither be played now
-- nor is being resolved, the stop is reported, with the stream that has ended, and there is no
-- restart. Otherwise nothing is reported, and the player is to be started again exactly if the head
-- can be played now.
pub end_of_stream_lem :
    (g : Pipeline) (p : Player)
    → let asked = (set_stream_state g ready p).0 in
      (peek p.queue ≡ none
        → handle_end_of_stream g p.pipeline p ≡ (over (emit_stopped asked), false))
      × ((i : Item)
          → peek p.queue ≡ some i
          → let (j, required, _) = pipeline_start_required_when_ready i in
            let marked = put_at Place.queue_head j asked in
            ((required ≡ not_required)
              → handle_end_of_stream g p.pipeline p ≡ (over (emit_stopped marked), false))
            × ((required ≢ not_required) → (handle_end_of_stream g p.pipeline p).0 ≡ over marked)
            × (((handle_end_of_stream g p.pipeline p).1 ≡ true) ↔ (required ≡ start_now)))
      × ((sender : ℕ)
          → (sender == p.pipeline) ≡ false
          → handle_end_of_stream g sender p ≡ (p, false))
unfolding handle_end_of_stream end_with_head
end_of_stream_lem g p =
    let same = eq→== p.pipeline p.pipeline refl in
    (
      λ e. simp (e, same) refl,
      λ i e. simp (e, same) (by_start (pipeline_start_required_when_ready i).1 _),
      λ sender e. simp e refl,
    )
