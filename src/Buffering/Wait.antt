-- ===== src/Buffering/Wait.antt =====
-- What buffering waits for: the header asks for a definite pause and for a full buffer, in any
-- order, before playback goes on.
use streamplayer.Base.{
  ℕ, ◌≤◌, ◌≡◌, refl, ap, ◌∙◌, Bool, true, false, ◌&&◌, List, [], ◌∷◌, arith, leb, if◌then◌else◌,
}
use streamplayer.Buffering.{
  State, not_buffering, paused_pending, paused_for_buffering, paused_piggyback,
  LeaveBufferingResult, buffer_filled, still_buffering, Data, is_buffering, is_full,
  set_buffer_level, start_buffering, entered_pause, try_leave_buffering_state, reset,
}

-- What happens to the buffering data.
pub data Event : Type 0 where
  levels : ℕ → Event
  starts : State → Event
  pauses leaves resets : Event

unfoldable pub step : Data → Event → Data
step d (levels percent) = (set_buffer_level percent d).0
step d (starts s) = start_buffering s d
step d pauses = (entered_pause d).0
step d leaves = (try_leave_buffering_state d).0
step d resets = reset d

unfoldable pub run : Data → List Event → Data
run d [] = d
run d (e ∷ es) = run (step d e) es

-- The abstract view: is playback held back, has the pause been reached, is the buffer full.
pub record Wait : Type 0 where
  pub held : Bool
  pub paused : Bool
  pub filled : Bool

abbrev is_paused : State → Bool
is_paused paused_for_buffering = true
is_paused paused_piggyback = true
is_paused _ = false

pub view : Data → Wait
unfolding is_buffering is_full
view d = record { held = is_buffering d; paused = is_paused d.state; filled = is_full d.level }

-- Playback is released exactly if it is held, paused and the buffer is full.
abbrev pub releases : Wait → Bool
releases w = w.held && w.paused && w.filled

pub abstract_step : Wait → Event → Wait
abstract_step w (levels percent) = record w { filled = leb 100 percent }
abstract_step w (starts not_buffering) = record w { held = false; paused = false }
abstract_step w (starts paused_pending) = record w { held = true; paused = false }
abstract_step w (starts _) = record w { held = true; paused = true }
abstract_step w pauses = record w { paused = w.held }
abstract_step w leaves = if releases w then record w { held = false; paused = false } else w
abstract_step w resets = record { held = false; paused = false; filled = true }

pub abstract_run : Wait → List Event → Wait
abstract_run w [] = w
abstract_run w (e ∷ es) = abstract_run (abstract_step w e) es

abbrev pub outcome : Wait → LeaveBufferingResult
outcome w =
    if releases w
    then buffer_filled
    else (if w.held then still_buffering else LeaveBufferingResult.not_buffering)

step_refines : (d : Data) (e : Event) → view (step d e) ≡ abstract_step (view d) e
unfolding step view abstract_step set_buffer_level start_buffering entered_pause
    try_leave_buffering_state reset
step_refines d (levels percent) = ground arith
step_refines d (starts s) = ground arith
step_refines d pauses = ground arith
step_refines d leaves = ground arith
step_refines d resets = ground arith

outcome_refines : (d : Data) → (try_leave_buffering_state d).1 ≡ outcome (view d)
unfolding view try_leave_buffering_state
outcome_refines d = ground arith

view-run : (d : Data) (es : List Event) → view (run d es) ≡ abstract_run (view d) es
unfolding run abstract_run
view-run d [] = refl
view-run d (e ∷ es) = view-run (step d e) es ∙ ap (λ w. abstract_run w es) (step_refines d e)

-- After any events, the buffering data stand for the abstract wait that has seen the same events,
-- and an attempt to leave the buffering state reports what the wait says: filled exactly if
-- playback is held back, the pause has been reached and the buffer is full; still buffering if it
-- is held back for another reason; not buffering otherwise.
pub run_refines :
    (d : Data) (es : List Event)
    → (view (run d es) ≡ abstract_run (view d) es)
      × ((try_leave_buffering_state (run d es)).1 ≡ outcome (abstract_run (view d) es))
run_refines d es = (view-run d es, outcome_refines (run d es) ∙ ap (λ w. outcome w) (view-run d es))

-- Buffering ends: once the pause and a level of 100% or more have been seen, in either order, an
-- attempt to leave succeeds and buffering is over.
pub pause_and_level_release :
    (d : Data) (percent : ℕ)
    → is_buffering d ≡ true
    → 100 ≤ percent
    → let full_last = run d (pauses ∷ levels percent ∷ []) in
      let pause_last = run d (levels percent ∷ pauses ∷ []) in
      (try_leave_buffering_state full_last
        ≡ (record full_last { state = State.not_buffering }, buffer_filled))
      × (try_leave_buffering_state pause_last
          ≡ (record pause_last { state = State.not_buffering }, buffer_filled))
unfolding run step is_buffering set_buffer_level entered_pause try_leave_buffering_state
pause_and_level_release d percent held enough = (ground arith, ground arith)
