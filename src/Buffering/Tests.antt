-- ===== src/Buffering/Tests.antt =====
-- The theorems on buffering at concrete data.
use streamplayer.Base.{◌≡◌, List, [], ◌∷◌}
use streamplayer.Buffering.{Data, paused_pending, medium, try_leave_buffering_state}
use streamplayer.Buffering.Wait.{
  Event, levels, starts, pauses, leaves, run, view, abstract_run, outcome, run_refines,
}

abbrev pending : Data
pending = record { state = paused_pending; level = medium }

abbrev events : List Event
events = levels 3 ∷ starts paused_pending ∷ levels 100 ∷ leaves ∷ pauses ∷ []

run_refines_example :
    (view (run pending events) ≡ abstract_run (view pending) events)
    × ((try_leave_buffering_state (run pending events)).1
        ≡ outcome (abstract_run (view pending) events))
run_refines_example = run_refines pending events
