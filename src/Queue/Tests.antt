-- ===== src/Queue/Tests.antt =====
-- Runs of the queue on small inputs, as in tests/test_urlfifo.cc, and its theorems at such inputs.
use mathlib.Core.List.{Sublist}
use streamplayer.Base.{ℕ, ◌+◌, ◌≤◌, ◌≡◌, some, List, [], ◌∷◌, ◌++◌, map, length, ltb}
use streamplayer.Queue.{Queue, clear}
use streamplayer.Queue.Clear.{clear_lem}
use streamplayer.Queue.History.{
  Op, pushes, pops, drops_head, collects, forgets, clears, marks, clears_while, present, fresh, run,
  count,
}
use streamplayer.Queue.History.Invariant.{run_bounded, run_in_order, run_conserved}

abbrev three : Queue ℕ
three = record {
  max_number_of_items = 4;
  queue = 23 ∷ 32 ∷ 123 ∷ [];
  removed = some 5 ∷ [];
  dropped = [];
}

abbrev calls : List (Op ℕ)
calls =
    pushes 1 9
    ∷ pushes 2 9
    ∷ pushes 3 9
    ∷ pops
    ∷ clears 1
    ∷ collects
    ∷ pushes 4 9
    ∷ clears_while (ltb 3)
    ∷ marks 7
    ∷ forgets
    ∷ drops_head
    ∷ []

clear_lem_example :
    clear 1 three
    ≡ (record three { queue = 23 ∷ []; removed = some 5 ∷ some 32 ∷ some 123 ∷ [] }, 2)
clear_lem_example = clear_lem 1 three

run_bounded_example :
    let q = (run (fresh 3) calls).state in
    (length q.queue ≤ 3) × (q.removed ≡ map some (present q.removed))
run_bounded_example = run_bounded 3 calls

run_in_order_example : let t = run (fresh 3) calls in Sublist (t.popped ++ t.state.queue) t.accepted
run_in_order_example = run_in_order 3 calls

run_conserved_example :
    let t = run (fresh 3) calls in
    count (ltb 1) t.accepted
    ≡ count (ltb 1) t.popped
      + count (ltb 1) t.reported
      + count (ltb 1) (present t.state.removed)
      + count (ltb 1) t.state.queue
run_conserved_example = run_conserved 3 calls (ltb 1)
