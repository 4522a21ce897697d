-- ===== src/Queue/History.antt =====
-- Histories of calls on one queue: who owns which item, and in which order items go out.
pub mod Invariant
use mathlib.Core.List.{Sublist, sublist-append_left, sublist-append_right}
use mathlib.Core.List.Sublist
use streamplayer.Base.{
  ℕ, suc, ◌+◌, ◌≤◌, ◌≡◌, refl, sym, subst, ap, ◌∙◌, inl, inr, Bool, true, false, Option, none, some,
  List, [], ◌∷◌, ◌++◌, map, append-nil, append_assoc, arith, length, length-append, length-take,
  take, drop, take-append-drop, ◌==◌, if◌then◌else◌,
}
use streamplayer.Queue.{
  Queue, init, clear, push, pop, pop_drop, mark_as_dropped, clear_while, get_removed, get_dropped,
}
use streamplayer.Queue.Clear.{clear_lem, clear_while_lem}
use streamplayer.Queue.Push.{push_lem, pushed}

pub data Op {ℓ} (A : Type ℓ) : Type ℓ where
  pushes : A → ℕ → Op A
  pops drops_head collects forgets : Op A
  clears marks : ℕ → Op A
  clears_while : (A → Bool) → Op A

-- A queue with the items that it has accepted, handed out by pop() and handed over by
-- get_removed(), oldest first.
pub record Trace {ℓ} (A : Type ℓ) : Type ℓ where
  pub state : Queue A
  pub accepted : List A
  pub popped : List A
  pub reported : List A

module _ {ℓ} {A : Type ℓ} where
  -- The items behind pointers that are not null.
  abbrev pub present : List (Option A) → List A
  present [] = []
  present (none ∷ rs) = present rs
  present (some x ∷ rs) = x ∷ present rs

  abbrev to_list : Option A → List A
  to_list none = []
  to_list (some x) = x ∷ []

  pub fresh : ℕ → Trace A
  unfolding init
  fresh n = record { state = init n; accepted = []; popped = []; reported = [] }

  pub step : Trace A → Op A → Trace A
  step t (pushes a n) =
      let (q, size) = push a n t.state in
      record t { state = q; accepted = if size == 0 then t.accepted else t.accepted ++ a ∷ [] }
  step t pops = let (q, r) = pop t.state in record t { state = q; popped = t.popped ++ to_list r }
  step t drops_head = record t { state = (pop_drop t.state).0 }
  step t collects =
      let (q, rs) = get_removed t.state in
      record t { state = q; reported = t.reported ++ present rs }
  step t forgets = record t { state = (get_dropped t.state).0 }
  step t (clears n) = record t { state = (clear n t.state).0 }
  step t (marks id) = record t { state = mark_as_dropped id t.state }
  step t (clears_while pred) = record t { state = (clear_while pred t.state).0 }

  pub run : Trace A → List (Op A) → Trace A
  run t [] = t
  run t (o ∷ os) = run (step t o) os

  -- How many items of a list pass a test.
  abbrev pub count : (A → Bool) → List A → ℕ
  count p [] = 0
  count p (x ∷ xs) = (if p x then 1 else 0) + count p xs

  pub count-append : (p : A → Bool) (xs ys : List A) → count p (xs ++ ys) ≡ count p xs + count p ys
  count-append p [] ys = omega arith
  count-append p (x ∷ xs) ys = omega (arith, count-append p xs ys)

  pub count-take-drop :
      (p : A → Bool) (n : ℕ) (xs : List A) → count p (take n xs) + count p (drop n xs) ≡ count p xs
  count-take-drop p n xs =
      sym (count-append p (take n xs) (drop n xs)) ∙ ap (count p) (take-append-drop n xs)

  pub present-append : (rs ss : List (Option A)) → present (rs ++ ss) ≡ present rs ++ present ss
  present-append [] ss = refl
  present-append (none ∷ rs) ss = present-append rs ss
  present-append (some x ∷ rs) ss = ap (◌∷◌ x) (present-append rs ss)

  pub present-map : (xs : List A) → present (map some xs) ≡ xs
  present-map [] = refl
  present-map (x ∷ xs) = ap (◌∷◌ x) (present-map xs)

  pub take-sublist : (n : ℕ) (xs : List A) → Sublist (take n xs) xs
  take-sublist n xs =
      subst (Sublist (take n xs)) (take-append-drop n xs)
        (sublist-append_left (take n xs) (drop n xs))
