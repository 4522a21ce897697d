-- ===== src/Queue/History/Invariant.antt =====
-- What holds of a queue after any history of calls: the limit, no null pointer among the removed
-- items, the order of arrival, and that each accepted item has exactly one owner.
use mathlib.Core.List.{Sublist, sublist-append_right}
use mathlib.Core.List.Sublist
use streamplayer.Base.{
  ℕ, suc, ◌+◌, ◌<◌, min, lt→==_false, ◌≤◌, ◌≡◌, refl, sym, subst, ap, ◌⊎◌, inl, inr, Bool, Option,
  none, some, List, [], ◌∷◌, ◌++◌, map, append-nil, append_assoc, map-append, arith, length,
  length-append, length-take, take, drop,
}
use streamplayer.Queue.{Queue, init, pop, pop_drop, mark_as_dropped, get_removed, get_dropped}
use streamplayer.Queue.Clear.{clear_lem, clear_while_lem}
use streamplayer.Queue.Push.{push_lem}
use streamplayer.Queue.History.{
  Op, pushes, pops, drops_head, collects, forgets, clears, marks, clears_while, Trace, present,
  fresh, step, run, count, count-append, count-take-drop, present-append, present-map, take-sublist,
}

module _ {ℓ} {A : Type ℓ} where
  -- The four properties, on the lists that they speak of.
  pub record Owned (limit : ℕ) (q : Queue A) (accepted popped reported : List A) : Type ℓ where
    pub limited : q.max_number_of_items ≡ limit
    pub bounded : length q.queue ≤ q.max_number_of_items
    pub no_null : q.removed ≡ map some (present q.removed)
    pub in_order : Sublist (popped ++ q.queue) accepted
    pub conserved :
        (p : A → Bool)
        → count p accepted
          ≡ count p popped + count p reported + count p (present q.removed) + count p q.queue

  abbrev pub IsSound : ℕ → Trace A → Type ℓ
  IsSound n t = Owned n t.state t.accepted t.popped t.reported

  no_null-append :
      (rs : List (Option A)) (xs : List A)
      → rs ≡ map some (present rs)
      → rs ++ map some xs ≡ map some (present (rs ++ map some xs))
  no_null-append rs xs e =
      rw (present-append rs (map some xs), present-map xs, map-append some (present rs) xs)
        (ap (λ l. l ++ map some xs) e)

  count-present-append :
      (p : A → Bool) (rs : List (Option A)) (xs : List A)
      → count p (present (rs ++ map some xs)) ≡ count p (present rs) + count p xs
  count-present-append p rs xs =
      rw (present-append rs (map some xs), present-map xs) (count-append p (present rs) xs)

  module _ {limit : ℕ} {q : Queue A} {acc out rep : List A} (o : Owned limit q acc out rep) where
    -- clear(): the tail of the queue goes to the removed items.
    cut_back :
        (n : ℕ)
        → Owned limit
            (record q { queue = take n q.queue; removed = q.removed ++ map some (drop n q.queue) })
            acc
            out
            rep
    cut_back n = record {
      limited = o.limited;
      bounded = omega (arith, length-take n q.queue, o.bounded);
      no_null = no_null-append q.removed (drop n q.queue) o.no_null;
      in_order =
          Sublist.trans (Sublist.append (Sublist.refl out) (take-sublist n q.queue)) o.in_order;
      conserved = λ p. omega (
        arith,
        o.conserved p,
        count-take-drop p n q.queue,
        count-present-append p q.removed (drop n q.queue),
      );
    }

    -- pop_drop() and clear_while(): a front part of the queue goes to the removed items.
    cut_front :
        (gone kept : List A)
        → q.queue ≡ gone ++ kept
        → Owned limit (record q { queue = kept; removed = q.removed ++ map some gone }) acc out rep
    cut_front gone kept e = record {
      limited = o.limited;
      bounded = omega (arith, ap length e, length-append gone kept, o.bounded);
      no_null = no_null-append q.removed gone o.no_null;
      in_order =
          Sublist.trans
            (Sublist.append (Sublist.refl out)
              (subst (Sublist kept) (sym e) (sublist-append_right gone kept)))
            o.in_order;
      conserved = λ p. omega (
        arith,
        o.conserved p,
        ap (count p) e,
        count-append p gone kept,
        count-present-append p q.removed gone,
      );
    }

    -- A new item at the end.
    put_back :
        (a : A)
        → suc (length q.queue) ≤ q.max_number_of_items
        → Owned limit (record q { queue = q.queue ++ a ∷ [] }) (acc ++ a ∷ []) out rep
    put_back a room = record {
      limited = o.limited;
      bounded = omega (arith, length-append q.queue (a ∷ []));
      no_null = o.no_null;
      in_order =
          rw (← append_assoc out q.queue (a ∷ []))
            (Sublist.append o.in_order (Sublist.refl (a ∷ [])));
      conserved = λ p.
          omega
            (arith, o.conserved p, count-append p acc (a ∷ []), count-append p q.queue (a ∷ []));
    }

    take_front :
        (x : A) (xs : List A)
        → q.queue ≡ x ∷ xs
        → Owned limit (record q { queue = xs }) acc (out ++ x ∷ []) rep
    take_front x xs e = record {
      limited = o.limited;
      bounded = omega (arith, ap length e, o.bounded);
      no_null = o.no_null;
      in_order =
          rw (append_assoc out (x ∷ []) xs) (subst (λ l. Sublist (out ++ l) acc) e o.in_order);
      conserved = λ p. omega (arith, o.conserved p, ap (count p) e, count-append p out (x ∷ []));
    }

    hand_over : Owned limit (record q { removed = [] }) acc out (rep ++ present q.removed)
    hand_over = record {
      limited = o.limited;
      bounded = o.bounded;
      no_null = refl;
      in_order = o.in_order;
      conserved = λ p. omega (arith, o.conserved p, count-append p rep (present q.removed));
    }

  -- pop() and pop_drop() on every queue.
  front_cases :
      (q : Queue A)
      → ((pop q ≡ (q, none)) × ((pop_drop q).0 ≡ q))
        ⊎ ((x : A) × (xs : List A) × (q.queue ≡ x ∷ xs)
            × (pop q ≡ (record q { queue = xs }, some x))
            × ((pop_drop q).0 ≡ record q { queue = xs; removed = q.removed ++ some x ∷ [] }))
  unfolding pop pop_drop
  front_cases q = go q.queue refl
    where
      go :
          (l : List A)
          → q.queue ≡ l
          → ((pop q ≡ (q, none)) × ((pop_drop q).0 ≡ q))
            ⊎ ((x : A) × (xs : List A) × (q.queue ≡ x ∷ xs)
                × (pop q ≡ (record q { queue = xs }, some x))
                × ((pop_drop q).0 ≡ record q { queue = xs; removed = q.removed ++ some x ∷ [] }))
      go [] e = inl (simp (e, pop), simp (e, pop_drop))
      go (x ∷ xs) e = inr (x, xs, e, simp (e, pop), simp (e, pop_drop))

  fits :
      (n : ℕ) (xs : List A) (limit : ℕ)
      → length xs ≤ limit
      → ((n < length xs) ⊎ (length xs < limit))
      → suc (length (take n xs)) ≤ limit
  fits n xs limit h room = omega (arith, length-take n xs)

  step-IsSound : {m : ℕ} (t : Trace A) (o : Op A) → IsSound m t → IsSound m (step t o)
  unfolding step get_removed get_dropped mark_as_dropped
  step-IsSound t (pushes a n) s = elim (push_lem a n t.state) [
    | inl (_, _, e) ↦ rw e s
    | inr (room, e) ↦
        rw (e, lt→==_false (min n (length t.state.queue) + 1) 0 (omega arith))
          (put_back (cut_back s n) a
            (fits n t.state.queue t.state.max_number_of_items s.bounded room))
  ]
  step-IsSound t pops s = elim (front_cases t.state) [
    | inl (e, _) ↦ rw (e, append-nil t.popped) s
    | inr (x, xs, e, popped', _) ↦ rw popped' (take_front s x xs e)
  ]
  step-IsSound t drops_head s = elim (front_cases t.state) [
    | inl (_, e) ↦ rw e s
    | inr (x, xs, e, _, dropped') ↦ rw dropped' (cut_front s (x ∷ []) xs e)
  ]
  step-IsSound t collects s = hand_over s
  step-IsSound t forgets s = record {
    limited = s.limited;
    bounded = s.bounded;
    no_null = s.no_null;
    in_order = s.in_order;
    conserved = s.conserved;
  }
  step-IsSound t (clears n) s = rw (clear_lem n t.state) (cut_back s n)
  step-IsSound t (marks id) s = record {
    limited = s.limited;
    bounded = s.bounded;
    no_null = s.no_null;
    in_order = s.in_order;
    conserved = s.conserved;
  }
  step-IsSound t (clears_while pred) s =
      let (gone, kept, (e, _, _), r) = clear_while_lem pred t.state in
      rw r (cut_front s gone kept e)

  run-IsSound : {m : ℕ} (t : Trace A) (os : List (Op A)) → IsSound m t → IsSound m (run t os)
  unfolding run
  run-IsSound t [] s = s
  run-IsSound t (o ∷ os) s = run-IsSound (step t o) os (step-IsSound t o s)

  fresh-IsSound : (n : ℕ) → IsSound n (fresh {A = A} n)
  unfolding fresh init
  fresh-IsSound n = record {
    limited = refl;
    bounded = omega arith;
    no_null = refl;
    in_order = Sublist.refl [];
    conserved = λ p. refl;
  }

  -- After any calls on a new queue, it holds no more items than its first limit, and no pointer among
  -- the removed ones is null, so that mk_id_array() may follow each.
  pub run_bounded :
      (n : ℕ) (os : List (Op A))
      → let q = (run (fresh n) os).state in
        (length q.queue ≤ n) × (q.removed ≡ map some (present q.removed))
  run_bounded n os =
      let s = run-IsSound (fresh n) os (fresh-IsSound n) in
      (omega (arith, s.bounded, s.limited), s.no_null)

  -- After any calls on a new queue, the items that pop() has handed out, followed by those still
  -- queued, stand in the order in which push() accepted them.
  pub run_in_order :
      (n : ℕ) (os : List (Op A))
      → let t = run (fresh n) os in Sublist (t.popped ++ t.state.queue) t.accepted
  run_in_order n os = (run-IsSound (fresh n) os (fresh-IsSound n)).in_order

  -- After any calls on a new queue, each accepted item has exactly one owner: counted by any
  -- test, there are as many accepted items as items popped, reported as removed, removed and not
  -- reported yet, and queued.
  pub run_conserved :
      (n : ℕ) (os : List (Op A)) (p : A → Bool)
      → let t = run (fresh n) os in
        count p t.accepted
        ≡ count p t.popped
          + count p t.reported
          + count p (present t.state.removed)
          + count p t.state.queue
  run_conserved n os p = (run-IsSound (fresh n) os (fresh-IsSound n)).conserved p
