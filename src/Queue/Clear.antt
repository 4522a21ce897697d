-- ===== src/Queue/Clear.antt =====
-- Queue::clear() and Queue::clear_while(): what the two loops leave in which list.
use mathlib.Core.List.{reverse, reverse-cons, reverse-reverse}
use native.Mathlib.Nat.{add-zero, zero-add}
use streamplayer.Base.{
  ℕ, suc, ◌+◌, ◌-◌, ◌≤◌, ◌≡◌, refl, sym, ap, ◌∙◌, inl, inr, Bool, true, false, Option, none, some,
  List, [], ◌∷◌, ◌++◌, map, append-nil, append_assoc, map-append, arith, length, length-append,
  length-drop, replicate, length-replicate, take, drop, take_all, drop_all, take-append-drop,
  set-append, replicate_last, tests, All, ltb, Bool-cases,
}
use streamplayer.Queue.{
  Queue, back, pop_back, clear_loop, clear_count, clear, clear_while_loop, clear_while,
}

add_suc_left : (m n : ℕ) → m + 1 + n ≡ m + suc n
add_suc_left m n = omega arith

module _ {ℓ} {A : Type ℓ} where
  back-snoc : (xs : List A) (y : A) → back (xs ++ y ∷ []) ≡ some y
  back-snoc [] y = refl
  back-snoc (x ∷ []) y = refl
  back-snoc (x ∷ x' ∷ xs) y = back-snoc (x' ∷ xs) y

  pop_back-snoc : (xs : List A) (y : A) → pop_back (xs ++ y ∷ []) ≡ xs
  pop_back-snoc [] y = refl
  pop_back-snoc (x ∷ []) y = refl
  pop_back-snoc (x ∷ x' ∷ xs) y = ap (◌∷◌ x) (pop_back-snoc (x' ∷ xs) y)

  length-reverse : (xs : List A) → length (reverse xs) ≡ length xs
  length-reverse [] = refl
  length-reverse (x ∷ xs) =
      rw (reverse-cons x xs) (omega (arith, length-append (reverse xs) (x ∷ []), length-reverse xs))

  clear_loop-snoc :
      (n : ℕ) (rs tl : List (Option A)) (q : List A) (y : A)
      → clear_loop (suc n) (length rs + suc n) (rs ++ replicate (suc n) none ++ tl) (q ++ y ∷ [])
        ≡ clear_loop n (length rs + n) (rs ++ replicate n none ++ some y ∷ tl) q
  unfolding clear_loop
  clear_loop-snoc n rs tl q y =
      let base : length rs + suc n - 1 ≡ length rs + n = omega arith in
      let split : rs ++ replicate (suc n) none ++ tl ≡ (rs ++ replicate n none) ++ none ∷ tl =
        append_assoc rs (replicate (suc n) none) tl
        ∙ ap (◌++◌ rs) (replicate_last n none tl)
        ∙ (sym (append_assoc rs (replicate n none) (none ∷ tl))) in
      let size : length (rs ++ replicate {A = Option A} n none) ≡ length rs + n =
        rw (length-append rs (replicate n none))
          (ap (◌+◌ (length rs)) (length-replicate {A = Option A} n none)) in
      rw (base, split, back-snoc q y, pop_back-snoc q y)
        (rw (set-append (rs ++ replicate n none) (length rs + n) (some y) none tl size))

  -- The loop moves the last items to the entries below `base`, and keeps their order.
  clear_loop-reverse :
      (ys : List A) (rs tl : List (Option A)) (q : List A)
      → clear_loop
          (length ys)
          (length rs + length ys)
          (rs ++ replicate (length ys) none ++ tl)
          (q ++ reverse ys)
        ≡ (rs ++ map some (reverse ys) ++ tl, q)
  unfolding clear_loop
  clear_loop-reverse [] rs tl q = simp append-nil
  clear_loop-reverse (y ∷ ys) rs tl q =
      rw (reverse-cons y ys, ← append_assoc q (reverse ys) (y ∷ []))
        (clear_loop-snoc (length ys) rs tl (q ++ reverse ys) y
          ∙ clear_loop-reverse ys rs (some y ∷ tl) q
          ∙ rw (map-append some (reverse ys) (y ∷ [])) (simp append_assoc))

  clear_loop-append :
      (m : ℕ) (rs : List (Option A)) (q xs : List A)
      → length xs ≡ m
      → clear_loop m (length rs + m) (rs ++ replicate m none) (q ++ xs) ≡ (rs ++ map some xs, q)
  clear_loop-append m rs q xs e = rw (← e) (
      simp (length-reverse, reverse-reverse, append-nil) at
        (clear_loop-reverse (reverse xs) rs [] q))

  -- The loop on a whole deque, started at the end of `removed_`.
  clear_loop_lem :
      (n : ℕ) (rs : List (Option A)) (xs : List A)
      → clear_loop
          (length xs - n)
          (length (rs ++ replicate (length xs - n) none))
          (rs ++ replicate (length xs - n) none)
          xs
        ≡ (rs ++ map some (drop n xs), take n xs)
  clear_loop_lem n rs xs =
      rw (length-append, length-replicate)
        (rw (take-append-drop n xs) at
          (clear_loop-append (length xs - n) rs (take n xs) (drop n xs) (length-drop n xs)))

  clear_count_lem : (n : ℕ) (q : Queue A) → clear_count n q ≡ length q.queue - n
  unfolding clear_count
  clear_count_lem n q = ground arith

  -- clear() keeps the first items as they are, appends the others to `removed_` in their order,
  -- and returns their number; the limit and the dropped IDs stay.
  pub clear_lem :
      (n : ℕ) (q : Queue A)
      → clear n q ≡ (
        record q { queue = take n q.queue; removed = q.removed ++ map some (drop n q.queue) },
        length q.queue - n,
      )
  unfolding clear
  clear_lem n q =
      rw (clear_count_lem n q, clear_loop_lem n q.removed q.queue)
        (elim (Bool-cases (ltb 0 (length q.queue - n))) [
          | inl more ↦ rw more
          | inr less ↦
              let fits : length q.queue ≤ n = omega tests in
              rw (less, take_all n q.queue fits, drop_all n q.queue fits, append-nil q.removed)
        ])

  -- The first item of a list, if any, fails the test.
  abbrev pub Stops : (A → Bool) → List A → Type 0
  Stops pred [] = Unit
  Stops pred (x ∷ xs) = pred x ≡ false

  -- A list is cut in two where the test fails first.
  abbrev pub Cut : (A → Bool) → List A → List A → List A → Type ℓ
  Cut pred xs gone kept = (xs ≡ gone ++ kept) × All (λ x. pred x ≡ true) gone × Stops pred kept

  clear_while_loop_lem :
      (pred : A → Bool) (count : ℕ) (rs : List (Option A)) (xs : List A)
      → (gone : List A) × (kept : List A) × Cut pred xs gone kept
        × (clear_while_loop pred count rs xs ≡ (rs ++ map some gone, kept, count + length gone))
  unfolding clear_while_loop
  clear_while_loop_lem pred count rs [] =
      ([], [], (refl, tt, tt), rw (append-nil rs, add-zero count))
  clear_while_loop_lem pred count rs (x ∷ xs) = elim (Bool-cases (pred x)) [
    | inl passes ↦
        let (gone, kept, (e, passed, stops), r) =
          clear_while_loop_lem pred (count + 1) (rs ++ some x ∷ []) xs in
        (
          x ∷ gone,
          kept,
          (ap (◌∷◌ x) e, (passes, passed), stops),
          rw passes (
              r
              ∙ rw (
                append_assoc rs (some x ∷ []) (map some gone),
                add_suc_left count (length gone),
              )),
        )
    | inr fails ↦ ([], x ∷ xs, (refl, tt, fails), rw (fails, append-nil rs, add-zero count))
  ]

  -- clear_while() takes the items off the front up to the first one that fails the test, appends
  -- them to `removed_` in their order, and returns their number.
  pub clear_while_lem :
      (pred : A → Bool) (q : Queue A)
      → (gone : List A) × (kept : List A) × Cut pred q.queue gone kept
        × (clear_while pred q
            ≡ (record q { queue = kept; removed = q.removed ++ map some gone }, length gone))
  unfolding clear_while
  clear_while_lem pred q =
      let (gone, kept, cut, e) = clear_while_loop_lem pred 0 q.removed q.queue in
      (gone, kept, cut, rw e (rw (zero-add (length gone))))
