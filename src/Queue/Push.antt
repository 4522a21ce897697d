-- ===== src/Queue/Push.antt =====
-- Queue::push(): all its outcomes.
use streamplayer.Base.{
  ℕ, ◌+◌, ◌≤◌, ◌<◌, ◌≡◌, ◌∙◌, ◌⊎◌, ◌-◌, min, le_or_lt, le→leb, lt→leb_false, eq→==, lt→==_false,
  inl, inr, some, [], ◌∷◌, ◌++◌, map, append-nil, arith, length, length-append, length-take, take,
  drop, take_all, drop_all, ◌==◌, Bool-cases,
}
use streamplayer.Queue.{Queue, size, full, push}
use streamplayer.Queue.Clear.{clear_lem}

module _ {ℓ} {A : Type ℓ} where
  -- What push() makes of a queue that has room, or gets room by dropping items.
  abbrev pub pushed : A → ℕ → Queue A → Queue A
  pushed a n q = record q {
    queue = take n q.queue ++ a ∷ [];
    removed = q.removed ++ map some (drop n q.queue);
  }

  -- push() gives up, with nothing changed, if no item is to go and the limit is reached.
  pub push_full :
      (a : A) (n : ℕ) (q : Queue A)
      → length q.queue ≤ n
      → q.max_number_of_items ≤ length q.queue
      → push a n q ≡ (q, 0)
  unfolding push full size
  push_full a n q keep limit = rw (
    clear_lem n q,
    eq→== (length q.queue - n) 0 (omega arith),
    take_all n q.queue keep,
    drop_all n q.queue keep,
    append-nil q.removed,
    le→leb q.max_number_of_items (length q.queue) limit,
  )

  pub push_room :
      (a : A) (n : ℕ) (q : Queue A)
      → ((n < length q.queue) ⊎ (length q.queue < q.max_number_of_items))
      → push a n q ≡ (pushed a n q, length (pushed a n q).queue)
  unfolding push full size
  push_room a n q (inl cut) = rw (clear_lem n q, lt→==_false (length q.queue - n) 0 (omega arith))
  push_room a n q (inr room) = elim (Bool-cases (length q.queue - n == 0)) [
    | inl keep ↦ rw (
      clear_lem n q,
      keep,
      lt→leb_false q.max_number_of_items (length (take n q.queue))
          (omega (arith, length-take n q.queue)),
    )
    | inr cut ↦ rw (clear_lem n q, cut)
  ]

  -- push() returns 0 exactly when no item is to go and the limit is reached, and then it changes
  -- nothing; otherwise it returns the new length, which is not 0.
  pub push_lem :
      (a : A) (n : ℕ) (q : Queue A)
      → ((length q.queue ≤ n) × (q.max_number_of_items ≤ length q.queue) × (push a n q ≡ (q, 0)))
        ⊎ (((n < length q.queue) ⊎ (length q.queue < q.max_number_of_items))
            × (push a n q ≡ (pushed a n q, min n (length q.queue) + 1)))
  push_lem a n q = elim (le_or_lt (length q.queue) n) [
    | inl keep ↦ elim (le_or_lt q.max_number_of_items (length q.queue)) [
      | inl limit ↦ inl (keep, limit, push_full a n q keep limit)
      | inr room ↦ inr (inr room, counted (inr room))
    ]
    | inr cut ↦ inr (inl cut, counted (inl cut))
  ]
    where
      counted :
          ((n < length q.queue) ⊎ (length q.queue < q.max_number_of_items))
          → push a n q ≡ (pushed a n q, min n (length q.queue) + 1)
      counted h =
          let e : length (take n q.queue ++ a ∷ []) ≡ min n (length q.queue) + 1 =
            omega (arith, length-append (take n q.queue) (a ∷ []), length-take n q.queue) in
          push_room a n q h ∙ rw e
