-- ===== src/Queue.antt =====
-- The queue of items to play, src/urlfifo.hh (class PlayQueue::Queue).
-- An `std::deque` is a list, its front first; an entry of `removed_` is an owned pointer, `none`
-- being the null pointer that `resize()` fills in. Every method returns the queue after the call.
-- A container that has been moved out of is empty, as the deque and the set of the library are.
pub mod Clear
pub mod Push
pub mod History
mod Tests
use streamplayer.Base.{
  ℕ, zero, suc, ◌+◌, ◌-◌, Bool, true, false, ◌||◌, Option, none, some, List, [], ◌∷◌, ◌++◌, length,
  get_elem?, set, replicate, ltb, leb, ◌==◌, if◌then◌else◌,
}

pub record Queue {ℓ} (A : Type ℓ) : Type ℓ where
  pub max_number_of_items : ℕ
  pub queue : List A
  pub removed : List (Option A)
  pub dropped : List ℕ

-- An `std::unordered_set` of stream IDs.
pub contains : ℕ → List ℕ → Bool
contains i [] = false
contains i (j ∷ js) = i == j || contains i js

insert : ℕ → List ℕ → List ℕ
insert i ids = if contains i ids then ids else i ∷ ids

module _ {ℓ} {A : Type ℓ} where
  -- front(), back() and pop_back() of the deque.
  abbrev pub front : List A → Option A
  front [] = none
  front (x ∷ xs) = some x

  abbrev back : List A → Option A
  back [] = none
  back (x ∷ []) = some x
  back (x ∷ y ∷ xs) = back (y ∷ xs)

  abbrev pop_back : List A → List A
  pop_back [] = []
  pop_back (x ∷ []) = []
  pop_back (x ∷ y ∷ xs) = x ∷ pop_back (y ∷ xs)

  pub init : ℕ → Queue A
  init n = record { max_number_of_items = n; queue = []; removed = []; dropped = [] }

  unfoldable pub size : Queue A → ℕ
  size q = length q.queue

  unfoldable pub is_empty : Queue A → Bool
  is_empty q = elim q.queue [ [] ↦ true | _ ∷ _ ↦ false ]

  unfoldable pub full : Queue A → Bool
  unfolding size
  full q = leb q.max_number_of_items (size q)

  -- The loop of clear(). The reverse iterator is kept as its base: it points to the entry below.
  clear_loop : ℕ → ℕ → List (Option A) → List A → List (Option A) × List A
  clear_loop zero base rs xs = (rs, xs)
  clear_loop (suc n) base rs xs =
      clear_loop n (base - 1) (set rs (base - 1) (back xs)) (pop_back xs)

  -- The number of items that clear() takes off.
  clear_count : ℕ → Queue A → ℕ
  unfolding size
  clear_count keep_first_n q = if ltb keep_first_n (size q) then size q - keep_first_n else 0

  pub clear : ℕ → Queue A → Queue A × ℕ
  clear keep_first_n q =
      let result = clear_count keep_first_n q in
      let rs = q.removed ++ replicate result none in
      let (removed', queue') = clear_loop result (length rs) rs q.queue in
      if ltb 0 result
      then (record q { queue = queue'; removed = removed' }, result)
      else (q, result)

  pub push : A → ℕ → Queue A → Queue A × ℕ
  push item keep_first_n q =
      let (q', cleared) = clear keep_first_n q in
      let q'' = record q' { queue = q'.queue ++ item ∷ [] } in
      if cleared == 0 then (if full q' then (q', 0) else (q'', size q'')) else (q'', size q'')

  -- The removed head element, if there was one.
  unfoldable pub pop : Queue A → Queue A × Option A
  pop q = elim q.queue [ [] ↦ (q, none) | x ∷ xs ↦ (record q { queue = xs }, some x) ]

  unfoldable pub pop_drop : Queue A → Queue A × Bool
  pop_drop q = elim q.queue [
    | [] ↦ (q, false)
    | x ∷ xs ↦ (record q { queue = xs; removed = q.removed ++ some x ∷ [] }, true)
  ]

  unfoldable pub mark_as_dropped : ℕ → Queue A → Queue A
  unfolding insert contains
  mark_as_dropped id q = record q { dropped = insert id q.dropped }

  -- The loop of clear_while(), with its counter.
  clear_while_loop : (A → Bool) → ℕ → List (Option A) → List A → List (Option A) × List A × ℕ
  clear_while_loop pred count rs [] = (rs, [], count)
  clear_while_loop pred count rs (x ∷ xs) =
      let rest = clear_while_loop pred (count + 1) (rs ++ some x ∷ []) xs in
      if pred x then rest else (rs, x ∷ xs, count)

  pub clear_while : (A → Bool) → Queue A → Queue A × ℕ
  clear_while pred q =
      let (removed', queue', count) = clear_while_loop pred 0 q.removed q.queue in
      (record q { queue = queue'; removed = removed' }, count)

  -- peek() and peek(pos): `none` is the null pointer.
  unfoldable pub peek : Queue A → Option A
  peek q = front q.queue

  unfoldable pub peek_at : ℕ → Queue A → Option A
  peek_at pos q = get_elem? q.queue pos

  unfoldable pub get_removed : Queue A → Queue A × List (Option A)
  get_removed q = (record q { removed = [] }, q.removed)

  unfoldable pub get_dropped : Queue A → Queue A × List ℕ
  get_dropped q = (record q { dropped = [] }, q.dropped)
