-- ===== src/Player/Requests/Pushing.antt =====
-- Streamer::push_item() and Streamer::clear_queue(): the queue, and the IDs that are reported.
use streamplayer.Base.{
  ℕ, ◌+◌, ◌≤◌, ◌<◌, ◌≡◌, refl, ◌∙◌, ap, ◌⊎◌, inl, inr, true, some, List, [], ◌∷◌, ◌++◌, map, take,
  drop, arith, length, append-nil, min, lt→==_false,
}
use streamplayer.Queue.{Queue, get_removed, get_dropped}
use streamplayer.Queue.Clear.{clear_lem}
use streamplayer.Queue.Push.{push_lem, pushed}
use streamplayer.Queue.History.{present, present-append, present-map}
use streamplayer.Item.{Item}
use streamplayer.Player.{
  Player, NextStreamRequestState, not_requested, ids, others, mk_id_array,
  mk_id_array_from_dropped_items, mk_id_array_from_queued_items,
}
use streamplayer.Player.Play.{Pipeline}
use streamplayer.Player.Requests.{queue_if_requested, push_item, clear_kept, clear_queue}

-- The queue with nothing to report.
abbrev pub emptied : Queue Item → Queue Item
emptied q = record q { removed = []; dropped = [] }

ids_only : (is : List Item) → mk_id_array is [] ≡ ids is
unfolding mk_id_array others
ids_only is = append-nil (ids is)

dropped_lem :
    (q : Queue Item)
    → mk_id_array_from_dropped_items q ≡ (emptied q, mk_id_array (present q.removed) q.dropped)
unfolding mk_id_array_from_dropped_items get_removed get_dropped
dropped_lem q = refl

-- What is reported for a queue that has had nothing to report before items were moved to what has
-- been removed.
removed_lem :
    (q : Queue Item) (is : List Item)
    → mk_id_array_from_dropped_items (record q { removed = [] ++ map some is; dropped = [] })
      ≡ (emptied q, ids is)
removed_lem q is =
    dropped_lem (record q { removed = [] ++ map some is; dropped = [] })
    ∙ ap (λ js. (emptied q, mk_id_array js [])) (present-map is)
    ∙ ap (λ ns. (emptied q, ns)) (ids_only is)

cleared_queue :
    (n : ℕ) (q : Queue Item)
    → clear_kept (some n) q
      ≡ record q { queue = take n q.queue; removed = q.removed ++ map some (drop n q.queue) }
unfolding clear_kept
cleared_queue n q = ap (λ r. r.0) (clear_lem n q)

-- Items that have been reported are not reported again.
reported_once : (q : Queue Item) → (mk_id_array_from_dropped_items (emptied q)).1 ≡ []
unfolding mk_id_array_from_dropped_items get_removed get_dropped mk_id_array ids others
reported_once q = refl

-- Clearing the queue keeps its first items and reports their IDs as queued, and as dropped those that
-- were to be reported before followed by those of the items that are taken off, and after these
-- those that were only marked as dropped; each is reported once, since nothing is left to report.
pub clear_queue_lem :
    (n : ℕ) (p : Player)
    → let (q, queued, dropped_ids) = clear_queue (some n) p in
      (q.queue.queue ≡ take n p.queue.queue)
      × (queued ≡ ids (take n p.queue.queue))
      × (dropped_ids
          ≡ mk_id_array (present p.queue.removed ++ drop n p.queue.queue) p.queue.dropped)
      × ((mk_id_array_from_dropped_items q.queue).1 ≡ [])
unfolding clear_queue mk_id_array_from_queued_items mk_id_array_from_dropped_items get_removed
    get_dropped
clear_queue_lem n p =
    let cleared = record p.queue {
      queue = take n p.queue.queue;
      removed = p.queue.removed ++ map some (drop n p.queue.queue);
    } in
    simp (cleared_queue n p.queue) (
      refl,
      ids_only (take n p.queue.queue),
      ap (λ js. mk_id_array js p.queue.dropped)
          (present-append p.queue.removed (map some (drop n p.queue.queue))
            ∙ ap (λ js. present p.queue.removed ++ js) (present-map (drop n p.queue.queue))),
      reported_once cleared,
    )

not_asked :
    (g : Pipeline) (r : NextStreamRequestState) (p : Player)
    → r ≡ not_requested
    → queue_if_requested g r p ≡ p
unfolding queue_if_requested
not_asked g r p e = rw (e, queue_if_requested) refl

-- A push that the queue has room for.
pub pushed_item :
    (g : Pipeline) (item : Item) (n : ℕ) (p : Player)
    → p.next_stream_request ≡ not_requested
    → ((n < length p.queue.queue) ⊎ (length p.queue.queue < p.queue.max_number_of_items))
    → push_item g true item n p ≡ (
      record p { queue = emptied (record p.queue { queue = take n p.queue.queue ++ item ∷ [] }) },
      mk_id_array (present p.queue.removed) p.queue.dropped,
      ids (drop n p.queue.queue),
      true,
    )
unfolding push_item
pushed_item g item n p r room = elim (push_lem item n (emptied p.queue)) [
  | inl (keep, full, e) ↦ elim (no_room keep full room) [ ]
  | inr (_, e) ↦
      let cut = record p.queue { queue = take n p.queue.queue ++ item ∷ [] } in
      simp
        (
          dropped_lem p.queue,
          e,
          lt→==_false (min n (length p.queue.queue) + 1) 0 (omega arith),
          not_asked g p.next_stream_request (record p { queue = pushed item n (emptied p.queue) })
              r,
          removed_lem cut (drop n p.queue.queue),
        )
        refl
]
  where
    no_room :
        length p.queue.queue ≤ n
        → p.queue.max_number_of_items ≤ length p.queue.queue
        → ((n < length p.queue.queue) ⊎ (length p.queue.queue < p.queue.max_number_of_items))
        → ⊥
    no_room keep full (inl l) = omega arith
    no_room keep full (inr l) = omega arith
