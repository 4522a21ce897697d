-- ===== src/Player/Activation/Gapless.antt =====
-- The next stream starts while the stream that is handled is at its end.
use streamplayer.Base.{
  ◌≡◌, refl, ◌⊎◌, inl, inr, Bool, true, false, Bool-cases, Option, none, some, List, [], ◌∷◌,
  if◌then◌else◌,
}
use streamplayer.Queue.{peek, full, is_empty, get_removed, get_dropped}
use streamplayer.Buffering.{is_buffering}
use streamplayer.Item.{
  Item, ItemState, about_to_activate, active_now_playing, about_to_phase_out, set_state,
  get_url_for_reporting,
}
use streamplayer.Player.{
  Player, invalidate_position_information, ids, others, mk_id_array, mk_id_array_from_dropped_items,
  emits_now_playing, emit,
}
use streamplayer.Player.Take.{is_about_to_play, pick_next_item, pick_head}
use streamplayer.Player.Take.Head.{taken_head, head_popped, picked_head}
use streamplayer.Player.Take.Outcome.{AboutToPlay}
use streamplayer.Player.Play.{Pipeline, item_at, put_at, set_state_at}
use streamplayer.Player.Filling.{boost_for}
use streamplayer.Player.Activation.{
  ActivateStreamResult, activate_half, activate_in, activate_item, activate_stream, announce,
  emit_now_playing, needs_activation, picked_stream, is_deferred, pushes_next, start_picked,
  start_any, handle_start_of_stream,
}

-- The state of a stream that has started.
abbrev pub started : List Item → Item → Item
started [] h = set_state about_to_phase_out h
started (i ∷ is) h = set_state active_now_playing h

boost_keeps :
    (o : Option Item) (p : Player)
    → (b : Bool) × (boost_for o p ≡ record p { is_boost_enabled = b })
unfolding boost_for
boost_keeps none p = (p.is_boost_enabled, refl)
boost_keeps (some i) p = elim (Bool-cases i.enable_realtime_processing) [
  | inl e ↦ (true, rw e refl)
  | inr e ↦ (p.is_boost_enabled, rw e refl)
]

boosted_or_not :
    (wait : Bool) (o : Option Item) (p : Player)
    → (b : Bool) × ((if wait then p else boost_for o p) ≡ record p { is_boost_enabled = b })
boosted_or_not true o p = (p.is_boost_enabled, refl)
boosted_or_not false o p = boost_keeps o p

-- The player after the head of its queue has been taken and has started.
abbrev now_handles : Pipeline → Item → List Item → Player → Player
now_handles g h rest p =
    announce g ActivateStreamResult.activated
      (record (taken_head h rest p) { current_stream = some (started rest h) })

head_starts :
    (g : Pipeline) (p : Player) (h : Item) (rest : List Item) (s : ItemState)
    → p.queue.queue ≡ h ∷ rest
    → h.state ≡ about_to_activate
    → is_deferred p.next_stream_request ≡ false
    → start_picked g h true p ≡ now_handles g h rest p
unfolding start_picked needs_activation set_state_at item_at put_at activate_stream activate_item
    activate_in activate_half is_empty pushes_next set_state
head_starts g p h [] s e about r = simp (about, head_popped p h [] e, r) refl
head_starts g p h (i ∷ is) s e about r = simp (about, head_popped p h (i ∷ is) e, r) refl

-- Whether the stream that is handled is at its end, or goes on while the next one is awaited.
unfoldable pub IsPlayed : ItemState → Type 0
IsPlayed s = (s ≡ active_now_playing) ⊎ (s ≡ about_to_phase_out)

played_not_about :
    (p : Player) (c : Item)
    → p.current_stream ≡ some c
    → IsPlayed c.state
    → AboutToPlay p.current_stream
    → ⊥
unfolding AboutToPlay IsPlayed is_about_to_play
played_not_about p c here (inl e) = rw (here, e) (λ k. cc)
played_not_about p c here (inr e) = rw (here, e) (λ k. cc)

found_head :
    (g : Pipeline) (b : Bool) (p : Player) (c h : Item) (rest : List Item)
    → p.current_stream ≡ some c
    → IsPlayed c.state
    → p.queue.queue ≡ h ∷ rest
    → h.state ≡ about_to_activate
    → is_deferred p.next_stream_request ≡ false
    → start_any g
        (picked_stream p.current_stream (pick_next_item p.current_stream (peek p.queue)))
        (record p { is_boost_enabled = b })
      ≡ now_handles g h rest (record p { is_boost_enabled = b })
unfolding start_any picked_stream pick_head peek
found_head g b p c h rest here played e about r =
    simp (e, picked_head p.current_stream (some h) (played_not_about p c here played))
      (head_starts g (record p { is_boost_enabled = b }) h rest h.state e about r)

reported_url :
    (rest : List Item) (h : Item) → get_url_for_reporting (started rest h) ≡ get_url_for_reporting h
unfolding get_url_for_reporting set_state
reported_url [] h = refl
reported_url (i ∷ is) h = refl

reported_id : (rest : List Item) (h : Item) → (started rest h).stream_id ≡ h.stream_id
unfolding set_state
reported_id [] h = refl
reported_id (i ∷ is) h = refl

-- The start of a stream, while the stream that is handled plays or is at its end, and the head of the
-- queue has been given to the pipeline, and no further stream has been asked for that could not be
-- given to it: the head is taken off the queue and handled, it plays, or, if nothing is left in the
-- queue, it is about to end the play; it is announced once, with all IDs that have been dropped
-- before, whose report is over with it; and the position is that of a new stream.
pub next_stream_starts :
    (g : Pipeline) (p : Player) (c h : Item) (rest : List Item)
    → p.current_stream ≡ some c
    → IsPlayed c.state
    → p.queue.queue ≡ h ∷ rest
    → h.state ≡ about_to_activate
    → is_deferred p.next_stream_request ≡ false
    → let q = handle_start_of_stream g p in
      (q.current_stream ≡ some (started rest h))
      × (q.queue.queue ≡ rest)
      × (q.signals
          ≡ emits_now_playing h.stream_id
              (get_url_for_reporting h)
              (full (record p.queue { queue = rest; removed = []; dropped = [] }))
              (mk_id_array_from_dropped_items p.queue).1
            ∷ p.signals)
      × ((mk_id_array_from_dropped_items q.queue).1 ≡ [])
      × (q.previous_time ≡ invalidate_position_information)
      × (q.supposed_play_status ≡ p.supposed_play_status)
unfolding handle_start_of_stream announce emit_now_playing emit mk_id_array_from_dropped_items
    get_removed get_dropped mk_id_array ids others
next_stream_starts g p c h rest here played e about r =
    let (b, k) = boosted_or_not (is_buffering p.stream_buffering_data) p.current_stream p in
    rw (k, found_head g b p c h rest here played e about r)
      (refl, refl, simp (reported_url rest h, reported_id rest h) refl, refl, refl, refl)
