-- ===== src/Player/Activation.antt =====
-- The start of a stream: activate_stream(), emit_now_playing() and handle_start_of_stream() of
-- src/streamer.cc.
-- What becomes of the item that activate_stream() is given is part of its result. A start of a stream
-- while nothing is handled or queued, which the code takes for a bug before it uses the null pointer,
-- changes nothing here; the checks that only end in the log are left out, the stream's cover art and
-- tags too. The times that are queried are those of the pipeline in use, whoever sent the message.
pub mod Forward
pub mod Gapless
use streamplayer.Base.{ℕ, Bool, true, false, not, ◌||◌, ◌==◌, Option, none, some, if◌then◌else◌}
use streamplayer.Queue.{Queue, is_empty, full, peek}
use streamplayer.Buffering.{is_buffering}
use streamplayer.Item.{
  Item, ItemState, in_queue, about_to_activate, active_half_playing, active_now_playing,
  about_to_phase_out, about_to_be_skipped, set_state, get_url_for_reporting,
}
use streamplayer.Player.{
  Player, NextStreamRequestState, not_requested, requested, request_deferred,
  invalidate_position_information, mk_id_array_from_dropped_items, emits_now_playing, emit,
}
use streamplayer.Player.Take.{
  Picked, nothing, current_stream, queue_head, pick_next_item, pop_to_current,
}
use streamplayer.Player.Play.{Pipeline, Place, handled, set_state_at}
use streamplayer.Player.Progress.{query_seconds}
use streamplayer.Player.Filling.{boost_for}
use streamplayer.Player.Requests.{queue_stream}

pub data ActivateStreamResult : Type 0 where
  invalid_item invalid_state already_active activated : ActivateStreamResult

unfoldable pub activate_half : Bool → ℕ → Item → Item × ActivateStreamResult
activate_half fifo_is_empty phase i =
    if phase == 0 || phase == 1
    then (i, already_active)
    else (if phase == 2
        then (
          set_state (if fifo_is_empty then about_to_phase_out else active_now_playing) i,
          activated,
        )
        else (i, invalid_state))

unfoldable pub activate_now : ℕ → Item → Item × ActivateStreamResult
activate_now phase i = (i, if phase == 0 || phase == 2 then already_active else invalid_state)

unfoldable pub activate_first : ℕ → Item → Item × ActivateStreamResult
activate_first phase i =
    if phase == 0 || phase == 1
    then (set_state active_half_playing i, activated)
    else (if phase == 2 then (set_state active_now_playing i, activated) else (i, invalid_state))

unfoldable pub activate_in : ItemState → Bool → ℕ → Item → Item × ActivateStreamResult
activate_in active_half_playing fifo_is_empty phase i = activate_half fifo_is_empty phase i
activate_in active_now_playing fifo_is_empty phase i = activate_now phase i
activate_in about_to_phase_out fifo_is_empty phase i = activate_now phase i
activate_in in_queue fifo_is_empty phase i = (set_state about_to_be_skipped i, invalid_state)
activate_in about_to_be_skipped fifo_is_empty phase i = (i, invalid_state)
activate_in about_to_activate fifo_is_empty phase i = activate_first phase i

unfoldable pub activate_item : Bool → ℕ → Item → Item × ActivateStreamResult
activate_item fifo_is_empty phase i = activate_in i.state fifo_is_empty phase i

unfoldable pub activate_stream : ℕ → Option Item → Player → Player × ActivateStreamResult
activate_stream phase none p = (p, invalid_item)
activate_stream phase (some i) p =
    let (j, result) = activate_item (is_empty p.queue) phase i in
    (record p { current_stream = some j }, result)

unfoldable pub emit_now_playing : Option Item → Player → Player
emit_now_playing none p = p
emit_now_playing (some i) p =
    let (q, dropped_ids) = mk_id_array_from_dropped_items p.queue in
    emit (emits_now_playing i.stream_id (get_url_for_reporting i) (full q) dropped_ids)
      (record p { queue = q })

-- The item that is picked, and whether it is in the queue.
unfoldable pub picked_stream : Option Item → Picked → Option Item × Bool
picked_stream c nothing = (c, false)
picked_stream c (current_stream i) = (some i, false)
picked_stream c (queue_head i) = (some i, true)

-- Whether the next item, if there is one, is about to be activated too.
unfoldable pub next_activates : Option Item → Bool
next_activates none = false
next_activates (some i) = elim i.state [ about_to_activate ↦ true | _ ↦ false ]

unfoldable pub needs_activation : ItemState → Option Item → Bool
needs_activation active_half_playing next_stream = next_activates next_stream
needs_activation active_now_playing next_stream = false
needs_activation in_queue next_stream = true
needs_activation about_to_be_skipped next_stream = true
needs_activation about_to_phase_out next_stream = true
needs_activation about_to_activate next_stream = true

unfoldable pub is_deferred : NextStreamRequestState → Bool
is_deferred request_deferred = true
is_deferred not_requested = false
is_deferred requested = false

unfoldable pub pushes_next : ItemState → NextStreamRequestState → Bool
pushes_next active_half_playing next_stream_request = false
pushes_next active_now_playing next_stream_request = false
pushes_next in_queue next_stream_request = is_deferred next_stream_request
pushes_next about_to_be_skipped next_stream_request = is_deferred next_stream_request
pushes_next about_to_phase_out next_stream_request = is_deferred next_stream_request
pushes_next about_to_activate next_stream_request = is_deferred next_stream_request

unfoldable pub announce : Pipeline → ActivateStreamResult → Player → Player
announce g invalid_item p = p
announce g invalid_state p = p
announce g already_active p = p
announce g activated p = emit_now_playing p.current_stream (record p {
  previous_time = invalidate_position_information;
  current_time = record p.current_time { duration_s = query_seconds g.duration_ns };
})

-- From the choice of the stream on: it is taken off the queue if it is there, activated, and announced.
unfoldable pub start_picked : Pipeline → Item → Bool → Player → Player
start_picked g picked next_stream_is_in_fifo p =
    let need_activation = needs_activation picked.state (peek p.queue) in
    let taken = if next_stream_is_in_fifo then pop_to_current p else p in
    let marked =
      if need_activation then set_state_at active_half_playing handled taken else taken in
    let (active, result) = activate_stream 2 marked.current_stream marked in
    let announced = announce g result active in
    if pushes_next picked.state p.next_stream_request
    then queue_stream g (record announced { next_stream_request = requested })
    else announced

unfoldable pub start_any : Pipeline → Option Item × Bool → Player → Player
start_any g (none, next_stream_is_in_fifo) p = p
start_any g (some i, next_stream_is_in_fifo) p = start_picked g i next_stream_is_in_fifo p

unfoldable pub handle_start_of_stream : Pipeline → Player → Player
handle_start_of_stream g p =
    let picked = picked_stream p.current_stream (pick_next_item p.current_stream (peek p.queue)) in
    let boosted =
      if is_buffering p.stream_buffering_data then p else boost_for p.current_stream p in
    start_any g picked boosted
