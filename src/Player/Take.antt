-- ===== src/Player/Take.antt =====
-- pick_next_item() and try_take_next() of src/streamer.cc.
-- An item is a place: the stream that is handled, or the head of the queue. try_take_next() takes the
-- head off the queue before it answers, so the item that it answers is always the stream that is
-- handled.
pub mod Outcome
pub mod Failures
pub mod Head
use streamplayer.Base.{Bool, true, false, Option, none, some, if◌then◌else◌}
use streamplayer.Queue.{pop, pop_drop, peek}
use streamplayer.Reasons.{Reason, queue_empty, url_missing}
use streamplayer.Urls.{is_empty}
use streamplayer.Item.{
  Item, ItemState, in_queue, about_to_activate, active_half_playing, active_now_playing,
  about_to_phase_out, about_to_be_skipped, fail,
}
use streamplayer.Player.{
  Player, FailureDetails, details_on_stop, do_error_recovery, recover_from_error_now_or_later,
}

-- Whether the stream that is handled has not been played yet.
unfoldable pub is_about_to_play : ItemState → Bool
is_about_to_play in_queue = true
is_about_to_play about_to_activate = true
is_about_to_play active_half_playing = true
is_about_to_play active_now_playing = false
is_about_to_play about_to_phase_out = false
is_about_to_play about_to_be_skipped = false

unfoldable pub is_in_queue : ItemState → Bool
is_in_queue in_queue = true
is_in_queue _ = false

pub data Picked : Type 0 where
  nothing : Picked
  current_stream queue_head : Item → Picked

unfoldable pub pick_head : Option Item → Picked
pick_head none = nothing
pick_head (some i) = queue_head i

-- Whether the item is in the queue is part of which item it is.
unfoldable pub pick_next_item : Option Item → Option Item → Picked
pick_next_item none head = pick_head head
pick_next_item (some i) head = if is_about_to_play i.state then current_stream i else pick_head head

-- What try_take_next() answers: whether there is a next stream, and the two values that it gives back
-- through its references.
pub record Taken : Type 0 where
  pub found : Bool
  pub replaced_current_stream : Bool
  pub current_stream_is_just_in_queue : Bool

unfoldable pub just_in_queue : Option Item → Bool
just_in_queue none = false
just_in_queue (some i) = is_in_queue i.state

unfoldable pub found_next : Bool → Player → Player × Taken
found_next replaced p = (
  p,
  record {
    found = true;
    replaced_current_stream = replaced;
    current_stream_is_just_in_queue = just_in_queue p.current_stream;
  },
)

unfoldable pub nothing_found : Bool → Taken
nothing_found replaced = record {
  found = false;
  replaced_current_stream = replaced;
  current_stream_is_just_in_queue = false;
}

-- pop() into the stream that is handled: it stays if the queue is empty.
unfoldable pub pop_to_current : Player → Player
pop_to_current p =
    let (q, i) = pop p.queue in
    record p { queue = q; current_stream = elim i [ none ↦ p.current_stream | some j ↦ some j ] }

unfoldable pub fail_current : FailureDetails → Option Item → Player → Player
fail_current fd none p = p
fail_current fd (some i) p =
    let (j, first) = fail i in
    let failed = record p { current_stream = some j } in
    if first then recover_from_error_now_or_later fd failed else failed

-- The failure handling, by the stream that is handled and the head of the queue.
unfoldable pub take_failed : FailureDetails → Option Item → Option Item → Player → Player × Taken
take_failed fd (some i) queued p =
    let r = pop_to_current p in (fail_current fd r.current_stream r, nothing_found true)
take_failed fd none (some i) p =
    let r = record p { queue = (pop_drop p.queue).0 } in
    (fail_current fd r.current_stream r, nothing_found false)
take_failed fd none none p = (do_error_recovery fd.reason p, nothing_found false)

unfoldable pub is_some : Option Item → Bool
is_some none = false
is_some (some i) = true

-- A failure by its reason.
unfoldable pub take_fails : Reason → Player → Player × Taken
take_fails reason p =
    let fd = record (details_on_stop (is_some p.current_stream)) { reason = reason } in
    take_failed fd p.current_stream (peek p.queue) p

unfoldable pub take_picked : Bool → Picked → Player → Player × Taken
take_picked is_queued_item_expected nothing p =
    if is_queued_item_expected then take_fails queue_empty p else (p, nothing_found false)
take_picked is_queued_item_expected (current_stream i) p =
    if is_empty i.stream_urls then take_fails url_missing p else found_next false p
take_picked is_queued_item_expected (queue_head i) p =
    if is_empty i.stream_urls then take_fails url_missing p else found_next true (pop_to_current p)

unfoldable pub try_take_next : Bool → Player → Player × Taken
try_take_next is_queued_item_expected p =
    take_picked is_queued_item_expected (pick_next_item p.current_stream (peek p.queue)) p
