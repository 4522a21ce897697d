-- ===== src/Player/Events/Quiet/Streams.antt =====
-- Starts of streams and changes of the pipeline's state keep the threads from being boosted while the
-- player waits for data.
use streamplayer.Base.{
  ℕ, ◌≡◌, refl, Bool, true, false, ◌&&◌, Option, none, some, if◌then◌else◌, arith,
}
use streamplayer.Buffering
use streamplayer.Buffering.{Data, is_buffering, reset}
use streamplayer.Item.{
  Item, UrlState, known_direct_url, known_airable_link, resolving_link, known_resolved_url, broken,
}
use streamplayer.Player.{Player, GstState, void_pending, null, ready, paused, playing, Sender, emit}
use streamplayer.Player.Take.{pop_to_current}
use streamplayer.Player.Play.{Pipeline, handled}
use streamplayer.Player.Filling.{boost_for}
use streamplayer.Player.Activation.{
  ActivateStreamResult, invalid_item, invalid_state, already_active, activated, activate_stream,
  emit_now_playing, announce, start_picked, start_any, handle_start_of_stream,
}
use streamplayer.Player.StateChange.{
  emit_pause_state_of, emit_pause_state_if_not_buffering, emit_if_active,
  activate_stream_and_emit_pause_state, pause_entered, new_state, pop_or_wipe, is_at_rest,
  is_pausing, is_playing, nothing_pending, same_rest, after_stop, stopped_with,
  previous_stream_stopped, target_reached, state_changed, block_video_of, block_video,
  handle_stream_state_change,
}
use streamplayer.Player.Events.Quiet.{IsQuiet, if-IsQuiet, if_pair-IsQuiet, set_state_at-IsQuiet}
use streamplayer.Player.Events.Quiet.Taking.{emit_stopped-IsQuiet, queue_stream-IsQuiet}
use streamplayer.Player.Events.Quiet.Messages.{
  boost_for-IsQuiet, report_if_unwatched-IsQuiet, try_leave-IsQuiet,
}

pub activate_stream-IsQuiet :
    (n : ℕ) (o : Option Item) (p : Player) → IsQuiet p → IsQuiet (activate_stream n o p).0
unfolding activate_stream
activate_stream-IsQuiet n none p h = h
activate_stream-IsQuiet n (some i) p h = h

emit_now_playing-IsQuiet :
    (o : Option Item) (p : Player) → IsQuiet p → IsQuiet (emit_now_playing o p)
unfolding emit_now_playing emit
emit_now_playing-IsQuiet none p h = h
emit_now_playing-IsQuiet (some i) p h = h

announce-IsQuiet :
    (g : Pipeline) (r : ActivateStreamResult) (p : Player) → IsQuiet p → IsQuiet (announce g r p)
unfolding announce
announce-IsQuiet g invalid_item p h = h
announce-IsQuiet g invalid_state p h = h
announce-IsQuiet g already_active p h = h
announce-IsQuiet g activated p h = emit_now_playing-IsQuiet p.current_stream _ h

start_picked-IsQuiet :
    (g : Pipeline) (i : Item) (queued : Bool) (p : Player)
    → IsQuiet p
    → IsQuiet (start_picked g i queued p)
unfolding start_picked pop_to_current
start_picked-IsQuiet g i queued p h =
    let taken = if-IsQuiet queued _ _ h h in
    let marked = if-IsQuiet _ _ _ (set_state_at-IsQuiet _ handled _ taken) taken in
    let announced = announce-IsQuiet g _ _ (activate_stream-IsQuiet 2 _ _ marked) in
    if-IsQuiet _ _ _ (queue_stream-IsQuiet g _ announced) announced

start_any-IsQuiet :
    (g : Pipeline) (k : Option Item × Bool) (p : Player) → IsQuiet p → IsQuiet (start_any g k p)
unfolding start_any
start_any-IsQuiet g (none, queued) p h = h
start_any-IsQuiet g (some i, queued) p h = start_picked-IsQuiet g i queued p h

boost_unless_waiting :
    (b : Bool) (o : Option Item) (p : Player)
    → is_buffering p.stream_buffering_data ≡ b
    → IsQuiet p
    → IsQuiet (if b then p else boost_for o p)
boost_unless_waiting true o p e h = h
boost_unless_waiting false o p e h = boost_for-IsQuiet o p e

pub start_of_stream-IsQuiet :
    (g : Pipeline) (p : Player) → IsQuiet p → IsQuiet (handle_start_of_stream g p)
unfolding handle_start_of_stream
start_of_stream-IsQuiet g p h =
    start_any-IsQuiet g _ _ (boost_unless_waiting _ p.current_stream p refl h)

emit_pause_of-IsQuiet :
    (o : Option Item) (b : Bool) (p : Player) → IsQuiet p → IsQuiet (emit_pause_state_of o b p)
unfolding emit_pause_state_of emit
emit_pause_of-IsQuiet none b p h = h
emit_pause_of-IsQuiet (some i) b p h = h

emit_pause-IsQuiet :
    (b : Bool) (p : Player) → IsQuiet p → IsQuiet (emit_pause_state_if_not_buffering b p)
unfolding emit_pause_state_if_not_buffering
emit_pause-IsQuiet b p h = if-IsQuiet _ _ _ h (emit_pause_of-IsQuiet p.current_stream b p h)

emit_if_active-IsQuiet :
    (r : ActivateStreamResult) (b : Bool) (p : Player) → IsQuiet p → IsQuiet (emit_if_active r b p)
unfolding emit_if_active
emit_if_active-IsQuiet invalid_item b p h = h
emit_if_active-IsQuiet invalid_state b p h = h
emit_if_active-IsQuiet already_active b p h = emit_pause-IsQuiet b p h
emit_if_active-IsQuiet activated b p h = emit_pause-IsQuiet b p h

activate_and_emit-IsQuiet :
    (b : Bool) (p : Player) → IsQuiet p → IsQuiet (activate_stream_and_emit_pause_state b p)
unfolding activate_stream_and_emit_pause_state
activate_and_emit-IsQuiet b p h =
    emit_if_active-IsQuiet _ b _ (activate_stream-IsQuiet 0 p.current_stream p h)

same_wait : (d : Data) → is_buffering (Buffering.entered_pause d).0 ≡ is_buffering d
unfolding Buffering.entered_pause is_buffering
same_wait d = ground arith

pause_entered-IsQuiet : (g : Pipeline) (p : Player) → IsQuiet p → IsQuiet (pause_entered g p)
unfolding pause_entered
pause_entered-IsQuiet g p h =
    let k : IsQuiet
        (record p { stream_buffering_data = (Buffering.entered_pause p.stream_buffering_data).0 }) =
      rw (same_wait p.stream_buffering_data) h in
    if-IsQuiet _ _ _ (try_leave-IsQuiet g _ k) k

reset_is_quiet :
    (p : Player) → (is_buffering (reset p.stream_buffering_data) && p.is_boost_enabled) ≡ false
unfolding reset is_buffering
reset_is_quiet p = refl

new_state-IsQuiet :
    (g : Pipeline) (s old pending : GstState) (p : Player)
    → IsQuiet p
    → IsQuiet (new_state g s old pending p)
unfolding new_state
new_state-IsQuiet g null old pending p h = h
new_state-IsQuiet g ready old pending p h = h
new_state-IsQuiet g paused old pending p h =
    let started = record p { stream_has_just_started = true } in
    if-IsQuiet (is_at_rest old && is_playing pending)
      (if is_pausing g.target_state
        then pause_entered g started
        else record started { stream_buffering_data = reset p.stream_buffering_data })
      p (if-IsQuiet _ _ _ (pause_entered-IsQuiet g started h) (reset_is_quiet p)) h
new_state-IsQuiet g playing old pending p h = h
new_state-IsQuiet g void_pending old pending p h = h

after_stop-IsQuiet : (p : Player) → IsQuiet p → IsQuiet (after_stop p)
unfolding after_stop pop_or_wipe
after_stop-IsQuiet p h = if-IsQuiet p.current_stream_protected_once _ _ h h

stopped_with-IsQuiet : (u : UrlState) (p : Player) → IsQuiet p → IsQuiet (stopped_with u p)
unfolding stopped_with
stopped_with-IsQuiet known_direct_url p h = after_stop-IsQuiet _ (emit_stopped-IsQuiet p)
stopped_with-IsQuiet known_resolved_url p h = after_stop-IsQuiet _ (emit_stopped-IsQuiet p)
stopped_with-IsQuiet known_airable_link p h = h
stopped_with-IsQuiet resolving_link p h = h
stopped_with-IsQuiet broken p h = after_stop-IsQuiet p h

stopped-IsQuiet : (o : Option Item) (p : Player) → IsQuiet p → IsQuiet (previous_stream_stopped o p)
unfolding previous_stream_stopped
stopped-IsQuiet none p h = after_stop-IsQuiet p h
stopped-IsQuiet (some i) p h = stopped_with-IsQuiet _ p h

target_reached-IsQuiet :
    (g : Pipeline) (s : GstState) (p : Player) → IsQuiet p → IsQuiet (target_reached g s p)
unfolding target_reached
target_reached-IsQuiet g ready p h = stopped-IsQuiet p.current_stream _ h
target_reached-IsQuiet g paused p h =
    report_if_unwatched-IsQuiet g _ (pause_entered-IsQuiet g _ (activate_and_emit-IsQuiet true p h))
target_reached-IsQuiet g playing p h =
    if-IsQuiet p.stream_has_just_started _ _ (emit_pause-IsQuiet false p h)
      (activate_and_emit-IsQuiet false p h)
target_reached-IsQuiet g void_pending p h = h
target_reached-IsQuiet g null p h = h

state_changed-IsQuiet :
    (g : Pipeline) (old s pending : GstState) (p : Player)
    → IsQuiet p
    → IsQuiet (state_changed g old s pending p)
unfolding state_changed
state_changed-IsQuiet g old s pending p h =
    let k = new_state-IsQuiet g s old pending p h in
    if-IsQuiet (same_rest old s) p
      (if nothing_pending pending
        then target_reached g g.target_state (new_state g s old pending p)
        else new_state g s old pending p)
      h (if-IsQuiet _ _ _ (target_reached-IsQuiet g g.target_state _ k) k)

block_video_of-IsQuiet : (o : Option Item) (p : Player) → IsQuiet p → IsQuiet (block_video_of o p).0
unfolding block_video_of
block_video_of-IsQuiet none p h = h
block_video_of-IsQuiet (some i) p h = h

block_video-IsQuiet : (s : GstState) (p : Player) → IsQuiet p → IsQuiet (block_video s p).0
unfolding block_video
block_video-IsQuiet s p h = if_pair-IsQuiet _ _ _ (block_video_of-IsQuiet p.current_stream p h) h

pub state_change-IsQuiet :
    (g : Pipeline) (sender : Sender) (is_ours is_video : Bool) (old s pending : GstState)
    (p : Player)
    → IsQuiet p
    → IsQuiet (handle_stream_state_change g sender is_ours is_video old s pending p).0
unfolding handle_stream_state_change
state_change-IsQuiet g sender is_ours is_video old s pending p h =
    let k = if_pair-IsQuiet is_video _ _ (block_video-IsQuiet s p h) h in
    if_pair-IsQuiet _ _ _ (if-IsQuiet is_ours _ _ (state_changed-IsQuiet g old s pending _ k) k) h
