-- ===== src/Player/StateChange.antt =====
-- A change of the pipeline's state: handle_stream_state_change() of src/streamer.cc, and the functions
-- that it calls.
-- The message says the old state, the state and the pending one. Whether it is about a video decoder is
-- a parameter; for such a message the result says whether an error is posted on the pipeline, which is
-- then a later message. A message that is only traced, from another element, changes nothing.
pub mod Stopped
use streamplayer.Base.{Bool, true, false, not, ◌&&◌, ◌||◌, Option, none, some, if◌then◌else◌}
use streamplayer.Queue.{pop}
use streamplayer.Buffering
use streamplayer.Buffering.{is_buffering, reset}
use streamplayer.Reasons.{wrong_type}
use streamplayer.Item.{
  Item, ItemState, in_queue, about_to_activate, active_half_playing, active_now_playing,
  about_to_phase_out, about_to_be_skipped, prefail, UrlState, known_direct_url, known_airable_link,
  resolving_link, known_resolved_url, broken, get_selected_url_state,
}
use streamplayer.Player.{
  Player, GstState, void_pending, null, ready, paused, playing, Sender, is_same_pipeline,
  emits_pause_state, emit, emit_stopped,
}
use streamplayer.Player.Play.{Pipeline}
use streamplayer.Player.Filling.{report_if_unwatched, try_leave_buffering_state}
use streamplayer.Player.Activation.{
  ActivateStreamResult, invalid_item, invalid_state, already_active, activated, activate_stream,
}

unfoldable pub emit_pause_state_of : Option Item → Bool → Player → Player
emit_pause_state_of none is_paused p = p
emit_pause_state_of (some i) is_paused p = emit (emits_pause_state i.stream_id is_paused) p

-- The stream, which the code does not check, is there.
unfoldable pub emit_pause_state_if_not_buffering : Bool → Player → Player
emit_pause_state_if_not_buffering is_paused p =
    if is_buffering p.stream_buffering_data
    then p
    else emit_pause_state_of p.current_stream is_paused p

unfoldable pub emit_if_active : ActivateStreamResult → Bool → Player → Player
emit_if_active invalid_item is_paused p = p
emit_if_active invalid_state is_paused p = p
emit_if_active already_active is_paused p = emit_pause_state_if_not_buffering is_paused p
emit_if_active activated is_paused p = emit_pause_state_if_not_buffering is_paused p

unfoldable pub activate_stream_and_emit_pause_state : Bool → Player → Player
activate_stream_and_emit_pause_state is_paused p =
    let (q, result) = activate_stream 0 p.current_stream p in emit_if_active result is_paused q

-- A pause that has been reached may end the wait for the buffer.
unfoldable pub pause_entered : Pipeline → Player → Player
pause_entered g p =
    let (d, entered) = Buffering.entered_pause p.stream_buffering_data in
    let q = record p { stream_buffering_data = d } in
    if entered then try_leave_buffering_state g q else q

unfoldable pub is_at_rest : GstState → Bool
is_at_rest ready = true
is_at_rest null = true
is_at_rest _ = false

unfoldable pub is_pausing : GstState → Bool
is_pausing paused = true
is_pausing _ = false

unfoldable pub is_playing : GstState → Bool
is_playing playing = true
is_playing _ = false

unfoldable pub nothing_pending : GstState → Bool
nothing_pending void_pending = true
nothing_pending _ = false

-- What the new state says.
unfoldable pub new_state : Pipeline → GstState → GstState → GstState → Player → Player
new_state g null oldstate pending p = record p { progress_watcher = false }
new_state g ready oldstate pending p = record p { progress_watcher = false }
new_state g paused oldstate pending p =
    let started = record p { stream_has_just_started = true } in
    if is_at_rest oldstate && is_playing pending
    then (if is_pausing g.target_state
        then pause_entered g started
        else record started { stream_buffering_data = reset p.stream_buffering_data })
    else p
new_state g playing oldstate pending p = p
new_state g void_pending oldstate pending p = p

-- The next stream takes the place of the one that is handled, if there is one.
unfoldable pub pop_or_wipe : Player → Player
pop_or_wipe p = let (q, next) = pop p.queue in record p { queue = q; current_stream = next }

unfoldable pub after_stop : Player → Player
after_stop p =
    let q =
      if p.current_stream_protected_once
      then record p { current_stream_protected_once = false }
      else pop_or_wipe p in
    record q { stream_has_just_started = false }

unfoldable pub stopped_with : UrlState → Player → Player
stopped_with known_direct_url p = after_stop (emit_stopped p)
stopped_with known_resolved_url p = after_stop (emit_stopped p)
stopped_with known_airable_link p = p
stopped_with resolving_link p = p
stopped_with broken p = after_stop p

unfoldable pub previous_stream_stopped : Option Item → Player → Player
previous_stream_stopped none p = after_stop p
previous_stream_stopped (some i) p = stopped_with (get_selected_url_state i) p

-- What the pipeline's target says, when nothing is pending any more.
unfoldable pub target_reached : Pipeline → GstState → Player → Player
target_reached g ready p = previous_stream_stopped p.current_stream (record p { uri = "" })
target_reached g paused p =
    report_if_unwatched g (pause_entered g (activate_stream_and_emit_pause_state true p))
target_reached g playing p =
    let q =
      if p.stream_has_just_started
      then emit_pause_state_if_not_buffering false p
      else activate_stream_and_emit_pause_state false p in
    record q { stream_has_just_started = false; progress_watcher = true }
target_reached g void_pending p = p
target_reached g null p = p

unfoldable pub same_rest : GstState → GstState → Bool
same_rest ready ready = true
same_rest null null = true
same_rest _ _ = false

unfoldable pub state_changed : Pipeline → GstState → GstState → GstState → Player → Player
state_changed g oldstate state pending p =
    let q = new_state g state oldstate pending p in
    if same_rest oldstate state
    then p
    else (if nothing_pending pending then target_reached g g.target_state q else q)

unfoldable pub shows_video : GstState → Bool
shows_video paused = true
shows_video playing = true
shows_video ready = true
shows_video _ = false

-- Whether the stream is one for which the error is posted.
unfoldable pub is_in_use : ItemState → Bool
is_in_use about_to_activate = true
is_in_use active_half_playing = true
is_in_use active_now_playing = true
is_in_use about_to_phase_out = true
is_in_use in_queue = false
is_in_use about_to_be_skipped = false

unfoldable pub block_video_of : Option Item → Player → Player × Bool
block_video_of none p = (p, false)
block_video_of (some i) p =
    let (j, first) = prefail wrong_type i in
    (record p { current_stream = some j }, first && is_in_use j.state)

unfoldable pub block_video : GstState → Player → Player × Bool
block_video state p = if shows_video state then block_video_of p.current_stream p else (p, false)

unfoldable pub handle_stream_state_change :
    Pipeline → Sender → Bool → Bool → GstState → GstState → GstState → Player → Player × Bool
handle_stream_state_change g sender is_ours is_video_decoder oldstate state pending p =
    let (q, posted) = if is_video_decoder then block_video state p else (p, false) in
    if is_same_pipeline sender p
    then (if is_ours then state_changed g oldstate state pending q else q, posted)
    else (p, false)
