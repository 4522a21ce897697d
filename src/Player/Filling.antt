-- ===== src/Player/Filling.antt =====
-- How the buffer fills: try_leave_buffering_state() and handle_buffering() of src/streamer.cc.
-- A level below 0 is `none`. The threads are boosted only for a stream that is handled, which the code
-- does not check.
pub mod Cycle
use streamplayer.Base.{ℕ, Bool, true, false, not, ◌&&◌, Option, none, some, leb, if◌then◌else◌}
use streamplayer.Buffering
use streamplayer.Buffering.{
  is_buffering, LevelChange, full_detected, underrun_detected, LeaveBufferingResult, buffer_filled,
  still_buffering,
}
use streamplayer.Item.{Item}
use streamplayer.Player.{Player, playing, PlayStatus, Sender, is_same_pipeline, emits_buffer, emit}
use streamplayer.Player.Play.{Pipeline, set_stream_state, handle_buffer_underrun}
use streamplayer.Player.Progress.{report_progress}

unfoldable pub boost_for : Option Item → Player → Player
boost_for none p = p
boost_for (some i) p =
    if i.enable_realtime_processing then record p { is_boost_enabled = true } else p

unfoldable pub report_if_unwatched : Pipeline → Player → Player
report_if_unwatched g p = if p.progress_watcher then p else (report_progress g p).0

unfoldable pub buffer_is_filled : Pipeline → PlayStatus → Player → Player
buffer_is_filled g PlayStatus.playing p = (set_stream_state g playing p).0
buffer_is_filled g PlayStatus.stopped p = report_if_unwatched g p
buffer_is_filled g PlayStatus.paused p = report_if_unwatched g p

unfoldable pub leave_buffering : Pipeline → LeaveBufferingResult → Player → Player
leave_buffering g buffer_filled p =
    buffer_is_filled g p.supposed_play_status (boost_for p.current_stream p)
leave_buffering g still_buffering p = p
leave_buffering g LeaveBufferingResult.not_buffering p = p

unfoldable pub try_leave_buffering_state : Pipeline → Player → Player
try_leave_buffering_state g p =
    let (d, result) = Buffering.try_leave_buffering_state p.stream_buffering_data in
    leave_buffering g result (record p { stream_buffering_data = d })

unfoldable pub level_changed : Pipeline → LevelChange → Player → Player
level_changed g full_detected p = try_leave_buffering_state g p
level_changed g underrun_detected p = handle_buffer_underrun g p
level_changed g LevelChange.none p = p

unfoldable pub is_stopped : PlayStatus → Bool
is_stopped PlayStatus.stopped = true
is_stopped PlayStatus.playing = false
is_stopped PlayStatus.paused = false

unfoldable pub take_level : Pipeline → ℕ → Player → Player
take_level g percent p =
    let (d, change) = Buffering.set_buffer_level percent p.stream_buffering_data in
    let q = level_changed g change (record p { stream_buffering_data = d }) in
    emit (emits_buffer percent (is_buffering q.stream_buffering_data)) q

unfoldable pub handle_buffering : Pipeline → Sender → Option ℕ → Player → Player
handle_buffering g sender none p = p
handle_buffering g sender (some percent) p =
    if is_same_pipeline sender p && not (is_stopped p.supposed_play_status) && leb percent 100
    then take_level g percent p
    else p
