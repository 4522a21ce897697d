-- ===== src/Player/Events/Quiet/Messages.antt =====
-- The messages of the pipeline about a stream keep the threads from being boosted while the player
-- waits for data.
use streamplayer.Base.{ℕ, ◌≡◌, refl, Bool, false, ◌&&◌, Option, none, some, arith}
use streamplayer.Buffering
use streamplayer.Buffering.{
  Data, is_buffering, set_buffer_level, LevelChange, full_detected, underrun_detected,
  LeaveBufferingResult, buffer_filled, still_buffering, reset,
}
use streamplayer.Item.{Item}
use streamplayer.Player.{Player, PlayStatus, Sender, emit}
use streamplayer.Player.Play.{Pipeline, set_stream_state}
use streamplayer.Player.Progress.{report_change, report_progress_of, report_progress}
use streamplayer.Player.Filling.{
  boost_for, report_if_unwatched, buffer_is_filled, leave_buffering, try_leave_buffering_state,
  level_changed, take_level, handle_buffering,
}
use streamplayer.Player.Events.Quiet.{
  IsQuiet, if-IsQuiet, if_pair-IsQuiet, handle_buffer_underrun-IsQuiet, with_level,
}

not_waiting : (d : Data) (b : Bool) → is_buffering d ≡ false → (is_buffering d && b) ≡ false
not_waiting d b e = rw (e) refl

pub boost_for-IsQuiet :
    (o : Option Item) (p : Player)
    → is_buffering p.stream_buffering_data ≡ false
    → IsQuiet (boost_for o p)
unfolding boost_for
boost_for-IsQuiet none p e = not_waiting p.stream_buffering_data _ e
boost_for-IsQuiet (some i) p e =
    if-IsQuiet _ _ _ (not_waiting p.stream_buffering_data _ e)
      (not_waiting p.stream_buffering_data _ e)

report_change-IsQuiet : (i : Item) (p : Player) → IsQuiet p → IsQuiet (report_change i p)
unfolding report_change emit
report_change-IsQuiet i p h = if-IsQuiet _ _ _ h h

report_progress_of-IsQuiet :
    (g : Pipeline) (o : Option Item) (p : Player) → IsQuiet p → IsQuiet (report_progress_of g o p).0
unfolding report_progress_of
report_progress_of-IsQuiet g none p h = h
report_progress_of-IsQuiet g (some i) p h =
    if_pair-IsQuiet (is_buffering p.stream_buffering_data) _ _ h (report_change-IsQuiet i _ h)

pub report_progress-IsQuiet :
    (g : Pipeline) (p : Player) → IsQuiet p → IsQuiet (report_progress g p).0
unfolding report_progress
report_progress-IsQuiet g p h = report_progress_of-IsQuiet g p.current_stream p h

pub report_if_unwatched-IsQuiet :
    (g : Pipeline) (p : Player) → IsQuiet p → IsQuiet (report_if_unwatched g p)
unfolding report_if_unwatched
report_if_unwatched-IsQuiet g p h =
    if-IsQuiet p.progress_watcher _ _ h (report_progress-IsQuiet g p h)

buffer_is_filled-IsQuiet :
    (g : Pipeline) (s : PlayStatus) (p : Player) → IsQuiet p → IsQuiet (buffer_is_filled g s p)
unfolding buffer_is_filled set_stream_state
buffer_is_filled-IsQuiet g PlayStatus.playing p h = h
buffer_is_filled-IsQuiet g PlayStatus.stopped p h = report_if_unwatched-IsQuiet g p h
buffer_is_filled-IsQuiet g PlayStatus.paused p h = report_if_unwatched-IsQuiet g p h

-- Whether the wait is over, or as it has been.
LeftBy : LeaveBufferingResult → Data → Data → Type 0
LeftBy buffer_filled d d' = is_buffering d' ≡ false
LeftBy still_buffering d d' = is_buffering d' ≡ is_buffering d
LeftBy LeaveBufferingResult.not_buffering d d' = is_buffering d' ≡ is_buffering d

left :
    (d : Data)
    → LeftBy (Buffering.try_leave_buffering_state d).1 d (Buffering.try_leave_buffering_state d).0
unfolding Buffering.try_leave_buffering_state LeftBy is_buffering
left d = ground arith

leave_buffering-IsQuiet :
    (g : Pipeline) (r : LeaveBufferingResult) (d : Data) (p : Player)
    → LeftBy r p.stream_buffering_data d
    → IsQuiet p
    → IsQuiet (leave_buffering g r (record p { stream_buffering_data = d }))
unfolding leave_buffering LeftBy
leave_buffering-IsQuiet g buffer_filled d p e h =
    buffer_is_filled-IsQuiet g _ _ (boost_for-IsQuiet p.current_stream _ e)
leave_buffering-IsQuiet g still_buffering d p e h = rw (e) h
leave_buffering-IsQuiet g LeaveBufferingResult.not_buffering d p e h = rw (e) h

pub try_leave-IsQuiet :
    (g : Pipeline) (p : Player) → IsQuiet p → IsQuiet (try_leave_buffering_state g p)
unfolding try_leave_buffering_state
try_leave-IsQuiet g p h = leave_buffering-IsQuiet g _ _ p (left p.stream_buffering_data) h

level_changed-IsQuiet :
    (g : Pipeline) (c : LevelChange) (p : Player) → IsQuiet p → IsQuiet (level_changed g c p)
unfolding level_changed
level_changed-IsQuiet g full_detected p h = try_leave-IsQuiet g p h
level_changed-IsQuiet g underrun_detected p h = handle_buffer_underrun-IsQuiet g p h
level_changed-IsQuiet g LevelChange.none p h = h

take_level-IsQuiet :
    (g : Pipeline) (percent : ℕ) (p : Player) → IsQuiet p → IsQuiet (take_level g percent p)
unfolding take_level emit
take_level-IsQuiet g percent p h = level_changed-IsQuiet g _ _ (with_level percent p h)

pub buffering-IsQuiet :
    (g : Pipeline) (s : Sender) (o : Option ℕ) (p : Player)
    → IsQuiet p
    → IsQuiet (handle_buffering g s o p)
unfolding handle_buffering
buffering-IsQuiet g s none p h = h
buffering-IsQuiet g s (some percent) p h = if-IsQuiet _ _ _ (take_level-IsQuiet g percent p h) h
