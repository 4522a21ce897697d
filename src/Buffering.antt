-- ===== src/Buffering.antt =====
-- Buffering states and levels, src/buffering.hh (class Buffering::Data).
-- MSG_BUG_IF only writes to the log, so `start_buffering` goes on in every state.
pub mod Wait
mod Tests
use streamplayer.Base.{ℕ, Bool, true, false, ◌&&◌, ◌||◌, ltb, leb, ◌==◌, if◌then◌else◌}

pub data State : Type 0 where
  not_buffering paused_pending paused_for_buffering paused_piggyback : State

pub data Level : Type 0 where
  full medium underrun : Level

pub data LevelChange : Type 0 where
  none full_detected underrun_detected : LevelChange

pub data LeaveBufferingResult : Type 0 where
  buffer_filled still_buffering not_buffering : LeaveBufferingResult

pub record Data : Type 0 where
  pub state : State
  pub level : Level

unfoldable pub new : Data
new = record { state = State.not_buffering; level = full }

is_active : State → Bool
is_active State.not_buffering = false
is_active _ = true

unfoldable pub is_buffering : Data → Bool
unfolding is_active
is_buffering d = is_active d.state

is_full : Level → Bool
is_full full = true
is_full _ = false

is_underrun : Level → Bool
is_underrun underrun = true
is_underrun _ = false

-- `percent` is unsigned.
unfoldable pub set_buffer_level : ℕ → Data → Data × LevelChange
unfolding is_full is_underrun is_active
set_buffer_level percent d =
    if leb 100 percent
    then (record d { level = full }, if is_full d.level then none else full_detected)
    else (if percent == 0 || (ltb percent 15 && (if is_active d.state then false else true))
        then (
          record d { level = underrun },
          if is_underrun d.level then none else underrun_detected,
        )
        else (record d { level = medium }, none))

unfoldable pub start_buffering : State → Data → Data
start_buffering start_state d = record d { state = start_state }

enter_pause : State → State × Bool
enter_pause State.not_buffering = (State.not_buffering, false)
enter_pause paused_pending = (paused_for_buffering, true)
enter_pause paused_for_buffering = (paused_for_buffering, true)
enter_pause paused_piggyback = (paused_piggyback, true)

unfoldable pub entered_pause : Data → Data × Bool
unfolding enter_pause
entered_pause d = let (s, r) = enter_pause d.state in (record d { state = s }, r)

leave_if_full : Data → Data × LeaveBufferingResult
leave_if_full d =
    if is_full d.level
    then (record d { state = State.not_buffering }, buffer_filled)
    else (d, still_buffering)

unfoldable pub try_leave_buffering_state : Data → Data × LeaveBufferingResult
unfolding leave_if_full is_full
try_leave_buffering_state d = elim d.state [
  | State.not_buffering ↦ (d, LeaveBufferingResult.not_buffering)
  | paused_pending ↦ (d, still_buffering)
  | paused_for_buffering ↦ leave_if_full d
  | paused_piggyback ↦ leave_if_full d
]

unfoldable pub reset : Data → Data
reset d = record { state = State.not_buffering; level = full }
