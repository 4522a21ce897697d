-- ===== src/Player/Progress.antt =====
-- Positions and durations: query_seconds() and report_progress() of src/streamer.cc.
-- A query that fails, or that is answered by less than 0, is `none`.
pub mod Once
use streamplayer.Base.{
  ℕ, ◌/◌, Bool, true, false, not, ◌&&◌, ◌==◌, Option, none, some, if◌then◌else◌,
}
use streamplayer.Buffering.{is_buffering}
use streamplayer.Item.{Item}
use streamplayer.Player.{
  Player, GstState, void_pending, null, ready, paused, playing, Seconds, invalid, undetermined, at,
  TimeData, invalidate_position_information, emits_position_changed, emit,
}
use streamplayer.Player.Play.{Pipeline}

unfoldable pub query_seconds : Option ℕ → Seconds
query_seconds none = undetermined
query_seconds (some t_ns) = at (t_ns / 1_000_000_000)

unfoldable pub same_seconds : Seconds → Seconds → Bool
same_seconds invalid invalid = true
same_seconds undetermined undetermined = true
same_seconds (at m) (at n) = m == n
same_seconds _ _ = false

unfoldable pub update_position : Pipeline → GstState → TimeData → TimeData
update_position g playing t = record t { position_s = query_seconds g.position_ns }
update_position g paused t = record t { position_s = query_seconds g.position_ns }
update_position g ready t = invalidate_position_information
update_position g null t = invalidate_position_information
update_position g void_pending t = invalidate_position_information

unfoldable pub report_change : Item → Player → Player
report_change i p =
    if same_seconds p.current_time.position_s p.previous_time.position_s
      && same_seconds p.current_time.duration_s p.previous_time.duration_s
    then p
    else emit
        (emits_position_changed i.stream_id p.current_time.position_s p.current_time.duration_s)
        (record p { previous_time = p.current_time })

unfoldable pub report_progress_of : Pipeline → Option Item → Player → Player × Bool
report_progress_of g none p = (record p { progress_watcher = false }, false)
report_progress_of g (some i) p = if is_buffering p.stream_buffering_data then (p, true) else (
  report_change i (record p { current_time = update_position g g.current_state p.current_time }),
  true,
)

-- Whether it is to be called again.
unfoldable pub report_progress : Pipeline → Player → Player × Bool
report_progress g p = report_progress_of g p.current_stream p
