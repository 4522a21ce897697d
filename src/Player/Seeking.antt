-- ===== src/Player/Seeking.antt =====
-- Seeking, and the message that the pipeline has prerolled: Streamer::seek() and
-- handle_stream_duration_async() of src/streamer.cc, with the clock and state requests of the pipeline.
-- A signed 64-bit integer that is negative is `none`; a product that leaves its range wraps around, as
-- it does on the machines in use. gst_util_uint64_scale_int() is a parameter. GST_FORMAT_PERCENT_MAX is
-- 1_000_000.
pub mod Within
use Prim.Native.String.{String}
use text.Mathlib.Text.{◌==◌ as str_eq}
use streamplayer.Base.{
  ℕ, ◌*◌, ◌%◌, ◌/◌, ◌^◌, Bool, true, false, Option, none, some, List, ◌∷◌, ltb, leb, if◌then◌else◌,
}
use streamplayer.Item.{Item, disable_realtime}
use streamplayer.Player.{
  Player, GstState, paused, playing, Sender, is_same_pipeline, Seconds, invalid, undetermined, at,
}
use streamplayer.Player.Play.{Pipeline, set_stream_state, do_encourage_buffering}
use streamplayer.Player.Progress.{query_seconds}

unfoldable pub do_seek : Pipeline → ℕ → Player → Player × Bool
do_seek g position p = (record p { asked_seeks = position ∷ p.asked_seeks }, g.accepts_seek)

unfoldable pub compute_position_from_percentage : (ℕ → ℕ → ℕ → ℕ) → ℕ → ℕ → Option ℕ
compute_position_from_percentage scale percentage duration_ns =
    if leb percentage 1_000_000 then some (scale duration_ns percentage 1_000_000) else none

unfoldable pub to_int64 : ℕ → Option ℕ
to_int64 n = let w = n % 2 ^ 64 in if ltb w (2 ^ 63) then some w else none

unfoldable pub position_in_ns : (ℕ → ℕ → ℕ → ℕ) → ℕ → String → ℕ → Option ℕ
position_in_ns scale position units duration_ns =
    if str_eq units "%"
    then compute_position_from_percentage scale position duration_ns
    else (if str_eq units "s"
        then to_int64 (position * 1_000_000_000)
        else (if str_eq units "ms"
            then to_int64 (position * 1_000_000)
            else (if str_eq units "us"
                then to_int64 (position * 1_000)
                else (if str_eq units "ns" then some position else none))))

unfoldable pub seek_to : Pipeline → ℕ → Option ℕ → Player → Player × Bool
seek_to g duration_ns none p = (p, false)
seek_to g duration_ns (some position) p =
    let (q, accepted) = do_seek g position p in
    if ltb duration_ns position
    then (p, false)
    else (if accepted then (do_encourage_buffering g q, true) else (q, false))

unfoldable pub seek_within :
    (ℕ → ℕ → ℕ → ℕ) → Pipeline → Option ℕ → ℕ → String → Player → Player × Bool
seek_within scale g none position units p = (p, false)
seek_within scale g (some duration_ns) position units p =
    seek_to g duration_ns (position_in_ns scale position units duration_ns) p

-- Streamer::seek(), by whether the player is activated.
unfoldable pub seek : (ℕ → ℕ → ℕ → ℕ) → Pipeline → Bool → Option ℕ → String → Player → Player × Bool
seek scale g activated none units p = (p, false)
seek scale g false (some position) units p = (p, false)
seek scale g true (some position) units p = seek_within scale g g.seek_duration_ns position units p

unfoldable pub prerolled_duration : Pipeline → Option ℕ → Seconds
prerolled_duration g none = query_seconds g.duration_ns
prerolled_duration g (some running_time) = at (running_time / 1_000_000_000)

unfoldable pub disable_realtime_of : Option Item → Option Item
disable_realtime_of none = none
disable_realtime_of (some i) = some (disable_realtime i)

-- A stream without a duration is not played in realtime.
unfoldable pub set_duration : Seconds → Player → Player
set_duration undetermined p = record p {
  current_time = record p.current_time { duration_s = undetermined };
  current_stream = disable_realtime_of p.current_stream;
  is_boost_enabled = false;
}
set_duration invalid p = record p { current_time = record p.current_time { duration_s = invalid } }
set_duration (at n) p = record p { current_time = record p.current_time { duration_s = at n } }

unfoldable pub seek_initially : Pipeline → Option ℕ → Player → Player
seek_initially g none p = p
seek_initially g (some position) p = record (do_seek g position p).0 {
  initial_seek_position_ns = none;
}

-- The running time is `none` for GST_CLOCK_TIME_NONE.
unfoldable pub handle_stream_duration_async : Pipeline → Sender → Option ℕ → Player → Player
handle_stream_duration_async g sender running_time p =
    let q = set_duration (prerolled_duration g running_time) p in
    if is_same_pipeline sender p then seek_initially g q.initial_seek_position_ns q else p

unfoldable pub handle_clock_lost_message : Pipeline → Sender → Player → Player
handle_clock_lost_message g sender p =
    if is_same_pipeline sender p
    then (set_stream_state g playing (set_stream_state g paused p).0).0
    else p

unfoldable pub handle_request_state_message : Pipeline → Sender → GstState → Player → Player
handle_request_state_message g sender state p =
    if is_same_pipeline sender p then (set_stream_state g state p).0 else p
