-- ===== src/Player/Next.antt =====
-- Streamer::next() of src/streamer.cc.
-- An ID of UINT32_MAX is `none`. The stream that try_take_next() answers is always the one that is
-- handled afterwards. The two IDs are not given back if the player is not activated.
pub mod Skipping
use streamplayer.Base.{Bool, true, false, not, ◌&&◌, ℕ, Option, none, some, if◌then◌else◌}
use streamplayer.Queue.{mark_as_dropped}
use streamplayer.Item.{
  Item, ItemState, in_queue, about_to_activate, active_half_playing, active_now_playing,
  about_to_phase_out, about_to_be_skipped,
}
use streamplayer.Player.{Player, GstState, ready, playing, paused, PlayStatus}
use streamplayer.Player.Take.{Taken, nothing_found, try_take_next}
use streamplayer.Player.Play.{
  Pipeline, Place, handled, set_state_at, set_stream_state, play_next_stream,
}

pub record Ids : Type 0 where
  pub skipped_id : Option ℕ
  pub next_id : Option ℕ

-- A stream that is in activation is skipped and marked as dropped, any other is let go.
unfoldable pub skip_in_state : ItemState → ℕ → Player → Player
skip_in_state about_to_activate id p =
    let q = set_state_at about_to_be_skipped handled p in
    record q { queue = mark_as_dropped id q.queue }
skip_in_state active_half_playing id p =
    let q = set_state_at about_to_be_skipped handled p in
    record q { queue = mark_as_dropped id q.queue }
skip_in_state in_queue id p = record p { current_stream = none }
skip_in_state active_now_playing id p = record p { current_stream = none }
skip_in_state about_to_phase_out id p = record p { current_stream = none }
skip_in_state about_to_be_skipped id p = record p { current_stream = none }

unfoldable pub skip_current : Option Item → Player → Player
skip_current none p = p
skip_current (some i) p = skip_in_state i.state i.stream_id p

unfoldable pub is_stopped : PlayStatus → Bool
is_stopped PlayStatus.stopped = true
is_stopped _ = false

unfoldable pub current_id : Option Item → Option ℕ
current_id none = none
current_id (some i) = some i.stream_id

-- Whether there still is a next stream.
unfoldable pub mark_in_state : ItemState → Player → Player × Bool
mark_in_state in_queue p = (p, true)
mark_in_state about_to_activate p = (set_state_at about_to_be_skipped handled p, true)
mark_in_state active_half_playing p = (set_state_at about_to_be_skipped handled p, true)
mark_in_state active_now_playing p = (set_state_at about_to_be_skipped handled p, true)
mark_in_state about_to_phase_out p = (p, false)
mark_in_state about_to_be_skipped p = (p, false)

unfoldable pub mark_current : Option Item → Player → Player × Bool
mark_current none p = (p, true)
mark_current (some i) p = mark_in_state i.state p

unfoldable pub state_for : PlayStatus → GstState
state_for PlayStatus.stopped = ready
state_for PlayStatus.playing = playing
state_for PlayStatus.paused = paused

unfoldable pub next_stops : Option ℕ → Player → Player × PlayStatus × Option Ids
next_stops skipped p = (
  record p { supposed_play_status = PlayStatus.stopped },
  PlayStatus.stopped,
  some (record { skipped_id = skipped; next_id = none }),
)

unfoldable pub next_plays :
    Pipeline → Option ℕ → Option Place → Player → Player × PlayStatus × Option Ids
next_plays g skipped replaced p =
    let (q, accepted) = set_stream_state g ready p in
    let (r, started) =
      play_next_stream g replaced handled (state_for q.supposed_play_status) true false q in
    if accepted
    then (
      r,
      r.supposed_play_status,
      some (record {
        skipped_id = skipped;
        next_id = if started then current_id q.current_stream else none;
      }),
    )
    else (q, q.supposed_play_status, some (record { skipped_id = skipped; next_id = none }))

unfoldable pub next_found : Pipeline → Option ℕ → Bool → Player → Player × PlayStatus × Option Ids
next_found g skipped true p = next_plays g skipped none p
next_found g skipped false p =
    let (q, is_left) = mark_current p.current_stream p in
    if is_left then next_plays g skipped (some handled) q else next_stops none q

unfoldable pub next_taken : Pipeline → Option ℕ → Player × Taken → Player × PlayStatus × Option Ids
next_taken g skipped (p, t) =
    if t.found then next_found g skipped t.replaced_current_stream p else next_stops skipped p

unfoldable pub next : Pipeline → Bool → Bool → Player → Player × PlayStatus × Option Ids
next g false skip_only_if_not_stopped p = (p, PlayStatus.stopped, none)
next g true skip_only_if_not_stopped p =
    let s = if skip_only_if_not_stopped then skip_current p.current_stream p else p in
    next_taken g (current_id s.current_stream) (
      if is_stopped s.supposed_play_status && skip_only_if_not_stopped
      then (s, nothing_found false)
      else try_take_next true s)
