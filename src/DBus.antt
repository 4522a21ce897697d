-- ===== src/DBus.antt =====
-- The methods that clients call over D-Bus, src/dbus.cc.
-- A handler takes the player and returns it with what it replies, if this is more than that the call is
-- complete. The reasons that clients give are only logged. The result of a start, stop or pause is not
-- looked at. Connecting to the bus and to other programs is left out.
pub mod Pushing
pub mod Inactive
mod Tests
use Prim.Native.String.{String}
use streamplayer.Base.{
  ℕ, zero, suc, ◌-◌, ◌^◌, Bool, true, false, Option, none, some, List, if◌then◌else◌,
}
use streamplayer.UsbUrl.{Host}
use streamplayer.Urls.{from_pairs}
use streamplayer.Item.{new}
use streamplayer.Player.{Player, GstState, PlayStatus}
use streamplayer.Player.Play.{Pipeline}
use streamplayer.Player.Requests.{start, stop, pause, push_item, clear_queue}
use streamplayer.Player.Next.{Ids, next}
use streamplayer.Player.Seeking.{seek}
use streamplayer.Player.Service.{Service, is_playing, get_current_stream_id}

-- A signed number: `negsuc n` is less than 0 by n + 1.
pub data ℤ : Type 0 where
  pos negsuc : ℕ → ℤ

abbrev with_player : Service → Player → Service
with_player s p = record s { player = p }

unfoldable pub playback_start : Pipeline → GstState → Service → Service
playback_start g pending s = with_player s (start g s.is_player_activated pending s.player).0

unfoldable pub playback_stop : Pipeline → GstState → GstState → Service → Service
playback_stop g pending state_after s =
    with_player s (stop g s.is_player_activated pending state_after s.player).0

unfoldable pub playback_pause : Pipeline → Service → Service
playback_pause g s = with_player s (pause g s.is_player_activated s.player).0

unfoldable pub not_negative : ℤ → Option ℕ
not_negative (pos n) = some n
not_negative (negsuc n) = none

-- Whether the call completes; it fails otherwise.
unfoldable pub playback_seek : (ℕ → ℕ → ℕ → ℕ) → Pipeline → ℤ → String → Service → Service × Bool
playback_seek scale g position position_units s =
    let (p, completes) =
      seek scale g s.is_player_activated (not_negative position) position_units s.player in
    (with_player s p, completes)

unfoldable pub playback_set_speed : Service → Service × Bool
playback_set_speed s = (s, false)

unfoldable pub or_none : Option ℕ → ℕ
or_none none = 2 ^ 32 - 1
or_none (some id) = id

-- The ID of the stream that is handled, those that are queued and those that have been dropped.
unfoldable pub fifo_clear : ℤ → Service → Service × ℕ × List ℕ × List ℕ
fifo_clear keep_first_n_entries s =
    let (p, queued_ids, dropped_ids) = clear_queue (not_negative keep_first_n_entries) s.player in
    (with_player s p, or_none (get_current_stream_id s.player), queued_ids, dropped_ids)

-- The IDs are not set if the player is not activated.
unfoldable pub fifo_next : Pipeline → Service → Service × Option Ids × PlayStatus
fifo_next g s =
    let (p, status, given) = next g s.is_player_activated false s.player in
    (with_player s p, given, status)

unfoldable pub keep_items : ℤ → ℕ
keep_items (pos n) = n
keep_items (negsuc zero) = 2 ^ 64 - 1
keep_items (negsuc (suc zero)) = 0
keep_items (negsuc (suc (suc n))) = 2 ^ 64 - 1

unfoldable pub is_skip : ℤ → Bool
is_skip (pos n) = false
is_skip (negsuc zero) = false
is_skip (negsuc (suc zero)) = true
is_skip (negsuc (suc (suc n))) = false

unfoldable pub is_status_playing : PlayStatus → Bool
is_status_playing PlayStatus.playing = true
is_status_playing PlayStatus.stopped = false
is_status_playing PlayStatus.paused = false

pub record Pushed : Type 0 where
  pub failed : Bool
  pub is_playing : Bool
  pub dropped_ids_before : List ℕ
  pub dropped_ids_now : List ℕ

-- With the item made of its URLs, each of which says whether it is a link.
unfoldable pub fifo_push :
    Pipeline → Host → ℕ → List (String × Bool) → ℤ → Service → Service × Pushed
fifo_push g h stream_id stream_urls keep_first_n_entries s =
    let item = new h stream_id (from_pairs h stream_urls) true in
    let (p, dropped_ids_before, dropped_ids_now, accepted) =
      push_item g s.is_player_activated item (keep_items keep_first_n_entries) s.player in
    let (q, status, given) = next g s.is_player_activated true p in
    let skips = is_skip keep_first_n_entries in
    (
      with_player s (if skips then q else p),
      record {
        failed = if accepted then false else true;
        is_playing = if skips then is_status_playing status else is_playing g;
        dropped_ids_before = dropped_ids_before;
        dropped_ids_now = dropped_ids_now;
      },
    )
