-- ===== src/Player/Service.antt =====
-- The player as it is offered to clients, src/streamer.cc: whether it is activated, what it is asked
-- for, and the removal of a device.
-- GLib's g_filename_from_uri() and the system's realpath() are parameters; `none` is a failure. A root
-- path is not empty and shorter than PATH_MAX.
pub mod Removal
use Prim.Native.String.{String, len}
use text.Mathlib.Text.{starts_with}
use streamplayer.Base.{ℕ, Bool, true, false, ◌&&◌, Option, none, some, ltb, leb, if◌then◌else◌}
use streamplayer.Urls.{is_empty}
use streamplayer.UsbUrl.{is_blank}
use streamplayer.Item.{Item, get_url_for_playing}
use streamplayer.Player.{Player, GstState, playing}
use streamplayer.Player.Play.{Pipeline}
use streamplayer.Player.Requests.{do_stop, stop}

pub record Service : Type 0 where
  pub player : Player
  pub is_player_activated : Bool

unfoldable pub activate : Service → Service
activate s = record s { is_player_activated = true }

unfoldable pub deactivate : Pipeline → GstState → Service → Service
deactivate g pending s =
    if s.is_player_activated
    then record { player = (do_stop g pending s.player).0; is_player_activated = false }
    else s

unfoldable pub is_playing : Pipeline → Bool
is_playing g = elim g.current_state [ playing ↦ true | _ ↦ false ]

unfoldable pub get_current_stream_id : Player → Option ℕ
get_current_stream_id p = elim p.current_stream [
  | none ↦ none
  | some i ↦ if is_empty i.stream_urls then none else some i.stream_id
]

-- The local function starts_with() of remove_items_for_root_path(), by texts.
unfoldable pub starts_with_more : String → String → Bool
starts_with_more s prefix = ltb (len prefix) (len s) && starts_with s prefix

-- The buffer with the path is as long as PATH_MAX, so no more than the root path is asked for. What a
-- realpath() that fails leaves in the buffer, which the code compares all the same, is below nothing.
unfoldable pub is_below : Option String → String → Bool
is_below none root_path = false
is_below (some real_path) root_path = starts_with real_path root_path

module _ (filename_from_uri : String → Option String) (realpath : String → Option String) where
  unfoldable pub stop_if_below :
      Pipeline → GstState → GstState → Option String → String → Service → Service × Bool
  stop_if_below g pending state_after none root_path s = (s, false)
  stop_if_below g pending state_after (some filename) root_path s =
      if is_blank filename then (s, false) else (
        if is_below (if leb (len filename) 4096 then realpath filename else none) root_path
            then record s { player = (stop g s.is_player_activated pending state_after s.player).0 }
            else s,
        true,
      )

  unfoldable pub stop_if_file :
      Pipeline → GstState → GstState → Option String → String → Service → Service × Bool
  stop_if_file g pending state_after none root_path s = (s, true)
  stop_if_file g pending state_after (some url) root_path s =
      if starts_with_more url "file://"
      then stop_if_below g pending state_after (filename_from_uri url) root_path s
      else (s, true)

  unfoldable pub stop_if_on :
      Pipeline → GstState → GstState → Option Item → String → Service → Service × Bool
  stop_if_on g pending state_after none root_path s = (s, true)
  stop_if_on g pending state_after (some i) root_path s =
      stop_if_file g pending state_after (get_url_for_playing i) root_path s

  unfoldable pub remove_items_for_root_path :
      Pipeline → GstState → GstState → String → Service → Service × Bool
  remove_items_for_root_path g pending state_after root_path s =
      stop_if_on g pending state_after s.player.current_stream root_path s
