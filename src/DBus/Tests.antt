-- ===== src/DBus/Tests.antt =====
-- Requests of clients at concrete players.
use Prim.Native.String.{String}
use text.Mathlib.Text.{◌==◌ as str_eq}
use streamplayer.Base.{
  ℕ, ◌≡◌, refl, arith, true, false, Bool, Option, none, some, List, [], ◌∷◌, if◌then◌else◌,
}
use streamplayer.UsbUrl.{Uri, Host, is_blank, translate_url_to_regular_url}
use streamplayer.Urls.{
  is_empty, get_selected, get_stream_uri, from_pairs, append_pairs, append_pair,
  translate_and_append_url,
}
use streamplayer.Item.{active_now_playing, new, known_direct_url, get_selected_url_state}
use streamplayer.Player.{playing, ready, void_pending}
use streamplayer.Player.Play.{Pipeline}
use streamplayer.Player.Samples.{an_item, one_url, full_player, willing}
use streamplayer.Player.Service.{Service}
use streamplayer.DBus.{pos, negsuc, fifo_push}
use streamplayer.DBus.Pushing.{pushed_stream, PlaysInstead, push-PlaysInstead}
use streamplayer.DBus.Inactive.{Request, starts, pushes, skips, seeks, run, inactive_is_inert}

abbrev parse : String → Option Uri
parse s =
    if str_eq s "http://x" then some (record { scheme = some "http"; path_segments = [] }) else none

-- A host without devices.
abbrev host : Host
host = record {
  uri_from_string = parse;
  tempfile = none;
  system = λ _. true;
  map_file = λ _. none;
  filename_to_uri = λ _. none;
}

abbrev pairs : List (String × Bool)
pairs = ("http://x", false) ∷ []

has_url : is_empty (pushed_stream host 8 pairs).stream_urls ≡ false
unfolding new is_empty from_pairs append_pairs append_pair translate_and_append_url
    translate_url_to_regular_url
has_url = refl

is_direct : get_selected_url_state (pushed_stream host 8 pairs) ≡ known_direct_url
unfolding new is_empty from_pairs append_pairs append_pair translate_and_append_url
    translate_url_to_regular_url get_selected_url_state get_selected get_stream_uri is_blank
is_direct = refl

push-PlaysInstead_example :
    let (s, reply) =
      fifo_push
        (willing playing)
        host
        8
        pairs
        (negsuc 1)
        (record { player = full_player; is_player_activated = true }) in
    PlaysInstead (willing playing) (pushed_stream host 8 pairs) full_player s reply
push-PlaysInstead_example =
    push-PlaysInstead (willing playing) host 8 pairs full_player
      (an_item 1 active_now_playing one_url) refl refl refl refl (omega arith) has_url is_direct
      refl refl

abbrev scaled : ℕ → ℕ → ℕ → ℕ
scaled value numerator denominator = value

abbrev some_requests : List (Pipeline × Request)
some_requests =
    (willing ready, starts void_pending)
    ∷ (willing ready, pushes 8 pairs (negsuc 1))
    ∷ (willing ready, seeks (pos 5) "s")
    ∷ (willing ready, skips)
    ∷ []

abbrev inactive_service : Service
inactive_service = record { player = full_player; is_player_activated = false }

inactive_is_inert_example : run scaled host some_requests inactive_service ≡ inactive_service
inactive_is_inert_example = inactive_is_inert scaled host some_requests inactive_service refl
