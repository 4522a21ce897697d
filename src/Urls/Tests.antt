-- ===== src/Urls/Tests.antt =====
-- Translation, collection and expiry at a concrete host.
use Prim.Native.String.{String}
use text.Mathlib.Text.{starts_with, ◌==◌ as str_eq}
use streamplayer.Base.{◌+◌, ◌≤◌, ◌≡◌, ◌↔◌, true, false, Option, none, some, [], ◌∷◌, if◌then◌else◌}
use streamplayer.UsbUrl.{Uri, Host, translate_url_to_regular_url, is_blank}
use streamplayer.UsbUrl.Translate.{Outcome, Mounted, translate_url_lem}
use streamplayer.Urls.{link, direct, set_resolved_uri, clear_expired_uri}
use streamplayer.Urls.Expiry.{resolved_then_cleared}

-- A host on which every device is mounted at /mnt, and that knows two texts as URIs.
abbrev parse : String → Option Uri
parse s =
    if str_eq s "strbo-usb://host/abc/song"
    then some (record { scheme = some "strbo-usb"; path_segments = "" ∷ "abc" ∷ "song" ∷ [] })
    else (if str_eq s "http://x"
        then some (record { scheme = some "http"; path_segments = [] })
        else none)

abbrev host : Host
host = record {
  uri_from_string = parse;
  tempfile = some "/tmp/t";
  system = λ _. false;
  map_file = λ _. some "/mnt ";
  filename_to_uri = λ s. some s;
}

translate_url_lem_example :
    Outcome host "strbo-usb://host/abc/song"
      (translate_url_to_regular_url host "strbo-usb://host/abc/song")
    × ((result : String) (m : Mounted host "strbo-usb://host/abc/song" result)
        → starts_with m.uuid "DO-NOT-STORE:" ≡ false
        → is_blank result ≡ false
        → translate_url_to_regular_url host "strbo-usb://host/abc/song" ≡ (result, false))
translate_url_lem_example = translate_url_lem host "strbo-usb://host/abc/song"

resolved_then_cleared_example :
    let r = set_resolved_uri "http://x" 5 10 (link "airable://y") in
    ((clear_expired_uri 15 r).1 ≡ true) ↔ ((is_blank "http://x" ≡ false) × (10 + 5 ≤ 15))
resolved_then_cleared_example =
    (resolved_then_cleared "airable://y" "http://x" 5 10 15 (direct "" "file:///a")).1
