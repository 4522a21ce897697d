-- ===== src/Urls.antt =====
-- The alternative URLs of a stream, src/url_collection.hh and src/url_collection.cc, and the type
-- of a stream, src/strbo_url.cc (as built with GStreamer 1.5.1 or later).
-- A time point is the least one, the greatest one or a number of nanoseconds; the sum in
-- `set_resolved_uri` does not overflow. The variant with the pushed URLs is a list of pairs.
pub mod Collect
pub mod Expiry
mod Tests
use Prim.Native.String.{String}
use text.Mathlib.Text.{◌==◌ as str_eq}
use streamplayer.Base.{
  ℕ, suc, ◌+◌, Bool, true, false, ◌||◌, Option, none, some, List, [], ◌∷◌, ◌++◌, length, get_elem?,
  set, ltb, if◌then◌else◌,
}
use streamplayer.UsbUrl.{Uri, Host, is_blank, translate_url_to_regular_url}

pub data TimePoint : Type 0 where
  earliest latest : TimePoint
  moment : ℕ → TimePoint

-- now < t
abbrev pub is_before : ℕ → TimePoint → Bool
is_before now earliest = false
is_before now latest = true
is_before now (moment t) = ltb now t

pub record Url : Type 0 where
  pub direct_url : String
  pub original_url_string : String
  pub is_airable_link : Bool
  pub when_expected_expiry : TimePoint

abbrev pub direct : String → String → Url
direct direct_url original = record {
  direct_url = direct_url;
  original_url_string = original;
  is_airable_link = false;
  when_expected_expiry = latest;
}

abbrev pub link : String → Url
link original = record {
  direct_url = "";
  original_url_string = original;
  is_airable_link = true;
  when_expected_expiry = earliest;
}

-- The URI to play, and whether the URL is an Airable link.
unfoldable pub get_stream_uri : Url → String × Bool
get_stream_uri u = (
  if u.is_airable_link
      then u.direct_url
      else (if is_blank u.direct_url then u.original_url_string else u.direct_url),
  u.is_airable_link,
)

-- A URL that is no link stays as it is.
unfoldable pub set_resolved_uri : String → ℕ → ℕ → Url → Url
set_resolved_uri uri expected_valid now u =
    if u.is_airable_link
    then record u { when_expected_expiry = moment (now + expected_valid); direct_url = uri }
    else u

unfoldable pub clear_expired_uri : ℕ → Url → Url × Bool
clear_expired_uri now u =
    if u.is_airable_link
    then (if is_blank u.direct_url
        then (u, false)
        else (if is_before now u.when_expected_expiry
            then (u, false)
            else (record u { direct_url = ""; when_expected_expiry = earliest }, true)))
    else (u, false)

pub record StreamUrls : Type 0 where
  pub urls : List Url
  pub selected_url : ℕ

unfoldable pub translate_and_append_url : Host → List Url → String → List Url
translate_and_append_url h urls uri =
    let (xlated_url, failed) = translate_url_to_regular_url h uri in
    if failed then urls else urls ++ direct xlated_url uri ∷ []

append_link : List Url → String → List Url
append_link urls uri = if is_blank uri then urls else urls ++ link uri ∷ []

unfoldable pub append_pair : Host → List Url → String × Bool → List Url
unfolding append_link
append_pair h urls (uri, is_airable_link) =
    if is_airable_link then append_link urls uri else translate_and_append_url h urls uri

unfoldable pub append_pairs : Host → List Url → List (String × Bool) → List Url
append_pairs h urls [] = urls
append_pairs h urls (p ∷ ps) = append_pairs h (append_pair h urls p) ps

-- The constructor for a pushed item, and the one for a single URL.
unfoldable pub from_pairs : Host → List (String × Bool) → StreamUrls
from_pairs h ps = record { urls = append_pairs h [] ps; selected_url = 0 }

pub from_direct : Host → String → StreamUrls
from_direct h uri = record { urls = translate_and_append_url h [] uri; selected_url = 0 }

-- There are no URLs.
unfoldable pub is_empty : StreamUrls → Bool
is_empty s = elim s.urls [ [] ↦ true | _ ∷ _ ↦ false ]

unfoldable pub select_next_index : StreamUrls → StreamUrls × Bool
select_next_index s =
    if ltb (s.selected_url + 1) (length s.urls)
    then (record s { selected_url = s.selected_url + 1 }, true)
    else (s, false)

unfoldable pub select_url_index : ℕ → StreamUrls → StreamUrls × Bool
select_url_index idx s =
    if ltb idx (length s.urls) then (record s { selected_url = idx }, true) else (s, false)

-- `none` is an access out of bounds.
unfoldable pub get_selected : StreamUrls → Option Url
get_selected s = get_elem? s.urls s.selected_url

-- What a method of the selected URL leaves behind.
unfoldable pub set_selected : Url → StreamUrls → StreamUrls
set_selected u s = record s { urls = set s.urls s.selected_url u }

pub data StreamType : Type 0 where
  empty unknown local_file generic_network live_internet_radio canned_network_stream : StreamType

type_of_scheme : Option String → StreamType
type_of_scheme none = unknown
type_of_scheme (some scheme) =
    if str_eq scheme "file" || str_eq scheme "strbo-usb" then local_file else generic_network

unfoldable pub determine_stream_type_from_url : Host → Url → StreamType
unfolding type_of_scheme
determine_stream_type_from_url h u =
    if is_blank u.original_url_string
    then empty
    else elim (h.uri_from_string u.original_url_string) [
      | none ↦ unknown
      | some uri ↦ type_of_scheme uri.scheme
    ]
