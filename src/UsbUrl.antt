-- ===== src/UsbUrl.antt =====
-- Links to files on USB devices, src/strbo_usb_url.cc: a link with the scheme `strbo-usb` names a
-- device by its UUID, and is turned into the file URI of a path below the device's mount point.
-- The operating system and GStreamer are the record `Host`. Log messages are left out.
pub mod Texts
pub mod Translate
use Prim.Native.String.{String, ◌++◌}
use Prim.Native.Char.{code}
use text.Mathlib.Text.{starts_with, ◌==◌}
use streamplayer.Base.{
  Bool, true, false, Option, none, some, List, [], ◌∷◌, ◌==◌ as nat_eq, if◌then◌else◌,
}

-- A `GstUri`, as far as it is read. No segment of the path is a null pointer, as it is for two slashes
-- without a name between them.
pub record Uri : Type 0 where
  pub scheme : Option String
  pub path_segments : List String

-- `tempfile` is the name that mkstemp() gives; `system` runs a command and tells whether it has
-- failed; `map_file` is the content of a file.
pub record Host : Type 0 where
  pub uri_from_string : String → Option Uri
  pub tempfile : Option String
  pub system : String → Bool
  pub map_file : String → Option String
  pub filename_to_uri : String → Option String

unfoldable pub is_blank : String → Bool
is_blank String.[] = true
is_blank (String.◌∷◌ c s) = false

-- A text without its last character.
pub but_last : String → String
but_last String.[] = String.[]
but_last (String.◌∷◌ c String.[]) = String.[]
but_last (String.◌∷◌ c (String.◌∷◌ d s)) = String.◌∷◌ c (but_last (String.◌∷◌ d s))

-- A text without its first characters, as many as the other text has.
pub beyond : String → String → String
beyond String.[] s = s
beyond (String.◌∷◌ c p) String.[] = String.[]
beyond (String.◌∷◌ c p) (String.◌∷◌ d s) = beyond p s

abbrev pub fake_prefix : String
fake_prefix = "DO-NOT-STORE:"

pub beyond_fake_uuid_prefix : String → Option String
unfolding beyond
beyond_fake_uuid_prefix uuid =
    if starts_with uuid fake_prefix then some (beyond fake_prefix uuid) else none

pub slashes : String → String
slashes String.[] = String.[]
slashes (String.◌∷◌ c s) = String.◌∷◌ (if nat_eq (code c) b'_' then "/" else c) (slashes s)

pub device_name : String → String
unfolding beyond_fake_uuid_prefix slashes
device_name uuid = elim (beyond_fake_uuid_prefix uuid) [
  | some content ↦ slashes content
  | none ↦ "$(/usr/bin/realpath /dev/disk/by-uuid/" ++ uuid ++ ")"
]

pub command : String → String → String
unfolding device_name
command uuid tempfile =
    "/bin/grep \"" ++ device_name uuid ++ "\" /proc/mounts | cut -f 2 -d ' ' >" ++ tempfile

pub join : String → List String → String
join path [] = path
join path (s ∷ segments) = join (path ++ "/" ++ s) segments

pub mount_point : String → String
unfolding but_last
mount_point output = but_last output

abbrev or_blank : Option String → String
or_blank none = ""
or_blank (some s) = s

from_mount_point : Host → List String → String → String
from_mount_point h segments mount =
    if is_blank mount then "" else or_blank (h.filename_to_uri (join mount segments))

from_tempfile : Host → String → List String → String → String
unfolding from_mount_point
from_tempfile h uuid segments name =
    if h.system (command uuid name) then "" else elim (h.map_file name) [
      | none ↦ ""
      | some output ↦ from_mount_point h segments (mount_point output)
    ]

pub translate : Host → String → List String → String
unfolding from_tempfile
translate h uuid segments = elim h.tempfile [
  | none ↦ ""
  | some name ↦ from_tempfile h uuid segments name
]

abbrev pub is_strbo : Option String → Bool
is_strbo none = false
is_strbo (some scheme) = scheme == "strbo-usb"

translate_segments : Host → List String → String
translate_segments h [] = ""
translate_segments h (root ∷ []) = ""
translate_segments h (root ∷ uuid ∷ segments) = translate h uuid segments

translate_uri : Host → Uri → String × Bool
unfolding translate_segments
translate_uri h uri =
    let result = translate_segments h uri.path_segments in
    if is_strbo uri.scheme then (result, is_blank result) else ("", false)

-- The regular URL, and whether the translation has failed.
unfoldable pub translate_url_to_regular_url : Host → String → String × Bool
unfolding translate_uri
translate_url_to_regular_url h url = elim (h.uri_from_string url) [
  | none ↦ ("", true)
  | some uri ↦ translate_uri h uri
]
