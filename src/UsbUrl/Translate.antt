-- ===== src/UsbUrl/Translate.antt =====
-- What a translated link is, on every outcome.
use Prim.Native.String.{String, ◌++◌ as append}
use Prim.Native.Char.{Char}
use text.Mathlib.Text.{starts_with}
use streamplayer.Base.{
  ◌≡◌, refl, sym, subst, ap, ◌∙◌, ◌⊎◌, inl, inr, Bool, true, false, some, List, [], ◌∷◌,
  Option-cases, Bool-cases,
}
use streamplayer.UsbUrl.{
  Uri, Host, is_blank, command, join, mount_point, is_strbo, translate, translate_uri, device_name,
  translate_url_to_regular_url, translate_segments, from_mount_point, from_tempfile,
}
use streamplayer.UsbUrl.Texts.{
  IsDevice, below, device_name-IsDevice, join-below, last_split, without_last,
}

-- The link has a UUID; the search of the mount table for the device's text has written a mount point
-- and one more character, and the result is the URI of the path of the other names below it.
pub record Mounted (h : Host) (url result : String) : Type 0 where
  pub uri : Uri
  pub root : String
  pub uuid : String
  pub device : String
  pub segments : List String
  pub name : String
  pub mount : String
  pub last : Char
  pub parsed : h.uri_from_string url ≡ some uri
  pub is_link : is_strbo uri.scheme ≡ true
  pub path : uri.path_segments ≡ root ∷ uuid ∷ segments
  pub is_device : IsDevice uuid device
  pub temporary : h.tempfile ≡ some name
  pub found :
      h.system
        (append "/bin/grep \"" (append device (append "\" /proc/mounts | cut -f 2 -d ' ' >" name)))
      ≡ false
  pub read_back : h.map_file name ≡ some (append mount (String.◌∷◌ last ""))
  pub is_mounted : is_blank mount ≡ false
  pub is_file : h.filename_to_uri (append mount (below segments)) ≡ some result

is_blank→eq : (s : String) → is_blank s ≡ true → s ≡ ""
unfolding is_blank
is_blank→eq String.[] h = refl
is_blank→eq (String.◌∷◌ c s) h = cc

true_not_false : {b : Bool} → b ≡ true → b ≡ false → ⊥
true_not_false t f = cc

mount_inv :
    (h : Host) (segments : List String) (mount : String)
    → is_blank (from_mount_point h segments mount) ≡ false
    → (is_blank mount ≡ false)
      × (h.filename_to_uri (join mount segments) ≡ some (from_mount_point h segments mount))
unfolding from_mount_point is_blank
mount_inv h segments mount p = elim (Bool-cases (is_blank mount)) [
  | inl blank ↦ absurd (true_not_false (rw (blank, from_mount_point)) p)
  | inr mounted ↦ elim (Option-cases (h.filename_to_uri (join mount segments))) [
    | inl bad ↦ absurd (true_not_false (rw (mounted, bad, from_mount_point)) p)
    | inr (file, e) ↦ (mounted, rw (mounted, e, from_mount_point))
  ]
]

tempfile_inv :
    (h : Host) (uuid : String) (segments : List String) (name : String)
    → is_blank (from_tempfile h uuid segments name) ≡ false
    → (output : String) × (h.system (command uuid name) ≡ false)
      × (h.map_file name ≡ some output)
      × (from_tempfile h uuid segments name ≡ from_mount_point h segments (mount_point output))
unfolding from_tempfile is_blank
tempfile_inv h uuid segments name p = elim (Bool-cases (h.system (command uuid name))) [
  | inl failed ↦ absurd (true_not_false (rw (failed, from_tempfile)) p)
  | inr found ↦ elim (Option-cases (h.map_file name)) [
    | inl bad ↦ absurd (true_not_false (rw (found, bad, from_tempfile)) p)
    | inr (output, e) ↦ (output, found, e, rw (found, e, from_tempfile))
  ]
]

-- A path that is not empty has come through every step of the translation.
translate_inv :
    (h : Host) (uuid : String) (segments : List String)
    → is_blank (translate h uuid segments) ≡ false
    → (name : String) × (output : String) × (h.tempfile ≡ some name)
      × (h.system (command uuid name) ≡ false)
      × (h.map_file name ≡ some output)
      × (is_blank (mount_point output) ≡ false)
      × (h.filename_to_uri (join (mount_point output) segments) ≡ some (translate h uuid segments))
unfolding translate is_blank
translate_inv h uuid segments p = elim (Option-cases h.tempfile) [
  | inl missing ↦ absurd (true_not_false (rw (missing, translate)) p)
  | inr (name, e) ↦
      let same : translate h uuid segments ≡ from_tempfile h uuid segments name =
        rw (e, translate) in
      let (output, found, back, made) = tempfile_inv h uuid segments name (rw (← same) p) in
      let (mounted, is_file) = mount_inv h segments (mount_point output) (rw (← made, ← same) p) in
      (name, output, e, found, back, mounted, rw (same, made) is_file)
]

segments_inv :
    (h : Host) (path : List String)
    → is_blank (translate_segments h path) ≡ false
    → (root : String) × (uuid : String) × (segments : List String) × (path ≡ root ∷ uuid ∷ segments)
      × (translate_segments h path ≡ translate h uuid segments)
unfolding translate_segments is_blank
segments_inv h [] p = cc
segments_inv h (root ∷ []) p = cc
segments_inv h (root ∷ uuid ∷ segments) p = (root, uuid, segments, refl, refl)

-- A translation's outcomes.
abbrev pub Outcome : Host → String → String × Bool → Type 0
Outcome h url (result, failed) =
    ((failed ≡ true) × (result ≡ ""))
    ⊎ ((failed ≡ false)
        × (result ≡ "")
        × ((uri : Uri) × (h.uri_from_string url ≡ some uri) × (is_strbo uri.scheme ≡ false)))
    ⊎ ((failed ≡ false) × (is_blank result ≡ false) × Mounted h url result)

link-Outcome :
    (h : Host) (url : String) (uri : Uri)
    → h.uri_from_string url ≡ some uri
    → is_strbo uri.scheme ≡ true
    → let result = translate_segments h uri.path_segments in Outcome h url (result, is_blank result)
unfolding mount_point command
link-Outcome h url uri e link =
    elim (Bool-cases (is_blank (translate_segments h uri.path_segments))) [
      | inl blank ↦ inl (blank, is_blank→eq _ blank)
      | inr file ↦
          let (root, uuid, segments, path, same) = segments_inv h uri.path_segments file in
          let (name, output, temporary, found, back, mounted, is_file) =
            translate_inv h uuid segments (rw (← same) file) in
          let (last, split) = last_split output mounted in
          inr (
            inr (
              file,
              file,
              record {
                uri = uri;
                root = root;
                uuid = uuid;
                device = device_name uuid;
                segments = segments;
                name = name;
                mount = mount_point output;
                last = last;
                parsed = e;
                is_link = link;
                path = path;
                is_device = device_name-IsDevice uuid;
                temporary = temporary;
                found = found;
                read_back = back ∙ ap some split;
                is_mounted = mounted;
                is_file =
                    ap h.filename_to_uri (sym (join-below (mount_point output) segments))
                    ∙ rw same is_file;
              },
            ))
    ]

outcome : (h : Host) (url : String) → Outcome h url (translate_url_to_regular_url h url)
unfolding translate_url_to_regular_url
outcome h url = elim (Option-cases (h.uri_from_string url)) [
  | inl bad ↦
      let r : translate_url_to_regular_url h url ≡ ("", true) =
        rw (bad, translate_url_to_regular_url) in
      subst (Outcome h url) (sym r) (inl (refl, refl))
  | inr (uri, e) ↦ elim (Bool-cases (is_strbo uri.scheme)) [
    | inl link ↦
        let result = translate_segments h uri.path_segments in
        let r : translate_url_to_regular_url h url ≡ (result, is_blank result) =
          rw (e, translate_url_to_regular_url, link) in
        subst (Outcome h url) (sym r) (link-Outcome h url uri e link)
    | inr regular ↦
        let r : translate_url_to_regular_url h url ≡ ("", false) =
          rw (e, translate_url_to_regular_url, regular) in
        subst (Outcome h url) (sym r) (inr (inl (refl, refl, (uri, e, regular))))
  ]
]

-- What each step gives, from the last to the first.
translated_at :
    (h : Host) (url result : String) (m : Mounted h url result)
    → starts_with m.uuid "DO-NOT-STORE:" ≡ false
    → translate h m.uuid m.segments ≡ result
unfolding mount_point command translate from_tempfile from_mount_point
translated_at h url result m real =
    let device : device_name m.uuid ≡ m.device =
      (device_name-IsDevice m.uuid).is_real real ∙ sym (m.is_device.is_real real) in
    let searched : h.system (command m.uuid m.name) ≡ false =
      ap
        (λ d.
          h.system (
            append "/bin/grep \"" (append d (append "\" /proc/mounts | cut -f 2 -d ' ' >" m.name))))
        device
      ∙ m.found in
    let begun : translate h m.uuid m.segments ≡ from_tempfile h m.uuid m.segments m.name =
      rw (m.temporary, translate) in
    let read : from_tempfile h m.uuid m.segments m.name
        ≡ from_mount_point h m.segments (mount_point (append m.mount (String.◌∷◌ m.last ""))) =
      rw (searched, m.read_back, from_tempfile) in
    let located : h.filename_to_uri (join m.mount m.segments) ≡ some result =
      ap h.filename_to_uri (join-below m.mount m.segments) ∙ m.is_file in
    let made : from_mount_point h m.segments m.mount ≡ result =
      rw (m.is_mounted, located, from_mount_point) in
    begun ∙ read ∙ ap (from_mount_point h m.segments) (without_last m.mount m.last) ∙ made

translated :
    (h : Host) (url result : String) (m : Mounted h url result)
    → starts_with m.uuid "DO-NOT-STORE:" ≡ false
    → is_blank result ≡ false
    → translate_url_to_regular_url h url ≡ (result, false)
unfolding translate_url_to_regular_url translate_uri translate_segments
translated h url result m real file =
    let begun : translate_url_to_regular_url h url ≡ translate_uri h m.uri =
      rw (m.parsed, translate_url_to_regular_url) in
    let split : translate_segments h m.uri.path_segments ≡ translate h m.uuid m.segments =
      rw (m.path, translate_segments) in
    let same = split ∙ translated_at h url result m real in
    let linked : translate_uri h m.uri ≡ (result, is_blank result) =
      rw (m.is_link, same, translate_uri) in
    begun ∙ linked ∙ ap (λ failed. (result, failed)) file

-- A translation fails with an empty result; or the text is a URI of another scheme, and the result is
-- empty; or it is a link with a UUID, and the result, which is not empty, is the URI of the path of the
-- other names of the link, each behind a slash, below a mount point: below what the second column of
-- those lines of the mount table holds that the text of the device is found in, without the last
-- character. The text of the device is what the shell finds for the UUID, or for a stand-in of one the
-- rest of it, with slashes for underscores. And if all this is found for a link with a UUID that is no
-- stand-in, then the link is translated so.
pub translate_url_lem :
    (h : Host) (url : String)
    → Outcome h url (translate_url_to_regular_url h url)
      × ((result : String) (m : Mounted h url result)
          → starts_with m.uuid "DO-NOT-STORE:" ≡ false
          → is_blank result ≡ false
          → translate_url_to_regular_url h url ≡ (result, false))
translate_url_lem h url = (outcome h url, translated h url)
