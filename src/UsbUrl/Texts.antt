-- ===== src/UsbUrl/Texts.antt =====
-- The texts that a translation puts together and takes apart.
use Prim.Native.String.{String, ◌++◌ as append}
use Prim.Native.Char.{Char, code}
use text.Mathlib.Text.{starts_with}
use text.Mathlib.TextLemmas.{nil-append, cons-append, append-nil, append_assoc}
use text.Mathlib.TextPositions.{starts_with-append}
use streamplayer.Base.{
  ◌≡◌, refl, sym, ap, ◌∙◌, if◌then◌else◌, ◌==◌ as nat_eq, inl, inr, false, List, [], ◌∷◌,
  Bool-cases,
}
use streamplayer.UsbUrl.{
  is_blank, join, but_last, beyond, fake_prefix, beyond_fake_uuid_prefix, slashes, device_name,
}

-- The text that is searched for in the mount table: for a stand-in of a UUID the name behind its
-- prefix, with slashes for underscores, and otherwise what the shell finds for the UUID.
pub with_slashes : String → String
with_slashes String.[] = ""
with_slashes (String.◌∷◌ c s) =
    let rest = with_slashes s in
    if nat_eq (code c) 95 then String.◌∷◌ "/" rest else String.◌∷◌ c rest

pub record IsDevice (uuid device : String) : Type 0 where
  pub stands_in : (rest : String) → uuid ≡ append "DO-NOT-STORE:" rest → device ≡ with_slashes rest
  pub is_real :
      starts_with uuid "DO-NOT-STORE:" ≡ false
      → device ≡ append "$(/usr/bin/realpath /dev/disk/by-uuid/" (append uuid ")")

-- The names of a path, each behind a slash.
pub below : List String → String
below [] = ""
below (s ∷ segments) = append "/" (append s (below segments))

slashes_lem : (s : String) → slashes s ≡ with_slashes s
unfolding slashes with_slashes
slashes_lem String.[] = refl
slashes_lem (String.◌∷◌ c s) = elim (Bool-cases (nat_eq (code c) 95)) [
  | inl e ↦ rw e (ap (λ t. String.◌∷◌ "/" t) (slashes_lem s))
  | inr e ↦ rw e (ap (λ t. String.◌∷◌ c t) (slashes_lem s))
]

beyond_prefix : (p s : String) → beyond p (append p s) ≡ s
unfolding beyond
beyond_prefix String.[] s = nil-append s
beyond_prefix (String.◌∷◌ c p) s =
    ap (beyond (String.◌∷◌ c p)) (cons-append c p s) ∙ beyond_prefix p s

pub device_name-IsDevice : (uuid : String) → IsDevice uuid (device_name uuid)
unfolding device_name beyond_fake_uuid_prefix
device_name-IsDevice uuid = record {
  stands_in = λ rest e. rw e (
      rw (starts_with-append fake_prefix rest, device_name)
        (ap slashes (beyond_prefix fake_prefix rest) ∙ slashes_lem rest));
  is_real = λ e. rw (e, device_name) refl;
}

pub join-below :
    (path : String) (segments : List String) → join path segments ≡ append path (below segments)
unfolding join below
join-below path [] = sym (append-nil path)
join-below path (s ∷ segments) =
    join-below (append path (append "/" s)) segments
    ∙ append_assoc path (append "/" s) (below segments)
    ∙ ap (append path) (append_assoc "/" s (below segments))

-- A text is what is left of it without its last character, and this character.
last_of :
    (c : Char) (s : String)
    → (d : Char) × (String.◌∷◌ c s ≡ append (but_last (String.◌∷◌ c s)) (String.◌∷◌ d ""))
unfolding but_last
last_of c String.[] = (c, sym (nil-append _))
last_of c (String.◌∷◌ d s) =
    let (e, same) = last_of d s in
    (e, ap (λ t. String.◌∷◌ c t) same ∙ sym (cons-append c (but_last (String.◌∷◌ d s)) _))

pub last_split :
    (s : String)
    → is_blank (but_last s) ≡ false
    → (c : Char) × (s ≡ append (but_last s) (String.◌∷◌ c ""))
unfolding but_last is_blank
last_split String.[] b = cc
last_split (String.◌∷◌ c s) b = last_of c s

pub without_last : (s : String) (d : Char) → but_last (append s (String.◌∷◌ d "")) ≡ s
unfolding but_last
without_last String.[] d = ap but_last (nil-append (String.◌∷◌ d ""))
without_last (String.◌∷◌ c String.[]) d =
    ap but_last (cons-append c "" _ ∙ ap (λ t. String.◌∷◌ c t) (nil-append _))
without_last (String.◌∷◌ c (String.◌∷◌ e s)) d =
    ap but_last (cons-append c _ _ ∙ ap (λ t. String.◌∷◌ c t) (cons-append e s _))
    ∙ ap (λ t. String.◌∷◌ c t)
        (ap but_last (sym (cons-append e s _)) ∙ without_last (String.◌∷◌ e s) d)
