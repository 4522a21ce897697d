-- ===== src/Urls/Collect.antt =====
-- Which URLs a collection holds, and that the selected one is always one of them.
use Prim.Native.String.{String}
use streamplayer.Base.{
  ℕ, ◌<◌, ◌≡◌, refl, sym, ◌∙◌, ◌⊎◌, inl, inr, Bool, true, false, Option, none, some, List, [], ◌∷◌,
  ◌++◌, arith, length, All, Bool-cases, Option-cases, none_not_some, length-set, get_elem?_in_range,
  subst, append-nil, append_assoc, if◌then◌else◌,
}
use streamplayer.UsbUrl.{Host, is_blank, translate_url_to_regular_url}
use streamplayer.Urls.{
  Url, link, direct, StreamUrls, translate_and_append_url, append_pair, append_pairs, from_pairs,
  select_next_index, select_url_index, get_selected, set_selected,
}

-- A URL as it is collected: a link that is not empty, or a URL whose translation has not failed,
-- with the result of the translation.
abbrev pub IsFresh : Host → Url → Type 0
IsFresh h u =
    ((u ≡ link u.original_url_string) × (is_blank u.original_url_string ≡ false))
    ⊎ ((u ≡ direct u.direct_url u.original_url_string)
        × (translate_url_to_regular_url h u.original_url_string ≡ (u.direct_url, false)))

-- What becomes of one pushed pair.
abbrev pub accept : Host → String × Bool → Option Url
accept h (uri, is_link) =
    let (xlated_url, failed) = translate_url_to_regular_url h uri in
    if is_link
    then (if is_blank uri then none else some (link uri))
    else (if failed then none else some (direct xlated_url uri))

abbrev pub if_some : Option Url → List Url → List Url
if_some none us = us
if_some (some u) us = u ∷ us

abbrev pub accepted : Host → List (String × Bool) → List Url
accepted h [] = []
accepted h (p ∷ ps) = if_some (accept h p) (accepted h ps)

append_pair-accept :
    (h : Host) (urls : List Url) (p : String × Bool)
    → append_pair h urls p ≡ elim (accept h p) [ none ↦ urls | some u ↦ urls ++ u ∷ [] ]
unfolding append_pair translate_and_append_url
append_pair-accept h urls (uri, true) = elim (Bool-cases (is_blank uri)) [
  | inl blank ↦ rw blank
  | inr full ↦ rw full
]
append_pair-accept h urls (uri, false) = elim (Bool-cases (translate_url_to_regular_url h uri).1) [
  | inl failed ↦ rw failed
  | inr done ↦ rw done
]

append_pairs-accepted :
    (h : Host) (urls : List Url) (ps : List (String × Bool))
    → append_pairs h urls ps ≡ urls ++ accepted h ps
unfolding append_pairs
append_pairs-accepted h urls [] = sym (append-nil urls)
append_pairs-accepted h urls (p ∷ ps) = elim (Option-cases (accept h p)) [
  | inl e ↦ rw (append_pair-accept h urls p, e) (append_pairs-accepted h urls ps)
  | inr (u, e) ↦
      rw (append_pair-accept h urls p, e)
        (append_pairs-accepted h (urls ++ u ∷ []) ps ∙ append_assoc urls (u ∷ []) (accepted h ps))
]

accept-IsFresh : (h : Host) (p : String × Bool) (u : Url) → accept h p ≡ some u → IsFresh h u
accept-IsFresh h (uri, true) u e = elim (Bool-cases (is_blank uri)) [
  | inl blank ↦ absurd (none_not_some (rw blank at e))
  | inr full ↦
      let kept : some (link uri) ≡ some u = rw full at e in
      let same : link uri ≡ u = cc in subst (IsFresh h) same (inl (refl, full))
]
accept-IsFresh h (uri, false) u e = elim (Bool-cases (translate_url_to_regular_url h uri).1) [
  | inl failed ↦ absurd (none_not_some (rw failed at e))
  | inr done ↦
      let xlated = (translate_url_to_regular_url h uri).0 in
      let kept : some (direct xlated uri) ≡ some u = rw done at e in
      let same : direct xlated uri ≡ u = cc in
      let pair : translate_url_to_regular_url h uri ≡ (xlated, false) = λ i. (xlated, done i) in
      subst (IsFresh h) same (inr (refl, pair))
]

accepted-IsFresh : (h : Host) (ps : List (String × Bool)) → All (IsFresh h) (accepted h ps)
accepted-IsFresh h [] = tt
accepted-IsFresh h (p ∷ ps) = elim (Option-cases (accept h p)) [
  | inl e ↦ rw e (accepted-IsFresh h ps)
  | inr (u, e) ↦ rw e (accept-IsFresh h p u e, accepted-IsFresh h ps)
]

-- A collection made from pushed pairs holds exactly what is made of each pair, in the order of the
-- pairs, a pair with an empty link or with a URL that cannot be translated giving nothing; each of
-- its URLs is fresh; and the first one is selected.
pub from_pairs_lem :
    (h : Host) (ps : List (String × Bool))
    → let s = from_pairs h ps in
      (s.urls ≡ accepted h ps) × All (IsFresh h) s.urls × (s.selected_url ≡ 0)
unfolding from_pairs
from_pairs_lem h ps =
    let e = append_pairs-accepted h [] ps in
    (e, subst (All (IsFresh h)) (sym e) (accepted-IsFresh h ps), refl)

-- What is done to a collection: choosing a URL, and updating the chosen one.
pub data Choice : Type 0 where
  next : Choice
  index : ℕ → Choice
  update : Url → Choice

pub choose : StreamUrls → Choice → StreamUrls
choose s next = (select_next_index s).0
choose s (index idx) = (select_url_index idx s).0
choose s (update u) = set_selected u s

pub choose_all : StreamUrls → List Choice → StreamUrls
choose_all s [] = s
choose_all s (c ∷ cs) = choose_all (choose s c) cs

choose-in_range :
    (s : StreamUrls) (c : Choice)
    → s.selected_url < length s.urls
    → ((choose s c).selected_url < length (choose s c).urls)
      × (length (choose s c).urls ≡ length s.urls)
unfolding choose select_next_index select_url_index set_selected
choose-in_range s next h = ground arith
choose-in_range s (index idx) h = ground arith
choose-in_range s (update u) h = omega (arith, length-set s.urls s.selected_url u)

choose_all-in_range :
    (s : StreamUrls) (cs : List Choice)
    → s.selected_url < length s.urls
    → ((choose_all s cs).selected_url < length (choose_all s cs).urls)
      × (length (choose_all s cs).urls ≡ length s.urls)
unfolding choose_all
choose_all-in_range s [] h = (h, refl)
choose_all-in_range s (c ∷ cs) h =
    let (here, same) = choose-in_range s c h in
    let (there, same') = choose_all-in_range (choose s c) cs here in (there, same' ∙ same)

-- Where a collection made from pushed pairs is not empty, the selected URL exists after any
-- choices and updates, and no URL is lost or added.
pub selected_exists :
    (h : Host) (ps : List (String × Bool)) (cs : List Choice)
    → 0 < length (from_pairs h ps).urls
    → let s = choose_all (from_pairs h ps) cs in
      ((u : Url) × (get_selected s ≡ some u)) × (length s.urls ≡ length (from_pairs h ps).urls)
unfolding get_selected
selected_exists h ps cs some_url =
    let first = (from_pairs_lem h ps).2 in
    let (there, same) = choose_all-in_range (from_pairs h ps) cs (omega arith) in
    (get_elem?_in_range _ _ there, same)
