-- ===== src/Item/Retry.antt =====
-- Item::select_next_url(): trying the alternatives of a stream comes to an end.
use Prim.Native.String.{String}
use streamplayer.Base.{
  ℕ, suc, ◌+◌, ◌-◌, ◌*◌, ◌≤◌, ◌<◌, ◌≡◌, refl, sym, subst, ◌⊎◌, inl, inr, Bool, true, false, ◌&&◌,
  not, Option, none, some, List, [], ◌∷◌, arith, tests, length, get_elem?-set_self, get_elem?-lt,
  set_same, length-set, Bool-cases, Option-cases, if◌then◌else◌, ltb,
}
use streamplayer.UsbUrl.{is_blank}
use streamplayer.Urls.{
  Url, TimePoint, StreamUrls, earliest, is_before, clear_expired_uri, select_next_index,
  get_selected, set_selected,
}
use streamplayer.Item.{Item, refresh_or_next, select_next_url}

-- Whether a link has been resolved.
weight : Url → ℕ
weight u = if u.is_airable_link && not (is_blank u.direct_url) then 1 else 0

weight_of : Option Url → ℕ
weight_of none = 0
weight_of (some u) = weight u

-- What is left to try: each URL from the selected one on counts twice, since a resolved link may
-- have to be resolved again.
pub effort : StreamUrls → ℕ
unfolding weight weight_of
effort s = 2 * (length s.urls - s.selected_url) + weight_of (get_selected s)

weight-le : (o : Option Url) → weight_of o ≤ 1
unfolding weight_of weight
weight-le none = omega arith
weight-le (some u) = ground arith

-- A URL is kept as it is, or it was a resolved link and no longer is.
abbrev Cleared : Url → Url × Bool → Type 0
Cleared u (v, b) = ((b ≡ false) × (v ≡ u)) ⊎ ((b ≡ true) × (weight v < weight u))

weight_blank :
    (original : String) (is_link : Bool) (t : TimePoint)
    → weight (record {
      direct_url = "";
      original_url_string = original;
      is_airable_link = is_link;
      when_expected_expiry = t;
    })
      ≡ 0
unfolding weight is_blank
weight_blank original true t = refl
weight_blank original false t = refl

clear_cases : (now : ℕ) (u : Url) → Cleared u (clear_expired_uri now u)
unfolding clear_expired_uri
clear_cases now u = elim (Bool-cases u.is_airable_link) [
  | inr e ↦ simp e (inl (refl, refl))
  | inl e ↦ elim (Bool-cases (is_blank u.direct_url)) [
    | inl blank ↦ simp (e, blank) (inl (refl, refl))
    | inr full ↦ elim (Bool-cases (is_before now u.when_expected_expiry)) [
      | inl early ↦ simp (e, full, early) (inl (refl, refl))
      | inr late ↦
          let one : weight u ≡ 1 = unfold weight in rw (e, full) in
          simp (e, full, late)
            (inr (refl, omega (arith, one, weight_blank u.original_url_string true earliest)))
    ]
  ]
]

-- An update of the selected URL keeps the place; and if the URL is the one that is there, it keeps
-- everything.
pub set_selected_same : (u : Url) (s : StreamUrls) → get_selected s ≡ some u → set_selected u s ≡ s
unfolding get_selected set_selected
set_selected_same u s e = λ i. record s { urls = set_same s.urls s.selected_url u e i }

effort-set_selected :
    (u v : Url) (s : StreamUrls)
    → get_selected s ≡ some u
    → weight v < weight u
    → effort (set_selected v s) < effort s
unfolding effort get_selected set_selected
effort-set_selected u v s e h =
    rw (e, get_elem?-set_self s.urls s.selected_url v (get_elem?-lt s.urls s.selected_url e))
      (omega (arith, length-set s.urls s.selected_url v))

next_index_cases :
    (s : StreamUrls)
    → (select_next_index s ≡ (s, false))
      ⊎ (((select_next_index s).1 ≡ true)
          × ((select_next_index s).0.selected_url ≡ s.selected_url + 1)
          × (effort (select_next_index s).0 < effort s))
unfolding select_next_index effort
next_index_cases s = elim (Bool-cases (ltb (s.selected_url + 1) (length s.urls))) [
  | inl more ↦ inr (
    rw more,
    rw more,
    rw more
        (omega (tests, weight-le (get_selected (record s { selected_url = s.selected_url + 1 })))),
  )
  | inr last ↦ inl (rw last)
]

-- What a call has done, by its result.
abbrev pub Progress : Item → Option (Item × Bool) → Type 0
Progress i none = get_selected i.stream_urls ≡ none
Progress i (some (j, true)) = effort j.stream_urls < effort i.stream_urls
Progress i (some (j, false)) = j ≡ i

next-Progress :
    (i : Item)
    → Progress i (
        some
          (let (urls, b) = select_next_index i.stream_urls in (record i { stream_urls = urls }, b)))
next-Progress i = elim (next_index_cases i.stream_urls) [
  | inl last ↦ rw last refl
  | inr (more, _, less) ↦ rw more less
]

refresh-Progress :
    (i : Item) (u v : Url) (b : Bool)
    → get_selected i.stream_urls ≡ some u
    → Cleared u (v, b)
    → Progress i (some (refresh_or_next i (v, b)))
unfolding refresh_or_next
refresh-Progress i u v true sel (inl (e, _)) = cc
refresh-Progress i u v true sel (inr (_, less)) = effort-set_selected u v i.stream_urls sel less
refresh-Progress i u v false sel (inr (e, _)) = cc
refresh-Progress i u v false sel (inl (_, e)) =
    rw (e, set_selected_same u i.stream_urls sel) (next-Progress i)

-- A call that succeeds leaves less to try: it has cleared an expired URI, or gone on to the next
-- URL. One that does not succeed changes nothing. There is no other outcome unless no URL is
-- selected.
pub select_next_url-Progress : (now : ℕ) (i : Item) → Progress i (select_next_url now i)
unfolding select_next_url
select_next_url-Progress now i = elim (Option-cases (get_selected i.stream_urls)) [
  | inl missing ↦
      let r : select_next_url now i ≡ none = rw (missing, select_next_url) in
      subst (Progress i) (sym r) missing
  | inr (u, sel) ↦
      let r : select_next_url now i ≡ some (refresh_or_next i (clear_expired_uri now u)) =
        rw (sel, select_next_url) in
      subst (Progress i) (sym r) (refresh-Progress i u _ _ sel (clear_cases now u))
]

-- Retrying at given times, until a call does not succeed: how often it succeeds. No link is
-- resolved in between.
pub retries : List ℕ → Item → ℕ
retries [] i = 0
retries (now ∷ later) i = elim (select_next_url now i) [
  | none ↦ 0
  | some (j, b) ↦ if b then suc (retries later j) else 0
]

effort-le : (s : StreamUrls) → effort s ≤ 2 * length s.urls + 1
unfolding effort
effort-le s = omega (arith, weight-le (get_selected s))

-- One step of it, from what is known of the steps after it.
retries_step :
    (now : ℕ) (later : List ℕ) (i : Item) (o : Option (Item × Bool))
    → ((j : Item) → retries later j ≤ effort j.stream_urls)
    → select_next_url now i ≡ o
    → Progress i o
    → retries (now ∷ later) i ≤ effort i.stream_urls
unfolding retries
retries_step now later i none rest e p = rw (e, retries) (omega arith)
retries_step now later i (some (j, true)) rest e p = rw (e, retries) (omega (arith, rest j))
retries_step now later i (some (j, false)) rest e p = rw (e, retries) (omega arith)

retries-effort : (times : List ℕ) (i : Item) → retries times i ≤ effort i.stream_urls
unfolding retries
retries-effort [] i = omega arith
retries-effort (now ∷ later) i =
    retries_step now later i _ (λ j. retries-effort later j) refl (select_next_url-Progress now i)

-- Retrying comes to an end: however often and whenever it is tried, with no link resolved in
-- between, selecting another URL succeeds at most twice for each URL of the item, and once more.
pub retries_bounded :
    (times : List ℕ) (i : Item) → retries times i ≤ 2 * length i.stream_urls.urls + 1
retries_bounded times i = omega (arith, retries-effort times i, effort-le i.stream_urls)
