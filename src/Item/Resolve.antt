-- ===== src/Item/Resolve.antt =====
-- Resolving an Airable link: resolver_begin(), resolver_finish() and the states of the URL.
use Prim.Native.String.{String}
use streamplayer.Base.{
  ℕ, ◌+◌, ◌≡◌, refl, subst, ap, ◌∙◌, true, false, none, some, List, [], ◌∷◌, arith, length,
  get_elem?, get_elem?-set_self, get_elem?-lt, length-set, if◌then◌else◌, ltb, Bool-cases, inl, inr,
}
use streamplayer.UsbUrl.{is_blank}
use streamplayer.Urls.{
  Url, StreamUrls, get_selected, set_selected, get_stream_uri, clear_expired_uri, set_resolved_uri,
  is_empty, select_next_index,
}
use streamplayer.Item.{
  Item, known_airable_link, resolving_link, known_resolved_url, resolved, have_more_urls, failed,
  resolver_begin, resolver_finish, resolver_finish_failed, get_selected_url_state, selected_state,
  url_state, get_url_for_playing, get_url_for_reporting, select_next_url, refresh_or_next,
}
use streamplayer.Item.Retry.{set_selected_same}

-- The item with its selected URL replaced, and no resolver.
abbrev answered : Url → Item → Item
answered v i = record i { stream_urls = set_selected v i.stream_urls; resolver = none }

nonempty_list :
    {A : Type 0} (l : List A) (n : ℕ) (a : A)
    → get_elem? l n ≡ some a
    → (elim l [ [] ↦ true | _ ∷ _ ↦ false ]) ≡ false
nonempty_list [] n a e = ground arith
nonempty_list (_ ∷ _) n a e = refl

nonempty : (s : StreamUrls) (u : Url) → get_selected s ≡ some u → is_empty s ≡ false
unfolding get_selected is_empty
nonempty s u e = nonempty_list s.urls s.selected_url u e

replaced :
    (s : StreamUrls) (u v : Url)
    → get_selected s ≡ some u
    → get_selected (set_selected v s) ≡ some v
unfolding get_selected set_selected
replaced s u v e = get_elem?-set_self s.urls s.selected_url v (get_elem?-lt s.urls s.selected_url e)

state_of :
    (i : Item) (u : Url)
    → get_selected i.stream_urls ≡ some u
    → i.resolver ≡ none
    → get_selected_url_state i ≡ selected_state (some u)
unfolding get_selected_url_state
state_of i u e r = rw (nonempty i.stream_urls u e, r, e)

state_answered :
    (i : Item) (u v : Url)
    → get_selected i.stream_urls ≡ some u
    → get_selected_url_state (answered v i) ≡ selected_state (some v)
state_answered i u v e = state_of (answered v i) v (replaced i.stream_urls u v e) refl

playing :
    (i : Item) (u : Url)
    → get_selected i.stream_urls ≡ some u
    → get_url_for_playing i ≡ some (get_stream_uri u).0
unfolding get_url_for_playing
playing i u e = rw (e, get_url_for_playing)

reporting :
    (i : Item) (u : Url)
    → get_selected i.stream_urls ≡ some u
    → get_url_for_reporting i ≡ some u.original_url_string
unfolding get_url_for_reporting
reporting i u e = rw (e, get_url_for_reporting)

resolved_uri :
    (u : Url) (uri : String) (valid now : ℕ)
    → u.is_airable_link ≡ true
    → (get_stream_uri (set_resolved_uri uri valid now u)).0 ≡ uri
unfolding get_stream_uri set_resolved_uri
resolved_uri u uri valid now l = simp l refl

resolved_original :
    (u : Url) (uri : String) (valid now : ℕ)
    → (set_resolved_uri uri valid now u).original_url_string ≡ u.original_url_string
unfolding set_resolved_uri
resolved_original u uri valid now = elim (Bool-cases u.is_airable_link) [
  | inl l ↦ rw l
  | inr l ↦ rw l
]

not_cleared :
    (u : Url) (later now : ℕ)
    → clear_expired_uri later (set_resolved_uri "" 0 now u) ≡ (set_resolved_uri "" 0 now u, false)
unfolding clear_expired_uri set_resolved_uri is_blank
not_cleared u later now = elim (Bool-cases u.is_airable_link) [
  | inl l ↦ simp l refl
  | inr l ↦ simp l refl
]

resolved_link :
    (u : Url) (uri : String) (valid now : ℕ)
    → u.is_airable_link ≡ true
    → is_blank uri ≡ false
    → selected_state (some (set_resolved_uri uri valid now u)) ≡ known_resolved_url
unfolding selected_state set_resolved_uri get_stream_uri url_state
resolved_link u uri valid now l b = simp (l, b) refl

unresolved_link :
    (u : Url) (now : ℕ)
    → u.is_airable_link ≡ true
    → selected_state (some (set_resolved_uri "" 0 now u)) ≡ known_airable_link
unfolding selected_state set_resolved_uri get_stream_uri url_state is_blank
unresolved_link u now l = simp l refl

-- Once a link is being resolved its state says so; and an answer with a URI makes the item
-- playable under that URI, while it is still reported under its link and stays of its type.
pub resolver_succeeds :
    (i : Item) (u : Url) (uri : String) (valid now : ℕ)
    → get_selected i.stream_urls ≡ some u
    → u.is_airable_link ≡ true
    → is_blank uri ≡ false
    → (j : Item) × (k : Item) × (resolver_begin i
        ≡ some (j, elim i.resolver [ none ↦ false | some _ ↦ true ]))
      × (get_selected_url_state j ≡ resolving_link)
      × (resolver_finish uri valid now j ≡ some (k, resolved))
      × (get_selected_url_state k ≡ known_resolved_url)
      × (get_url_for_playing k ≡ some uri)
      × (get_url_for_reporting k ≡ some u.original_url_string)
      × (k.stream_type ≡ i.stream_type)
unfolding resolver_begin get_selected_url_state resolver_finish
resolver_succeeds i u uri valid now e l b =
    let v = set_resolved_uri uri valid now u in
    let r : get_selected (answered v i).stream_urls ≡ some v = replaced i.stream_urls u v e in
    (
      record i { resolver = some u.original_url_string },
      answered v i,
      rw (e, resolver_begin) refl,
      rw (nonempty i.stream_urls u e) refl,
      rw (b, e) refl,
      state_answered i u v e ∙ resolved_link u uri valid now l b,
      playing (answered v i) v r ∙ ap some (resolved_uri u uri valid now l),
      reporting (answered v i) v r ∙ ap some (resolved_original u uri valid now),
      refl,
    )

failed_answer :
    (i : Item) (u : Url) (now : ℕ)
    → get_selected i.stream_urls ≡ some u
    → resolver_finish_failed now i
      ≡ some (
        answered (set_resolved_uri "" 0 now u) i,
        if ltb (i.stream_urls.selected_url + 1) (length i.stream_urls.urls)
            then have_more_urls
            else failed,
      )
unfolding set_selected resolver_finish_failed set_resolved_uri
failed_answer i u now e = rw (
  e,
  resolver_finish_failed,
  length-set i.stream_urls.urls i.stream_urls.selected_url (set_resolved_uri "" 0 now u),
)

-- Selecting the next URL where the selected one is not cleared.
next_uncleared :
    (now : ℕ) (i : Item) (u : Url)
    → get_selected i.stream_urls ≡ some u
    → clear_expired_uri now u ≡ (u, false)
    → select_next_url now i
      ≡ some (
          if ltb (i.stream_urls.selected_url + 1) (length i.stream_urls.urls)
          then (
            record i {
              stream_urls = record i.stream_urls { selected_url = i.stream_urls.selected_url + 1 };
            },
            true,
          )
          else (i, false))
unfolding refresh_or_next select_next_index select_next_url
next_uncleared now i u e c =
    rw (e, select_next_url, c, set_selected_same u i.stream_urls e)
      (elim (Bool-cases (ltb (i.stream_urls.selected_url + 1) (length i.stream_urls.urls))) [
        | inl more ↦ rw more refl
        | inr last ↦ rw last refl
      ])

-- After an answer without a URI the link is as unresolved as before, and the caller is told
-- exactly whether there is another URL to try; if there is, selecting the next URL goes there, and
-- if not, it changes nothing.
pub resolver_fails :
    (i : Item) (u : Url) (uri : String) (valid now later : ℕ)
    → get_selected i.stream_urls ≡ some u
    → u.is_airable_link ≡ true
    → is_blank uri ≡ true
    → let more = ltb (i.stream_urls.selected_url + 1) (length i.stream_urls.urls) in
      (k : Item) × (resolver_finish uri valid now i
        ≡ some (k, if more then have_more_urls else failed))
      × (get_selected_url_state k ≡ known_airable_link)
      × (get_url_for_reporting k ≡ some u.original_url_string)
      × (select_next_url later k
          ≡ some (
              if more
              then (
                record k {
                  stream_urls = record k.stream_urls {
                    selected_url = i.stream_urls.selected_url + 1;
                  };
                },
                true,
              )
              else (k, false)))
unfolding resolver_finish set_selected
resolver_fails i u uri valid now later e l b =
    let v = set_resolved_uri "" 0 now u in
    let r : get_selected (answered v i).stream_urls ≡ some v = replaced i.stream_urls u v e in
    (
      answered v i,
      rw b (failed_answer i u now e),
      state_answered i u v e ∙ unresolved_link u now l,
      reporting (answered v i) v r ∙ ap some (resolved_original u "" 0 now),
      subst
          (λ n.
            select_next_url later (answered v i)
            ≡ some (
                if ltb (i.stream_urls.selected_url + 1) n
                then (
                  record (answered v i) {
                    stream_urls = record (answered v i).stream_urls {
                      selected_url = i.stream_urls.selected_url + 1;
                    };
                  },
                  true,
                )
                else (answered v i, false)))
          (length-set i.stream_urls.urls i.stream_urls.selected_url v)
          (next_uncleared later (answered v i) v r (not_cleared u later now)),
    )
