-- ===== src/Player/Resolved/Playing.antt =====
-- A link is played once it is resolved.
use Prim.Native.String.{String}
use streamplayer.Base.{ℕ, ◌≡◌, refl, sym, ◌∙◌, ap, true, false, none, some, ◌∷◌, eq→==, some_inj}
use streamplayer.UsbUrl.{is_blank}
use streamplayer.Urls.{Url, get_selected}
use streamplayer.Item.{
  Item, known_airable_link, resolved, resolver_begin, resolver_finish, get_selected_url_state,
  get_url_for_playing, UrlState, is_network_stream,
}
use streamplayer.Item.Resolve.{resolver_succeeds}
use streamplayer.Player.{invalidate_position_information, Player, GstState, not_requested}
use streamplayer.Player.Play.{
  Pipeline, handled, item_at, put_at, or_blank, do_encourage_buffering, begin_resolve,
  resolve_or_play, resolve_selected_url_or_play_uri,
}
use streamplayer.Player.Play.Direct.{
  link_played, encourage-Keeps, encourage-asks, asked_then, has_no_data,
}
use streamplayer.Player.Resolved.{
  result_fetched, has_id, find_item, finish_resolver, go_on, finish_at, finish_found, notify,
}

-- The item while its link is being resolved.
abbrev resolving : Url → Item → Item
resolving u i = record i { resolver = some u.original_url_string }

resolver_begun :
    (i : Item) (u : Url)
    → get_selected i.stream_urls ≡ some u
    → resolver_begin i ≡ some (resolving u i, elim i.resolver [ none ↦ false | some _ ↦ true ])
unfolding resolver_begin
resolver_begun i u e = rw (e, resolver_begin) refl

resolve_begun :
    (p : Player) (i : Item) (u : Url)
    → get_selected i.stream_urls ≡ some u
    → begin_resolve handled i p ≡ record p { current_stream = some (resolving u i) }
unfolding begin_resolve put_at
resolve_begun p i u e = rw (resolver_begun i u e, begin_resolve) refl

link_asked :
    (g : Pipeline) (x : UrlState) (i : Item) (s : GstState) (p : Player)
    → x ≡ known_airable_link
    → (resolve_or_play g x false handled i s false p).0 ≡ begin_resolve handled i p
unfolding resolve_or_play begin_resolve
link_asked g x i s p e = rw (e, resolve_or_play) refl

link_begun :
    (g : Pipeline) (s : GstState) (p : Player) (i : Item) (u : Url)
    → p.current_stream ≡ some i
    → get_selected i.stream_urls ≡ some u
    → get_selected_url_state i ≡ known_airable_link
    → (resolve_selected_url_or_play_uri g false handled s false p).0
      ≡ record p { current_stream = some (resolving u i) }
unfolding resolve_selected_url_or_play_uri item_at
link_begun g s p i u here e link =
    let q = record p { current_stream = some i } in
    rw here (link_asked g (get_selected_url_state i) i s q link ∙ resolve_begun q i u e)

-- The item that is handled is found by its ID.
found_handled :
    (p : Player) (i : Item) → p.current_stream ≡ some i → find_item i.stream_id p ≡ some handled
unfolding find_item has_id
found_handled p i here = simp (here, eq→== i.stream_id i.stream_id refl) refl

-- What is found is played if its link has been resolved.
found_played :
    (g : Pipeline) (s : GstState) (p : Player) (i k : Item) (uri : String) (valid now : ℕ)
    → p.current_stream ≡ some i
    → resolver_finish uri valid now i ≡ some (k, resolved)
    → g.accepts s ≡ true
    → notify g (result_fetched uri valid) i.stream_id s false now p
      ≡ do_encourage_buffering g (record p {
        current_stream = some k;
        uri = or_blank (get_url_for_playing k);
        next_stream_request = not_requested;
        asked_states = s ∷ p.asked_states;
        previous_time = invalidate_position_information;
      })
unfolding notify finish_found finish_resolver finish_at go_on item_at put_at
found_played g s p i k uri valid now here e a =
    simp (found_handled p i here)
      (rw here (rw e (ap (λ r. r.0) (link_played g s (record p { current_stream = some k }) k a))))

-- Whether data has come depends on the stream's type.
typed_alike :
    (g : Pipeline) (i k : Item) (p q : Player)
    → k.stream_type ≡ i.stream_type
    → q.stream_buffering_data ≡ p.stream_buffering_data
    → has_no_data g k q ≡ has_no_data g i p
unfolding has_no_data is_network_stream
typed_alike g i k p q e d = rw (e, d) refl

-- A stream whose selected URL is a link that is not resolved: when it is to be played its link is
-- resolved first, and the pipeline is asked for nothing; when the call for it ends with a URI, which
-- finds the stream still handled, the pipeline is given this URI and asked for the state, which it
-- accepts, and for a pause after it if data is to be waited for; the queue and the status stay as they are, nothing is emitted, and no stream is requested
-- any more.
pub link_is_played :
    (g : Pipeline) (s : GstState) (p : Player) (i : Item) (u : Url) (uri : String) (valid now : ℕ)
    → p.current_stream ≡ some i
    → get_selected i.stream_urls ≡ some u
    → u.is_airable_link ≡ true
    → is_blank uri ≡ false
    → get_selected_url_state i ≡ known_airable_link
    → g.accepts s ≡ true
    → let q = (resolve_selected_url_or_play_uri g false handled s false p).0 in
      let r = notify g (result_fetched uri valid) i.stream_id s false now q in
      (q.uri ≡ p.uri)
      × (q.asked_states ≡ p.asked_states)
      × (r.uri ≡ uri)
      × (r.asked_states ≡ asked_then (has_no_data g i p) s p.asked_states)
      × (r.next_stream_request ≡ not_requested)
      × (r.queue ≡ p.queue)
      × (r.supposed_play_status ≡ p.supposed_play_status)
      × (r.signals ≡ p.signals)
unfolding do_encourage_buffering or_blank
link_is_played g s p i u uri valid now here e link blank state a =
    let (j, k, begun, waits, done, known, url, reported, same_type) =
      resolver_succeeds i u uri valid now e link blank in
    let same = ap (λ x. x.0) (some_inj (sym begun ∙ resolver_begun i u e)) in
    let q = record p { current_stream = some (resolving u i) } in
    let done_here = ap (resolver_finish uri valid now) (sym same) ∙ done in
    let asked = record q {
      current_stream = some k;
      uri = or_blank (get_url_for_playing k);
      next_stream_request = not_requested;
      asked_states = s ∷ p.asked_states;
      previous_time = invalidate_position_information;
    } in
    let kept = encourage-Keeps g (some k) asked in
    simp
      (
        link_begun g s p i u here e state,
        found_played g s q (resolving u i) k uri valid now refl done_here a,
      )
      (
        refl,
        refl,
        kept.uri ∙ ap or_blank url,
        encourage-asks g k asked
            ∙ ap (λ b. asked_then b s p.asked_states) (typed_alike g i k p asked same_type refl),
        kept.request,
        kept.queue,
        kept.status,
        kept.signals,
      )
