-- ===== src/Player/Tests.antt =====
-- Players at concrete streams.
use streamplayer.Base.{ℕ, ◌≡◌, refl, inr, true, false, none, some, [], ◌∷◌}
use streamplayer.Reasons.{url_missing}
use streamplayer.UsbUrl.{is_blank}
use streamplayer.Urls.{link, is_empty as is_empty_urls, get_selected, get_stream_uri}
use streamplayer.Item.{
  Item, ItemState, active_half_playing, about_to_be_skipped, set_state, get_selected_url_state,
  known_airable_link, about_to_activate, fail,
}
use streamplayer.Player.{Player, ready, playing, not_requested}
use streamplayer.Player.Take.{is_about_to_play, try_take_next}
use streamplayer.Player.Take.Outcome.{Outcome}
use streamplayer.Player.Take.Failures.{next_fails_instead}
use streamplayer.Player.Play.{Place, resolve_selected_url_or_play_uri}
use streamplayer.Player.Resolved.{result_fetched, notify}
use streamplayer.Player.Resolved.Playing.{link_is_played}
use streamplayer.Player.Next.{next}
use streamplayer.Player.Next.Skipping.{InActivation, next_skips_itself}
use streamplayer.Player.Play.Direct.{asked_then, has_no_data}
use streamplayer.Player.Samples.{
  one_url, an_item, broken_stream, good_stream, later_streams, a_player, broken_player,
  playing_player, willing,
}

is_about : is_about_to_play broken_stream.state ≡ true
unfolding is_about_to_play
is_about = refl

is_broken : is_empty_urls broken_stream.stream_urls ≡ true
unfolding is_empty_urls
is_broken = refl

fails_first : (fail good_stream).1 ≡ true
unfolding fail
fails_first = refl

next_fails_instead_example :
    let (q, t) = try_take_next true broken_player in
    (t.found ≡ false)
    × (q.current_stream ≡ some (fail good_stream).0)
    × (q.queue.queue ≡ later_streams)
    × (q.failure.details.reason ≡ url_missing)
    × (q.failure.is_failing ≡ broken_player.failure.is_failing)
    × (q.signals ≡ broken_player.signals)
next_fails_instead_example =
    next_fails_instead true broken_player broken_stream good_stream later_streams refl refl is_about
      is_broken fails_first

has_urls : (i : ℕ) (s : ItemState) → is_empty_urls (an_item i s one_url).stream_urls ≡ false
unfolding is_empty_urls
has_urls i s = refl

in_activation : InActivation active_half_playing
unfolding InActivation
in_activation = inr refl

next_skips_itself_example : next (willing playing) true false playing_player ≡ (
  record playing_player {
    current_stream = some (set_state about_to_be_skipped (an_item 1 active_half_playing one_url));
    asked_states = ready ∷ playing_player.asked_states;
  },
  playing_player.supposed_play_status,
  some (record { skipped_id = some 1; next_id = none }),
)
next_skips_itself_example =
    next_skips_itself (willing playing) playing_player (an_item 1 active_half_playing one_url) refl
      in_activation (has_urls 1 active_half_playing)

abbrev link_stream : Item
link_stream =
    an_item 2 about_to_activate (record { urls = link "airable://a" ∷ []; selected_url = 0 })

abbrev link_player : Player
link_player = a_player (some link_stream) good_stream

is_selected : get_selected link_stream.stream_urls ≡ some (link "airable://a")
unfolding get_selected
is_selected = refl

is_link : get_selected_url_state link_stream ≡ known_airable_link
unfolding get_selected_url_state is_empty_urls get_selected is_blank get_stream_uri
is_link = refl

not_blank : is_blank "http://x" ≡ false
unfolding is_blank
not_blank = refl

link_is_played_example :
    let g = willing playing in
    let p = link_player in
    let q = (resolve_selected_url_or_play_uri g false Place.handled playing false p).0 in
    let r = notify g (result_fetched "http://x" 60) link_stream.stream_id playing false 5 q in
    (q.uri ≡ p.uri)
    × (q.asked_states ≡ p.asked_states)
    × (r.uri ≡ "http://x")
    × (r.asked_states ≡ asked_then (has_no_data g link_stream p) playing p.asked_states)
    × (r.next_stream_request ≡ not_requested)
    × (r.queue ≡ p.queue)
    × (r.supposed_play_status ≡ p.supposed_play_status)
    × (r.signals ≡ p.signals)
link_is_played_example =
    link_is_played (willing playing) playing link_player link_stream (link "airable://a") "http://x"
      60 5 refl is_selected refl not_blank is_link refl
