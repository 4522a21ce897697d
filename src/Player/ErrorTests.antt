-- ===== src/Player/ErrorTests.antt =====
-- What happens to concrete players when the pipeline tells an error.
use streamplayer.Base.{ℕ, ◌≡◌, refl, inl, true, false, some, [], ◌∷◌}
use streamplayer.Queue.{is_empty}
use streamplayer.Reasons.{GError, StreamError, from_gerror}
use streamplayer.UsbUrl.{is_blank}
use streamplayer.Urls.{StreamUrls, direct, get_selected, get_stream_uri, is_empty as is_empty_urls}
use streamplayer.Item.{
  Item, about_to_activate, active_now_playing, has_prefailed, fail, get_url_for_playing,
}
use streamplayer.Player.{
  Player, playing, from_pipeline, mk_id_array_from_dropped_items, stopped_with_error, emit_stopped,
}
use streamplayer.Player.Play.{Pipeline}
use streamplayer.Player.Recovery.{IsIdle}
use streamplayer.Player.ErrorMessage.{plays, is_worth_a_retry, reason_for, handle_error_message}
use streamplayer.Player.ErrorMessage.Retrying.{CurrentFails}
use streamplayer.Player.ErrorMessage.GivingUp.{GivesUp, current_is_given_up}
use streamplayer.Player.Samples.{an_item, good_stream, a_player, willing}

-- A stream with two URLs, at the first and at the second.
abbrev two_urls : ℕ → StreamUrls
two_urls n = record {
  urls = direct "http://a/b" "" ∷ direct "http://c/d" "" ∷ [];
  selected_url = n;
}

abbrev a_stream : ℕ → Item
a_stream n = an_item 1 active_now_playing (two_urls n)

abbrev two_player : Player
two_player = a_player (some (a_stream 0)) good_stream

abbrev broken_data : GError
broken_data = GError.stream StreamError.decode

abbrev odd_error : GError
odd_error = GError.stream StreamError.encode

no_prefailure : has_prefailed (a_stream 0) ≡ false
unfolding has_prefailed
no_prefailure = refl

same_url : plays "http://a/b" (some (a_stream 0)) ≡ true
unfolding plays get_url_for_playing get_selected get_stream_uri is_blank
same_url = refl

current_fails : CurrentFails (willing playing) two_player (a_stream 0)
current_fails = record {
  is_handled = refl;
  has_no_prefailure = no_prefailure;
  has_uri = refl;
  is_its_uri = same_url;
}

gives_up : GivesUp (reason_for odd_error (a_stream 0)) 5 (a_stream 0) (a_stream 0)
unfolding GivesUp is_worth_a_retry reason_for from_gerror
gives_up = inl (refl, refl)

fails_first : (fail (a_stream 0)).1 ≡ true
unfolding fail
fails_first = refl

current_is_given_up_example :
    let p = two_player in
    let q = handle_error_message (willing playing) (from_pipeline p.pipeline) odd_error 5 p in
    IsIdle q
    × (q.queue.queue ≡ p.queue.queue)
    × (q.signals
        ≡ stopped_with_error
            (reason_for odd_error (a_stream 0))
            (mk_id_array_from_dropped_items p.queue).1
            (is_empty p.queue)
            (some (fail (a_stream 0)).0)
          ∷ p.signals)
    × (emit_stopped q ≡ q)
current_is_given_up_example =
    current_is_given_up (willing playing) odd_error 5 two_player (a_stream 0) (a_stream 0)
      current_fails gives_up fails_first

-- The pipeline plays the URL of the head of the queue already.
abbrev prefetching : Pipeline
prefetching = record (willing playing) { current_uri = "http://n/x" }

abbrev bad_next : Item
bad_next =
    an_item 2 about_to_activate (record { urls = direct "http://n/x" "" ∷ []; selected_url = 0 })

abbrev prefetched_player : Player
prefetched_player = a_player (some (a_stream 0)) bad_next
