-- ===== src/Player/ErrorMessage/Retrying.antt =====
-- An error for the stream that is handled, which has another URL.
use text.Mathlib.Text.{◌==◌ as str_eq}
use streamplayer.Base.{ℕ, ◌≡◌, refl, ◌∙◌, ap, Bool, true, false, none, some, ◌∷◌, eq→==}
use streamplayer.Queue.{peek}
use streamplayer.Reasons.{Reason, GError}
use streamplayer.Item.{
  Item, about_to_activate, set_state, has_prefailed, get_url_for_playing, select_next_url,
  known_direct_url, get_selected_url_state,
}
use streamplayer.Player.{
  Player, GstState, playing, paused, PlayStatus, from_pipeline, is_same_pipeline, not_requested,
  invalidate_position_information, rebuild_playbin,
}
use streamplayer.Player.Play.{Pipeline, or_blank, do_encourage_buffering}
use streamplayer.Player.Play.Direct.{direct_resolved, known_in_any_state, link_played}
use streamplayer.Player.ErrorMessage.{
  WhichStreamFailed, plays, is_prefailed, determine_failed_stream, is_worth_a_retry, seek_position,
  retry_state, retry, try_selected, try_refresh_uri_or_resolve_alternative_uri, retry_for,
  current_failed, reason_for, handle_failed, handle_error_message,
}

-- The pipeline fails for the stream that is handled.
pub record CurrentFails (g : Pipeline) (p : Player) (i : Item) : Type 0 where
  pub is_handled : p.current_stream ≡ some i
  pub has_no_prefailure : has_prefailed i ≡ false
  pub has_uri : str_eq g.current_uri "" ≡ false
  pub is_its_uri : plays g.current_uri (some i) ≡ true

pub determined :
    (g : Pipeline) (p : Player) (i : Item)
    → CurrentFails g p i
    → determine_failed_stream p.current_stream g.current_uri (peek p.queue)
      ≡ WhichStreamFailed.current
unfolding determine_failed_stream is_prefailed
determined g p i f = simp (f.is_handled, f.has_no_prefailure, f.has_uri, f.is_its_uri) refl

pub error_handled :
    (g : Pipeline) (error : GError) (now : ℕ) (p : Player) (i : Item)
    → CurrentFails g p i
    → handle_error_message g (from_pipeline p.pipeline) error now p
      ≡ current_failed g now (reason_for error i) (record p { initial_seek_position_ns = none })
unfolding handle_error_message is_same_pipeline handle_failed
error_handled g error now p i f =
    simp (eq→== p.pipeline p.pipeline refl, determined g p i f)
      (rw (f.is_handled, handle_failed)
        (ap
          (λ o.
            current_failed g now (reason_for error i)
              (record p { current_stream = o; initial_seek_position_ns = none }))
          f.is_handled))

-- The player that starts again with the item.
abbrev pub restarts : Item → Player → Player
restarts j p = record (rebuild_playbin p) {
  current_stream = some (set_state about_to_activate j);
  current_stream_protected_once = true;
  initial_seek_position_ns = seek_position p.current_time.position_s p.initial_seek_position_ns;
}

-- The player that has been given the item's URL.
abbrev asks : GstState → Item → Player → Player
asks s j p = record (restarts j p) {
  uri = or_blank (get_url_for_playing (set_state about_to_activate j));
  next_stream_request = not_requested;
  asked_states = s ∷ (restarts j p).asked_states;
  previous_time = invalidate_position_information;
}

retries :
    (g : Pipeline) (j : Item) (p : Player)
    → get_selected_url_state j ≡ known_direct_url
    → g.accepts (retry_state p.supposed_play_status) ≡ true
    → retry g false j p
      ≡ (do_encourage_buffering g (asks (retry_state p.supposed_play_status) j p), true)
unfolding retry
retries g j p direct a =
    let s = retry_state p.supposed_play_status in
    let k = set_state about_to_activate j in
    direct_resolved g s (restarts j p) k refl (known_in_any_state about_to_activate j ∙ direct)
    ∙ link_played g s (restarts j p) k a

pub refreshed :
    (g : Pipeline) (b : Bool) (now : ℕ) (p : Player) (i : Item)
    → p.current_stream ≡ some i
    → try_refresh_uri_or_resolve_alternative_uri g b now p
      ≡ try_selected g b (select_next_url now i) p
unfolding try_refresh_uri_or_resolve_alternative_uri
refreshed g b now p i here =
    rw (here, try_refresh_uri_or_resolve_alternative_uri)
      (ap (λ o. try_selected g b (select_next_url now i) (record p { current_stream = o })) here)

pub retried_for :
    (g : Pipeline) (b : Bool) (now : ℕ) (reason : Reason) (p : Player) (i j : Item)
    → p.current_stream ≡ some i
    → is_worth_a_retry reason ≡ true
    → select_next_url now i ≡ some (j, true)
    → retry_for g b now reason p ≡ retry g b j p
unfolding retry_for try_selected
retried_for g b now reason p i j here worth next =
    simp (worth, refreshed g b now p i here, next) refl

-- The state of the pipeline in which a stream is retried, by the status of the player.
pub data RetriedIn : PlayStatus → GstState → Type 0 where
  plays_on : RetriedIn PlayStatus.playing playing
  stays_paused : RetriedIn PlayStatus.paused paused
  waits_stopped : RetriedIn PlayStatus.stopped paused
