-- ===== src/Player/ErrorMessage/Prefetched.antt =====
-- An error for the stream that has been prefetched while another one is handled.
use text.Mathlib.Text.{◌==◌ as str_eq}
use streamplayer.Base.{◌≡◌, true, false, none, some, List, ◌∷◌}
use streamplayer.Item.{
  Item, about_to_activate, set_state, has_prefailed, get_url_for_playing,
  is_pipeline_start_required,
}
use streamplayer.Player.{Player, not_requested}
use streamplayer.Player.Play.{Pipeline, or_blank}
use streamplayer.Player.ErrorMessage.{plays}
use streamplayer.Player.ErrorMessage.Retrying.{restarts}

-- The pipeline fails for the head of the queue, which it has been given ahead.
pub record NextFails (g : Pipeline) (p : Player) (i h : Item) (rest : List Item) : Type 0 where
  pub is_handled : p.current_stream ≡ some i
  pub is_head : p.queue.queue ≡ h ∷ rest
  pub has_no_prefailure : has_prefailed i ≡ false
  pub has_uri : str_eq g.current_uri "" ≡ false
  pub is_not_its_uri : plays g.current_uri (some i) ≡ false
  pub is_next_uri : plays g.current_uri (some h) ≡ true

-- The player without the failed item.
abbrev popped : List Item → Player → Player
popped rest p = record p {
  queue = record p.queue { queue = rest };
  initial_seek_position_ns = none;
}

-- The player whose new pipeline has been given the item's URL, and is not started.
abbrev waits_with : Item → Player → Player
waits_with j p = record (restarts j p) {
  current_stream = some (is_pipeline_start_required (set_state about_to_activate j)).0;
  uri = or_blank (get_url_for_playing (set_state about_to_activate j));
  next_stream_request = not_requested;
}
