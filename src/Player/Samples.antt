-- ===== src/Player/Samples.antt =====
-- Streams and players that the tests use.
use streamplayer.Base.{ℕ, true, false, Option, none, some, List, [], ◌∷◌}
use streamplayer.Queue.{Queue}
use streamplayer.Buffering.{State, full}
use streamplayer.Reasons.{unknown}
use streamplayer.Urls.{StreamUrls, generic_network, direct}
use streamplayer.Item.{
  Item, ItemState, in_queue, active_half_playing, active_now_playing, not_failed,
}
use streamplayer.Player.{
  invalidate_position_information, at, Player, GstState, not_requested, PlayStatus, details_on_stop,
}
use streamplayer.Player.Play.{Pipeline}

abbrev pub no_urls : StreamUrls
no_urls = record { urls = []; selected_url = 0 }

abbrev pub one_url : StreamUrls
one_url = record { urls = direct "http://a/b" "" ∷ []; selected_url = 0 }

abbrev pub an_item : ℕ → ItemState → StreamUrls → Item
an_item id s urls = record {
  state = s;
  fail_state = not_failed;
  prefail_reason = unknown;
  stream_id = id;
  stream_urls = urls;
  resolver = none;
  pipeline_start_required_after_resolve = false;
  enable_realtime_processing = true;
  stream_type = generic_network;
}

-- The stream that is about to be played has no URLs.
abbrev pub broken_stream : Item
broken_stream = an_item 1 in_queue no_urls

abbrev pub good_stream : Item
good_stream = an_item 2 in_queue one_url

abbrev pub later_streams : List Item
later_streams = an_item 3 in_queue one_url ∷ []

abbrev pub a_queue : Item → Queue Item
a_queue head = record {
  max_number_of_items = 3;
  queue = head ∷ later_streams;
  removed = some (an_item 7 in_queue one_url) ∷ [];
  dropped = 9 ∷ [];
}

abbrev pub a_player : Option Item → Item → Player
a_player handled head = record {
  pipeline = 1;
  uri = "http://a/b";
  asked_states = [];
  asked_seeks = [];
  current_stream_protected_once = false;
  current_stream = handled;
  next_stream_request = not_requested;
  stream_has_just_started = false;
  stream_buffering_data = record { state = State.not_buffering; level = full };
  queue = a_queue head;
  failure = record { is_failing = false; details = details_on_stop false };
  previous_time = invalidate_position_information;
  current_time = record { position_s = at 5; duration_s = at 60 };
  progress_watcher = true;
  initial_seek_position_ns = none;
  is_boost_enabled = true;
  supposed_play_status = PlayStatus.playing;
  signals = [];
}

abbrev pub broken_player : Player
broken_player = a_player (some broken_stream) good_stream

abbrev pub waiting_player : Player
waiting_player = a_player none broken_stream

abbrev pub playing_player : Player
playing_player = a_player (some (an_item 1 active_half_playing one_url)) good_stream

abbrev pub willing : GstState → Pipeline
willing s = record {
  accepts = λ _. true;
  current_state = s;
  target_state = s;
  current_uri = "http://a/b";
  position_ns = some 7_000_000_000;
  duration_ns = some 60_000_000_000;
  seek_duration_ns = some 60_000_000_000;
  accepts_seek = true;
}

-- A player whose stream plays.
abbrev pub full_player : Player
full_player = a_player (some (an_item 1 active_now_playing one_url)) good_stream

abbrev pub last_player : Player
last_player = record full_player { queue = record full_player.queue { queue = [] } }
