-- ===== src/Player/EventTests.antt =====
-- What happens to concrete players.
use Prim.Native.String.{String, ◌++◌ as append}
use text.Mathlib.Text.{starts_with}
use streamplayer.Base.{
  ℕ, ◌+◌, ◌*◌, ◌/◌, ◌^◌, ◌≤◌, ◌<◌, ◌≡◌, ◌≢◌, refl, ◌⊎◌, inl, true, false, Option, none, some, List,
  [], ◌∷◌,
}
use streamplayer.Queue.{full}
use streamplayer.Buffering.{is_buffering, Level, underrun, State}
use streamplayer.UsbUrl.{is_blank}
use streamplayer.Urls.{direct, get_selected, get_stream_uri, is_empty as is_empty_urls}
use streamplayer.Item.{
  Item, ItemState, about_to_activate, active_now_playing, get_url_for_playing,
  get_url_for_reporting, get_selected_url_state, known_direct_url,
}
use streamplayer.Player.{
  Player, ready, paused, playing, void_pending, from_pipeline, invalidate_position_information,
  mk_id_array_from_dropped_items, emits_now_playing, emits_position_changed,
}
use streamplayer.Player.Play.{Pipeline, is_paused}
use streamplayer.Player.Requests.{state_or_pending}
use streamplayer.Player.Service.{Service, starts_with_more, remove_items_for_root_path}
use streamplayer.Player.Service.Removal.{IsFile, removal_stops}
use streamplayer.Player.Requests.Stopping.{IsActive}
use streamplayer.Player.Progress.{report_progress}
use streamplayer.Player.Progress.Once.{progress_reported_once}
use streamplayer.Player.Activation.{is_deferred, handle_start_of_stream}
use streamplayer.Player.Activation.Gapless.{IsPlayed, started, next_stream_starts}
use streamplayer.Player.Filling.Cycle.{with_data, refilled, buffer_refills}
use streamplayer.Player.StateChange.Stopped.{HasUrl, StopReported, stop_is_reported}
use streamplayer.Player.Seeking.{position_in_ns, seek}
use streamplayer.Player.Seeking.Within.{seek_within_duration, seconds_in_range}
use streamplayer.Player.Events
use streamplayer.Player.Events.{Event, run}
use streamplayer.Player.Events.Quiet.{IsQuiet}
use streamplayer.Player.Events.Quiet.Run.{run-IsQuiet}
use streamplayer.Player.Samples.{
  one_url, an_item, good_stream, later_streams, a_player, willing, full_player,
}

-- gst_util_uint64_scale_int() for small values.
abbrev scaled : ℕ → ℕ → ℕ → ℕ
scaled value numerator denominator = value * numerator / denominator

abbrev some_events : List (Pipeline × Event)
some_events =
    (willing playing, Events.buffering (from_pipeline 1) (some 0))
    ∷ (
      willing paused,
      Events.state_changed (from_pipeline 1) true false playing paused void_pending,
    )
    ∷ (willing paused, Events.async_done (from_pipeline 1) none)
    ∷ (willing paused, Events.skips false)
    ∷ (willing paused, Events.stream_start)
    ∷ []

run-IsQuiet_example : IsQuiet (run scaled some_events full_player)
unfolding is_buffering
run-IsQuiet_example = run-IsQuiet scaled some_events full_player refl

-- The head of the queue has been given to the pipeline.
abbrev next_stream : Item
next_stream = an_item 2 about_to_activate one_url

abbrev gapless_player : Player
gapless_player = a_player full_player.current_stream next_stream

is_played : IsPlayed active_now_playing
unfolding IsPlayed
is_played = inl refl

not_deferred : is_deferred gapless_player.next_stream_request ≡ false
unfolding is_deferred
not_deferred = refl

next_stream_starts_example :
    let p = gapless_player in
    let q = handle_start_of_stream (willing playing) p in
    (q.current_stream ≡ some (started later_streams next_stream))
    × (q.queue.queue ≡ later_streams)
    × (q.signals
        ≡ emits_now_playing next_stream.stream_id
            (get_url_for_reporting next_stream)
            (full (record p.queue { queue = later_streams; removed = []; dropped = [] }))
            (mk_id_array_from_dropped_items p.queue).1
          ∷ p.signals)
    × ((mk_id_array_from_dropped_items q.queue).1 ≡ [])
    × (q.previous_time ≡ invalidate_position_information)
    × (q.supposed_play_status ≡ p.supposed_play_status)
next_stream_starts_example =
    next_stream_starts (willing playing) gapless_player (an_item 1 active_now_playing one_url)
      next_stream later_streams refl is_played refl refl not_deferred

is_moving : is_paused playing ≡ false
unfolding is_paused
is_moving = refl

not_empty : Level.medium ≢ underrun
not_empty e = cc

buffer_refills_example :
    let messages = from_pipeline full_player.pipeline in
    run scaled
      ((willing playing, Events.buffering messages (some 0))
        ∷ (willing paused, Events.state_changed messages true false playing paused void_pending)
        ∷ (willing paused, Events.buffering messages (some 100))
        ∷ [])
      (with_data State.not_buffering Level.medium full_player)
    ≡ refilled (an_item 1 active_now_playing one_url) full_player
buffer_refills_example =
    buffer_refills scaled (willing playing) (willing paused) (willing paused) full_player
      (an_item 1 active_now_playing one_url) Level.medium refl refl refl refl not_empty refl
      is_moving refl

is_active : IsActive (state_or_pending playing void_pending)
unfolding IsActive state_or_pending
is_active = inl refl

was_active : IsActive playing
unfolding IsActive
was_active = inl refl

is_direct : (s : ItemState) → get_selected_url_state (an_item 1 s one_url) ≡ known_direct_url
unfolding get_selected_url_state is_empty_urls get_selected is_blank get_stream_uri
is_direct s = refl

has_url : HasUrl (an_item 1 active_now_playing one_url)
unfolding HasUrl
has_url = inl (is_direct active_now_playing)

stop_is_reported_example : StopReported (an_item 1 active_now_playing one_url) full_player (
    run scaled
      ((willing playing, Events.stops void_pending playing)
        ∷ (
          willing ready,
          Events.state_changed
              (from_pipeline full_player.pipeline)
              true
              false
              playing
              ready
              void_pending,
        )
        ∷ [])
      full_player)
stop_is_reported_example =
    stop_is_reported scaled (willing playing) (willing ready) void_pending playing playing
      full_player (an_item 1 active_now_playing one_url) refl is_active refl refl has_url refl
      was_active refl

progress_reported_once_example :
    let p = full_player in
    let r = report_progress (willing playing) p in
    (report_progress (willing playing) r.0 ≡ r)
    × ((r.0.signals ≡ p.signals)
        ⊎ ((i : Item) × (p.current_stream ≡ some i)
            × (is_buffering p.stream_buffering_data ≡ false)
            × (r.0.signals
                ≡ emits_position_changed i.stream_id r.0.current_time.position_s
                    r.0.current_time.duration_s
                  ∷ p.signals)))
progress_reported_once_example = progress_reported_once (willing playing) full_player

seek_within_duration_example :
    let r = seek scaled (willing playing) true (some 7) "s" full_player in
    ((r.1 ≡ false) × (r.0 ≡ full_player))
    ⊎ ((n : ℕ) × (n ≤ 60_000_000_000) × (r.0.asked_seeks ≡ n ∷ full_player.asked_seeks))
seek_within_duration_example =
    seek_within_duration scaled (willing playing) (some 7) "s" 60_000_000_000 full_player refl

seconds_in_range_example :
    (7 ≤ 9_223_372_036 → position_in_ns scaled 7 "s" 60 ≡ some (7 * 1_000_000_000))
    × (9_223_372_036 < 7 → 7 ≤ 18_446_744_073 → position_in_ns scaled 7 "s" 60 ≡ none)
    × (position_in_ns scaled (7 + 2 ^ 55) "s" 60 ≡ position_in_ns scaled 7 "s" 60)
seconds_in_range_example = seconds_in_range scaled 7 60

-- A file on the device usb10, while usb1 is removed.
abbrev file_stream : Item
file_stream =
    an_item 1 active_now_playing
      (record { urls = direct "file:///media/usb10/a" "" ∷ []; selected_url = 0 })

abbrev file_service : Service
file_service = record {
  player = a_player (some file_stream) good_stream;
  is_player_activated = true;
}

abbrev name_of : String → Option String
name_of url = some "/media/usb10/a"

abbrev path_of : String → Option String
path_of name = some "/media/usb10/a"

file_url : get_url_for_playing file_stream ≡ some "file:///media/usb10/a"
unfolding get_url_for_playing get_selected get_stream_uri is_blank
file_url = refl

begins_with_file : starts_with_more "file:///media/usb10/a" "file://" ≡ true
unfolding starts_with_more
begins_with_file = refl

has_name : is_blank "/media/usb10/a" ≡ false
unfolding is_blank
has_name = refl

is_file :
    IsFile name_of path_of file_service.player file_stream "file:///media/usb10/a" "/media/usb10/a"
      "/media/usb10/a"
is_file = record {
  is_handled = refl;
  has_url = file_url;
  is_file_url = begins_with_file;
  has_name = refl;
  has_length = has_name;
  is_short = refl;
  has_path = refl;
}

file_stream-HasUrl : HasUrl file_stream
unfolding HasUrl get_selected_url_state is_empty_urls get_selected is_blank get_stream_uri
file_stream-HasUrl = inl refl

removal_stops_example :
    let (q, done) =
      remove_items_for_root_path name_of path_of
        (willing playing)
        void_pending
        playing
        "/media/usb1"
        file_service in
    (done ≡ true)
    × ("/media/usb10/a" ≡ append "/media/usb1" "0/a"
        → StopReported file_stream file_service.player (
            run scaled
              ((
                willing ready,
                Events.state_changed
                    (from_pipeline file_service.player.pipeline)
                    true
                    false
                    playing
                    ready
                    void_pending,
              )
                ∷ [])
              q.player))
    × (starts_with "/media/usb10/a" "/media/usb1" ≡ false → q ≡ file_service)
removal_stops_example =
    removal_stops name_of path_of scaled (willing playing) (willing ready) void_pending playing
      playing "/media/usb1" "0/a" file_service file_stream "file:///media/usb10/a" "/media/usb10/a"
      "/media/usb10/a" is_file refl refl is_active refl file_stream-HasUrl refl was_active refl
