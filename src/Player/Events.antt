-- ===== src/Player/Events.antt =====
-- What happens to an activated player, one event after another, src/streamer.cc: the requests of
-- clients, the messages of the pipeline as bus_message_handler() hands them on, its signal
-- "about-to-finish", the timer that reports the progress, and the end of a call that resolves a link.
-- What the pipeline says comes with each event. Messages that only end in the log, and tags, are left
-- out.
pub mod Quiet
use Prim.Native.String.{String}
use streamplayer.Base.{ℕ, Bool, true, false, Option, none, some, List, [], ◌∷◌}
use streamplayer.Reasons.{GError}
use streamplayer.Item.{Item}
use streamplayer.Player.{Player, GstState, Sender}
use streamplayer.Player.Play.{Pipeline}
use streamplayer.Player.Requests.{
  queue_stream_from_url_fifo, push_item, clear_queue, handle_end_of_stream, do_stop, stop, start,
  pause,
}
use streamplayer.Player.Next.{next}
use streamplayer.Player.Resolved.{Ended, notify}
use streamplayer.Player.Progress.{report_progress}
use streamplayer.Player.Filling.{handle_buffering}
use streamplayer.Player.Activation.{handle_start_of_stream}
use streamplayer.Player.StateChange.{handle_stream_state_change}
use streamplayer.Player.ErrorMessage.{handle_error_message}
use streamplayer.Player.Seeking.{
  seek, handle_stream_duration_async, handle_clock_lost_message, handle_request_state_message,
}

-- deactivate() stops the player with the state that is pending.
pub data Event : Type 0 where
  starts : GstState → Event
  stops : GstState → GstState → Event
  pauses : Event
  seeks : Option ℕ → String → Event
  skips : Bool → Event
  pushes : Item → ℕ → Event
  clears : Option ℕ → Event
  deactivates : GstState → Event
  about_to_finish : ℕ → Event
  link_resolved : Ended → ℕ → GstState → Bool → ℕ → Event
  eos : ℕ → Event
  state_changed : Sender → Bool → Bool → GstState → GstState → GstState → Event
  stream_start : Event
  buffering : Sender → Option ℕ → Event
  async_done : Sender → Option ℕ → Event
  fails : Sender → GError → ℕ → Event
  clock_lost : Sender → Event
  request_state : Sender → GstState → Event
  progress : Event

module _ (scale : ℕ → ℕ → ℕ → ℕ) where
  unfoldable pub handle : Pipeline → Event → Player → Player
  handle g (starts pending) p = (start g true pending p).0
  handle g (stops pending state_after) p = (stop g true pending state_after p).0
  handle g pauses p = (pause g true p).0
  handle g (seeks position units) p = (seek scale g true position units p).0
  handle g (skips only_if_not_stopped) p = (next g true only_if_not_stopped p).0
  handle g (pushes item keep_items) p = (push_item g true item keep_items p).0
  handle g (clears keep_first_n_entries) p = (clear_queue keep_first_n_entries p).0
  handle g (deactivates pending) p = (do_stop g pending p).0
  handle g (about_to_finish sender) p = queue_stream_from_url_fifo g sender p
  handle g (link_resolved ended id next_state prefetching now) p =
      notify g ended id next_state prefetching now p
  handle g (eos sender) p = (handle_end_of_stream g sender p).0
  handle g (state_changed sender is_ours is_video oldstate state pending) p =
      (handle_stream_state_change g sender is_ours is_video oldstate state pending p).0
  handle g stream_start p = handle_start_of_stream g p
  handle g (buffering sender percent) p = handle_buffering g sender percent p
  handle g (async_done sender running_time) p = handle_stream_duration_async g sender running_time p
  handle g (fails sender error now) p = handle_error_message g sender error now p
  handle g (clock_lost sender) p = handle_clock_lost_message g sender p
  handle g (request_state sender state) p = handle_request_state_message g sender state p
  handle g progress p = (report_progress g p).0

  unfoldable pub run : List (Pipeline × Event) → Player → Player
  unfolding handle
  run [] p = p
  run ((g, e) ∷ es) p = run es (handle g e p)
