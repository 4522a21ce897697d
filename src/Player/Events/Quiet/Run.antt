-- ===== src/Player/Events/Quiet/Run.antt =====
-- Whatever happens to an activated player, its threads are not boosted while it waits for data.
use streamplayer.Base.{ℕ, List, [], ◌∷◌}
use streamplayer.Player.{Player}
use streamplayer.Player.Play.{Pipeline}
use streamplayer.Player.Events
use streamplayer.Player.Events.{Event, handle, run}
use streamplayer.Player.Events.Quiet.{IsQuiet}
use streamplayer.Player.Events.Quiet.Taking.{
  push_item-IsQuiet, clear_queue-IsQuiet, about_to_finish-IsQuiet, end_of_stream-IsQuiet,
}
use streamplayer.Player.Events.Quiet.Requests.{
  start-IsQuiet, stop-IsQuiet, pause-IsQuiet, next-IsQuiet, do_stop-IsQuiet,
}
use streamplayer.Player.Events.Quiet.Messages.{buffering-IsQuiet, report_progress-IsQuiet}
use streamplayer.Player.Events.Quiet.Streams.{start_of_stream-IsQuiet, state_change-IsQuiet}
use streamplayer.Player.Events.Quiet.Errors.{
  error-IsQuiet, seek-IsQuiet, duration-IsQuiet, clock_lost-IsQuiet, request_state-IsQuiet,
  notify-IsQuiet,
}

module _ (scale : ℕ → ℕ → ℕ → ℕ) where
  handle-IsQuiet :
      (g : Pipeline) (e : Event) (p : Player) → IsQuiet p → IsQuiet (handle scale g e p)
  unfolding handle
  handle-IsQuiet g (Events.starts pending) p h = start-IsQuiet g pending p h
  handle-IsQuiet g (Events.stops pending after) p h = stop-IsQuiet g pending after p h
  handle-IsQuiet g Events.pauses p h = pause-IsQuiet g p h
  handle-IsQuiet g (Events.seeks position units) p h = seek-IsQuiet scale g position units p h
  handle-IsQuiet g (Events.skips only) p h = next-IsQuiet g only p h
  handle-IsQuiet g (Events.pushes item keep) p h = push_item-IsQuiet g item keep p h
  handle-IsQuiet g (Events.clears keep) p h = clear_queue-IsQuiet keep p h
  handle-IsQuiet g (Events.deactivates pending) p h = do_stop-IsQuiet g pending p h
  handle-IsQuiet g (Events.about_to_finish sender) p h = about_to_finish-IsQuiet g sender p h
  handle-IsQuiet g (Events.link_resolved ended id s b now) p h =
      notify-IsQuiet g ended id s b now p h
  handle-IsQuiet g (Events.eos sender) p h = end_of_stream-IsQuiet g sender p h
  handle-IsQuiet g (Events.state_changed sender ours video old s pending) p h =
      state_change-IsQuiet g sender ours video old s pending p h
  handle-IsQuiet g Events.stream_start p h = start_of_stream-IsQuiet g p h
  handle-IsQuiet g (Events.buffering sender percent) p h = buffering-IsQuiet g sender percent p h
  handle-IsQuiet g (Events.async_done sender time) p h = duration-IsQuiet g sender time p h
  handle-IsQuiet g (Events.fails sender error now) p h = error-IsQuiet g sender error now p h
  handle-IsQuiet g (Events.clock_lost sender) p h = clock_lost-IsQuiet g sender p h
  handle-IsQuiet g (Events.request_state sender s) p h = request_state-IsQuiet g sender s p h
  handle-IsQuiet g Events.progress p h = report_progress-IsQuiet g p h

  -- A player whose threads are not boosted if it waits for data is such a player after any sequence of
  -- client requests, messages and signals of the pipeline, timers and ended calls.
  pub run-IsQuiet :
      (es : List (Pipeline × Event)) (p : Player) → IsQuiet p → IsQuiet (run scale es p)
  unfolding run
  run-IsQuiet [] p h = h
  run-IsQuiet ((g, e) ∷ es) p h = run-IsQuiet es (handle scale g e p) (handle-IsQuiet g e p h)
