-- ===== src/Player/Events/Quiet/Requests.antt =====
-- The requests of clients keep the threads from being boosted while the player waits for data.
use text.Mathlib.Text.{◌==◌ as str_eq}
use streamplayer.Base.{ℕ, Bool, true, false, ◌&&◌, Option, none, some, if◌then◌else◌}
use streamplayer.Buffering.{is_buffering}
use streamplayer.Reasons.{already_stopped}
use streamplayer.Item.{
  Item, ItemState, in_queue, about_to_activate, active_half_playing, active_now_playing,
  about_to_phase_out, about_to_be_skipped,
}
use streamplayer.Player.{
  Player, GstState, void_pending, null, ready, paused, playing, PlayStatus, emit_stopped_with_error,
  rebuild_playbin,
}
use streamplayer.Player.Take.{Taken}
use streamplayer.Player.Play.{Pipeline, Place, handled, set_stream_state}
use streamplayer.Player.Requests.{
  clear_all, stop_in_state, do_stop, stop, play_taken, try_play_next_stream,
  rebuild_playbin_for_workarounds, start_in_state, start_pending, start, pause_in_state, pause,
  is_stopped_already,
}
use streamplayer.Player.Next.{
  skip_in_state, skip_current, mark_in_state, mark_current, next_stops, next_plays, next_found,
  next_taken, next,
}
use streamplayer.Player.Events.Quiet.{
  IsQuiet, and_false, if-IsQuiet, if_pair-IsQuiet, if_triple-IsQuiet, set_state_at-IsQuiet,
  play_next_stream-IsQuiet,
}
use streamplayer.Player.Events.Quiet.Taking.{emit_stopped_with_error-IsQuiet, try_take_next-IsQuiet}

stop_in_state-IsQuiet :
    (g : Pipeline) (s : GstState) (p : Player) → IsQuiet p → IsQuiet (stop_in_state g s p).0
unfolding stop_in_state set_stream_state clear_all
stop_in_state-IsQuiet g playing p h = if_triple-IsQuiet (g.accepts ready) _ _ h h
stop_in_state-IsQuiet g paused p h = if_triple-IsQuiet (g.accepts ready) _ _ h h
stop_in_state-IsQuiet g ready p h = h
stop_in_state-IsQuiet g null p h = h
stop_in_state-IsQuiet g void_pending p h = h

pub do_stop-IsQuiet :
    (g : Pipeline) (pending : GstState) (p : Player) → IsQuiet p → IsQuiet (do_stop g pending p).0
unfolding do_stop
do_stop-IsQuiet g pending p h = stop_in_state-IsQuiet g _ _ h

pub stop-IsQuiet :
    (g : Pipeline) (pending after : GstState) (p : Player)
    → IsQuiet p
    → IsQuiet (stop g true pending after p).0
unfolding stop
stop-IsQuiet g pending after p h =
    let r = do_stop g pending p in
    if_pair-IsQuiet {A = Bool} (str_eq p.uri "") (p, false)
      (if r.1 && is_stopped_already after pending
        then (
          emit_stopped_with_error already_stopped r.0.current_stream
              (record r.0 { current_stream = none }),
          r.2,
        )
        else (r.0, r.2))
      h
      (if_pair-IsQuiet {A = Bool} _ _ _ (emit_stopped_with_error-IsQuiet _ _ _)
        (do_stop-IsQuiet g pending p h))

play_taken-IsQuiet :
    (g : Pipeline) (s : GstState) (r : Player × Taken) → IsQuiet r.0 → IsQuiet (play_taken g s r)
unfolding play_taken
play_taken-IsQuiet g s (p, t) h = if-IsQuiet _ _ _ (play_next_stream-IsQuiet g _ _ _ _ _ p h) h

try_play-IsQuiet :
    (g : Pipeline) (s : GstState) (p : Player) → IsQuiet p → IsQuiet (try_play_next_stream g s p)
unfolding try_play_next_stream
try_play-IsQuiet g s p h = play_taken-IsQuiet g s _ (try_take_next-IsQuiet true p h)

rebuilt-IsQuiet : (p : Player) → IsQuiet (rebuild_playbin_for_workarounds p)
unfolding rebuild_playbin_for_workarounds rebuild_playbin
rebuilt-IsQuiet p = and_false _

start_in_state-IsQuiet :
    (g : Pipeline) (s : GstState) (p : Player) → IsQuiet p → IsQuiet (start_in_state g s p).0
unfolding start_in_state set_stream_state
start_in_state-IsQuiet g playing p h = h
start_in_state-IsQuiet g paused p h = h
start_in_state-IsQuiet g ready p h = try_play-IsQuiet g playing _ (rebuilt-IsQuiet p)
start_in_state-IsQuiet g null p h = try_play-IsQuiet g playing _ (rebuilt-IsQuiet p)
start_in_state-IsQuiet g void_pending p h = h

start_pending-IsQuiet :
    (g : Pipeline) (s : GstState) (p : Player) → IsQuiet p → IsQuiet (start_pending g s p).0
unfolding start_pending
start_pending-IsQuiet g playing p h = h
start_pending-IsQuiet g paused p h = start_in_state-IsQuiet g paused p h
start_pending-IsQuiet g ready p h = start_in_state-IsQuiet g _ p h
start_pending-IsQuiet g null p h = start_in_state-IsQuiet g _ p h
start_pending-IsQuiet g void_pending p h = start_in_state-IsQuiet g _ p h

pub start-IsQuiet :
    (g : Pipeline) (pending : GstState) (p : Player)
    → IsQuiet p
    → IsQuiet (start g true pending p).0
unfolding start
start-IsQuiet g pending p h = if_pair-IsQuiet _ _ _ h (start_pending-IsQuiet g pending _ h)

pause_in_state-IsQuiet :
    (g : Pipeline) (s : GstState) (p : Player) → IsQuiet p → IsQuiet (pause_in_state g s p).0
unfolding pause_in_state set_stream_state
pause_in_state-IsQuiet g paused p h = h
pause_in_state-IsQuiet g null p h = try_play-IsQuiet g paused p h
pause_in_state-IsQuiet g ready p h = h
pause_in_state-IsQuiet g playing p h = h
pause_in_state-IsQuiet g void_pending p h = h

pub pause-IsQuiet : (g : Pipeline) (p : Player) → IsQuiet p → IsQuiet (pause g true p).0
unfolding pause
pause-IsQuiet g p h =
    let q = record p { supposed_play_status = PlayStatus.paused } in
    if_pair-IsQuiet {A = Bool} (str_eq p.uri "") (p, false)
      (if is_buffering p.stream_buffering_data
        then (q, true)
        else pause_in_state g g.current_state q)
      h (if_pair-IsQuiet {A = Bool} _ _ _ h (pause_in_state-IsQuiet g g.current_state _ h))

skip_in_state-IsQuiet :
    (s : ItemState) (id : ℕ) (p : Player) → IsQuiet p → IsQuiet (skip_in_state s id p)
unfolding skip_in_state
skip_in_state-IsQuiet about_to_activate id p h = set_state_at-IsQuiet _ handled p h
skip_in_state-IsQuiet active_half_playing id p h = set_state_at-IsQuiet _ handled p h
skip_in_state-IsQuiet in_queue id p h = h
skip_in_state-IsQuiet active_now_playing id p h = h
skip_in_state-IsQuiet about_to_phase_out id p h = h
skip_in_state-IsQuiet about_to_be_skipped id p h = h

skip_current-IsQuiet : (o : Option Item) (p : Player) → IsQuiet p → IsQuiet (skip_current o p)
unfolding skip_current
skip_current-IsQuiet none p h = h
skip_current-IsQuiet (some i) p h = skip_in_state-IsQuiet i.state i.stream_id p h

mark_in_state-IsQuiet : (s : ItemState) (p : Player) → IsQuiet p → IsQuiet (mark_in_state s p).0
unfolding mark_in_state
mark_in_state-IsQuiet in_queue p h = h
mark_in_state-IsQuiet about_to_activate p h = set_state_at-IsQuiet _ handled p h
mark_in_state-IsQuiet active_half_playing p h = set_state_at-IsQuiet _ handled p h
mark_in_state-IsQuiet active_now_playing p h = set_state_at-IsQuiet _ handled p h
mark_in_state-IsQuiet about_to_phase_out p h = h
mark_in_state-IsQuiet about_to_be_skipped p h = h

mark_current-IsQuiet : (o : Option Item) (p : Player) → IsQuiet p → IsQuiet (mark_current o p).0
unfolding mark_current
mark_current-IsQuiet none p h = h
mark_current-IsQuiet (some i) p h = mark_in_state-IsQuiet i.state p h

next_plays-IsQuiet :
    (g : Pipeline) (id : Option ℕ) (o : Option Place) (p : Player)
    → IsQuiet p
    → IsQuiet (next_plays g id o p).0
unfolding next_plays set_stream_state
next_plays-IsQuiet g id o p h =
    if_triple-IsQuiet (g.accepts ready) _ _ (play_next_stream-IsQuiet g _ _ _ _ _ _ h) h

next_found-IsQuiet :
    (g : Pipeline) (id : Option ℕ) (b : Bool) (p : Player)
    → IsQuiet p
    → IsQuiet (next_found g id b p).0
unfolding next_found next_stops
next_found-IsQuiet g id true p h = next_plays-IsQuiet g id none p h
next_found-IsQuiet g id false p h =
    let k = mark_current-IsQuiet p.current_stream p h in
    if_triple-IsQuiet _ _ _ (next_plays-IsQuiet g id _ _ k) k

next_taken-IsQuiet :
    (g : Pipeline) (id : Option ℕ) (r : Player × Taken)
    → IsQuiet r.0
    → IsQuiet (next_taken g id r).0
unfolding next_taken next_stops
next_taken-IsQuiet g id (p, t) h = if_triple-IsQuiet t.found _ _ (next_found-IsQuiet g id _ p h) h

pub next-IsQuiet :
    (g : Pipeline) (only : Bool) (p : Player) → IsQuiet p → IsQuiet (next g true only p).0
unfolding next
next-IsQuiet g only p h =
    let k = if-IsQuiet only _ _ (skip_current-IsQuiet p.current_stream p h) h in
    next_taken-IsQuiet g _ _ (if_pair-IsQuiet _ _ _ k (try_take_next-IsQuiet true _ k))
