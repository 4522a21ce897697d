-- ===== src/Player/Filling/Cycle.antt =====
-- The buffer runs empty while a stream plays, and fills again.
use streamplayer.Base.{
  ℕ, ◌≡◌, ◌≢◌, refl, ◌∙◌, ap, true, false, Bool-cases, inl, inr, some, [], ◌∷◌, eq→==, leb,
}
use streamplayer.Buffering
use streamplayer.Buffering.{
  Data, Level, full, medium, underrun, State, paused_pending, paused_for_buffering, is_buffering,
  set_buffer_level, start_buffering,
}
use streamplayer.Item.{Item, active_now_playing}
use streamplayer.Player.{
  Player, void_pending, paused, playing, PlayStatus, from_pipeline, is_same_pipeline, emits_buffer,
  emit,
}
use streamplayer.Player.Play
use streamplayer.Player.Play.{Pipeline, is_paused, set_stream_state, handle_buffer_underrun}
use streamplayer.Player.Filling.{
  boost_for, report_if_unwatched, buffer_is_filled, leave_buffering, try_leave_buffering_state,
  level_changed, is_stopped, take_level, handle_buffering,
}
use streamplayer.Player.Activation.{activate_now, activate_in, activate_item, activate_stream}
use streamplayer.Player.StateChange.{
  emit_pause_state_if_not_buffering, emit_if_active, activate_stream_and_emit_pause_state,
  pause_entered, is_at_rest, new_state, nothing_pending, target_reached, same_rest, state_changed,
  handle_stream_state_change,
}
use streamplayer.Player.Events
use streamplayer.Player.Events.{handle, run}

-- The level has been reached and the state is that.
abbrev pub with_data : State → Level → Player → Player
with_data s l p = record p { stream_buffering_data = record { state = s; level = l } }

abbrev underran : Player → Player
underran p = record (with_data paused_pending underrun p) {
  asked_states = paused ∷ p.asked_states;
  is_boost_enabled = false;
  signals = emits_buffer 0 true ∷ p.signals;
}

abbrev pub refilled : Item → Player → Player
refilled i p = record (with_data State.not_buffering full p) {
  asked_states = playing ∷ paused ∷ p.asked_states;
  is_boost_enabled = i.enable_realtime_processing;
  signals = emits_buffer 100 false ∷ emits_buffer 0 true ∷ p.signals;
}

taken_level :
    (g : Pipeline) (n : ℕ) (p : Player)
    → p.supposed_play_status ≡ PlayStatus.playing
    → leb n 100 ≡ true
    → handle_buffering g (from_pipeline p.pipeline) (some n) p ≡ take_level g n p
unfolding handle_buffering is_same_pipeline is_stopped
taken_level g n p status small = simp (status, small, eq→== p.pipeline p.pipeline refl) refl

runs_empty :
    (g : Pipeline) (p : Player) (l : Level)
    → l ≢ underrun
    → g.target_state ≡ playing
    → is_paused g.current_state ≡ false
    → take_level g 0 (with_data State.not_buffering l p) ≡ underran p
unfolding take_level set_buffer_level level_changed handle_buffer_underrun is_buffering
    Play.underrun start_buffering set_stream_state emit
runs_empty g p full n target moving = simp (target, moving) refl
runs_empty g p medium n target moving = simp (target, moving) refl
runs_empty g p underrun n target moving = elim (n refl) [ ]

-- The stream is active already, and while data is awaited no pause is told.
stays_active :
    (p : Player) (i : Item)
    → p.current_stream ≡ some i
    → i.state ≡ active_now_playing
    → activate_stream_and_emit_pause_state true (underran p) ≡ underran p
unfolding activate_stream_and_emit_pause_state activate_stream activate_item activate_in
    activate_now emit_if_active emit_pause_state_if_not_buffering is_buffering
stays_active p i here active = simp (here, active) refl

pause_taken :
    (g : Pipeline) (p : Player)
    → pause_entered g (underran p) ≡ with_data paused_for_buffering underrun (underran p)
unfolding pause_entered Buffering.entered_pause try_leave_buffering_state
    Buffering.try_leave_buffering_state leave_buffering
pause_taken g p = refl

nothing_to_report :
    (g : Pipeline) (p : Player) → p.progress_watcher ≡ true → report_if_unwatched g p ≡ p
unfolding report_if_unwatched
nothing_to_report g p watched = rw watched refl

pause_reached :
    (g : Pipeline) (p : Player) (i : Item)
    → p.current_stream ≡ some i
    → i.state ≡ active_now_playing
    → p.progress_watcher ≡ true
    → g.target_state ≡ paused
    → (handle_stream_state_change g
        (from_pipeline p.pipeline)
        true
        false
        playing
        paused
        void_pending
        (underran p)).0
      ≡ with_data paused_for_buffering underrun (underran p)
unfolding handle_stream_state_change is_same_pipeline state_changed new_state target_reached
    same_rest nothing_pending is_at_rest
pause_reached g p i here active watched target =
    simp (eq→== p.pipeline p.pipeline refl, target)
      (ap (λ q. report_if_unwatched g (pause_entered g q)) (stays_active p i here active)
        ∙ ap (report_if_unwatched g) (pause_taken g p)
        ∙ nothing_to_report g (with_data paused_for_buffering underrun (underran p)) watched)

abbrev filled : Player → Player
filled p = with_data State.not_buffering full (underran p)

boosted :
    (p : Player) (i : Item)
    → p.current_stream ≡ some i
    → boost_for p.current_stream (filled p)
      ≡ record (filled p) { is_boost_enabled = i.enable_realtime_processing }
unfolding boost_for
boosted p i here = elim (Bool-cases i.enable_realtime_processing) [
  | inl e ↦ rw (here, e) refl
  | inr e ↦ rw (here, e) refl
]

fills :
    (g : Pipeline) (p : Player) (i : Item)
    → p.current_stream ≡ some i
    → p.supposed_play_status ≡ PlayStatus.playing
    → take_level g 100 (with_data paused_for_buffering underrun (underran p)) ≡ refilled i p
unfolding take_level set_buffer_level level_changed try_leave_buffering_state
    Buffering.try_leave_buffering_state leave_buffering buffer_is_filled is_buffering
    set_stream_state emit
fills g p i here status =
    ap (λ q. emit (emits_buffer 100 (is_buffering q.stream_buffering_data)) q)
      (ap (λ s. buffer_is_filled g s (boost_for p.current_stream (filled p))) status
        ∙ ap (buffer_is_filled g PlayStatus.playing) (boosted p i here))

-- A stream that plays and runs out of data: the pipeline is asked to pause, and only the level is told,
-- not the pause; when the pause is reached the player waits on; and when the buffer is full the
-- pipeline is asked to play again and the threads are boosted if they are to be for this stream. The
-- player then has a full buffer and all else as it was, but for what was asked and told.
pub buffer_refills :
    (scale : ℕ → ℕ → ℕ → ℕ) (playing_in pausing_in paused_in : Pipeline) (p : Player) (i : Item)
    (l : Level)
    → p.current_stream ≡ some i
    → i.state ≡ active_now_playing
    → p.progress_watcher ≡ true
    → p.supposed_play_status ≡ PlayStatus.playing
    → l ≢ underrun
    → playing_in.target_state ≡ playing
    → is_paused playing_in.current_state ≡ false
    → pausing_in.target_state ≡ paused
    → let messages = from_pipeline p.pipeline in
      run scale
        ((playing_in, Events.buffering messages (some 0))
          ∷ (pausing_in, Events.state_changed messages true false playing paused void_pending)
          ∷ (paused_in, Events.buffering messages (some 100))
          ∷ [])
        (with_data State.not_buffering l p)
      ≡ refilled i p
unfolding run handle
buffer_refills scale playing_in pausing_in paused_in p i l here active watched status n target
      moving pausing =
    ap
      (λ q.
        handle_buffering paused_in (from_pipeline p.pipeline) (some 100)
          (handle_stream_state_change pausing_in (from_pipeline p.pipeline) true false playing
            paused void_pending q).0)
      (taken_level playing_in 0 (with_data State.not_buffering l p) status refl
        ∙ runs_empty playing_in p l n target moving)
    ∙ ap (handle_buffering paused_in (from_pipeline p.pipeline) (some 100))
        (pause_reached pausing_in p i here active watched pausing)
    ∙ taken_level paused_in 100 (with_data paused_for_buffering underrun (underran p)) status refl
    ∙ fills paused_in p i here status
