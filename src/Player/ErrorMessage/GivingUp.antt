-- ===== src/Player/ErrorMessage/GivingUp.antt =====
-- Errors after which the stream that is handled is given up.
use streamplayer.Base.{ℕ, ◌≡◌, refl, ◌∙◌, ap, ◌⊎◌, inl, inr, true, false, none, some, ◌∷◌}
use streamplayer.Queue.{is_empty}
use streamplayer.Reasons.{Reason, GError}
use streamplayer.Item.{Item, fail, select_next_url}
use streamplayer.Player.{
  Player, from_pipeline, stopped_with_error, emit_stopped, do_error_recovery, details_on_stop,
  recover_from_error_now_or_later, mk_id_array_from_dropped_items,
}
use streamplayer.Player.Recovery.{IsIdle, recovery_stops}
use streamplayer.Player.Take.{fail_current}
use streamplayer.Player.Play.{Pipeline}
use streamplayer.Player.ErrorMessage.{
  is_worth_a_retry, try_selected, retry_for, current_failed, reason_for, handle_error_message,
}
use streamplayer.Player.ErrorMessage.Retrying.{CurrentFails, error_handled, refreshed}

-- No other URL is tried, or there is none; by how the stream is then.
unfoldable pub GivesUp : Reason → ℕ → Item → Item → Type 0
GivesUp reason now i j =
    ((is_worth_a_retry reason ≡ false) × (j ≡ i))
    ⊎ ((is_worth_a_retry reason ≡ true) × (select_next_url now i ≡ some (j, false)))

not_retried :
    (g : Pipeline) (now : ℕ) (reason : Reason) (p : Player) (i j : Item)
    → p.current_stream ≡ some i
    → GivesUp reason now i j
    → retry_for g false now reason p ≡ (record p { current_stream = some j }, false)
unfolding retry_for try_selected GivesUp
not_retried g now reason p i j here (inl (worth, same)) =
    simp (worth, same) (ap (λ o. (record p { current_stream = o }, false)) here)
not_retried g now reason p i j here (inr (worth, next)) =
    simp (worth, refreshed g false now p i here, next) refl

fails_now :
    (reason : Reason) (p : Player) (j : Item)
    → (fail j).1 ≡ true
    → fail_current (record (details_on_stop false) { reason = reason }) (some j) p
      ≡ do_error_recovery reason (record p { current_stream = some (fail j).0 })
unfolding fail_current recover_from_error_now_or_later details_on_stop
fails_now reason p j first = simp first refl

current_given_up :
    (g : Pipeline) (now : ℕ) (reason : Reason) (p : Player) (i j : Item)
    → p.current_stream ≡ some i
    → GivesUp reason now i j
    → (fail j).1 ≡ true
    → current_failed g now reason p
      ≡ do_error_recovery reason (record p { current_stream = some (fail j).0 })
unfolding current_failed
current_given_up g now reason p i j here up first =
    simp (not_retried g now reason p i j here up)
      (fails_now reason (record p { current_stream = some j }) j first)

-- An error for the stream that is handled, if it has no other URL or another one is not worth a try,
-- and the stream has not been reported as failed before: the error is reported once, for this stream,
-- with all IDs that had been dropped and with the reason that the error is mapped to; the player is
-- idle, with its queue as it was; and a stop that is reported now changes nothing.
pub current_is_given_up :
    (g : Pipeline) (error : GError) (now : ℕ) (p : Player) (i j : Item)
    → CurrentFails g p i
    → GivesUp (reason_for error i) now i j
    → (fail j).1 ≡ true
    → let q = handle_error_message g (from_pipeline p.pipeline) error now p in
      IsIdle q
      × (q.queue.queue ≡ p.queue.queue)
      × (q.signals
          ≡ stopped_with_error
              (reason_for error i)
              (mk_id_array_from_dropped_items p.queue).1
              (is_empty p.queue)
              (some (fail j).0)
            ∷ p.signals)
      × (emit_stopped q ≡ q)
current_is_given_up g error now p i j f up first =
    let old = record p { initial_seek_position_ns = none } in
    let (idle, new_pipeline, queue, signals, nothing_left) =
      recovery_stops (reason_for error i) (record old { current_stream = some (fail j).0 }) in
    simp
      (error_handled g error now p i f
        ∙ current_given_up g now (reason_for error i) old i j f.is_handled up first)
      (idle, queue, signals, nothing_left)
