-- ===== src/Rnf/Abort.antt =====
-- Aborting a call: what the caller, the peer and the readers of the result see.
use streamplayer.Base.{
  ℕ, ◌≡◌, ◌≢◌, refl, ◌∙◌, ap, ◌⊎◌, inl, inr, Bool, true, false, not, Option, none, some, ◌∷◌, ◌==◌,
  eq→==,
}
use streamplayer.Rnf.{
  CallState, wait_for_notification, ready_to_fetch, result_fetched, aborting, aborted_by_peer,
  failed, code, Call, Fetch, returns, aborts_cookie, aborted_error, set_state, clear_cookie,
  set_value, fetch_returned, fetch_in, fetch_unlocked, notified, notification,
  result_available_notification, aborted_notification, abort_pending, abort_done, abort_in,
  abort_begin, abort_end, abort_from, abort_request, get_done, get_in, get_result_unlocked,
}

abbrev pub IsDone : CallState → Type 0
IsDone s = (s ≡ result_fetched) ⊎ (s ≡ failed)

module _ {R : Type 0} where
  -- A call that waits, under a cookie.
  abbrev pub waiting : ℕ → Call R → Call R
  waiting k c = record c { state = wait_for_notification; cookie = k }

  -- The cookie is cleared, and the call is being aborted.
  abbrev pub aborted : ℕ → Call R → Call R
  aborted k c = record c {
    state = aborting;
    cookie = 0;
    cleared_cookie = k;
    reports = (aborting, c.detached) ∷ c.reports;
  }

  abort_waiting :
      (k : ℕ) (c : Call R)
      → (k == 0) ≡ false
      → abort_begin false (waiting k c) ≡ (
        record c { state = wait_for_notification; cookie = 0; cleared_cookie = k },
        aborts_cookie k,
      )
  unfolding abort_begin abort_in abort_pending clear_cookie
  abort_waiting k c h = rw h refl

  abort_sent :
      (k : ℕ) (c : Call R)
      → (k == 0) ≡ false
      → abort_request (some true) (waiting k c) ≡ (aborted k c, true)
  unfolding abort_request abort_from abort_end set_state code
  abort_sent k c h = rw (abort_waiting k c h) refl

  notified_aborted :
      (k : ℕ) (s : CallState) (c : Call R)
      → (k == 0) ≡ false
      → notification k s (aborted k c) ≡ (set_state s (aborted k c), false)
  unfolding notification notified
  notified_aborted k s c h = rw (h, eq→== k k refl) refl

  -- An abort that the peer is told of ends in the answer of the peer: the call is being aborted, the
  -- notification of the abort is accepted once, and nobody gets a result or an exception other than
  -- the one for an aborted call.
  pub abort_answered :
      (k : ℕ) (c : Call R) (f : ℕ → Fetch R)
      → (k == 0) ≡ false
      → let (d, ok) = abort_request (some true) (waiting k c) in
        let (e, bug) = aborted_notification k d in
        (ok ≡ true)
        × (d.state ≡ aborting)
        × ((get_result_unlocked d).1 ≡ aborted_error)
        × (bug ≡ false)
        × (e.state ≡ aborted_by_peer)
        × (get_result_unlocked e ≡ (e, aborted_error))
        × (fetch_unlocked f e ≡ some (e, false))
        × (aborted_notification k e ≡ (e, true))
  unfolding aborted_notification set_state code get_result_unlocked get_in fetch_unlocked fetch_in
      notification notified
  abort_answered k c f h =
      simp (abort_sent k c h, notified_aborted k aborted_by_peer c h)
        (refl, refl, refl, refl, refl, refl, refl, rw (h, eq→== k k refl) refl)

  -- A notification of the result that comes after the abort is accepted too: the call is ready to
  -- fetch again although its cookie has been cleared, so the result is then fetched under the
  -- invalid cookie 0.
  pub ready_after_abort :
      (k : ℕ) (c : Call R) (f : ℕ → Fetch R)
      → (k == 0) ≡ false
      → let (d, ok) = abort_request (some true) (waiting k c) in
        let (e, bug) = result_available_notification k d in
        (ok ≡ true)
        × (bug ≡ false)
        × (e.state ≡ ready_to_fetch)
        × (fetch_unlocked f e ≡ some (fetch_returned (f 0) (f 0).thrown (set_value (f 0).set_to e)))
  unfolding result_available_notification set_state code fetch_unlocked fetch_in
  ready_after_abort k c f h =
      simp (abort_sent k c h, notified_aborted k ready_to_fetch c h) (refl, refl, refl, refl)

  -- An abort that cannot be sent fails and leaves the call waiting, but its cookie is cleared: the
  -- next abort succeeds without asking the peer, and the call is then aborted.
  pub abort_retried :
      (k : ℕ) (sent : Option Bool) (c : Call R)
      → (k == 0) ≡ false
      → sent ≢ some true
      → let (d, ok) = abort_request sent (waiting k c) in
        let (e, begin) = abort_begin false d in
        (ok ≡ false)
        × (d.state ≡ wait_for_notification)
        × (begin ≡ returns true false)
        × (e.state ≡ aborted_by_peer)
  unfolding abort_request abort_from abort_end set_state code abort_begin abort_in abort_pending
      clear_cookie
  abort_retried k none c h n = rw h (refl, refl, refl, refl)
  abort_retried k (some false) c h n = rw h (refl, refl, refl, refl)
  abort_retried k (some true) c h n = elim (n refl) [ ]

  done_abort :
      (s : CallState) (b : Bool) (c : Call R)
      → IsDone s
      → c.state ≡ s
      → abort_begin b c ≡ abort_done b c
  unfolding abort_begin abort_in
  done_abort s b c (inl done) e = ap (λ t. abort_in t b c) (e ∙ done)
  done_abort s b c (inr done) e = ap (λ t. abort_in t b c) (e ∙ done)

  done_get :
      (s : CallState) (c : Call R) → IsDone s → c.state ≡ s → get_result_unlocked c ≡ get_done c
  unfolding get_result_unlocked get_in
  done_get s c (inl done) e = ap (λ t. get_in t c) (e ∙ done)
  done_get s c (inr done) e = ap (λ t. get_in t c) (e ∙ done)

  first_abort :
      (b : Bool) (c : Call R)
      → c.was_aborted_after_done ≡ false
      → abort_done b c ≡ (record c { was_aborted_after_done = true }, returns true false)
  unfolding abort_done
  first_abort b c first = simp first refl

  -- A call that is done stays as it is when it is aborted, but its result can no longer be read; a
  -- second abort fails, and reports a bug unless errors are suppressed.
  pub abort_finished :
      (s : CallState) (sent : Option Bool) (c : Call R)
      → IsDone s
      → c.state ≡ s
      → c.was_aborted_after_done ≡ false
      → let (d, ok) = abort_request sent c in
        (ok ≡ true)
        × (d ≡ record c { was_aborted_after_done = true })
        × (get_result_unlocked d ≡ (d, aborted_error))
        × ((suppress_errors : Bool)
            → abort_begin suppress_errors d ≡ (d, returns false (not suppress_errors)))
  unfolding abort_request abort_from get_done abort_done
  abort_finished s sent c done e first =
      let d = record c { was_aborted_after_done = true } in
      simp (done_abort s false c done e, first_abort false c first)
        (refl, refl, done_get s d done e, λ b. done_abort s b d done e)
