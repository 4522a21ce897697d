-- ===== src/Rnf/Watch.antt =====
-- CallBase::set_state(), and what the status watcher is told.
use Prim.Native.String.{String}
use streamplayer.Base.{
  ℕ, suc, zero, ◌≡◌, ◌≢◌, refl, sym, ◌∙◌, subst, ◌⊎◌, inl, inr, Bool, true, false, Option, none,
  some, List, [], ◌∷◌, arith, ◌==◌, Bool-cases, All, ◌||◌,
}
use streamplayer.Rnf.{
  CallState, initialized, wait_for_notification, ready_to_fetch, result_fetched, aborting,
  aborted_by_peer, failed, about_to_destroy, code, Fetched, value, exception, Call, Request, Fetch,
  new, set_state, destroy, clear_cookie, set_promise, set_value, fails_with, fast_path_returned,
  manage_cookie, request_returned, request_made, request, fetch_returned, fetch_in, fetch_unlocked,
  notified, notification, result_available_notification, aborted_notification, abort_pending,
  abort_done, abort_in, abort_begin, abort_end, get_future, get_done, get_in, get_result_unlocked,
}
use streamplayer.Rnf.Steps.{
  Event, requests, fetches, is_available, is_aborted, aborts, abort_returns, reads, destroys, Run,
  start, requested, fetched, returned, step, run, Keeps, Honours,
}

pub code_injective : (s t : CallState) → (code s == code t) ≡ true → s ≡ t
unfolding code
code_injective s t e = ground arith

pub code_same : (s t : CallState) → s ≡ t → (code s == code t) ≡ true
unfolding code
code_same s t e = ground arith

-- The latest report is of the state, and no two in a row are of the same state.
pub Told : CallState → List (CallState × Bool) → Type 0
Told s [] = ⊥
Told s ((t, _) ∷ []) = s ≡ t
Told s ((t, _) ∷ (u, b) ∷ rest) = (s ≡ t) × (t ≢ u) × Told u ((u, b) ∷ rest)

true_not_false : true ≡ false → ⊥
true_not_false e = cc

more-Told :
    (s t : CallState) (b : Bool) (reports : List (CallState × Bool))
    → s ≢ t
    → Told s reports
    → Told t ((t, b) ∷ reports)
unfolding Told
more-Told s t b [] n h = elim h [ ]
more-Told s t b ((u, c) ∷ []) n h = (refl, λ e. n (h ∙ sym e), refl)
more-Told s t b ((u, c) ∷ (v, d) ∷ rest) n (h, m, k) = (refl, λ e. n (h ∙ sym e), (refl, m, k))

module _ {R : Type 0} where
  abbrev pub IsTold : Call R → Type 0
  IsTold c = Told c.state c.reports

  set_state-IsTold : (s : CallState) (c : Call R) → IsTold c → IsTold (set_state s c)
  unfolding set_state
  set_state-IsTold s c h = elim (Bool-cases (code c.state == code s)) [
    | inl same ↦ rw same h
    | inr other ↦ rw other (
        more-Told c.state s c.detached c.reports
          (λ e. true_not_false (sym (code_same c.state s e) ∙ other)) h)
  ]

  fails_with-IsTold : (error : String) (c : Call R) → IsTold c → IsTold (fails_with error c)
  unfolding fails_with set_promise
  fails_with-IsTold error c h = set_state-IsTold failed (set_promise (exception error) c) h

  set_value-IsTold : (o : Option R) (c : Call R) → IsTold c → IsTold (set_value o c)
  unfolding set_value set_promise
  set_value-IsTold none c h = h
  set_value-IsTold (some r) c h = h

  manage_cookie-IsTold : (o : Option String) (c : Call R) → IsTold c → IsTold (manage_cookie o c)
  unfolding manage_cookie
  manage_cookie-IsTold none c h = set_state-IsTold wait_for_notification c h
  manage_cookie-IsTold (some error) c h = fails_with-IsTold error c h

  get_future-IsTold : (o : Option (Fetched R)) (c : Call R) → IsTold c → IsTold (get_future o c).0
  unfolding get_future
  get_future-IsTold none c h = h
  get_future-IsTold (some (value r)) c h = h
  get_future-IsTold (some (exception error)) c h =
      set_state-IsTold failed (record c { future_is_valid = false }) h

  get_done-IsTold : (c : Call R) → IsTold c → IsTold (get_done c).0
  unfolding get_done
  get_done-IsTold c h = elim (Bool-cases c.was_aborted_after_done) [
    | inl late ↦ simp late h
    | inr first ↦ elim (Bool-cases c.future_is_valid) [
      | inl valid ↦ simp (first, valid) (get_future-IsTold c.promise c h)
      | inr spent ↦ simp (first, spent) h
    ]
  ]

  get_in-IsTold : (s : CallState) (c : Call R) → IsTold c → IsTold (get_in s c).0
  unfolding get_in
  get_in-IsTold result_fetched c h = get_done-IsTold c h
  get_in-IsTold failed c h = get_done-IsTold c h
  get_in-IsTold _ c h = h

  get_result-IsTold : (c : Call R) → IsTold c → IsTold (get_result_unlocked c).0
  unfolding get_result_unlocked
  get_result-IsTold c h = get_in-IsTold c.state c h

  path_returned-IsTold : (p : Call R × Option String) → IsTold p.0 → IsTold (fast_path_returned p)
  unfolding fast_path_returned
  path_returned-IsTold (c, none) h = h
  path_returned-IsTold (c, some error) h = fails_with-IsTold error c h

  fast_path-IsTold :
      (f : Call R → Call R × Option String) (c : Call R)
      → Keeps f
      → IsTold c
      → IsTold (fast_path_returned (f c))
  fast_path-IsTold f c k h =
      let used : IsTold (f c).0 = elim (k c) [
        | inl same ↦ subst IsTold (sym same) h
        | inr read ↦ subst IsTold (sym read) (get_result-IsTold c h)
      ] in
      path_returned-IsTold (f c) used

  returned-IsTold :
      (q : Request R) (cookie : ℕ) (c : Call R)
      → Keeps q.fast_path
      → IsTold c
      → IsTold (request_returned q cookie c)
  unfolding request_returned
  returned-IsTold q cookie c k h = elim (Bool-cases (cookie == 0)) [
    | inl fast ↦ rw fast (
        fast_path-IsTold q.fast_path (set_state result_fetched c) k
          (set_state-IsTold result_fetched c h))
    | inr slow ↦
        rw slow
          (manage_cookie-IsTold q.manage_error (record c { cookie = cookie; detached = true }) h)
  ]

  made-IsTold :
      (q : Request R) (o : ℕ ⊎ String) (c : Call R)
      → Keeps q.fast_path
      → IsTold c
      → IsTold (request_made q o c)
  unfolding request_made
  made-IsTold q (inl cookie) c k h = returned-IsTold q cookie c k h
  made-IsTold q (inr error) c k h = fails_with-IsTold error c h

  requested-IsTold :
      (q : Request R) (c : Call R) → Keeps q.fast_path → IsTold c → IsTold (requested q c)
  unfolding requested request
  requested-IsTold q c k h = elim (Bool-cases (code c.state == code initialized)) [
    | inl first ↦
        rw (first, requested)
          (made-IsTold q q.returned (set_value q.set_to c) k (set_value-IsTold q.set_to c h))
    | inr late ↦ rw (late, requested) h
  ]

  fetch_returned-IsTold :
      (f : Fetch R) (o : Option String) (c : Call R) → IsTold c → IsTold (fetch_returned f o c).0
  unfolding fetch_returned clear_cookie set_promise
  fetch_returned-IsTold f none c h = set_state-IsTold result_fetched (clear_cookie c) h
  fetch_returned-IsTold f (some error) c h =
      set_state-IsTold failed (clear_cookie (set_promise (exception error) c)) h

  fetch_in-IsTold :
      (s : CallState) (f : ℕ → Fetch R) (c : Call R)
      → IsTold c
      → IsTold (elim (fetch_in s f c) [ none ↦ c | some (d, _) ↦ d ])
  unfolding fetch_in
  fetch_in-IsTold ready_to_fetch f c h =
      fetch_returned-IsTold (f c.cookie) _ _ (set_value-IsTold (f c.cookie).set_to c h)
  fetch_in-IsTold _ f c h = h

  notified-IsTold : (s t : CallState) (c : Call R) → IsTold c → IsTold (notified s t c).0
  unfolding notified
  notified-IsTold wait_for_notification t c h = set_state-IsTold t c h
  notified-IsTold aborting t c h = set_state-IsTold t c h
  notified-IsTold _ t c h = h

  notification-IsTold :
      (cookie : ℕ) (t : CallState) (c : Call R) → IsTold c → IsTold (notification cookie t c).0
  unfolding notification
  notification-IsTold cookie t c h = elim (Bool-cases (cookie == 0)) [
    | inl invalid ↦ rw invalid h
    | inr valid ↦ elim (Bool-cases (cookie == c.cookie || cookie == c.cleared_cookie)) [
      | inl known ↦ rw (valid, known) (notified-IsTold c.state t c h)
      | inr wrong ↦ rw (valid, wrong) h
    ]
  ]

  pending-IsTold : (c : Call R) → IsTold c → IsTold (abort_pending c).0
  unfolding abort_pending clear_cookie
  pending-IsTold c h = elim (Bool-cases (c.cookie == 0)) [
    | inl free ↦ rw free (set_state-IsTold aborted_by_peer (clear_cookie c) h)
    | inr used ↦ rw used h
  ]

  abort_done-IsTold : (b : Bool) (c : Call R) → IsTold c → IsTold (abort_done b c).0
  unfolding abort_done
  abort_done-IsTold b c h = elim (Bool-cases c.was_aborted_after_done) [
    | inl again ↦ rw again h
    | inr first ↦ rw first h
  ]

  abort_in-IsTold : (s : CallState) (b : Bool) (c : Call R) → IsTold c → IsTold (abort_in s b c).0
  unfolding abort_in
  abort_in-IsTold initialized b c h = pending-IsTold c h
  abort_in-IsTold wait_for_notification b c h = pending-IsTold c h
  abort_in-IsTold ready_to_fetch b c h = pending-IsTold c h
  abort_in-IsTold result_fetched b c h = abort_done-IsTold b c h
  abort_in-IsTold failed b c h = abort_done-IsTold b c h
  abort_in-IsTold _ b c h = h

  abort_end-IsTold : (o : Option Bool) (c : Call R) → IsTold c → IsTold (abort_end o c).0
  unfolding abort_end
  abort_end-IsTold none c h = h
  abort_end-IsTold (some false) c h = h
  abort_end-IsTold (some true) c h = set_state-IsTold aborting c h

  abort_returned-IsTold :
      (o : Option Bool) (n : ℕ) (r : Run R) → IsTold r.call → IsTold (returned o n r).call
  unfolding returned
  abort_returned-IsTold o zero r h = h
  abort_returned-IsTold o (suc n) r h = abort_end-IsTold o r.call h

  step-IsTold : (e : Event R) (r : Run R) → Honours e → IsTold r.call → IsTold (step e r).call
  unfolding step fetched fetch_unlocked result_available_notification aborted_notification
      abort_begin destroy
  step-IsTold (requests q) r (k, _) h = requested-IsTold q r.call k h
  step-IsTold (fetches f) r _ h = fetch_in-IsTold r.call.state f r.call h
  step-IsTold (is_available cookie) r _ h = notification-IsTold cookie ready_to_fetch r.call h
  step-IsTold (is_aborted cookie) r _ h = notification-IsTold cookie aborted_by_peer r.call h
  step-IsTold (aborts b) r _ h = abort_in-IsTold r.call.state b r.call h
  step-IsTold (abort_returns o) r _ h = abort_returned-IsTold o r.pending r h
  step-IsTold reads r _ h = get_result-IsTold r.call h
  step-IsTold destroys r _ h = set_state-IsTold about_to_destroy r.call h

  run-IsTold :
      (es : List (Event R)) (r : Run R) → All Honours es → IsTold r.call → IsTold (run es r).call
  unfolding run
  run-IsTold [] r k h = h
  run-IsTold (e ∷ es) r (k, ks) h = run-IsTold es (step e r) ks (step-IsTold e r k h)

-- The status watcher is told of every change of the state and of nothing else: after any sequence
-- of operations, by functions that do what they are to do, its latest report is of the state the
-- call is in, and no two reports in a row are of the same state.
pub watcher_hears : {R : Type 0} (es : List (Event R)) → All Honours es → IsTold (run es start).call
unfolding start new Told
watcher_hears es k = run-IsTold es start k refl
