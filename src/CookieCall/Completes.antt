-- ===== src/CookieCall/Completes.antt =====
-- Managed calls from the request to the client's notification.
use Prim.Native.String.{String}
use streamplayer.Base.{
  ℕ, ◌≡◌, refl, ◌∙◌, ap, Bool, true, false, inl, Option, none, some, [], ◌∷◌, ◌==◌, eq→==,
}
use streamplayer.Rnf.{
  CallState, initialized, wait_for_notification, ready_to_fetch, result_fetched, aborted_by_peer,
  failed, code, Fetched, value, exception, Call, Fetch, result, thrown, aborted_error, new,
  set_state, clear_cookie, set_promise, set_value, manage_cookie, request_returned, request_made,
  request, fetch_returned, fetch_in, fetch_unlocked, notified, notification,
  result_available_notification, aborted_notification, get_future, get_done, get_in,
  get_result_unlocked,
}
use streamplayer.Cookies.{
  PendingCookies, find, set_pending_cookie, add, available, finish, called, notify_available,
  fetch_finished, data_available, data_error,
}
use streamplayer.Cookies.Once.{emplace_new, find_same, erased_first}
use streamplayer.CookieCall.{
  Function, notifies, fetches, World, invoke, fetch_and_notify_unlocked, registered, cookie_request,
}

-- Cookies that the manager does not know.
abbrev pub IsFree : ℕ → PendingCookies Function → Type 0
IsFree k p = (find k p.notification_functions ≡ none) × (find k p.fetch_functions ≡ none)

abbrev knows : ℕ → PendingCookies Function → PendingCookies Function
knows k p = record {
  notification_functions = (k, notifies) ∷ p.notification_functions;
  fetch_functions = (k, fetches) ∷ p.fetch_functions;
}

module _ {R : Type 0} where
  abbrev pub fresh : World R
  fresh = record { call = new; list_error = none; notifications = [] }

  -- The call that waits, and the manager that knows its cookie.
  abbrev waits : ℕ → Call R
  waits k = record {
    state = wait_for_notification;
    was_aborted_after_done = false;
    detached = true;
    cookie = k;
    cleared_cookie = 0;
    promise = none;
    future_is_valid = true;
    reports = (wait_for_notification, true) ∷ (initialized, false) ∷ [];
  }

  requested :
      (k : ℕ) (p : PendingCookies Function)
      → (k == 0) ≡ false
      → IsFree k p
      → cookie_request (inl k) none (p, fresh)
        ≡ some (knows k p, record fresh { call = waits k }, wait_for_notification)
  unfolding cookie_request registered set_pending_cookie add request request_made request_returned
      manage_cookie set_value set_state code new
  requested k p h (free, free_fetch) =
      rw
        (
          h,
          emplace_new k notifies p.notification_functions free,
          emplace_new k fetches p.fetch_functions free_fetch,
        )
        refl

  -- The two steps of either signal, for a cookie that is known.
  signalled :
      (do_fetch : ℕ → Fetch R) (failure : Option ℕ → Bool) (k : ℕ) (error : Option ℕ)
      (p : PendingCookies Function) (w : World R)
      → fetch_finished
          (invoke do_fetch failure)
          k
          error
          (notify_available (invoke do_fetch failure) k error (knows k p, w))
        ≡ (
          p,
          fetch_and_notify_unlocked do_fetch failure
              (invoke do_fetch failure notifies k error (p, w)).1,
        )
  unfolding fetch_finished notify_available called available finish invoke
  signalled do_fetch failure k error p w =
      let same = eq→== k k refl in
      simp
        (
          find_same k k notifies p.notification_functions same,
          find_same k k fetches p.fetch_functions same,
          erased_first k notifies p.notification_functions,
          erased_first k fetches p.fetch_functions,
        )
        refl

  abbrev done : CallState → Option (Fetched R) → ℕ → Call R
  done s promise k = record {
    state = s;
    was_aborted_after_done = false;
    detached = true;
    cookie = 0;
    cleared_cookie = k;
    promise = promise;
    future_is_valid = true;
    reports =
        (s, true)
        ∷ (ready_to_fetch, true)
        ∷ (wait_for_notification, true)
        ∷ (initialized, false)
        ∷ [];
  }

  ready :
      (k : ℕ)
      → (k == 0) ≡ false
      → result_available_notification k (waits k) ≡ (set_state ready_to_fetch (waits k), false)
  unfolding result_available_notification notification notified
  ready k h = rw (h, eq→== k k refl) refl

  gone :
      (k : ℕ)
      → (k == 0) ≡ false
      → aborted_notification k (waits k) ≡ (set_state aborted_by_peer (waits k), false)
  unfolding aborted_notification notification notified
  gone k h = rw (h, eq→== k k refl) refl

  fetches_ready :
      (do_fetch : ℕ → Fetch R) (f : Fetch R) (failure : Option ℕ → Bool) (k : ℕ)
      (p : PendingCookies Function)
      → (k == 0) ≡ false
      → failure none ≡ false
      → do_fetch k ≡ f
      → let c =
          (fetch_returned f f.thrown (set_value f.set_to (set_state ready_to_fetch (waits k)))).0 in
        fetch_and_notify_unlocked do_fetch failure
          (invoke do_fetch failure notifies k none (p, record fresh { call = waits k })).1
        ≡ record { call = c; list_error = none; notifications = c.state ∷ [] }
  unfolding fetch_and_notify_unlocked invoke fetch_unlocked fetch_in set_state code
  fetches_ready do_fetch f failure k p h n e = simp (n, ready k h, e) refl

  -- A request that is answered by a cookie, one that the manager does not know, ends with the signal
  -- that its data are available: the client is notified once, the manager has forgotten the cookie,
  -- and the result that has been fetched under the cookie can be read.
  pub completes :
      (do_fetch : ℕ → Fetch R) (failure : Option ℕ → Bool) (k : ℕ) (p : PendingCookies Function)
      (r : R)
      → (k == 0) ≡ false
      → IsFree k p
      → failure none ≡ false
      → do_fetch k ≡ record { thrown = none; set_to = some r }
      → (q : PendingCookies Function) × (w : World R) × (v : World R) × (cookie_request
            (inl k)
            none
            (p, fresh)
          ≡ some (q, w, wait_for_notification))
        × (data_available (invoke do_fetch failure) (k ∷ []) (q, w) ≡ (p, v))
        × (v.notifications ≡ result_fetched ∷ [])
        × ((get_result_unlocked v.call).1 ≡ result r)
  unfolding data_available get_result_unlocked get_in get_done get_future fetch_returned set_value
      set_promise set_state clear_cookie code
  completes do_fetch failure k p r h free n e = (
    knows k p,
    record fresh { call = waits k },
    record {
      call = done result_fetched (some (value r)) k;
      list_error = none;
      notifications = result_fetched ∷ [];
    },
    requested k p h free,
    signalled do_fetch failure k none p (record fresh { call = waits k })
        ∙ ap (λ v. (p, v)) (fetches_ready do_fetch _ failure k p h n e),
    refl,
    refl,
  )

  -- If fetching throws the client is notified of a failure, and who reads the result gets the
  -- exception.
  completes_by_failure :
      (do_fetch : ℕ → Fetch R) (failure : Option ℕ → Bool) (k : ℕ) (p : PendingCookies Function)
      (error : String)
      → (k == 0) ≡ false
      → IsFree k p
      → failure none ≡ false
      → do_fetch k ≡ record { thrown = some error; set_to = none }
      → (q : PendingCookies Function) × (w : World R) × (v : World R) × (cookie_request
            (inl k)
            none
            (p, fresh)
          ≡ some (q, w, wait_for_notification))
        × (data_available (invoke do_fetch failure) (k ∷ []) (q, w) ≡ (p, v))
        × (v.notifications ≡ failed ∷ [])
        × ((get_result_unlocked v.call).1 ≡ thrown error)
  unfolding data_available get_result_unlocked get_in get_done get_future fetch_returned set_value
      set_promise set_state clear_cookie code
  completes_by_failure do_fetch failure k p error h free n e = (
    knows k p,
    record fresh { call = waits k },
    record {
      call = done failed (some (exception error)) k;
      list_error = none;
      notifications = failed ∷ [];
    },
    requested k p h free,
    signalled do_fetch failure k none p (record fresh { call = waits k })
        ∙ ap (λ v. (p, v)) (fetches_ready do_fetch _ failure k p h n e),
    refl,
    refl,
  )

  -- The signal of an error that is a failure aborts the call: nothing is fetched, the client is
  -- notified once and finds the list error, and there is no result.
  error_aborts :
      (do_fetch : ℕ → Fetch R) (failure : Option ℕ → Bool) (k raw : ℕ) (p : PendingCookies Function)
      → (k == 0) ≡ false
      → IsFree k p
      → failure (some raw) ≡ true
      → (q : PendingCookies Function) × (w : World R) × (v : World R) × (cookie_request
            (inl k)
            none
            (p, fresh)
          ≡ some (q, w, wait_for_notification))
        × (data_error (invoke do_fetch failure) ((k, raw) ∷ []) (q, w) ≡ (p, v))
        × (v.notifications ≡ aborted_by_peer ∷ [])
        × (v.list_error ≡ some raw)
        × (get_result_unlocked v.call ≡ (v.call, aborted_error))
  unfolding data_error get_result_unlocked get_in fetch_and_notify_unlocked invoke fetch_unlocked
      fetch_in set_state code
  error_aborts do_fetch failure k raw p h free n =
      let c = set_state aborted_by_peer (waits k) in
      (
        knows k p,
        record fresh { call = waits k },
        record { call = c; list_error = some raw; notifications = aborted_by_peer ∷ [] },
        requested k p h free,
        signalled do_fetch failure k (some raw) p (record fresh { call = waits k })
            ∙ simp (n, gone k h) refl,
        refl,
        refl,
        refl,
      )

  -- A request that is answered by a cookie, one that the manager does not know, may fail in two ways.
  -- If its data are available and fetching throws, the client is notified of a failure, and who reads
  -- the result gets the exception. If an error that is a failure is signalled for it, nothing is
  -- fetched, the client is notified of the abort and finds the list error, and there is no result. In
  -- both the client is notified once, and the manager has forgotten the cookie.
  pub failures_are_told :
      (do_fetch : ℕ → Fetch R) (failure : Option ℕ → Bool) (k raw : ℕ) (p : PendingCookies Function)
      (error : String)
      → (k == 0) ≡ false
      → IsFree k p
      → failure none ≡ false
      → failure (some raw) ≡ true
      → do_fetch k ≡ record { thrown = some error; set_to = none }
      → ((q : PendingCookies Function) × (w : World R) × (v : World R) × (cookie_request
              (inl k)
              none
              (p, fresh)
            ≡ some (q, w, wait_for_notification))
          × (data_available (invoke do_fetch failure) (k ∷ []) (q, w) ≡ (p, v))
          × (v.notifications ≡ failed ∷ [])
          × ((get_result_unlocked v.call).1 ≡ thrown error))
        × ((q : PendingCookies Function) × (w : World R) × (v : World R) × (cookie_request
                (inl k)
                none
                (p, fresh)
              ≡ some (q, w, wait_for_notification))
            × (data_error (invoke do_fetch failure) ((k, raw) ∷ []) (q, w) ≡ (p, v))
            × (v.notifications ≡ aborted_by_peer ∷ [])
            × (v.list_error ≡ some raw)
            × (get_result_unlocked v.call ≡ (v.call, aborted_error)))
  failures_are_told do_fetch failure k raw p error h free n f e = (
    completes_by_failure do_fetch failure k p error h free n e,
    error_aborts do_fetch failure k raw p h free f,
  )
