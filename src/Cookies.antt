-- ===== src/Cookies.antt =====
-- The data cookies that wait for the list broker, src/cookie_manager.hh and
-- src/cookie_manager_impl.cc (classes PendingCookies and CookieManager, and the handlers of the
-- signals DataAvailable and DataError).
-- The maps are association lists. A ListError is the default one, `none`, or one that is made of a
-- raw error code. A function that is stored under a cookie is called with the lock released: it may
-- use the manager, so a call takes the pending cookies and the state of the world to new ones; an
-- exception that it throws is logged. Asserts, and what is only logged, change nothing.
pub mod Once
mod Tests
use streamplayer.Base.{ℕ, Bool, true, false, Option, none, some, List, [], ◌∷◌, ◌==◌, if◌then◌else◌}

module _ {ℓ} {F : Type ℓ} where
  unfoldable pub find : ℕ → List (ℕ × F) → Option F
  find cookie [] = none
  find cookie ((n, f) ∷ m) = let rest = find cookie m in if cookie == n then some f else rest

  -- There is one entry for a cookie.
  unfoldable pub erase : ℕ → List (ℕ × F) → List (ℕ × F)
  erase cookie [] = []
  erase cookie ((n, f) ∷ m) = let rest = erase cookie m in if cookie == n then m else (n, f) ∷ rest

  unfoldable pub emplace : ℕ → F → List (ℕ × F) → List (ℕ × F) × Bool
  emplace cookie f m = elim (find cookie m) [ none ↦ ((cookie, f) ∷ m, true) | some _ ↦ (m, false) ]

pub record PendingCookies {ℓ} (F : Type ℓ) : Type ℓ where
  pub notification_functions : List (ℕ × F)
  pub fetch_functions : List (ℕ × F)

module _ {ℓ} {F : Type ℓ} where
  unfoldable pub new : PendingCookies F
  new = record { notification_functions = []; fetch_functions = [] }

  unfoldable pub add : ℕ → F → F → PendingCookies F → PendingCookies F × Bool
  add cookie notify_fn fetch_fn p =
      let (fetch_functions, added) = emplace cookie fetch_fn p.fetch_functions in
      (
        record {
          notification_functions = (emplace cookie notify_fn p.notification_functions).0;
          fetch_functions = fetch_functions;
        },
        added,
      )

  -- Up to the call: the function to be called, if there is one.
  unfoldable pub available : ℕ → PendingCookies F → PendingCookies F × Option F
  available cookie p = (
    record p { notification_functions = erase cookie p.notification_functions },
    find cookie p.notification_functions,
  )

  unfoldable pub finish : ℕ → PendingCookies F → PendingCookies F × Option F
  finish cookie p =
      (record p { fetch_functions = erase cookie p.fetch_functions }, find cookie p.fetch_functions)

  -- A function that is a null pointer is `none`.
  unfoldable pub set_pending_cookie :
      ℕ → Option F → Option F → PendingCookies F → PendingCookies F × Bool
  set_pending_cookie cookie none fetch p = (p, false)
  set_pending_cookie cookie (some notify_fn) none p = (p, false)
  set_pending_cookie cookie (some notify_fn) (some fetch_fn) p =
      if cookie == 0 then (p, false) else add cookie notify_fn fetch_fn p

-- By the call of AirableDataAbort, which may throw, `none`.
unfoldable pub abort_cookie : (ℕ → Option Bool) → ℕ → Option Bool
abort_cookie call_sync cookie = if cookie == 0 then some false else call_sync cookie

module _ {ℓ κ} {F : Type ℓ} {W : Type κ}
    (call : F → ℕ → Option ℕ → PendingCookies F × W → PendingCookies F × W) where
  unfoldable pub called : ℕ → Option ℕ → Option F → PendingCookies F × W → PendingCookies F × W
  called cookie error none s = s
  called cookie error (some f) s = call f cookie error s

  unfoldable pub notify_available : ℕ → Option ℕ → PendingCookies F × W → PendingCookies F × W
  notify_available cookie error (p, w) =
      let (q, f) = available cookie p in called cookie error f (q, w)

  unfoldable pub fetch_finished : ℕ → Option ℕ → PendingCookies F × W → PendingCookies F × W
  fetch_finished cookie error (p, w) = let (q, f) = finish cookie p in called cookie error f (q, w)

  unfoldable pub data_available : List ℕ → PendingCookies F × W → PendingCookies F × W
  data_available [] s = s
  data_available (cookie ∷ cookies) s =
      data_available cookies (fetch_finished cookie none (notify_available cookie none s))

  unfoldable pub data_error : List (ℕ × ℕ) → PendingCookies F × W → PendingCookies F × W
  data_error [] s = s
  data_error ((cookie, raw_error_code) ∷ errors) s = data_error errors (
      fetch_finished cookie (some raw_error_code) (notify_available cookie (some raw_error_code) s))
