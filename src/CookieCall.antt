-- ===== src/CookieCall.antt =====
-- A call whose cookie is managed, src/rnfcall_cookiecall.hh (class CookieCall).
-- The two functions that are stored under the cookie are the constructors of `Function`. The client's
-- ContextData::notify() is the list of the states it has been called with, the latest first. What
-- do_fetch() does by the cookie, and which list errors are failures, are parameters.
pub mod Completes
mod Tests
use Prim.Native.String.{String}
use streamplayer.Base.{
  ℕ, Bool, true, false, ◌⊎◌, inl, inr, Option, none, some, List, [], ◌∷◌, ◌==◌, if◌then◌else◌,
}
use streamplayer.Rnf.{
  CallState, result_fetched, Call, Request, Fetch, request, fetch_unlocked,
  result_available_notification, aborted_notification,
}
use streamplayer.Cookies.{PendingCookies, set_pending_cookie}

pub data Function : Type 0 where
  notifies fetches : Function

pub record World {ℓ} (R : Type ℓ) : Type ℓ where
  pub call : Call R
  pub list_error : Option ℕ
  pub notifications : List CallState

module _ {ℓ} {R : Type ℓ} (do_fetch : ℕ → Fetch R) (failed : Option ℕ → Bool) where
  -- If fetch_unlocked() throws there is no notification.
  unfoldable pub fetch_and_notify_unlocked : World R → World R
  fetch_and_notify_unlocked w = elim (fetch_unlocked do_fetch w.call) [
    | none ↦ w
    | some (c, _) ↦ record w { call = c; notifications = c.state ∷ w.notifications }
  ]

  -- A call of one of the two functions, with a cookie and a list error.
  unfoldable pub invoke :
      Function
      → ℕ
      → Option ℕ
      → PendingCookies Function × World R
      → PendingCookies Function × World R
  invoke notifies cookie error (p, w) = (
    p,
    record w {
      list_error = error;
      call =
          if failed error
          then (aborted_notification cookie w.call).0
          else (result_available_notification cookie w.call).0;
    },
  )
  invoke fetches cookie error (p, w) = (p, fetch_and_notify_unlocked w)

module _ {ℓ} {R : Type ℓ} where
  unfoldable pub registered :
      ℕ ⊎ String → PendingCookies Function × World R → PendingCookies Function × World R
  registered (inl cookie) (p, w) =
      if cookie == 0
      then (p, record w { notifications = result_fetched ∷ w.notifications })
      else ((set_pending_cookie cookie (some notifies) (some fetches) p).0, w)
  registered (inr error) (p, w) = (p, w)

  -- request(), where do_request() returns or throws, and may set the promise. A fast path answer is
  -- notified to the client at once; a cookie is handed to the manager.
  unfoldable pub cookie_request :
      ℕ ⊎ String
      → Option R
      → PendingCookies Function × World R
      → Option (PendingCookies Function × World R × CallState)
  cookie_request returned set_to (p, w) =
      let r : Request R = record {
        returned = returned;
        set_to = set_to;
        manage_error = none;
        fast_path = λ c. (c, none);
      } in
      elim (request r w.call) [
        | none ↦ none
        | some (c, s) ↦
            let (q, v) = registered returned (p, record w { call = c }) in some (q, v, s)
      ]
