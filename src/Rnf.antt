-- ===== src/Rnf.antt =====
-- A call by request, notification and fetch, src/rnfcall_state.hh, src/rnfcall.hh, src/rnfcall.cc
-- (classes CallBase and Call).
-- Every function here is what runs while the lock of the call is held. abort_request_internal()
-- gives the lock back while the cookie is aborted, so it is `abort_begin` and `abort_end`, and
-- other functions may come between the two. A function that is passed to a call is what it does:
-- whether it sets the promise, and what it returns or throws. The promise is what it has been set
-- to; a second setting throws, which is logged. `reports` is what the status watcher has been
-- told, the latest first. An assertion that fails, and what is only logged, changes nothing.
pub mod Steps
pub mod Watch
pub mod Promise
pub mod Blocking
pub mod Abort
mod Tests
use Prim.Native.String.{String}
use streamplayer.Base.{
  ℕ, Bool, true, false, not, ◌||◌, ◌⊎◌, inl, inr, Option, none, some, List, [], ◌∷◌, ◌==◌,
  if◌then◌else◌,
}

pub data CallState : Type 0 where
  initialized wait_for_notification ready_to_fetch result_fetched : CallState
  aborting aborted_by_peer failed about_to_destroy : CallState

-- The value of the enumeration.
unfoldable pub code : CallState → ℕ
code initialized = 0
code wait_for_notification = 1
code ready_to_fetch = 2
code result_fetched = 3
code aborting = 4
code aborted_by_peer = 5
code failed = 6
code about_to_destroy = 7

unfoldable pub state_is_success : CallState → Bool
state_is_success result_fetched = true
state_is_success _ = false

unfoldable pub state_is_failure : CallState → Bool
state_is_failure aborted_by_peer = true
state_is_failure failed = true
state_is_failure _ = false

-- What a promise has been set to.
pub data Fetched {ℓ} (R : Type ℓ) : Type ℓ where
  value : R → Fetched R
  exception : String → Fetched R

pub record Call {ℓ} (R : Type ℓ) : Type ℓ where
  pub state : CallState
  pub was_aborted_after_done : Bool
  pub detached : Bool
  pub cookie : ℕ
  pub cleared_cookie : ℕ
  pub promise : Option (Fetched R)
  pub future_is_valid : Bool
  pub reports : List (CallState × Bool)

-- What the functions passed to `request` do: do_request() returns a cookie or throws, and it may
-- have set the promise; manage_cookie() may throw; fast_path() may use the call, and throw.
pub record Request {ℓ} (R : Type ℓ) : Type ℓ where
  pub returned : ℕ ⊎ String
  pub set_to : Option R
  pub manage_error : Option String
  pub fast_path : Call R → Call R × Option String

-- What do_fetch() does.
pub record Fetch {ℓ} (R : Type ℓ) : Type ℓ where
  pub thrown : Option String
  pub set_to : Option R

-- How the first part of an abort goes on: it returns, and may report a bug, or it aborts the cookie.
pub data AbortBegin : Type 0 where
  returns : Bool → Bool → AbortBegin
  aborts_cookie : ℕ → AbortBegin

-- How the result of a call is read. `blocks` is a future whose promise has not been set.
pub data Got {ℓ} (R : Type ℓ) : Type ℓ where
  result : R → Got R
  thrown : String → Got R
  bad_state_error aborted_error no_result_error blocks : Got R

unfoldable pub is_set {ℓ} : {A : Type ℓ} → Option A → Bool
is_set none = false
is_set (some _) = true

module _ {ℓ} {R : Type ℓ} where
  unfoldable pub new : Call R
  new = record {
    state = initialized;
    was_aborted_after_done = false;
    detached = false;
    cookie = 0;
    cleared_cookie = 0;
    promise = none;
    future_is_valid = true;
    reports = (initialized, false) ∷ [];
  }

  unfoldable pub set_state : CallState → Call R → Call R
  unfolding code
  set_state new_state c =
      if code c.state == code new_state
      then c
      else record c { state = new_state; reports = (new_state, c.detached) ∷ c.reports }

  -- The second part of the result is whether a bug is reported.
  unfoldable pub destroy : Call R → Call R × Bool
  destroy c = (
    set_state about_to_destroy c,
    code c.state == code wait_for_notification || code c.state == code ready_to_fetch,
  )

  unfoldable pub clear_cookie : Call R → Call R
  clear_cookie c = record c { cleared_cookie = c.cookie; cookie = 0 }

  -- The promise keeps what it has been set to first.
  unfoldable pub set_promise : Fetched R → Call R → Call R
  set_promise f c = record c { promise = elim c.promise [ none ↦ some f | some g ↦ some g ] }

  unfoldable pub set_value : Option R → Call R → Call R
  set_value none c = c
  set_value (some r) c = set_promise (value r) c

  -- The handlers of exceptions.
  unfoldable pub fails_with : String → Call R → Call R
  fails_with error c = set_state failed (set_promise (exception error) c)

  unfoldable pub fast_path_returned : Call R × Option String → Call R
  fast_path_returned (c, none) = c
  fast_path_returned (c, some error) = fails_with error c

  unfoldable pub manage_cookie : Option String → Call R → Call R
  manage_cookie none c = set_state wait_for_notification c
  manage_cookie (some error) c = fails_with error c

  unfoldable pub request_returned : Request R → ℕ → Call R → Call R
  request_returned r cookie c =
      if cookie == 0
      then fast_path_returned (r.fast_path (set_state result_fetched c))
      else manage_cookie r.manage_error (record c { cookie = cookie; detached = true })

  unfoldable pub request_made : Request R → ℕ ⊎ String → Call R → Call R
  request_made r (inl cookie) c = request_returned r cookie c
  request_made r (inr error) c = fails_with error c

  -- `none` is a BadStateError.
  unfoldable pub request : Request R → Call R → Option (Call R × CallState)
  request r c =
      let d = request_made r r.returned (set_value r.set_to c) in
      if code c.state == code initialized then some (d, d.state) else none

  unfoldable pub fetch_returned : Fetch R → Option String → Call R → Call R × Bool
  fetch_returned f none c = (set_state result_fetched (clear_cookie c), true)
  fetch_returned f (some error) c =
      (set_state failed (clear_cookie (set_promise (exception error) c)), false)

  -- By the state; `none` is a BadStateError.
  unfoldable pub fetch_in : CallState → (ℕ → Fetch R) → Call R → Option (Call R × Bool)
  fetch_in ready_to_fetch do_fetch c =
      let f = do_fetch c.cookie in some (fetch_returned f f.thrown (set_value f.set_to c))
  fetch_in result_fetched do_fetch c = some (c, true)
  fetch_in aborting do_fetch c = some (c, false)
  fetch_in aborted_by_peer do_fetch c = some (c, false)
  fetch_in failed do_fetch c = some (c, false)
  fetch_in initialized do_fetch c = none
  fetch_in wait_for_notification do_fetch c = none
  fetch_in about_to_destroy do_fetch c = none

  unfoldable pub fetch_unlocked : (ℕ → Fetch R) → Call R → Option (Call R × Bool)
  fetch_unlocked do_fetch c = fetch_in c.state do_fetch c

  unfoldable pub notified : CallState → CallState → Call R → Call R × Bool
  notified wait_for_notification new_state c = (set_state new_state c, false)
  notified aborting new_state c = (set_state new_state c, false)
  notified _ new_state c = (c, true)

  -- The second part of the result is whether a bug is reported.
  unfoldable pub notification : ℕ → CallState → Call R → Call R × Bool
  notification cookie new_state c =
      if cookie == 0
      then (c, true)
      else (if cookie == c.cookie || cookie == c.cleared_cookie
          then notified c.state new_state c
          else (c, true))

  unfoldable pub result_available_notification : ℕ → Call R → Call R × Bool
  result_available_notification cookie c = notification cookie ready_to_fetch c

  unfoldable pub aborted_notification : ℕ → Call R → Call R × Bool
  aborted_notification cookie c = notification cookie aborted_by_peer c

  unfoldable pub abort_pending : Call R → Call R × AbortBegin
  abort_pending c =
      let d = clear_cookie c in
      if d.cleared_cookie == 0
      then (set_state aborted_by_peer d, returns true false)
      else (d, aborts_cookie d.cleared_cookie)

  unfoldable pub abort_done : Bool → Call R → Call R × AbortBegin
  abort_done suppress_errors c =
      if c.was_aborted_after_done
      then (c, returns false (not suppress_errors))
      else (record c { was_aborted_after_done = true }, returns true false)

  unfoldable pub abort_in : CallState → Bool → Call R → Call R × AbortBegin
  abort_in initialized suppress_errors c = abort_pending c
  abort_in wait_for_notification suppress_errors c = abort_pending c
  abort_in ready_to_fetch suppress_errors c = abort_pending c
  abort_in result_fetched suppress_errors c = abort_done suppress_errors c
  abort_in failed suppress_errors c = abort_done suppress_errors c
  abort_in aborting suppress_errors c = (c, returns false (not suppress_errors))
  abort_in aborted_by_peer suppress_errors c = (c, returns false (not suppress_errors))
  abort_in about_to_destroy suppress_errors c = (c, returns true false)

  -- abort_request_internal(), up to where the lock is given back.
  unfoldable pub abort_begin : Bool → Call R → Call R × AbortBegin
  abort_begin suppress_errors c = abort_in c.state suppress_errors c

  -- And from there on: what abort_cookie_fn_() has returned, or `none` if it has thrown.
  unfoldable pub abort_end : Option Bool → Call R → Call R × Bool
  abort_end none c = (c, false)
  abort_end (some false) c = (c, false)
  abort_end (some true) c = (set_state aborting c, true)

  unfoldable pub abort_from : Option Bool → Call R × AbortBegin → Call R × Bool
  abort_from sent (c, returns b _) = (c, b)
  abort_from sent (c, aborts_cookie _) = abort_end sent c

  -- abort_request() with nothing between its two parts.
  unfoldable pub abort_request : Option Bool → Call R → Call R × Bool
  abort_request sent c = abort_from sent (abort_begin false c)

  unfoldable pub get_future : Option (Fetched R) → Call R → Call R × Got R
  get_future none c = (c, blocks)
  get_future (some (value r)) c = (record c { future_is_valid = false }, result r)
  get_future (some (exception error)) c =
      (set_state failed (record c { future_is_valid = false }), thrown error)

  unfoldable pub get_done : Call R → Call R × Got R
  get_done c =
      if c.was_aborted_after_done
      then (c, aborted_error)
      else (if c.future_is_valid then get_future c.promise c else (c, no_result_error))

  unfoldable pub get_in : CallState → Call R → Call R × Got R
  get_in result_fetched c = get_done c
  get_in failed c = get_done c
  get_in aborting c = (c, aborted_error)
  get_in aborted_by_peer c = (c, aborted_error)
  get_in initialized c = (c, bad_state_error)
  get_in wait_for_notification c = (c, bad_state_error)
  get_in ready_to_fetch c = (c, bad_state_error)
  get_in about_to_destroy c = (c, bad_state_error)

  unfoldable pub get_result_unlocked : Call R → Call R × Got R
  get_result_unlocked c = get_in c.state c
