-- ===== src/Rnf/Steps.antt =====
-- Sequences of operations on a call, by any threads: each event is what one of them does while it
-- holds the lock.
use Prim.Native.String.{String}
use streamplayer.Base.{
  ◌≡◌, ◌⊎◌, inl, ◌==◌, ℕ, suc, zero, Bool, true, Option, none, some, List, [], ◌∷◌,
}
use streamplayer.Rnf.{
  Call, Request, Fetch, Got, AbortBegin, returns, aborts_cookie, new, destroy, request,
  fetch_unlocked, result_available_notification, aborted_notification, abort_begin, abort_end,
  is_set, get_result_unlocked,
}

pub data Event (R : Type 0) : Type 0 where
  requests : Request R → Event R
  fetches : (ℕ → Fetch R) → Event R
  is_available is_aborted : ℕ → Event R
  aborts : Bool → Event R
  abort_returns : Option Bool → Event R
  reads destroys : Event R

-- The call, how many aborts have not returned yet, and the answers to those who read the result,
-- the latest first.
pub record Run (R : Type 0) : Type 0 where
  pub call : Call R
  pub pending : ℕ
  pub answers : List (Got R)

unfoldable pub opened : AbortBegin → ℕ → ℕ
opened (returns _ _) pending = pending
opened (aborts_cookie _) pending = suc pending

-- What the functions that are passed to a call are to do: fast_path() leaves the call alone or reads
-- its result, do_request() sets the promise if and only if it returns no cookie, and do_fetch() sets
-- it unless it throws.
module _ {R : Type 0} where
  abbrev pub Keeps : (Call R → Call R × Option String) → Type 0
  Keeps fast_path =
      (c : Call R) → ((fast_path c).0 ≡ c) ⊎ ((fast_path c).0 ≡ (get_result_unlocked c).0)

  abbrev pub Honours : Event R → Type 0
  Honours (requests q) =
      Keeps q.fast_path × ((cookie : ℕ) → q.returned ≡ inl cookie → is_set q.set_to ≡ (cookie == 0))
  Honours (fetches do_fetch) =
      (cookie : ℕ) → (do_fetch cookie).thrown ≡ none → is_set (do_fetch cookie).set_to ≡ true
  Honours _ = Unit

module _ {R : Type 0} where
  unfoldable pub start : Run R
  start = record { call = new; pending = 0; answers = [] }

  unfoldable pub requested : Request R → Call R → Call R
  requested r c = elim (request r c) [ none ↦ c | some (d, _) ↦ d ]

  unfoldable pub fetched : (ℕ → Fetch R) → Call R → Call R
  fetched do_fetch c = elim (fetch_unlocked do_fetch c) [ none ↦ c | some (d, _) ↦ d ]

  unfoldable pub returned : Option Bool → ℕ → Run R → Run R
  returned sent zero r = r
  returned sent (suc pending) r = record r { call = (abort_end sent r.call).0; pending = pending }

  unfoldable pub step : Event R → Run R → Run R
  unfolding requested fetched returned opened
  step (requests q) r = record r { call = requested q r.call }
  step (fetches do_fetch) r = record r { call = fetched do_fetch r.call }
  step (is_available cookie) r = record r { call = (result_available_notification cookie r.call).0 }
  step (is_aborted cookie) r = record r { call = (aborted_notification cookie r.call).0 }
  step (aborts suppress_errors) r =
      let (c, begin) = abort_begin suppress_errors r.call in
      record r { call = c; pending = opened begin r.pending }
  step (abort_returns sent) r = returned sent r.pending r
  step reads r =
      let (c, got) = get_result_unlocked r.call in record r { call = c; answers = got ∷ r.answers }
  step destroys r = record r { call = (destroy r.call).0 }

  unfoldable pub run : List (Event R) → Run R → Run R
  run [] r = r
  run (e ∷ es) r = run es (step e r)
