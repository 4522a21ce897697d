-- ===== src/Rnf/Blocking.antt =====
-- Fetching, notifications and aborts keep the promise of a call sound, so reading never blocks.
use Prim.Native.String.{String}
use streamplayer.Base.{
  ℕ, suc, zero, ◌≡◌, ◌≢◌, refl, sym, ◌∙◌, subst, ◌⊎◌, inl, inr, Bool, true, false, Option, none,
  some, List, [], ◌∷◌, arith, ◌==◌, Bool-cases, All, ◌||◌,
}
use streamplayer.Rnf.{
  CallState, initialized, wait_for_notification, ready_to_fetch, result_fetched, aborting,
  aborted_by_peer, failed, about_to_destroy, Fetched, value, exception, Call, Fetch, blocks, is_set,
  new, destroy, clear_cookie, set_promise, set_value, fetch_returned, fetch_in, fetch_unlocked,
  notified, notification, result_available_notification, aborted_notification, abort_pending,
  abort_done, abort_in, abort_begin, abort_end, get_future, get_done, get_in, get_result_unlocked,
}
use streamplayer.Rnf.Steps.{
  Event, requests, fetches, is_available, is_aborted, aborts, abort_returns, reads, destroys, Run,
  start, opened, fetched, returned, step, run, Honours,
}
use streamplayer.Rnf.Promise.{
  Pending, Good, IsSound, to_pending, Good-fewer, cleared-Pending, fetched-Pending,
  set_state-IsSound, is_set-set_promise, is_set-set_value, get_result-IsSound, requested-IsSound,
}

-- The two states that a notification can put a call into.
abbrev IsNews : CallState → Type 0
IsNews s = (s ≡ ready_to_fetch) ⊎ (s ≡ aborted_by_peer)

known_cookie : (n k l : ℕ) → (n == 0) ≡ false → (n == k || n == l) ≡ true → k ≡ 0 → l ≡ 0 → ⊥
known_cookie n k l h e f g = ground arith

zero_known : (n : ℕ) → n ≡ 0 → (n == 0) ≡ true
zero_known n e = ground arith

true_not_false : true ≡ false → ⊥
true_not_false e = cc

start-IsSound : (R : Type 0) → IsSound 0 (new {R = R})
unfolding new Good is_set
start-IsSound R = (refl, refl, refl)

module _ {R : Type 0} where
  set_value-cookie : (o : Option R) (c : Call R) → (set_value o c).cookie ≡ c.cookie
  unfolding set_value set_promise
  set_value-cookie none c = refl
  set_value-cookie (some r) c = refl

  fetch_returned-IsSound :
      (f : Fetch R) (o : Option String) (b : Bool) (l p : ℕ) (c : Call R)
      → (o ≡ none → is_set c.promise ≡ true)
      → Pending b c.cookie l p
      → IsSound p (fetch_returned f o c).0
  unfolding fetch_returned clear_cookie Good set_promise
  fetch_returned-IsSound f none b l p c k h =
      set_state-IsSound result_fetched p (clear_cookie c)
        (k refl, fetched-Pending b _ c.cookie l p h)
  fetch_returned-IsSound f (some error) b l p c k h =
      set_state-IsSound failed p (clear_cookie (set_promise (exception error) c))
        (is_set-set_promise (exception error) c, fetched-Pending b _ c.cookie l p h)

  fetch_in-IsSound :
      (s : CallState) (f : ℕ → Fetch R) (p : ℕ) (c : Call R)
      → Honours (fetches f)
      → IsSound p c
      → Good s (is_set c.promise) c.cookie c.cleared_cookie p
      → IsSound p (elim (fetch_in s f c) [ none ↦ c | some (d, _) ↦ d ])
  unfolding fetch_in Good
  fetch_in-IsSound ready_to_fetch f p c k h (unset, pending) =
      fetch_returned-IsSound (f c.cookie) (f c.cookie).thrown (is_set c.promise) c.cleared_cookie p
        (set_value (f c.cookie).set_to c)
        (λ e. is_set-set_value (f c.cookie).set_to c unset ∙ k c.cookie e)
        (subst (λ k. Pending (is_set c.promise) k c.cleared_cookie p)
          (sym (set_value-cookie (f c.cookie).set_to c)) pending)
  fetch_in-IsSound _ f p c k h _ = h

  notified-IsSound :
      (s t : CallState) (n p : ℕ) (c : Call R)
      → IsNews t
      → (n == 0) ≡ false
      → (n == c.cookie || n == c.cleared_cookie) ≡ true
      → IsSound p c
      → Good s (is_set c.promise) c.cookie c.cleared_cookie p
      → IsSound p (notified s t c).0
  unfolding notified Good
  notified-IsSound wait_for_notification t n p c news valid known h g =
      set_state-IsSound t p c (elim news [
        | inl ready ↦
            subst (λ t. Good t (is_set c.promise) c.cookie c.cleared_cookie p) (sym ready) g
        | inr aborted ↦
            subst (λ t. Good t (is_set c.promise) c.cookie c.cleared_cookie p) (sym aborted) g.1
      ])
  notified-IsSound aborting t n p c news valid known h (no_cookie, o) =
      let unset : is_set c.promise ≡ false = elim o [
        | inl e ↦ e
        | inr cleared ↦
            elim (known_cookie n c.cookie c.cleared_cookie valid known no_cookie cleared) [ ]
      ] in
      let left : Pending (is_set c.promise) c.cookie c.cleared_cookie p =
        subst (λ k. Pending (is_set c.promise) k c.cleared_cookie p) (sym no_cookie)
          (cleared-Pending (is_set c.promise) c.cleared_cookie p (inl unset)) in
      set_state-IsSound t p c (elim news [
        | inl ready ↦
            subst (λ t. Good t (is_set c.promise) c.cookie c.cleared_cookie p) (sym ready)
              (unset, left)
        | inr aborted ↦
            subst (λ t. Good t (is_set c.promise) c.cookie c.cleared_cookie p) (sym aborted) left
      ])
  notified-IsSound _ t n p c news valid known h g = h

  notification-IsSound :
      (n : ℕ) (t : CallState) (p : ℕ) (c : Call R)
      → IsNews t
      → IsSound p c
      → IsSound p (notification n t c).0
  unfolding notification
  notification-IsSound n t p c news h = elim (Bool-cases (n == 0)) [
    | inl invalid ↦ rw invalid h
    | inr valid ↦ elim (Bool-cases (n == c.cookie || n == c.cleared_cookie)) [
      | inl known ↦ rw (valid, known) (notified-IsSound c.state t n p c news valid known h h)
      | inr wrong ↦ rw (valid, wrong) h
    ]
  ]

  -- An abort that begins on a call whose promise is not set.
  pending-IsSound :
      (p : ℕ) (c : Call R)
      → is_set c.promise ≡ false
      → ((c.cookie == 0) ≡ false → Good c.state (is_set c.promise) 0 c.cookie (suc p))
      → IsSound (opened (abort_pending c).1 p) (abort_pending c).0
  unfolding abort_pending clear_cookie opened Good
  pending-IsSound p c unset k = elim (Bool-cases (c.cookie == 0)) [
    | inl free ↦ rw free (
        set_state-IsSound aborted_by_peer p (clear_cookie c)
          (cleared-Pending (is_set c.promise) c.cookie p (inl unset)))
    | inr used ↦ rw used (k used)
  ]

  abort_done-IsSound :
      (b : Bool) (p : ℕ) (c : Call R)
      → IsSound p c
      → IsSound (opened (abort_done b c).1 p) (abort_done b c).0
  unfolding abort_done opened
  abort_done-IsSound b p c h = elim (Bool-cases c.was_aborted_after_done) [
    | inl again ↦ simp again h
    | inr first ↦ simp first h
  ]

  abort_end-IsSound :
      (o : Option Bool) (p : ℕ) (c : Call R) → IsSound (suc p) c → IsSound p (abort_end o c).0
  unfolding abort_end Good Pending
  abort_end-IsSound none p c h = Good-fewer c.state _ _ _ p h
  abort_end-IsSound (some false) p c h = Good-fewer c.state _ _ _ p h
  abort_end-IsSound (some true) p c h =
      set_state-IsSound aborting p c (to_pending c.state _ _ _ (suc p) h)

  abort_in-IsSound :
      (s : CallState) (b : Bool) (p : ℕ) (c : Call R)
      → s ≡ c.state
      → IsSound p c
      → Good s (is_set c.promise) c.cookie c.cleared_cookie p
      → IsSound (opened (abort_in s b c).1 p) (abort_in s b c).0
  unfolding abort_in Good opened Pending
  abort_in-IsSound initialized b p c e h (unset, no_cookie, _) =
      pending-IsSound p c unset
        (λ used. elim (true_not_false (sym (zero_known c.cookie no_cookie) ∙ used)) [ ])
  abort_in-IsSound wait_for_notification b p c e h (unset, _) =
      pending-IsSound p c unset (λ _.
        subst (λ s. Good s (is_set c.promise) 0 c.cookie (suc p)) e (unset, (refl, inl unset)))
  abort_in-IsSound ready_to_fetch b p c e h (unset, _) =
      pending-IsSound p c unset (λ _.
        subst (λ s. Good s (is_set c.promise) 0 c.cookie (suc p)) e (unset, (refl, inl unset)))
  abort_in-IsSound result_fetched b p c e h _ = abort_done-IsSound b p c h
  abort_in-IsSound failed b p c e h _ = abort_done-IsSound b p c h
  abort_in-IsSound _ b p c e h _ = h

  returned_run-IsSound :
      (o : Option Bool) (n : ℕ) (r : Run R)
      → n ≡ r.pending
      → IsSound n r.call
      → IsSound (returned o n r).pending (returned o n r).call
  unfolding returned
  returned_run-IsSound o zero r e h = subst (λ n. IsSound n r.call) e h
  returned_run-IsSound o (suc n) r e h = abort_end-IsSound o n r.call h

  step-IsSound :
      (e : Event R) (r : Run R)
      → Honours e
      → IsSound r.pending r.call
      → IsSound (step e r).pending (step e r).call
  unfolding step fetched fetch_unlocked result_available_notification aborted_notification
      abort_begin destroy Good
  step-IsSound (requests q) r k h = requested-IsSound q r.pending r.call k h
  step-IsSound (fetches f) r k h = fetch_in-IsSound r.call.state f r.pending r.call k h h
  step-IsSound (is_available n) r _ h =
      notification-IsSound n ready_to_fetch r.pending r.call (inl refl) h
  step-IsSound (is_aborted n) r _ h =
      notification-IsSound n aborted_by_peer r.pending r.call (inr refl) h
  step-IsSound (aborts b) r _ h = abort_in-IsSound r.call.state b r.pending r.call refl h h
  step-IsSound (abort_returns o) r _ h = returned_run-IsSound o r.pending r refl h
  step-IsSound reads r _ h = get_result-IsSound r.pending r.call h
  step-IsSound destroys r _ h =
      set_state-IsSound about_to_destroy r.pending r.call
        (to_pending r.call.state _ _ _ r.pending h)

  run-IsSound :
      (es : List (Event R)) (r : Run R)
      → All Honours es
      → IsSound r.pending r.call
      → IsSound (run es r).pending (run es r).call
  unfolding run
  run-IsSound [] r k h = h
  run-IsSound (e ∷ es) r (k, ks) h = run-IsSound es (step e r) ks (step-IsSound e r k h)

  -- A future blocks its reader only if its promise has not been set.
  get_future_blocks :
      (o : Option (Fetched R)) (c : Call R) → is_set o ≡ true → (get_future o c).1 ≢ blocks
  unfolding get_future is_set
  get_future_blocks none c h = cc
  get_future_blocks (some (value r)) c h = λ e. cc
  get_future_blocks (some (exception error)) c h = λ e. cc

  get_done_blocks : (c : Call R) → is_set c.promise ≡ true → (get_done c).1 ≢ blocks
  unfolding get_done
  get_done_blocks c h = elim (Bool-cases c.was_aborted_after_done) [
    | inl late ↦ simp late (λ e. cc)
    | inr first ↦ elim (Bool-cases c.future_is_valid) [
      | inl valid ↦ simp (first, valid) (get_future_blocks c.promise c h)
      | inr spent ↦ simp (first, spent) (λ e. cc)
    ]
  ]

  get_in_blocks :
      (s : CallState) (p : ℕ) (c : Call R)
      → Good s (is_set c.promise) c.cookie c.cleared_cookie p
      → (get_in s c).1 ≢ blocks
  unfolding get_in Good
  get_in_blocks result_fetched p c (set, _) = get_done_blocks c set
  get_in_blocks failed p c (set, _) = get_done_blocks c set
  get_in_blocks _ p c h = λ e. cc

-- Reading the result of a call never blocks on the future: after any sequence of operations by any
-- threads, aborts and notifications between the two parts of an abort included, by functions that
-- do what they are to do, the promise has been set wherever the state lets the result be read.
pub result_never_blocks :
    {R : Type 0} (es : List (Event R))
    → All Honours es
    → (get_result_unlocked (run es start).call).1 ≢ blocks
unfolding get_result_unlocked start
result_never_blocks es k =
    get_in_blocks (run es start).call.state (run es start).pending (run es start).call
      (run-IsSound es start k (start-IsSound _))
