-- ===== src/Rnf/Promise.antt =====
-- The promise of a call and its cookies: whoever reads the result of a call is not blocked.
use Prim.Native.String.{String}
use streamplayer.Base.{
  ℕ, suc, zero, ◌≡◌, refl, sym, ◌∙◌, subst, ◌⊎◌, inl, inr, Bool, true, false, Option, none, some,
  arith, ◌==◌, Bool-cases, Option-cases,
}
use streamplayer.Rnf.{
  CallState, initialized, wait_for_notification, ready_to_fetch, result_fetched, aborting,
  aborted_by_peer, failed, about_to_destroy, code, Fetched, value, exception, Call, Request, is_set,
  set_state, set_promise, set_value, fails_with, fast_path_returned, manage_cookie,
  request_returned, request_made, request, get_future, get_done, get_in, get_result_unlocked,
}
use streamplayer.Rnf.Steps.{requests, requested, Keeps, Honours}
use streamplayer.Rnf.Watch.{code_injective}

-- Of the promise (whether it is set), the cookie, the cleared cookie and the number of aborts that
-- have not returned: none of these aborts can be for a cookie that is still to be notified if the
-- promise is set.
unfoldable pub Pending : Bool → ℕ → ℕ → ℕ → Type 0
Pending set cookie cleared zero = Unit
Pending set cookie cleared (suc _) = (cookie ≡ 0) × ((set ≡ false) ⊎ (cleared ≡ 0))

unfoldable pub Good : CallState → Bool → ℕ → ℕ → ℕ → Type 0
unfolding Pending
Good initialized set cookie cleared pending = (set ≡ false) × (cookie ≡ 0) × (pending ≡ 0)
Good wait_for_notification set cookie cleared pending =
    (set ≡ false) × Pending set cookie cleared pending
Good ready_to_fetch set cookie cleared pending = (set ≡ false) × Pending set cookie cleared pending
Good result_fetched set cookie cleared pending = (set ≡ true) × Pending set cookie cleared pending
Good failed set cookie cleared pending = (set ≡ true) × Pending set cookie cleared pending
Good aborting set cookie cleared pending = (cookie ≡ 0) × ((set ≡ false) ⊎ (cleared ≡ 0))
Good aborted_by_peer set cookie cleared pending = Pending set cookie cleared pending
Good about_to_destroy set cookie cleared pending = Pending set cookie cleared pending

module _ {R : Type 0} where
  abbrev pub IsSound : ℕ → Call R → Type 0
  IsSound p c = Good c.state (is_set c.promise) c.cookie c.cleared_cookie p

suc_not_zero : (p : ℕ) → suc p ≡ 0 → ⊥
suc_not_zero p e = omega (arith, e)

pub to_pending : (s : CallState) (b : Bool) (k l p : ℕ) → Good s b k l p → Pending b k l p
unfolding Good Pending
to_pending aborting b k l zero h = tt
to_pending aborting b k l (suc p) h = h
to_pending initialized b k l zero h = tt
to_pending initialized b k l (suc p) (_, _, e) = omega (arith, e)
to_pending wait_for_notification b k l p h = h.1
to_pending ready_to_fetch b k l p h = h.1
to_pending result_fetched b k l p h = h.1
to_pending failed b k l p h = h.1
to_pending aborted_by_peer b k l p h = h
to_pending about_to_destroy b k l p h = h

pub fewer : (b : Bool) (k l p : ℕ) → Pending b k l (suc p) → Pending b k l p
unfolding Pending
fewer b k l zero h = tt
fewer b k l (suc p) h = h

pub Good-fewer : (s : CallState) (b : Bool) (k l p : ℕ) → Good s b k l (suc p) → Good s b k l p
unfolding Good
Good-fewer aborting b k l p h = h
Good-fewer initialized b k l p (_, _, e) = elim (suc_not_zero p e) [ ]
Good-fewer wait_for_notification b k l p (e, h) = (e, fewer b k l p h)
Good-fewer ready_to_fetch b k l p (e, h) = (e, fewer b k l p h)
Good-fewer result_fetched b k l p (e, h) = (e, fewer b k l p h)
Good-fewer failed b k l p (e, h) = (e, fewer b k l p h)
Good-fewer aborted_by_peer b k l p h = fewer b k l p h
Good-fewer about_to_destroy b k l p h = fewer b k l p h

-- Whether an abort is left pending does not matter for a call without a cookie whose promise is not
-- set, or whose last cookie was none.
pub cleared-Pending : (b : Bool) (l p : ℕ) → (b ≡ false) ⊎ (l ≡ 0) → Pending b 0 l p
unfolding Pending
cleared-Pending b l zero h = tt
cleared-Pending b l (suc p) h = (refl, h)

-- Fetching ends with the cookie cleared.
pub fetched-Pending : (b d : Bool) (k l p : ℕ) → Pending b k l p → Pending d 0 k p
unfolding Pending
fetched-Pending b d k l zero h = tt
fetched-Pending b d k l (suc p) (e, _) = (refl, inr e)

module _ {R : Type 0} where
  pub set_state-IsSound :
      (s : CallState) (p : ℕ) (c : Call R)
      → Good s (is_set c.promise) c.cookie c.cleared_cookie p
      → IsSound p (set_state s c)
  unfolding set_state
  set_state-IsSound s p c h = elim (Bool-cases (code c.state == code s)) [
    | inl same ↦ rw same (
        subst (λ t. Good t (is_set c.promise) c.cookie c.cleared_cookie p)
          (sym (code_injective c.state s same)) h)
    | inr other ↦ rw other h
  ]

  pub is_set-set_promise : (f : Fetched R) (c : Call R) → is_set (set_promise f c).promise ≡ true
  unfolding set_promise is_set
  is_set-set_promise f c = elim (Option-cases c.promise) [
    | inl e ↦ rw e refl
    | inr (g, e) ↦ rw e refl
  ]

  pub is_set-set_value :
      (o : Option R) (c : Call R)
      → is_set c.promise ≡ false
      → is_set (set_value o c).promise ≡ is_set o
  unfolding set_value is_set
  is_set-set_value none c h = h
  is_set-set_value (some r) c h = is_set-set_promise (value r) c

  fails_with-IsSound :
      (error : String) (p : ℕ) (c : Call R)
      → Pending true c.cookie c.cleared_cookie p
      → IsSound p (fails_with error c)
  unfolding fails_with Good set_promise
  fails_with-IsSound error p c h =
      let set = is_set-set_promise (exception error) c in
      set_state-IsSound failed p (set_promise (exception error) c)
        (set, subst (λ b. Pending b c.cookie c.cleared_cookie p) (sym set) h)

  -- A call that is done, whose result may be read.
  abbrev Done : ℕ → Call R → Type 0
  Done p c = (is_set c.promise ≡ true) × Pending (is_set c.promise) c.cookie c.cleared_cookie p

  get_future-IsSound :
      (p : ℕ) (c : Call R) → IsSound p c → Done p c → IsSound p (get_future c.promise c).0
  unfolding get_future Good
  get_future-IsSound p c h d = go c.promise
    where
      go : (o : Option (Fetched R)) → IsSound p (get_future o c).0
      go none = h
      go (some (value r)) = h
      go (some (exception error)) =
          set_state-IsSound failed p (record c { future_is_valid = false }) d

  get_done-IsSound : (p : ℕ) (c : Call R) → IsSound p c → Done p c → IsSound p (get_done c).0
  unfolding get_done
  get_done-IsSound p c h d = elim (Bool-cases c.was_aborted_after_done) [
    | inl late ↦ simp late h
    | inr first ↦ elim (Bool-cases c.future_is_valid) [
      | inl valid ↦ simp (first, valid) (get_future-IsSound p c h d)
      | inr spent ↦ simp (first, spent) h
    ]
  ]

  get_in-IsSound :
      (s : CallState) (p : ℕ) (c : Call R)
      → IsSound p c
      → Good s (is_set c.promise) c.cookie c.cleared_cookie p
      → IsSound p (get_in s c).0
  unfolding get_in Good
  get_in-IsSound result_fetched p c h d = get_done-IsSound p c h d
  get_in-IsSound failed p c h d = get_done-IsSound p c h d
  get_in-IsSound _ p c h d = h

  pub get_result-IsSound : (p : ℕ) (c : Call R) → IsSound p c → IsSound p (get_result_unlocked c).0
  unfolding get_result_unlocked
  get_result-IsSound p c h = get_in-IsSound c.state p c h h

  path_returned-IsSound :
      (q : Call R × Option String) → IsSound 0 q.0 → IsSound 0 (fast_path_returned q)
  unfolding fast_path_returned Pending
  path_returned-IsSound (c, none) h = h
  path_returned-IsSound (c, some error) h = fails_with-IsSound error 0 c tt

  fast_path-IsSound :
      (f : Call R → Call R × Option String) (c : Call R)
      → Keeps f
      → IsSound 0 c
      → IsSound 0 (fast_path_returned (f c))
  fast_path-IsSound f c k h =
      let used : IsSound 0 (f c).0 = elim (k c) [
        | inl same ↦ subst (IsSound 0) (sym same) h
        | inr read ↦ subst (IsSound 0) (sym read) (get_result-IsSound 0 c h)
      ] in
      path_returned-IsSound (f c) used

  manage_cookie-IsSound :
      (o : Option String) (c : Call R) → is_set c.promise ≡ false → IsSound 0 (manage_cookie o c)
  unfolding manage_cookie Good Pending
  manage_cookie-IsSound none c h = set_state-IsSound wait_for_notification 0 c (h, tt)
  manage_cookie-IsSound (some error) c h = fails_with-IsSound error 0 c tt

  returned-IsSound :
      (q : Request R) (cookie : ℕ) (c : Call R)
      → Keeps q.fast_path
      → is_set c.promise ≡ (cookie == 0)
      → IsSound 0 (request_returned q cookie c)
  unfolding request_returned Good Pending
  returned-IsSound q cookie c k h = elim (Bool-cases (cookie == 0)) [
    | inl fast ↦ rw fast (
        fast_path-IsSound q.fast_path (set_state result_fetched c) k
          (set_state-IsSound result_fetched 0 c (h ∙ fast, tt)))
    | inr slow ↦ rw slow (
        manage_cookie-IsSound q.manage_error (record c { cookie = cookie; detached = true })
          (h ∙ slow))
  ]

  made-IsSound :
      (q : Request R) (o : ℕ ⊎ String) (c : Call R)
      → Keeps q.fast_path
      → ((cookie : ℕ) → o ≡ inl cookie → is_set c.promise ≡ (cookie == 0))
      → IsSound 0 (request_made q o c)
  unfolding request_made Pending
  made-IsSound q (inl cookie) c k h = returned-IsSound q cookie c k (h cookie refl)
  made-IsSound q (inr error) c k h = fails_with-IsSound error 0 c tt

  pub requested-IsSound :
      (q : Request R) (p : ℕ) (c : Call R)
      → Honours (requests q)
      → IsSound p c
      → IsSound p (requested q c)
  unfolding requested request Good
  requested-IsSound q p c (k, returns_cookie) h =
      elim (Bool-cases (code c.state == code initialized)) [
        | inl first ↦
            let (unset, no_cookie, none_pending) =
              subst (λ s. Good s (is_set c.promise) c.cookie c.cleared_cookie p)
                (code_injective c.state initialized first) h in
            rw (first, requested)
              (subst (λ n. IsSound n (request_made q q.returned (set_value q.set_to c)))
                (sym none_pending)
                (made-IsSound q q.returned (set_value q.set_to c) k
                  (λ cookie e. is_set-set_value q.set_to c unset ∙ returns_cookie cookie e)))
        | inr late ↦ rw (late, requested) h
      ]
