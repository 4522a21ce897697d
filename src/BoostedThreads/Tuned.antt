-- ===== src/BoostedThreads/Tuned.antt =====
-- Every thread has the priority that it is to have, after any calls.
use streamplayer.Base.{
  ℕ, ◌≡◌, refl, sym, ◌∙◌, ap, subst, Bool, true, false, Bool-cases, inl, inr, Option, none, some,
  List, [], ◌∷◌, ◌==◌, ==_iff, if◌then◌else◌, arith,
}
use streamplayer.BoostedThreads.{
  new, Priority, no_priority, Sched, Threads, sched_of, find, erase, set_sched, configure_thread,
  configure_all, boost, throttle, add_self, remove_self,
}

pub data Call : Type 0 where
  boosts throttles : Call
  adds : ℕ → Priority → Call
  removes : ℕ → Call

module _ (accepts : ℕ → Sched → Bool) where
  unfoldable pub perform : Call → Threads × (ℕ → Sched) → Threads × (ℕ → Sched)
  perform boosts x = boost accepts x
  perform throttles x = throttle accepts x
  perform (adds tid prio) x = add_self accepts tid prio x
  perform (removes tid) x = remove_self accepts tid x

  unfoldable pub run : List Call → Threads × (ℕ → Sched) → Threads × (ℕ → Sched)
  unfolding perform
  run [] x = x
  run (c ∷ cs) x = run cs (perform c x)

-- One entry for an ID.
unfoldable pub IsMap : List (ℕ × Priority) → Type 0
IsMap [] = true ≡ true
IsMap ((n, prio) ∷ m) = (find n m ≡ none) × IsMap m

-- The priority of a thread that may be known.
unfoldable pub wanted : Bool → Option Priority → Priority
wanted is_boosted none = no_priority
wanted is_boosted (some prio) = if is_boosted then prio else no_priority

-- While the boost is on, a thread has the setting of its priority if it is known, and the default one
-- otherwise; while it is off, every thread has the default one.
abbrev pub HasPriorities : Threads → (ℕ → Sched) → Type 0
HasPriorities t os =
    (tid : ℕ) → os tid ≡ sched_of t (wanted t.is_boost_enabled (find tid t.threads))

pub erased : (k : ℕ) (m : List (ℕ × Priority)) → find k (erase k m) ≡ none
unfolding find erase
erased k [] = refl
erased k ((n, p) ∷ m) = elim (Bool-cases (k == n)) [
  | inl e ↦ rw e (erased k m)
  | inr e ↦ rw (e, e) (erased k m)
]

pub unerased :
    (k n : ℕ) (m : List (ℕ × Priority)) → (k == n) ≡ false → find k (erase n m) ≡ find k m
unfolding find erase
unerased k n [] h = refl
unerased k n ((l, p) ∷ m) h = elim (Bool-cases (n == l)) [
  | inl e ↦ rw (e, differs e) (unerased k n m h)
  | inr e ↦ rw e (ap (λ o. if k == l then some p else o) (unerased k n m h))
]
  where
    differs : (n == l) ≡ true → (k == l) ≡ false
    differs e = ground arith

pub still_absent : (k n : ℕ) (m : List (ℕ × Priority)) → find k m ≡ none → find k (erase n m) ≡ none
still_absent k n m h = elim (Bool-cases (k == n)) [
  | inl e ↦ subst (λ j. find k (erase j m) ≡ none) ((==_iff k n).0 e) (erased k m)
  | inr e ↦ unerased k n m e ∙ h
]

erase-IsMap : (k : ℕ) (m : List (ℕ × Priority)) → IsMap m → IsMap (erase k m)
unfolding IsMap erase
erase-IsMap k [] h = refl
erase-IsMap k ((n, p) ∷ m) (h, r) = elim (Bool-cases (k == n)) [
  | inl e ↦ rw e (erase-IsMap k m r)
  | inr e ↦ rw e (still_absent n k m h, erase-IsMap k m r)
]

-- What the loops set, for a thread with an old setting.
unfoldable setting : Bool → Threads → Option Priority → Sched → Sched
setting on t none old = old
setting on t (some prio) old = sched_of t (if on then prio else no_priority)

same_sched :
    (t : Threads) (m : List (ℕ × Priority)) (b : Bool) (prio : Priority)
    → sched_of (record t { threads = m; is_boost_enabled = b }) prio ≡ sched_of t prio
unfolding sched_of
same_sched t m b Priority.highest = refl
same_sched t m b Priority.high = refl
same_sched t m b Priority.moderate = refl
same_sched t m b no_priority = refl

reset :
    (on was : Bool) (t : Threads) (o : Option Priority) (s : Sched)
    → s ≡ sched_of t (wanted was o)
    → setting on t o s ≡ sched_of t (wanted on o)
unfolding setting wanted
reset on was t none s e = e
reset on was t (some prio) s e = refl

-- What is kept.
abbrev pub IsTuned : Threads × (ℕ → Sched) → Type 0
IsTuned (t, os) = IsMap t.threads × HasPriorities t os

module _ (accepts : ℕ → Sched → Bool)
    (accepted : (tid : ℕ) (s : Sched) → accepts tid s ≡ true) where
  configured :
      (t : Threads) (n k : ℕ) (prio : Priority) (os : ℕ → Sched)
      → configure_thread accepts t n prio os k ≡ (if k == n then sched_of t prio else os k)
  unfolding configure_thread set_sched
  configured t n k prio os = simp (accepted n (sched_of t prio)) refl

  all_configured :
      (on : Bool) (t : Threads) (m : List (ℕ × Priority)) (os : ℕ → Sched) (k : ℕ)
      → IsMap m
      → configure_all accepts on t m os k ≡ setting on t (find k m) (os k)
  unfolding configure_all IsMap find setting
  all_configured on t [] os k h = refl
  all_configured on t ((n, p) ∷ m) os k (h, r) = elim (Bool-cases (k == n)) [
    | inl e ↦
        all_configured on t m _ k r
        ∙ ap
            (λ o.
              setting on t o (configure_thread accepts t n (if on then p else no_priority) os k))
            (subst (λ j. find j m ≡ none) (sym ((==_iff k n).0 e)) h)
        ∙ configured t n k _ os
        ∙ rw e refl
    | inr e ↦
        all_configured on t m _ k r
        ∙ ap (setting on t (find k m)) (configured t n k _ os)
        ∙ rw e refl
  ]

  switched :
      (on : Bool) (t : Threads) (os : ℕ → Sched)
      → IsTuned (t, os)
      → IsTuned (record t { is_boost_enabled = on }, configure_all accepts on t t.threads os)
  switched on t os (h, tuned) = (
    h,
    λ tid.
        all_configured on t t.threads os tid h
        ∙ reset on t.is_boost_enabled t (find tid t.threads) (os tid) (tuned tid)
        ∙ sym (same_sched t t.threads on (wanted on (find tid t.threads))),
  )

  pub if-IsTuned :
      (b : Bool) (x y : Threads × (ℕ → Sched))
      → IsTuned x
      → IsTuned y
      → IsTuned (if b then x else y)
  if-IsTuned true x y h k = h
  if-IsTuned false x y h k = k

  pub boost-IsTuned : (x : Threads × (ℕ → Sched)) → IsTuned x → IsTuned (boost accepts x)
  unfolding boost
  boost-IsTuned (t, os) h = if-IsTuned t.is_boost_enabled _ _ h (switched true t os h)

  pub throttle-IsTuned : (x : Threads × (ℕ → Sched)) → IsTuned x → IsTuned (throttle accepts x)
  unfolding throttle
  throttle-IsTuned (t, os) h = if-IsTuned t.is_boost_enabled _ _ (switched false t os h) h

  pub add_self-IsTuned :
      (n : ℕ) (prio : Priority) (x : Threads × (ℕ → Sched))
      → IsTuned x
      → IsTuned (add_self accepts n prio x)
  unfolding add_self IsMap find wanted
  add_self-IsTuned n prio (t, os) (h, tuned) = (
    (erased n t.threads, erase-IsMap n t.threads h),
    λ k. elim (Bool-cases (k == n)) [
      | inl e ↦
          configured t n k _ os
          ∙ rw e (sym (same_sched t ((n, prio) ∷ erase n t.threads) t.is_boost_enabled _))
      | inr e ↦
          configured t n k _ os
          ∙ rw (e, unerased k n t.threads e)
              (tuned k ∙ sym (same_sched t ((n, prio) ∷ erase n t.threads) t.is_boost_enabled _))
    ],
  )

  pub remove_self-IsTuned :
      (n : ℕ) (x : Threads × (ℕ → Sched)) → IsTuned x → IsTuned (remove_self accepts n x)
  unfolding remove_self wanted
  remove_self-IsTuned n (t, os) (h, tuned) = (
    erase-IsMap n t.threads h,
    λ k. elim (Bool-cases (k == n)) [
      | inl e ↦
          configured t n k _ os
          ∙ rw
              (
                e,
                subst (λ j. find k (erase j t.threads) ≡ none) ((==_iff k n).0 e)
                    (erased k t.threads),
              )
              (sym (same_sched t (erase n t.threads) t.is_boost_enabled _))
      | inr e ↦
          configured t n k _ os
          ∙ rw (e, unerased k n t.threads e)
              (tuned k ∙ sym (same_sched t (erase n t.threads) t.is_boost_enabled _))
    ],
  )

  perform-IsTuned :
      (c : Call) (x : Threads × (ℕ → Sched)) → IsTuned x → IsTuned (perform accepts c x)
  unfolding perform
  perform-IsTuned boosts x h = boost-IsTuned x h
  perform-IsTuned throttles x h = throttle-IsTuned x h
  perform-IsTuned (adds tid prio) x h = add_self-IsTuned tid prio x h
  perform-IsTuned (removes tid) x h = remove_self-IsTuned tid x h

  run-IsTuned :
      (cs : List Call) (x : Threads × (ℕ → Sched)) → IsTuned x → IsTuned (run accepts cs x)
  unfolding run
  run-IsTuned [] x h = h
  run-IsTuned (c ∷ cs) x h = run-IsTuned cs (perform accepts c x) (perform-IsTuned c x h)

  -- If the system accepts all settings, and in the beginning every thread has the setting of the thread
  -- that has made the object, then after any calls of boost(), throttle(), add_self() and
  -- remove_self(), from any threads, each thread has the setting that it is to have: that of its
  -- priority while the boost is on and it is known, and the one of the beginning otherwise.
  pub run-HasPriorities :
      (priority_min priority_max : ℕ) (own_sched : Option Sched) (os : ℕ → Sched) (cs : List Call)
      → ((tid : ℕ) → os tid ≡ (new priority_min priority_max own_sched).default_sched)
      → let (t, os') = run accepts cs (new priority_min priority_max own_sched, os) in
        HasPriorities t os'
  unfolding new IsMap wanted find sched_of
  run-HasPriorities priority_min priority_max own_sched os cs h =
      (run-IsTuned cs (new priority_min priority_max own_sched, os) (refl, h)).1
