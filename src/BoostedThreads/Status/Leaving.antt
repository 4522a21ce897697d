-- ===== src/BoostedThreads/Status/Leaving.antt =====
-- A thread of the pool does not keep a raised priority.
use Prim.Native.String.{String}
use streamplayer.Base.{
  ℕ, ◌≡◌, ◌≢◌, refl, sym, ◌∙◌, ap, subst, Bool, true, false, ◌||◌, Bool-cases, inl, inr, Option,
  none, some, List, [], ◌∷◌, ◌++◌, ◌==◌, ==_iff, eq→==, if◌then◌else◌,
}
use streamplayer.BoostedThreads.{
  new, Priority, highest, high, moderate, no_priority, Sched, Threads, sched_of, find, boost,
  throttle, add_self, remove_self,
}
use streamplayer.BoostedThreads.Tuned.{
  IsTuned, IsMap, wanted, erased, still_absent, boost-IsTuned, throttle-IsTuned, add_self-IsTuned,
  remove_self-IsTuned,
}
use streamplayer.BoostedThreads.Status.{
  task_name_to_priority, create, enter, leave, destroy, start, pause, stop, StatusObject,
  stream_status, other_message, determine_thread_name, Event, boosts, throttles, receives,
  add_or_remove, thread_moves, bus_sync_message_handler, handle, run,
}

-- The thread tells that it enters.
unfoldable enters_by : ℕ → Event → Bool
enters_by tid boosts = false
enters_by tid throttles = false
enters_by tid (receives n other_message) = false
enters_by tid (receives n (stream_status object enter owner)) = tid == n
enters_by tid (receives n (stream_status object leave owner)) = false
enters_by tid (receives n (stream_status object create owner)) = false
enters_by tid (receives n (stream_status object destroy owner)) = false
enters_by tid (receives n (stream_status object start owner)) = false
enters_by tid (receives n (stream_status object pause owner)) = false
enters_by tid (receives n (stream_status object stop owner)) = false

unfoldable pub enters : ℕ → List Event → Bool
unfolding enters_by
enters tid [] = false
enters tid (e ∷ es) = enters_by tid e || enters tid es

module _ (accepts : ℕ → Sched → Bool) (P : Threads × (ℕ → Sched) → Type 0)
    (boost_keeps : (x : Threads × (ℕ → Sched)) → P x → P (boost accepts x))
    (throttle_keeps : (x : Threads × (ℕ → Sched)) → P x → P (throttle accepts x))
    (remove_keeps : (n : ℕ) (x : Threads × (ℕ → Sched)) → P x → P (remove_self accepts n x)) where
  choice_keeps :
      (n : ℕ) (entering : Bool) (prio : Priority) (x : Threads × (ℕ → Sched))
      → (entering ≡ true → P (add_self accepts n prio x))
      → P x
      → P (if entering then add_self accepts n prio x else remove_self accepts n x)
  choice_keeps n true prio x a h = a refl
  choice_keeps n false prio x a h = remove_keeps n x h

  moves_keep :
      (n : ℕ) (entering : Bool) (o : Option String) (x : Threads × (ℕ → Sched))
      → ((prio : Priority) → entering ≡ true → P (add_self accepts n prio x))
      → P x
      → P (thread_moves accepts n entering o x)
  unfolding thread_moves add_or_remove
  moves_keep n entering none x a h = h
  moves_keep n entering (some name) x a h = by_priority (task_name_to_priority name)
    where
      by_priority : (prio : Priority) → P (add_or_remove accepts n entering prio x)
      by_priority no_priority = h
      by_priority highest = choice_keeps n entering highest x (a highest) h
      by_priority high = choice_keeps n entering high x (a high) h
      by_priority moderate = choice_keeps n entering moderate x (a moderate) h

  handle_keeps :
      (e : Event) (x : Threads × (ℕ → Sched))
      → ((n : ℕ) (prio : Priority) → enters_by n e ≡ true → P (add_self accepts n prio x))
      → P x
      → P (handle accepts e x)
  unfolding handle bus_sync_message_handler enters_by
  handle_keeps boosts x a h = boost_keeps x h
  handle_keeps throttles x a h = throttle_keeps x h
  handle_keeps (receives n other_message) x a h = h
  handle_keeps (receives n (stream_status object enter owner)) x a h =
      moves_keep n true _ x (λ prio e. a n prio (eq→== n n refl)) h
  handle_keeps (receives n (stream_status object leave owner)) x a h =
      moves_keep n false _ x (λ prio e. cc) h
  handle_keeps (receives n (stream_status object create owner)) x a h = h
  handle_keeps (receives n (stream_status object destroy owner)) x a h = h
  handle_keeps (receives n (stream_status object start owner)) x a h = h
  handle_keeps (receives n (stream_status object pause owner)) x a h = h
  handle_keeps (receives n (stream_status object stop owner)) x a h = h

both_false : (a b : Bool) → (a || b) ≡ false → (a ≡ false) × (b ≡ false)
both_false true b e = cc
both_false false b e = (refl, e)

-- What is kept: the priorities of the threads, and the setting of the beginning.
Holds : Sched → Threads × (ℕ → Sched) → Type 0
Holds d x = IsTuned x × (x.0.default_sched ≡ d)

if_both :
    (P : Threads × (ℕ → Sched) → Type 0) (b : Bool) (x y : Threads × (ℕ → Sched))
    → P x
    → P y
    → P (if b then x else y)
if_both P true x y h k = h
if_both P false x y h k = k

-- The thread is not known.
IsGone : ℕ → Threads × (ℕ → Sched) → Type 0
IsGone tid x = find tid x.0.threads ≡ none

module _ (accepts : ℕ → Sched → Bool)
    (accepted : (tid : ℕ) (s : Sched) → accepts tid s ≡ true) where
  handle-Holds :
      (d : Sched) (e : Event) (x : Threads × (ℕ → Sched)) → Holds d x → Holds d (handle accepts e x)
  unfolding Holds boost throttle add_self remove_self
  handle-Holds d e x h =
      handle_keeps accepts (Holds d)
        (λ y k. (
          boost-IsTuned accepts accepted y k.0,
          if_both (λ z. z.0.default_sched ≡ d) y.0.is_boost_enabled _ _ k.1 k.1,
        ))
        (λ y k. (
          throttle-IsTuned accepts accepted y k.0,
          if_both (λ z. z.0.default_sched ≡ d) y.0.is_boost_enabled _ _ k.1 k.1,
        ))
        (λ n y k. (remove_self-IsTuned accepts accepted n y k.0, k.1)) e x
        (λ n prio i. (add_self-IsTuned accepts accepted n prio x h.0, h.1)) h

  run-Holds :
      (d : Sched) (es : List Event) (x : Threads × (ℕ → Sched))
      → Holds d x
      → Holds d (run accepts es x)
  unfolding run
  run-Holds d [] x h = h
  run-Holds d (e ∷ es) x h = run-Holds d es (handle accepts e x) (handle-Holds d e x h)

module _ (accepts : ℕ → Sched → Bool) where
  run-append :
      (xs ys : List Event) (x : Threads × (ℕ → Sched))
      → run accepts (xs ++ ys) x ≡ run accepts ys (run accepts xs x)
  unfolding run
  run-append [] ys x = refl
  run-append (e ∷ xs) ys x = run-append xs ys (handle accepts e x)

  handle-IsGone :
      (tid : ℕ) (e : Event) (x : Threads × (ℕ → Sched))
      → enters_by tid e ≡ false
      → IsGone tid x
      → IsGone tid (handle accepts e x)
  unfolding IsGone boost throttle add_self remove_self find
  handle-IsGone tid e x never h =
      handle_keeps accepts (IsGone tid) (λ y k. if_both (IsGone tid) y.0.is_boost_enabled _ _ k k)
        (λ y k. if_both (IsGone tid) y.0.is_boost_enabled _ _ k k)
        (λ n y k. still_absent tid n y.0.threads k) e x
        (λ n prio i. elim (Bool-cases (tid == n)) [
          | inl q ↦
              (let same = subst (λ k. enters_by k e ≡ true) (sym ((==_iff tid n).0 q)) i in
                absurd (cc))
          | inr q ↦ rw q (still_absent tid n x.0.threads h)
        ])
        h

  run-IsGone :
      (tid : ℕ) (es : List Event) (x : Threads × (ℕ → Sched))
      → enters tid es ≡ false
      → IsGone tid x
      → IsGone tid (run accepts es x)
  unfolding run enters
  run-IsGone tid [] x never h = h
  run-IsGone tid (e ∷ es) x never h =
      run-IsGone tid es (handle accepts e x) (both_false _ _ never).1
        (handle-IsGone tid e x (both_false _ _ never).0 h)

  left-IsGone :
      (tid : ℕ) (prio : Priority) (x : Threads × (ℕ → Sched))
      → prio ≢ no_priority
      → IsGone tid (add_or_remove accepts tid false prio x)
  unfolding IsGone add_or_remove remove_self
  left-IsGone tid no_priority x h = absurd (h refl)
  left-IsGone tid highest x h = erased tid x.0.threads
  left-IsGone tid high x h = erased tid x.0.threads
  left-IsGone tid moderate x h = erased tid x.0.threads

  leaving-IsGone :
      (before after : List Event) (tid : ℕ) (object : StatusObject) (owner : Option String)
      (name : String) (x : Threads × (ℕ → Sched))
      → determine_thread_name object owner ≡ some name
      → task_name_to_priority name ≢ no_priority
      → enters tid after ≡ false
      → IsGone tid
          (run accepts (before ++ (receives tid (stream_status object leave owner) ∷ after)) x)
  unfolding run handle bus_sync_message_handler thread_moves
  leaving-IsGone before after tid object owner name x named raised never =
      subst (IsGone tid) (sym (run-append before _ x))
        (run-IsGone tid after _ never (rw named (left-IsGone tid _ (run accepts before x) raised)))

gone_is_default :
    (d : Sched) (tid : ℕ) (x : Threads × (ℕ → Sched)) → Holds d x → IsGone tid x → x.1 tid ≡ d
unfolding Holds IsGone wanted sched_of
gone_is_default d tid (t, os) h gone =
    h.0.1 tid ∙ ap (λ o. sched_of t (wanted t.is_boost_enabled o)) gone ∙ h.1

begins :
    (priority_min priority_max : ℕ) (own_sched : Option Sched) (os : ℕ → Sched)
    → ((n : ℕ) → os n ≡ (new priority_min priority_max own_sched).default_sched)
    → Holds
        (new priority_min priority_max own_sched).default_sched
        (new priority_min priority_max own_sched, os)
unfolding Holds new IsMap wanted find sched_of
begins priority_min priority_max own_sched os same = ((refl, same), refl)

-- If the system accepts all settings, and in the beginning every thread has the setting of the thread
-- that has made the object, then a thread that has told that it leaves, under a name that has a
-- priority, is not known and has the setting of the beginning, whatever all threads have told before,
-- and whatever they tell later, and however often the boost is turned on and off, as long as that
-- thread does not enter again.
pub left_has_default :
    (accepts : ℕ → Sched → Bool) (priority_min priority_max : ℕ) (own_sched : Option Sched)
    (os : ℕ → Sched) (before after : List Event) (tid : ℕ) (object : StatusObject)
    (owner : Option String) (name : String)
    → ((n : ℕ) (s : Sched) → accepts n s ≡ true)
    → ((n : ℕ) → os n ≡ (new priority_min priority_max own_sched).default_sched)
    → determine_thread_name object owner ≡ some name
    → task_name_to_priority name ≢ no_priority
    → enters tid after ≡ false
    → let (t, os') =
        run accepts
          (before ++ (receives tid (stream_status object leave owner) ∷ after))
          (new priority_min priority_max own_sched, os) in
      (find tid t.threads ≡ none) × (os' tid ≡ os tid)
unfolding IsGone
left_has_default accepts priority_min priority_max own_sched os before after tid object owner name
      accepted same named raised never =
    let gone =
      leaving-IsGone accepts before after tid object owner name
        (new priority_min priority_max own_sched, os) named raised never in
    (
      gone,
      gone_is_default _ tid _
            (run-Holds accepts accepted _ _ _ (begins priority_min priority_max own_sched os same))
            gone
          ∙ sym (same tid),
    )
