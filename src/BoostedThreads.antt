-- ===== src/BoostedThreads.antt =====
-- The threads whose priority is raised while a stream plays, src/boosted_threads.hh and
-- src/boosted_threads.cc (class BoostedThreads::Threads).
-- A thread is its ID, and the map of the known ones an association list with one entry for an ID; the
-- names of threads, which are only logged, are left out. What the operating system has set for each
-- thread is a function; whether it accepts a setting is a parameter, and so are the range of its
-- priorities and what it says of the thread that makes the object. An enumerator that is out of range
-- cannot occur, and asserts change nothing.
pub mod Tuned
pub mod Status
mod Tests
use streamplayer.Base.{
  ℕ, ◌-◌, Bool, true, false, Option, none, some, List, [], ◌∷◌, ◌==◌, if◌then◌else◌,
}

pub data Priority : Type 0 where
  highest high moderate no_priority : Priority

pub data Policy : Type 0 where
  sched_other sched_rr : Policy
  other_policy : ℕ → Policy

-- What pthread_setschedparam() is given.
pub record Sched : Type 0 where
  pub policy : Policy
  pub priority : ℕ

pub record Threads : Type 0 where
  pub default_sched : Sched
  pub boosted_sched_policy : Policy
  pub boosted_sched_priorities : ℕ × ℕ × ℕ
  pub threads : List (ℕ × Priority)
  pub is_boost_enabled : Bool

-- The setting of the thread, `none` if it cannot be read.
unfoldable pub new : ℕ → ℕ → Option Sched → Threads
new priority_min priority_max own_sched = record {
  default_sched = elim own_sched [
    | none ↦ record { policy = sched_other; priority = 0 }
    | some s ↦ s
  ];
  boosted_sched_policy = sched_rr;
  boosted_sched_priorities = (priority_max, priority_max - 1, priority_min);
  threads = [];
  is_boost_enabled = false;
}

unfoldable pub sched_of : Threads → Priority → Sched
sched_of t highest = record {
  policy = t.boosted_sched_policy;
  priority = t.boosted_sched_priorities.0;
}
sched_of t high = record {
  policy = t.boosted_sched_policy;
  priority = t.boosted_sched_priorities.1;
}
sched_of t moderate = record {
  policy = t.boosted_sched_policy;
  priority = t.boosted_sched_priorities.2;
}
sched_of t no_priority = t.default_sched

unfoldable pub find : ℕ → List (ℕ × Priority) → Option Priority
find tid [] = none
find tid ((n, prio) ∷ m) = let rest = find tid m in if tid == n then some prio else rest

unfoldable pub erase : ℕ → List (ℕ × Priority) → List (ℕ × Priority)
erase tid [] = []
erase tid ((n, prio) ∷ m) = let rest = erase tid m in if tid == n then rest else (n, prio) ∷ rest

unfoldable pub set_sched : ℕ → Sched → (ℕ → Sched) → ℕ → Sched
set_sched tid s os t = if t == tid then s else os t

module _ (accepts : ℕ → Sched → Bool) where
  unfoldable pub configure_thread : Threads → ℕ → Priority → (ℕ → Sched) → ℕ → Sched
  configure_thread t tid prio os =
      let s = sched_of t prio in if accepts tid s then set_sched tid s os else os

  -- The loops of boost() and of throttle(), which takes the priority away.
  unfoldable pub configure_all : Bool → Threads → List (ℕ × Priority) → (ℕ → Sched) → ℕ → Sched
  configure_all boosts t [] os = os
  configure_all boosts t ((tid, prio) ∷ m) os =
      configure_all boosts t m (configure_thread t tid (if boosts then prio else no_priority) os)

  unfoldable pub boost : Threads × (ℕ → Sched) → Threads × (ℕ → Sched)
  boost (t, os) =
      if t.is_boost_enabled
      then (t, os)
      else (record t { is_boost_enabled = true }, configure_all true t t.threads os)

  unfoldable pub throttle : Threads × (ℕ → Sched) → Threads × (ℕ → Sched)
  throttle (t, os) =
      if t.is_boost_enabled
      then (record t { is_boost_enabled = false }, configure_all false t t.threads os)
      else (t, os)

  unfoldable pub add_self : ℕ → Priority → Threads × (ℕ → Sched) → Threads × (ℕ → Sched)
  add_self tid prio (t, os) = (
    record t { threads = (tid, prio) ∷ erase tid t.threads },
    configure_thread t tid (if t.is_boost_enabled then prio else no_priority) os,
  )

  unfoldable pub remove_self : ℕ → Threads × (ℕ → Sched) → Threads × (ℕ → Sched)
  remove_self tid (t, os) =
      (record t { threads = erase tid t.threads }, configure_thread t tid no_priority os)
