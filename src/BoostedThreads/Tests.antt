-- ===== src/BoostedThreads/Tests.antt =====
-- Threads of a player that is boosted and throttled.
use streamplayer.Base.{ℕ, ◌≡◌, ◌≢◌, refl, Bool, true, false, none, some, List, [], ◌∷◌, ◌++◌}
use streamplayer.BoostedThreads.{Priority, Sched, no_priority, sched_other, new, find}
use streamplayer.BoostedThreads.Tuned.{
  Call, boosts, adds, removes, run, HasPriorities, run-HasPriorities,
}
use streamplayer.BoostedThreads.Status
use streamplayer.BoostedThreads.Status.{
  task_name_to_priority, enter, leave, destroy, g_thread, task, stream_status,
  determine_thread_name, Event, throttles, receives,
}
use streamplayer.BoostedThreads.Status.Leaving.{enters, left_has_default}

abbrev all_accepted : ℕ → Sched → Bool
all_accepted tid s = true

abbrev some_calls : List Call
some_calls = adds 4 Priority.high ∷ boosts ∷ adds 5 Priority.moderate ∷ removes 4 ∷ []

abbrev untouched : ℕ → Sched
untouched tid = record { policy = sched_other; priority = 0 }

is_default : (tid : ℕ) → untouched tid ≡ (new 1 99 none).default_sched
unfolding new
is_default tid = refl

run-HasPriorities_example :
    let (t, os) = run all_accepted some_calls (new 1 99 none, untouched) in HasPriorities t os
run-HasPriorities_example =
    run-HasPriorities all_accepted (λ tid s. refl) 1 99 none untouched some_calls is_default

-- The thread 4 enters and is boosted, leaves, and is destroyed.
abbrev told_before : List Event
told_before =
    receives 4 (stream_status (task (some "aqueue:src")) enter none)
    ∷ Status.boosts
    ∷ receives 5 (stream_status g_thread enter (some "audiosink-actual-sink-alsa"))
    ∷ []

abbrev told_after : List Event
told_after =
    throttles
    ∷ receives 5 (stream_status g_thread enter (some "audiosink-actual-sink-alsa"))
    ∷ Status.boosts
    ∷ receives 4 (stream_status (task (some "aqueue:src")) destroy none)
    ∷ []

has_name : determine_thread_name (task (some "aqueue:src")) none ≡ some "aqueue:src"
unfolding determine_thread_name
has_name = refl

is_raised : task_name_to_priority "aqueue:src" ≢ no_priority
unfolding task_name_to_priority
is_raised e = cc

no_return : enters 4 told_after ≡ false
unfolding enters
no_return = refl

left_has_default_example :
    let (t, os) =
      Status.run all_accepted
        (told_before
          ++ (receives 4 (stream_status (task (some "aqueue:src")) leave none) ∷ told_after))
        (new 1 99 none, untouched) in
    (find 4 t.threads ≡ none) × (os 4 ≡ untouched 4)
left_has_default_example =
    left_has_default all_accepted 1 99 none untouched told_before told_after 4
      (task (some "aqueue:src")) none "aqueue:src" (λ n s. refl) is_default has_name is_raised
      no_return
