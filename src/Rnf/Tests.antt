-- ===== src/Rnf/Tests.antt =====
-- Calls at concrete cookies.
use streamplayer.Base.{
  ℕ, ◌≡◌, ◌≢◌, refl, subst, inl, true, false, none, some, List, [], ◌∷◌, ◌==◌, All,
}
use streamplayer.Rnf.{
  ready_to_fetch, Request, Fetch, blocks, is_set, new, set_value, fetch_returned, fetch_unlocked,
  result_available_notification, abort_request, get_result_unlocked,
}
use streamplayer.Rnf.Steps.{
  Event, requests, fetches, is_available, aborts, abort_returns, reads, start, run, Honours,
}
use streamplayer.Rnf.Watch.{IsTold, watcher_hears}
use streamplayer.Rnf.Blocking.{result_never_blocks}
use streamplayer.Rnf.Abort.{waiting, ready_after_abort}

abbrev slow : Request ℕ
slow = record { returned = inl 5; set_to = none; manage_error = none; fast_path = λ c. (c, none) }

abbrev gives : ℕ → Fetch ℕ
gives cookie = record { thrown = none; set_to = some 42 }

-- An abort is overtaken by the notification and the fetch.
abbrev race : List (Event ℕ)
race =
    requests slow
    ∷ aborts false
    ∷ is_available 5
    ∷ fetches gives
    ∷ abort_returns (some true)
    ∷ reads
    ∷ []

slow_set : (cookie : ℕ) → slow.returned ≡ inl cookie → is_set slow.set_to ≡ (cookie == 0)
unfolding is_set
slow_set cookie e = let five : 5 ≡ cookie = cc in subst (λ n. false ≡ (n == 0)) five refl

gives_set : (cookie : ℕ) → (gives cookie).thrown ≡ none → is_set (gives cookie).set_to ≡ true
unfolding is_set
gives_set cookie e = refl

race-Honours : All Honours race
race-Honours = ((λ c. inl refl, slow_set), (tt, (tt, (gives_set, (tt, (tt, tt))))))

watcher_hears_example : IsTold (run race start).call
watcher_hears_example = watcher_hears race race-Honours

result_never_blocks_example : (get_result_unlocked (run race start).call).1 ≢ blocks
result_never_blocks_example = result_never_blocks race race-Honours

ready_after_abort_example :
    let (d, ok) = abort_request (some true) (waiting 5 (new {R = ℕ})) in
    let (e, bug) = result_available_notification 5 d in
    (ok ≡ true)
    × (bug ≡ false)
    × (e.state ≡ ready_to_fetch)
    × (fetch_unlocked gives e
        ≡ some (fetch_returned (gives 0) (gives 0).thrown (set_value (gives 0).set_to e)))
ready_after_abort_example = ready_after_abort 5 new gives refl
