-- ===== src/CookieCall/Tests.antt =====
-- A managed call for the cookie 5.
use streamplayer.Base.{ℕ, ◌≡◌, refl, Bool, true, false, inl, Option, none, some, [], ◌∷◌}
use streamplayer.Rnf.{
  wait_for_notification, result_fetched, aborted_by_peer, failed, Fetch, get_result_unlocked,
  result, thrown, aborted_error,
}
use streamplayer.Cookies.{PendingCookies, new, find, data_available, data_error}
use streamplayer.CookieCall.{Function, World, invoke, cookie_request}
use streamplayer.CookieCall.Completes.{IsFree, fresh, completes, failures_are_told}

abbrev gives : ℕ → Fetch ℕ
gives cookie = record { thrown = none; set_to = some 42 }

abbrev throws : ℕ → Fetch ℕ
throws cookie = record { thrown = some "timeout"; set_to = none }

abbrev is_error : Option ℕ → Bool
is_error none = false
is_error (some raw) = true

is_free : IsFree 5 new
unfolding find new
is_free = (refl, refl)

completes_example :
    (q : PendingCookies Function) × (w : World ℕ) × (v : World ℕ) × (cookie_request
        (inl 5)
        none
        (new, fresh)
      ≡ some (q, w, wait_for_notification))
    × (data_available (invoke gives is_error) (5 ∷ []) (q, w) ≡ (new, v))
    × (v.notifications ≡ result_fetched ∷ [])
    × ((get_result_unlocked v.call).1 ≡ result 42)
completes_example = completes gives is_error 5 new 42 refl is_free refl refl

failures_are_told_example :
    ((q : PendingCookies Function) × (w : World ℕ) × (v : World ℕ) × (cookie_request
          (inl 5)
          none
          (new, fresh)
        ≡ some (q, w, wait_for_notification))
      × (data_available (invoke throws is_error) (5 ∷ []) (q, w) ≡ (new, v))
      × (v.notifications ≡ failed ∷ [])
      × ((get_result_unlocked v.call).1 ≡ thrown "timeout"))
    × ((q : PendingCookies Function) × (w : World ℕ) × (v : World ℕ) × (cookie_request
            (inl 5)
            none
            (new, fresh)
          ≡ some (q, w, wait_for_notification))
        × (data_error (invoke throws is_error) ((5, 3) ∷ []) (q, w) ≡ (new, v))
        × (v.notifications ≡ aborted_by_peer ∷ [])
        × (v.list_error ≡ some 3)
        × (get_result_unlocked v.call ≡ (v.call, aborted_error)))
failures_are_told_example =
    failures_are_told throws is_error 5 3 new "timeout" refl is_free refl refl refl
