-- ===== src/Item/Failure.antt =====
-- Item::fail(), Item::prefail() and the mark for a start of the pipeline: what callers are told
-- over a sequence of calls.
use streamplayer.Base.{
  ℕ, suc, ◌≡◌, refl, ◌↔◌, Bool, true, false, not, List, [], ◌∷◌, Bool-cases, ap, ◌∙◌, arith, inl,
  inr, if◌then◌else◌,
}
use streamplayer.Reasons.{Reason}
use streamplayer.Item.{
  Item, FailState, not_failed, failure_detected, is_unknown, prefail, fail, fail_from,
  disable_realtime, start_when, UrlState, resolving_link, when_ready, get_selected_url_state,
  is_pipeline_start_required, pipeline_start_required_when_ready,
}

pub data Call : Type 0 where
  fails realtime_off asks marks : Call
  prefails : Reason → Call

-- The item after a call, and whether the call was a first failure.
call : Call → Item → Item × Bool
call fails i = fail i
call (prefails reason) i = ((prefail reason i).0, false)
call realtime_off i = (disable_realtime i, false)
call asks i = ((is_pipeline_start_required i).0, false)
call marks i = ((pipeline_start_required_when_ready i).0, false)

-- The item after the calls, and how many of them were a first failure.
pub calls : List Call → Item → Item × ℕ
unfolding call
calls [] i = (i, 0)
calls (c ∷ cs) i =
    let (j, first) = call c i in let (k, n) = calls cs j in (k, if first then suc n else n)

pub has_fail : List Call → Bool
has_fail [] = false
has_fail (fails ∷ cs) = true
has_fail (_ ∷ cs) = has_fail cs

pub first_failures : FailState → Bool → ℕ
first_failures not_failed true = 1
first_failures not_failed false = 0
first_failures failure_detected _ = 0

pub last_state : FailState → Bool → FailState
last_state not_failed true = failure_detected
last_state not_failed false = not_failed
last_state failure_detected _ = failure_detected

pub first_known : Reason → List Call → Reason
unfolding is_unknown
first_known r [] = r
first_known r (prefails s ∷ cs) =
    let known = first_known r cs in
    let taken = first_known s cs in if is_unknown r then taken else known
first_known r (_ ∷ cs) = first_known r cs

first_failures_done : (b : Bool) → first_failures failure_detected b ≡ 0
unfolding first_failures
first_failures_done b = refl

first_known_kept : (r : Reason) (cs : List Call) → is_unknown r ≡ false → first_known r cs ≡ r
unfolding first_known
first_known_kept r [] h = refl
first_known_kept r (prefails s ∷ cs) h = rw h (first_known_kept r cs h)
first_known_kept r (fails ∷ cs) h = first_known_kept r cs h
first_known_kept r (realtime_off ∷ cs) h = first_known_kept r cs h
first_known_kept r (asks ∷ cs) h = first_known_kept r cs h
first_known_kept r (marks ∷ cs) h = first_known_kept r cs h

none_yet : (s : FailState) → 0 ≡ first_failures s false
unfolding first_failures
none_yet not_failed = refl
none_yet failure_detected = refl

kept : (s : FailState) → s ≡ last_state s false
unfolding last_state
kept not_failed = refl
kept failure_detected = refl

-- What the calls do, for an item given by its failure state and first reason.
abbrev pub Told : List Call → Item → Type 0
Told cs i =
    ((calls cs i).1 ≡ first_failures i.fail_state (has_fail cs))
    × ((calls cs i).0.fail_state ≡ last_state i.fail_state (has_fail cs))
    × ((calls cs i).0.prefail_reason ≡ first_known i.prefail_reason cs)

Told-fail :
    (cs : List Call) (i : Item) (s : FailState)
    → i.fail_state ≡ s
    → Told cs (fail_from s i).0
    → Told (fails ∷ cs) i
unfolding calls call fail fail_from first_failures last_state has_fail first_known
Told-fail cs i not_failed e (n, f, r) = simp e (ap suc n, f, r)
Told-fail cs i failure_detected e (n, f, r) =
    simp e (
      n ∙ ap (λ s. first_failures s (has_fail cs)) e,
      f ∙ ap (λ s. last_state s (has_fail cs)) e,
      r,
    )

-- Over any sequence of calls an item reports its failure once: exactly one call of `fail` does so
-- if the item had not failed and there is such a call, and otherwise none does; the item has failed
-- in the end if it had failed or there was such a call. Of the reasons for a failure that is
-- expected, the first that is known is kept.
pub told : (cs : List Call) (i : Item) → Told cs i
unfolding calls call has_fail first_failures last_state first_known prefail disable_realtime
    is_pipeline_start_required pipeline_start_required_when_ready fail
told [] i = (none_yet i.fail_state, kept i.fail_state, refl)
told (fails ∷ cs) i = Told-fail cs i _ refl (told cs (fail_from i.fail_state i).0)
told (prefails reason ∷ cs) i = elim (Bool-cases (is_unknown i.prefail_reason)) [
  | inl free ↦ rw free (told cs (record i { prefail_reason = reason }))
  | inr taken ↦ rw taken (told cs i)
]
told (realtime_off ∷ cs) i = told cs (disable_realtime i)
told (asks ∷ cs) i = told cs (is_pipeline_start_required i).0
told (marks ∷ cs) i = told cs (pipeline_start_required_when_ready i).0

not_iff : (b : Bool) → (not b ≡ true) ↔ (b ≡ false)
not_iff b = ground arith

when_ready_iff : (s : UrlState) → (start_when s ≡ when_ready) ↔ (s ≡ resolving_link)
unfolding start_when
when_ready_iff s = ground arith

-- An item that is marked for a start of the pipeline says so once: the first question after the
-- mark is answered by yes and takes the mark off, the next one by no. The report of an item that
-- is marked twice is made exactly if the item is marked for the first time.
pub mark_asked_once :
    (i : Item)
    → let (j, required, reported) = pipeline_start_required_when_ready i in
      let (k, first) = is_pipeline_start_required j in
      (first ≡ true)
      × ((is_pipeline_start_required k).1 ≡ false)
      × ((reported ≡ true) ↔ (i.pipeline_start_required_after_resolve ≡ false))
      × ((required ≡ when_ready) ↔ (get_selected_url_state i ≡ resolving_link))
unfolding pipeline_start_required_when_ready is_pipeline_start_required start_when
mark_asked_once i = (
  refl,
  refl,
  not_iff i.pipeline_start_required_after_resolve,
  when_ready_iff (get_selected_url_state i),
)
