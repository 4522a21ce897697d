-- ===== src/Cookies/Once.antt =====
-- Each cookie that is stored is finished once.
use streamplayer.Base.{
  ℕ, suc, ◌≤◌, ◌≡◌, refl, sym, ◌∙◌, ap, subst, Bool, true, false, Option, none, some, List, [], ◌∷◌,
  arith, ◌==◌, ==_iff, Bool-cases, Option-cases, if◌then◌else◌, inl, inr, eq→==, none_not_some,
}
use streamplayer.Cookies.{find, erase, emplace, PendingCookies, new, add, available, finish}

pub data Event (F : Type 0) : Type 0 where
  adds : ℕ → F → F → Event F
  becomes_available finishes : ℕ → Event F

-- Of one cookie: how often it was stored, and the functions that were called to finish it, the
-- latest first.
pub record Trace (F : Type 0) : Type 0 where
  pub pending : PendingCookies F
  pub stored : List F
  pub called : List F

suc_not_zero : (n : ℕ) → suc n ≡ 0 → ⊥
suc_not_zero n e = omega (arith, e)

different : (k n l : ℕ) → (k == n) ≡ false → (n == l) ≡ true → (k == l) ≡ false
different k n l h e = ground arith

module _ {F : Type 0} where
  finished : Bool → PendingCookies F × Option F → Trace F → Trace F
  finished mine (p, none) t = record t { pending = p }
  finished mine (p, some f) t = record t {
    pending = p;
    called = if mine then f ∷ t.called else t.called;
  }

  pub step : ℕ → Event F → Trace F → Trace F
  unfolding finished
  step k (adds n notify_fn fetch_fn) t =
      let (p, added) = add n notify_fn fetch_fn t.pending in
      record t {
        pending = p;
        stored = if added then (if k == n then fetch_fn ∷ t.stored else t.stored) else t.stored;
      }
  step k (becomes_available n) t = record t { pending = (available n t.pending).0 }
  step k (finishes n) t = finished (k == n) (finish n t.pending) t

  pub run : ℕ → List (Event F) → Trace F → Trace F
  run k [] t = t
  run k (e ∷ es) t = run k es (step k e t)

  pub start : Trace F
  unfolding new
  start = record { pending = new; stored = []; called = [] }

  -- What is left of the stored functions.
  pub waiting : Option F → List F → List F
  waiting none called = called
  waiting (some f) called = f ∷ called

  -- How many entries there are for a cookie.
  entries : ℕ → List (ℕ × F) → ℕ
  entries k [] = 0
  entries k ((n, f) ∷ m) = let rest = entries k m in if k == n then suc rest else rest

  entries_same :
      (k n : ℕ) (f : F) (m : List (ℕ × F))
      → (k == n) ≡ true
      → entries k ((n, f) ∷ m) ≡ suc (entries k m)
  unfolding entries
  entries_same k n f m e = rw e refl

  entries_other :
      (k n : ℕ) (f : F) (m : List (ℕ × F)) → (k == n) ≡ false → entries k ((n, f) ∷ m) ≡ entries k m
  unfolding entries
  entries_other k n f m e = rw e refl

  pub find_same :
      (k n : ℕ) (f : F) (m : List (ℕ × F)) → (k == n) ≡ true → find k ((n, f) ∷ m) ≡ some f
  unfolding find
  find_same k n f m e = rw e refl

  find_other :
      (k n : ℕ) (f : F) (m : List (ℕ × F)) → (k == n) ≡ false → find k ((n, f) ∷ m) ≡ find k m
  unfolding find
  find_other k n f m e = rw e refl

  entries_none : (k : ℕ) (m : List (ℕ × F)) → entries k m ≡ 0 → find k m ≡ none
  unfolding entries find
  entries_none k [] h = refl
  entries_none k ((n, f) ∷ m) h = elim (Bool-cases (k == n)) [
    | inl same ↦ elim (suc_not_zero _ (sym (entries_same k n f m same) ∙ h)) [ ]
    | inr other ↦ rw other (entries_none k m (sym (entries_other k n f m other) ∙ h))
  ]

  none_entries : (k : ℕ) (m : List (ℕ × F)) → find k m ≡ none → entries k m ≡ 0
  unfolding entries find
  none_entries k [] h = refl
  none_entries k ((n, f) ∷ m) h = elim (Bool-cases (k == n)) [
    | inl same ↦ elim (none_not_some (sym h ∙ find_same k n f m same)) [ ]
    | inr other ↦ rw other (none_entries k m (sym (find_other k n f m other) ∙ h))
  ]

  other_find : (k n : ℕ) (m : List (ℕ × F)) → (k == n) ≡ false → find k (erase n m) ≡ find k m
  unfolding find erase
  other_find k n [] h = refl
  other_find k n ((l, f) ∷ m) h = elim (Bool-cases (n == l)) [
    | inl same ↦ rw (same, different k n l h same) refl
    | inr other ↦ rw other (ap (λ o. if k == l then some f else o) (other_find k n m h))
  ]

  other_entries :
      (k n : ℕ) (m : List (ℕ × F)) → (k == n) ≡ false → entries k (erase n m) ≡ entries k m
  unfolding entries erase
  other_entries k n [] h = refl
  other_entries k n ((l, f) ∷ m) h = elim (Bool-cases (n == l)) [
    | inl same ↦ rw (same, different k n l h same) refl
    | inr other ↦ rw other (ap (λ o. if k == l then suc o else o) (other_entries k n m h))
  ]

  erased_entries : (k : ℕ) (m : List (ℕ × F)) → entries k m ≤ 1 → entries k (erase k m) ≡ 0
  unfolding entries erase
  erased_entries k [] h = refl
  erased_entries k ((n, f) ∷ m) h = elim (Bool-cases (k == n)) [
    | inl same ↦ rw same (omega (arith, subst (λ l. l ≤ 1) (entries_same k n f m same) h))
    | inr other ↦
        rw (other, other) (erased_entries k m (subst (λ l. l ≤ 1) (entries_other k n f m other) h))
  ]

  -- At most one entry for the cookie, and the functions that have been stored are those that have
  -- been called and the one that waits.
  abbrev IsSound : ℕ → Trace F → Type 0
  IsSound k t =
      (entries k t.pending.fetch_functions ≤ 1)
      × (t.stored ≡ waiting (find k t.pending.fetch_functions) t.called)

  pub emplace_new :
      (n : ℕ) (f : F) (m : List (ℕ × F)) → find n m ≡ none → emplace n f m ≡ ((n, f) ∷ m, true)
  unfolding emplace
  emplace_new n f m e = rw (e, emplace) refl

  emplace_old :
      (n : ℕ) (f g : F) (m : List (ℕ × F)) → find n m ≡ some g → emplace n f m ≡ (m, false)
  unfolding emplace
  emplace_old n f g m e = rw (e, emplace) refl

  erased_find : (k : ℕ) (m : List (ℕ × F)) → entries k m ≤ 1 → find k (erase k m) ≡ none
  erased_find k m one = entries_none k (erase k m) (erased_entries k m one)

  pub erased_first : (k : ℕ) (f : F) (m : List (ℕ × F)) → erase k ((k, f) ∷ m) ≡ m
  unfolding erase
  erased_first k f m = rw (eq→== k k refl) refl

  adds_same :
      (k : ℕ) (f g : F) (t : Trace F)
      → find k t.pending.fetch_functions ≡ none
      → IsSound k t
      → IsSound k (step k (adds k f g) t)
  unfolding step add waiting
  adds_same k f g t free (one, h) =
      let m = t.pending.fetch_functions in
      simp
        (
          emplace_new k g m free,
          eq→== k k refl,
          entries_same k k g m (eq→== k k refl),
          find_same k k g m (eq→== k k refl),
        )
        (
          omega (arith, none_entries k m free),
          ap (λ l. g ∷ l) (h ∙ ap (λ o. waiting o t.called) free),
        )

  adds-IsSound : (k n : ℕ) (f g : F) (t : Trace F) → IsSound k t → IsSound k (step k (adds n f g) t)
  unfolding step add
  adds-IsSound k n f g t (one, h) =
      let m = t.pending.fetch_functions in
      elim (Option-cases (find n m)) [
        | inr (old, e) ↦ simp (emplace_old n g old m e) (one, h)
        | inl free ↦ elim (Bool-cases (k == n)) [
          | inl same ↦
              subst (λ l. IsSound k (step k (adds l f g) t)) ((==_iff k n).0 same)
                (adds_same k f g t (subst (λ l. find l m ≡ none) (sym ((==_iff k n).0 same)) free)
                  (one, h))
          | inr other ↦
              simp
                (
                  emplace_new n g m free,
                  other,
                  entries_other k n g m other,
                  find_other k n g m other,
                )
                (one, h)
        ]
      ]

  finish_found :
      (k : ℕ) (o : Option F) (p : PendingCookies F)
      → find k p.fetch_functions ≡ o
      → finish k p ≡ (record p { fetch_functions = erase k p.fetch_functions }, o)
  unfolding finish
  finish_found k o p e = λ i. (record p { fetch_functions = erase k p.fetch_functions }, e i)

  finishes_same : (k : ℕ) (t : Trace F) → IsSound k t → IsSound k (step k (finishes k) t)
  unfolding step waiting
  finishes_same k t (one, h) =
      let m = t.pending.fetch_functions in
      elim (Option-cases (find k m)) [
        | inl free ↦
            simp (finish_found k none t.pending free, erased_find k m one)
              (omega (arith, erased_entries k m one), h ∙ ap (λ o. waiting o t.called) free)
        | inr (f, e) ↦
            simp (finish_found k (some f) t.pending e, eq→== k k refl, erased_find k m one)
              (omega (arith, erased_entries k m one), h ∙ ap (λ o. waiting o t.called) e)
      ]

  finishes_other :
      (k n : ℕ) (t : Trace F) → (k == n) ≡ false → IsSound k t → IsSound k (step k (finishes n) t)
  unfolding step waiting
  finishes_other k n t other (one, h) =
      let m = t.pending.fetch_functions in
      elim (Option-cases (find n m)) [
        | inl free ↦
            simp
              (
                finish_found n none t.pending free,
                other_find k n m other,
                other_entries k n m other,
              )
              (one, h)
        | inr (f, e) ↦
            simp
              (
                finish_found n (some f) t.pending e,
                other,
                other_find k n m other,
                other_entries k n m other,
              )
              (one, h)
      ]

  step-IsSound : (k : ℕ) (e : Event F) (t : Trace F) → IsSound k t → IsSound k (step k e t)
  unfolding step available
  step-IsSound k (adds n f g) t h = adds-IsSound k n f g t h
  step-IsSound k (becomes_available n) t h = h
  step-IsSound k (finishes n) t h = elim (Bool-cases (k == n)) [
    | inl same ↦
        subst (λ l. IsSound k (step k (finishes l) t)) ((==_iff k n).0 same) (finishes_same k t h)
    | inr other ↦ finishes_other k n t other h
  ]

  run-IsSound : (k : ℕ) (es : List (Event F)) (t : Trace F) → IsSound k t → IsSound k (run k es t)
  unfolding run
  run-IsSound k [] t h = h
  run-IsSound k (e ∷ es) t h = run-IsSound k es (step k e t) (step-IsSound k e t h)

  -- For each cookie, however often it is stored, notified and finished, the fetch functions that
  -- have been stored are, in order, those that have been called and the one that still waits, if
  -- there is one: each is called once at most, and a cookie that is stored already is not stored
  -- again.
  pub finished_once :
      (k : ℕ) (es : List (Event F))
      → let t = run k es start in t.stored ≡ waiting (find k t.pending.fetch_functions) t.called
  unfolding start new entries find waiting
  finished_once k es = (run-IsSound k es start (omega arith, refl)).1

  -- A cookie that is stored again after it has become available and before it has been finished is
  -- refused as a duplicate, but its new notification function is stored all the same, while the
  -- fetch function stays the old one.
  pub duplicate_mixes :
      (k : ℕ) (f g f' g' : F) (p : PendingCookies F)
      → find k p.notification_functions ≡ none
      → find k p.fetch_functions ≡ none
      → let q = (available k (add k f g p).0).0 in
        let (r, added) = add k f' g' q in
        (added ≡ false)
        × (find k r.notification_functions ≡ some f')
        × (find k r.fetch_functions ≡ some g)
  unfolding add available
  duplicate_mixes k f g f' g' p free free_fetch =
      let same = eq→== k k refl in
      simp
        (
          emplace_new k f p.notification_functions free,
          emplace_new k g p.fetch_functions free_fetch,
          erased_first k f p.notification_functions,
          emplace_new k f' p.notification_functions free,
          emplace_old k g' g ((k, g) ∷ p.fetch_functions) (find_same k k g p.fetch_functions same),
          find_same k k g p.fetch_functions same,
          find_same k k f' p.notification_functions same,
        )
        (refl, refl, refl)
