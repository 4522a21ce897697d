-- ===== src/Player/Progress/Once.antt =====
-- A progress is reported only if it has changed.
use streamplayer.Base.{
  ◌≡◌, refl, sym, ◌∙◌, ap, subst, ◌⊎◌, ◌∷◌, Bool, true, false, ◌&&◌, Bool-cases, inl, inr, none,
  some, Option-cases, eq→==,
}
use streamplayer.Buffering.{is_buffering}
use streamplayer.Item.{Item}
use streamplayer.Player.{
  Player, GstState, void_pending, null, ready, paused, playing, Seconds, invalid, undetermined, at,
  TimeData, emits_position_changed, emit,
}
use streamplayer.Player.Play.{Pipeline}
use streamplayer.Player.Progress.{
  same_seconds, update_position, report_change, report_progress_of, report_progress,
}

same_seconds_refl : (s : Seconds) → same_seconds s s ≡ true
unfolding same_seconds
same_seconds_refl invalid = refl
same_seconds_refl undetermined = refl
same_seconds_refl (at n) = eq→== n n refl

updated_twice :
    (g : Pipeline) (s : GstState) (t : TimeData)
    → update_position g s (update_position g s t) ≡ update_position g s t
unfolding update_position
updated_twice g playing t = refl
updated_twice g paused t = refl
updated_twice g ready t = refl
updated_twice g null t = refl
updated_twice g void_pending t = refl

-- The times that are shown are the same.
unfoldable Unchanged : Player → Type 0
Unchanged p =
    (same_seconds p.current_time.position_s p.previous_time.position_s
      && same_seconds p.current_time.duration_s p.previous_time.duration_s)
    ≡ true

stays : (i : Item) (p : Player) → Unchanged p → report_change i p ≡ p
unfolding report_change Unchanged
stays i p h = rw (h) refl

told : (i : Item) (p : Player) → Unchanged (report_change i p)
unfolding report_change Unchanged emit
told i p =
    elim (Bool-cases (
      same_seconds p.current_time.position_s p.previous_time.position_s
      && same_seconds p.current_time.duration_s p.previous_time.duration_s)) [
        | inl e ↦ rw (e) e
        | inr e ↦ rw (e) (
            rw
              (
                same_seconds_refl p.current_time.position_s,
                same_seconds_refl p.current_time.duration_s,
              )
              refl)
      ]

-- The times are shown.
abbrev shown : Item → Player → Player
shown i p =
    emit (emits_position_changed i.stream_id p.current_time.position_s p.current_time.duration_s)
      (record p { previous_time = p.current_time })

changed : (i : Item) (p : Player) → (report_change i p ≡ p) ⊎ (report_change i p ≡ shown i p)
unfolding report_change
changed i p =
    elim (Bool-cases (
      same_seconds p.current_time.position_s p.previous_time.position_s
      && same_seconds p.current_time.duration_s p.previous_time.duration_s)) [
        | inl e ↦ inl (rw e refl)
        | inr e ↦ inr (rw e refl)
      ]

abbrev updated : Pipeline → Player → Player
updated g p = record p { current_time = update_position g g.current_state p.current_time }

again :
    (g : Pipeline) (i : Item) (p q : Player)
    → report_change i (updated g p) ≡ q
    → q.current_time ≡ (updated g p).current_time
    → report_change i (updated g q) ≡ q
again g i p q e same =
    ap (λ t. report_change i (record q { current_time = t }))
      (ap (update_position g g.current_state) same
        ∙ updated_twice g g.current_state p.current_time
        ∙ sym same)
    ∙ stays i q (subst Unchanged e (told i (updated g p)))

-- What a report does, and a second one after it.
unfoldable Reported : Pipeline → Player → Player × Bool → Type 0
Reported g p r =
    (report_progress g r.0 ≡ r)
    × ((r.0.signals ≡ p.signals)
        ⊎ ((i : Item) × (p.current_stream ≡ some i)
            × (is_buffering p.stream_buffering_data ≡ false)
            × (r.0.signals
                ≡ emits_position_changed i.stream_id r.0.current_time.position_s
                    r.0.current_time.duration_s
                  ∷ p.signals)))

no_stream :
    (g : Pipeline) (p : Player) → p.current_stream ≡ none → Reported g p (report_progress g p)
unfolding Reported report_progress report_progress_of
no_stream g p e = rw (e, report_progress_of) (refl, inl refl)

waiting :
    (g : Pipeline) (p : Player) (i : Item)
    → p.current_stream ≡ some i
    → is_buffering p.stream_buffering_data ≡ true
    → Reported g p (report_progress g p)
unfolding Reported report_progress report_progress_of
waiting g p i e wait = simp (e, wait) (refl, inl refl)

-- The player after a report that is not put off.
unfoldable Told : Pipeline → Item → Player → Player → Type 0
Told g i p q =
    (q.current_stream ≡ some i)
    × (is_buffering q.stream_buffering_data ≡ false)
    × (q.current_time ≡ (updated g p).current_time)
    × ((q.signals ≡ p.signals)
        ⊎ (q.signals
            ≡ emits_position_changed i.stream_id q.current_time.position_s q.current_time.duration_s
              ∷ p.signals))

tells :
    (g : Pipeline) (p : Player) (i : Item)
    → p.current_stream ≡ some i
    → is_buffering p.stream_buffering_data ≡ false
    → Told g i p (report_change i (updated g p))
unfolding Told emit
tells g p i e quiet = elim (changed i (updated g p)) [
  | inl k ↦ subst (Told g i p) (sym k) (e, quiet, refl, inl refl)
  | inr k ↦ subst (Told g i p) (sym k) (e, quiet, refl, inr refl)
]

progress_of :
    (g : Pipeline) (p : Player) (i : Item)
    → p.current_stream ≡ some i
    → is_buffering p.stream_buffering_data ≡ false
    → report_progress g p ≡ (report_change i (updated g p), true)
unfolding report_progress report_progress_of
progress_of g p i e quiet = simp (e, quiet) refl

reporting :
    (g : Pipeline) (p : Player) (i : Item)
    → p.current_stream ≡ some i
    → is_buffering p.stream_buffering_data ≡ false
    → Reported g p (report_progress g p)
unfolding Reported Told
reporting g p i e quiet =
    let q = report_change i (updated g p) in
    let (here, no_wait, same, signals) = tells g p i e quiet in
    let twice = progress_of g q i here no_wait ∙ ap (λ r. (r, true)) (again g i p q refl same) in
    subst (Reported g p) (sym (progress_of g p i e quiet))
      (twice, elim signals [ inl k ↦ inl k | inr k ↦ inr (i, e, quiet, k) ])

-- A report of the progress emits at most one signal: the times that are shown then, for the stream that
-- is handled, and only while no data is awaited; and a second report changes nothing and emits nothing
-- as long as the pipeline says the same.
pub progress_reported_once :
    (g : Pipeline) (p : Player)
    → let r = report_progress g p in
      (report_progress g r.0 ≡ r)
      × ((r.0.signals ≡ p.signals)
          ⊎ ((i : Item) × (p.current_stream ≡ some i)
              × (is_buffering p.stream_buffering_data ≡ false)
              × (r.0.signals
                  ≡ emits_position_changed i.stream_id r.0.current_time.position_s
                      r.0.current_time.duration_s
                    ∷ p.signals)))
unfolding Reported
progress_reported_once g p = elim (Option-cases p.current_stream) [
  | inl e ↦ no_stream g p e
  | inr (i, e) ↦ elim (Bool-cases (is_buffering p.stream_buffering_data)) [
    | inl wait ↦ waiting g p i e wait
    | inr quiet ↦ reporting g p i e quiet
  ]
]
