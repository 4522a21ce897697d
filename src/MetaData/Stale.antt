-- ===== src/MetaData/Stale.antt =====
-- A timer that is left over when a stream is announced.
use streamplayer.Base.{
  ℕ, ◌+◌, ◌-◌, ◌*◌, ◌/◌, ◌≤◌, ◌<◌, ◌≡◌, refl, ◌∙◌, ap, true, false, some, List, [], ◌∷◌, ◌==◌,
  eq→==, arith, Bool-cases, inl, inr, le→leb, lt→leb_false,
}
use streamplayer.MetaData.{
  World, meta_data_changed, now_playing, is_due, is_added, try_emit_tags, timer_activated,
  emit_now_playing, emitted_tags_now_playing, try_emit_for_stream_id, emit_tags, emit_tags_of,
  timed_emit_tags, added, handle_tag_of, handle_tag, handle, run, passes, announces, tags, fires,
}

-- The timer of an update that is scheduled.
abbrev pub timer_for : World → ℕ
timer_for w = w.now + (w.md_update.next_allowed_tag_update_time - w.now) / 1_000_000 * 1_000_000

-- Tags come too early after others.
pub record IsCoolingDown (w : World) (id : ℕ) : Type 0 where
  pub has_stream : w.current_stream ≡ some id
  pub not_scheduled : w.md_update.is_update_scheduled ≡ false
  pub too_early : w.now < w.md_update.next_allowed_tag_update_time

module _ (invalid_id : ℕ) where
  scheduled :
      (w : World) (id : ℕ)
      → IsCoolingDown w id
      → handle_tag invalid_id w ≡ record w {
        md_update = record w.md_update { is_update_scheduled = true };
        timers = timer_for w ∷ w.timers;
      }
  unfolding handle_tag handle_tag_of try_emit_tags added
  scheduled w id c =
      simp
        (
          c.has_stream,
          c.not_scheduled,
          lt→leb_false w.md_update.next_allowed_tag_update_time w.now c.too_early,
        )
        refl

  -- The world after the announcement of another stream, with its own update scheduled.
  abbrev announced : World → ℕ → ℕ → World
  announced w id time =
      let w' = record w { now = w.now + time; timers = timer_for w ∷ w.timers } in
      emit_now_playing id w'

  added_second : (t u : ℕ) (ts : List ℕ) → is_added t (u ∷ t ∷ ts) ≡ true
  unfolding is_added
  added_second t u ts = elim (Bool-cases (t == u)) [
    | inl e ↦ rw e refl
    | inr e ↦ rw (e, eq→== t t refl) refl
  ]

  fired :
      (w : World) (timer id : ℕ)
      → w.md_update.is_update_scheduled ≡ true
      → w.current_stream ≡ some id
      → w.md_update.current_stream_id ≡ id
      → (id == invalid_id) ≡ false
      → (timed_emit_tags invalid_id timer w).emissions ≡ meta_data_changed w.now id ∷ w.emissions
  unfolding timed_emit_tags timer_activated emit_tags_of emit_tags try_emit_for_stream_id
  fired w timer id planned here same valid =
      simp (planned, here, same, eq→== id id refl, valid) refl

  fires_now :
      (w : World) (timer : ℕ)
      → is_added timer w.timers ≡ true
      → timer ≤ w.now
      → handle invalid_id (fires timer) w ≡ timed_emit_tags invalid_id timer w
  unfolding handle is_due
  fires_now w timer here late = simp (here, le→leb timer w.now late) refl

  -- Tags that come too early after others schedule an update; if another stream is announced before the
  -- timer fires, and its tags come too early as well, then the timer, once it is due, emits the tags of
  -- the new stream, however little time has passed since the announcement.
  pub stale_timer_emits :
      (w : World) (id id' before after : ℕ)
      → IsCoolingDown w id
      → (id' == invalid_id) ≡ false
      → timer_for w ≤ w.now + before + after
      → (run invalid_id
          (tags ∷ passes before ∷ announces id' ∷ tags ∷ passes after ∷ fires (timer_for w) ∷ [])
          w).emissions
        ≡ meta_data_changed (w.now + before + after) id'
          ∷ now_playing (w.now + before) id'
          ∷ w.emissions
  unfolding run handle emit_now_playing emitted_tags_now_playing
  stale_timer_emits w id id' before after c valid late =
      let w3 = announced w id' before in
      let w5 = record w3 {
        md_update = record w3.md_update { is_update_scheduled = true };
        now = w3.now + after;
        timers = timer_for w3 ∷ w3.timers;
      } in
      let cooling : IsCoolingDown w3 id' = record {
        has_stream = refl;
        not_scheduled = refl;
        too_early = omega arith;
      } in
      ap
        (λ v.
          (handle invalid_id (fires (timer_for w)) (
            handle invalid_id (passes after) (
              handle_tag invalid_id
                (emit_now_playing id' (record v { now = v.now + before }))))).emissions)
        (scheduled w id c)
      ∙ ap
          (λ v.
            (handle invalid_id (fires (timer_for w)) (record v { now = v.now + after })).emissions)
          (scheduled w3 id' cooling)
      ∙ ap (λ v. v.emissions)
          (fires_now w5 (timer_for w) (added_second (timer_for w) (timer_for w3) w.timers) late)
      ∙ fired w5 (timer_for w) id' refl refl refl valid
