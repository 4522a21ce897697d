-- ===== src/Player/Seeking/Within.antt =====
-- The positions that are sought.
use Prim.Native.String.{String}
use streamplayer.Base.{
  ℕ, ◌+◌, ◌*◌, ◌%◌, ◌^◌, ◌≤◌, ◌<◌, ◌≡◌, refl, ◌⊎◌, inl, inr, Bool, true, false, Bool-cases, Option,
  none, some, Option-cases, ◌∷◌, ltb, arith,
}
use streamplayer.Buffering.{is_buffering, set_buffer_level}
use streamplayer.Item.{Item, is_network_stream}
use streamplayer.Player.{Player, GstState, void_pending, null, ready, paused, playing}
use streamplayer.Player.Play.{
  Pipeline, do_encourage_buffering, encourage, handle_buffer_underrun, underrun, set_stream_state,
  is_paused,
}
use streamplayer.Player.Seeking.{do_seek, to_int64, position_in_ns, seek_to, seek_within, seek}

-- By whether the seek is said to have been done: the pipeline has been asked, last, for a position
-- within the duration, or it has been asked for nothing or for such a position, which it has refused.
unfoldable Sought : ℕ → Player → Player × Bool → Type 0
Sought duration p r =
    ((r.1 ≡ false) × (r.0 ≡ p))
    ⊎ ((position : ℕ) × (position ≤ duration) × (r.0.asked_seeks ≡ position ∷ p.asked_seeks))

underrun-seeks :
    (g : Pipeline) (s : GstState) (p : Player) → (underrun g s p).asked_seeks ≡ p.asked_seeks
unfolding underrun set_stream_state
underrun-seeks g playing p = elim (Bool-cases (is_paused g.current_state)) [
  | inl e ↦ rw e refl
  | inr e ↦ rw e refl
]
underrun-seeks g paused p = refl
underrun-seeks g void_pending p = refl
underrun-seeks g null p = refl
underrun-seeks g ready p = refl

encouraged-seeks :
    (g : Pipeline) (o : Option Item) (p : Player) → (encourage g o p).asked_seeks ≡ p.asked_seeks
unfolding encourage handle_buffer_underrun
encouraged-seeks g none p = refl
encouraged-seeks g (some i) p = elim (Bool-cases (is_network_stream i)) [
  | inl e ↦ rw e (elim (Bool-cases (is_buffering (set_buffer_level 0 p.stream_buffering_data).0)) [
    | inl w ↦ rw w refl
    | inr w ↦ rw w (underrun-seeks g g.target_state _)
  ])
  | inr e ↦ rw e refl
]

seek_to-Sought : (g : Pipeline) (d n : ℕ) (p : Player) → Sought d p (seek_to g d (some n) p)
unfolding Sought seek_to do_seek do_encourage_buffering
seek_to-Sought g d n p = elim (Bool-cases (ltb d n)) [
  | inl e ↦ rw e (inl (refl, refl))
  | inr e ↦ rw e (elim (Bool-cases g.accepts_seek) [
    | inl a ↦ simp a (inr (n, within e, encouraged-seeks g p.current_stream _))
    | inr a ↦ simp a (inr (n, within e, refl))
  ])
]
  where
    within : ltb d n ≡ false → n ≤ d
    within e = ground arith

-- A seek for a stream whose duration the pipeline says: either nothing happens and the seek is said to
-- have failed, or the pipeline has been asked for exactly one further position, which lies within the
-- duration, whether it has accepted it or not.
pub seek_within_duration :
    (scale : ℕ → ℕ → ℕ → ℕ) (g : Pipeline) (position : Option ℕ) (units : String) (duration : ℕ)
    (p : Player)
    → g.seek_duration_ns ≡ some duration
    → let r = seek scale g true position units p in
      ((r.1 ≡ false) × (r.0 ≡ p))
      ⊎ ((n : ℕ) × (n ≤ duration) × (r.0.asked_seeks ≡ n ∷ p.asked_seeks))
unfolding seek seek_within Sought seek_to
seek_within_duration scale g none units duration p e = inl (refl, refl)
seek_within_duration scale g (some n) units duration p e =
    simp e (sought scale g n units duration p)
  where
    sought :
        (scale : ℕ → ℕ → ℕ → ℕ) (g : Pipeline) (n : ℕ) (units : String) (d : ℕ) (p : Player)
        → Sought d p (seek_to g d (position_in_ns scale n units d) p)
    sought scale g n units d p = elim (Option-cases (position_in_ns scale n units d)) [
      | inl k ↦ rw (k, seek_to) (inl (refl, refl))
      | inr (m, k) ↦ rw k (seek_to-Sought g d m p)
    ]

whole : (n : ℕ) → n ≤ 18_446_744_073 → n * 1_000_000_000 % 2 ^ 64 ≡ n * 1_000_000_000
whole n small = omega arith

exact : (n : ℕ) → n ≤ 9_223_372_036 → to_int64 (n * 1_000_000_000) ≡ some (n * 1_000_000_000)
unfolding to_int64
exact n small = simp (whole n (omega arith), fits) refl
  where
    fits : ltb (n * 1_000_000_000) (2 ^ 63) ≡ true
    fits = ground arith

refused : (n : ℕ) → 9_223_372_036 < n → n ≤ 18_446_744_073 → to_int64 (n * 1_000_000_000) ≡ none
unfolding to_int64
refused n large small = simp (whole n small, exceeds) refl
  where
    exceeds : ltb (n * 1_000_000_000) (2 ^ 63) ≡ false
    exceeds = ground arith

wraps : (n : ℕ) → to_int64 ((n + 2 ^ 55) * 1_000_000_000) ≡ to_int64 (n * 1_000_000_000)
unfolding to_int64
wraps n = simp (same) refl
  where
    same : (n + 2 ^ 55) * 1_000_000_000 % 2 ^ 64 ≡ n * 1_000_000_000 % 2 ^ 64
    same = omega arith

-- A position in seconds: up to 9223372036 it is sought as it is, from there to 18446744073 it is refused,
-- and 2 to the power of 55 seconds more, which a client may ask for too, are the same position.
pub seconds_in_range :
    (scale : ℕ → ℕ → ℕ → ℕ) (n duration : ℕ)
    → (n ≤ 9_223_372_036 → position_in_ns scale n "s" duration ≡ some (n * 1_000_000_000))
      × (9_223_372_036 < n → n ≤ 18_446_744_073 → position_in_ns scale n "s" duration ≡ none)
      × (position_in_ns scale (n + 2 ^ 55) "s" duration ≡ position_in_ns scale n "s" duration)
unfolding position_in_ns
seconds_in_range scale n duration = (exact n, refused n, wraps n)
