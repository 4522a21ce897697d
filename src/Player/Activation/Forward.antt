-- ===== src/Player/Activation/Forward.antt =====
-- How the state of a stream goes forward while the stream is started.
use streamplayer.Base.{ℕ, ◌≤◌, ◌≡◌, refl, Bool, true, false, arith}
use streamplayer.Item.{
  Item, ItemState, in_queue, about_to_activate, active_half_playing, active_now_playing,
  about_to_phase_out, about_to_be_skipped, set_state,
}
use streamplayer.Player.Activation.{
  already_active, activated, activate_half, activate_now, activate_first, activate_in,
  activate_item,
}

-- How far a stream has come.
unfoldable rank : ItemState → ℕ
rank in_queue = 0
rank about_to_activate = 1
rank active_half_playing = 2
rank active_now_playing = 3
rank about_to_phase_out = 4
rank about_to_be_skipped = 5

goes_on :
    (s : ItemState) (e : Bool) (phase : ℕ) (i : Item)
    → i.state ≡ s
    → rank s ≤ rank (activate_in s e phase i).0.state
unfolding rank activate_in activate_half activate_now activate_first set_state
goes_on in_queue e phase i h = ground arith
goes_on about_to_activate e phase i h = ground arith
goes_on active_half_playing e phase i h = ground arith
goes_on active_now_playing e phase i h = ground arith
goes_on about_to_phase_out e phase i h = ground arith
goes_on about_to_be_skipped e phase i h = ground arith

once :
    (s : ItemState) (e e' : Bool) (i : Item)
    → (activate_in s e 2 i).1 ≡ activated
    → (activate_item e' 2 (activate_in s e 2 i).0).1 ≡ already_active
unfolding activate_in activate_item activate_half activate_now activate_first set_state
once in_queue e e' i h = cc
once about_to_activate e e' i h = refl
once active_half_playing true e' i h = refl
once active_half_playing false e' i h = refl
once active_now_playing e e' i h = cc
once about_to_phase_out e e' i h = cc
once about_to_be_skipped e e' i h = cc

-- Activating a stream, in any phase, never sets it back to an earlier state, and a stream that the
-- start of the stream has activated, which is then announced, is not activated by a second start,
-- whatever the queue holds by then.
activation_goes_forward :
    (i : Item)
    → ((e : Bool) (phase : ℕ) → rank i.state ≤ rank (activate_item e phase i).0.state)
      × ((e e' : Bool)
          → (activate_item e 2 i).1 ≡ activated
          → (activate_item e' 2 (activate_item e 2 i).0).1 ≡ already_active)
unfolding activate_item
activation_goes_forward i =
    (λ e phase. goes_on i.state e phase i refl, λ e e' h. once i.state e e' i h)
