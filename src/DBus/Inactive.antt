-- ===== src/DBus/Inactive.antt =====
-- Requests while the player is not activated.
use Prim.Native.String.{String}
use streamplayer.Base.{
  ℕ, ◌≡◌, refl, ◌∙◌, ap, Bool, true, false, Option, none, some, List, [], ◌∷◌, subst, sym,
  if◌then◌else◌,
}
use streamplayer.UsbUrl.{Host}
use streamplayer.Player.{Player, GstState}
use streamplayer.Player.Play.{Pipeline}
use streamplayer.Player.Requests.{start, stop, pause, push_item}
use streamplayer.Player.Next.{next}
use streamplayer.Player.Seeking.{seek}
use streamplayer.Player.Service.{Service, deactivate}
use streamplayer.DBus.{
  ℤ, not_negative, playback_start, playback_stop, playback_pause, playback_seek, playback_set_speed,
  fifo_next, is_skip, fifo_push,
}

-- What only an activated player is to do. The other methods, of which none is here, activate the player,
-- remove a device, or cut the queue or inject a failure, which the code does for any player.
pub data Request : Type 0 where
  starts : GstState → Request
  stops : GstState → GstState → Request
  pauses skips : Request
  seeks : ℤ → String → Request
  sets_speed : Request
  pushes : ℕ → List (String × Bool) → ℤ → Request
  deactivates : GstState → Request

module _ (scale : ℕ → ℕ → ℕ → ℕ) (h : Host) where
  unfoldable pub answer : Pipeline → Request → Service → Service
  answer g (starts pending) s = playback_start g pending s
  answer g (stops pending state_after) s = playback_stop g pending state_after s
  answer g pauses s = playback_pause g s
  answer g skips s = (fifo_next g s).0
  answer g (seeks position units) s = (playback_seek scale g position units s).0
  answer g sets_speed s = (playback_set_speed s).0
  answer g (pushes stream_id stream_urls keep) s = (fifo_push g h stream_id stream_urls keep s).0
  answer g (deactivates pending) s = deactivate g pending s

  unfoldable pub run : List (Pipeline × Request) → Service → Service
  unfolding answer
  run [] s = s
  run ((g, r) ∷ rs) s = run rs (answer g r s)

  -- The player that is not activated.
  abbrev inactive : Player → Service
  inactive p = record { player = p; is_player_activated = false }

  no_seek :
      (g : Pipeline) (o : Option ℕ) (units : String) (p : Player)
      → seek scale g false o units p ≡ (p, false)
  unfolding seek
  no_seek g none units p = refl
  no_seek g (some n) units p = refl

  either_same : (b : Bool) (p : Player) → (if b then p else p) ≡ p
  either_same true p = refl
  either_same false p = refl

  nothing_done : (g : Pipeline) (r : Request) (p : Player) → answer g r (inactive p) ≡ inactive p
  unfolding answer playback_start start playback_stop stop playback_pause pause fifo_next next
      playback_seek playback_set_speed fifo_push push_item deactivate
  nothing_done g (starts pending) p = refl
  nothing_done g (stops pending state_after) p = refl
  nothing_done g pauses p = refl
  nothing_done g skips p = refl
  nothing_done g (seeks position units) p =
      ap (λ r. inactive r.0) (no_seek g (not_negative position) units p)
  nothing_done g sets_speed p = refl
  nothing_done g (pushes stream_id stream_urls keep) p = ap inactive (either_same (is_skip keep) p)
  nothing_done g (deactivates pending) p = refl

  kept_at :
      (g : Pipeline) (r : Request) (s : Service) (b : Bool)
      → b ≡ false
      → answer g r (record s { is_player_activated = b }) ≡ record s { is_player_activated = b }
  kept_at g r s b e =
      subst
        (λ c.
          answer g r (record s { is_player_activated = c }) ≡ record s { is_player_activated = c })
        (sym e) (nothing_done g r s.player)

  -- While the player is not activated, any sequence of requests to start, stop, pause, seek, set the
  -- speed, skip, or push, or to deactivate it again, changes nothing of it and emits nothing.
  pub inactive_is_inert :
      (rs : List (Pipeline × Request)) (s : Service) → s.is_player_activated ≡ false → run rs s ≡ s
  unfolding run
  inactive_is_inert [] s e = refl
  inactive_is_inert ((g, r) ∷ rs) s e =
      ap (run rs) (kept_at g r s s.is_player_activated e) ∙ inactive_is_inert rs s e
