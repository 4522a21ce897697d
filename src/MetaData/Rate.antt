-- ===== src/MetaData/Rate.antt =====
-- How often tags are emitted, and that those that are put off are emitted in time.
use streamplayer.Base.{ℕ, ◌+◌, ◌≤◌, ◌≡◌, true, List, All}
use streamplayer.MetaData.{World, Emission, meta_data_changed, now_playing, cooldown, is_added}

abbrev pub time_of : Emission → ℕ
time_of (meta_data_changed t id) = t
time_of (now_playing t id) = t

-- What has been emitted is not later than now, and the next time is not before its cooldown is over.
abbrev Past : ℕ → ℕ → List Emission → Type 0
Past next now es = All (λ e. (time_of e + cooldown ≤ next) × (time_of e ≤ now)) es

-- A timer that is due not after the next time.
abbrev pub HasTimer : World → Type 0
HasTimer w =
    (timer : ℕ) × (is_added timer w.timers ≡ true)
    × (timer ≤ w.md_update.next_allowed_tag_update_time)

abbrev IsThrottled : World → Type 0
IsThrottled w =
    Past w.md_update.next_allowed_tag_update_time w.now w.emissions
    × (w.md_update.is_update_scheduled ≡ true → HasTimer w)
