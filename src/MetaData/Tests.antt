-- ===== src/MetaData/Tests.antt =====
-- Tags and announcements at concrete times.
use streamplayer.Base.{◌+◌, ◌≡◌, refl, false, some, List, [], ◌∷◌, arith}
use streamplayer.MetaData.{
  World, meta_data_changed, now_playing, Event, passes, announces, tags, fires, run,
}
use streamplayer.MetaData.Stale.{timer_for, IsCoolingDown, stale_timer_emits}

abbrev some_events : List Event
some_events =
    announces 3
    ∷ passes 300_000_000
    ∷ tags
    ∷ passes 500_000_000
    ∷ fires 800_000_100
    ∷ passes 900_000_000
    ∷ []

-- 700 ms after an announcement.
abbrev cooling_world : World
cooling_world = record {
  md_update = record {
    next_allowed_tag_update_time = 800_000_000;
    is_update_scheduled = false;
    current_stream_id = 3;
  };
  now = 700_000_000;
  timers = [];
  current_stream = some 3;
  emissions = now_playing 0 3 ∷ [];
}

is_cooling : IsCoolingDown cooling_world 3
is_cooling = record { has_stream = refl; not_scheduled = refl; too_early = omega arith }

stale_timer_emits_example :
    (run 0
      (tags
        ∷ passes 90_000_000
        ∷ announces 4
        ∷ tags
        ∷ passes 10_000_000
        ∷ fires (timer_for cooling_world)
        ∷ [])
      cooling_world).emissions
    ≡ meta_data_changed (700_000_000 + 90_000_000 + 10_000_000) 4
      ∷ now_playing (700_000_000 + 90_000_000) 4
      ∷ cooling_world.emissions
stale_timer_emits_example =
    stale_timer_emits 0 cooling_world 3 4 90_000_000 10_000_000 is_cooling refl (omega arith)
