-- ===== src/MetaData.antt =====
-- The rate of the signal MetaDataChanged: ThrottledMetaDataUpdate, handle_tag(), timed_emit_tags(),
-- emit_tags__unlocked() and the part of emit_now_playing() that is about it, src/streamer.cc.
-- Times are in nanoseconds. The clock and the timers that have been added to the main loop are part of
-- the state, and so is the ID of the stream that is handled; a timer is the time from which on it may
-- fire, which is in whole milliseconds from when it is added. `emissions` are the signals that carry
-- tags, the latest first. The tags themselves are left out. STREAM_ID_SOURCE_INVALID is a parameter.
pub mod Rate
pub mod Stale
mod Tests
use streamplayer.Base.{
  ℕ, ◌+◌, ◌-◌, ◌*◌, ◌/◌, Bool, true, false, not, Option, none, some, List, [], ◌∷◌, ◌==◌, leb,
  if◌then◌else◌,
}

pub record ThrottledMetaDataUpdate : Type 0 where
  pub next_allowed_tag_update_time : ℕ
  pub is_update_scheduled : Bool
  pub current_stream_id : ℕ

pub data Emission : Type 0 where
  meta_data_changed now_playing : ℕ → ℕ → Emission

pub record World : Type 0 where
  pub md_update : ThrottledMetaDataUpdate
  pub now : ℕ
  pub timers : List ℕ
  pub current_stream : Option ℕ
  pub emissions : List Emission

-- 800 ms.
abbrev pub cooldown : ℕ
cooldown = 800_000_000

unfoldable pub is_due : ℕ → ℕ → Bool
is_due now timer = leb timer now

unfoldable pub without : ℕ → List ℕ → List ℕ
without timer [] = []
without timer (t ∷ ts) = let rest = without timer ts in if timer == t then ts else t ∷ rest

unfoldable pub is_added : ℕ → List ℕ → Bool
is_added timer [] = false
is_added timer (t ∷ ts) = let rest = is_added timer ts in if timer == t then true else rest

unfoldable pub emitted_tags_timed : ℕ → ThrottledMetaDataUpdate → ThrottledMetaDataUpdate
emitted_tags_timed now u = record u {
  next_allowed_tag_update_time = now + cooldown;
  is_update_scheduled = false;
}

unfoldable pub emitted_nothing_timed : ThrottledMetaDataUpdate → ThrottledMetaDataUpdate
emitted_nothing_timed u = record u { is_update_scheduled = false }

unfoldable pub emitted_tags_now_playing : ℕ → ℕ → ThrottledMetaDataUpdate → ThrottledMetaDataUpdate
emitted_tags_now_playing now stream_id u = record u {
  next_allowed_tag_update_time = now + cooldown;
  is_update_scheduled = false;
  current_stream_id = stream_id;
}

unfoldable pub timer_activated : ThrottledMetaDataUpdate → ThrottledMetaDataUpdate × Bool
timer_activated u =
    if u.is_update_scheduled then (record u { is_update_scheduled = false }, true) else (u, false)

-- With the timer that is added.
unfoldable pub try_emit_tags :
    ℕ → ThrottledMetaDataUpdate → ThrottledMetaDataUpdate × Option ℕ × Bool
try_emit_tags now u =
    if u.is_update_scheduled
    then (u, none, false)
    else (if leb u.next_allowed_tag_update_time now then (u, none, true) else (
      record u { is_update_scheduled = true },
      some (now + (u.next_allowed_tag_update_time - now) / 1_000_000 * 1_000_000),
      false,
    ))

-- An activated player's start of a stream, or its next one.
unfoldable pub emit_now_playing : ℕ → World → World
emit_now_playing stream_id w = record w {
  md_update = emitted_tags_now_playing w.now stream_id w.md_update;
  current_stream = some stream_id;
  emissions = now_playing w.now stream_id ∷ w.emissions;
}

module _ (invalid_id : ℕ) where
  unfoldable pub new : ℕ → World
  new now = record {
    md_update = record {
      next_allowed_tag_update_time = now;
      is_update_scheduled = false;
      current_stream_id = invalid_id;
    };
    now = now;
    timers = [];
    current_stream = none;
    emissions = [];
  }

  unfoldable pub try_emit_for_stream_id :
      ℕ → ThrottledMetaDataUpdate → ThrottledMetaDataUpdate × Bool
  try_emit_for_stream_id stream_id u =
      if stream_id == u.current_stream_id
      then (u, not (u.current_stream_id == invalid_id))
      else (record u { is_update_scheduled = false }, false)

  unfoldable pub emit_tags : ℕ → World → World
  emit_tags stream_id w =
      let (u, emits) = try_emit_for_stream_id stream_id w.md_update in
      if emits
      then record w {
        md_update = emitted_tags_timed w.now u;
        emissions = meta_data_changed w.now stream_id ∷ w.emissions;
      }
      else record w { md_update = u }

  unfoldable pub emit_tags_of : Option ℕ → World → World
  emit_tags_of none w = record w { md_update = emitted_nothing_timed w.md_update }
  emit_tags_of (some stream_id) w = emit_tags stream_id w

  -- A timer fires at most once: its function returns FALSE.
  unfoldable pub timed_emit_tags : ℕ → World → World
  timed_emit_tags timer w =
      let (u, activated) = timer_activated w.md_update in
      let fired = record w { md_update = u; timers = without timer w.timers } in
      if activated then emit_tags_of w.current_stream fired else fired

  unfoldable pub added : Option ℕ → List ℕ → List ℕ
  added none timers = timers
  added (some timer) timers = timer ∷ timers

  unfoldable pub handle_tag_of : Option ℕ → World → World
  handle_tag_of none w = w
  handle_tag_of (some stream_id) w =
      let (u, timer, emits) = try_emit_tags w.now w.md_update in
      let q = record w { md_update = u; timers = added timer w.timers } in
      if emits then emit_tags stream_id q else q

  unfoldable pub handle_tag : World → World
  handle_tag w = handle_tag_of w.current_stream w

-- Time passes, a stream is announced, another stream is handled or none, the pipeline reports tags, or a
-- timer fires.
pub data Event : Type 0 where
  passes : ℕ → Event
  announces : ℕ → Event
  handles : Option ℕ → Event
  tags : Event
  fires : ℕ → Event

module _ (invalid_id : ℕ) where
  -- A timer that has not been added, or is not due, does not fire.
  unfoldable pub handle : Event → World → World
  handle (passes time) w = record w { now = w.now + time }
  handle (announces stream_id) w = emit_now_playing stream_id w
  handle (handles stream) w = record w { current_stream = stream }
  handle tags w = handle_tag invalid_id w
  handle (fires timer) w =
      if is_added timer w.timers
      then (if is_due w.now timer then timed_emit_tags invalid_id timer w else w)
      else w

  unfoldable pub run : List Event → World → World
  unfolding handle
  run [] w = w
  run (e ∷ es) w = run es (handle e w)
