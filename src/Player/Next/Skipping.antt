-- ===== src/Player/Next/Skipping.antt =====
-- What a skip to the next stream does.
use streamplayer.Base.{
  ℕ, ◌≡◌, refl, ◌∙◌, ap, subst, ◌&&◌, Bool, true, false, ◌⊎◌, inl, inr, Option, none, some, List,
  [], ◌∷◌, if◌then◌else◌,
}
use streamplayer.Urls.{is_empty}
use streamplayer.Item.{
  Item, ItemState, in_queue, about_to_activate, active_half_playing, about_to_be_skipped, set_state,
  known_direct_url, get_selected_url_state,
}
use streamplayer.Player.{Player, GstState, ready, playing, paused, PlayStatus}
use streamplayer.Player.Take.{
  is_about_to_play, pick_next_item, take_picked, found_next, nothing_found, try_take_next,
}
use streamplayer.Player.Play.Direct.{Activates, play_direct}
use streamplayer.Player.Take.Outcome.{AboutToPlay}
use streamplayer.Player.Take.Head.{taken_head, takes_head, finds_nothing}
use streamplayer.Player.Play.{
  Pipeline, Place, handled, set_stream_state, play_next, play_next_stream, item_at, set_state_at,
  put_at,
}
use streamplayer.Player.Next.{
  current_id, state_for, is_stopped, next_stops, mark_in_state, mark_current, next_plays,
  next_found, next_taken, next,
}

-- A stream that is about to be activated, or plays in half.
unfoldable pub InActivation : ItemState → Type 0
InActivation s = (s ≡ about_to_activate) ⊎ (s ≡ active_half_playing)

active_about : (s : ItemState) → InActivation s → is_about_to_play s ≡ true
unfolding is_about_to_play InActivation
active_about s (inl e) = rw e refl
active_about s (inr e) = rw e refl

active_marked :
    (s : ItemState) (p : Player)
    → InActivation s
    → mark_in_state s p ≡ (set_state_at about_to_be_skipped handled p, true)
unfolding mark_in_state InActivation
active_marked s p (inl e) = rw (e, mark_in_state) refl
active_marked s p (inr e) = rw (e, mark_in_state) refl

-- A stream that has not been played is taken in its place.
taken_in_place :
    (p : Player) (c : Item)
    → p.current_stream ≡ some c
    → is_about_to_play c.state ≡ true
    → is_empty c.stream_urls ≡ false
    → try_take_next true p ≡ found_next false p
unfolding try_take_next pick_next_item take_picked
taken_in_place p c here about urls = simp (here, about, urls) refl

marked_handled :
    (p : Player) (c : Item) (s : ItemState)
    → p.current_stream ≡ some c
    → set_state_at s handled p ≡ record p { current_stream = some (set_state s c) }
unfolding set_state_at item_at put_at
marked_handled p c s here = rw here refl

always_permitted : {A : Type 0} → (b : Bool) (x y : A) → (if b && false then x else y) ≡ y
always_permitted true x y = refl
always_permitted false x y = refl

-- A skip that is asked for also while the player is stopped.
next_permitted :
    (g : Pipeline) (p : Player)
    → next g true false p ≡ next_taken g (current_id p.current_stream) (try_take_next true p)
unfolding next
next_permitted g p = ap (next_taken g (current_id p.current_stream)) (
    always_permitted (is_stopped p.supposed_play_status) (p, nothing_found false)
      (try_take_next true p))

-- The state of the pipeline that stands for a status of the player.
pub data StandsFor : PlayStatus → GstState → Type 0 where
  stays_ready : StandsFor PlayStatus.stopped ready
  plays_on : StandsFor PlayStatus.playing playing
  stays_paused : StandsFor PlayStatus.paused paused

stands_for : {status : PlayStatus} {s : GstState} → StandsFor status s → state_for status ≡ s
unfolding state_for
stands_for stays_ready = refl
stands_for plays_on = refl
stands_for stays_paused = refl

played_next :
    (g : Pipeline) (skipped : Option ℕ) (p : Player) (i : Item)
    → p.current_stream ≡ some i
    → i.state ≡ in_queue
    → get_selected_url_state i ≡ known_direct_url
    → g.accepts ready ≡ true
    → g.accepts (state_for p.supposed_play_status) ≡ true
    → let (q, status, given) = next_plays g skipped none p in
      Activates g
        (state_for p.supposed_play_status)
        i
        (record p { asked_states = ready ∷ p.asked_states })
        q
      × (status ≡ p.supposed_play_status)
      × (given ≡ some (record { skipped_id = skipped; next_id = some i.stream_id }))
unfolding next_plays set_stream_state current_id
played_next g skipped p i here queued direct able a =
    let asked = record p { asked_states = ready ∷ p.asked_states } in
    let (started, k) =
      play_direct g (state_for p.supposed_play_status) true asked i here queued direct a in
    simp (able, started)
      (
        k,
        k.same_status,
        ap (λ o. some (record { skipped_id = skipped; next_id = current_id o })) here,
      )

pub next_plays_head :
    (g : Pipeline) (p : Player) (h : Item) (rest : List Item) (s : GstState)
    → p.queue.queue ≡ h ∷ rest
    → (AboutToPlay p.current_stream → ⊥)
    → is_empty h.stream_urls ≡ false
    → h.state ≡ in_queue
    → get_selected_url_state h ≡ known_direct_url
    → g.accepts ready ≡ true
    → StandsFor p.supposed_play_status s
    → g.accepts s ≡ true
    → let (q, status, given) = next g true false p in
      Activates g s h (record (taken_head h rest p) { asked_states = ready ∷ p.asked_states }) q
      × (status ≡ p.supposed_play_status)
      × (given
          ≡ some (record { skipped_id = current_id p.current_stream; next_id = some h.stream_id }))
unfolding next_taken next_found found_next
next_plays_head g p h rest s e n urls queued direct able stands a =
    simp (next_permitted g p, takes_head p h rest e n urls)
      (subst
        (λ state.
          let (q, status, given) =
            next_plays g (current_id p.current_stream) none (taken_head h rest p) in
          Activates g state h
            (record (taken_head h rest p) { asked_states = ready ∷ p.asked_states }) q
          × (status ≡ p.supposed_play_status)
          × (given
              ≡ some (record {
                skipped_id = current_id p.current_stream;
                next_id = some h.stream_id;
              })))
        (stands_for stands)
        (played_next g (current_id p.current_stream) (taken_head h rest p) h refl queued direct able
          (ap g.accepts (stands_for stands) ∙ a)))

-- A skip while nothing is queued and the stream that is handled, if there is one, plays or is about
-- to end: the player is supposed to be stopped afterwards, which is also what is given back, without
-- a next ID.
pub next_stops_at_end :
    (g : Pipeline) (p : Player)
    → p.queue.queue ≡ []
    → (AboutToPlay p.current_stream → ⊥)
    → let (q, status, given) = next g true false p in
      (q.supposed_play_status ≡ PlayStatus.stopped)
      × (status ≡ PlayStatus.stopped)
      × (given ≡ some (record { skipped_id = current_id p.current_stream; next_id = none }))
unfolding next_taken next_stops
next_stops_at_end g p e n = simp (next_permitted g p, finds_nothing p e n) (refl, refl, refl)

either_same : {A : Type 0} → (b : Bool) (x : A) → if◌then◌else◌ b x x ≡ x
either_same true x = refl
either_same false x = refl

-- What is about to be skipped cannot be played.
skipped_is_not_played :
    (g : Pipeline) (skipped : Option ℕ) (replaced : Option Place) (p : Player) (c : Item)
    → p.current_stream ≡ some (set_state about_to_be_skipped c)
    → next_plays g skipped replaced p ≡ (
      record p { asked_states = ready ∷ p.asked_states },
      p.supposed_play_status,
      some (record { skipped_id = skipped; next_id = none }),
    )
unfolding next_plays play_next_stream play_next item_at set_stream_state set_state
skipped_is_not_played g skipped replaced p c e = simp (e, either_same (g.accepts ready)) refl

-- A skip, as a client asks for it, while the stream that is handled is still being activated: this
-- stream is marked to be skipped, the pipeline is asked to be ready, and nothing is played: no next
-- ID is given back, the queue keeps its head, and the player is supposed to go on as before.
pub next_skips_itself :
    (g : Pipeline) (p : Player) (c : Item)
    → p.current_stream ≡ some c
    → InActivation c.state
    → is_empty c.stream_urls ≡ false
    → next g true false p ≡ (
      record p {
        current_stream = some (set_state about_to_be_skipped c);
        asked_states = ready ∷ p.asked_states;
      },
      p.supposed_play_status,
      some (record { skipped_id = some c.stream_id; next_id = none }),
    )
unfolding next_taken next_found found_next mark_current current_id
next_skips_itself g p c here act urls =
    next_permitted g p
    ∙ simp
        (taken_in_place p c here (active_about c.state act) urls, here, active_marked c.state p act)
        (simp (marked_handled p c about_to_be_skipped here) (
          skipped_is_not_played g (some c.stream_id) (some handled)
            (record p { current_stream = some (set_state about_to_be_skipped c) }) c refl))
