-- ===== src/Player/Play/Direct.antt =====
-- What the pipeline is given when a stream with a direct URL is to be played.
use streamplayer.Base.{
  ◌≡◌, refl, ◌∙◌, ap, Bool, true, false, not, ◌&&◌, List, if◌then◌else◌, Bool-cases, inl, inr,
  Option, none, some, ◌∷◌,
}
use streamplayer.Buffering.{Data, set_buffer_level, is_buffering}
use streamplayer.Item.{
  Item, ItemState, in_queue, about_to_activate, set_state, UrlState, known_direct_url,
  get_selected_url_state, get_url_for_playing, is_network_stream,
}
use streamplayer.Player.{
  invalidate_position_information, Player, GstState, void_pending, null, ready, playing, paused,
  not_requested,
}
use streamplayer.Player.Play.{
  Pipeline, handled, is_paused, or_blank, underrun, handle_buffer_underrun, encourage,
  do_encourage_buffering, play_in_state, set_stream_state, item_at, put_at, set_state_at, retire,
  play_resolved, on_link_resolved, resolve_or_play, resolve_selected_url_or_play_uri, play_next,
  play_next_stream,
}

-- All but the buffering state and the states that the pipeline is asked for.
pub record Keeps (p q : Player) : Type 0 where
  pub pipeline : q.pipeline ≡ p.pipeline
  pub uri : q.uri ≡ p.uri
  pub current_stream : q.current_stream ≡ p.current_stream
  pub request : q.next_stream_request ≡ p.next_stream_request
  pub queue : q.queue ≡ p.queue
  pub failure : q.failure ≡ p.failure
  pub status : q.supposed_play_status ≡ p.supposed_play_status
  pub signals : q.signals ≡ p.signals
  pub protected_once : q.current_stream_protected_once ≡ p.current_stream_protected_once
  pub initial_seek : q.initial_seek_position_ns ≡ p.initial_seek_position_ns

pub kept : (p : Player) → Keeps p p
kept p = record {
  pipeline = refl;
  uri = refl;
  current_stream = refl;
  request = refl;
  queue = refl;
  failure = refl;
  status = refl;
  signals = refl;
  protected_once = refl;
  initial_seek = refl;
}

underrun-Keeps : (g : Pipeline) (s : GstState) (p : Player) → Keeps p (underrun g s p)
unfolding underrun set_stream_state
underrun-Keeps g playing p = elim (Bool-cases (is_paused g.current_state)) [
  | inl e ↦ rw e (record {
    pipeline = refl;
    uri = refl;
    current_stream = refl;
    request = refl;
    queue = refl;
    failure = refl;
    status = refl;
    signals = refl;
    protected_once = refl;
    initial_seek = refl;
  })
  | inr e ↦ rw e (record {
    pipeline = refl;
    uri = refl;
    current_stream = refl;
    request = refl;
    queue = refl;
    failure = refl;
    status = refl;
    signals = refl;
    protected_once = refl;
    initial_seek = refl;
  })
]
underrun-Keeps g paused p = record {
  pipeline = refl;
  uri = refl;
  current_stream = refl;
  request = refl;
  queue = refl;
  failure = refl;
  status = refl;
  signals = refl;
  protected_once = refl;
  initial_seek = refl;
}
underrun-Keeps g void_pending p = kept p
underrun-Keeps g null p = kept p
underrun-Keeps g ready p = kept p

handle_buffer_underrun-Keeps : (g : Pipeline) (p : Player) → Keeps p (handle_buffer_underrun g p)
unfolding handle_buffer_underrun
handle_buffer_underrun-Keeps g p = elim (Bool-cases (is_buffering p.stream_buffering_data)) [
  | inl e ↦ rw e (kept p)
  | inr e ↦ rw e (underrun-Keeps g g.target_state p)
]

any_buffering :
    (p q : Player) (d : Data) → Keeps (record p { stream_buffering_data = d }) q → Keeps p q
any_buffering p q d k = record {
  pipeline = k.pipeline;
  uri = k.uri;
  current_stream = k.current_stream;
  request = k.request;
  queue = k.queue;
  failure = k.failure;
  status = k.status;
  signals = k.signals;
  protected_once = k.protected_once;
  initial_seek = k.initial_seek;
}

pub encourage-Keeps : (g : Pipeline) (o : Option Item) (p : Player) → Keeps p (encourage g o p)
unfolding encourage
encourage-Keeps g none p = kept p
encourage-Keeps g (some i) p = elim (Bool-cases (is_network_stream i)) [
  | inl e ↦ rw e (
      any_buffering p _ _ (
        handle_buffer_underrun-Keeps g
          (record p { stream_buffering_data = (set_buffer_level 0 p.stream_buffering_data).0 })))
  | inr e ↦ rw e (kept p)
]

is_to_play : GstState → Bool
is_to_play playing = true
is_to_play _ = false

-- A stream from the network has no data yet: while no data is waited for, and the pipeline is to play
-- and is not paused, it is paused first.
unfoldable pub has_no_data : Pipeline → Item → Player → Bool
unfolding is_to_play
has_no_data g i p =
    is_network_stream i
    && not (is_buffering p.stream_buffering_data)
    && is_to_play g.target_state
    && not (is_paused g.current_state)

-- What a pipeline that is given a stream is asked for beyond what it has been asked for before: the
-- state, and after it the pause in which data is waited for.
abbrev pub asked_then : Bool → GstState → List GstState → List GstState
asked_then waits s before = if waits then paused ∷ s ∷ before else s ∷ before

same_data : (d : Data) → is_buffering (set_buffer_level 0 d).0 ≡ is_buffering d
unfolding set_buffer_level is_buffering
same_data d = refl

dry_asks :
    (g : Pipeline) (s : GstState) (p : Player)
    → (underrun g s p).asked_states ≡ (
        if is_to_play s && not (is_paused g.current_state)
        then paused ∷ p.asked_states
        else p.asked_states)
unfolding underrun set_stream_state is_to_play
dry_asks g playing p = elim (Bool-cases (is_paused g.current_state)) [
  | inl e ↦ rw e refl
  | inr e ↦ rw e refl
]
dry_asks g paused p = refl
dry_asks g void_pending p = refl
dry_asks g null p = refl
dry_asks g ready p = refl

pub encourage-asks :
    (g : Pipeline) (i : Item) (p : Player)
    → (encourage g (some i) p).asked_states
      ≡ (if has_no_data g i p then paused ∷ p.asked_states else p.asked_states)
unfolding encourage handle_buffer_underrun has_no_data
encourage-asks g i p = elim (Bool-cases (is_network_stream i)) [
  | inr local ↦ rw local refl
  | inl network ↦ elim (Bool-cases (is_buffering p.stream_buffering_data)) [
    | inl waits ↦ simp (network, same_data p.stream_buffering_data, waits) refl
    | inr goes ↦
        simp (network, same_data p.stream_buffering_data, goes)
          (dry_asks g g.target_state
            (record p { stream_buffering_data = (set_buffer_level 0 p.stream_buffering_data).0 }))
  ]
]

-- The stream that is handled is being activated with its URL, the pipeline is asked for the state, no
-- stream is requested any more, and the pipeline, the queue, the status and what has been emitted are as
-- they were.
pub record Activates (g : Pipeline) (s : GstState) (i : Item) (p q : Player) : Type 0 where
  pub same_pipeline : q.pipeline ≡ p.pipeline
  pub asks : q.asked_states ≡ asked_then (has_no_data g i p) s p.asked_states
  pub has_stream : q.current_stream ≡ some (set_state about_to_activate i)
  pub has_uri : q.uri ≡ or_blank (get_url_for_playing i)
  pub no_request : q.next_stream_request ≡ not_requested
  pub same_queue : q.queue ≡ p.queue
  pub same_status : q.supposed_play_status ≡ p.supposed_play_status
  pub same_signals : q.signals ≡ p.signals

pub known_in_any_state :
    (s : ItemState) (i : Item) → get_selected_url_state (set_state s i) ≡ get_selected_url_state i
unfolding get_selected_url_state set_state
known_in_any_state s i = refl

pub url_in_any_state :
    (s : ItemState) (i : Item) → get_url_for_playing (set_state s i) ≡ get_url_for_playing i
unfolding get_url_for_playing set_state
url_in_any_state s i = refl

pub direct_resolved :
    (g : Pipeline) (s : GstState) (p : Player) (j : Item)
    → p.current_stream ≡ some j
    → get_selected_url_state j ≡ known_direct_url
    → resolve_selected_url_or_play_uri g false handled s false p
      ≡ on_link_resolved g false handled j s false p
unfolding resolve_selected_url_or_play_uri item_at resolve_or_play on_link_resolved
direct_resolved g s p j here direct = rw here (resolved_at j (get_selected_url_state j) direct)
  where
    resolved_at :
        (i : Item) (u : UrlState)
        → u ≡ known_direct_url
        → resolve_or_play g u false handled i s false (record p { current_stream = some j })
          ≡ on_link_resolved g false handled i s false (record p { current_stream = some j })
    resolved_at i u e = rw (e, resolve_or_play) refl

pub link_played :
    (g : Pipeline) (s : GstState) (p : Player) (j : Item)
    → g.accepts s ≡ true
    → on_link_resolved g false handled j s false p ≡ (
      do_encourage_buffering g (record p {
        uri = or_blank (get_url_for_playing j);
        next_stream_request = not_requested;
        asked_states = s ∷ p.asked_states;
        previous_time = invalidate_position_information;
      }),
      true,
    )
unfolding on_link_resolved play_resolved play_in_state set_stream_state
link_played g s p j a = simp a refl

queued_activated :
    (g : Pipeline) (s : GstState) (is_skipping : Bool) (p : Player) (i : Item) (st : ItemState)
    → p.current_stream ≡ some i
    → st ≡ in_queue
    → play_next g st none handled s is_skipping false p
      ≡ resolve_selected_url_or_play_uri g false handled s false
          (record p { current_stream = some (set_state about_to_activate i) })
unfolding retire set_state_at item_at put_at play_next resolve_selected_url_or_play_uri
queued_activated g s is_skipping p i st here queued = rw (queued, play_next) (rw here refl)

next_at :
    (g : Pipeline) (s : GstState) (is_skipping : Bool) (p : Player) (i : Item)
    → p.current_stream ≡ some i
    → play_next_stream g none handled s is_skipping false p
      ≡ play_next g i.state none handled s is_skipping false p
unfolding play_next_stream item_at
next_at g s is_skipping p i here = rw here refl

-- A stream of the queue with a direct URL that nothing is replaced by.
pub play_direct :
    (g : Pipeline) (next_state : GstState) (is_skipping : Bool) (p : Player) (i : Item)
    → p.current_stream ≡ some i
    → i.state ≡ in_queue
    → get_selected_url_state i ≡ known_direct_url
    → g.accepts next_state ≡ true
    → let (q, started) = play_next_stream g none handled next_state is_skipping false p in
      (started ≡ true) × Activates g next_state i p q
unfolding do_encourage_buffering set_state has_no_data is_network_stream
play_direct g s is_skipping p i here queued direct a =
    let j = set_state about_to_activate i in
    let q = record p { current_stream = some j } in
    let asked = record q {
      uri = or_blank (get_url_for_playing j);
      next_stream_request = not_requested;
      asked_states = s ∷ p.asked_states;
      previous_time = invalidate_position_information;
    } in
    let k = encourage-Keeps g (some j) asked in
    simp
      (
        next_at g s is_skipping p i here,
        queued_activated g s is_skipping p i i.state here queued,
        direct_resolved g s q j refl (known_in_any_state about_to_activate i ∙ direct),
        link_played g s q j a,
      )
      (
        refl,
        record {
          same_pipeline = k.pipeline;
          asks = encourage-asks g j asked;
          has_stream = k.current_stream;
          has_uri = k.uri ∙ ap or_blank (url_in_any_state about_to_activate i);
          no_request = k.request;
          same_queue = k.queue;
          same_status = k.status;
          same_signals = k.signals;
        },
      )
