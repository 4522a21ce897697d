-- ===== src/Player/Events/Quiet.antt =====
-- What is kept while a stream is given to the pipeline and while the buffer fills: the threads are not
-- boosted while the player waits for data.
pub mod Taking
pub mod Requests
pub mod Messages
pub mod Streams
pub mod Errors
pub mod Run
use streamplayer.Base.{
  ℕ, ◌≡◌, refl, Bool, true, false, ◌&&◌, Bool-cases, Option-cases, inl, inr, Option, none, some,
  List, [], ◌∷◌, if◌then◌else◌, arith,
}
use streamplayer.Buffering
use streamplayer.Buffering.{
  Data, is_buffering, set_buffer_level, LevelChange, full_detected, underrun_detected,
  LeaveBufferingResult, buffer_filled, still_buffering, State, paused_pending, paused_for_buffering,
  paused_piggyback,
}
use streamplayer.Item.{
  Item, ItemState, in_queue, about_to_activate, active_half_playing, active_now_playing,
  about_to_phase_out, about_to_be_skipped, is_network_stream, set_state, UrlState, known_direct_url,
  known_airable_link, resolving_link, known_resolved_url, broken, is_pipeline_start_required,
  get_selected_url_state, resolver_begin,
}
use streamplayer.Player.{
  Player, GstState, void_pending, null, ready, paused, playing, PlayStatus, NextStreamRequestState,
  not_requested, requested, request_deferred, emit,
}
use streamplayer.Player.Play.{
  Pipeline, Place, handled, queue_head, is_paused, is_playable, item_at, put_at, set_state_at,
  underrun, handle_buffer_underrun, encourage, do_encourage_buffering, set_stream_state,
  play_in_state, play_resolved, on_link_resolved, begin_resolve, resolve_or_play,
  resolve_selected_url_or_play_uri, retire, deferred, play_next, play_next_stream,
}
use streamplayer.Player.Progress.{report_change, report_progress_of, report_progress}
use streamplayer.Player.Filling.{
  boost_for, report_if_unwatched, buffer_is_filled, leave_buffering, try_leave_buffering_state,
  level_changed, take_level, handle_buffering,
}

-- If it waits for data its threads are not boosted.
abbrev pub IsQuiet : Player → Type 0
IsQuiet p = (is_buffering p.stream_buffering_data && p.is_boost_enabled) ≡ false

pub and_false : (b : Bool) → (b && false) ≡ false
and_false true = refl
and_false false = refl

pub if-IsQuiet : (b : Bool) (x y : Player) → IsQuiet x → IsQuiet y → IsQuiet (if b then x else y)
if-IsQuiet true x y h k = h
if-IsQuiet false x y h k = k

pub if_pair-IsQuiet :
    {A : Type 0} (b : Bool) (x y : Player × A)
    → IsQuiet x.0
    → IsQuiet y.0
    → IsQuiet (if b then x else y).0
if_pair-IsQuiet true x y h k = h
if_pair-IsQuiet false x y h k = k

pub if_triple-IsQuiet :
    {A B : Type 0} (b : Bool) (x y : Player × A × B)
    → IsQuiet x.0
    → IsQuiet y.0
    → IsQuiet (if b then x else y).0
if_triple-IsQuiet true x y h k = h
if_triple-IsQuiet false x y h k = k

same_wait : (n : ℕ) (d : Data) → is_buffering (set_buffer_level n d).0 ≡ is_buffering d
unfolding set_buffer_level is_buffering
same_wait n d = ground arith

pub put_at-IsQuiet :
    (place : Place) (i : Item) (p : Player) → IsQuiet p → IsQuiet (put_at place i p)
unfolding put_at
put_at-IsQuiet handled i p h = h
put_at-IsQuiet queue_head i p h = h

pub set_state_at-IsQuiet :
    (s : ItemState) (place : Place) (p : Player) → IsQuiet p → IsQuiet (set_state_at s place p)
unfolding set_state_at
set_state_at-IsQuiet s place p h = elim (Option-cases (item_at place p)) [
  | inl e ↦ rw (e, set_state_at) h
  | inr (i, e) ↦ rw (e, set_state_at) (put_at-IsQuiet place (set_state s i) p h)
]

underrun-IsQuiet : (g : Pipeline) (s : GstState) (p : Player) → IsQuiet p → IsQuiet (underrun g s p)
unfolding underrun set_stream_state
underrun-IsQuiet g playing p h =
    if-IsQuiet (is_paused g.current_state) _ _ (and_false _) (and_false _)
underrun-IsQuiet g paused p h = and_false _
underrun-IsQuiet g void_pending p h = h
underrun-IsQuiet g null p h = h
underrun-IsQuiet g ready p h = h

pub handle_buffer_underrun-IsQuiet :
    (g : Pipeline) (p : Player) → IsQuiet p → IsQuiet (handle_buffer_underrun g p)
unfolding handle_buffer_underrun
handle_buffer_underrun-IsQuiet g p h =
    if-IsQuiet (is_buffering p.stream_buffering_data) _ _ h (underrun-IsQuiet g g.target_state p h)

pub with_level :
    (n : ℕ) (p : Player)
    → IsQuiet p
    → IsQuiet (record p { stream_buffering_data = (set_buffer_level n p.stream_buffering_data).0 })
with_level n p h = rw (same_wait n p.stream_buffering_data) h

encourage-IsQuiet :
    (g : Pipeline) (o : Option Item) (p : Player) → IsQuiet p → IsQuiet (encourage g o p)
unfolding encourage
encourage-IsQuiet g none p h = h
encourage-IsQuiet g (some i) p h =
    if-IsQuiet (is_network_stream i) _ _ (handle_buffer_underrun-IsQuiet g _ (with_level 0 p h)) h

pub do_encourage_buffering-IsQuiet :
    (g : Pipeline) (p : Player) → IsQuiet p → IsQuiet (do_encourage_buffering g p)
unfolding do_encourage_buffering
do_encourage_buffering-IsQuiet g p h = encourage-IsQuiet g p.current_stream p h

play_in_state-IsQuiet :
    (g : Pipeline) (s : GstState) (p : Player) → IsQuiet p → IsQuiet (play_in_state g s p).0
unfolding play_in_state set_stream_state
play_in_state-IsQuiet g s p h =
    if-IsQuiet (g.accepts s) _ _ (do_encourage_buffering-IsQuiet g _ h) h

pub on_link_resolved-IsQuiet :
    (g : Pipeline) (changed : Bool) (place : Place) (i : Item) (s : GstState) (prefetching : Bool)
    (p : Player)
    → IsQuiet p
    → IsQuiet (on_link_resolved g changed place i s prefetching p).0
unfolding on_link_resolved play_resolved
on_link_resolved-IsQuiet g changed place i s prefetching p h = if_pair-IsQuiet changed _ _ h (
    if_pair-IsQuiet prefetching _ _
      (if_pair-IsQuiet (is_pipeline_start_required i).1 _ _
        (play_in_state-IsQuiet g _ _ (put_at-IsQuiet place _ _ h)) (put_at-IsQuiet place _ _ h))
      (play_in_state-IsQuiet g _ _ h))

begin_resolve-IsQuiet :
    (place : Place) (i : Item) (p : Player) → IsQuiet p → IsQuiet (begin_resolve place i p)
unfolding begin_resolve
begin_resolve-IsQuiet place i p h = elim (Option-cases (resolver_begin i)) [
  | inl e ↦ rw (e, begin_resolve) h
  | inr (r, e) ↦ rw (e, begin_resolve) (put_at-IsQuiet place r.0 p h)
]

resolve_or_play-IsQuiet :
    (g : Pipeline) (u : UrlState) (changed : Bool) (place : Place) (i : Item) (s : GstState)
    (prefetching : Bool) (p : Player)
    → IsQuiet p
    → IsQuiet (resolve_or_play g u changed place i s prefetching p).0
unfolding resolve_or_play
resolve_or_play-IsQuiet g known_direct_url changed place i s prefetching p h =
    on_link_resolved-IsQuiet g changed place i s prefetching p h
resolve_or_play-IsQuiet g known_resolved_url changed place i s prefetching p h =
    on_link_resolved-IsQuiet g changed place i s prefetching p h
resolve_or_play-IsQuiet g known_airable_link changed place i s prefetching p h =
    begin_resolve-IsQuiet place i p h
resolve_or_play-IsQuiet g resolving_link changed place i s prefetching p h = h
resolve_or_play-IsQuiet g broken changed place i s prefetching p h = h

pub resolve_selected-IsQuiet :
    (g : Pipeline) (changed : Bool) (place : Place) (s : GstState) (prefetching : Bool) (p : Player)
    → IsQuiet p
    → IsQuiet (resolve_selected_url_or_play_uri g changed place s prefetching p).0
unfolding resolve_selected_url_or_play_uri
resolve_selected-IsQuiet g changed place s prefetching p h = elim (Option-cases (item_at place p)) [
  | inl e ↦ rw (e, resolve_selected_url_or_play_uri) h
  | inr (i, e) ↦
      rw (e, resolve_selected_url_or_play_uri)
        (resolve_or_play-IsQuiet g (get_selected_url_state i) changed place i s prefetching p h)
]

retire-IsQuiet :
    (o : Option Place) (is_skipping : Bool) (p : Player)
    → IsQuiet p
    → IsQuiet (retire o is_skipping p)
unfolding retire
retire-IsQuiet none is_skipping p h = h
retire-IsQuiet (some place) is_skipping p h = set_state_at-IsQuiet _ place p h

deferred-IsQuiet :
    (o : Option Place) (r : NextStreamRequestState) (p : Player)
    → IsQuiet p
    → IsQuiet (deferred o r p)
unfolding deferred
deferred-IsQuiet none requested p h = h
deferred-IsQuiet none not_requested p h = h
deferred-IsQuiet none request_deferred p h = h
deferred-IsQuiet (some place) r p h = h

play_next-IsQuiet :
    (g : Pipeline) (st : ItemState) (o : Option Place) (place : Place) (s : GstState)
    (is_skipping prefetching : Bool) (p : Player)
    → IsQuiet p
    → IsQuiet (play_next g st o place s is_skipping prefetching p).0
unfolding play_next
play_next-IsQuiet g in_queue o place s is_skipping prefetching p h =
    resolve_selected-IsQuiet g false place s prefetching _
      (retire-IsQuiet o is_skipping _ (set_state_at-IsQuiet about_to_activate place p h))
play_next-IsQuiet g about_to_activate o place s is_skipping prefetching p h =
    deferred-IsQuiet o p.next_stream_request p h
play_next-IsQuiet g active_half_playing o place s is_skipping prefetching p h = h
play_next-IsQuiet g active_now_playing o place s is_skipping prefetching p h = h
play_next-IsQuiet g about_to_phase_out o place s is_skipping prefetching p h = h
play_next-IsQuiet g about_to_be_skipped o place s is_skipping prefetching p h = h

pub play_next_stream-IsQuiet :
    (g : Pipeline) (o : Option Place) (place : Place) (s : GstState)
    (is_skipping prefetching : Bool) (p : Player)
    → IsQuiet p
    → IsQuiet (play_next_stream g o place s is_skipping prefetching p).0
unfolding play_next_stream
play_next_stream-IsQuiet g o place s is_skipping prefetching p h =
    elim (Option-cases (item_at place p)) [
      | inl e ↦ rw (e, play_next_stream) h
      | inr (i, e) ↦
          rw (e, play_next_stream)
            (play_next-IsQuiet g i.state o place s is_skipping prefetching p h)
    ]
