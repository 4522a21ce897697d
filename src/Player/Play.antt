-- ===== src/Player/Play.antt =====
-- How a stream is given to the pipeline, src/streamer.cc: from play_next_stream() to the buffering.
-- What GStreamer says of the pipeline is a parameter: whether it accepts a state it is asked for, the
-- state it is in and its target, the URI that it plays, what it answers when it is asked for the
-- position, the duration and, if it can seek, the duration of what can be sought in (`none` if it does
-- not answer or answers less than 0), and whether it accepts a seek; all that one function reads of it
-- is the same before and after it asks for a state. A stream is named by its place, the stream that is handled or the
-- head of the queue, so that two references to the same stream are the same place; an access to a
-- place where there is no stream, a null pointer, changes nothing. The answer to a link that is
-- resolved is a later event.
pub mod Direct
use Prim.Native.String.{String}
use streamplayer.Base.{
  ℕ, Bool, true, false, not, ◌||◌, Option, none, some, List, [], ◌∷◌, if◌then◌else◌,
}
use streamplayer.Queue.{Queue, peek}
use streamplayer.Buffering.{
  Data, State, paused_pending, paused_for_buffering, paused_piggyback, is_buffering,
  set_buffer_level, start_buffering,
}
use streamplayer.Item.{
  Item, ItemState, in_queue, about_to_activate, active_half_playing, active_now_playing,
  about_to_phase_out, about_to_be_skipped, set_state, UrlState, known_direct_url,
  known_airable_link, resolving_link, known_resolved_url, broken, get_selected_url_state,
  is_pipeline_start_required, get_url_for_playing, is_network_stream, resolver_begin,
}
use streamplayer.Player.{
  Player, GstState, void_pending, null, ready, paused, playing, not_requested, requested,
  request_deferred, NextStreamRequestState, invalidate_position_information,
}

pub record Pipeline : Type 0 where
  pub accepts : GstState → Bool
  pub current_state : GstState
  pub target_state : GstState
  pub current_uri : String
  pub position_ns : Option ℕ
  pub duration_ns : Option ℕ
  pub seek_duration_ns : Option ℕ
  pub accepts_seek : Bool

pub data Place : Type 0 where
  handled queue_head : Place

unfoldable pub item_at : Place → Player → Option Item
item_at handled p = p.current_stream
item_at queue_head p = peek p.queue

unfoldable pub replace_head : Item → List Item → List Item
replace_head i [] = []
replace_head i (x ∷ xs) = i ∷ xs

unfoldable pub put_at : Place → Item → Player → Player
put_at handled i p = record p { current_stream = some i }
put_at queue_head i p = record p { queue = record p.queue { queue = replace_head i p.queue.queue } }

unfoldable pub set_state_at : ItemState → Place → Player → Player
set_state_at s place p = elim (item_at place p) [
  | none ↦ p
  | some i ↦ put_at place (set_state s i) p
]

unfoldable pub set_stream_state : Pipeline → GstState → Player → Player × Bool
set_stream_state g next_state p =
    (record p { asked_states = next_state ∷ p.asked_states }, g.accepts next_state)

unfoldable pub is_paused : GstState → Bool
is_paused paused = true
is_paused _ = false

-- handle_buffer_underrun(), where it is not buffering already, by the target of the pipeline.
unfoldable pub underrun : Pipeline → GstState → Player → Player
underrun g playing p =
    if is_paused g.current_state
    then record p {
      is_boost_enabled = false;
      stream_buffering_data = start_buffering paused_for_buffering p.stream_buffering_data;
    }
    else record (set_stream_state g paused p).0 {
      is_boost_enabled = false;
      stream_buffering_data = start_buffering paused_pending p.stream_buffering_data;
    }
underrun g paused p = record p {
  is_boost_enabled = false;
  stream_buffering_data =
      start_buffering (if is_paused g.current_state then paused_piggyback else paused_pending)
        p.stream_buffering_data;
}
underrun g void_pending p = p
underrun g null p = p
underrun g ready p = p

unfoldable pub handle_buffer_underrun : Pipeline → Player → Player
handle_buffer_underrun g p =
    if is_buffering p.stream_buffering_data then p else underrun g g.target_state p

unfoldable pub encourage : Pipeline → Option Item → Player → Player
encourage g none p = p
encourage g (some i) p =
    if is_network_stream i
    then handle_buffer_underrun g
        (record p { stream_buffering_data = (set_buffer_level 0 p.stream_buffering_data).0 })
    else p

unfoldable pub do_encourage_buffering : Pipeline → Player → Player
do_encourage_buffering g p = encourage g p.current_stream p

unfoldable pub or_blank : Option String → String
or_blank none = ""
or_blank (some s) = s

-- The end of on_link_resolved(): the pipeline is asked for the state.
unfoldable pub play_in_state : Pipeline → GstState → Player → Player × Bool
play_in_state g next_state p =
    let (q, accepted) = set_stream_state g next_state p in
    (
      if accepted
          then do_encourage_buffering g
              (record q { previous_time = invalidate_position_information })
          else q,
      accepted,
    )

unfoldable pub is_playable : GstState → Bool
is_playable playing = true
is_playable paused = true
is_playable _ = false

-- The mark of the item decides whether the pipeline is to be started after a prefetch.
unfoldable pub play_resolved : Pipeline → Place → Item → GstState → Bool → Player → Player × Bool
play_resolved g place i next_state is_prefetching_for_gapless p =
    let (j, start_required) = is_pipeline_start_required i in
    let marked = put_at place j p in
    let started = if is_playable next_state then next_state else playing in
    if is_prefetching_for_gapless
    then (if start_required then play_in_state g started marked else (marked, true))
    else play_in_state g next_state p

unfoldable pub on_link_resolved :
    Pipeline → Bool → Place → Item → GstState → Bool → Player → Player × Bool
on_link_resolved g pipeline_has_changed place i next_state is_prefetching_for_gapless p =
    if pipeline_has_changed
    then (p, false)
    else play_resolved g place i next_state is_prefetching_for_gapless
        (record p { uri = or_blank (get_url_for_playing i); next_stream_request = not_requested })

unfoldable pub begin_resolve : Place → Item → Player → Player
begin_resolve place i p = elim (resolver_begin i) [ none ↦ p | some (j, _) ↦ put_at place j p ]

unfoldable pub resolve_or_play :
    Pipeline → UrlState → Bool → Place → Item → GstState → Bool → Player → Player × Bool
resolve_or_play g known_direct_url changed place i next_state prefetching p =
    on_link_resolved g changed place i next_state prefetching p
resolve_or_play g known_resolved_url changed place i next_state prefetching p =
    on_link_resolved g changed place i next_state prefetching p
resolve_or_play g known_airable_link changed place i next_state prefetching p =
    (begin_resolve place i p, true)
resolve_or_play g resolving_link changed place i next_state prefetching p = (p, true)
resolve_or_play g broken changed place i next_state prefetching p = (p, false)

unfoldable pub resolve_selected_url_or_play_uri :
    Pipeline → Bool → Place → GstState → Bool → Player → Player × Bool
resolve_selected_url_or_play_uri g pipeline_has_changed place next_state is_prefetching_for_gapless
      p =
    elim (item_at place p) [
      | none ↦ (p, false)
      | some i ↦
          resolve_or_play g (get_selected_url_state i) pipeline_has_changed place i next_state
            is_prefetching_for_gapless p
    ]

unfoldable pub retire : Option Place → Bool → Player → Player
retire none is_skipping p = p
retire (some place) is_skipping p =
    set_state_at (if is_skipping then about_to_be_skipped else about_to_phase_out) place p

-- A request that comes while the next stream is in activation is deferred.
unfoldable pub deferred : Option Place → NextStreamRequestState → Player → Player
deferred none requested p = record p { next_stream_request = request_deferred }
deferred _ _ p = p

unfoldable pub play_next :
    Pipeline → ItemState → Option Place → Place → GstState → Bool → Bool → Player → Player × Bool
play_next g in_queue replaced next next_state is_skipping prefetching p =
    resolve_selected_url_or_play_uri g false next next_state prefetching
      (retire replaced is_skipping (set_state_at about_to_activate next p))
play_next g about_to_activate replaced next next_state is_skipping prefetching p =
    (deferred replaced p.next_stream_request p, true)
play_next g active_half_playing replaced next next_state is_skipping prefetching p = (p, false)
play_next g active_now_playing replaced next next_state is_skipping prefetching p = (p, false)
play_next g about_to_phase_out replaced next next_state is_skipping prefetching p = (p, false)
play_next g about_to_be_skipped replaced next next_state is_skipping prefetching p = (p, false)

-- The pipeline has not changed, which the code asserts.
unfoldable pub play_next_stream :
    Pipeline → Option Place → Place → GstState → Bool → Bool → Player → Player × Bool
play_next_stream g replaced next next_state is_skipping is_prefetching_for_gapless p =
    elim (item_at next p) [
      | none ↦ (p, false)
      | some i ↦
          play_next g i.state replaced next next_state is_skipping is_prefetching_for_gapless p
    ]
