-- ===== src/Player/ErrorMessage.antt =====
-- Error messages of the pipeline: determine_failed_stream(), the retry with another URL, and
-- handle_error_message() of src/streamer.cc.
-- The URI that the pipeline plays is "" where there is none. An error while the stream that the code
-- uses is not there, a null pointer, changes nothing but what has been changed before. The time is a
-- parameter. `failed_next` are the cases in which the code pops the failed item off the queue.
pub mod Prefetched
pub mod Retrying
pub mod GivingUp
use Prim.Native.String.{String}
use text.Mathlib.Text.{◌==◌ as str_eq}
use streamplayer.Base.{
  ℕ, ◌*◌, Bool, true, false, not, ◌&&◌, Option, none, some, List, [], ◌∷◌, ltb, if◌then◌else◌,
}
use streamplayer.Queue.{pop, peek, mark_as_dropped}
use streamplayer.Reasons.{
  Reason, unknown, queue_empty, already_stopped, physical_media_io, net_io, url_missing, protocol,
  authentication, does_not_exist, wrong_type, permission_denied, missing_codec, wrong_stream_format,
  broken_stream, encrypted, decryption_not_supported, GError, from_gerror,
}
use streamplayer.Item.{
  Item, about_to_activate, set_state, has_prefailed, fail, get_url_for_playing, is_network_stream,
  select_next_url,
}
use streamplayer.Player.{
  Player, GstState, null, paused, playing, not_requested, PlayStatus, Sender, is_same_pipeline,
  Seconds, invalid, undetermined, at, invalidate_position_information, details_on_stop, no_failure,
  emit_stopped_with_error, rebuild_playbin,
}
use streamplayer.Player.Take.{fail_current}
use streamplayer.Player.Play.{
  Pipeline, Place, handled, set_stream_state, resolve_selected_url_or_play_uri,
}

pub data WhichStreamFailed : Type 0 where
  nothing_known current current_with_prefail_reason gapless_next : WhichStreamFailed
  gapless_next_with_prefail_reason already_gone : WhichStreamFailed

unfoldable pub plays : String → Option Item → Bool
plays uri none = false
plays uri (some i) = elim (get_url_for_playing i) [ none ↦ false | some url ↦ str_eq url uri ]

unfoldable pub is_prefailed : Option Item → Bool
is_prefailed none = false
is_prefailed (some i) = has_prefailed i

unfoldable pub without_uri : Option Item → WhichStreamFailed
without_uri none = already_gone
without_uri (some i) = nothing_known

unfoldable pub determine_failed_stream : Option Item → String → Option Item → WhichStreamFailed
determine_failed_stream current_stream current_uri next =
    if is_prefailed current_stream
    then (if str_eq current_uri ""
        then gapless_next_with_prefail_reason
        else current_with_prefail_reason)
    else (if str_eq current_uri ""
        then without_uri current_stream
        else (if plays current_uri current_stream
            then current
            else (if plays current_uri next then gapless_next else nothing_known)))

-- The failures for which another URL is worth a try.
unfoldable pub is_worth_a_retry : Reason → Bool
is_worth_a_retry unknown = false
is_worth_a_retry queue_empty = false
is_worth_a_retry already_stopped = false
is_worth_a_retry physical_media_io = false
is_worth_a_retry authentication = false
is_worth_a_retry net_io = true
is_worth_a_retry url_missing = true
is_worth_a_retry protocol = true
is_worth_a_retry does_not_exist = true
is_worth_a_retry wrong_type = true
is_worth_a_retry permission_denied = true
is_worth_a_retry missing_codec = true
is_worth_a_retry wrong_stream_format = true
is_worth_a_retry broken_stream = true
is_worth_a_retry encrypted = true
is_worth_a_retry decryption_not_supported = true

-- The position at which the retry starts; 9_223_372_036 is INT64_MAX / GST_SECOND.
unfoldable pub seek_position : Seconds → Option ℕ → Option ℕ
seek_position invalid old = old
seek_position undetermined old = old
seek_position (at n) old = if ltb 0 n && ltb n 9_223_372_036 then some (n * 1_000_000_000) else old

unfoldable pub retry_state : PlayStatus → GstState
retry_state PlayStatus.playing = playing
retry_state PlayStatus.paused = paused
retry_state PlayStatus.stopped = paused

-- With the item whose next URL has been selected.
unfoldable pub retry : Pipeline → Bool → Item → Player → Player × Bool
retry g is_prefetching_for_gapless i p =
    resolve_selected_url_or_play_uri g false handled (retry_state p.supposed_play_status)
      is_prefetching_for_gapless
      (record (rebuild_playbin p) {
        current_stream = some (set_state about_to_activate i);
        current_stream_protected_once = true;
        initial_seek_position_ns =
            seek_position p.current_time.position_s p.initial_seek_position_ns;
      })

unfoldable pub try_selected : Pipeline → Bool → Option (Item × Bool) → Player → Player × Bool
try_selected g is_prefetching_for_gapless none p = (p, false)
try_selected g is_prefetching_for_gapless (some (i, false)) p =
    (record p { current_stream = some i }, false)
try_selected g is_prefetching_for_gapless (some (i, true)) p =
    retry g is_prefetching_for_gapless i p

unfoldable pub try_refresh_uri_or_resolve_alternative_uri :
    Pipeline → Bool → ℕ → Player → Player × Bool
try_refresh_uri_or_resolve_alternative_uri g is_prefetching_for_gapless now p =
    elim p.current_stream [
      | none ↦ (p, false)
      | some i ↦ try_selected g is_prefetching_for_gapless (select_next_url now i) p
    ]

unfoldable pub retry_for : Pipeline → Bool → ℕ → Reason → Player → Player × Bool
retry_for g is_prefetching_for_gapless now failure_reason p =
    if is_worth_a_retry failure_reason
    then try_refresh_uri_or_resolve_alternative_uri g is_prefetching_for_gapless now p
    else (p, false)

unfoldable pub current_failed : Pipeline → ℕ → Reason → Player → Player
current_failed g now failure_reason p =
    let (q, retries) = retry_for g false now failure_reason p in
    if retries
    then q
    else fail_current (record (details_on_stop false) { reason = failure_reason }) q.current_stream
        q

unfoldable pub mark_current_as_dropped : Option Item → Player → Player
mark_current_as_dropped none p = p
mark_current_as_dropped (some i) p = record p { queue = mark_as_dropped i.stream_id p.queue }

unfoldable pub stop_for_next : Pipeline → Reason → Item → Player → Player
stop_for_next g failure_reason i p =
    record (emit_stopped_with_error failure_reason (some i)
      (record (set_stream_state g null p).0 { previous_time = invalidate_position_information })) {
        failure = no_failure;
        stream_has_just_started = false;
        next_stream_request = not_requested;
        current_stream = none;
      }

unfoldable pub fail_item : Pipeline → Reason → Option Item → Player → Player
fail_item g failure_reason none p = p
fail_item g failure_reason (some i) p =
    let (j, first) = fail i in if first then stop_for_next g failure_reason j p else p

-- The failed item has been popped.
unfoldable pub next_failed : Pipeline → ℕ → Reason → Option Item → Player → Player
next_failed g now failure_reason failed_item p =
    let (q, retries) = retry_for g true now failure_reason p in
    if retries
    then q
    else fail_item g failure_reason failed_item (mark_current_as_dropped q.current_stream q)

unfoldable pub reason_for : GError → Item → Reason
reason_for error i = from_gerror error (not (is_network_stream i))

unfoldable pub handle_failed : Pipeline → GError → ℕ → WhichStreamFailed → Player → Player
handle_failed g error now already_gone p = p
handle_failed g error now nothing_known p = p
handle_failed g error now current p = elim p.current_stream [
  | none ↦ p
  | some i ↦ current_failed g now (reason_for error i) p
]
handle_failed g error now current_with_prefail_reason p = elim p.current_stream [
  | none ↦ p
  | some i ↦ current_failed g now i.prefail_reason p
]
handle_failed g error now gapless_next p =
    let (q, failed_item) = pop p.queue in
    let popped = record p { queue = q } in
    elim p.current_stream [
      | none ↦ popped
      | some i ↦ next_failed g now (reason_for error i) failed_item popped
    ]
handle_failed g error now gapless_next_with_prefail_reason p =
    let (q, failed_item) = pop p.queue in
    let popped = record p { queue = q } in
    elim failed_item [ none ↦ popped | some j ↦ next_failed g now j.prefail_reason (some j) popped ]

unfoldable pub handle_error_message : Pipeline → Sender → GError → ℕ → Player → Player
handle_error_message g sender error now p =
    if is_same_pipeline sender p
    then handle_failed g error now
        (determine_failed_stream p.current_stream g.current_uri (peek p.queue))
        (record p { initial_seek_position_ns = none })
    else p
