-- ===== src/Player.antt =====
-- The player's state, and how it stops and recovers from errors, src/streamer.cc.
-- The state is what the locked objects of StreamerData hold, as far as it is used here: the pipeline
-- with its number, a new one for each that is created, its property `uri` and the states it has been
-- asked for and the positions it has been asked to seek, the latest first; the stream that is
-- handled and whether it is to survive the next stop, how far the next one has been requested, the
-- buffering state, the queue, the failure data, the times that are shown and whether they are watched,
-- the position at which the next stream is to start, whether the threads are boosted, and the status
-- the player is supposed to have. `signals` are the signals that have been emitted, the latest first.
-- The log is left out. In a signal the URL of a stream that has none is `none`, and stream keys and tags
-- are left out. The order of the stream IDs that have been marked as dropped is not specified in C++.
-- A time in seconds is `invalid` for INT64_MAX and `undetermined` for -1.
pub mod Service
pub mod Recovery
pub mod Take
pub mod Play
pub mod Requests
pub mod Next
pub mod Resolved
pub mod Progress
pub mod Filling
pub mod Activation
pub mod StateChange
pub mod ErrorMessage
pub mod Seeking
pub mod Events
pub mod Samples
mod Tests
mod EventTests
mod ErrorTests
use Prim.Native.String.{String}
use streamplayer.Base.{
  ℕ, suc, ◌+◌, Bool, true, false, not, Option, none, some, List, [], ◌∷◌, ◌++◌, map, ◌==◌,
  if◌then◌else◌,
}
use streamplayer.Queue.{Queue, contains, clear, is_empty, get_removed, get_dropped}
use streamplayer.Queue.History.{present}
use streamplayer.Buffering.{Data, reset}
use streamplayer.Reasons.{Reason, unknown, as_string}
use streamplayer.Item.{Item, get_url_for_reporting}

pub data NextStreamRequestState : Type 0 where
  not_requested requested request_deferred : NextStreamRequestState

pub data GstState : Type 0 where
  void_pending null ready paused playing : GstState

pub data PlayStatus : Type 0 where
  stopped playing paused : PlayStatus

pub record FailureDetails : Type 0 where
  pub reason : Reason
  pub clear_fifo_on_error : Bool
  pub report_on_stream_stop : Bool

pub record FailureData : Type 0 where
  pub is_failing : Bool
  pub details : FailureDetails

pub data Seconds : Type 0 where
  invalid undetermined : Seconds
  at : ℕ → Seconds

pub record TimeData : Type 0 where
  pub position_s : Seconds
  pub duration_s : Seconds

-- Who has sent a message: a pipeline, by its number, or an element in one.
pub data Sender : Type 0 where
  from_pipeline : ℕ → Sender
  from_element : Sender

-- The signals of the interface Playback, with the stream's ID where they have one. Stopped: the IDs
-- that have been dropped. StoppedWithError: the URL, whether the queue is empty, the IDs that have been
-- dropped, and the reason. NowPlaying: the URL, whether the queue is full, and the IDs that have
-- been dropped. PauseState: whether it is paused. Buffer: the level, and whether it is buffering.
-- PositionChanged: the position and the duration.
pub data Signal : Type 0 where
  emits_stopped : ℕ → List ℕ → Signal
  emits_stopped_with_error : ℕ → Option String → Bool → List ℕ → String → Signal
  emits_now_playing : ℕ → Option String → Bool → List ℕ → Signal
  emits_pause_state : ℕ → Bool → Signal
  emits_buffer : ℕ → Bool → Signal
  emits_position_changed : ℕ → Seconds → Seconds → Signal

pub record Player : Type 0 where
  pub pipeline : ℕ
  pub uri : String
  pub asked_states : List GstState
  pub asked_seeks : List ℕ
  pub current_stream_protected_once : Bool
  pub current_stream : Option Item
  pub next_stream_request : NextStreamRequestState
  pub stream_has_just_started : Bool
  pub stream_buffering_data : Data
  pub queue : Queue Item
  pub failure : FailureData
  pub previous_time : TimeData
  pub current_time : TimeData
  pub progress_watcher : Bool
  pub initial_seek_position_ns : Option ℕ
  pub is_boost_enabled : Bool
  pub supposed_play_status : PlayStatus
  pub signals : List Signal

-- Whether the pipeline that is locked is the one that the sender belongs to, as far as it is checked: a
-- message from an element is taken for one of the pipeline in use.
unfoldable pub is_same_pipeline : Sender → Player → Bool
is_same_pipeline (from_pipeline n) p = n == p.pipeline
is_same_pipeline from_element p = true

-- FailureDetails, by whether the failure is to be reported on stop, and FailureData::reset().
unfoldable pub details_on_stop : Bool → FailureDetails
details_on_stop report_on_stop = record {
  reason = unknown;
  clear_fifo_on_error = false;
  report_on_stream_stop = report_on_stop;
}

unfoldable pub no_failure : FailureData
unfolding details_on_stop
no_failure = record { is_failing = false; details = details_on_stop false }

unfoldable pub fail_with : Reason → Bool → FailureData → FailureData
fail_with reason clear_fifo_on_error f = record {
  is_failing = true;
  details = record f.details { reason = reason; clear_fifo_on_error = clear_fifo_on_error };
}

unfoldable pub ids : List Item → List ℕ
ids [] = []
ids (i ∷ is) = i.stream_id ∷ ids is

-- The IDs that are not among the others.
unfoldable pub others : List ℕ → List ℕ → List ℕ
others [] known = []
others (i ∷ is) known = let rest = others is known in if contains i known then rest else i ∷ rest

unfoldable pub mk_id_array : List Item → List ℕ → List ℕ
unfolding ids others
mk_id_array input dropped = ids input ++ others dropped (ids input)

-- Both parts of what has been dropped are taken out of the queue.
unfoldable pub mk_id_array_from_dropped_items : Queue Item → Queue Item × List ℕ
mk_id_array_from_dropped_items q =
    let (q', removed) = get_removed q in
    let (q'', dropped) = get_dropped q' in (q'', mk_id_array (present removed) dropped)

unfoldable pub mk_id_array_from_queued_items : Queue Item → List ℕ
mk_id_array_from_queued_items q = mk_id_array q.queue []

unfoldable pub invalidate_position_information : TimeData
invalidate_position_information = record { position_s = invalid; duration_s = invalid }

-- What emit_stopped() and emit_stopped_with_error() do first.
unfoldable pub set_stopped : Player → Player
set_stopped p = record p {
  supposed_play_status = PlayStatus.stopped;
  stream_buffering_data = reset p.stream_buffering_data;
  is_boost_enabled = false;
  uri = "";
}

unfoldable pub emit : Signal → Player → Player
emit s p = record p { signals = s ∷ p.signals }

unfoldable pub report_stopped : Option Item → List ℕ → Player → Player
report_stopped none [] p = p
report_stopped none (d ∷ ds) p = emit (emits_stopped 0 (d ∷ ds)) p
report_stopped (some i) ds p = emit (emits_stopped i.stream_id ds) p

unfoldable pub emit_stopped : Player → Player
emit_stopped p =
    let (q, dropped_ids) = mk_id_array_from_dropped_items p.queue in
    report_stopped p.current_stream dropped_ids (record (set_stopped p) { queue = q })

unfoldable pub stopped_with_error : Reason → List ℕ → Bool → Option Item → Signal
stopped_with_error reason dropped_ids queue_is_empty none =
    emits_stopped_with_error 0 (some "") queue_is_empty dropped_ids (as_string reason)
stopped_with_error reason dropped_ids queue_is_empty (some i) =
    emits_stopped_with_error i.stream_id (get_url_for_reporting i) queue_is_empty dropped_ids
      (as_string reason)

unfoldable pub emit_stopped_with_error : Reason → Option Item → Player → Player
emit_stopped_with_error reason failed_stream p =
    let (q, dropped_ids) = mk_id_array_from_dropped_items p.queue in
    emit (stopped_with_error reason dropped_ids (is_empty q) failed_stream)
      (record (set_stopped p) { queue = q })

-- The old pipeline is asked for the state NULL and thrown away; the new one has no
-- URI and is asked for READY.
unfoldable pub rebuild_playbin : Player → Player
rebuild_playbin p = record p {
  pipeline = suc p.pipeline;
  is_boost_enabled = false;
  uri = "";
  asked_states = ready ∷ null ∷ p.asked_states;
}

unfoldable pub do_stop_pipeline_and_recover_from_error : Player → Player
do_stop_pipeline_and_recover_from_error p =
    let q = if p.failure.details.clear_fifo_on_error then (clear 0 p.queue).0 else p.queue in
    let wiped = record (rebuild_playbin p) {
      queue = q;
      previous_time = invalidate_position_information;
      current_stream = none;
    } in
    record (emit_stopped_with_error p.failure.details.reason p.current_stream wiped) {
      stream_has_just_started = false;
      next_stream_request = not_requested;
      failure = no_failure;
    }

unfoldable pub do_error_recovery : Reason → Player → Player
do_error_recovery reason p =
    do_stop_pipeline_and_recover_from_error
      (record p { next_stream_request = not_requested; failure = fail_with reason false p.failure })

unfoldable pub recover_from_error_now_or_later : FailureDetails → Player → Player
recover_from_error_now_or_later fd p =
    if fd.report_on_stream_stop
    then record p { failure = record p.failure { details = fd } }
    else do_error_recovery fd.reason p
