-- ===== src/Item.antt =====
-- An item of the queue, src/playitem.hh and src/playitem.cc (class PlayQueue::Item).
-- The start and stop times and the stream data (tags, cover art) are left out: nothing here reads
-- them. The resolver is the link that a call for its redirection has been made for; that call may
-- answer at once, which is then a call of `resolver_finish` after `resolver_begin`. An access to
-- the selected URL of an item that has none is `none`. MSG_BUG_IF writes to the log if its test
-- holds, and such a report is part of the result where it is of interest.
pub mod Retry
pub mod Resolve
pub mod Failure
mod Tests
use Prim.Native.String.{String}
use streamplayer.Base.{
  ℕ, suc, ◌+◌, Bool, true, false, not, Option, none, some, length, ltb, if◌then◌else◌,
}
use streamplayer.Reasons.{Reason, unknown}
use streamplayer.UsbUrl.{Host, is_blank}
use streamplayer.Urls.{
  Url, get_stream_uri, set_resolved_uri, clear_expired_uri, StreamUrls, is_empty, select_next_index,
  get_selected, set_selected, StreamType, determine_stream_type_from_url, local_file,
}

pub data ItemState : Type 0 where
  in_queue about_to_activate active_half_playing active_now_playing : ItemState
  about_to_phase_out about_to_be_skipped : ItemState

pub data FailState : Type 0 where
  not_failed failure_detected : FailState

pub data UrlState : Type 0 where
  known_direct_url known_airable_link resolving_link known_resolved_url broken : UrlState

pub data PipelineStartRequired : Type 0 where
  not_required start_now when_ready : PipelineStartRequired

pub data ResolverResult : Type 0 where
  resolved have_more_urls failed : ResolverResult

pub record Item : Type 0 where
  pub state : ItemState
  pub fail_state : FailState
  pub prefail_reason : Reason
  pub stream_id : ℕ
  pub stream_urls : StreamUrls
  pub resolver : Option String
  pub pipeline_start_required_after_resolve : Bool
  pub enable_realtime_processing : Bool
  pub stream_type : StreamType

first_type : Host → Option Url → StreamType
first_type h none = StreamType.empty
first_type h (some u) = determine_stream_type_from_url h u

-- The constructor. The selected URL of a new collection is its first one.
unfoldable pub new : Host → ℕ → StreamUrls → Bool → Item
unfolding first_type
new h stream_id stream_urls enable_realtime_processing = record {
  state = in_queue;
  fail_state = not_failed;
  prefail_reason = unknown;
  stream_id = stream_id;
  stream_urls = stream_urls;
  resolver = none;
  pipeline_start_required_after_resolve = false;
  enable_realtime_processing = enable_realtime_processing;
  stream_type = first_type h (get_selected (record stream_urls { selected_url = 0 }));
}

unfoldable pub set_state : ItemState → Item → Item
set_state s i = record i { state = s }

unfoldable pub disable_realtime : Item → Item
disable_realtime i = record i { enable_realtime_processing = false }

unfoldable pub is_unknown : Reason → Bool
is_unknown unknown = true
is_unknown _ = false

-- The first reason is kept.
unfoldable pub prefail : Reason → Item → Item × Bool
unfolding is_unknown
prefail reason i =
    if is_unknown i.prefail_reason then (record i { prefail_reason = reason }, true) else (i, false)

unfoldable pub has_prefailed : Item → Bool
unfolding is_unknown
has_prefailed i = not (is_unknown i.prefail_reason)

fail_from : FailState → Item → Item × Bool
fail_from not_failed i = (record i { fail_state = failure_detected }, true)
fail_from failure_detected i = (i, false)

unfoldable pub fail : Item → Item × Bool
unfolding fail_from
fail i = fail_from i.fail_state i

-- From whether the URI to play is empty, and whether the URL is a link.
url_state : Bool → Bool → UrlState
url_state true is_airable_link = if is_airable_link then known_airable_link else broken
url_state false is_airable_link = if is_airable_link then known_resolved_url else known_direct_url

selected_state : Option Url → UrlState
unfolding url_state
selected_state none = broken
selected_state (some u) = let (uri, is_link) = get_stream_uri u in url_state (is_blank uri) is_link

unfoldable pub get_selected_url_state : Item → UrlState
unfolding selected_state
get_selected_url_state i =
    let s = selected_state (get_selected i.stream_urls) in
    if is_empty i.stream_urls
    then broken
    else elim i.resolver [ none ↦ s | some _ ↦ resolving_link ]

-- What is left of the selected URL, and whether it has been cleared.
refresh_or_next : Item → Url × Bool → Item × Bool
refresh_or_next i (u, true) = (record i { stream_urls = set_selected u i.stream_urls }, true)
refresh_or_next i (u, false) =
    let (urls, advanced) = select_next_index (set_selected u i.stream_urls) in
    (record i { stream_urls = urls }, advanced)

unfoldable pub select_next_url : ℕ → Item → Option (Item × Bool)
unfolding refresh_or_next
select_next_url now i = elim (get_selected i.stream_urls) [
  | none ↦ none
  | some u ↦ some (refresh_or_next i (clear_expired_uri now u))
]

-- Whether a new start is required is asked once: the answer takes the mark off.
unfoldable pub is_pipeline_start_required : Item → Item × Bool
is_pipeline_start_required i = (
  record i { pipeline_start_required_after_resolve = false },
  i.pipeline_start_required_after_resolve,
)

start_when : UrlState → PipelineStartRequired
start_when known_direct_url = start_now
start_when known_resolved_url = start_now
start_when resolving_link = when_ready
start_when known_airable_link = not_required
start_when broken = not_required

-- The last part of the result is whether a bug is reported.
unfoldable pub pipeline_start_required_when_ready : Item → Item × PipelineStartRequired × Bool
unfolding start_when
pipeline_start_required_when_ready i = (
  record i { pipeline_start_required_after_resolve = true },
  start_when (get_selected_url_state i),
  not i.pipeline_start_required_after_resolve,
)

-- The second part of the result is whether a running resolver has been aborted.
unfoldable pub resolver_begin : Item → Option (Item × Bool)
resolver_begin i = elim (get_selected i.stream_urls) [
  | none ↦ none
  | some u ↦ some (
    record i { resolver = some u.original_url_string },
    elim i.resolver [ none ↦ false | some _ ↦ true ],
  )
]

-- resolver_finish(url_state), for a link that could not be resolved.
unfoldable pub resolver_finish_failed : ℕ → Item → Option (Item × ResolverResult)
resolver_finish_failed now i = elim (get_selected i.stream_urls) [
  | none ↦ none
  | some u ↦
      let urls = set_selected (set_resolved_uri "" 0 now u) i.stream_urls in
      some (
        record i { stream_urls = urls; resolver = none },
        if ltb (urls.selected_url + 1) (length urls.urls) then have_more_urls else failed,
      )
]

-- resolver_finish(uri, expected_valid).
unfoldable pub resolver_finish : String → ℕ → ℕ → Item → Option (Item × ResolverResult)
resolver_finish uri expected_valid now i =
    if is_blank uri then resolver_finish_failed now i else elim (get_selected i.stream_urls) [
      | none ↦ none
      | some u ↦
          let urls = set_selected (set_resolved_uri uri expected_valid now u) i.stream_urls in
          some (record i { stream_urls = urls; resolver = none }, resolved)
    ]

unfoldable pub get_url_for_playing : Item → Option String
get_url_for_playing i = elim (get_selected i.stream_urls) [
  | none ↦ none
  | some u ↦ some (get_stream_uri u).0
]

unfoldable pub get_url_for_reporting : Item → Option String
get_url_for_reporting i = elim (get_selected i.stream_urls) [
  | none ↦ none
  | some u ↦ some u.original_url_string
]

is_local : StreamType → Bool
is_local local_file = true
is_local _ = false

unfoldable pub is_network_stream : Item → Bool
unfolding is_local
is_network_stream i = not (is_local i.stream_type)
