-- ===== src/Player/Resolved.antt =====
-- ResolveAirableRedirectContext::notify() of src/streamer.cc: what the player does when the call that
-- resolves a link is over.
-- The call's state and result are what it is told; the time is a parameter. The states of a call that
-- is not over make the function return at once. An item without URLs, which the code does not
-- resolve, stays as it is.
pub mod Playing
use Prim.Native.String.{String}
use streamplayer.Base.{ℕ, Bool, true, false, Option, none, some, ◌==◌, if◌then◌else◌}
use streamplayer.Queue.{peek}
use streamplayer.Item.{
  Item, ResolverResult, resolved, have_more_urls, failed, select_next_url, resolver_finish,
  resolver_finish_failed,
}
use streamplayer.Player.{Player, GstState}
use streamplayer.Player.Play.{
  Pipeline, Place, handled, queue_head, item_at, put_at, on_link_resolved,
  resolve_selected_url_or_play_uri,
}

-- How the call has ended: the result is read, or reading it throws, or it has been aborted or failed.
pub data Ended : Type 0 where
  not_over : Ended
  result_fetched : String → ℕ → Ended
  result_throws aborted failed_call : Ended

unfoldable pub has_id : ℕ → Option Item → Bool
has_id id none = false
has_id id (some i) = i.stream_id == id

-- The item is the one that is handled, or else the head of the queue.
unfoldable pub find_item : ℕ → Player → Option Place
find_item id p =
    if has_id id p.current_stream
    then some handled
    else (if has_id id (peek p.queue) then some queue_head else none)

-- Everything that the call throws is a std::exception here, which is what the code catches.
unfoldable pub finish_resolver : Ended → ℕ → Item → Option (Item × ResolverResult)
finish_resolver not_over now i = none
finish_resolver (result_fetched uri expected_valid) now i = resolver_finish uri expected_valid now i
finish_resolver result_throws now i = resolver_finish_failed now i
finish_resolver aborted now i = resolver_finish_failed now i
finish_resolver failed_call now i = resolver_finish_failed now i

unfoldable pub try_next_url :
    Pipeline → Place → GstState → Bool → Option (Item × Bool) → Player → Player
try_next_url g place next_state is_prefetching_for_gapless none p = p
try_next_url g place next_state is_prefetching_for_gapless (some (i, false)) p = put_at place i p
try_next_url g place next_state is_prefetching_for_gapless (some (i, true)) p =
    (resolve_selected_url_or_play_uri g false place next_state is_prefetching_for_gapless
      (put_at place i p)).0

unfoldable pub go_on :
    Pipeline → Place → GstState → Bool → ℕ → Item → ResolverResult → Player → Player
go_on g place next_state is_prefetching_for_gapless now i resolved p =
    (on_link_resolved g false place i next_state is_prefetching_for_gapless p).0
go_on g place next_state is_prefetching_for_gapless now i have_more_urls p =
    try_next_url g place next_state is_prefetching_for_gapless (select_next_url now i) p
go_on g place next_state is_prefetching_for_gapless now i failed p = p

unfoldable pub finish_at :
    Pipeline → Place → GstState → Bool → ℕ → Option (Item × ResolverResult) → Player → Player
finish_at g place next_state is_prefetching_for_gapless now none p = p
finish_at g place next_state is_prefetching_for_gapless now (some (i, result)) p =
    go_on g place next_state is_prefetching_for_gapless now i result (put_at place i p)

unfoldable pub finish_found :
    Pipeline → Ended → GstState → Bool → ℕ → Option Place → Player → Player
finish_found g ended next_state is_prefetching_for_gapless now none p = p
finish_found g ended next_state is_prefetching_for_gapless now (some place) p =
    elim (item_at place p) [
      | none ↦ p
      | some i ↦
          finish_at g place next_state is_prefetching_for_gapless now (finish_resolver ended now i)
            p
    ]

-- The context holds the stream's ID, the next state and whether it prefetches.
unfoldable pub notify : Pipeline → Ended → ℕ → GstState → Bool → ℕ → Player → Player
notify g ended stream_id next_state is_prefetching_for_gapless now p =
    finish_found g ended next_state is_prefetching_for_gapless now (find_item stream_id p) p
