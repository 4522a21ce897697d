-- ===== src/Player/Events/Quiet/Errors.antt =====
-- Errors of the pipeline, the end of a call that resolves a link, and what happens once a stream has
-- prerolled keep the threads from being boosted while the player waits for data.
use Prim.Native.String.{String}
use streamplayer.Base.{ℕ, Bool, true, false, Option-cases, inl, inr, Option, none, some}
use streamplayer.Queue.{pop}
use streamplayer.Reasons.{Reason, GError}
use streamplayer.Item.{Item, ResolverResult, resolved, have_more_urls, failed}
use streamplayer.Player.{
  Player, GstState, Sender, Seconds, invalid, undetermined, at, rebuild_playbin,
}
use streamplayer.Player.Play.{Pipeline, Place, set_stream_state, item_at}
use streamplayer.Player.Resolved.{Ended, try_next_url, go_on, finish_at, finish_found, notify}
use streamplayer.Player.ErrorMessage.{
  WhichStreamFailed, nothing_known, current, current_with_prefail_reason, gapless_next,
  gapless_next_with_prefail_reason, already_gone, retry, try_selected,
  try_refresh_uri_or_resolve_alternative_uri, retry_for, current_failed, mark_current_as_dropped,
  stop_for_next, fail_item, next_failed, reason_for, handle_failed, handle_error_message,
}
use streamplayer.Player.Seeking.{
  do_seek, seek_to, seek_within, seek, set_duration, seek_initially, handle_stream_duration_async,
  handle_clock_lost_message, handle_request_state_message,
}
use streamplayer.Player.Events.Quiet.{
  IsQuiet, and_false, if-IsQuiet, if_pair-IsQuiet, put_at-IsQuiet, do_encourage_buffering-IsQuiet,
  resolve_selected-IsQuiet, on_link_resolved-IsQuiet,
}
use streamplayer.Player.Events.Quiet.Taking.{emit_stopped_with_error-IsQuiet, fail_current-IsQuiet}

retry-IsQuiet : (g : Pipeline) (b : Bool) (i : Item) (p : Player) → IsQuiet (retry g b i p).0
unfolding retry rebuild_playbin
retry-IsQuiet g b i p = resolve_selected-IsQuiet g _ _ _ _ _ (and_false _)

try_selected-IsQuiet :
    (g : Pipeline) (b : Bool) (o : Option (Item × Bool)) (p : Player)
    → IsQuiet p
    → IsQuiet (try_selected g b o p).0
unfolding try_selected
try_selected-IsQuiet g b none p h = h
try_selected-IsQuiet g b (some (i, false)) p h = h
try_selected-IsQuiet g b (some (i, true)) p h = retry-IsQuiet g b i p

try_refresh-IsQuiet :
    (g : Pipeline) (b : Bool) (now : ℕ) (p : Player)
    → IsQuiet p
    → IsQuiet (try_refresh_uri_or_resolve_alternative_uri g b now p).0
unfolding try_refresh_uri_or_resolve_alternative_uri
try_refresh-IsQuiet g b now p h = elim (Option-cases p.current_stream) [
  | inl e ↦ rw (e, try_refresh_uri_or_resolve_alternative_uri) h
  | inr (i, e) ↦ rw (e, try_refresh_uri_or_resolve_alternative_uri) (try_selected-IsQuiet g b _ p h)
]

retry_for-IsQuiet :
    (g : Pipeline) (b : Bool) (now : ℕ) (reason : Reason) (p : Player)
    → IsQuiet p
    → IsQuiet (retry_for g b now reason p).0
unfolding retry_for
retry_for-IsQuiet g b now reason p h = if_pair-IsQuiet _ _ _ (try_refresh-IsQuiet g b now p h) h

current_failed-IsQuiet :
    (g : Pipeline) (now : ℕ) (reason : Reason) (p : Player)
    → IsQuiet p
    → IsQuiet (current_failed g now reason p)
unfolding current_failed
current_failed-IsQuiet g now reason p h =
    let k = retry_for-IsQuiet g false now reason p h in
    if-IsQuiet _ _ _ k (fail_current-IsQuiet _ _ _ k)

stop_for_next-IsQuiet :
    (g : Pipeline) (reason : Reason) (i : Item) (p : Player) → IsQuiet (stop_for_next g reason i p)
unfolding stop_for_next
stop_for_next-IsQuiet g reason i p = emit_stopped_with_error-IsQuiet reason _ _

fail_item-IsQuiet :
    (g : Pipeline) (reason : Reason) (o : Option Item) (p : Player)
    → IsQuiet p
    → IsQuiet (fail_item g reason o p)
unfolding fail_item
fail_item-IsQuiet g reason none p h = h
fail_item-IsQuiet g reason (some i) p h = if-IsQuiet _ _ _ (stop_for_next-IsQuiet g reason _ p) h

mark-IsQuiet : (o : Option Item) (p : Player) → IsQuiet p → IsQuiet (mark_current_as_dropped o p)
unfolding mark_current_as_dropped
mark-IsQuiet none p h = h
mark-IsQuiet (some i) p h = h

next_failed-IsQuiet :
    (g : Pipeline) (now : ℕ) (reason : Reason) (o : Option Item) (p : Player)
    → IsQuiet p
    → IsQuiet (next_failed g now reason o p)
unfolding next_failed
next_failed-IsQuiet g now reason o p h =
    let k = retry_for-IsQuiet g true now reason p h in
    if-IsQuiet _ _ _ k (fail_item-IsQuiet g reason o _ (mark-IsQuiet _ _ k))

handle_failed-IsQuiet :
    (g : Pipeline) (error : GError) (now : ℕ) (w : WhichStreamFailed) (p : Player)
    → IsQuiet p
    → IsQuiet (handle_failed g error now w p)
unfolding handle_failed
handle_failed-IsQuiet g error now already_gone p h = h
handle_failed-IsQuiet g error now nothing_known p h = h
handle_failed-IsQuiet g error now current p h = elim (Option-cases p.current_stream) [
  | inl e ↦ rw (e, handle_failed) h
  | inr (i, e) ↦ rw (e, handle_failed) (current_failed-IsQuiet g now _ p h)
]
handle_failed-IsQuiet g error now current_with_prefail_reason p h =
    elim (Option-cases p.current_stream) [
      | inl e ↦ rw (e, handle_failed) h
      | inr (i, e) ↦ rw (e, handle_failed) (current_failed-IsQuiet g now _ p h)
    ]
handle_failed-IsQuiet g error now gapless_next p h = elim (Option-cases p.current_stream) [
  | inl e ↦ rw (e, handle_failed) h
  | inr (i, e) ↦ rw (e, handle_failed) (next_failed-IsQuiet g now (reason_for error i) _ _ h)
]
handle_failed-IsQuiet g error now gapless_next_with_prefail_reason p h =
    elim (Option-cases (pop p.queue).1) [
      | inl e ↦ rw (e, handle_failed) h
      | inr (i, e) ↦ rw (e, handle_failed) (next_failed-IsQuiet g now i.prefail_reason _ _ h)
    ]

pub error-IsQuiet :
    (g : Pipeline) (s : Sender) (error : GError) (now : ℕ) (p : Player)
    → IsQuiet p
    → IsQuiet (handle_error_message g s error now p)
unfolding handle_error_message
error-IsQuiet g s error now p h = if-IsQuiet _ _ _ (handle_failed-IsQuiet g error now _ _ h) h

seek_to-IsQuiet :
    (g : Pipeline) (duration : ℕ) (o : Option ℕ) (p : Player)
    → IsQuiet p
    → IsQuiet (seek_to g duration o p).0
unfolding seek_to do_seek
seek_to-IsQuiet g duration none p h = h
seek_to-IsQuiet g duration (some n) p h =
    if_pair-IsQuiet _ _ _ h
      (if_pair-IsQuiet g.accepts_seek _ _ (do_encourage_buffering-IsQuiet g _ h) h)

seek_within-IsQuiet :
    (scale : ℕ → ℕ → ℕ → ℕ) (g : Pipeline) (o : Option ℕ) (n : ℕ) (units : String) (p : Player)
    → IsQuiet p
    → IsQuiet (seek_within scale g o n units p).0
unfolding seek_within
seek_within-IsQuiet scale g none n units p h = h
seek_within-IsQuiet scale g (some d) n units p h = seek_to-IsQuiet g d _ p h

pub seek-IsQuiet :
    (scale : ℕ → ℕ → ℕ → ℕ) (g : Pipeline) (o : Option ℕ) (units : String) (p : Player)
    → IsQuiet p
    → IsQuiet (seek scale g true o units p).0
unfolding seek
seek-IsQuiet scale g none units p h = h
seek-IsQuiet scale g (some n) units p h = seek_within-IsQuiet scale g g.seek_duration_ns n units p h

set_duration-IsQuiet : (s : Seconds) (p : Player) → IsQuiet p → IsQuiet (set_duration s p)
unfolding set_duration
set_duration-IsQuiet undetermined p h = and_false _
set_duration-IsQuiet invalid p h = h
set_duration-IsQuiet (at n) p h = h

seek_initially-IsQuiet :
    (g : Pipeline) (o : Option ℕ) (p : Player) → IsQuiet p → IsQuiet (seek_initially g o p)
unfolding seek_initially do_seek
seek_initially-IsQuiet g none p h = h
seek_initially-IsQuiet g (some n) p h = h

pub duration-IsQuiet :
    (g : Pipeline) (s : Sender) (o : Option ℕ) (p : Player)
    → IsQuiet p
    → IsQuiet (handle_stream_duration_async g s o p)
unfolding handle_stream_duration_async
duration-IsQuiet g s o p h =
    if-IsQuiet _ _ _ (seek_initially-IsQuiet g _ _ (set_duration-IsQuiet _ p h)) h

pub clock_lost-IsQuiet :
    (g : Pipeline) (s : Sender) (p : Player) → IsQuiet p → IsQuiet (handle_clock_lost_message g s p)
unfolding handle_clock_lost_message set_stream_state
clock_lost-IsQuiet g s p h = if-IsQuiet _ _ _ h h

pub request_state-IsQuiet :
    (g : Pipeline) (s : Sender) (state : GstState) (p : Player)
    → IsQuiet p
    → IsQuiet (handle_request_state_message g s state p)
unfolding handle_request_state_message set_stream_state
request_state-IsQuiet g s state p h = if-IsQuiet _ _ _ h h

try_next_url-IsQuiet :
    (g : Pipeline) (place : Place) (s : GstState) (b : Bool) (o : Option (Item × Bool)) (p : Player)
    → IsQuiet p
    → IsQuiet (try_next_url g place s b o p)
unfolding try_next_url
try_next_url-IsQuiet g place s b none p h = h
try_next_url-IsQuiet g place s b (some (i, false)) p h = put_at-IsQuiet place i p h
try_next_url-IsQuiet g place s b (some (i, true)) p h =
    resolve_selected-IsQuiet g false place s b _ (put_at-IsQuiet place i p h)

go_on-IsQuiet :
    (g : Pipeline) (place : Place) (s : GstState) (b : Bool) (now : ℕ) (i : Item)
    (r : ResolverResult) (p : Player)
    → IsQuiet p
    → IsQuiet (go_on g place s b now i r p)
unfolding go_on
go_on-IsQuiet g place s b now i resolved p h = on_link_resolved-IsQuiet g false place i s b p h
go_on-IsQuiet g place s b now i have_more_urls p h = try_next_url-IsQuiet g place s b _ p h
go_on-IsQuiet g place s b now i failed p h = h

finish_at-IsQuiet :
    (g : Pipeline) (place : Place) (s : GstState) (b : Bool) (now : ℕ)
    (o : Option (Item × ResolverResult)) (p : Player)
    → IsQuiet p
    → IsQuiet (finish_at g place s b now o p)
unfolding finish_at
finish_at-IsQuiet g place s b now none p h = h
finish_at-IsQuiet g place s b now (some (i, r)) p h =
    go_on-IsQuiet g place s b now i r _ (put_at-IsQuiet place i p h)

finish_found-IsQuiet :
    (g : Pipeline) (ended : Ended) (s : GstState) (b : Bool) (now : ℕ) (o : Option Place)
    (p : Player)
    → IsQuiet p
    → IsQuiet (finish_found g ended s b now o p)
unfolding finish_found
finish_found-IsQuiet g ended s b now none p h = h
finish_found-IsQuiet g ended s b now (some place) p h = elim (Option-cases (item_at place p)) [
  | inl e ↦ rw (e, finish_found) h
  | inr (i, e) ↦ rw (e, finish_found) (finish_at-IsQuiet g place s b now _ p h)
]

pub notify-IsQuiet :
    (g : Pipeline) (ended : Ended) (id : ℕ) (s : GstState) (b : Bool) (now : ℕ) (p : Player)
    → IsQuiet p
    → IsQuiet (notify g ended id s b now p)
unfolding notify
notify-IsQuiet g ended id s b now p h = finish_found-IsQuiet g ended s b now _ p h
