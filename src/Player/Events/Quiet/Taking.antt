-- ===== src/Player/Events/Quiet/Taking.antt =====
-- What fails, and what is taken from the queue, keep the threads from being boosted while the player
-- waits for data.
use streamplayer.Base.{ℕ, Bool, true, false, Option, none, some, List, [], ◌∷◌, if◌then◌else◌}
use streamplayer.Queue.{peek}
use streamplayer.Urls.{is_empty}
use streamplayer.Reasons.{Reason}
use streamplayer.Item.{Item, fail, PipelineStartRequired, not_required, start_now, when_ready}
use streamplayer.Player.{
  Player, NextStreamRequestState, not_requested, requested, request_deferred, FailureDetails,
  set_stopped, report_stopped, emit_stopped, emit_stopped_with_error, emit,
  do_stop_pipeline_and_recover_from_error, do_error_recovery, recover_from_error_now_or_later,
}
use streamplayer.Player.Take.{
  Picked, nothing, current_stream, queue_head, found_next, pop_to_current, fail_current,
  take_failed, take_fails, take_picked, try_take_next,
}
use streamplayer.Player.Play.{Pipeline, handled, set_stream_state}
use streamplayer.Player.Requests.{
  queue_picked, queue_stream, queue_stream_from_url_fifo, queue_if_requested, push_item,
  clear_queue, end_by_start, end_with_head, handle_end_of_stream,
}
use streamplayer.Player.Events.Quiet.{
  IsQuiet, and_false, if-IsQuiet, if_pair-IsQuiet, set_state_at-IsQuiet, put_at-IsQuiet,
  play_next_stream-IsQuiet,
}

report_stopped-IsQuiet :
    (o : Option Item) (ids : List ℕ) (p : Player) → IsQuiet p → IsQuiet (report_stopped o ids p)
unfolding report_stopped emit
report_stopped-IsQuiet none [] p h = h
report_stopped-IsQuiet none (i ∷ is) p h = h
report_stopped-IsQuiet (some i) ids p h = h

pub emit_stopped-IsQuiet : (p : Player) → IsQuiet (emit_stopped p)
unfolding emit_stopped set_stopped
emit_stopped-IsQuiet p = report_stopped-IsQuiet p.current_stream _ _ (and_false _)

pub emit_stopped_with_error-IsQuiet :
    (reason : Reason) (o : Option Item) (p : Player) → IsQuiet (emit_stopped_with_error reason o p)
unfolding emit_stopped_with_error emit set_stopped
emit_stopped_with_error-IsQuiet reason o p = and_false _

recovery-IsQuiet : (reason : Reason) (p : Player) → IsQuiet (do_error_recovery reason p)
unfolding do_error_recovery do_stop_pipeline_and_recover_from_error
recovery-IsQuiet reason p = emit_stopped_with_error-IsQuiet _ _ _

recover-IsQuiet :
    (fd : FailureDetails) (p : Player) → IsQuiet p → IsQuiet (recover_from_error_now_or_later fd p)
unfolding recover_from_error_now_or_later
recover-IsQuiet fd p h = if-IsQuiet fd.report_on_stream_stop _ _ h (recovery-IsQuiet fd.reason p)

pub fail_current-IsQuiet :
    (fd : FailureDetails) (o : Option Item) (p : Player) → IsQuiet p → IsQuiet (fail_current fd o p)
unfolding fail_current
fail_current-IsQuiet fd none p h = h
fail_current-IsQuiet fd (some i) p h = if-IsQuiet (fail i).1 _ _ (recover-IsQuiet fd _ h) h

take_failed-IsQuiet :
    (fd : FailureDetails) (c q : Option Item) (p : Player)
    → IsQuiet p
    → IsQuiet (take_failed fd c q p).0
unfolding take_failed pop_to_current
take_failed-IsQuiet fd (some i) q p h = fail_current-IsQuiet fd _ _ h
take_failed-IsQuiet fd none (some i) p h = fail_current-IsQuiet fd _ _ h
take_failed-IsQuiet fd none none p h = recovery-IsQuiet fd.reason p

take_fails-IsQuiet : (reason : Reason) (p : Player) → IsQuiet p → IsQuiet (take_fails reason p).0
unfolding take_fails
take_fails-IsQuiet reason p h = take_failed-IsQuiet _ p.current_stream (peek p.queue) p h

take_picked-IsQuiet :
    (expected : Bool) (k : Picked) (p : Player) → IsQuiet p → IsQuiet (take_picked expected k p).0
unfolding take_picked found_next pop_to_current
take_picked-IsQuiet expected nothing p h = if_pair-IsQuiet expected _ _ (take_fails-IsQuiet _ p h) h
take_picked-IsQuiet expected (current_stream i) p h =
    if_pair-IsQuiet (is_empty i.stream_urls) _ _ (take_fails-IsQuiet _ p h) h
take_picked-IsQuiet expected (queue_head i) p h =
    if_pair-IsQuiet (is_empty i.stream_urls) _ _ (take_fails-IsQuiet _ p h) h

pub try_take_next-IsQuiet :
    (expected : Bool) (p : Player) → IsQuiet p → IsQuiet (try_take_next expected p).0
unfolding try_take_next
try_take_next-IsQuiet expected p h = take_picked-IsQuiet expected _ p h

queue_picked-IsQuiet :
    (g : Pipeline) (k : Picked) (p : Player) → IsQuiet p → IsQuiet (queue_picked g k p)
unfolding queue_picked
queue_picked-IsQuiet g nothing p h = set_state_at-IsQuiet _ handled p h
queue_picked-IsQuiet g (current_stream i) p h = play_next_stream-IsQuiet g _ _ _ _ _ p h
queue_picked-IsQuiet g (queue_head i) p h = play_next_stream-IsQuiet g _ _ _ _ _ p h

pub queue_stream-IsQuiet : (g : Pipeline) (p : Player) → IsQuiet p → IsQuiet (queue_stream g p)
unfolding queue_stream
queue_stream-IsQuiet g p h = queue_picked-IsQuiet g _ p h

pub about_to_finish-IsQuiet :
    (g : Pipeline) (sender : ℕ) (p : Player)
    → IsQuiet p
    → IsQuiet (queue_stream_from_url_fifo g sender p)
unfolding queue_stream_from_url_fifo
about_to_finish-IsQuiet g sender p h = if-IsQuiet _ _ _ (queue_stream-IsQuiet g _ h) h

queue_if_requested-IsQuiet :
    (g : Pipeline) (r : NextStreamRequestState) (p : Player)
    → IsQuiet p
    → IsQuiet (queue_if_requested g r p)
unfolding queue_if_requested
queue_if_requested-IsQuiet g requested p h = if-IsQuiet _ _ _ (queue_stream-IsQuiet g p h) h
queue_if_requested-IsQuiet g request_deferred p h = h
queue_if_requested-IsQuiet g not_requested p h = h

pub push_item-IsQuiet :
    (g : Pipeline) (item : Item) (n : ℕ) (p : Player)
    → IsQuiet p
    → IsQuiet (push_item g true item n p).0
unfolding push_item
push_item-IsQuiet g item n p h =
    if_quad-IsQuiet _ _ _ h (queue_if_requested-IsQuiet g p.next_stream_request _ h)
  where
    if_quad-IsQuiet :
        {A B C : Type 0} (b : Bool) (x y : Player × A × B × C)
        → IsQuiet x.0
        → IsQuiet y.0
        → IsQuiet (if b then x else y).0
    if_quad-IsQuiet true x y h k = h
    if_quad-IsQuiet false x y h k = k

pub clear_queue-IsQuiet : (n : Option ℕ) (p : Player) → IsQuiet p → IsQuiet (clear_queue n p).0
unfolding clear_queue
clear_queue-IsQuiet n p h = h

end_by_start-IsQuiet :
    (s : PipelineStartRequired) (p : Player) → IsQuiet p → IsQuiet (end_by_start s p).0
unfolding end_by_start
end_by_start-IsQuiet not_required p h = emit_stopped-IsQuiet p
end_by_start-IsQuiet start_now p h = h
end_by_start-IsQuiet when_ready p h = h

end_with_head-IsQuiet : (o : Option Item) (p : Player) → IsQuiet p → IsQuiet (end_with_head o p).0
unfolding end_with_head
end_with_head-IsQuiet none p h = emit_stopped-IsQuiet p
end_with_head-IsQuiet (some i) p h = end_by_start-IsQuiet _ _ (put_at-IsQuiet _ _ p h)

pub end_of_stream-IsQuiet :
    (g : Pipeline) (sender : ℕ) (p : Player)
    → IsQuiet p
    → IsQuiet (handle_end_of_stream g sender p).0
unfolding handle_end_of_stream set_stream_state
end_of_stream-IsQuiet g sender p h =
    if_pair-IsQuiet _ _ _ (end_with_head-IsQuiet (peek p.queue) _ h) h
