-- ===== src/Player/Take/Failures.antt =====
-- try_take_next() on streams without URLs.
use streamplayer.Base.{◌≡◌, refl, Bool, true, false, none, some, List, ◌∷◌}
use streamplayer.Queue.{pop_drop, peek}
use streamplayer.Reasons.{url_missing}
use streamplayer.Urls.{is_empty}
use streamplayer.Item.{Item, fail}
use streamplayer.Player.{Player, details_on_stop, recover_from_error_now_or_later}
use streamplayer.Player.Take.Outcome.{pop_at}
use streamplayer.Player.Take.{
  is_about_to_play, pick_head, pick_next_item, nothing_found, pop_to_current, fail_current,
  take_failed, take_fails, take_picked, try_take_next, is_some,
}

replaced :
    (p : Player) (h : Item) (rest : List Item)
    → p.queue.queue ≡ h ∷ rest
    → pop_to_current p
      ≡ record p { current_stream = some h; queue = record p.queue { queue = rest } }
unfolding pop_to_current
replaced p h rest q = simp (pop_at p.queue h rest q) refl

-- If a stream that is handled and has not been played has no URLs, it is the head of the queue that
-- takes its place and is marked as failed in its stead, whatever its URLs; the failure is kept for
-- the stop.
pub next_fails_instead :
    (expected : Bool) (p : Player) (c h : Item) (rest : List Item)
    → p.current_stream ≡ some c
    → p.queue.queue ≡ h ∷ rest
    → is_about_to_play c.state ≡ true
    → is_empty c.stream_urls ≡ true
    → (fail h).1 ≡ true
    → let (q, t) = try_take_next expected p in
      (t.found ≡ false)
      × (q.current_stream ≡ some (fail h).0)
      × (q.queue.queue ≡ rest)
      × (q.failure.details.reason ≡ url_missing)
      × (q.failure.is_failing ≡ p.failure.is_failing)
      × (q.signals ≡ p.signals)
unfolding try_take_next pick_next_item take_picked take_fails take_failed is_some nothing_found
    details_on_stop fail_current recover_from_error_now_or_later peek
next_fails_instead expected p c h rest e q about broken first =
    simp (e, q, about, broken, replaced p h rest q, first) (refl, refl, refl, refl, refl, refl)

-- The head of the queue is dropped if it has no URLs while nothing is handled: no next stream is
-- found, and nothing but the queue changes, so no error is reported or kept.
pub dropped_silently :
    (expected : Bool) (p : Player) (h : Item) (rest : List Item)
    → p.current_stream ≡ none
    → p.queue.queue ≡ h ∷ rest
    → is_empty h.stream_urls ≡ true
    → let (q, t) = try_take_next expected p in
      (t.found ≡ false) × (q ≡ record p { queue = (pop_drop p.queue).0 })
unfolding try_take_next pick_next_item pick_head take_picked take_fails take_failed is_some
    nothing_found details_on_stop fail_current peek
dropped_silently expected p h rest e q broken = simp (e, q, broken) (refl, refl)
