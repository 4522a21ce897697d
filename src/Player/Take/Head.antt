-- ===== src/Player/Take/Head.antt =====
-- The head of the queue is taken if the stream that is handled has been played.
use streamplayer.Base.{
  ◌≡◌, refl, true, false, Bool-cases, inl, inr, Option, none, some, List, [], ◌∷◌,
}
use streamplayer.Queue.{peek}
use streamplayer.Urls.{is_empty}
use streamplayer.Item.{Item}
use streamplayer.Player.{Player, FailureDetails}
use streamplayer.Player.Take.{
  is_about_to_play, pick_next_item, pick_head, take_picked, take_fails, take_failed, found_next,
  nothing_found, pop_to_current, try_take_next,
}
use streamplayer.Player.Take.Outcome.{AboutToPlay, pop_at}

abbrev pub taken_head : Item → List Item → Player → Player
taken_head h rest p = record p { current_stream = some h; queue = record p.queue { queue = rest } }

pub picked_head : (c h : Option Item) → (AboutToPlay c → ⊥) → pick_next_item c h ≡ pick_head h
unfolding pick_next_item AboutToPlay
picked_head none h n = refl
picked_head (some i) h n = elim (Bool-cases (is_about_to_play i.state)) [
  | inl e ↦ elim (n e) [ ]
  | inr e ↦ rw e refl
]

pub head_popped :
    (p : Player) (h : Item) (rest : List Item)
    → p.queue.queue ≡ h ∷ rest
    → pop_to_current p ≡ taken_head h rest p
unfolding pop_to_current
head_popped p h rest e = simp (pop_at p.queue h rest e) refl

pub takes_head :
    (p : Player) (h : Item) (rest : List Item)
    → p.queue.queue ≡ h ∷ rest
    → (AboutToPlay p.current_stream → ⊥)
    → is_empty h.stream_urls ≡ false
    → try_take_next true p ≡ found_next true (taken_head h rest p)
unfolding try_take_next take_picked pick_head peek
takes_head p h rest e n urls =
    simp (e, picked_head p.current_stream (some h) n, urls, head_popped p h rest e) refl

none_found :
    (fd : FailureDetails) (c h : Option Item) (p : Player) → (take_failed fd c h p).1.found ≡ false
unfolding take_failed nothing_found
none_found fd (some i) h p = refl
none_found fd none (some i) p = refl
none_found fd none none p = refl

pub finds_nothing :
    (p : Player)
    → p.queue.queue ≡ []
    → (AboutToPlay p.current_stream → ⊥)
    → (try_take_next true p).1.found ≡ false
unfolding try_take_next take_picked take_fails pick_head peek
finds_nothing p e n =
    simp (e, picked_head p.current_stream none n) (none_found _ p.current_stream none p)
