-- ===== src/Player/Take/Outcome.antt =====
-- What try_take_next() takes, and what it reports.
use streamplayer.Base.{◌≡◌, refl, Bool, true, false, Option, none, some, List, ◌∷◌, ◌⊎◌}
use streamplayer.Queue.{Queue, pop, peek}
use streamplayer.Reasons.{queue_empty}
use streamplayer.Urls.{is_empty}
use streamplayer.Item.{Item}
use streamplayer.Player.{Player, do_error_recovery}
use streamplayer.Player.Take.{is_about_to_play, Picked, nothing, current_stream, queue_head, Taken}

-- Taking the head of the queue.
pub record Popped (p q : Player) (i : Item) : Type 0 where
  rest : List Item
  was_head : p.queue.queue ≡ i ∷ rest
  is_taken : q ≡ record p { current_stream = some i; queue = record p.queue { queue = rest } }

-- The stream that is handled has not been played.
unfoldable pub AboutToPlay : Option Item → Type 0
AboutToPlay none = ⊥
AboutToPlay (some i) = is_about_to_play i.state ≡ true

pub pop_at :
    (q : Queue Item) (i : Item) (rest : List Item)
    → q.queue ≡ i ∷ rest
    → pop q ≡ (record q { queue = rest }, some i)
unfolding pop
pop_at q i rest e = rw (e, pop) refl

-- By what is found, whether the stream that is handled has been replaced, and whether an item was
-- expected.
pub Described : Bool → Bool → Bool → Player → Player → Type 0
Described true false expected p q =
    (i : Item) × (p.current_stream ≡ some i)
    × (is_about_to_play i.state ≡ true)
    × (is_empty i.stream_urls ≡ false)
    × (q ≡ p)
Described true true expected p q =
    (i : Item) × Popped p q i
    × (is_empty i.stream_urls ≡ false)
    × (AboutToPlay p.current_stream → ⊥)
Described false replaced expected p q =
    (q.signals ≡ p.signals)
    ⊎ ((p.current_stream ≡ none)
        × (peek p.queue ≡ none)
        × (expected ≡ true)
        × (q ≡ do_error_recovery queue_empty p))

abbrev pub Outcome : Bool → Player → Player × Taken → Type 0
Outcome expected p (q, t) = Described t.found t.replaced_current_stream expected p q

-- What is known of an item that has been picked.
Known : Player → Picked → Type 0
Known p nothing = peek p.queue ≡ none
Known p (current_stream i) = (p.current_stream ≡ some i) × (is_about_to_play i.state ≡ true)
Known p (queue_head i) = (peek p.queue ≡ some i) × (AboutToPlay p.current_stream → ⊥)
