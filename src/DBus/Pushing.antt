-- ===== src/DBus/Pushing.antt =====
-- What a push over D-Bus does with the queue, and with the stream that is handled.
use Prim.Native.String.{String}
use streamplayer.Base.{
  ℕ, ◌<◌, ◌≡◌, refl, ◌∙◌, ap, sym, subst, ◌⊎◌, inl, inr, Bool, true, false, none, some, List, [],
  ◌∷◌, ◌++◌, length, take, drop, arith,
}
use streamplayer.Queue.History.{present}
use streamplayer.UsbUrl.{Host}
use streamplayer.Urls.{from_pairs, is_empty}
use streamplayer.Item.{
  Item, in_queue, about_to_activate, active_now_playing, new, set_state, get_url_for_playing,
  known_direct_url, get_selected_url_state,
}
use streamplayer.Player.{Player, ready, playing, PlayStatus, not_requested, ids, mk_id_array}
use streamplayer.Player.Take.Outcome.{AboutToPlay}
use streamplayer.Player.Play.{Pipeline, or_blank}
use streamplayer.Player.Requests.{push_item}
use streamplayer.Player.Requests.Pushing.{emptied, pushed_item}
use streamplayer.Player.Next.{skip_in_state, skip_current, is_stopped, next}
use streamplayer.Player.Play.Direct.{asked_then, has_no_data}
use streamplayer.Player.Next.Skipping.{StandsFor, plays_on, next_plays_head}
use streamplayer.Player.Service.{Service}
use streamplayer.DBus.{negsuc, keep_items, is_skip, is_status_playing, Pushed, fifo_push}

-- The item that a push makes.
abbrev pub pushed_stream : Host → ℕ → List (String × Bool) → Item
pushed_stream h stream_id stream_urls = new h stream_id (from_pairs h stream_urls) true

-- The stream that is handled has been let go.
abbrev let_go : Player → Player
let_go p = record p { current_stream = none }

-- A skip while the player is not stopped and a stream plays goes on without this stream.
skipped :
    (g : Pipeline) (p : Player) (c : Item)
    → p.current_stream ≡ some c
    → c.state ≡ active_now_playing
    → p.supposed_play_status ≡ PlayStatus.playing
    → next g true true p ≡ next g true false (let_go p)
unfolding next skip_current skip_in_state is_stopped
skipped g p c here plays status = simp (here, plays, status) refl

-- The player once its queue has been replaced by the item.
abbrev replaced : Item → Player → Player
replaced i p = record p { queue = emptied (record p.queue { queue = i ∷ [] }) }

pushed_alone :
    (g : Pipeline) (i : Item) (p : Player)
    → p.next_stream_request ≡ not_requested
    → 0 < p.queue.max_number_of_items
    → push_item g true i 0 p ≡ (
      replaced i p,
      mk_id_array (present p.queue.removed) p.queue.dropped,
      ids p.queue.queue,
      true,
    )
pushed_alone g i p r room = pushed_item g i 0 p r (some_room p.queue.queue) ∙ only p.queue.queue
  where
    some_room : (xs : List Item) → ((0 < length xs) ⊎ (length xs < p.queue.max_number_of_items))
    some_room [] = inr room
    some_room (x ∷ xs) = inl (omega arith)

    only :
        (xs : List Item)
        → ◌≡◌ {A = Player × List ℕ × List ℕ × Bool}
            (
              record p { queue = emptied (record p.queue { queue = take 0 xs ++ i ∷ [] }) },
              mk_id_array (present p.queue.removed) p.queue.dropped,
              ids (drop 0 xs),
              true,
            )
            (replaced i p, mk_id_array (present p.queue.removed) p.queue.dropped, ids xs, true)
    only [] = refl
    only (x ∷ xs) = refl

no_stream : AboutToPlay none → ⊥
unfolding AboutToPlay
no_stream e = e

-- What a client is told that pushes an item and skips to it, and what the player does.
pub record PlaysInstead (g : Pipeline) (i : Item) (p : Player) (s : Service) (reply : Pushed)
    : Type 0 where
  pub asks : s.player.asked_states ≡ asked_then (has_no_data g i p) playing (ready ∷ p.asked_states)
  pub has_stream : s.player.current_stream ≡ some (set_state about_to_activate i)
  pub has_uri : s.player.uri ≡ or_blank (get_url_for_playing i)
  pub nothing_queued : s.player.queue.queue ≡ []
  pub same_signals : s.player.signals ≡ p.signals
  pub is_accepted : reply.failed ≡ false
  pub plays : reply.is_playing ≡ true
  pub reported_before :
      reply.dropped_ids_before ≡ mk_id_array (present p.queue.removed) p.queue.dropped
  pub reported_now : reply.dropped_ids_now ≡ ids p.queue.queue

is_new :
    (h : Host) (id : ℕ) (urls : List (String × Bool)) → (pushed_stream h id urls).state ≡ in_queue
unfolding new
is_new h id urls = refl

-- A push with -2 as the number of items to keep, while the player is activated and plays a stream and
-- has not been asked for the next one, if the new item has a direct URL and the pipeline accepts what
-- it is asked for: the stream that plays is let go, the new item is given to the pipeline at once, which
-- is asked to be ready and then to play, and to pause after it if data is to be waited for, and nothing
-- is left in the queue; the client is told that the push has not failed and that the player
-- plays, and the IDs that have been dropped before, and those of all items that the queue has held.
pub push-PlaysInstead :
    (g : Pipeline) (h : Host) (id : ℕ) (urls : List (String × Bool)) (p : Player) (c : Item)
    → p.current_stream ≡ some c
    → c.state ≡ active_now_playing
    → p.supposed_play_status ≡ PlayStatus.playing
    → p.next_stream_request ≡ not_requested
    → 0 < p.queue.max_number_of_items
    → is_empty (pushed_stream h id urls).stream_urls ≡ false
    → get_selected_url_state (pushed_stream h id urls) ≡ known_direct_url
    → g.accepts ready ≡ true
    → g.accepts playing ≡ true
    → let (s, reply) =
        fifo_push g h id urls (negsuc 1) (record { player = p; is_player_activated = true }) in
      PlaysInstead g (pushed_stream h id urls) p s reply
unfolding fifo_push keep_items is_skip is_status_playing has_no_data
push-PlaysInstead g h id urls p c here playing_now status r room has direct able a =
    let i = pushed_stream h id urls in
    let (k, same, given) =
      next_plays_head g (let_go (replaced i p)) i [] playing refl no_stream has (is_new h id urls)
        direct able (subst (λ s. StandsFor s playing) (sym status) plays_on) a in
    simp (pushed_alone g i p r room, skipped g (replaced i p) c here playing_now status)
      (record {
        asks = k.asks;
        has_stream = k.has_stream;
        has_uri = k.has_uri;
        nothing_queued = ap (λ q. q.queue) k.same_queue;
        same_signals = k.same_signals;
        is_accepted = refl;
        plays = ap is_status_playing (same ∙ status);
        reported_before = refl;
        reported_now = refl;
      })
