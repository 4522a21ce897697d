-- ===== src/Player/Service/Removal.antt =====
-- What the removal of a device does to the stream that is handled.
use Prim.Native.String.{String, len, ◌++◌ as append}
use text.Mathlib.Text.{starts_with, ◌==◌ as str_eq}
use text.Mathlib.TextPositions.{starts_with-append}
use streamplayer.Base.{
  ℕ, [], ◌∷◌, ◌≡◌, refl, ◌∙◌, ap, true, false, Option, some, leb, if◌then◌else◌,
}
use streamplayer.UsbUrl.{is_blank}
use streamplayer.Item.{Item, get_url_for_playing}
use streamplayer.Player.{Player, GstState, ready, void_pending, from_pipeline}
use streamplayer.Player.Play.{Pipeline}
use streamplayer.Player.Requests.{stop, state_or_pending}
use streamplayer.Player.Requests.Stopping.{IsActive}
use streamplayer.Player.StateChange.Stopped.{HasUrl, StopReported, stop_is_reported}
use streamplayer.Player.Events
use streamplayer.Player.Events.{run, handle}
use streamplayer.Player.Service.{
  Service, starts_with_more, is_below, stop_if_below, stop_if_file, stop_if_on,
  remove_items_for_root_path,
}

-- The stream that is handled is a file with this real path.
pub record IsFile (filename_from_uri realpath : String → Option String) (p : Player) (i : Item)
    (url name path : String) : Type 0 where
  pub is_handled : p.current_stream ≡ some i
  pub has_url : get_url_for_playing i ≡ some url
  pub is_file_url : starts_with_more url "file://" ≡ true
  pub has_name : filename_from_uri url ≡ some name
  pub has_length : is_blank name ≡ false
  pub is_short : leb (len name) 4096 ≡ true
  pub has_path : realpath name ≡ some path

module _ (filename_from_uri realpath : String → Option String) where
  decided :
      (g : Pipeline) (pending state_after : GstState) (root_path : String) (s : Service) (i : Item)
      (url name path : String)
      → IsFile filename_from_uri realpath s.player i url name path
      → remove_items_for_root_path filename_from_uri realpath g pending state_after root_path s ≡ (
        if starts_with path root_path
            then record s { player = (stop g s.is_player_activated pending state_after s.player).0 }
            else s,
        true,
      )
  unfolding remove_items_for_root_path stop_if_on stop_if_file stop_if_below is_below
  decided g pending state_after root_path s i url name path f =
      simp
        (f.is_handled, f.has_url, f.is_file_url, f.has_name, f.has_length, f.is_short, f.has_path)
        refl

  -- The removal of the device with a root path, while the player is activated, has a URI, and plays
  -- or pauses a file whose URL is known and whose real path can be found, if the pipeline accepts to stop, and then the message of the
  -- pipeline that it has become READY from there, while the stream is not to outlive the stop. If the
  -- real path begins with the root path, whatever follows there, be it another name, as for the file
  -- /media/usb10/a and the root path /media/usb1: exactly one signal is emitted, which says that this
  -- stream has stopped, with the IDs of all that the queue has held and of all that had been dropped
  -- before, and then the player is stopped and has nothing left. If the real path does not begin so,
  -- the removal changes nothing. In both the removal is said to have succeeded.
  pub removal_stops :
      (scale : ℕ → ℕ → ℕ → ℕ) (g g' : Pipeline) (pending state_after old : GstState)
      (root_path more : String) (s : Service) (i : Item) (url name path : String)
      → IsFile filename_from_uri realpath s.player i url name path
      → s.is_player_activated ≡ true
      → str_eq s.player.uri "" ≡ false
      → IsActive (state_or_pending g.current_state pending)
      → g.accepts ready ≡ true
      → HasUrl i
      → s.player.current_stream_protected_once ≡ false
      → IsActive old
      → g'.target_state ≡ ready
      → let (q, done) =
          remove_items_for_root_path filename_from_uri realpath g pending state_after root_path s in
        (done ≡ true)
        × (path ≡ append root_path more
            → StopReported i s.player (
                run scale
                  ((
                    g',
                    Events.state_changed
                        (from_pipeline s.player.pipeline)
                        true
                        false
                        old
                        ready
                        void_pending,
                  )
                    ∷ [])
                  q.player))
        × (starts_with path root_path ≡ false → q ≡ s)
  unfolding run handle
  removal_stops scale g g' pending state_after old root_path more s i url name path f on u active a
        known mortal was target =
      let reported =
        stop_is_reported scale g g' pending state_after old s.player i u active a f.is_handled known
          mortal was target in
      simp (decided g pending state_after root_path s i url name path f, on)
        (
          refl,
          λ e.
              rw (ap (λ t. starts_with t root_path) e ∙ starts_with-append root_path more) reported,
          λ e. rw e refl,
        )
