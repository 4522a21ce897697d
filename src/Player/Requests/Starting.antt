-- ===== src/Player/Requests/Starting.antt =====
-- What a start does while the pipeline does not play.
use streamplayer.Base.{◌≡◌, ◌⊎◌}
use streamplayer.Item.{Item}
use streamplayer.Player.{Player, GstState, null, ready, playing, PlayStatus}
use streamplayer.Player.Requests.{rebuild_playbin_for_workarounds}

-- The pipeline is at rest.
unfoldable pub IsAtRest : GstState → Type 0
IsAtRest s = (s ≡ ready) ⊎ (s ≡ null)

-- The player with a new pipeline, supposed to play.
abbrev pub restarted : Player → Player
restarted p =
    rebuild_playbin_for_workarounds (record p { supposed_play_status = PlayStatus.playing })
