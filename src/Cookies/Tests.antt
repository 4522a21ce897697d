-- ===== src/Cookies/Tests.antt =====
-- Cookies that are stored twice.
use streamplayer.Base.{ℕ, ◌≡◌, List, [], ◌∷◌}
use streamplayer.Cookies.{find}
use streamplayer.Cookies.Once.{
  Event, adds, becomes_available, finishes, run, start, waiting, finished_once,
}

-- The functions are numbers.
abbrev twice : List (Event ℕ)
twice = adds 5 1 2 ∷ adds 5 3 4 ∷ finishes 5 ∷ becomes_available 5 ∷ finishes 5 ∷ adds 5 6 7 ∷ []

finished_once_example :
    let t = run 5 twice start in t.stored ≡ waiting (find 5 t.pending.fetch_functions) t.called
finished_once_example = finished_once 5 twice
