-- ===== src/StreamLogging/Tests.antt =====
-- Names that a client has sent.
use streamplayer.Base.{ℕ, ◌≡◌, refl, List, [], ◌∷◌, ◌++◌}
use streamplayer.StreamLogging.{log_names}
use streamplayer.StreamLogging.Names.{IsName, names_come_out}

-- The codes of "Song", "Us" and "Now".
abbrev title : List ℕ
title = 83 ∷ 111 ∷ 110 ∷ 103 ∷ []

abbrev artist : List ℕ
artist = 85 ∷ 115 ∷ []

abbrev album : List ℕ
album = 78 ∷ 111 ∷ 119 ∷ []

title-IsName : IsName title
unfolding IsName
title-IsName = (refl, refl, (refl, refl, (refl, refl, (refl, refl, refl))))

artist-IsName : IsName artist
unfolding IsName
artist-IsName = (refl, refl, (refl, refl, refl))

album-IsName : IsName album
unfolding IsName
album-IsName = (refl, refl, (refl, refl, (refl, refl, refl)))

names_come_out_example :
    (log_names (title ++ (29 ∷ (artist ++ (29 ∷ album)))) ≡ artist ∷ album ∷ title ∷ [])
    × (log_names (title ++ (29 ∷ artist)) ≡ artist ∷ [] ∷ title ∷ [])
    × (log_names title ≡ title ∷ [])
names_come_out_example = names_come_out title artist album title-IsName artist-IsName album-IsName
