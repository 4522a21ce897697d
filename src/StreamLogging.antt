-- ===== src/StreamLogging.antt =====
-- The names of a stream that are logged, src/stream_logging.cc: the title that a client has sent may hold
-- the names of the artist and of the album behind separators. A text is the list of its characters'
-- codes. What is logged is a list of names; the tags, the URL and the errors that are logged are not
-- modelled.
pub mod Names
mod Tests
use streamplayer.Base.{
  ℕ, suc, ◌+◌, Bool, true, false, List, [], ◌∷◌, ◌++◌, length, drop, ltb, ◌==◌, if◌then◌else◌,
}

-- The state of the loop, and with the last zero byte what tokenize_meta_data() returns.
pub record Tokens : Type 0 where
  pub dest : List ℕ
  pub artist : ℕ
  pub album : ℕ
  pub idx : ℕ
  pub is_single_string : Bool

unfoldable pub mark_name : ℕ → Tokens → Tokens
mark_name i t =
    if ltb t.idx 2
    then (if t.idx == 0
        then record t { artist = suc i; idx = suc t.idx }
        else record t { album = suc i; idx = suc t.idx })
    else t

unfoldable pub scan_char : ℕ → ℕ → Tokens → Tokens
scan_char i ch t =
    if ch == 29
    then mark_name i (record t { is_single_string = false; dest = t.dest ++ (0 ∷ []) })
    else record t { dest = t.dest ++ (ch ∷ []) }

unfoldable pub scan : ℕ → List ℕ → Tokens → Tokens
scan i [] t = t
scan i (ch ∷ src) t = scan (suc i) src (scan_char i ch t)

unfoldable pub tokenize_meta_data : List ℕ → Tokens
tokenize_meta_data src =
    let t = scan 0 src (record {
      dest = [];
      artist = length src;
      album = length src;
      idx = 0;
      is_single_string = true;
    }) in
    record t { dest = t.dest ++ (0 ∷ []) }

-- What is read of a text that begins here, up to a zero byte.
unfoldable pub c_str : List ℕ → List ℕ
c_str [] = []
c_str (ch ∷ rest) = let s = c_str rest in if ch == 0 then [] else ch ∷ s

-- The names that are logged, the title as the last one.
unfoldable pub log_tokens : Tokens → List (List ℕ)
log_tokens t =
    if t.is_single_string
    then c_str t.dest ∷ []
    else c_str (drop t.artist t.dest) ∷ c_str (drop t.album t.dest) ∷ c_str t.dest ∷ []

unfoldable pub log_names : List ℕ → List (List ℕ)
log_names drcpd_title = log_tokens (tokenize_meta_data drcpd_title)
