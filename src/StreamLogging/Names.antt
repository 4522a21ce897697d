-- ===== src/StreamLogging/Names.antt =====
-- The names come out as they have been put together.
use streamplayer.Base.{
  ℕ, suc, ◌+◌, ◌≡◌, refl, sym, ◌∙◌, ap, true, false, List, [], ◌∷◌, ◌++◌, append_assoc, append-nil,
  length, length-append, drop, ◌==◌, arith,
}
use streamplayer.StreamLogging.{
  Tokens, mark_name, scan_char, scan, tokenize_meta_data, c_str, log_tokens, log_names,
}

-- A name has neither a separator nor a zero byte.
unfoldable pub IsName : List ℕ → Type 0
IsName [] = true ≡ true
IsName (ch ∷ name) = ((ch == 29) ≡ false) × ((ch == 0) ≡ false) × IsName name

at_same :
    (src : List ℕ) (t : Tokens) (i j : ℕ) (d e : List ℕ)
    → i ≡ j
    → d ≡ e
    → scan i src (record t { dest = d }) ≡ scan j src (record t { dest = e })
at_same src t i j d e p q =
    ap (λ k. scan k src (record t { dest = d })) p ∙ ap (λ l. scan j src (record t { dest = l })) q

scan_char-name :
    (i ch : ℕ) (t : Tokens)
    → (ch == 29) ≡ false
    → scan_char i ch t ≡ record t { dest = t.dest ++ (ch ∷ []) }
unfolding scan_char
scan_char-name i ch t s = rw s refl

scan-name :
    (i j : ℕ) (name src : List ℕ) (t : Tokens)
    → j ≡ i + length name
    → IsName name
    → scan i (name ++ src) t ≡ scan j src (record t { dest = t.dest ++ name })
unfolding IsName scan
scan-name i j [] src t e h = at_same src t i j _ _ (omega arith) (sym (append-nil t.dest))
scan-name i j (ch ∷ name) src t e (s, z, h) =
    ap (scan (suc i) (name ++ src)) (scan_char-name i ch t s)
    ∙ scan-name (suc i) j name src (record t { dest = t.dest ++ (ch ∷ []) }) (omega arith) h
    ∙ at_same src t j j _ _ refl (append_assoc t.dest (ch ∷ []) name)

scan_last :
    (i : ℕ) (name : List ℕ) (t : Tokens)
    → IsName name
    → scan i name t ≡ record t { dest = t.dest ++ name }
unfolding scan
scan_last i name t h =
    ap (λ l. scan i l t) (sym (append-nil name)) ∙ scan-name i (i + length name) name [] t refl h

-- The text up to the zero byte that ends it.
c_str-name : (name rest : List ℕ) → IsName name → c_str (name ++ (0 ∷ rest)) ≡ name
unfolding IsName c_str
c_str-name [] rest h = refl
c_str-name (ch ∷ name) rest (s, z, h) = rw z (ap (λ l. ch ∷ l) (c_str-name name rest h))

drop-append : (xs ys : List ℕ) (m n : ℕ) → n ≡ length xs + m → drop n (xs ++ ys) ≡ drop m ys
drop-append xs ys m n e = ap (λ k. drop k (xs ++ ys)) e ∙ past xs
  where
    next : (l : ℕ) → suc l + m ≡ suc (l + m)
    next l = omega arith

    past : (xs : List ℕ) → drop (length xs + m) (xs ++ ys) ≡ drop m ys
    past [] = ap (λ k. drop k ys) (omega arith)
    past (x ∷ xs) = ap (λ k. drop k (x ∷ (xs ++ ys))) (next (length xs)) ∙ past xs

-- The name that begins behind a text's zero byte.
second_name :
    (name next rest : List ℕ) (n : ℕ)
    → n ≡ suc (length name)
    → IsName next
    → c_str (drop n (name ++ (0 ∷ (next ++ (0 ∷ rest))))) ≡ next
second_name name next rest n e h =
    ap c_str (drop-append name (0 ∷ (next ++ (0 ∷ rest))) 1 n (omega arith))
    ∙ c_str-name next rest h

abbrev begun : ℕ → Tokens
begun n = record { dest = []; artist = n; album = n; idx = 0; is_single_string = true }

abbrev ended : Tokens → Tokens
ended t = record t { dest = t.dest ++ (0 ∷ []) }

one_token :
    (title : List ℕ)
    → IsName title
    → tokenize_meta_data title ≡ record {
      dest = title ++ (0 ∷ []);
      artist = length title;
      album = length title;
      idx = 0;
      is_single_string = true;
    }
unfolding tokenize_meta_data
one_token title h = ap ended (scan_last 0 title (begun (length title)) h)

abbrev found : ℕ → ℕ → ℕ → List ℕ → Tokens
found artist album idx dest = record {
  dest = dest;
  artist = artist;
  album = album;
  idx = idx;
  is_single_string = false;
}

two_tokens :
    (title artist : List ℕ)
    → IsName title
    → IsName artist
    → tokenize_meta_data (title ++ (29 ∷ artist))
      ≡ found
          (suc (length title))
          (length (title ++ (29 ∷ artist)))
          1
          (title ++ (0 ∷ (artist ++ (0 ∷ []))))
unfolding tokenize_meta_data scan scan_char mark_name
two_tokens title artist h k =
    let n = length (title ++ (29 ∷ artist)) in
    ap ended (
      scan-name 0 (length title) title (29 ∷ artist) (begun n) (omega arith) h
      ∙ scan_last (suc (length title)) artist (found (suc (length title)) n 1 (title ++ (0 ∷ [])))
          k)
    ∙ ap (found (suc (length title)) n 1) (
        append_assoc (title ++ (0 ∷ [])) artist (0 ∷ [])
        ∙ append_assoc title (0 ∷ []) (artist ++ (0 ∷ [])))

three_tokens :
    (title artist album : List ℕ)
    → IsName title
    → IsName artist
    → IsName album
    → tokenize_meta_data (title ++ (29 ∷ (artist ++ (29 ∷ album))))
      ≡ found
          (suc (length title))
          (suc (suc (length title) + length artist))
          2
          (title ++ (0 ∷ (artist ++ (0 ∷ (album ++ (0 ∷ []))))))
unfolding tokenize_meta_data scan scan_char mark_name
three_tokens title artist album h k l =
    let n = length (title ++ (29 ∷ (artist ++ (29 ∷ album)))) in
    let a = suc (length title) in
    let b = suc (length title) + length artist in
    let d = (title ++ (0 ∷ [])) ++ artist in
    ap ended (
      scan-name 0 (length title) title (29 ∷ (artist ++ (29 ∷ album))) (begun n) (omega arith) h
      ∙ scan-name a b artist (29 ∷ album) (found a n 1 (title ++ (0 ∷ []))) refl k
      ∙ scan_last (suc b) album (found a (suc b) 2 (d ++ (0 ∷ []))) l)
    ∙ ap (found a (suc b) 2) (
        append_assoc (d ++ (0 ∷ [])) album (0 ∷ [])
        ∙ append_assoc d (0 ∷ []) (album ++ (0 ∷ []))
        ∙ append_assoc (title ++ (0 ∷ [])) artist (0 ∷ (album ++ (0 ∷ [])))
        ∙ append_assoc title (0 ∷ []) (artist ++ (0 ∷ (album ++ (0 ∷ [])))))

-- The album begins behind two zero bytes.
third_name :
    (title artist album : List ℕ)
    → IsName album
    → c_str (
        drop
          (suc (suc (length title) + length artist))
          (title ++ (0 ∷ (artist ++ (0 ∷ (album ++ (0 ∷ [])))))))
      ≡ album
third_name title artist album l =
    ap c_str (
      drop-append title (0 ∷ (artist ++ (0 ∷ (album ++ (0 ∷ []))))) (suc (suc (length artist)))
        (suc (suc (length title) + length artist)) (omega arith))
    ∙ second_name artist album [] (suc (length artist)) refl l

-- With one separator the album begins at the last zero byte.
no_third_name :
    (title artist : List ℕ)
    → c_str (drop (length (title ++ (29 ∷ artist))) (title ++ (0 ∷ (artist ++ (0 ∷ []))))) ≡ []
unfolding c_str
no_third_name title artist = ap c_str (
    drop-append title (0 ∷ (artist ++ (0 ∷ []))) (suc (length artist)) _
      (length-append title (29 ∷ artist))
    ∙ drop-append artist (0 ∷ []) 0 (length artist) (omega arith))

three_names :
    {a b c a' b' c' : List ℕ} → a ≡ a' → b ≡ b' → c ≡ c' → a ∷ b ∷ c ∷ [] ≡ a' ∷ b' ∷ c' ∷ []
three_names p q r = cc

-- If a client has put together a title, an artist and an album, or the first two, or the title alone,
-- by separators, then these names are logged again, each as it has been, the album as an empty name
-- where there is none; a name here has neither a separator nor a zero byte.
pub names_come_out :
    (title artist album : List ℕ)
    → IsName title
    → IsName artist
    → IsName album
    → (log_names (title ++ (29 ∷ (artist ++ (29 ∷ album)))) ≡ artist ∷ album ∷ title ∷ [])
      × (log_names (title ++ (29 ∷ artist)) ≡ artist ∷ [] ∷ title ∷ [])
      × (log_names title ≡ title ∷ [])
unfolding log_names log_tokens
names_come_out title artist album h k l = (
  ap log_tokens (three_tokens title artist album h k l)
      ∙ three_names (second_name title artist (album ++ (0 ∷ [])) _ refl k)
          (third_name title artist album l) (c_str-name title _ h),
  ap log_tokens (two_tokens title artist h k)
      ∙ three_names (second_name title artist [] _ refl k) (no_third_name title artist)
          (c_str-name title _ h),
  ap log_tokens (one_token title h) ∙ ap (λ name. name ∷ []) (c_str-name title [] h),
)
