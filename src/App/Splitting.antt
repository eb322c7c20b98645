-- ===== src/App/Splitting.antt =====
-- The words of a row and the rows of a text (src/app), put together and taken apart.
use fun_exch_macher.Common.{
  ◌<◌, ◌≡◌, refl, ap, ◌∙◌, true, false, ◌==◌, List, [], ◌∷◌, ◌++◌, All, All-append, length, arith,
}
use fun_exch_macher.App.Text.{Text, is_space, extend, split, words, lines}

-- A word of a row.
abbrev pub IsWord : Text → Type 0
IsWord s = (0 < length s) × All (λ c. is_space c ≡ false) s

-- Words, each behind a space.
abbrev pub spaced : List Text → Text
spaced [] = []
spaced (t ∷ ts) = b' ' ∷ (t ++ spaced ts)

abbrev prepend : Text → List Text → List Text
prepend [] ws = ws
prepend (c ∷ s) ws = extend c (prepend s ws)

prepend-word : (t : Text) (ws : List Text) → prepend t ([] ∷ ws) ≡ t ∷ ws
prepend-word [] ws = refl
prepend-word (c ∷ s) ws = ap (extend c) (prepend-word s ws)

split-append :
    (t rest : Text)
    → All (λ c. is_space c ≡ false) t
    → split (t ++ rest) true ≡ prepend t (split rest true)
unfolding split
split-append [] rest h = refl
split-append (c ∷ s) rest h = rw h.0 (ap (extend c) (split-append s rest h.1))

-- Whether a word starts or goes on.
split-starts : (t rest : Text) → IsWord t → split (t ++ rest) false ≡ split (t ++ rest) true
unfolding split
split-starts [] rest h = absurd (omega (arith, h.0))
split-starts (c ∷ s) rest h = rw h.1.0 refl

split-spaced :
    (t : Text) (ts : List Text) → IsWord t → All IsWord ts → split (t ++ spaced ts) false ≡ t ∷ ts
unfolding split
split-spaced t [] h k = split-starts t [] h ∙ split-append t [] h.1 ∙ prepend-word t []
split-spaced t (u ∷ us) h k =
    split-starts t (spaced (u ∷ us)) h
    ∙ split-append t (spaced (u ∷ us)) h.1
    ∙ ap (λ ws. prepend t ([] ∷ ws)) (split-spaced u us k.0 k.1)
    ∙ prepend-word t (u ∷ us)

pub words-spaced :
    (t : Text) (ts : List Text) → IsWord t → All IsWord ts → words (t ++ spaced ts) ≡ t ∷ ts
unfolding words
words-spaced t ts h k = split-spaced t ts h k

-- A row has no line break.
abbrev pub IsRow : Text → Type 0
IsRow s = All (λ c. (c == b'\n') ≡ false) s

pub lines-row : (row rest : Text) → IsRow row → lines (row ++ (b'\n' ∷ rest)) ≡ row ∷ lines rest
unfolding lines
lines-row [] rest h = refl
lines-row (c ∷ s) rest h = rw h.0 (ap (extend c) (lines-row s rest h.1))

word-IsRow : (t : Text) → All (λ c. is_space c ≡ false) t → IsRow t
word-IsRow [] h = tt
word-IsRow (c ∷ s) h = (ground (arith, h.0), word-IsRow s h.1)

pub spaced-IsRow : (t : Text) (ts : List Text) → IsWord t → All IsWord ts → IsRow (t ++ spaced ts)
spaced-IsRow t [] h k = All-append (λ c. (c == b'\n') ≡ false) t [] (word-IsRow t h.1) tt
spaced-IsRow t (u ∷ us) h k =
    All-append (λ c. (c == b'\n') ≡ false) t (spaced (u ∷ us)) (word-IsRow t h.1)
      (ground arith, spaced-IsRow u us k.0 k.1)
