-- ===== src/Text/Lines.antt =====
-- Parts of texts: `split("\r\n")`, `split_once` for a character, and equality.
use qwen3_tts_native.Base.{
  ℕ, ◌≡◌, ◌≢◌, refl, ◌∙◌, ap, sym, true, ◌&&◌, List, [], ◌∷◌, ◌++◌, append-nil, append_assoc,
  Option, none, some, All, ◌==◌, if◌then◌else◌, arith,
}
use qwen3_tts_native.Wav.Bytes.{same}

-- `current` is the line read so far.
unfoldable pub split_loop : List ℕ → List ℕ → List (List ℕ)
split_loop current [] = current ∷ []
split_loop current (c ∷ []) = (current ++ c ∷ []) ∷ []
split_loop current (c ∷ d ∷ rest) =
    let next = split_loop [] rest in
    let longer = split_loop (current ++ c ∷ []) (d ∷ rest) in
    if c == 13 && d == 10 then current ∷ next else longer

unfoldable pub split_crlf : List ℕ → List (List ℕ)
split_crlf text = split_loop [] text

-- What stands before and after the first `separator`.
unfoldable pub split_once : ℕ → List ℕ → Option (List ℕ × List ℕ)
split_once separator [] = none
split_once separator (c ∷ cs) =
    let rest = split_once separator cs in
    if c == separator
    then some ([], cs)
    else elim rest [ none ↦ none | some (before, after) ↦ some (c ∷ before, after) ]

pub same_refl : (xs : List ℕ) → same xs xs ≡ true
same_refl [] = refl
same_refl (x ∷ xs) = ground (arith, same_refl xs)

pub same_lem : (xs ys : List ℕ) → same xs ys ≡ true → xs ≡ ys
same_lem [] [] h = refl
same_lem [] (y ∷ ys) h = cc
same_lem (x ∷ xs) [] h = cc
same_lem (x ∷ xs) (y ∷ ys) h = ground (arith, same_lem xs ys)

pub split_once_lem :
    (separator : ℕ) (before after : List ℕ)
    → All (λ c. c ≢ separator) before
    → split_once separator (before ++ separator ∷ after) ≡ some (before, after)
unfolding split_once
split_once_lem separator [] after h = ground arith
split_once_lem separator (c ∷ cs) after (h, hs) =
    ground (arith, h, split_once_lem separator cs after hs)

-- No carriage return.
abbrev pub IsLine : List ℕ → Type 0
IsLine text = All (λ c. c ≢ 13) text

split_loop-line :
    (current line : List ℕ) → IsLine line → split_loop current line ≡ (current ++ line) ∷ []
unfolding split_loop
split_loop-line current [] h = ap (λ l. l ∷ []) (sym (append-nil current))
split_loop-line current (c ∷ []) h = refl
split_loop-line current (c ∷ d ∷ rest) (h, hs) =
    let ih = split_loop-line (current ++ c ∷ []) (d ∷ rest) hs in
    ground (arith, h, ih, append_assoc current (c ∷ []) (d ∷ rest))

split_loop-crlf :
    (current line rest : List ℕ)
    → IsLine line
    → split_loop current (line ++ 13 ∷ 10 ∷ rest) ≡ (current ++ line) ∷ split_loop [] rest
unfolding split_loop
split_loop-crlf current [] rest h = ap (λ l. l ∷ split_loop [] rest) (sym (append-nil current))
split_loop-crlf current (c ∷ []) rest (h, hs) =
    let ih = split_loop-crlf (current ++ c ∷ []) [] rest hs in
    ground (arith, h, ih, append-nil (current ++ c ∷ []))
split_loop-crlf current (c ∷ d ∷ line) rest (h, hs) =
    let ih = split_loop-crlf (current ++ c ∷ []) (d ∷ line) rest hs in
    ground (arith, h, ih, append_assoc current (c ∷ []) (d ∷ line))

-- Lines that carriage return and line feed separate.
unfoldable pub joined : List ℕ → List (List ℕ) → List ℕ
joined line [] = line
joined line (next ∷ lines) = line ++ 13 ∷ 10 ∷ joined next lines

pub split_crlf-joined :
    (line : List ℕ) (lines : List (List ℕ))
    → IsLine line
    → All IsLine lines
    → split_crlf (joined line lines) ≡ line ∷ lines
unfolding split_crlf joined
split_crlf-joined line [] h hs = split_loop-line [] line h
split_crlf-joined line (next ∷ lines) h (n, hs) =
    split_loop-crlf [] line (joined next lines) h
    ∙ ap (λ l. line ∷ l) (split_crlf-joined next lines n hs)

-- `split` at a character.
unfoldable pub split_loop_at : ℕ → List ℕ → List ℕ → List (List ℕ)
split_loop_at separator current [] = current ∷ []
split_loop_at separator current (c ∷ cs) =
    let next = split_loop_at separator [] cs in
    let longer = split_loop_at separator (current ++ c ∷ []) cs in
    if c == separator then current ∷ next else longer

unfoldable pub split_char : ℕ → List ℕ → List (List ℕ)
split_char separator text = split_loop_at separator [] text
