-- ===== src/Sha256/Chunks.antt =====
-- Cutting a message into blocks of 64 bytes.
use qwen3_tts_native.Base.{
  take-append, drop-append, ℕ, zero, suc, ◌<◌, ◌≤◌, ◌≡◌, refl, sym, ap, ◌∙◌, false, List, [], ◌∷◌,
  ◌++◌, append_assoc, length, take, drop, All, length-append, length-take, length-drop,
  take-append-drop, ltb, Bool-cases, inl, inr, arith,
}
use qwen3_tts_native.Sha256.{as_chunks, compress, compress_all}

abbrev pub flatten : List (List ℕ) → List ℕ
flatten [] = []
flatten (block ∷ blocks) = block ++ flatten blocks

abbrev pub AreBlocks : List (List ℕ) → Type 0
AreBlocks = All (λ block. length block ≡ 64)

pub flatten-append : (xs ys : List (List ℕ)) → flatten (xs ++ ys) ≡ flatten xs ++ flatten ys
flatten-append [] ys = refl
flatten-append (x ∷ xs) ys =
    ap (λ l. x ++ l) (flatten-append xs ys) ∙ sym (append_assoc x (flatten xs) (flatten ys))

pub compress_all-append :
    (s : List ℕ) (xs ys : List (List ℕ))
    → compress_all s (xs ++ ys) ≡ compress_all (compress_all s xs) ys
unfolding compress_all
compress_all-append s [] ys = refl
compress_all-append s (x ∷ xs) ys = compress_all-append (compress s x) xs ys

not_ltb→le : (a b : ℕ) → ltb a b ≡ false → b ≤ a
not_ltb→le a b h = ground arith

-- The cut of a message: its whole blocks and what is left.
pub record IsCut (message : List ℕ) (cut : List (List ℕ) × List ℕ) : Type 0 where
  pub whole : flatten cut.0 ++ cut.1 ≡ message
  pub blocks : AreBlocks cut.0
  pub short : length cut.1 < 64

pub as_chunks-IsCut :
    (fuel : ℕ) (input : List ℕ) → length input ≤ fuel → IsCut input (as_chunks fuel input)
unfolding as_chunks
as_chunks-IsCut zero input h = record { whole = refl; blocks = tt; short = omega arith }
as_chunks-IsCut (suc fuel) input h = elim (Bool-cases (ltb (length input) 64)) [
  | inl e ↦ rw e (record { whole = refl; blocks = tt; short = ground arith })
  | inr e ↦
      let v = as_chunks-IsCut fuel (drop 64 input) (omega (arith, length-drop 64 input)) in
      rw e (record {
        whole =
            append_assoc (take 64 input) (flatten (as_chunks fuel (drop 64 input)).0) _
            ∙ ap (λ l. take 64 input ++ l) v.whole
            ∙ take-append-drop 64 input;
        blocks = (omega (arith, length-take 64 input, not_ltb→le _ _ e), v.blocks);
        short = v.short;
      })
]

-- There is one cut only.
pub as_chunks_unique :
    (blocks : List (List ℕ)) (rest : List ℕ) (fuel : ℕ)
    → AreBlocks blocks
    → length rest < 64
    → length (flatten blocks ++ rest) ≤ fuel
    → as_chunks fuel (flatten blocks ++ rest) ≡ (blocks, rest)
unfolding as_chunks
as_chunks_unique [] rest zero b s h = refl
as_chunks_unique [] rest (suc fuel) b s h = ground arith
as_chunks_unique (x ∷ xs) rest zero (b, bs) s h =
    absurd (ground (arith, length-append (x ++ flatten xs) rest, length-append x (flatten xs)))
as_chunks_unique (x ∷ xs) rest (suc fuel) (b, bs) s h =
    let l = length-append x (flatten xs ++ rest) in
    let h' : length (x ++ (flatten xs ++ rest)) ≤ suc fuel =
      rw (sym (append_assoc x (flatten xs) rest)) h in
    let more : ltb (length (x ++ (flatten xs ++ rest))) 64 ≡ false = ground (arith, l) in
    let again = as_chunks_unique xs rest fuel bs s (omega (arith, h', l)) in
    rw (append_assoc x (flatten xs) rest) (
      rw more (
        rw (drop-append 64 x (flatten xs ++ rest) b, take-append 64 x (flatten xs ++ rest) b, again)
          refl))
