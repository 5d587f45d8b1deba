-- ===== src/Sha256/Absorb.antt =====
-- What the hasher holds after an update: whole blocks compressed, the rest in its buffer.
use qwen3_tts_native.Base.{
  take-append, ℕ, zero, suc, ◌+◌, ◌-◌, ◌<◌, ◌≤◌, ◌^◌, min, ◌≡◌, refl, sym, ap, ap₂, subst, ◌∙◌,
  true, List, [], ◌∷◌, ◌++◌, append_assoc, append-nil, length, take, drop, All-append,
  length-append, length-take, length-drop, take-append-drop, ltb, ◌==◌, ◌!=◌, if◌then◌else◌,
  Bool-cases, inl, inr, arith, some,
}
use qwen3_tts_native.Sha256.{
  Sha256, new_hasher, initial_state, compress, compress_all, as_chunks, copy_into, after_chunks,
  absorb_blocks, fill_block, update,
}
use qwen3_tts_native.Sha256.Chunks.{
  flatten, AreBlocks, flatten-append, compress_all-append, as_chunks-IsCut,
}

drop_all : (n : ℕ) (xs : List ℕ) → length xs ≤ n → drop n xs ≡ []
drop_all zero [] h = refl
drop_all zero (x ∷ xs) h = absurd (omega arith)
drop_all (suc n) [] h = refl
drop_all (suc n) (x ∷ xs) h = drop_all n xs (omega arith)

take_all : (xs : List ℕ) → take (length xs) xs ≡ xs
take_all [] = refl
take_all (x ∷ xs) = ap (λ l. x ∷ l) (take_all xs)

compress_all-last :
    (s : List ℕ) (blocks : List (List ℕ)) (block : List ℕ)
    → compress_all s (blocks ++ block ∷ []) ≡ compress (compress_all s blocks) block
unfolding compress_all
compress_all-last s blocks block = compress_all-append s blocks (block ∷ [])

module _ (block : List ℕ) (full : length block ≡ 64) where
  length-copy_into : (n : ℕ) (xs : List ℕ) → n + length xs ≤ 64 → length (copy_into block n xs) ≡ 64
  length-copy_into n xs h = omega (
    arith,
    length-append (take n block) (xs ++ drop (n + length xs) block),
    length-append xs (drop (n + length xs) block),
    length-take n block,
    length-drop (n + length xs) block,
  )

  pub take-copy_into :
      (n : ℕ) (xs : List ℕ)
      → n + length xs ≤ 64
      → take (n + length xs) (copy_into block n xs) ≡ take n block ++ xs
  take-copy_into n xs h = rw (sym (append_assoc (take n block) xs (drop (n + length xs) block))) (
      take-append (n + length xs) (take n block ++ xs) (drop (n + length xs) block)
        (omega (arith, length-append (take n block) xs, length-take n block)))

  copy_into_whole :
      (n : ℕ) (xs : List ℕ) → n + length xs ≡ 64 → copy_into block n xs ≡ take n block ++ xs
  copy_into_whole n xs h =
      ap (λ l. take n block ++ (xs ++ l)) (drop_all (n + length xs) block (omega arith))
      ∙ ap (λ l. take n block ++ l) (append-nil xs)

-- The hasher stands behind `message`, but for the count of the bytes.
pub record Holds (h : Sha256) (message : List ℕ) : Type 0 where
  pub blocks : List (List ℕ)
  pub sized : AreBlocks blocks
  pub state : h.state ≡ compress_all initial_state blocks
  pub full : length h.block ≡ 64
  pub short : h.block_len < 64
  pub whole : flatten blocks ++ take h.block_len h.block ≡ message

absorb_blocks-Holds :
    (h : Sha256) (blocks : List (List ℕ)) (input : List ℕ)
    → AreBlocks blocks
    → h.state ≡ compress_all initial_state blocks
    → length h.block ≡ 64
    → Holds (absorb_blocks h input) (flatten blocks ++ input)
unfolding absorb_blocks after_chunks
absorb_blocks-Holds h blocks input sized state full =
    let cut = as_chunks (length input) input in
    let v = as_chunks-IsCut (length input) input (omega arith) in
    record {
      blocks = blocks ++ cut.0;
      sized = All-append _ blocks cut.0 sized v.blocks;
      state =
          ap (λ s. compress_all s cut.0) state
          ∙ sym (compress_all-append initial_state blocks cut.0);
      full = length-copy_into h.block full 0 cut.1 (omega (arith, v.short));
      short = v.short;
      whole =
          ap₂ (λ x y. x ++ y) (flatten-append blocks cut.0)
            (take-append (length cut.1) cut.1 (drop (0 + length cut.1) h.block) refl)
          ∙ append_assoc (flatten blocks) (flatten cut.0) cut.1
          ∙ ap (λ l. flatten blocks ++ l) v.whole;
    }

fill_block-Holds :
    (h : Sha256) (message input : List ℕ) (copied : ℕ)
    → Holds h message
    → copied ≡ min (64 - h.block_len) (length input)
    → Holds (fill_block h input copied) (message ++ input)
unfolding fill_block
fill_block-Holds h message input copied v c =
    let piece = take copied input in
    let long : length piece ≡ copied = omega (arith, length-take copied input) in
    let old = take h.block_len h.block in
    let block = copy_into h.block h.block_len piece in
    let full = length-copy_into h.block v.full h.block_len piece (omega (arith, v.short)) in
    let joined : flatten v.blocks ++ (old ++ piece) ≡ message ++ piece =
      sym (append_assoc (flatten v.blocks) old piece) ∙ ap (λ l. l ++ piece) v.whole in
    elim (Bool-cases (h.block_len + copied == 64)) [
      | inl e ↦
          let at_end : h.block_len + length piece ≡ 64 = ground (arith, long) in
          let same = copy_into_whole h.block v.full h.block_len piece at_end in
          let before : flatten (v.blocks ++ block ∷ []) ≡ message ++ piece =
            flatten-append v.blocks (block ∷ [])
            ∙ ap (λ l. flatten v.blocks ++ l) (append-nil block ∙ same)
            ∙ joined in
          rw e (
            subst (Holds _)
              (ap (λ l. l ++ drop copied input) before
                ∙ append_assoc message piece (drop copied input)
                ∙ ap (λ l. message ++ l) (take-append-drop copied input))
              (absorb_blocks-Holds
                (record h { state = compress h.state block; block = block; block_len = 0 })
                (v.blocks ++ block ∷ []) (drop copied input)
                (All-append _ v.blocks (block ∷ []) v.sized (full, tt))
                (ap (λ s. compress s block) v.state
                  ∙ sym (compress_all-last initial_state v.blocks block))
                full))
      | inr e ↦
          let all_copied : copied ≡ length input = ground arith in
          let everything : piece ≡ input = rw all_copied (take_all input) in
          rw e (record {
            blocks = v.blocks;
            sized = v.sized;
            state = v.state;
            full = full;
            short = ground (arith, v.short);
            whole =
                ap (λ n. flatten v.blocks ++ take n block) (ap (λ k. h.block_len + k) (sym long))
                ∙ ap (λ l. flatten v.blocks ++ l)
                    (take-copy_into h.block v.full h.block_len piece (omega (arith, v.short)))
                ∙ joined
                ∙ ap (λ l. message ++ l) everything;
          })
    ]

-- The hasher has absorbed exactly `message`.
pub record Absorbed (h : Sha256) (message : List ℕ) : Type 0 where
  pub holds : Holds h message
  pub seen : h.bytes_seen ≡ length message

pub new_hasher-Absorbed : Absorbed new_hasher []
unfolding compress_all
new_hasher-Absorbed = record {
  holds = record {
    blocks = [];
    sized = tt;
    state = refl;
    full = refl;
    short = omega arith;
    whole = refl;
  };
  seen = refl;
}

begun-Holds :
    (h : Sha256) (message input : List ℕ) (seen : ℕ)
    → Holds h message
    → Holds
        (if h.block_len != 0
          then fill_block
              (record h { bytes_seen = seen })
              input
              (min (64 - h.block_len) (length input))
          else absorb_blocks (record h { bytes_seen = seen }) input)
        (message ++ input)
begun-Holds h message input seen v =
    let h' : Sha256 = record h { bytes_seen = seen } in
    let v' : Holds h' message = record {
      blocks = v.blocks;
      sized = v.sized;
      state = v.state;
      full = v.full;
      short = v.short;
      whole = v.whole;
    } in
    elim (Bool-cases (h.block_len != 0)) [
      | inl e ↦ rw e (fill_block-Holds h' message input _ v' refl)
      | inr e ↦
          let none_left : h.block_len ≡ 0 = ground arith in
          let message_is : flatten v.blocks ≡ message =
            sym (append-nil (flatten v.blocks))
            ∙ ap (λ n. flatten v.blocks ++ take n h.block) (sym none_left)
            ∙ v.whole in
          rw e (
            subst (Holds _) (ap (λ l. l ++ input) message_is)
              (absorb_blocks-Holds h' v.blocks input v.sized v.state v.full))
    ]

bytes_seen-after_chunks :
    (h : Sha256) (cut : List (List ℕ) × List ℕ) → (after_chunks h cut).bytes_seen ≡ h.bytes_seen
unfolding after_chunks
bytes_seen-after_chunks h cut = refl

bytes_seen-absorb_blocks :
    (h : Sha256) (input : List ℕ) → (absorb_blocks h input).bytes_seen ≡ h.bytes_seen
unfolding absorb_blocks
bytes_seen-absorb_blocks h input = bytes_seen-after_chunks h (as_chunks (length input) input)

bytes_seen-fill_block :
    (h : Sha256) (input : List ℕ) (copied : ℕ)
    → (fill_block h input copied).bytes_seen ≡ h.bytes_seen
unfolding fill_block
bytes_seen-fill_block h input copied = elim (Bool-cases (h.block_len + copied == 64)) [
  | inl e ↦ rw e (
      bytes_seen-absorb_blocks
        (record h {
          state = compress h.state (copy_into h.block h.block_len (take copied input));
          block = copy_into h.block h.block_len (take copied input);
          block_len = 0;
        })
        (drop copied input))
  | inr e ↦ rw e refl
]

pub update-Absorbed :
    (h : Sha256) (message input : List ℕ)
    → Absorbed h message
    → length message + length input < 2 ^ 64
    → (h' : Sha256) × (update h input ≡ some h') × Absorbed h' (message ++ input)
unfolding update
update-Absorbed h message input v small =
    let total : ltb (h.bytes_seen + length input) (2 ^ 64) ≡ true = ground (arith, v.seen) in
    let h' : Sha256 = record h { bytes_seen = h.bytes_seen + length input } in
    let count : h.bytes_seen + length input ≡ length (message ++ input) =
      omega (arith, v.seen, length-append message input) in
    (
      _,
      rw total refl,
      record {
        holds = begun-Holds h message input (h.bytes_seen + length input) v.holds;
        seen = elim (Bool-cases (h.block_len != 0)) [
          | inl e ↦
              rw e (bytes_seen-fill_block h' input (min (64 - h.block_len) (length input)) ∙ count)
          | inr e ↦ rw e (bytes_seen-absorb_blocks h' input ∙ count)
        ];
      },
    )
