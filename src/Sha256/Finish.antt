-- ===== src/Sha256/Finish.antt =====
-- `finalize` depends only on the message that the hasher has absorbed.
use qwen3_tts_native.Base.{
  take-append, ℕ, ◌+◌, ◌-◌, ◌*◌, ◌<◌, ◌^◌, ◌≡◌, refl, sym, ap, ap₂, subst, ◌∙◌, Bool, List, [], ◌∷◌,
  ◌++◌, append_assoc, length, take, drop, replicate, length-append, length-take, length-replicate,
  ltb, if◌then◌else◌, Bool-cases, inl, inr, arith, none, some,
}
use qwen3_tts_native.Sha256.{
  Sha256, initial_state, compress_all, as_chunks, copy_into, last_block, pad, finish, finalize,
  be64,
}
use qwen3_tts_native.Sha256.Chunks.{as_chunks_unique}
use qwen3_tts_native.Sha256.Absorb.{Holds, Absorbed, take-copy_into}

-- Two hashers behind the same message agree on all that `finish` reads.
Holds-unique :
    (h k : Sha256) (message : List ℕ)
    → Holds h message
    → Holds k message
    → (h.state ≡ k.state) × (take h.block_len h.block ≡ take k.block_len k.block)
Holds-unique h k message v w =
    let u = cut_of h message v in
    let t = cut_of k message w in
    let same = sym u ∙ t in
    (
      v.state
          ∙ ap (λ (c : List (List ℕ) × List ℕ). compress_all initial_state c.0) same
          ∙ sym w.state,
      ap (λ (c : List (List ℕ) × List ℕ). c.1) same,
    )
  where
    cut_of :
        (h : Sha256) (message : List ℕ) (v : Holds h message)
        → as_chunks (length message) message ≡ (v.blocks, take h.block_len h.block)
    cut_of h message v =
        subst (λ m. as_chunks (length m) m ≡ (v.blocks, take h.block_len h.block)) v.whole
          (as_chunks_unique v.blocks (take h.block_len h.block) _ v.sized
            (omega (arith, length-take h.block_len h.block, v.short)) (omega arith))

last_block-append :
    (s p q bits : List ℕ) → length p ≡ 56 → last_block s (p ++ q) bits ≡ last_block s (p ++ []) bits
unfolding last_block
last_block-append s p q bits h =
    let cut : take 56 (p ++ q) ≡ take 56 (p ++ []) =
      take-append 56 p q h ∙ sym (take-append 56 p [] h) in
    rw cut refl

pad-behind :
    (s front behind bits : List ℕ) (n : ℕ)
    → length front ≡ n
    → pad s front behind n bits ≡ pad s front [] n bits
unfolding pad
pad-behind s front behind bits n h = elim (Bool-cases (ltb 56 n)) [
  | inl e ↦ rw e refl
  | inr e ↦ rw e (
      ap (λ l. last_block s l bits) (sym (append_assoc front (replicate (56 - n) 0) behind))
      ∙ last_block-append s (front ++ replicate (56 - n) 0) behind bits (
          ground (
            arith,
            length-append front (replicate (56 - n) 0),
            length-replicate {A = ℕ} (56 - n) 0,
          ))
      ∙ ap (λ l. last_block s l bits) (append_assoc front (replicate (56 - n) 0) []))
]

-- `finish` reads only the bytes that are left, not the rest of the buffer.
finish-pad :
    (h : Sha256) (bits : List ℕ)
    → length h.block ≡ 64
    → h.block_len < 64
    → finish h bits
      ≡ pad h.state
          (take h.block_len h.block ++ 0x80 ∷ [])
          []
          (length (take h.block_len h.block) + 1)
          bits
unfolding finish
finish-pad h bits full short =
    let block = copy_into h.block h.block_len (0x80 ∷ []) in
    let old = take h.block_len h.block in
    let n : length old ≡ h.block_len = omega (arith, length-take h.block_len h.block) in
    let front : take (h.block_len + 1) block ≡ old ++ 0x80 ∷ [] =
      take-copy_into h.block full h.block_len (0x80 ∷ []) (omega (arith, short)) in
    ap (λ l. pad h.state l (drop 56 block) (h.block_len + 1) bits) front
    ∙ pad-behind h.state (old ++ 0x80 ∷ []) (drop 56 block) bits (h.block_len + 1)
        (omega (arith, n, length-append old (0x80 ∷ [])))
    ∙ ap (λ k. pad h.state (old ++ 0x80 ∷ []) [] (k + 1) bits) (sym n)

-- So the digest depends only on the message.
pub finalize_unique :
    (h k : Sha256) (message : List ℕ)
    → Absorbed h message
    → Absorbed k message
    → finalize h ≡ finalize k
unfolding finalize
finalize_unique h k message v w =
    let (states, rests) = Holds-unique h k message v.holds w.holds in
    let seen : h.bytes_seen ≡ k.bytes_seen = v.seen ∙ sym w.seen in
    let same : (bits : List ℕ) → finish h bits ≡ finish k bits = λ bits.
      finish-pad h bits v.holds.full v.holds.short
      ∙ ap₂ (λ s r. pad s (r ++ 0x80 ∷ []) [] (length r + 1) bits) states rests
      ∙ sym (finish-pad k bits w.holds.full w.holds.short) in
    ap (λ o. o)
      (ap₂ (λ (b : Bool) (r : List ℕ). if b then some r else none)
        (ap (λ n. ltb (n * 8) (2 ^ 64)) seen)
        (same (be64 (h.bytes_seen * 8)) ∙ ap (λ n. finish k (be64 (n * 8))) seen))
