-- ===== src/Sha256/Incremental.antt =====
-- Hashing in pieces gives the hash of the whole.
use qwen3_tts_native.Base.{
  ℕ, ◌+◌, ◌<◌, ◌^◌, ◌≡◌, refl, sym, ap, ap₂, subst, ◌∙◌, true, false, List, [], ◌∷◌, ◌++◌,
  append_assoc, append-nil, length, map, All, length-append, ltb, ◌==◌, arith, some, Result, ok,
}
use qwen3_tts_native.Sha256.{
  Sha256, new_hasher, update, digest_bytes, read_all, digest_reader, after_reads, with_count,
}
use qwen3_tts_native.Sha256.Chunks.{flatten}
use qwen3_tts_native.Sha256.Absorb.{Absorbed, new_hasher-Absorbed, update-Absorbed}
use qwen3_tts_native.Sha256.Finish.{finalize_unique}

-- Reads that a reader may return before the end: none is empty.
abbrev pub granted : List (List ℕ) → List (Result Unit (List ℕ))
granted = map ok

lt→ltb : (a b : ℕ) → a < b → ltb a b ≡ true
lt→ltb a b h = ground arith

read_all-update :
    {E : Type 0} (h h' : Sha256) (n x : ℕ) (xs : List ℕ) (reads : List (Result E (List ℕ)))
    → n + length (x ∷ xs) < 2 ^ 64
    → update h (x ∷ xs) ≡ some h'
    → read_all h n (ok (x ∷ xs) ∷ reads) ≡ read_all h' (n + length (x ∷ xs)) reads
unfolding read_all
read_all-update h h' n x xs reads small e =
    rw (lt→ltb (n + length (x ∷ xs)) (2 ^ 64) small, read_all) (rw e refl)

read_all-Absorbed :
    (reads : List (List ℕ)) (h : Sha256) (message : List ℕ)
    → Absorbed h message
    → All (λ r. 0 < length r) reads
    → length message + length (flatten reads) < 2 ^ 64
    → (h' : Sha256) × (read_all h (length message) (granted reads)
        ≡ ok (some (h', length message + length (flatten reads))))
      × Absorbed h' (message ++ flatten reads)
unfolding read_all
read_all-Absorbed [] h message v some_bytes small =
    (h, ap (λ n. ok (some (h, n))) (omega arith), subst (Absorbed h) (sym (append-nil message)) v)
read_all-Absorbed ([] ∷ reads) h message v some_bytes small = absurd (omega (arith, some_bytes.0))
read_all-Absorbed ((x ∷ xs) ∷ reads) h message v some_bytes small =
    let total = length-append (x ∷ xs) (flatten reads) in
    let sum : length (message ++ x ∷ xs) ≡ length message + length (x ∷ xs) =
      length-append message (x ∷ xs) in
    let (h', e, v') = update-Absorbed h message (x ∷ xs) v (omega (arith, small, total)) in
    let (h'', f, v'') =
      read_all-Absorbed reads h' (message ++ x ∷ xs) v' some_bytes.1
        (omega (arith, small, total, sum)) in
    (
      h'',
      read_all-update h h' (length message) x xs (granted reads) (omega (arith, small, total)) e
          ∙ ap (λ n. read_all h' n (granted reads)) (sym sum)
          ∙ f
          ∙ ap (λ n. ok (some (h'', n))) (omega (arith, total, sum)),
      subst (Absorbed h'') (append_assoc message (x ∷ xs) (flatten reads)) v'',
    )

-- However the reader cuts a message of fewer than 2 ^ 64 bytes into reads, none of them empty,
-- `digest_reader` with a buffer that is not empty gives the digest that `digest_bytes` gives in one
-- piece, and the number of the bytes.
pub digest_reader-digest_bytes :
    (buffer_bytes : ℕ) (reads : List (List ℕ))
    → 0 < buffer_bytes
    → All (λ r. 0 < length r) reads
    → length (flatten reads) < 2 ^ 64
    → digest_reader buffer_bytes (granted reads)
      ≡ ok (with_count (digest_bytes (flatten reads)) (length (flatten reads)))
unfolding digest_reader digest_bytes after_reads
digest_reader-digest_bytes buffer_bytes reads buffer some_bytes small =
    let (h, e, v) =
      read_all-Absorbed reads new_hasher [] new_hasher-Absorbed some_bytes (omega (arith, small)) in
    let (k, f, w) =
      update-Absorbed new_hasher [] (flatten reads) new_hasher-Absorbed (omega (arith, small)) in
    let count : 0 + length (flatten reads) ≡ length (flatten reads) = omega arith in
    let positive : (buffer_bytes == 0) ≡ false = ground arith in
    rw positive (
      ap after_reads e
      ∙ ap₂ (λ d n. ok (with_count d n)) (finalize_unique h k (flatten reads) v w) count
      ∙ rw f refl)
