-- ===== src/Sha256.antt =====
-- native/qwen3-tts-native/src/sha256.rs: the incremental hash that checks the model's files.
pub mod Chunks
pub mod Absorb
pub mod Finish
pub mod Incremental
mod Examples
use qwen3_tts_native.Base.{
  ℕ, zero, suc, ◌+◌, ◌-◌, ◌*◌, ◌/◌, ◌%◌, ◌^◌, min, bit_and, bit_xor, Bool, true, false, List, [],
  ◌∷◌, ◌++◌, length, take, drop, replicate, get_or, Option, none, some, Result, ok, err, ltb, leb,
  ◌==◌, ◌!=◌, if◌then◌else◌, u32, map,
}

abbrev pub initial_state : List ℕ
initial_state =
    0x6a09e667 ∷ 0xbb67ae85 ∷ 0x3c6ef372 ∷ 0xa54ff53a ∷ 0x510e527f ∷ 0x9b05688c ∷ 0x1f83d9ab
    ∷ 0x5be0cd19 ∷ []

abbrev pub round_constants : List ℕ
round_constants =
    0x428a2f98 ∷ 0x71374491 ∷ 0xb5c0fbcf ∷ 0xe9b5dba5 ∷ 0x3956c25b ∷ 0x59f111f1 ∷ 0x923f82a4
    ∷ 0xab1c5ed5 ∷ 0xd807aa98 ∷ 0x12835b01 ∷ 0x243185be ∷ 0x550c7dc3 ∷ 0x72be5d74 ∷ 0x80deb1fe
    ∷ 0x9bdc06a7 ∷ 0xc19bf174 ∷ 0xe49b69c1 ∷ 0xefbe4786 ∷ 0x0fc19dc6 ∷ 0x240ca1cc ∷ 0x2de92c6f
    ∷ 0x4a7484aa ∷ 0x5cb0a9dc ∷ 0x76f988da ∷ 0x983e5152 ∷ 0xa831c66d ∷ 0xb00327c8 ∷ 0xbf597fc7
    ∷ 0xc6e00bf3 ∷ 0xd5a79147 ∷ 0x06ca6351 ∷ 0x14292967 ∷ 0x27b70a85 ∷ 0x2e1b2138 ∷ 0x4d2c6dfc
    ∷ 0x53380d13 ∷ 0x650a7354 ∷ 0x766a0abb ∷ 0x81c2c92e ∷ 0x92722c85 ∷ 0xa2bfe8a1 ∷ 0xa81a664b
    ∷ 0xc24b8b70 ∷ 0xc76c51a3 ∷ 0xd192e819 ∷ 0xd6990624 ∷ 0xf40e3585 ∷ 0x106aa070 ∷ 0x19a4c116
    ∷ 0x1e376c08 ∷ 0x2748774c ∷ 0x34b0bcb5 ∷ 0x391c0cb3 ∷ 0x4ed8aa4a ∷ 0x5b9cca4f ∷ 0x682e6ff3
    ∷ 0x748f82ee ∷ 0x78a5636f ∷ 0x84c87814 ∷ 0x8cc70208 ∷ 0x90befffa ∷ 0xa4506ceb ∷ 0xbef9a3f7
    ∷ 0xc67178f2 ∷ []

pub record Sha256 : Type 0 where
  pub state : List ℕ
  pub block : List ℕ
  pub block_len : ℕ
  pub bytes_seen : ℕ

-- `Sha256::default`, and so `new`.
abbrev pub new_hasher : Sha256
new_hasher = record { state = initial_state; block = replicate 64 0; block_len = 0; bytes_seen = 0 }

-- `u32::rotate_right` and `!`.
abbrev rotate_right : ℕ → ℕ → ℕ
rotate_right x n = x / 2 ^ n + x % 2 ^ n * 2 ^ (32 - n)

abbrev complement : ℕ → ℕ
complement x = 2 ^ 32 - 1 - x

abbrev xor3 : ℕ → ℕ → ℕ → ℕ
xor3 x y z = bit_xor (bit_xor x y) z

-- `block.as_chunks::<4>()`, each by `u32::from_be_bytes`.
abbrev words : List ℕ → List ℕ
words (a ∷ b ∷ c ∷ d ∷ bytes) = (a * 2 ^ 24 + b * 2 ^ 16 + c * 2 ^ 8 + d) ∷ words bytes
words _ = []

-- The loop over `16..64`: the words so far, in order, and how many are missing.
abbrev expand : ℕ → List ℕ → List ℕ
expand zero schedule = schedule
expand (suc n) schedule =
    let i = length schedule in
    let x = get_or schedule (i - 15) 0 in
    let y = get_or schedule (i - 2) 0 in
    let s0 = xor3 (rotate_right x 7) (rotate_right x 18) (x / 2 ^ 3) in
    let s1 = xor3 (rotate_right y 17) (rotate_right y 19) (y / 2 ^ 10) in
    expand n (
      schedule
      ++ u32 (u32 (u32 (get_or schedule (i - 16) 0 + s0) + get_or schedule (i - 7) 0) + s1) ∷ [])

-- The variables `a` to `h`.
record Working : Type 0 where
  pub a : ℕ
  pub b : ℕ
  pub c : ℕ
  pub d : ℕ
  pub e : ℕ
  pub f : ℕ
  pub g : ℕ
  pub h : ℕ

abbrev round : Working → ℕ → ℕ → Working
round v constant word =
    let sum1 = xor3 (rotate_right v.e 6) (rotate_right v.e 11) (rotate_right v.e 25) in
    let choice = bit_xor (bit_and v.e v.f) (bit_and (complement v.e) v.g) in
    let temporary1 = u32 (u32 (u32 (u32 (v.h + sum1) + choice) + constant) + word) in
    let sum0 = xor3 (rotate_right v.a 2) (rotate_right v.a 13) (rotate_right v.a 22) in
    let majority = xor3 (bit_and v.a v.b) (bit_and v.a v.c) (bit_and v.b v.c) in
    let temporary2 = u32 (sum0 + majority) in
    record {
      a = u32 (temporary1 + temporary2);
      b = v.a;
      c = v.b;
      d = v.c;
      e = u32 (v.d + temporary1);
      f = v.e;
      g = v.f;
      h = v.g;
    }

abbrev rounds : List ℕ → List ℕ → Working → Working
rounds (k ∷ ks) (w ∷ ws) v = rounds ks ws (round v k w)
rounds ks ws v = v

abbrev add_words : List ℕ → List ℕ → List ℕ
add_words (x ∷ xs) (y ∷ ys) = u32 (x + y) ∷ add_words xs ys
add_words xs ys = xs

-- `Sha256::compress` on the eight words of the state.
unfoldable pub compress : List ℕ → List ℕ → List ℕ
compress state block =
    let v = rounds round_constants (expand 48 (words block)) (record {
      a = get_or state 0 0;
      b = get_or state 1 0;
      c = get_or state 2 0;
      d = get_or state 3 0;
      e = get_or state 4 0;
      f = get_or state 5 0;
      g = get_or state 6 0;
      h = get_or state 7 0;
    }) in
    add_words state (v.a ∷ v.b ∷ v.c ∷ v.d ∷ v.e ∷ v.f ∷ v.g ∷ v.h ∷ [])

-- `for block in blocks { self.compress(block) }`.
unfoldable pub compress_all : List ℕ → List (List ℕ) → List ℕ
compress_all state [] = state
compress_all state (block ∷ blocks) = compress_all (compress state block) blocks

-- `input.as_chunks::<64>()` on fuel; each chunk takes 64 bytes.
unfoldable pub as_chunks : ℕ → List ℕ → List (List ℕ) × List ℕ
as_chunks zero input = ([], input)
as_chunks (suc fuel) input =
    let (blocks, remainder) = as_chunks fuel (drop 64 input) in
    if ltb (length input) 64 then ([], input) else (take 64 input ∷ blocks, remainder)

-- `block[offset..offset + bytes.len()].copy_from_slice(bytes)`.
abbrev pub copy_into : List ℕ → ℕ → List ℕ → List ℕ
copy_into block offset bytes = take offset block ++ (bytes ++ drop (offset + length bytes) block)

unfoldable pub after_chunks : Sha256 → List (List ℕ) × List ℕ → Sha256
unfolding compress_all
after_chunks h (blocks, remainder) = record h {
  state = compress_all h.state blocks;
  block = copy_into h.block 0 remainder;
  block_len = length remainder;
}

-- The last part of `update`.
unfoldable pub absorb_blocks : Sha256 → List ℕ → Sha256
unfolding after_chunks as_chunks
absorb_blocks h input = after_chunks h (as_chunks (length input) input)

-- A block that was begun is filled first.
unfoldable pub fill_block : Sha256 → List ℕ → ℕ → Sha256
unfolding absorb_blocks compress
fill_block h input copied =
    let block = copy_into h.block h.block_len (take copied input) in
    if h.block_len + copied == 64
    then absorb_blocks (record h { state = compress h.state block; block = block; block_len = 0 })
        (drop copied input)
    else record h { block = block; block_len = h.block_len + copied }

-- `Sha256::update`; `none` is the panic of its `expect`.
unfoldable pub update : Sha256 → List ℕ → Option Sha256
unfolding fill_block absorb_blocks
update h input =
    let h' = record h { bytes_seen = h.bytes_seen + length input } in
    if ltb (h.bytes_seen + length input) (2 ^ 64)
    then some (
        if h.block_len != 0
        then fill_block h' input (min (64 - h.block_len) (length input))
        else absorb_blocks h' input)
    else none

abbrev be32 : ℕ → List ℕ
be32 n = n / 2 ^ 24 % 256 ∷ n / 2 ^ 16 % 256 ∷ n / 2 ^ 8 % 256 ∷ n % 256 ∷ []

-- `u64::to_be_bytes`.
abbrev pub be64 : ℕ → List ℕ
be64 n = be32 (n / 2 ^ 32) ++ be32 (n % 2 ^ 32)

abbrev digest_of : List ℕ → List ℕ
digest_of [] = []
digest_of (word ∷ state) = be32 word ++ digest_of state

-- The last block: `block[56..64]` is the length.
unfoldable pub last_block : List ℕ → List ℕ → List ℕ → List ℕ
last_block state block bits = digest_of (compress state (take 56 block ++ bits))

-- The end of `finalize` for the bytes `front` of the block, `n` of them, before `block_len`, and
-- those from 56 on, `behind`. `block[n..].fill(0)` and `block[n..56].fill(0)` are written out.
unfoldable pub pad : List ℕ → List ℕ → List ℕ → ℕ → List ℕ → List ℕ
pad state front behind n bits =
    if ltb 56 n
    then last_block (compress state (front ++ replicate (64 - n) 0)) (replicate 64 0) bits
    else last_block state (front ++ (replicate (56 - n) 0 ++ behind)) bits

-- `Sha256::finalize` behind the multiplication.
unfoldable pub finish : Sha256 → List ℕ → List ℕ
finish h bits =
    let block = copy_into h.block h.block_len (0x80 ∷ []) in
    let block_len = h.block_len + 1 in
    pad h.state (take block_len block) (drop 56 block) block_len bits

-- `Sha256::finalize`; `none` is the panic of its `expect`.
unfoldable pub finalize : Sha256 → Option (List ℕ)
unfolding finish
finalize h =
    if ltb (h.bytes_seen * 8) (2 ^ 64) then some (finish h (be64 (h.bytes_seen * 8))) else none

abbrev pub and_then {ℓ κ} : {A : Type ℓ} {B : Type κ} → Option A → (A → Option B) → Option B
and_then none k = none
and_then (some a) k = k a

-- `digest_bytes`.
unfoldable pub digest_bytes : List ℕ → Option (List ℕ)
unfolding update finalize
digest_bytes input = and_then (update new_hasher input) finalize

-- `std::io::Error`: the two that `digest_reader` makes, and those of the reader.
pub data ReaderError (E : Type 0) : Type 0 where
  zero_buffer count_overflowed : ReaderError E
  from_reader : E → ReaderError E

-- The loop of `digest_reader` over the reads that a reader grants, up to the first empty one or the
-- first error, with the bytes counted. A `none` inside is a panic of the hasher.
unfoldable pub read_all :
    {E : Type 0}
    → Sha256
    → ℕ
    → List (Result E (List ℕ))
    → Result (ReaderError E) (Option (Sha256 × ℕ))
unfolding update
read_all h bytes [] = ok (some (h, bytes))
read_all h bytes (err e ∷ reads) = err (from_reader e)
read_all h bytes (ok [] ∷ reads) = ok (some (h, bytes))
read_all h bytes (ok (x ∷ xs) ∷ reads) =
    if ltb (bytes + length (x ∷ xs)) (2 ^ 64)
    then elim (update h (x ∷ xs)) [
      | none ↦ ok none
      | some h' ↦ read_all h' (bytes + length (x ∷ xs)) reads
    ]
    else err count_overflowed

abbrev pub with_count : Option (List ℕ) → ℕ → Option (List ℕ × ℕ)
with_count none bytes = none
with_count (some digest) bytes = some (digest, bytes)

unfoldable pub after_reads :
    {E : Type 0}
    → Result (ReaderError E) (Option (Sha256 × ℕ))
    → Result (ReaderError E) (Option (List ℕ × ℕ))
unfolding finalize
after_reads (err e) = err e
after_reads (ok none) = ok none
after_reads (ok (some (h, bytes))) = ok (with_count (finalize h) bytes)

-- `digest_reader` with its buffer's size, of which no read is longer.
unfoldable pub digest_reader :
    {E : Type 0} → ℕ → List (Result E (List ℕ)) → Result (ReaderError E) (Option (List ℕ × ℕ))
unfolding read_all after_reads
digest_reader buffer_bytes reads =
    if buffer_bytes == 0 then err zero_buffer else after_reads (read_all new_hasher 0 reads)
