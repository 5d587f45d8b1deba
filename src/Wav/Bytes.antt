-- ===== src/Wav/Bytes.antt =====
-- Little-endian fields in byte strings, as `to_le_bytes`, `from_le_bytes` and slices give them.
use qwen3_tts_native.Base.{
  ℕ, ◌+◌, ◌*◌, ◌/◌, ◌%◌, ◌^◌, ◌<◌, ◌≡◌, Bool, true, false, ◌&&◌, List, [], ◌∷◌, length, take, drop,
  Option, none, some, leb, ltb, ◌==◌, if◌then◌else◌, arith,
}

abbrev pub le16 : ℕ → List ℕ
le16 n = n % 256 ∷ n / 256 % 256 ∷ []

abbrev pub le32 : ℕ → List ℕ
le32 n = n % 256 ∷ n / 256 % 256 ∷ n / 65536 % 256 ∷ n / 16777216 % 256 ∷ []

abbrev pub from_le : List ℕ → ℕ
from_le [] = 0
from_le (b ∷ bs) = b + 256 * from_le bs

pub from_le-le32 : (n : ℕ) → n < 2 ^ 32 → from_le (le32 n) ≡ n
from_le-le32 n h = omega arith

-- `bytes[offset..offset + count]`.
abbrev pub slice : List ℕ → ℕ → ℕ → List ℕ
slice bytes offset count = take count (drop offset bytes)

-- `bytes.get(offset..offset + count)`.
abbrev pub get_range : List ℕ → ℕ → ℕ → Option (List ℕ)
get_range bytes offset count =
    if leb (offset + count) (length bytes) then some (slice bytes offset count) else none

abbrev pub same : List ℕ → List ℕ → Bool
same [] [] = true
same [] (y ∷ ys) = false
same (x ∷ xs) [] = false
same (x ∷ xs) (y ∷ ys) = (x == y) && same xs ys

-- `usize::checked_add`.
abbrev pub checked_add : ℕ → ℕ → Option ℕ
checked_add a b = if ltb (a + b) (2 ^ 64) then some (a + b) else none
