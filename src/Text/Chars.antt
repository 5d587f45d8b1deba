-- ===== src/Text/Chars.antt =====
-- Characters: `std::str::from_utf8`, `str::trim` and `str::to_ascii_lowercase`.
use qwen3_tts_native.Base.{
  ◌≤◌, false, ℕ, ◌+◌, ◌-◌, ◌*◌, ◌<◌, ◌≡◌, refl, Bool, ◌&&◌, ◌||◌, List, [], ◌∷◌, map, reverse,
  Option, none, some, All, leb, ltb, ◌==◌, if◌then◌else◌, arith,
}
use mathlib.Core.List.{reverse_aux, reverse-reverse}
use Prim.Native.Char.{code}
use Prim.Native.String.{String}

-- The codes of an ASCII text.
abbrev pub codes : String → List ℕ
codes String.[] = []
codes (String.◌∷◌ c s) = code c ∷ codes s

-- The state of the decoder: the continuation bytes that are still to come, the bounds of the next one,
-- and the bits of the character so far.
pub record Pending : Type 0 where
  pub wanted : ℕ
  pub lowest : ℕ
  pub highest : ℕ
  pub bits : ℕ

abbrev between : ℕ → ℕ → ℕ → Bool
between low high b = leb low b && leb b high

abbrev start_of : ℕ → ℕ → ℕ → ℕ → Option Pending
start_of wanted lowest highest bits =
    some record { wanted = wanted; lowest = lowest; highest = highest; bits = bits }

-- A first byte of more than one: which second bytes may follow excludes overlong forms and surrogates.
first_byte : ℕ → Option Pending
first_byte b =
    if between 194 223 b
    then start_of 1 128 191 (b - 192)
    else if b == 224
    then start_of 2 160 191 0
    else if b == 237
    then start_of 2 128 159 13
    else if between 225 239 b
    then start_of 2 128 191 (b - 224)
    else if b == 240
    then start_of 3 144 191 0
    else if between 241 243 b
    then start_of 3 128 191 (b - 240)
    else if b == 244
    then start_of 3 128 143 4
    else none

abbrev pub no_pending : Pending
no_pending = record { wanted = 0; lowest = 0; highest = 0; bits = 0 }

-- One byte: what is pending after it, and the character that it ends.
decode_byte : Pending → ℕ → Option (Pending × Option ℕ)
unfolding first_byte
decode_byte p b =
    if p.wanted == 0
    then if ltb b 128
      then some (no_pending, some b)
      else elim (first_byte b) [ none ↦ none | some q ↦ some (q, none) ]
    else if between p.lowest p.highest b
    then (let bits = p.bits * 64 + (b - 128) in
        if p.wanted == 1
        then some (no_pending, some bits)
        else some
            (record { wanted = p.wanted - 1; lowest = 128; highest = 191; bits = bits }, none))
    else none

unfoldable pub decode : Pending → List ℕ → Option (List ℕ)
unfolding decode_byte
decode p [] = if p.wanted == 0 then some [] else none
decode p (b ∷ bs) = elim (decode_byte p b) [
  | none ↦ none
  | some (q, none) ↦ decode q bs
  | some (q, some c) ↦ elim (decode q bs) [ none ↦ none | some cs ↦ some (c ∷ cs) ]
]

unfoldable pub from_utf8 : List ℕ → Option (List ℕ)
from_utf8 bytes = decode no_pending bytes

abbrev pub IsAscii : ℕ → Type 0
IsAscii b = b < 128

decode_ascii : (b : ℕ) → b < 128 → decode_byte no_pending b ≡ some (no_pending, some b)
unfolding decode_byte
decode_ascii b h = ground arith

decode-IsAscii : (bs : List ℕ) → All IsAscii bs → decode no_pending bs ≡ some bs
unfolding decode
decode-IsAscii [] h = refl
decode-IsAscii (b ∷ bs) (h, hs) = rw (decode_ascii b h, decode) (rw (decode-IsAscii bs hs) refl)

-- ASCII stands for itself.
pub from_utf8-IsAscii : (bytes : List ℕ) → All IsAscii bytes → from_utf8 bytes ≡ some bytes
unfolding from_utf8
from_utf8-IsAscii bytes h = decode-IsAscii bytes h

-- Unicode's `White_Space`.
unfoldable pub is_whitespace : ℕ → Bool
is_whitespace c =
    between 9 13 c
    || c == 32
    || c == 133
    || c == 160
    || c == 5760
    || between 8192 8202 c
    || c == 8232
    || c == 8233
    || c == 8239
    || c == 8287
    || c == 12288

unfoldable pub trim_start : List ℕ → List ℕ
trim_start [] = []
trim_start (c ∷ cs) = let rest = trim_start cs in if is_whitespace c then rest else c ∷ cs

unfoldable pub trim : List ℕ → List ℕ
trim text = reverse (trim_start (reverse (trim_start text)))

-- A space before the text goes.
pub trim_space : (text : List ℕ) → trim (32 ∷ text) ≡ trim text
unfolding trim trim_start is_whitespace
trim_space text = refl

abbrev pub to_ascii_lowercase : List ℕ → List ℕ
to_ascii_lowercase text = map (λ c. if between 65 90 c then c + 32 else c) text

-- No separator, control character or whitespace.
abbrev pub IsGraphic : ℕ → Type 0
IsGraphic c = (33 ≤ c) × (c ≤ 126)

graphic_lem : (c : ℕ) → IsGraphic c → is_whitespace c ≡ false
unfolding is_whitespace
graphic_lem c h = ground arith

trim_start-IsGraphic : (cs : List ℕ) → All IsGraphic cs → trim_start cs ≡ cs
unfolding trim_start
trim_start-IsGraphic [] h = refl
trim_start-IsGraphic (c ∷ cs) (h, hs) = rw (graphic_lem c h, trim_start) refl

reverse_aux-All :
    (P : ℕ → Type 0) (xs ys : List ℕ) → All P xs → All P ys → All P (reverse_aux xs ys)
reverse_aux-All P [] ys h k = k
reverse_aux-All P (x ∷ xs) ys (h, hs) k = reverse_aux-All P xs (x ∷ ys) hs (h, k)

pub trim-IsGraphic : (cs : List ℕ) → All IsGraphic cs → trim cs ≡ cs
unfolding trim
trim-IsGraphic cs h =
    rw
      (
        trim_start-IsGraphic cs h,
        trim_start-IsGraphic (reverse cs) (reverse_aux-All IsGraphic cs [] h tt),
      )
      (reverse-reverse cs)
