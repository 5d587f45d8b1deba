-- ===== src/Wav/Validate/Data.antt =====
-- What an accepted WAV response contains.
use qwen3_tts_native.Base.{
  ℕ, zero, suc, ◌+◌, ◌-◌, ◌*◌, ◌/◌, ◌%◌, ◌≤◌, ◌<◌, ◌≡◌, refl, Bool, true, false, List, [], ◌∷◌,
  length, subst, ◌⊎◌, Option, none, some, Result, ok, err, Option-cases, Bool-cases, inl, inr, ltb,
  arith,
}
use qwen3_tts_native.Wav.Bytes.{slice, from_le, same}
use qwen3_tts_native.Wav.Validate.{
  WavError, WavInfo, Scan, validate_format, chunk, scan_chunk, scan_on, scan, scan_start, scanned,
  check_riff, after_riff, validate_wav, read_u32,
}
use qwen3_tts_native.Wav.Validate.Progress.{scan_chunk-Chunk}

-- A "data" chunk of `n` bytes whose payload starts at `o`.
pub record IsData (bytes : List ℕ) (o n : ℕ) : Type 0 where
  pub behind : 20 ≤ o
  pub named : same (slice bytes (o - 8) 4) (100 ∷ 97 ∷ 116 ∷ 97 ∷ []) ≡ true
  pub sized : from_le (slice bytes (o - 4) 4) ≡ n
  pub inside : o + n ≤ length bytes
  pub some_bytes : 0 < n
  pub whole : n % 2 ≡ 0

-- A "fmt " chunk that describes PCM16 mono at 24 kHz, with its payload at `o`.
pub record IsFormat (bytes : List ℕ) (o n : ℕ) : Type 0 where
  pub behind : 20 ≤ o
  pub named : same (slice bytes (o - 8) 4) (102 ∷ 109 ∷ 116 ∷ 32 ∷ []) ≡ true
  pub sized : from_le (slice bytes (o - 4) 4) ≡ n
  pub inside : o + n ≤ length bytes
  pub described : validate_format (slice bytes o n) ≡ ok tt

abbrev Found : List ℕ → Option (ℕ × ℕ) → Type 0
Found bytes none = Unit
Found bytes (some (o, n)) = IsData bytes o n

abbrev Described : List ℕ → Bool → Type 0
Described bytes false = Unit
Described bytes true = (o : ℕ) × (n : ℕ) × IsFormat bytes o n

-- What holds at the head of the loop.
record Seen (bytes : List ℕ) (s : Scan) : Type 0 where
  pub position : 12 ≤ s.cursor
  pub found : Found bytes s.data_chunk
  pub described : Described bytes s.format_seen

read_u32-from_le :
    (bytes : List ℕ) (i n : ℕ) → read_u32 bytes i ≡ ok n → from_le (slice bytes i 4) ≡ n
unfolding read_u32
read_u32-from_le bytes i n h = ground arith

-- The three ways in which a chunk is accepted.
chunk_cases :
    (bytes : List ℕ) (s s' : Scan) (id : List ℕ) (o n : ℕ)
    → chunk bytes s id o n ≡ ok s'
    → (s' ≡ s)
      ⊎ ((same id (102 ∷ 109 ∷ 116 ∷ 32 ∷ []) ≡ true)
          × (validate_format (slice bytes o n) ≡ ok tt)
          × (s' ≡ record s { format_seen = true }))
      ⊎ ((same id (100 ∷ 97 ∷ 116 ∷ 97 ∷ []) ≡ true)
          × (0 < n)
          × (n % 2 ≡ 0)
          × (s' ≡ record s { data_chunk = some (o, n) }))
unfolding chunk
chunk_cases bytes s s' id o n h = ground arith

chunk-Seen :
    (bytes : List ℕ) (s s' : Scan) (n : ℕ)
    → Seen bytes s
    → from_le (slice bytes (s.cursor + 4) 4) ≡ n
    → s.cursor + 8 + n ≤ length bytes
    → chunk bytes s (slice bytes s.cursor 4) (s.cursor + 8) n ≡ ok s'
    → Found bytes s'.data_chunk × Described bytes s'.format_seen
chunk-Seen bytes s s' n v r i h =
    let early : s.cursor + 8 - 8 ≡ s.cursor = omega arith in
    let late : s.cursor + 8 - 4 ≡ s.cursor + 4 = omega arith in
    elim (chunk_cases bytes s s' (slice bytes s.cursor 4) (s.cursor + 8) n h) [
      | inl e ↦ rw e (v.found, v.described)
      | inr (inl (named, good, e)) ↦ rw e (
        v.found,
        (
          s.cursor + 8,
          n,
          record {
            behind = omega (arith, v.position);
            named = rw early named;
            sized = rw late r;
            inside = i;
            described = good;
          },
        ),
      )
      | inr (inr (named, pos, even, e)) ↦ rw e (
        record {
          behind = omega (arith, v.position);
          named = rw early named;
          sized = rw late r;
          inside = i;
          some_bytes = pos;
          whole = even;
        },
        v.described,
      )
    ]

scan_chunk-Seen :
    (bytes : List ℕ) (s s' : Scan) → Seen bytes s → scan_chunk bytes s ≡ ok s' → Seen bytes s'
scan_chunk-Seen bytes s s' v h =
    let c = scan_chunk-Chunk bytes s s' h in
    let (found, described) =
      chunk-Seen bytes s c.seen c.size v (read_u32-from_le bytes (s.cursor + 4) c.size c.read)
        c.inside c.taken in
    record {
      position = omega (arith, v.position, c.forward);
      found = rw c.same_data found;
      described = rw c.same_format described;
    }

scan_on-Seen :
    (fuel : ℕ) (bytes : List ℕ) (s : Scan) (r : Result WavError Scan) {t : Scan}
    → Seen bytes s
    → scan_chunk bytes s ≡ r
    → ((s' : Scan) → Seen bytes s' → scan fuel bytes s' ≡ some (ok t) → Seen bytes t)
    → scan_on (scan fuel bytes) r ≡ some (ok t)
    → Seen bytes t
unfolding scan_on
scan_on-Seen fuel bytes s (err e) v eq again h = absurd (ground arith)
scan_on-Seen fuel bytes s (ok s') v eq again h = again s' (scan_chunk-Seen bytes s s' v eq) h

scan-Seen :
    (fuel : ℕ) (bytes : List ℕ) (t s : Scan)
    → Seen bytes s
    → scan fuel bytes s ≡ some (ok t)
    → Seen bytes t
unfolding scan
scan-Seen zero bytes t s v h = elim (Bool-cases (ltb s.cursor (length bytes))) [
  | inl e ↦ absurd (ground arith)
  | inr e ↦ subst (Seen bytes) (ground arith) v
]
scan-Seen (suc fuel) bytes t s v h = elim (Bool-cases (ltb s.cursor (length bytes))) [
  | inl e ↦
      scan_on-Seen fuel bytes s (scan_chunk bytes s) v refl (scan-Seen fuel bytes t) (ground arith)
  | inr e ↦ subst (Seen bytes) (ground arith) v
]

-- The file that an accepted response is.
pub record IsWav (bytes : List ℕ) (info : WavInfo) : Type 0 where
  pub riff : same (slice bytes 0 4) (82 ∷ 73 ∷ 70 ∷ 70 ∷ []) ≡ true
  pub wave : same (slice bytes 8 4) (87 ∷ 65 ∷ 86 ∷ 69 ∷ []) ≡ true
  pub sized : from_le (slice bytes 4 4) + 8 ≡ length bytes
  pub samples : info.sample_count * 2 ≡ info.data_bytes
  pub data_chunk : IsData bytes info.data_offset info.data_bytes
  pub format : (o : ℕ) × (n : ℕ) × IsFormat bytes o n

scanned-IsWav :
    (bytes : List ℕ) (i : ℕ) (info : WavInfo) (seen : Bool) (held : Option (ℕ × ℕ))
    → Found bytes held
    → Described bytes seen
    → scanned bytes (record { cursor = i; format_seen = seen; data_chunk = held }) ≡ ok info
    → (info.sample_count * 2 ≡ info.data_bytes)
      × IsData bytes info.data_offset info.data_bytes
      × ((o : ℕ) × (n : ℕ) × IsFormat bytes o n)
unfolding scanned
scanned-IsWav bytes i info false held f d h = absurd (ground arith)
scanned-IsWav bytes i info true none f d h = absurd (ground arith)
scanned-IsWav bytes i info true (some (o, n)) f d h =
    let e : info ≡ record { sample_count = n / 2; data_offset = o; data_bytes = n } =
      ground arith in
    rw e (omega (arith, f.whole), f, d)

check_riff-sized :
    (bytes : List ℕ)
    → check_riff bytes ≡ ok tt
    → (same (slice bytes 0 4) (82 ∷ 73 ∷ 70 ∷ 70 ∷ []) ≡ true)
      × (same (slice bytes 8 4) (87 ∷ 65 ∷ 86 ∷ 69 ∷ []) ≡ true)
      × (from_le (slice bytes 4 4) + 8 ≡ length bytes)
unfolding check_riff read_u32
check_riff-sized bytes h = ground arith

module _ (bytes : List ℕ) (info : WavInfo) where
  after_riff-IsWav :
      (r : Result WavError (Unit {0}))
      → check_riff bytes ≡ r
      → after_riff bytes r ≡ some (ok info)
      → IsWav bytes info
  unfolding after_riff
  after_riff-IsWav (err x) e h = absurd (ground arith)
  after_riff-IsWav (ok _) e h = elim (Option-cases (scan (length bytes) bytes scan_start)) [
    | inl f ↦ absurd (ground arith)
    | inr (err x, f) ↦ absurd (ground arith)
    | inr (ok t, f) ↦
        let v =
          scan-Seen (length bytes) bytes t scan_start
            (record { position = omega arith; found = tt; described = tt }) f in
        let (samples, data_chunk, format) =
          scanned-IsWav bytes t.cursor info t.format_seen t.data_chunk v.found v.described
            (ground arith) in
        let (riff, wave, sized) = check_riff-sized bytes e in
        record {
          riff = riff;
          wave = wave;
          sized = sized;
          samples = samples;
          data_chunk = data_chunk;
          format = format;
        }
  ]

  -- A response that `validate_wav` accepts is a RIFF/WAVE file of exactly the announced length. It
  -- has a valid "fmt " chunk, and the bytes that the result names are the payload of a "data"
  -- chunk: inside the response, of the chunk's size, not empty, and whole samples.
  pub validate_wav-IsWav : validate_wav bytes ≡ some (ok info) → IsWav bytes info
  unfolding validate_wav
  validate_wav-IsWav h = after_riff-IsWav (check_riff bytes) refl h
