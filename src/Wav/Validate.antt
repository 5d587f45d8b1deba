-- ===== src/Wav/Validate.antt =====
-- native/qwen3-tts-http-bench/src/wav.rs: the check of a WAV response, chunk by chunk.
pub mod Progress
pub mod Data
use qwen3_tts_native.Base.{
  ℕ, zero, suc, ◌+◌, ◌-◌, ◌*◌, ◌/◌, ◌%◌, Bool, true, false, not, ◌&&◌, ◌||◌, List, [], ◌∷◌, length,
  Option, none, some, is_some, Result, ok, err, ◌>>=◌, ◌>>◌, ensure, ok_or, ltb, leb, ◌==◌, ◌!=◌,
  if◌then◌else◌,
}
use qwen3_tts_native.Wav.Bytes.{from_le, slice, get_range, same, checked_add}

-- `BenchError::Wav` by its message.
pub data WavError : Type 0 where
  not_riff riff_size_mismatch truncated_header chunk_overflow chunk_past_end : WavError
  duplicate_fmt duplicate_data bad_data_size padding_overflow missing_padding : WavError
  unconsumed no_fmt no_data short_fmt wrong_format truncated_u16 truncated_u32 : WavError

pub record WavInfo : Type 0 where
  pub sample_count : ℕ
  pub data_offset : ℕ
  pub data_bytes : ℕ

unfoldable pub read_u16 : List ℕ → ℕ → Result WavError ℕ
read_u16 bytes offset = do
  value ← ok_or (get_range bytes offset 2) truncated_u16
  ok (from_le value)

unfoldable pub read_u32 : List ℕ → ℕ → Result WavError ℕ
read_u32 bytes offset = do
  value ← ok_or (get_range bytes offset 4) truncated_u32
  ok (from_le value)

unfoldable pub validate_format : List ℕ → Result WavError (Unit {0})
unfolding read_u16 read_u32
validate_format bytes = do
  ensure (not (ltb (length bytes) 16)) short_fmt
  audio_format ← read_u16 bytes 0
  channels ← read_u16 bytes 2
  sample_rate ← read_u32 bytes 4
  byte_rate ← read_u32 bytes 8
  block_align ← read_u16 bytes 12
  bits_per_sample ← read_u16 bytes 14
  ensure
      (not (
        (audio_format != 1)
        || (channels != 1)
        || (sample_rate != 24000)
        || (byte_rate != sample_rate * 2)
        || (block_align != 2)
        || (bits_per_sample != 16)))
      wrong_format

-- The variables of the loop.
pub record Scan : Type 0 where
  pub cursor : ℕ
  pub format_seen : Bool
  pub data_chunk : Option (ℕ × ℕ)

-- `match chunk_id`, with "fmt " and "data" in ASCII.
unfoldable pub chunk : List ℕ → Scan → List ℕ → ℕ → ℕ → Result WavError Scan
unfolding validate_format
chunk bytes s chunk_id payload_start chunk_size =
    if same chunk_id (102 ∷ 109 ∷ 116 ∷ 32 ∷ [])
    then (do
      ensure (not s.format_seen) duplicate_fmt
      validate_format (slice bytes payload_start chunk_size)
      ok (record s { format_seen = true }))
    else if same chunk_id (100 ∷ 97 ∷ 116 ∷ 97 ∷ [])
    then (do
      ensure (not (is_some s.data_chunk)) duplicate_data
      ensure (not ((chunk_size == 0) || (chunk_size % 2 != 0))) bad_data_size
      ok (record s { data_chunk = some (payload_start, chunk_size) }))
    else ok s

-- The body of the loop. The lowest bit of `chunk_size` is its remainder by two.
unfoldable pub scan_chunk : List ℕ → Scan → Result WavError Scan
unfolding read_u32 chunk
scan_chunk bytes s = do
  ensure (not (ltb (length bytes - s.cursor) 8)) truncated_header
  chunk_size ← read_u32 bytes (s.cursor + 4)
  payload_end ← ok_or (checked_add (s.cursor + 8) chunk_size) chunk_overflow
  ensure (not (ltb (length bytes) payload_end)) chunk_past_end
  s' ← chunk bytes s (slice bytes s.cursor 4) (s.cursor + 8) chunk_size
  cursor ← ok_or (checked_add payload_end (chunk_size % 2)) padding_overflow
  ensure (not (ltb (length bytes) cursor)) missing_padding
  ok (record s' { cursor = cursor })

-- What follows a round of the loop.
unfoldable pub scan_on :
    (Scan → Option (Result WavError Scan)) → Result WavError Scan → Option (Result WavError Scan)
scan_on again (ok s) = again s
scan_on again (err e) = some (err e)

-- `while cursor < bytes.len()` on fuel; `none` when it is used up.
unfoldable pub scan : ℕ → List ℕ → Scan → Option (Result WavError Scan)
unfolding scan_chunk scan_on
scan zero bytes s = if ltb s.cursor (length bytes) then none else some (ok s)
scan (suc fuel) bytes s =
    if ltb s.cursor (length bytes)
    then scan_on (scan fuel bytes) (scan_chunk bytes s)
    else some (ok s)

unfoldable pub scanned : List ℕ → Scan → Result WavError WavInfo
scanned bytes s = do
  ensure (s.cursor == length bytes) unconsumed
  ensure s.format_seen no_fmt
  (data_offset, data_bytes) ← ok_or s.data_chunk no_data
  ok (record { sample_count = data_bytes / 2; data_offset = data_offset; data_bytes = data_bytes })

abbrev pub scan_start : Scan
scan_start = record { cursor = 12; format_seen = false; data_chunk = none }

-- The tests before the loop.
unfoldable pub check_riff : List ℕ → Result WavError (Unit {0})
unfolding read_u32
check_riff bytes = do
  ensure
      (not (
        ltb (length bytes) 12
        || not (same (slice bytes 0 4) (82 ∷ 73 ∷ 70 ∷ 70 ∷ []))
        || not (same (slice bytes 8 4) (87 ∷ 65 ∷ 86 ∷ 69 ∷ []))))
      not_riff
  riff_size ← read_u32 bytes 4
  ensure (riff_size + 8 == length bytes) riff_size_mismatch

unfoldable pub after_riff : List ℕ → Result WavError (Unit {0}) → Option (Result WavError WavInfo)
unfolding scan scanned
after_riff bytes (err e) = some (err e)
after_riff bytes (ok _) = elim (scan (length bytes) bytes scan_start) [
  | none ↦ none
  | some r ↦ some (r >>= scanned bytes)
]

-- Each chunk takes at least eight bytes, so the number of bytes is fuel enough.
unfoldable pub validate_wav : List ℕ → Option (Result WavError WavInfo)
unfolding check_riff after_riff
validate_wav bytes = after_riff bytes (check_riff bytes)
