-- ===== src/Wav/Validate/Progress.antt =====
-- The loop of `validate_wav` ends.
use qwen3_tts_native.Base.{
  ℕ, zero, suc, ◌+◌, ◌≤◌, ◌≡◌, refl, true, List, length, is_some, Result, ok, err, Result-cases,
  inl, inr, arith,
}
use qwen3_tts_native.Wav.Bytes.{slice}
use qwen3_tts_native.Wav.Validate.{
  WavError, Scan, chunk, scan_chunk, scan_on, scan, scan_start, check_riff, after_riff,
  validate_wav, read_u32,
}

-- What a round that goes on has done: it read one chunk whose bytes are all there.
pub record Chunk (bytes : List ℕ) (s s' : Scan) : Type 0 where
  pub size : ℕ
  pub read : read_u32 bytes (s.cursor + 4) ≡ ok size
  pub seen : Scan
  pub taken : chunk bytes s (slice bytes s.cursor 4) (s.cursor + 8) size ≡ ok seen
  pub same_format : s'.format_seen ≡ seen.format_seen
  pub same_data : s'.data_chunk ≡ seen.data_chunk
  pub inside : s.cursor + 8 + size ≤ length bytes
  pub forward : s.cursor + 8 + size ≤ s'.cursor
  pub within : s'.cursor ≤ length bytes

pub scan_chunk-Chunk :
    (bytes : List ℕ) (s s' : Scan) → scan_chunk bytes s ≡ ok s' → Chunk bytes s s'
unfolding scan_chunk
scan_chunk-Chunk bytes s s' h = elim (Result-cases (read_u32 bytes (s.cursor + 4))) [
  | inl (size, e) ↦
      elim (Result-cases (chunk bytes s (slice bytes s.cursor 4) (s.cursor + 8) size)) [
        | inl (seen, f) ↦ record {
          size = size;
          read = e;
          seen = seen;
          taken = f;
          same_format = ground arith;
          same_data = ground arith;
          inside = ground arith;
          forward = ground arith;
          within = ground arith;
        }
        | inr (x, f) ↦ absurd (ground arith)
      ]
  | inr (x, e) ↦ absurd (ground arith)
]

scan_on-is_some :
    (fuel : ℕ) (bytes : List ℕ) (s : Scan) (r : Result WavError Scan)
    → scan_chunk bytes s ≡ r
    → length bytes ≤ fuel + suc s.cursor
    → ((s' : Scan) → length bytes ≤ fuel + s'.cursor → is_some (scan fuel bytes s') ≡ true)
    → is_some (scan_on (scan fuel bytes) r) ≡ true
unfolding scan_on
scan_on-is_some fuel bytes s (err e) eq h again = refl
scan_on-is_some fuel bytes s (ok s') eq h again =
    let c = scan_chunk-Chunk bytes s s' eq in again s' (omega (arith, c.forward))

-- Fuel for the bytes that are left is enough.
pub scan_total :
    (fuel : ℕ) (bytes : List ℕ) (s : Scan)
    → length bytes ≤ fuel + s.cursor
    → is_some (scan fuel bytes s) ≡ true
unfolding scan
scan_total zero bytes s h = ground arith
scan_total (suc fuel) bytes s h = ground (
  arith,
  scan_on-is_some fuel bytes s (scan_chunk bytes s) refl (omega arith) (scan_total fuel bytes),
)

-- `validate_wav` answers for every input: its loop ends before the fuel is used up.
pub validate_wav_total : (bytes : List ℕ) → is_some (validate_wav bytes) ≡ true
unfolding validate_wav after_riff
validate_wav_total bytes = elim (Result-cases (check_riff bytes)) [
  | inl (a, e) ↦ ground (arith, scan_total (length bytes) bytes scan_start (omega arith))
  | inr (x, e) ↦ rw e refl
]
