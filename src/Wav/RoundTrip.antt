-- ===== src/Wav/RoundTrip.antt =====
-- The benchmark client accepts what the server encodes.
use qwen3_tts_native.Base.{
  ℕ, zero, suc, ◌+◌, ◌/◌, ◌%◌, ◌^◌, ◌<◌, ◌≡◌, refl, sym, ◌∙◌, true, List, ◌++◌, length, drop, none,
  some, ok, arith,
}
use qwen3_tts_native.Wav.Encode.{wav_header, encode_pcm16_mono}
use qwen3_tts_native.Wav.Validate.{
  WavInfo, Scan, validate_format, chunk, scan_chunk, scan_on, scan, scan_start, scanned, check_riff,
  after_riff, validate_wav, read_u32, read_u16,
}

scan_last :
    (fuel : ℕ) (bytes : List ℕ) (s : Scan)
    → s.cursor ≡ length bytes
    → scan fuel bytes s ≡ some (ok s)
unfolding scan
scan_last zero bytes s h = ground arith
scan_last (suc fuel) bytes s h = ground arith

scan_next :
    (fuel : ℕ) (bytes : List ℕ) (s s' : Scan)
    → s.cursor < length bytes
    → scan_chunk bytes s ≡ ok s'
    → scan (suc fuel) bytes s ≡ scan fuel bytes s'
unfolding scan scan_on
scan_next fuel bytes s s' h e = ground arith

after_riff_found :
    (fuel : ℕ) (bytes : List ℕ) (t : Scan) (info : WavInfo)
    → length bytes ≡ fuel
    → scan fuel bytes scan_start ≡ some (ok t)
    → scanned bytes t ≡ ok info
    → after_riff bytes (ok tt) ≡ some (ok info)
unfolding after_riff
after_riff_found fuel bytes t info l e f =
    let full : scan (length bytes) bytes scan_start ≡ some (ok t) = rw l e in ground (arith, full)

encoded :
    (pcm wav : List ℕ)
    → encode_pcm16_mono pcm ≡ ok wav
    → (length pcm + 36 < 2 ^ 32) × (length pcm % 2 ≡ 0) × (wav ≡ wav_header (length pcm) ++ pcm)
unfolding encode_pcm16_mono
encoded pcm wav h = (ground arith, ground arith, ground arith)

drop-wav_header : (pcm : List ℕ) → drop 44 (wav_header (length pcm) ++ pcm) ≡ pcm
unfolding wav_header
drop-wav_header pcm = refl

module _ (pcm : List ℕ) (small : length pcm + 36 < 2 ^ 32) (even : length pcm % 2 ≡ 0)
    (some_bytes : 0 < length pcm) where
  abbrev file : List ℕ
  file = wav_header (length pcm) ++ pcm

  file-check_riff : check_riff file ≡ ok tt
  unfolding check_riff wav_header read_u32
  file-check_riff = ground (arith)

  abbrev described : Scan
  described = record { cursor = 36; format_seen = true; data_chunk = none }

  file-scan_format : scan_chunk file scan_start ≡ ok described
  unfolding scan_chunk wav_header read_u32 chunk validate_format read_u16
  file-scan_format = ground arith

  abbrev finished : Scan
  finished = record {
    cursor = 44 + length pcm;
    format_seen = true;
    data_chunk = some (44, length pcm);
  }

  size_read : read_u32 file 40 ≡ ok (length pcm)
  unfolding wav_header read_u32
  size_read = ground arith

  file-scan_data : scan_chunk file described ≡ ok finished
  unfolding scan_chunk wav_header chunk
  file-scan_data = ground (arith, size_read)

  length-file : length file ≡ 44 + length pcm
  unfolding wav_header
  length-file = omega arith

  file-scan : (fuel : ℕ) → scan (suc (suc fuel)) file scan_start ≡ some (ok finished)
  file-scan fuel =
      scan_next (suc fuel) file scan_start described (omega (arith, length-file)) file-scan_format
      ∙ scan_next fuel file described finished (omega (arith, length-file)) file-scan_data
      ∙ scan_last fuel file finished (sym length-file)

  abbrev described_pcm : WavInfo
  described_pcm = record {
    sample_count = length pcm / 2;
    data_offset = 44;
    data_bytes = length pcm;
  }

  file-scanned : scanned file finished ≡ ok described_pcm
  unfolding scanned
  file-scanned = ground (arith, length-file)

  file-validate_wav : validate_wav file ≡ some (ok described_pcm)
  unfolding validate_wav
  file-validate_wav = rw file-check_riff (
      after_riff_found (suc (suc (42 + length pcm))) file finished described_pcm
        (omega (arith, length-file)) (file-scan (42 + length pcm)) file-scanned)

-- The client accepts every file that the server encodes from a PCM payload that is not empty, and
-- finds exactly the payload: it starts behind the header and has its length.
pub validate_wav-encode_pcm16_mono :
    (pcm wav : List ℕ)
    → encode_pcm16_mono pcm ≡ ok wav
    → 0 < length pcm
    → (validate_wav wav
        ≡ some (
            ok (record {
              sample_count = length pcm / 2;
              data_offset = 44;
              data_bytes = length pcm;
            })))
      × (drop 44 wav ≡ pcm)
validate_wav-encode_pcm16_mono pcm wav h pos =
    let (small, even, e) = encoded pcm wav h in
    rw e (file-validate_wav pcm small even pos, drop-wav_header pcm)
