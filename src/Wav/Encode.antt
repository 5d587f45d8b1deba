-- ===== src/Wav/Encode.antt =====
-- native/qwen3-tts-server/src/wav.rs: the canonical 44-byte header before the PCM bytes.
use qwen3_tts_native.Base.{
  ℕ, ◌+◌, ◌*◌, ◌%◌, ◌^◌, List, [], ◌∷◌, ◌++◌, length, Result, ok, err, ltb, ◌==◌, if◌then◌else◌,
}
use qwen3_tts_native.Runtime.Types.{sample_rate_hz}
use qwen3_tts_native.Wav.Bytes.{le16, le32}

pub data EncodeError : Type 0 where
  incomplete_samples payload_too_large riff_length_overflowed : EncodeError

-- The header for `data_bytes` bytes of PCM, with "RIFF", "WAVEfmt " and "data" in ASCII.
unfoldable pub wav_header : ℕ → List ℕ
wav_header data_bytes =
    (82 ∷ 73 ∷ 70 ∷ 70 ∷ [])
    ++ le32 (data_bytes + 36)
    ++ (87 ∷ 65 ∷ 86 ∷ 69 ∷ 102 ∷ 109 ∷ 116 ∷ 32 ∷ [])
    ++ le32 16
    ++ le16 1
    ++ le16 1
    ++ le32 sample_rate_hz
    ++ le32 (sample_rate_hz * 2)
    ++ le16 2
    ++ le16 16
    ++ (100 ∷ 97 ∷ 116 ∷ 97 ∷ [])
    ++ le32 data_bytes

unfoldable pub encode_pcm16_mono : List ℕ → Result EncodeError (List ℕ)
unfolding wav_header
encode_pcm16_mono pcm_s16le =
    if length pcm_s16le % 2 == 0
    then (if ltb (length pcm_s16le) (2 ^ 32)
        then (if ltb (length pcm_s16le + 36) (2 ^ 32)
            then ok (wav_header (length pcm_s16le) ++ pcm_s16le)
            else err riff_length_overflowed)
        else err payload_too_large)
    else err incomplete_samples
