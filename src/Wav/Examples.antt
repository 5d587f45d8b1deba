-- ===== src/Wav/Examples.antt =====
-- A file with two samples.
use qwen3_tts_native.Base.{ℕ, ◌≡◌, refl, true, List, [], ◌∷◌, ◌++◌, drop, some, is_some, ok, arith}
use qwen3_tts_native.Wav.Encode.{wav_header, encode_pcm16_mono}
use qwen3_tts_native.Wav.Validate.{WavInfo, validate_wav}
use qwen3_tts_native.Wav.Validate.Progress.{validate_wav_total}
use qwen3_tts_native.Wav.Validate.Data.{IsWav, validate_wav-IsWav}
use qwen3_tts_native.Wav.RoundTrip.{validate_wav-encode_pcm16_mono}

abbrev pcm : List ℕ
pcm = 1 ∷ 0 ∷ 255 ∷ 255 ∷ []

abbrev wav : List ℕ
wav = wav_header 4 ++ pcm

abbrev info : WavInfo
info = record { sample_count = 2; data_offset = 44; data_bytes = 4 }

encoded : encode_pcm16_mono pcm ≡ ok wav
unfolding encode_pcm16_mono
encoded = refl

validate_wav-encode_pcm16_mono_example : (validate_wav wav ≡ some (ok info)) × (drop 44 wav ≡ pcm)
validate_wav-encode_pcm16_mono_example =
    validate_wav-encode_pcm16_mono pcm wav encoded (omega arith)

validate_wav-IsWav_example : IsWav wav info
validate_wav-IsWav_example = validate_wav-IsWav wav info (validate_wav-encode_pcm16_mono_example.0)

validate_wav_total_example : is_some (validate_wav wav) ≡ true
validate_wav_total_example = validate_wav_total wav
