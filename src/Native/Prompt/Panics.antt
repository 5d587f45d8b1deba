-- ===== src/Native/Prompt/Panics.antt =====
-- prompt.rs: the inputs on which `from_token_ids` panics.
use qwen3_tts_native.Base.{
  ℕ, ◌<◌, ◌≤◌, ◌≡◌, ◌↔◌, true, List, length, inl, inr, none, is_ok, ◌⊎◌, Result-cases, ltb, arith,
  Bool-cases,
}
use qwen3_tts_native.Native.Prompt.{
  TextMode, streaming, non_streaming, TalkerConfig, language_id, codec_prefix, slice_ids,
  finish_prompt, from_token_ids,
}
use qwen3_tts_native.Native.Prompt.Modes.{assistant}

slice_ids_iff :
    (ids : List ℕ) (first last : ℕ)
    → (slice_ids ids first last ≡ none) ↔ ((last < first) ⊎ (length ids < last))
unfolding slice_ids
slice_ids_iff ids first last = (λ h. ground arith, λ h. ground arith)

finish_prompt_iff :
    (c : TalkerConfig) (mode : TextMode) (instruction assistant codecs : List ℕ)
    → 8 ≤ length assistant
    → (finish_prompt c mode instruction assistant codecs ≡ none)
      ↔ ((mode ≡ streaming) × (length assistant ≡ 8))
unfolding finish_prompt slice_ids
finish_prompt_iff c streaming instruction assistant codecs l =
    (λ h. ground arith, λ h. ground arith)
finish_prompt_iff c non_streaming instruction assistant codecs l =
    (λ h. ground arith, λ h. ground arith)

-- `from_token_ids` panics on exactly the inputs that pass its length check with eight tokens, in
-- streaming mode and a known language: the slice of the text then begins past its end.
pub from_token_ids_iff :
    (c : TalkerConfig) (instruction assistant language : List ℕ) (mode : TextMode)
    → (from_token_ids c instruction assistant language mode ≡ none)
      ↔ ((mode ≡ streaming) × (length assistant ≡ 8) × (is_ok (language_id c language) ≡ true))
unfolding from_token_ids
from_token_ids_iff c instruction assistant language mode =
    elim (Bool-cases (ltb (length assistant) 8)) [
      | inl b ↦ ground (arith, b)
      | inr b ↦ (elim (Result-cases (language_id c language)) [
        | inr (e, q) ↦ rw (b, q, from_token_ids) (ground arith)
        | inl (id, q) ↦
            rw (b, q, from_token_ids)
              (ground (
                arith,
                finish_prompt_iff c mode instruction assistant (codec_prefix c id)
                    (ground (arith, b)),
              ))
      ])
    ]
