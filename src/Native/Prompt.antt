-- ===== src/Native/Prompt.antt =====
-- native/qwen3-tts-native/src/prompt.rs, with `ModelConfig::language_id` of config.rs: the steps that
-- prefill the talker and the text that trails them. The tokenizer gives the token ids and is not
-- part of it. A name is its bytes.
use qwen3_tts_native.Base.{
  ℕ, suc, ◌+◌, ◌-◌, Bool, true, false, ◌&&◌, List, [], ◌∷◌, ◌++◌, map, length, take, drop, get_or,
  Option, none, some, Result, ok, err, leb, ltb, ◌==◌, if◌then◌else◌,
}
use qwen3_tts_native.Wav.Bytes.{same}
pub mod Panics
pub mod Modes

pub data TextSource : Type 0 where
  token : ℕ → TextSource
  tts_bos tts_eos tts_pad : TextSource

pub record EmbeddingStep : Type 0 where
  pub text : Option TextSource
  pub codec : Option ℕ

pub record VoiceDesignPrompt : Type 0 where
  pub instruction_ids : List ℕ
  pub assistant_ids : List ℕ
  pub prefill : List EmbeddingStep
  pub trailing_text : List TextSource

pub data TextMode : Type 0 where
  streaming non_streaming : TextMode

pub record TalkerConfig : Type 0 where
  pub codec_bos_id : ℕ
  pub codec_eos_token_id : ℕ
  pub codec_language_id : List (List ℕ × ℕ)
  pub codec_nothink_id : ℕ
  pub codec_pad_id : ℕ
  pub codec_think_bos_id : ℕ
  pub codec_think_eos_id : ℕ
  pub codec_think_id : ℕ

pub data PromptError : Type 0 where
  assistant_too_short : PromptError
  unsupported_language : List ℕ → PromptError
  residual_count : PromptError

-- `u8::to_ascii_lowercase`.
abbrev pub ascii_lower : ℕ → ℕ
ascii_lower b = if leb 65 b && leb b 90 then b + 32 else b

abbrev auto_name : List ℕ
auto_name = 97 ∷ 117 ∷ 116 ∷ 111 ∷ []

abbrev pub lookup : List (List ℕ × ℕ) → List ℕ → Option ℕ
lookup [] name = none
lookup ((key, id) ∷ rest) name = if same key name then some id else lookup rest name

-- `language_id`: none for the automatic choice.
unfoldable pub language_id : TalkerConfig → List ℕ → Result PromptError (Option ℕ)
language_id c language =
    let lower = map ascii_lower language in
    if same lower auto_name then ok none else elim (lookup c.codec_language_id lower) [
      | some id ↦ ok (some id)
      | none ↦ err (unsupported_language language)
    ]

unfoldable pub codec_prefix : TalkerConfig → Option ℕ → List ℕ
codec_prefix c (some id) =
    c.codec_think_id ∷ c.codec_think_bos_id ∷ id ∷ c.codec_think_eos_id ∷ c.codec_pad_id
    ∷ c.codec_bos_id ∷ []
codec_prefix c none =
    c.codec_nothink_id ∷ c.codec_think_bos_id ∷ c.codec_think_eos_id ∷ c.codec_pad_id
    ∷ c.codec_bos_id ∷ []

abbrev pub text_step : ℕ → EmbeddingStep
text_step t = record { text = some (token t); codec = none }

abbrev pub paired_step : TextSource → ℕ → EmbeddingStep
paired_step t c = record { text = some t; codec = some c }

-- The loop over the prefix but its last, `count` many, from `index` on.
abbrev pub prefix_steps : ℕ → ℕ → List ℕ → List EmbeddingStep
prefix_steps count index [] = []
prefix_steps count index (c ∷ cs) =
    paired_step (if index + 1 == count then tts_bos else tts_pad) c
    ∷ prefix_steps count (suc index) cs

-- `ids[first..last]`, which panics (`none`) unless it lies in the list.
unfoldable pub slice_ids : List ℕ → ℕ → ℕ → Option (List ℕ)
slice_ids ids first last =
    if leb first last && leb last (length ids)
    then some (take (last - first) (drop first ids))
    else none

-- What both modes begin with.
unfoldable pub shared_steps : List ℕ → List ℕ → List ℕ → List EmbeddingStep
shared_steps instruction assistant codecs =
    map text_step instruction
    ++ (map text_step (take 3 assistant)
        ++ prefix_steps (length codecs - 1) 0 (take (length codecs - 1) codecs))

unfoldable pub finish_prompt :
    TalkerConfig → TextMode → List ℕ → List ℕ → List ℕ → Option VoiceDesignPrompt
unfolding slice_ids shared_steps
finish_prompt c streaming instruction assistant codecs =
    elim (slice_ids assistant 4 (length assistant - 5)) [
      | none ↦ none
      | some text ↦ some record {
        instruction_ids = instruction;
        assistant_ids = assistant;
        prefill =
            shared_steps instruction assistant codecs
            ++ paired_step (token (get_or assistant 3 0)) (get_or codecs (length codecs - 1) 0)
              ∷ [];
        trailing_text = map token text ++ tts_eos ∷ [];
      }
    ]
finish_prompt c non_streaming instruction assistant codecs =
    elim (slice_ids assistant 3 (length assistant - 5)) [
      | none ↦ none
      | some text ↦ some record {
        instruction_ids = instruction;
        assistant_ids = assistant;
        prefill =
            shared_steps instruction assistant codecs
            ++ (map (λ t. paired_step (token t) c.codec_pad_id) text
                ++ paired_step tts_eos c.codec_pad_id ∷ paired_step tts_pad c.codec_bos_id ∷ []);
        trailing_text = tts_pad ∷ [];
      }
    ]

-- `VoiceDesignPrompt::from_token_ids`; `none` is a panic.
unfoldable pub from_token_ids :
    TalkerConfig
    → List ℕ
    → List ℕ
    → List ℕ
    → TextMode
    → Option (Result PromptError VoiceDesignPrompt)
unfolding language_id codec_prefix
from_token_ids c instruction assistant language mode =
    if ltb (length assistant) 8
    then some (err assistant_too_short)
    else elim (language_id c language) [
      | err e ↦ some (err e)
      | ok id ↦ (elim (finish_prompt c mode instruction assistant (codec_prefix c id)) [
        | none ↦ none
        | some prompt ↦ some (ok prompt)
      ])
    ]

-- `CodecFrame::from_predictor`; the frame is an array of 16.
unfoldable pub from_predictor : ℕ → List ℕ → Result PromptError (List ℕ)
from_predictor codebook_zero residual =
    if length residual == 15 then ok (codebook_zero ∷ residual) else err residual_count

-- `CodecFrame::is_eos`.
unfoldable pub is_eos : TalkerConfig → List ℕ → Bool
is_eos c frame = get_or frame 0 0 == c.codec_eos_token_id
