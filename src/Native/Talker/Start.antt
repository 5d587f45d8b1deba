-- ===== src/Native/Talker/Start.antt =====
-- native_talker.rs: `start_prompt`, from a prompt and the settings of a request to a session, and
-- `generate_prompt`, which runs the session to its end.
use qwen3_tts_native.Base.{
  ℕ, suc, ◌-◌, ◌%◌, ◌^◌, Bool, true, false, not, ◌&&◌, List, [], ◌∷◌, length, Option, none, some,
  Result, ok, err, ensure, leb, ltb, ◌==◌, ◌!=◌, if◌then◌else◌, ◌>>=◌, ◌>>◌,
}
use qwen3_tts_native.Native.Prompt.{TextSource, EmbeddingStep, VoiceDesignPrompt}
use qwen3_tts_native.Native.Pool.{
  CapacityError, session_capacity, PooledSession, SessionPool, AcquireError, Answers,
  acquire_session, drop_session,
}
use qwen3_tts_native.Native.Talker.{
  TalkerError, TalkerLibrary, TalkerModel, NativeSamplingConfig, SessionEndReason, text_source_id,
}
use qwen3_tts_native.Native.Talker.Session.{Talker}
use qwen3_tts_native.Native.Talker.Generate.{
  Generated, generate_loop, GenerationOutput, generation_output,
}

pub record SamplingConfig : Type 0 where
  pub do_sample : Bool
  pub top_k : ℕ
  pub top_p : ℕ
  pub temperature : ℕ
  pub repetition_penalty : ℕ

pub record GenerationSettings : Type 0 where
  pub max_frames : ℕ
  pub max_sequence_length : ℕ
  pub random_seed : ℕ
  pub talker_sampling : SamplingConfig
  pub predictor_sampling : SamplingConfig

pub data StartError : Type 0 where
  no_frames sequence_too_long prompt_too_long codec_token_too_large : StartError
  top_k_too_large bad_top_p bad_temperature bad_repetition_penalty : StartError
  bad_text_token : TalkerError → StartError
  bad_capacity : CapacityError → StartError
  not_acquired : AcquireError → StartError
  prefill_failed : ℕ → StartError

-- `x > 0.0` on binary32 patterns: greater than both zeros, up to infinity, and no NaN.
abbrev pub gt_zero : ℕ → Bool
gt_zero b = ltb 0 b && leb b 0x7f80_0000

-- `SamplingConfig::native`; `x > 0.0 && x <= 1.0` for `top_p`.
unfoldable pub native : SamplingConfig → Result StartError NativeSamplingConfig
native s =
    if ltb (2 ^ 31 - 1) s.top_k
    then err top_k_too_large
    else if not (gt_zero s.top_p && leb s.top_p 0x3f80_0000)
    then err bad_top_p
    else if not (gt_zero s.temperature)
    then err bad_temperature
    else if not (gt_zero s.repetition_penalty)
    then err bad_repetition_penalty
    else ok record {
      do_sample = if s.do_sample then 1 else 0;
      top_k = s.top_k;
      top_p = s.top_p;
      temperature = s.temperature;
      repetition_penalty = s.repetition_penalty;
    }

-- `-1` as a pattern of `i32`.
abbrev pub no_token : ℕ
no_token = 2 ^ 32 - 1

unfoldable pub text_id : TalkerModel → Option TextSource → Result StartError ℕ
text_id m none = ok no_token
text_id m (some source) = elim (text_source_id m source) [
  | ok id ↦ ok id
  | err e ↦ err (bad_text_token e)
]

unfoldable pub codec_id : Option ℕ → Result StartError ℕ
codec_id none = ok no_token
codec_id (some id) = if ltb id (2 ^ 31) then ok id else err codec_token_too_large

-- `native_prompt_steps`.
unfoldable pub native_prompt_steps :
    TalkerModel → List EmbeddingStep → Result StartError (List (ℕ × ℕ))
native_prompt_steps m [] = ok []
native_prompt_steps m (step ∷ steps) = text_id m step.text >>= λ text.
    codec_id step.codec >>= λ code. native_prompt_steps m steps >>= λ rest. ok ((text, code) ∷ rest)

-- What a prefill gives: a status, the first semantic token, the native session after it.
pub record PrefillReply (Handle : Type 0) : Type 0 where
  pub status : ℕ
  pub first_semantic_token : ℕ
  pub handle : Handle

-- The rest of the library: the state behind a handle that was created or reset with a seed, and the
-- prefill of pairs of text and codec tokens.
pub record StartLibrary (lib : TalkerLibrary) : Type 0 where
  pub state_of : ℕ → ℕ → lib.Handle
  pub prefill : lib.Handle → List (ℕ × ℕ) → NativeSamplingConfig → PrefillReply lib.Handle

-- What is known of a request before a native session is taken.
pub record Plan : Type 0 where
  pub ids : List (ℕ × ℕ)
  pub capacity : ℕ
  pub talker : NativeSamplingConfig
  pub predictor : NativeSamplingConfig

abbrev lift_capacity : Result CapacityError ℕ → Result StartError ℕ
lift_capacity (ok n) = ok n
lift_capacity (err e) = err (bad_capacity e)

-- The checks of `start_prompt`, in order.
unfoldable pub plan : TalkerModel → VoiceDesignPrompt → GenerationSettings → Result StartError Plan
plan m prompt settings =
    ensure (ltb 0 settings.max_frames) no_frames
    >> (ensure (leb settings.max_sequence_length (2 ^ 31 - 1)) sequence_too_long
        >> (native_prompt_steps m prompt.prefill >>= λ ids.
            ensure (leb (length ids) (2 ^ 31 - 1)) prompt_too_long
            >> (lift_capacity
                  (session_capacity (length ids) settings.max_frames settings.max_sequence_length)
                >>= λ capacity. native settings.talker_sampling >>= λ talker.
                    native settings.predictor_sampling >>= λ predictor. ok record {
                      ids = ids;
                      capacity = capacity;
                      talker = talker;
                      predictor = predictor;
                    })))

module _ (lib : TalkerLibrary) (more : StartLibrary lib) where
  -- The session on an acquired native one; after an error the session is dropped, not fit for reuse.
  unfoldable pub prefill_session :
      TalkerModel
      → ℕ
      → VoiceDesignPrompt
      → GenerationSettings
      → Plan
      → PooledSession
      → SessionPool
      → Result StartError (Talker lib × PooledSession) × SessionPool
  prefill_session m eos prompt settings p entry pool =
      let r = more.prefill (more.state_of entry.handle settings.random_seed) p.ids p.talker in
      if r.status != 0 then (err (prefill_failed r.status), drop_session false entry pool) else (
        ok (
          record {
            model = m;
            handle = r.handle;
            trailing_text = prompt.trailing_text;
            current_semantic = r.first_semantic_token;
            codec_eos_token = eos;
            frames_emitted = 0;
            max_frames = settings.max_frames;
            talker_sampling = p.talker;
            predictor_sampling = p.predictor;
            end_reason =
                if r.first_semantic_token == eos then some SessionEndReason.codec_eos else none;
            recyclable = true;
          },
          entry,
        ),
        pool,
      )

  unfoldable pub acquire_and_prefill :
      TalkerModel
      → ℕ
      → VoiceDesignPrompt
      → GenerationSettings
      → Plan
      → Answers
      → SessionPool
      → Result StartError (Talker lib × PooledSession) × SessionPool
  acquire_and_prefill m eos prompt settings p answers pool =
      let r = acquire_session pool p.capacity answers in
      elim r.0 [
        | err e ↦ (err (not_acquired e), r.1)
        | ok entry ↦ prefill_session m eos prompt settings p entry r.1
      ]

  -- `start_prompt`: the session with its native one, and the pool after it. The end
  -- token of the configuration is cut to a `u16`.
  unfoldable pub start_prompt :
      TalkerModel
      → ℕ
      → VoiceDesignPrompt
      → GenerationSettings
      → Answers
      → SessionPool
      → Result StartError (Talker lib × PooledSession) × SessionPool
  start_prompt m eos_id prompt settings answers pool = elim (plan m prompt settings) [
    | err e ↦ (err e, pool)
    | ok p ↦ acquire_and_prefill m (eos_id % 2 ^ 16) prompt settings p answers pool
  ]

-- The output of the loop of `generate_prompt`, or the error of a frame.
unfoldable pub output_of : {H : Type 0} → Generated H → Option (Result TalkerError GenerationOutput)
output_of none = none
output_of (some (err e)) = some (err e)
output_of (some (ok (frames, t))) = some (ok (generation_output frames t))

-- `generate_prompt` on a session that was started.
unfoldable pub generate_started :
    (lib : TalkerLibrary) → Talker lib → Option (Result TalkerError GenerationOutput)
generate_started lib s = output_of (generate_loop lib (suc s.max_frames) s)
