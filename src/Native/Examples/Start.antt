-- ===== src/Native/Examples/Start.antt =====
-- A request from its prompt to its output, on a library that ends a stream after three frames.
use qwen3_tts_native.Base.{
  ℕ, ◌+◌, ◌*◌, ◌≤◌, ◌≡◌, ◌≢◌, refl, true, [], ◌∷◌, length, some, none, ok, arith,
}
use qwen3_tts_native.Native.Prompt.{EmbeddingStep, VoiceDesignPrompt, token, tts_pad, tts_eos}
use qwen3_tts_native.Native.Pool.{
  PooledSession, SessionPool, Answers, session_capacity, smallest_adequate_session_index,
  create_session, acquire_session,
}
use qwen3_tts_native.Native.Talker.{text_source_id, talker_codebooks}
use qwen3_tts_native.Native.Talker.Session.{Talker}
use qwen3_tts_native.Native.Talker.Generate.{GenerationOutput}
use qwen3_tts_native.Native.Talker.Start.{
  SamplingConfig, GenerationSettings, StartLibrary, native, text_id, codec_id, native_prompt_steps,
  plan, prefill_session, acquire_and_prefill, start_prompt, generate_started,
}
use qwen3_tts_native.Native.Talker.Fits.{Honours, generate_prompt-fits}
use qwen3_tts_native.Native.Examples.Talker.{counting, session, fills}

abbrev more : StartLibrary counting
more = record {
  state_of = λ handle seed. 0;
  prefill = λ h ids sampling. record { status = 0; first_semantic_token = 4; handle = h };
}

abbrev sampling : SamplingConfig
sampling = record {
  do_sample = true;
  top_k = 50;
  top_p = 0x3f80_0000;
  temperature = 0x3f66_6666;
  repetition_penalty = 0x3f80_0000;
}

abbrev settings : GenerationSettings
settings = record {
  max_frames = 10;
  max_sequence_length = 1024;
  random_seed = 1;
  talker_sampling = sampling;
  predictor_sampling = sampling;
}

abbrev step : ℕ → EmbeddingStep
step t = record { text = some (token t); codec = none }

abbrev prompt : VoiceDesignPrompt
prompt = record {
  instruction_ids = [];
  assistant_ids = [];
  prefill = step 1 ∷ step 2 ∷ record { text = some tts_pad; codec = some 22 } ∷ [];
  trailing_text = token 7 ∷ tts_eos ∷ [];
}

-- A new session is as large as it is asked to be.
abbrev answers : Answers
answers = record {
  reset_status = none;
  create = λ c. some (0, record { handle = 77; max_sequence_length = c });
}

answers-Honours : Honours answers
answers-Honours = record { size = λ c entry h. ground (arith, h) }

abbrev no_sessions : SessionPool
no_sessions = record { pool = []; destroyed = [] }

abbrev entry : PooledSession
entry = record { handle = 77; max_sequence_length = 32 }

abbrev started : Talker counting
started = record session {
  talker_sampling = record {
    do_sample = 1;
    top_k = 50;
    top_p = 0x3f80_0000;
    temperature = 0x3f66_6666;
    repetition_penalty = 0x3f80_0000;
  };
  predictor_sampling = record {
    do_sample = 1;
    top_k = 50;
    top_p = 0x3f80_0000;
    temperature = 0x3f66_6666;
    repetition_penalty = 0x3f80_0000;
  };
}

-- The end token 65545 is cut to 9.
started_test :
    (start_prompt counting more session.model 65545 prompt settings answers no_sessions).0
    ≡ ok (started, entry)
unfolding start_prompt plan native_prompt_steps text_id codec_id text_source_id native
    session_capacity acquire_and_prefill acquire_session smallest_adequate_session_index
    create_session prefill_session
started_test = refl

generate_prompt-fits_example :
    (generate_started counting started ≢ none)
    × ((o : GenerationOutput)
        → generate_started counting started ≡ some (ok o)
        → (o.frame_count ≤ settings.max_frames)
          × (length o.codec_codes ≡ o.frame_count * talker_codebooks)
          × (length prompt.prefill + o.frame_count ≤ entry.max_sequence_length))
generate_prompt-fits_example =
    generate_prompt-fits counting more session.model 65545 prompt settings answers no_sessions
      started entry fills answers-Honours (omega arith) (omega arith) started_test
