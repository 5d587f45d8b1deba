-- ===== src/Native/Examples/Talker.antt =====
-- A talker session on a library that ends a stream after three frames, and its prompts.
use qwen3_tts_native.Base.{
  ℕ, ◌+◌, ◌≡◌, refl, ◌↔◌, true, List, [], ◌∷◌, length, replicate, some, none, ok, is_ok, ◌==◌,
  if◌then◌else◌, arith,
}
use qwen3_tts_native.Native.Prompt.{
  token, tts_bos, tts_eos, TalkerConfig, VoiceDesignPrompt, streaming, non_streaming, language_id,
  from_token_ids,
}
use qwen3_tts_native.Native.Prompt.Modes.{spoken, from_token_ids-spoken}
use qwen3_tts_native.Native.Prompt.Panics.{from_token_ids_iff}
use qwen3_tts_native.Native.Talker.{
  NativeSamplingConfig, NativeDeviceFrameView, NextReply, answered, TalkerLibrary,
}
use qwen3_tts_native.Native.Talker.Session.{Talker, has_consumer, next_device, run}
use qwen3_tts_native.Native.Talker.Frames.{Inv, After, run-After}
use qwen3_tts_native.Native.Talker.Generate.{FillsFrames, Completes, generate_loop, loop-Completes}

abbrev no_sampling : NativeSamplingConfig
no_sampling = record {
  do_sample = 0;
  top_k = 0;
  top_p = 0;
  temperature = 0;
  repetition_penalty = 0;
}

abbrev reply : ℕ → NextReply ℕ
reply h = record {
  status = 0;
  codes = replicate 16 h;
  next_semantic_token = if h == 2 then 9 else 5;
  info = record {
    talker_position = h;
    ended_by_eos = if h == 2 then 1 else 0;
    predictor_gpu_milliseconds = 0;
    talker_gpu_milliseconds = 0;
  };
  handle = h + 1;
}

abbrev view : NativeDeviceFrameView
view = record {
  struct_size = 40;
  code_count = 16;
  device_codes = 64;
  ready_event = 65;
  lease_id = 1;
  device_index = 0;
  reserved = 0;
}

abbrev pub counting : TalkerLibrary
counting = record {
  Handle = ℕ;
  session_next_frame = λ h semantic text a b. reply h;
  begin = λ h text a b. record { status = 0; view = view; handle = h };
  pump = λ h text a b. (answered view, h);
  finish = λ h lease event. reply h;
}

abbrev pub session : Talker counting
session = record {
  model = record {
    tts_bos_token_id = 1;
    tts_eos_token_id = 2;
    tts_pad_token_id = 3;
    device_index = 0;
    has_device_frame_api = true;
    has_batch_pump = true;
  };
  handle = 0;
  trailing_text = token 7 ∷ tts_eos ∷ [];
  current_semantic = 4;
  codec_eos_token = 9;
  frames_emitted = 0;
  max_frames = 10;
  talker_sampling = no_sampling;
  predictor_sampling = no_sampling;
  end_reason = none;
  recyclable = true;
}

abbrev two_frames : Talker counting
two_frames = record session { max_frames = 2 }

session-Inv : (n : ℕ) → Inv (record session { max_frames = n })
session-Inv n = record {
  emitted = omega arith;
  at_limit = λ e. ground arith;
  at_eos = λ e. ground arith;
}

run-After_example :
    After two_frames (run counting (next_device true (has_consumer 4)) two_frames)
    × Inv (run counting (next_device true (has_consumer 4)) two_frames)
run-After_example =
    run-After counting two_frames (session-Inv 2) (next_device true (has_consumer 4))

pub fills : FillsFrames counting
fills = record { codes = λ h semantic text a b. refl }

loop-Completes_example : Completes session (generate_loop counting 11 session)
loop-Completes_example = loop-Completes counting fills 11 session (session-Inv 10) (omega arith)

abbrev config : TalkerConfig
config = record {
  codec_bos_id = 20;
  codec_eos_token_id = 9;
  codec_language_id = (103 ∷ [], 30) ∷ [];
  codec_nothink_id = 21;
  codec_pad_id = 22;
  codec_think_bos_id = 23;
  codec_think_eos_id = 24;
  codec_think_id = 25;
}

-- "G", in lower case the only language.
german_test : language_id config (71 ∷ []) ≡ ok (some 30)
unfolding language_id
german_test = refl

from_token_ids-spoken_example :
    (p : VoiceDesignPrompt) × (from_token_ids config
        (8 ∷ [])
        (1 ∷ 2 ∷ 3 ∷ 40 ∷ 41 ∷ 5 ∷ 6 ∷ 7 ∷ 8 ∷ 9 ∷ [])
        (71 ∷ [])
        non_streaming
      ≡ some (ok p))
    × (spoken p
        ≡ token 8 ∷ token 1 ∷ token 2 ∷ token 3 ∷ tts_bos ∷ token 40 ∷ token 41 ∷ tts_eos ∷ [])
from_token_ids-spoken_example =
    from_token_ids-spoken config (some 30) (8 ∷ []) 1 2 3 40 (41 ∷ []) (5 ∷ 6 ∷ 7 ∷ 8 ∷ 9 ∷ []) refl
      (71 ∷ []) non_streaming german_test

abbrev eight : List ℕ
eight = 1 ∷ 2 ∷ 3 ∷ 4 ∷ 5 ∷ 6 ∷ 7 ∷ 8 ∷ []

from_token_ids_iff_example :
    (from_token_ids config [] eight (71 ∷ []) streaming ≡ none)
    ↔ ((streaming ≡ streaming) × (length eight ≡ 8) × (is_ok (language_id config (71 ∷ [])) ≡ true))
from_token_ids_iff_example = from_token_ids_iff config [] eight (71 ∷ []) streaming
