-- ===== src/Native/Backend/Start.antt =====
-- native_backend.rs: `voice_request` and `start_session`, from a request of the scheduler to a
-- session of the backend.
use qwen3_tts_native.Base.{
  ℕ, ◌+◌, ◌^◌, ◌<◌, ◌≡◌, Bool, true, List, [], ◌∷◌, Option, none, some, Result, ok, err, ◌!=◌,
  if◌then◌else◌, ◌>>=◌, ensure, ◌>>◌, ok_or, not, arith, ltb,
}
use qwen3_tts_native.Runtime.Types.{Language, max_codec_frames}
use qwen3_tts_native.Runtime.Scheduler.Backend.{BackendRequest, BackendStarted}
use qwen3_tts_native.Native.Stager.{Cuda, CudaPacketStager, StagerError, new_stager, packet_bytes}
use qwen3_tts_native.Native.Talker.{TalkerLibrary, TalkerError, is_ended}
use qwen3_tts_native.Native.Talker.Session.{Talker}
use qwen3_tts_native.Native.Talker.Start.{GenerationSettings}
use qwen3_tts_native.Native.Backend.{
  Codec, NativeFailure, ended_in_prefill, codec_not_started, codec_memory_unknown,
  stager_not_created, talker_failed, checked_sum, memory_overflow,
}
use qwen3_tts_native.Native.Backend.Steps.{Session}

-- `VoiceDesignRequest` with its texts and the settings of the generation.
pub record VoiceDesignRequest : Type 0 where
  pub text : List ℕ
  pub instruction : List ℕ
  pub language : Language
  pub settings : GenerationSettings

-- The pattern of 1.0.
abbrev one : ℕ
one = 0x3f80_0000

unfoldable pub voice_request : BackendRequest → VoiceDesignRequest
voice_request r = record {
  text = r.input.text;
  instruction = r.input.instruct;
  language = r.input.language;
  settings = record {
    max_frames = r.generation.max_codec_frames;
    max_sequence_length = max_codec_frames;
    random_seed = r.generation.seed;
    talker_sampling = record {
      do_sample = r.generation.do_sample != 0;
      top_k = r.generation.top_k;
      top_p = r.generation.top_p;
      temperature = r.generation.temperature;
      repetition_penalty = r.generation.repetition_penalty;
    };
    predictor_sampling = record {
      do_sample = r.generation.predictor_do_sample != 0;
      top_k = r.generation.predictor_top_k;
      top_p = r.generation.predictor_top_p;
      temperature = r.generation.predictor_temperature;
      repetition_penalty = one;
    };
  };
}

-- `SessionMemory` of the talker and the memory of the codec, in bytes.
pub record TalkerMemory : Type 0 where
  pub talker_kv_bytes : ℕ
  pub predictor_kv_bytes : ℕ
  pub workspace_bytes : ℕ

pub record CodecMemory : Type 0 where
  pub device_bytes : ℕ
  pub host_pinned_bytes : ℕ

abbrev lift_stager : Result StagerError CudaPacketStager → Result NativeFailure CudaPacketStager
lift_stager (ok s) = ok s
lift_stager (err e) = err (stager_not_created e)

module _ (lib : TalkerLibrary) (codec : Codec) (cuda : Cuda) (accumulate : ℕ → ℕ → ℕ → ℕ) where
  -- What the parts answer to one start: the talker, the codec, its memory.
  pub record Starts : Type 0 where
    pub talker : Result TalkerError (Talker lib × TalkerMemory)
    pub codec_session : Option codec.Session
    pub codec_memory : Option CodecMemory
    pub prefill_microseconds : ℕ

  -- `cuda_stager_runtime.map(new).transpose()?`.
  unfoldable pub optional_stager : Bool → ℕ → Result NativeFailure (Option CudaPacketStager)
  optional_stager has_runtime device =
      if has_runtime then (lift_stager (new_stager cuda device).0 >>= λ s. ok (some s)) else ok none

  abbrev stager_bytes : Option CudaPacketStager → ℕ
  stager_bytes none = 0
  stager_bytes (some s) = packet_bytes

  abbrev lift_talker :
      Result TalkerError (Talker lib × TalkerMemory)
      → Result NativeFailure (Talker lib × TalkerMemory)
  lift_talker (ok t) = ok t
  lift_talker (err e) = err (talker_failed e)

  -- `start_session`. An error drops the parts that were started.
  unfoldable pub start_session :
      Bool → ℕ → Starts → Result NativeFailure (BackendStarted (Session lib codec cuda accumulate))
  start_session has_runtime device answers = lift_talker answers.talker >>= λ t.
      ensure (not (is_ended t.0)) ended_in_prefill
      >> (ok_or answers.codec_session codec_not_started >>= λ c.
          ok_or answers.codec_memory codec_memory_unknown >>= λ m.
          optional_stager has_runtime device >>= λ stager.
          checked_sum 0 (
            t.1.talker_kv_bytes
            ∷ t.1.predictor_kv_bytes
            ∷ t.1.workspace_bytes
            ∷ m.device_bytes
            ∷ stager_bytes stager
            ∷ [])
          >>= λ peak. ok record {
            session = record {
              talker = t.0;
              codec = c;
              cuda_stager = stager;
              first_packet = true;
              peak_request_device_bytes = peak;
              peak_request_host_bytes = m.host_pinned_bytes;
            };
            prefill_microseconds = answers.prefill_microseconds;
            peak_request_device_bytes = peak;
            peak_request_host_bytes = m.host_pinned_bytes;
          })

abbrev total : List ℕ → ℕ
total [] = 0
total (x ∷ xs) = x + total xs

-- A sum is exact, or refused if it is more than a `u64` holds.
pub checked_sum-total :
    (start : ℕ) (xs : List ℕ)
    → start < 2 ^ 64
    → checked_sum start xs
      ≡ (if ltb (start + total xs) (2 ^ 64) then ok (start + total xs) else err memory_overflow)
unfolding checked_sum
checked_sum-total start [] h = ground (arith, h)
checked_sum-total start (x ∷ xs) h = ground (arith, h, checked_sum-total (start + x) xs)
