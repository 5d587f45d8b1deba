-- ===== src/Runtime/Examples.antt =====
-- Concrete data for the witnesses: float operations, a backend, a configuration and packets.
mod Request
mod Session
mod Worker
use qwen3_tts_native.Base.{ℕ, ◌+◌, ◌*◌, Bool, true, false, List, [], ◌∷◌, map, some, ok}
use qwen3_tts_native.Runtime.Types.{
  FinishReason, no_reason, codec_eos, AudioPacketDescriptor, EngineConfig, engine_config_default,
  samples_per_codec_frame, sample_rate_hz,
}
use qwen3_tts_native.Runtime.Request.{FloatOps}
use qwen3_tts_native.Runtime.Scheduler.Shared.{OwnedAudioPacket, Pcm}
use qwen3_tts_native.Runtime.Scheduler.Backend.{Backend, BackendPacket}

abbrev pub floats : FloatOps
floats = record { add = λ a b. a + b; widen = λ a. a; from_u64 = λ a. a }

abbrev pub one_frame : Bool → FinishReason → BackendPacket
one_frame final why = record {
  codec_frames = 1;
  is_final = final;
  finish_reason = why;
  talker_gpu_microseconds = 0;
  codec_gpu_microseconds = 0;
  peak_request_device_bytes = 0;
  peak_request_host_bytes = 0;
}

-- A backend that starts every request and makes one frame in every step.
abbrev pub backend : Backend
backend = record {
  State = ℕ;
  Session = ℕ;
  start_batch = λ s requests. (
    some (
        map
          (λ r. ok (record {
            session = r.id;
            prefill_microseconds = 1;
            peak_request_device_bytes = 2;
            peak_request_host_bytes = 3;
          }))
          requests),
    s + 1,
  );
  step_batch = λ s inputs frames. record {
    results = some (map (λ x. ok (one_frame false no_reason)) inputs);
    effect = λ i x. x;
    state = s + 1;
  };
  cancel = λ s session. s + 1;
}

abbrev pub descriptor : ℕ → ℕ → AudioPacketDescriptor
descriptor sequence final = record {
  request_id = 7;
  sequence = sequence;
  first_codec_frame = sequence;
  first_sample = sequence * 1920;
  codec_frames = 1;
  sample_count = 1920;
  sample_rate = 24000;
  channels = 1;
  is_final = final;
  reserved = 0;
  talker_gpu_microseconds = 0;
  codec_gpu_microseconds = 0;
  end_to_end_microseconds = 0;
}
