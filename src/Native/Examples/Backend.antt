-- ===== src/Native/Examples/Backend.antt =====
-- A step of the backend on the host path, on a codec that fills its slice with silence.
use qwen3_tts_native.Base.{
  some, false, [], ◌∷◌, List, ℕ, ◌+◌, ◌*◌, ◌≡◌, refl, true, false, map, length-map, replicate, none,
  ok, arith,
}
use qwen3_tts_native.Runtime.Types.{
  no_reason, auto, generation_config_default, samples_per_codec_frame,
}
use qwen3_tts_native.Runtime.Scheduler.Shared.{Pcm}
use qwen3_tts_native.Runtime.Scheduler.Backend.{BackendPacket, BackendRequest, StepBatch}
use qwen3_tts_native.Runtime.Scheduler.Worker.Accept.{pcm_sentinel, validate_backend_packet}
use qwen3_tts_native.Native.Talker.{
  unless_ended, with_text, text_source_id, advance_frame, reason_after, discard,
}
use qwen3_tts_native.Native.Talker.Session.{generate_frame, accept_frame, next_frame}
use qwen3_tts_native.Native.Backend.{
  NativeFailure, checked_sum, Codec, CodecReply, map_finish_reason, finish_packet,
}
use qwen3_tts_native.Native.Backend.Steps.{
  Session, host_frames, host_packet, step_host_session, step_either, step_session,
}
use qwen3_tts_native.Native.Backend.Packets.{KeepsLength}
use qwen3_tts_native.Native.Backend.Start.{Starts, optional_stager, start_session}
use qwen3_tts_native.Native.Backend.Batches.{
  backend_error, step_batch, native_backend, step_batch-valid,
}
use qwen3_tts_native.Native.Examples.Stager.{willing}
use qwen3_tts_native.Native.Examples.Talker.{counting, session}

abbrev silent : ℕ → Pcm → CodecReply ℕ
silent c pcm = record {
  result = ok record { frame_count = 1; sample_count = 1920; is_final = 0; gpu_microseconds = 3 };
  pcm = map (λ x. 0) pcm;
  session = c;
}

abbrev silence : Codec
silence = record {
  Session = ℕ;
  process_into = λ c frames is_final pcm. silent c pcm;
  begin_device_packet = λ c codes count event. (ok 5, c);
  finish = λ c is_final pcm. silent c pcm;
  abandon = λ c. c;
  cancel = λ c. (true, c);
}

silence-KeepsLength : KeepsLength silence
silence-KeepsLength = record {
  process_into = λ c frames is_final pcm. length-map (λ x. 0) pcm;
  finish = λ c is_final pcm. length-map (λ x. 0) pcm;
}

abbrev sums : ℕ → ℕ → ℕ → ℕ
sums a b c = a + b + c

abbrev backend_session : Session counting silence willing sums
backend_session = record {
  talker = session;
  codec = 0;
  cuda_stager = none;
  first_packet = true;
  peak_request_device_bytes = 100;
  peak_request_host_bytes = 50;
}

abbrev packet : BackendPacket
packet = record {
  codec_frames = 1;
  is_final = false;
  finish_reason = no_reason;
  talker_gpu_microseconds = 0;
  codec_gpu_microseconds = 3;
  peak_request_device_bytes = 100;
  peak_request_host_bytes = 50;
}

abbrev pcm : Pcm
pcm = replicate (2 * samples_per_codec_frame) pcm_sentinel

abbrev one_request : BackendRequest
one_request = record {
  id = 1;
  input = record { text = 72 ∷ []; instruct = []; language = auto };
  generation = generation_config_default;
}

abbrev start_answers : BackendRequest → Starts counting silence willing sums
start_answers r = record {
  talker =
      ok (session, record { talker_kv_bytes = 70; predictor_kv_bytes = 20; workspace_bytes = 5 });
  codec_session = some 0;
  codec_memory = some (record { device_bytes = 5; host_pinned_bytes = 50 });
  prefill_microseconds = 12;
}

-- Without a stager the sum of the parts is 100 bytes.
started_test :
    start_session counting silence willing sums false 0 (start_answers one_request)
    ≡ ok record {
      session = backend_session;
      prefill_microseconds = 12;
      peak_request_device_bytes = 100;
      peak_request_host_bytes = 50;
    }
unfolding start_session optional_stager checked_sum
started_test = refl

abbrev nothing : NativeFailure → List ℕ
nothing e = []

abbrev batch : StepBatch (Unit {0}) (Session counting silence willing sums)
batch =
    (native_backend counting silence willing sums nothing false 0 start_answers).step_batch tt
      ((backend_session, pcm) ∷ []) 2

results_test : batch.results ≡ some (ok packet ∷ [])
unfolding step_batch backend_error step_session step_either step_host_session host_frames
    host_packet map_finish_reason finish_packet next_frame unless_ended with_text text_source_id
    generate_frame accept_frame advance_frame reason_after discard
results_test = refl

step_batch-valid_example :
    validate_backend_packet packet 2 (batch.effect 0 (backend_session, pcm)).1 ≡ ok tt
step_batch-valid_example =
    step_batch-valid counting silence willing sums nothing false 0 start_answers 2 0
      ((backend_session, pcm) ∷ []) backend_session (ok packet ∷ []) packet silence-KeepsLength
      (omega arith) refl results_test refl
