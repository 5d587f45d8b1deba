-- ===== src/Native/Backend.antt =====
-- native/qwen3-tts-runtime/src/native_backend.rs: `NativeBackend`, the backend of the scheduler, on a
-- talker session, a codec session and, for frames that stay on the device, a packet stager.
-- Parameters: the talker library, the CUDA runtime, the codec's sessions (which keep the length of a
-- slice that they fill) and the float arithmetic on bit patterns. A panic does not occur here.
use qwen3_tts_native.Base.{
  ℕ, zero, suc, ◌+◌, ◌-◌, ◌*◌, ◌^◌, Bool, true, false, not, ◌||◌, List, [], ◌∷◌, ◌++◌, length, take,
  drop, bool_ne, Option, none, some, is_some, Result, ok, err, leb, ltb, ◌==◌, ◌!=◌, if◌then◌else◌,
}
use qwen3_tts_native.Wav.Bytes.{checked_add}
use qwen3_tts_native.Runtime.Types.{
  RuntimeStatus, FinishReason, no_reason, is_final_reason, samples_per_codec_frame,
}
use qwen3_tts_native.Runtime.Scheduler.Shared.{BackendError, backend_text, Pcm}
use qwen3_tts_native.Runtime.Scheduler.Backend.{BackendPacket}
use qwen3_tts_native.Native.Stager.{
  Cuda, CudaPacketStager, StagerError, StagedPacketView, packet_view, stage_frame,
  release_after_consumer, codec_packet_frames,
}
use qwen3_tts_native.Native.Talker.{
  TalkerLibrary, NativeTalkerSession, TalkerError, native_status, SessionEndReason, is_ended,
  cancel_talker,
}
use qwen3_tts_native.Native.Talker.Session.{
  Talker, next_frame, begin_device_frame_batched, finish_with_consumer_event, drop_pending,
}
pub mod Paths
pub mod Valid
pub mod Steps
pub mod Start
pub mod Batches
pub mod Packets

pub record CodecPacket : Type 0 where
  pub frame_count : ℕ
  pub sample_count : ℕ
  pub is_final : ℕ
  pub gpu_microseconds : ℕ

-- What a codec call that fills a slice gives: a packet or a status, the slice, the session.
pub record CodecReply (Session : Type 0) : Type 0 where
  pub result : Result ℕ CodecPacket
  pub pcm : Pcm
  pub session : Session

pub record Codec : Type 1 where
  pub Session : Type 0
  pub process_into : Session → List (List ℕ) → Bool → Pcm → CodecReply Session
  -- Device codes, frame count, ready event; the event of the last read of the codes.
  pub begin_device_packet : Session → ℕ → ℕ → ℕ → Result ℕ ℕ × Session
  pub finish : Session → Bool → Pcm → CodecReply Session
  -- The drop of a packet that was begun and not finished.
  pub abandon : Session → Session
  pub cancel : Session → Bool × Session

-- An error by its text.
pub data NativeFailure : Type 0 where
  bad_frame_limit pcm_overflow pcm_too_small no_frame cancelled_final final_disagrees :
      NativeFailure
  inconsistent_descriptor stager_missing stager_unconsumed inconsistent_count : NativeFailure
  memory_overflow ended_in_prefill codec_not_started codec_memory_unknown : NativeFailure
  stager_not_created : StagerError → NativeFailure
  talker_failed : TalkerError → NativeFailure
  codec_failed : ℕ → NativeFailure
  stage_failed view_failed release_failed : StagerError → NativeFailure

-- `-1` to `-5` as patterns of `i32`.
unfoldable pub map_status : ℕ → RuntimeStatus
map_status status =
    if status == 2 ^ 32 - 1
    then RuntimeStatus.invalid_argument
    else if status == 2 ^ 32 - 2
    then RuntimeStatus.cuda
    else if status == 2 ^ 32 - 3
    then RuntimeStatus.state
    else if status == 2 ^ 32 - 4
    then RuntimeStatus.allocation
    else if status == 2 ^ 32 - 5
    then RuntimeStatus.model
    else RuntimeStatus.internal

-- `map_talker_error`: the status of a native call, or the fallback.
abbrev pub map_talker_error : TalkerError → RuntimeStatus → RuntimeStatus
map_talker_error (native_status status) fallback = map_status status
map_talker_error _ fallback = fallback

-- The status with which each error reaches the scheduler.
unfoldable pub failure_status : NativeFailure → RuntimeStatus
failure_status bad_frame_limit = RuntimeStatus.invalid_argument
failure_status pcm_overflow = RuntimeStatus.invalid_argument
failure_status pcm_too_small = RuntimeStatus.invalid_argument
failure_status (talker_failed e) = map_talker_error e RuntimeStatus.state
failure_status (codec_failed status) = map_status status
failure_status (stage_failed e) = RuntimeStatus.cuda
failure_status (release_failed e) = RuntimeStatus.cuda
failure_status (stager_not_created e) = RuntimeStatus.cuda
failure_status stager_missing = RuntimeStatus.internal
failure_status memory_overflow = RuntimeStatus.internal
failure_status _ = RuntimeStatus.state

-- `checked_sum`, from a running total.
unfoldable pub checked_sum : ℕ → List ℕ → Result NativeFailure ℕ
checked_sum total [] = ok total
checked_sum total (x ∷ xs) = elim (checked_add total x) [
  | none ↦ err memory_overflow
  | some sum ↦ checked_sum sum xs
]

pub record NativeBackendSession (Handle CodecSession : Type 0) : Type 0 where
  pub talker : NativeTalkerSession Handle
  pub codec : CodecSession
  pub cuda_stager : Option CudaPacketStager
  pub first_packet : Bool
  pub peak_request_device_bytes : ℕ
  pub peak_request_host_bytes : ℕ

abbrev pub reason_of : Option SessionEndReason → Result NativeFailure FinishReason
reason_of none = ok no_reason
reason_of (some SessionEndReason.codec_eos) = ok FinishReason.codec_eos
reason_of (some SessionEndReason.max_frames) = ok FinishReason.max_frames
reason_of (some SessionEndReason.cancelled) = err cancelled_final

-- `map_finish_reason`.
unfoldable pub map_finish_reason :
    Option SessionEndReason → Bool → Result NativeFailure FinishReason
map_finish_reason end_reason is_final = elim (reason_of end_reason) [
  | err e ↦ err e
  | ok ending ↦ if bool_ne is_final (is_final_reason ending) then err final_disagrees else ok ending
]

module _ {H C : Type 0} where
  -- The end of both paths: the packet of `frame_count` frames that the codec wrote to the front.
  unfoldable pub finish_packet :
      NativeBackendSession H C
      → ℕ
      → ℕ
      → Bool
      → FinishReason
      → Pcm
      → CodecReply C
      → Result NativeFailure BackendPacket × (NativeBackendSession H C × Pcm)
  finish_packet s frame_count gpu is_final ending pcm reply =
      let sample_count = frame_count * samples_per_codec_frame in
      let after : NativeBackendSession H C × Pcm =
        (record s { codec = reply.session }, reply.pcm ++ drop sample_count pcm) in
      elim reply.result [
        | err status ↦ (err (codec_failed status), after)
        | ok packet ↦
            if (packet.frame_count != frame_count)
              || (packet.sample_count != sample_count)
              || bool_ne (packet.is_final != 0) is_final
            then (err inconsistent_descriptor, after)
            else (
              ok record {
                codec_frames = frame_count;
                is_final = is_final;
                finish_reason = ending;
                talker_gpu_microseconds = gpu;
                codec_gpu_microseconds = packet.gpu_microseconds;
                peak_request_device_bytes = s.peak_request_device_bytes;
                peak_request_host_bytes = s.peak_request_host_bytes;
              },
              after,
            )
      ]
