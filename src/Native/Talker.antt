-- ===== src/Native/Talker.antt =====
-- native/qwen3-tts-native/src/native_talker.rs: `NativeTalkerSession`, one stream of codec frames.
-- The native library is a parameter: what stands behind a session's handle is a state of its own,
-- and its calls give any status and any output. An `i32` is its 32-bit pattern, a float too.
use qwen3_tts_native.Base.{
  bool_ne, ℕ, ◌+◌, ◌^◌, Bool, true, false, not, List, [], ◌∷◌, Option, none, some, is_some, Result,
  ok, err, leb, ltb, ◌==◌, ◌!=◌, if◌then◌else◌, ◌||◌, get_or,
}
use qwen3_tts_native.Native.Prompt.{TextSource, token, tts_bos, tts_eos, tts_pad}
pub mod Session
pub mod Frames
pub mod Generate
pub mod Start
pub mod Fits

pub data SessionEndReason : Type 0 where
  codec_eos max_frames cancelled : SessionEndReason

pub record NativeSamplingConfig : Type 0 where
  pub do_sample : ℕ
  pub top_k : ℕ
  pub top_p : ℕ
  pub temperature : ℕ
  pub repetition_penalty : ℕ

pub record NativeFrameInfo : Type 0 where
  pub talker_position : ℕ
  pub ended_by_eos : ℕ
  pub predictor_gpu_milliseconds : ℕ
  pub talker_gpu_milliseconds : ℕ

pub record NativeDeviceFrameView : Type 0 where
  pub struct_size : ℕ
  pub code_count : ℕ
  pub device_codes : ℕ
  pub ready_event : ℕ
  pub lease_id : ℕ
  pub device_index : ℕ
  pub reserved : ℕ

-- An error by its text; `native_status` by the status of the call that failed.
pub data TalkerError : Type 0 where
  native_status : ℕ → TalkerError
  text_token_too_large eos_disagrees no_device_frames null_consumer_event : TalkerError
  bad_view_size bad_code_count null_cuda_value lease_zero wrong_device view_reserved : TalkerError
  pump_shut_down pump_dropped pump_failed : TalkerError

-- The answers of the native calls: a status, what the call wrote, and the session after it.
pub record NextReply (Handle : Type 0) : Type 0 where
  pub status : ℕ
  pub codes : List ℕ
  pub next_semantic_token : ℕ
  pub info : NativeFrameInfo
  pub handle : Handle

pub record BeginReply (Handle : Type 0) : Type 0 where
  pub status : ℕ
  pub view : NativeDeviceFrameView
  pub handle : Handle

-- What the batch pump answers to a request: none of the first three is a view.
pub data PumpAnswer : Type 0 where
  not_submitted no_answer failed_batch : PumpAnswer
  answered : NativeDeviceFrameView → PumpAnswer

pub record TalkerLibrary : Type 1 where
  pub Handle : Type 0
  pub session_next_frame :
      Handle → ℕ → ℕ → NativeSamplingConfig → NativeSamplingConfig → NextReply Handle
  pub begin : Handle → ℕ → NativeSamplingConfig → NativeSamplingConfig → BeginReply Handle
  pub pump : Handle → ℕ → NativeSamplingConfig → NativeSamplingConfig → PumpAnswer × Handle
  pub finish : Handle → ℕ → ℕ → NextReply Handle

-- What a session reads of its model.
pub record TalkerModel : Type 0 where
  pub tts_bos_token_id : ℕ
  pub tts_eos_token_id : ℕ
  pub tts_pad_token_id : ℕ
  pub device_index : ℕ
  pub has_device_frame_api : Bool
  pub has_batch_pump : Bool

pub record NativeTalkerSession (Handle : Type 0) : Type 0 where
  pub model : TalkerModel
  pub handle : Handle
  pub trailing_text : List TextSource
  pub current_semantic : ℕ
  pub codec_eos_token : ℕ
  pub frames_emitted : ℕ
  pub max_frames : ℕ
  pub talker_sampling : NativeSamplingConfig
  pub predictor_sampling : NativeSamplingConfig
  pub end_reason : Option SessionEndReason
  pub recyclable : Bool

pub record StreamingCodecFrame : Type 0 where
  pub codes : List ℕ
  pub frame_index : ℕ
  pub next_semantic_token : ℕ
  pub talker_position : ℕ
  pub predictor_gpu_milliseconds : ℕ
  pub talker_gpu_milliseconds : ℕ
  pub ended_by_eos : Bool

-- A finished device frame is the same without its codes, which stay on the device.
pub record FinishedDeviceFrame : Type 0 where
  pub frame_index : ℕ
  pub next_semantic_token : ℕ
  pub talker_position : ℕ
  pub predictor_gpu_milliseconds : ℕ
  pub talker_gpu_milliseconds : ℕ
  pub ended_by_eos : Bool

abbrev source_token : TalkerModel → TextSource → ℕ
source_token m (token t) = t
source_token m tts_bos = m.tts_bos_token_id
source_token m tts_eos = m.tts_eos_token_id
source_token m tts_pad = m.tts_pad_token_id

-- `text_source_id`, with `i32::try_from`.
unfoldable pub text_source_id : TalkerModel → TextSource → Result TalkerError ℕ
text_source_id m source =
    if ltb (source_token m source) (2 ^ 31)
    then ok (source_token m source)
    else err text_token_too_large

-- `size_of::<NativeDeviceFrameViewV2>()`.
abbrev pub view_size : ℕ
view_size = 40

abbrev pub talker_codebooks : ℕ
talker_codebooks = 16

-- The validation of a view that the library gave.
unfoldable pub check_view : NativeDeviceFrameView → ℕ → Result TalkerError (Unit {0})
check_view v device =
    if v.struct_size != view_size
    then err bad_view_size
    else if v.code_count != talker_codebooks
    then err bad_code_count
    else if (v.device_codes == 0) || (v.ready_event == 0)
    then err null_cuda_value
    else if v.lease_id == 0
    then err lease_zero
    else if v.device_index != device
    then err wrong_device
    else if v.reserved != 0
    then err view_reserved
    else ok tt

-- The reason with which a session that emitted `emitted` frames ends, if it does.
unfoldable pub reason_after : Bool → ℕ → ℕ → Option SessionEndReason
reason_after eos emitted limit =
    if eos then some codec_eos else if leb limit emitted then some max_frames else none

module _ {H : Type 0} where
  -- `is_ended`.
  abbrev pub is_ended : NativeTalkerSession H → Bool
  is_ended s = is_some s.end_reason

  -- `cancel`.
  unfoldable pub cancel_talker : NativeTalkerSession H → NativeTalkerSession H
  cancel_talker s = if is_some s.end_reason then s else record s { end_reason = some cancelled }

  -- The beginning that `next_frame`, `begin_device_frame` and `begin_device_frame_batched` share.
  unfoldable pub unless_ended :
      {A : Type 0}
      → NativeTalkerSession H
      → Result TalkerError (Option A) × NativeTalkerSession H
      → Result TalkerError (Option A) × NativeTalkerSession H
  unless_ended s generate =
      if is_some s.end_reason
      then (ok none, s)
      else if leb s.max_frames s.frames_emitted
      then (ok none, record s { end_reason = some max_frames })
      else if s.current_semantic == s.codec_eos_token
      then (ok none, record s { end_reason = some codec_eos })
      else generate

  -- The text token of the next frame, padding past the end of the text.
  unfoldable pub with_text :
      {A : Type 0}
      → NativeTalkerSession H
      → (ℕ → Result TalkerError (Option A) × NativeTalkerSession H)
      → Result TalkerError (Option A) × NativeTalkerSession H
  with_text s generate =
      elim (text_source_id s.model (get_or s.trailing_text s.frames_emitted tts_pad)) [
        | ok text_id ↦ generate text_id
        | err e ↦ (err e, s)
      ]

  -- The session past a frame, its counters set.
  unfoldable pub advance_frame : NativeTalkerSession H → ℕ → NativeTalkerSession H
  advance_frame s semantic = record s {
    frames_emitted = s.frames_emitted + 1;
    current_semantic = semantic;
  }

  unfoldable pub discard : NativeTalkerSession H → NativeTalkerSession H
  discard s = record s { recyclable = false }
