-- ===== src/Runtime/Types.antt =====
-- native/qwen3-tts-runtime/src/types.rs and the constants of lib.rs: the public data of the runtime.
-- A float is its IEEE 754 bit pattern; `size_of` of the two `repr(C)` configurations is written out.
use qwen3_tts_native.Base.{
  ℕ, ◌*◌, Bool, true, false, ◌||◌, List, length, is_empty, replicate, Result, ok, err, ltb, ◌==◌,
  ◌!=◌, if◌then◌else◌, u32,
}

abbrev pub max_concurrent_requests : ℕ
max_concurrent_requests = 6

abbrev pub max_packet_frames : ℕ
max_packet_frames = 4

abbrev pub max_pcm_ring_slots : ℕ
max_pcm_ring_slots = 64

abbrev pub max_text_bytes : ℕ
max_text_bytes = 1024 * 1024

abbrev pub max_instruct_bytes : ℕ
max_instruct_bytes = 256 * 1024

abbrev pub max_codec_frames : ℕ
max_codec_frames = 8192

abbrev pub sample_rate_hz : ℕ
sample_rate_hz = 24000

abbrev pub samples_per_codec_frame : ℕ
samples_per_codec_frame = 1920

pub data RuntimeStatus : Type 0 where
  ok_status would_block end_of_stream invalid_argument invalid_utf8 : RuntimeStatus
  unsupported_language model allocation cuda state cancelled internal : RuntimeStatus

pub data Language : Type 0 where
  auto chinese english japanese korean german french russian : Language
  portuguese spanish italian : Language

pub record EngineConfig : Type 0 where
  pub struct_size : ℕ
  pub device_index : ℕ
  pub max_concurrent_requests : ℕ
  pub packet_frames : ℕ
  pub pcm_ring_slots : ℕ
  pub max_text_bytes : ℕ
  pub max_instruct_bytes : ℕ
  pub flags : ℕ
  pub reserved : List ℕ

-- Eight 4-byte fields and eight 8-byte words.
abbrev pub engine_config_size : ℕ
engine_config_size = 96

abbrev pub engine_config_default : EngineConfig
engine_config_default = record {
  struct_size = engine_config_size;
  device_index = 0;
  max_concurrent_requests = 3;
  packet_frames = 4;
  pcm_ring_slots = 3;
  max_text_bytes = 64 * 1024;
  max_instruct_bytes = 16 * 1024;
  flags = 0;
  reserved = replicate 8 0;
}

pub record GenerationConfig : Type 0 where
  pub struct_size : ℕ
  pub max_codec_frames : ℕ
  pub seed : ℕ
  pub temperature : ℕ
  pub top_p : ℕ
  pub repetition_penalty : ℕ
  pub top_k : ℕ
  pub do_sample : ℕ
  pub predictor_temperature : ℕ
  pub predictor_top_p : ℕ
  pub predictor_top_k : ℕ
  pub predictor_do_sample : ℕ
  pub reserved : List ℕ

-- Eleven 4-byte fields and nine 8-byte words, padded to a multiple of 8.
abbrev pub generation_config_size : ℕ
generation_config_size = 120

-- 0.9, 1.0 and 1.05 as binary32 patterns.
abbrev pub generation_config_default : GenerationConfig
generation_config_default = record {
  struct_size = generation_config_size;
  max_codec_frames = 4096;
  seed = 0;
  temperature = 0x3f66_6666;
  top_p = 0x3f80_0000;
  repetition_penalty = 0x3f86_6666;
  top_k = 50;
  do_sample = 1;
  predictor_temperature = 0x3f66_6666;
  predictor_top_p = 0x3f80_0000;
  predictor_top_k = 50;
  predictor_do_sample = 1;
  reserved = replicate 8 0;
}

-- Texts are their UTF-8 bytes.
pub record RequestInput : Type 0 where
  pub text : List ℕ
  pub instruct : List ℕ
  pub language : Language

pub data RequestInputError : Type 0 where
  empty_text : RequestInputError
  text_too_large : ℕ → ℕ → RequestInputError
  instruct_too_large : ℕ → ℕ → RequestInputError

-- `RequestInput::validate`.
unfoldable pub validate_input : RequestInput → EngineConfig → Result RequestInputError (Unit {0})
validate_input input config =
    if is_empty input.text
    then err empty_text
    else if ltb config.max_text_bytes (length input.text)
    then err (text_too_large (length input.text) config.max_text_bytes)
    else if ltb config.max_instruct_bytes (length input.instruct)
    then err (instruct_too_large (length input.instruct) config.max_instruct_bytes)
    else ok tt

pub data RequestPhase : Type 0 where
  queued prefilling generating draining completed cancelled failed : RequestPhase

-- `RequestPhase::is_terminal`.
abbrev pub is_terminal : RequestPhase → Bool
is_terminal completed = true
is_terminal cancelled = true
is_terminal failed = true
is_terminal _ = false

pub data FinishReason : Type 0 where
  no_reason codec_eos max_frames : FinishReason

-- `FinishReason::is_terminal`.
abbrev pub is_final_reason : FinishReason → Bool
is_final_reason no_reason = false
is_final_reason _ = true

pub record AudioPacketDescriptor : Type 0 where
  pub request_id : ℕ
  pub sequence : ℕ
  pub first_codec_frame : ℕ
  pub first_sample : ℕ
  pub codec_frames : ℕ
  pub sample_count : ℕ
  pub sample_rate : ℕ
  pub channels : ℕ
  pub is_final : ℕ
  pub reserved : ℕ
  pub talker_gpu_microseconds : ℕ
  pub codec_gpu_microseconds : ℕ
  pub end_to_end_microseconds : ℕ

pub data PacketError : Type 0 where
  no_codec_frames too_many_frames sample_count_mismatch not_mono_24khz : PacketError
  not_accepting wrong_request sequence_gap frame_gap sample_gap : PacketError

-- `AudioPacketDescriptor::validate`; the product is a `u32`.
unfoldable pub validate_packet : AudioPacketDescriptor → ℕ → Result PacketError (Unit {0})
validate_packet p packet_frames =
    if p.codec_frames == 0
    then err no_codec_frames
    else if ltb packet_frames p.codec_frames
    then err too_many_frames
    else if p.sample_count != u32 (p.codec_frames * samples_per_codec_frame)
    then err sample_count_mismatch
    else if (p.sample_rate != sample_rate_hz) || (p.channels != 1)
    then err not_mono_24khz
    else ok tt

pub record RequestMetrics : Type 0 where
  pub queue_microseconds : ℕ
  pub prefill_microseconds : ℕ
  pub first_codec_frame_microseconds : ℕ
  pub first_audio_microseconds : ℕ
  pub wall_microseconds : ℕ
  pub generated_codec_frames : ℕ
  pub emitted_samples : ℕ
  pub emitted_packets : ℕ
  pub talker_gpu_microseconds : ℕ
  pub codec_gpu_microseconds : ℕ
  pub peak_request_device_bytes : ℕ
  pub peak_request_host_bytes : ℕ

-- `RequestMetrics::default()`: zeros, which is also the pattern of 0.0.
abbrev pub metrics_default : RequestMetrics
metrics_default = record {
  queue_microseconds = 0;
  prefill_microseconds = 0;
  first_codec_frame_microseconds = 0;
  first_audio_microseconds = 0;
  wall_microseconds = 0;
  generated_codec_frames = 0;
  emitted_samples = 0;
  emitted_packets = 0;
  talker_gpu_microseconds = 0;
  codec_gpu_microseconds = 0;
  peak_request_device_bytes = 0;
  peak_request_host_bytes = 0;
}
