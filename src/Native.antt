-- ===== src/Native.antt =====
-- native/qwen3-tts-runtime/src/cuda_packet_stager.rs and native_backend.rs, with the talker session
-- of native/qwen3-tts-native/src/native_talker.rs: what turns the native libraries into packets.
pub mod Backend
pub mod Pool
pub mod Pump
pub mod Stager
pub mod Prompt
pub mod Talker
mod Examples
