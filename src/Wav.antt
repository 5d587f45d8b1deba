-- ===== src/Wav.antt =====
-- The WAV files that native/qwen3-tts-server writes and native/qwen3-tts-http-bench checks.
pub mod Bytes
pub mod Encode
pub mod Validate
pub mod RoundTrip
mod Examples
