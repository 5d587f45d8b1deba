-- ===== src/Runtime.antt =====
-- native/qwen3-tts-runtime: the request lifecycle.
pub mod Types
pub mod Request
pub mod Scheduler
mod Examples
