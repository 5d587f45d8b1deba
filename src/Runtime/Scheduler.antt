-- ===== src/Runtime/Scheduler.antt =====
-- native/qwen3-tts-runtime/src/scheduler.rs, in its parts.
pub mod Validate
pub mod Slots
pub mod Shared
pub mod Handle
pub mod Session
pub mod Backend
pub mod Worker
