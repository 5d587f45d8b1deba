-- ===== src/Http.antt =====
-- native/qwen3-tts-http-bench: the parts of the benchmark client that read a response.
pub mod Buffer
mod Examples
