-- ===== src/Multipart.antt =====
-- The streamed response: native/qwen3-tts-server/src/multipart.rs writes its parts, and
-- native/qwen3-tts-http-bench/src/multipart.rs reads them.
pub mod Part
pub mod Reading
pub mod Arrivals
pub mod Payload
pub mod PayloadLoop
pub mod Headers
pub mod Heads
pub mod Reader
pub mod OnePart
pub mod RoundTrip
pub mod AllParts
pub mod Contents
pub mod Sender
pub mod Sent
pub mod Delivery
pub mod Completion
pub mod Receiver
pub mod Parts
pub mod Received
pub mod EndToEnd
pub mod Transfer
mod Examples
