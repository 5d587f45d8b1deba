-- ===== src/Lib.antt =====
-- A model of the host side of the native Qwen3-TTS runtime, with what makes it correct.
--
-- The program turns text into speech. A server (native/qwen3-tts-server) takes requests and hands
-- them to the runtime (native/qwen3-tts-runtime), whose one worker thread batches them for a
-- backend on the device; audio comes back in packets, through a bounded queue for each request.
--
--   Runtime.Types                types.rs and the constants of lib.rs
--   Runtime.Request              request.rs: the phase machine, packet recording, `PacketQueue`
--   Runtime.Scheduler            scheduler.rs, in its parts:
--     Validate                   `validate_config`, `validate_generation`
--     Slots                      `SlotPool` and its permits
--     Shared                     `RequestShared`, what a handle and the worker share
--     Handle                     `RequestHandle`: poll, cancel, wait
--     Backend                    the trait `StreamingBackend`, as a parameter
--     Worker                     the worker's state, commands, removal of requests
--       Start, Step, Loop        `start_pending`, `step_eligible`, `worker_loop`
--       Front                    `Scheduler::new` and `Scheduler::start`
--     Session                    the protocol between the worker and one client
--   Wav                          wav.rs of native/qwen3-tts-server (Encode) and of
--                                native/qwen3-tts-http-bench (Validate)
--   Http.Buffer                  http.rs of native/qwen3-tts-http-bench: `TimedBuffer`
--   Multipart                    the streamed response of native/qwen3-tts-server (multipart.rs in Part,
--                                server.rs in Sender) and its reader in native/qwen3-tts-http-bench
--                                (multipart.rs in Reading, Headers and Reader, runner.rs in Receiver and Parts)
--   Text                         what these use of Rust's `str`: numbers, UTF-8, lines
--   Sha256                       native/qwen3-tts-native/src/sha256.rs
--   Native                       what turns the native libraries into packets:
--     Prompt                     prompt.rs of native/qwen3-tts-native, `language_id` of config.rs
--     Talker                     native_talker.rs there: `NativeTalkerSession`, its operations in
--                                Session, `start_prompt` and `generate_prompt` in Start, and the
--                                loop of the latter in Generate
--     Pool                       there: `session_capacity` and the pool of sessions
--     Pump                       there: `BatchFramePump`
--     Stager                     cuda_packet_stager.rs of native/qwen3-tts-runtime
--     Backend                    native_backend.rs there: `start_session` in Start, `step` in
--                                Steps, the instance of the scheduler's backend in Batches
--   Base                         shared names, tests, results, lists and machine words
--
-- State is passed explicitly. Each method that runs under a request's lock is one step; an
-- `Arc<RequestShared>` is an entry in a store by the request's id, which the handle and the worker
-- both change. A permit of the slot pool is an obligation to release it. A head of the list is the
-- end of the vector of free buffers. Condition variables and wake commands leave no trace but that
-- a waiting thread looks again. A panic of the backend is a missing result.
--
-- What threads do at the same time is a sequence of steps: `Session.Reach` is any interleaving of
-- the worker and the client of one request, `Loop.Tick` says what one round of the worker meets
-- (arriving commands, shutdown flags, clocks, what clients do to their requests), and
-- `Handle.Wait` what happens while a client waits. The loops run over these lists, so their length
-- is no bound of the program. The loop that removes requests runs on the number of requests, of
-- which each round removes or passes one. The loop over the chunks of a WAV file runs on the
-- number of its bytes, of which each chunk takes eight; its theorem says that this is enough. The
-- cut of a hashed message into blocks runs on its length, of which each block takes 64 bytes. The
-- loop of `generate_prompt` runs on fuel for the frames that the limit leaves and one round more,
-- and the loops of a step on the number of frames asked for.
--
-- The native libraries are parameters: a CUDA call gives a status and a pointer that may depend on
-- every call before (`Cuda`); behind a session's handle stands a state that each call may change
-- (`TalkerLibrary`); the codec's sessions are a parameter too (`Codec`), of which it is assumed where
-- a theorem says so that they keep the length of a slice. Handles and pointers are numbers, null is
-- 0. The pump's thread meets an explicit list of turns, and a session an answer of the pump.
--
-- Integers are natural numbers with the wrap-around of their width. Floats are IEEE 754 bit
-- patterns; the additions in the metrics are a parameter (`FloatOps`). The backend is a parameter
-- too (`Backend`), and nothing is assumed of it: it may fail, panic, or return lists of any length.
--
-- The body of a response is the list of its segments, and may end in an error; the loops that read
-- it run over that list. The loop over a payload runs on fuel for its bytes, of which each round takes
-- one or more, and the loop over the parts on fuel for their number; the theorem gives a bound from
-- the turns of the server's worker. `serde_json` and the printing of ids are parameters. A turn of the
-- streaming worker meets what the engine, the channel and the cancellation token do then.
--
-- Not modelled: CUDA and the C interfaces, the HTTP server and benchmark besides their WAV code,
-- `TimedBuffer` and the streamed response, the codec's own code, the tokenizer, and of
-- native/qwen3-tts-native the artifacts, the weights and the loading of libraries.
-- `NativeBackend::load` is left, and the getters. `Scheduler::drop` is seen only by the flag and
-- the command that it sends.
pub mod Base
pub mod Runtime
pub mod Wav
pub mod Text
pub mod Native
pub mod Http
pub mod Multipart
pub mod Sha256
