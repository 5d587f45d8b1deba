-- ===== src/Runtime/Scheduler/Worker/Front.antt =====
-- scheduler.rs: `Scheduler`, the clients' entry: validation, admission and the start command.
use qwen3_tts_native.Base.{
  ℕ, ◌+◌, ◌*◌, Bool, false, [], ◌∷◌, ◌++◌, Option, none, some, Result, ok, err, ◌>>=◌, ◌>>◌, ensure,
  if◌then◌else◌, u64,
}
use qwen3_tts_native.Runtime.Types.{
  EngineConfig, GenerationConfig, RequestInput, RequestInputError, validate_input,
  samples_per_codec_frame,
}
use qwen3_tts_native.Runtime.Scheduler.Validate.{
  GenerationError, validate_config, validate_generation,
}
use qwen3_tts_native.Runtime.Scheduler.Slots.{SlotPool, new_pool, try_acquire, release}
use qwen3_tts_native.Runtime.Scheduler.Shared.{RequestShared, new_shared}
use qwen3_tts_native.Runtime.Scheduler.Handle.{
  SchedulerError, invalid_configuration, invalid_generation, invalid_input, full, closed,
  worker_not_spawned,
}
use qwen3_tts_native.Runtime.Scheduler.Backend.{Backend}
use qwen3_tts_native.Runtime.Scheduler.Worker.{Store, PendingStart, start, update}
use qwen3_tts_native.Runtime.Scheduler.Worker.Loop.{Loop}

pub record Scheduler (B : Backend) : Type 0 where
  pub config : EngineConfig
  pub loop : Loop B
  pub next_request_id : ℕ

abbrev map_err {ℓ} : {E F : Type 0} {A : Type ℓ} → (E → F) → Result E A → Result F A
map_err f (ok a) = ok a
map_err f (err e) = err (f e)

module _ {B : Backend} where
  -- `Scheduler::new`, with the store's entries before any request, and whether the worker's thread
  -- could be spawned. (Four commands for each request
  -- and eight more fit the channel, so the capacity cannot overflow for a valid configuration.)
  unfoldable pub new_scheduler :
      EngineConfig → B.State → Store → Bool → Result SchedulerError (Scheduler B)
  unfolding validate_config new_pool
  new_scheduler config backend store spawned = do
    _ ← map_err invalid_configuration (validate_config config)
    ensure spawned worker_not_spawned
    ok (record {
      config = config;
      loop = record {
        worker = record {
          store = store;
          slots = new_pool config.max_concurrent_requests;
          pending = [];
          active = [];
          backend = backend;
        };
        channel = [];
        stop = false;
      };
      next_request_id = 1;
    })

  -- The request's entry is made and its start is sent; to a worker that no longer receives the
  -- send fails, which drops the permit.
  unfoldable pub enqueue :
      Scheduler B
      → RequestInput
      → GenerationConfig
      → ℕ
      → Bool
      → SlotPool
      → Result SchedulerError ℕ × Scheduler B
  unfolding new_shared release
  enqueue s input generation now receiving slots =
      let id = s.next_request_id in
      let w = s.loop.worker in
      let pending : PendingStart = record {
        request = record { id = id; input = input; generation = generation };
        enqueued_at = now;
      } in
      let shared : RequestShared =
        new_shared id s.config.pcm_ring_slots (s.config.packet_frames * samples_per_codec_frame)
          now in
      if receiving
      then (
        ok id,
        record s {
          next_request_id = u64 (id + 1);
          loop = record (s.loop) {
            worker = record w { slots = slots; store = update w.store id (λ _. shared) };
            channel = s.loop.channel ++ start pending ∷ [];
          };
        },
      )
      else (
        err closed,
        record s {
          next_request_id = u64 (id + 1);
          loop = record (s.loop) { worker = record w { slots = release slots } };
        },
      )

  unfoldable pub admit :
      Scheduler B
      → RequestInput
      → GenerationConfig
      → ℕ
      → Bool
      → Option SlotPool
      → Result SchedulerError ℕ × Scheduler B
  unfolding enqueue
  admit s input generation now receiving none = (err full, s)
  admit s input generation now receiving (some slots) =
      enqueue s input generation now receiving slots

  unfoldable pub check_generation :
      Scheduler B
      → RequestInput
      → GenerationConfig
      → ℕ
      → Bool
      → Result GenerationError (Unit {0})
      → Result SchedulerError ℕ × Scheduler B
  unfolding admit try_acquire
  check_generation s input generation now receiving (err e) = (err (invalid_generation e), s)
  check_generation s input generation now receiving (ok _) =
      admit s input generation now receiving (try_acquire s.loop.worker.slots)

  unfoldable pub check_input :
      Scheduler B
      → RequestInput
      → GenerationConfig
      → ℕ
      → Bool
      → Result RequestInputError (Unit {0})
      → Result SchedulerError ℕ × Scheduler B
  unfolding check_generation validate_generation
  check_input s input generation now receiving (err e) = (err (invalid_input e), s)
  check_input s input generation now receiving (ok _) =
      check_generation s input generation now receiving (validate_generation generation)

  -- `Scheduler::start` at the time `now`; the handle is the request's id.
  unfoldable pub start_request :
      Scheduler B
      → RequestInput
      → GenerationConfig
      → ℕ
      → Bool
      → Result SchedulerError ℕ × Scheduler B
  unfolding check_input validate_input
  start_request s input generation now receiving =
      check_input s input generation now receiving (validate_input input s.config)
