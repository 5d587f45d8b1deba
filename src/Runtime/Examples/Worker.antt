-- ===== src/Runtime/Examples/Worker.antt =====
-- A worker with a request that runs, one that waits and one whose start is still in the channel.
use qwen3_tts_native.Base.{
  ℕ, ◌+◌, ◌≤◌, ◌≡◌, refl, true, false, [], ◌∷◌, All, map, length, replicate, none, some, ok, arith,
}
use qwen3_tts_native.Runtime.Types.{
  generating, codec_eos, engine_config_default, generation_config_default, RequestInput, Language,
}
use qwen3_tts_native.Runtime.Request.{RequestRecord, new_record, record_packet, advance}
use qwen3_tts_native.Runtime.Scheduler.Validate.{validate_config}
use qwen3_tts_native.Runtime.Scheduler.Slots.{new_pool}
use qwen3_tts_native.Runtime.Scheduler.Shared.{
  Pcm, RequestShared, new_shared, mark_cancelled, mark_retired,
}
use qwen3_tts_native.Runtime.Scheduler.Worker.{
  Store, PendingStart, start, cancel, Worker, ActiveRequest, update, is_cancel_requested,
  is_finished, remove_cancelled, remove_finished, remove_loop, cancel_session, on_shared, retire,
  swap_remove, drop_last, last_or,
}
use qwen3_tts_native.Runtime.Scheduler.Worker.Walk.{Removes}
use qwen3_tts_native.Runtime.Scheduler.Worker.Removal.{remove_cancelled-Removes}
use qwen3_tts_native.Runtime.Scheduler.Worker.Loop.{Loop, Tick, worker_loop_inner, shut_down}
use qwen3_tts_native.Runtime.Scheduler.Worker.Front.{Scheduler, new_scheduler, start_request}
use qwen3_tts_native.Runtime.Scheduler.Worker.Accept.{validate_backend_packet, describe, accept}
use qwen3_tts_native.Runtime.Scheduler.Worker.Limits.{
  Advances, accept-Advances, record_packet-describe,
}
use qwen3_tts_native.Runtime.Scheduler.Worker.Balance.{permits_in}
use qwen3_tts_native.Runtime.Scheduler.Worker.Admission.{Balanced, worker_loop_inner-bounded}
use qwen3_tts_native.Runtime.Scheduler.Worker.Answer.{Answers, start_request-Answers}
use qwen3_tts_native.Runtime.Scheduler.Worker.Ending.{
  IsEndedAt, IsStartEnded, shut_down-IsEnded, shut_down_releases,
}
use qwen3_tts_native.Runtime.Examples.{floats, backend, one_frame}

abbrev running : RequestRecord
running = record (new_record 7) { phase = generating }

abbrev shared : RequestShared
shared = new_shared 7 2 1920 0

abbrev pcm : Pcm
pcm = replicate 1920 5

record_packet-describe_example :
    record_packet floats running (describe running (one_frame true codec_eos) 0) 4
    ≡ ok (advance floats running (describe running (one_frame true codec_eos) 0))
unfolding validate_backend_packet new_record
record_packet-describe_example =
    record_packet-describe floats running (one_frame true codec_eos) 4 0 pcm refl (omega arith) refl

accept-Advances_example :
    Advances 8 running (accept floats 4 8 0 9 running shared pcm (ok (one_frame true codec_eos)))
unfolding new_record
accept-Advances_example =
    accept-Advances floats 4 8 0 9 (omega arith) running (omega arith) shared pcm
      (ok (one_frame true codec_eos))

abbrev input : RequestInput
input = record { text = 72 ∷ 105 ∷ []; instruct = []; language = Language.auto }

abbrev pending : ℕ → PendingStart
pending id = record {
  request = record { id = id; input = input; generation = generation_config_default };
  enqueued_at = 0;
}

abbrev store : Store
store = λ id. new_shared id 2 1920 0

abbrev busy : Loop backend
busy = record {
  worker = record {
    store = store;
    slots = record { capacity = 4; used = 3 };
    pending = pending 8 ∷ [];
    active =
        record { session = some 7; record_of = running; started_at = 0; max_codec_frames = 8 } ∷ [];
    backend = 0;
  };
  channel = cancel 8 ∷ start (pending 9) ∷ [];
  stop = false;
}

busy-Balanced : Balanced 4 busy
busy-Balanced = record { capacity = refl; used = refl; within = omega arith }

shut_down-IsEnded_example :
    All (λ a. IsEndedAt (shut_down none busy) a.record_of.id) busy.worker.active
    × All (λ p. IsEndedAt (shut_down none busy) p.request.id) busy.worker.pending
    × All (IsStartEnded (shut_down none busy).store) busy.channel
shut_down-IsEnded_example = shut_down-IsEnded none busy

shut_down_releases_example :
    ((shut_down none busy).pending ≡ [])
    × ((shut_down none busy).active ≡ [])
    × ((shut_down none busy).slots.used ≡ 0)
    × ((shut_down none busy).slots.capacity ≡ 4)
shut_down_releases_example = shut_down_releases none 4 busy busy-Balanced

abbrev scheduler : Scheduler backend
scheduler = record { config = engine_config_default; loop = busy; next_request_id = 10 }

start_request-Answers_example :
    Balanced 4 (start_request scheduler input generation_config_default 3 true).1.loop
    × Answers scheduler input generation_config_default 3 true
        (start_request scheduler input generation_config_default 3 true)
start_request-Answers_example =
    start_request-Answers scheduler input generation_config_default 3 true 4 busy-Balanced

abbrev fresh : Scheduler backend
fresh = record {
  config = engine_config_default;
  loop = record {
    worker = record {
      store = store;
      slots = record { capacity = engine_config_default.max_concurrent_requests; used = 0 };
      pending = [];
      active = [];
      backend = 0;
    };
    channel = [];
    stop = false;
  };
  next_request_id = 1;
}

is_fresh : new_scheduler engine_config_default 0 store true ≡ ok fresh
unfolding new_scheduler validate_config new_pool
is_fresh = refl

-- A round in which a start arrives while the worker is idle.
abbrev tick : Tick
tick = record {
  shutdown_before = false;
  shutdown_after = false;
  idle_arrivals = record { clients = λ s. s; command = start (pending 1) } ∷ [];
  drain_arrivals = [];
  window_arrivals = [];
  wait_arrivals = [];
  disconnected = false;
  window_receives = 1;
  start_now = 1;
  step_began = 2;
  step_now = 3;
  clients = λ i s. s;
}

abbrev last_loop : Loop backend
last_loop = worker_loop_inner floats engine_config_default (tick ∷ []) fresh.loop

abbrev present : ℕ
present =
    length last_loop.worker.pending + length last_loop.worker.active + permits_in last_loop.channel

worker_loop_inner-bounded_example :
    (last_loop.worker.slots.used ≡ present)
    × (present ≤ engine_config_default.max_concurrent_requests)
    × (present ≤ 6)
worker_loop_inner-bounded_example =
    worker_loop_inner-bounded floats engine_config_default 0 store true fresh (tick ∷ []) is_fresh

abbrev running_as : ℕ → ActiveRequest (backend.Session)
running_as id = record {
  session = some id;
  record_of = new_record id;
  started_at = 0;
  max_codec_frames = 8;
}

-- Of three active requests the first is cancelled; the last takes its place.
abbrev cancelled_first : Worker backend
cancelled_first = record (busy.worker) {
  store = update store 5 mark_cancelled;
  active = running_as 5 ∷ running_as 6 ∷ running_as 7 ∷ [];
}

remove_cancelled-Removes_example :
    Removes is_cancel_requested cancelled_first (remove_cancelled cancelled_first)
    × Removes is_finished cancelled_first (remove_finished cancelled_first)
remove_cancelled-Removes_example = remove_cancelled-Removes cancelled_first

two_left : map (λ a. a.record_of.id) (remove_cancelled cancelled_first).active ≡ 7 ∷ 6 ∷ []
unfolding remove_cancelled remove_loop is_cancel_requested cancel_session on_shared retire
    swap_remove drop_last last_or mark_cancelled mark_retired new_record new_shared
two_left = refl
