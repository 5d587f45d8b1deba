-- ===== src/Native/Examples/Pool.antt =====
-- Sizes of sessions, a pool that is used, and a batch of requests.
use qwen3_tts_native.Base.{
  ℕ, ◌+◌, ◌%◌, ◌<◌, ◌≤◌, ◌≡◌, refl, ◌⊎◌, ◌↔◌, true, false, List, [], ◌∷◌, map, length, replicate,
  some, none, ok, is_ok, All, get_elem?, arith,
}
use qwen3_tts_native.Native.Pool.{
  session_capacity, PooledSession, smallest_adequate_session_index, Answers,
}
use qwen3_tts_native.Native.Pool.Capacity.{session_capacity-bounded, smallest-Least}
use qwen3_tts_native.Native.Pool.Handles.{acquires, ends, PoolOp, run_all, Inv}
use qwen3_tts_native.Native.Pool.Conserved.{new_ledger, pool-Inv}
use qwen3_tts_native.Native.Pump.{
  Turn, gather, batch_sessions, run_batch, requester, run_batch-gather,
}
use qwen3_tts_native.Native.Talker.{NativeDeviceFrameView}

session_capacity-bounded_example :
    (is_ok (session_capacity 32 40 1024) ≡ true ↔ (16 ≤ 1024) × (32 + 40 ≤ 1024))
    × ((size : ℕ)
        → session_capacity 32 40 1024 ≡ ok size
        → (32 + 40 ≤ size) × (16 ≤ size) × (size ≤ 1024) × ((size % 32 ≡ 0) ⊎ (size ≡ 1024)))
session_capacity-bounded_example =
    session_capacity-bounded 32 40 1024 (omega arith) (omega arith) (omega arith)

abbrev sized : ℕ → ℕ → PooledSession
sized h n = record { handle = h; max_sequence_length = n }

abbrev pool : List PooledSession
pool = sized 1 64 ∷ sized 2 256 ∷ sized 3 128 ∷ sized 4 192 ∷ []

chosen_test : smallest_adequate_session_index pool 100 ≡ some 2
unfolding smallest_adequate_session_index
chosen_test = refl

smallest-Least_example :
    (smallest_adequate_session_index pool 100 ≡ none → All (λ x. x.max_sequence_length < 100) pool)
    × ((i : ℕ)
        → smallest_adequate_session_index pool 100 ≡ some i
        → (e : PooledSession) × (get_elem? pool i ≡ some e)
          × (100 ≤ e.max_sequence_length)
          × All
              (λ x. 100 ≤ x.max_sequence_length → e.max_sequence_length ≤ x.max_sequence_length)
              pool)
smallest-Least_example = smallest-Least pool 100

abbrev creates : ℕ → ℕ → Answers
creates h n = record { reset_status = some 0; create = λ c. some (0, sized h n) }

-- Two sessions, one recycled and taken again, then not fit for reuse.
abbrev ops : List PoolOp
ops =
    acquires 64 (creates 10 64)
    ∷ acquires 32 (creates 11 32)
    ∷ ends 1 true
    ∷ acquires 60 (creates 12 64)
    ∷ ends 0 false
    ∷ []

pool-Inv_example : Inv (run_all ops new_ledger)
pool-Inv_example = pool-Inv ops

abbrev view : NativeDeviceFrameView
view = record {
  struct_size = 40;
  code_count = 16;
  device_codes = 64;
  ready_event = 65;
  lease_id = 1;
  device_index = 0;
  reserved = 0;
}

abbrev turn : ℕ → ℕ → Turn
turn n r = record { registered = n; arrival = some r }

abbrev turns : List Turn
turns = turn 3 8 ∷ turn 3 9 ∷ turn 3 10 ∷ []

gathered_test : gather turns (7 ∷ []) ≡ 7 ∷ 8 ∷ 9 ∷ []
unfolding gather
gathered_test = refl

views_test : length (replicate 3 view) ≡ length (batch_sessions (gather turns (7 ∷ [])))
unfolding gather batch_sessions
views_test = refl

run_batch-gather_example :
    let batch = gather turns (7 ∷ []) in
    (0 < length batch)
    × (length batch ≤ 8)
    × (batch_sessions batch ≡ batch)
    × (map requester (run_batch batch 0 (replicate 3 view)) ≡ batch)
run_batch-gather_example = run_batch-gather turns 7 0 (replicate 3 view) views_test
