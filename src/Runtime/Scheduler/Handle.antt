-- ===== src/Runtime/Scheduler/Handle.antt =====
-- scheduler.rs: `RequestHandle`, the client's side of a request: polling, cancelling, waiting.
pub mod Waiting
use qwen3_tts_native.Base.{
  ℕ, ◌+◌, Bool, true, false, not, ◌&&◌, ◌||◌, List, [], ◌∷◌, is_empty, Option, none, some, is_some,
  Result, ok, err, leb, ◌==◌, ◌!=◌, if◌then◌else◌, u64,
}
use qwen3_tts_native.Runtime.Types.{
  RequestPhase, completed, cancelled, is_terminal, FinishReason, no_reason, RequestInputError,
}
use qwen3_tts_native.Runtime.Scheduler.Validate.{ConfigError, GenerationError}
use qwen3_tts_native.Runtime.Scheduler.Shared.{
  BackendError, OwnedAudioPacket, RequestShared, drop_packets, duration_microseconds,
}

pub data PollError : Type 0 where
  was_cancelled : PollError
  has_failed : BackendError → PollError

pub data PollOutcome : Type 0 where
  packet : OwnedAudioPacket → PollOutcome
  would_block : PollOutcome
  end_of_stream : FinishReason → PollOutcome

abbrev is_cancelled : RequestPhase → Bool
is_cancelled cancelled = true
is_cancelled _ = false

-- The state after a poll has taken `p` and left `rest`.
abbrev pub deliver : RequestShared → OwnedAudioPacket → List OwnedAudioPacket → ℕ → RequestShared
deliver s p rest elapsed = record s {
  state = record (s.state) {
    packets = rest;
    phase =
        if (p.descriptor.is_final != 0)
          && is_empty rest
          && not (is_some s.failure)
          && not s.cancel_requested
        then completed
        else s.phase;
    metrics = record (s.metrics) {
      emitted_samples = u64 (s.metrics.emitted_samples + p.descriptor.sample_count);
      emitted_packets = u64 (s.metrics.emitted_packets + 1);
      first_audio_microseconds =
          if s.metrics.first_audio_microseconds == 0
          then duration_microseconds elapsed
          else s.metrics.first_audio_microseconds;
    };
  };
}

-- One round of the loop of `poll` under the lock; `none` when it has to wait.
unfoldable pub poll_check :
    RequestShared → ℕ → Option (Result PollError PollOutcome) × RequestShared
poll_check s elapsed = elim s.failure [
  | some e ↦ (some (err (has_failed e)), s)
  | none ↦
      if s.cancel_requested || is_cancelled s.phase
      then (some (err was_cancelled), s)
      else elim s.packets [
        | p ∷ rest ↦ (some (ok (packet p)), deliver s p rest elapsed)
        | [] ↦
            if s.producer_finished
            then (
              some (ok (end_of_stream s.finish_reason)),
              record s { state = record (s.state) { phase = completed } },
            )
            else (none, s)
      ]
]

-- What happens between two rounds: the clock before the wait, what other threads did to the
-- request meanwhile, whether the wait timed out, and the request's age after it.
pub record Wait : Type 0 where
  pub now : ℕ
  pub others : RequestShared → RequestShared
  pub timed_out : Bool
  pub elapsed : ℕ

abbrev pub PollResult : Type 0
PollResult = Option (Result PollError PollOutcome) × RequestShared

abbrev blocked : RequestShared → PollResult
blocked s = (some (ok would_block), s)

abbrev deadline_passed : Option ℕ → ℕ → Bool
deadline_passed none now = true
deadline_passed (some d) now = leb d now

-- The answer of a round, or what follows if it has to wait and may.
abbrev or_wait : PollResult → Bool → (RequestShared → PollResult) → PollResult
or_wait (some r, s) timeout_is_zero wait = (some r, s)
or_wait (none, s) timeout_is_zero wait = if timeout_is_zero then blocked s else wait s

-- `RequestHandle::poll` over the waits that the environment grants; the answer is `none` while the
-- call still waits. `deadline` is `Instant::now().checked_add(timeout)`.
unfoldable pub poll : RequestShared → ℕ → Bool → Option ℕ → List Wait → PollResult
unfolding poll_check
poll s elapsed zero_timeout deadline [] =
    or_wait (poll_check s elapsed) zero_timeout (λ s'. (none, s'))
poll s elapsed zero_timeout deadline (w ∷ ws) = or_wait (poll_check s elapsed) zero_timeout λ s'.
    let s'' = w.others s' in
    let again = poll s'' w.elapsed zero_timeout deadline ws in
    if deadline_passed deadline w.now
    then blocked s'
    else if w.timed_out
    then blocked s''
    else again

-- `RequestShared::wait_retired`; the answer is `none` while the call still waits.
unfoldable pub wait_retired : RequestShared → Option ℕ → List Wait → Option Bool × RequestShared
wait_retired s deadline [] = if s.retired then (some true, s) else (none, s)
wait_retired s deadline (w ∷ ws) =
    let s' = w.others s in
    let again = wait_retired s' deadline ws in
    if s.retired
    then (some true, s)
    else if deadline_passed deadline w.now
    then (some false, s)
    else if w.timed_out && not s'.retired
    then (some false, s')
    else again

pub data SchedulerError : Type 0 where
  invalid_configuration : ConfigError → SchedulerError
  invalid_generation : GenerationError → SchedulerError
  invalid_input : RequestInputError → SchedulerError
  full closed worker_not_spawned : SchedulerError

-- `RequestHandle::cancel`, and so the handle's `drop`: the new `cancel_sent`, the request, the
-- `Command::Cancel` that is sent, and the result. `open` says whether the worker still receives.
pub record Cancellation : Type 0 where
  pub cancel_sent : Bool
  pub shared : RequestShared
  pub command : Option ℕ
  pub result : Result SchedulerError (Unit {0})

unfoldable pub cancel : Bool → Bool → RequestShared → Cancellation
unfolding drop_packets
cancel receiving true s = record { cancel_sent = true; shared = s; command = none; result = ok tt }
cancel receiving false s =
    if is_terminal s.phase
    then record { cancel_sent = true; shared = s; command = none; result = ok tt }
    else record {
      cancel_sent = true;
      shared = record s {
        state = record (s.state) {
          cancel_requested = true;
          finish_reason = no_reason;
          packets = [];
        };
        free_pcm = drop_packets s.packets s.free_pcm;
      };
      command = if receiving then some s.id else none;
      result = if receiving then ok tt else err closed;
    }

-- `RequestHandle::cancel_and_wait` over the waits that the environment grants.
unfoldable pub cancel_and_wait :
    Bool
    → Bool
    → RequestShared
    → Option ℕ
    → List Wait
    → Result SchedulerError (Option Bool) × RequestShared
unfolding cancel wait_retired
cancel_and_wait receiving sent s deadline ws =
    let c = cancel receiving sent s in
    let (answer, s') = wait_retired c.shared deadline ws in
    elim c.result [ ok _ ↦ (ok answer, s') | err e ↦ (err e, c.shared) ]
