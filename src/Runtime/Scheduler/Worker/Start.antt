-- ===== src/Runtime/Scheduler/Worker/Start.antt =====
-- scheduler.rs: `start_pending`, which hands the pending requests to the backend in one batch.
use qwen3_tts_native.Base.{
  ℕ, ◌-◌, List, [], ◌∷◌, ◌++◌, map, length, Option, none, some, Result, ok, err, ◌==◌,
  if◌then◌else◌,
}
use qwen3_tts_native.Runtime.Types.{prefilling, generating}
use qwen3_tts_native.Runtime.Request.{RequestRecord, TransitionError, new_record, transition}
use qwen3_tts_native.Runtime.Scheduler.Shared.{
  BackendError, start_panicked, wrong_start_count, internal_error, RequestShared, mark_cancelled,
  mark_failed, mark_prefilling, mark_generating, duration_microseconds,
}
use qwen3_tts_native.Runtime.Scheduler.Backend.{Backend, BackendStarted}
use qwen3_tts_native.Runtime.Scheduler.Worker.{
  Worker, PendingStart, is_cancel_requested, on_shared, retire,
}

-- `let _ = record.transition(next)`: a refused transition leaves the record as it was.
abbrev pub or_unchanged : RequestRecord → Result TransitionError RequestRecord → RequestRecord
or_unchanged r (ok r') = r'
or_unchanged r (err e) = r

-- The record of a request that the backend has started.
unfoldable pub started_record : ℕ → RequestShared → RequestRecord
unfolding new_record transition
started_record id s =
    let r = new_record id in
    let r' = or_unchanged r (transition r prefilling) in
    let r'' = or_unchanged r' (transition r' generating) in record r'' { metrics = s.metrics }

module _ {B : Backend} where
  open B use {State, Session}

  -- `pending.drain(..)`: the cancelled requests are retired, the others are returned in order.
  unfoldable pub drain_pending : List PendingStart → Worker B → List PendingStart × Worker B
  unfolding is_cancel_requested on_shared retire mark_cancelled
  drain_pending [] w = ([], w)
  drain_pending (p ∷ ps) w =
      let id = p.request.id in
      let gone = is_cancel_requested (w.store id) in
      let w' = if gone then retire (on_shared w id mark_cancelled) id else w in
      let (ready, w'') = drain_pending ps w' in (if gone then ready else p ∷ ready, w'')

  unfoldable pub mark_all_prefilling : ℕ → List PendingStart → Worker B → Worker B
  unfolding on_shared mark_prefilling
  mark_all_prefilling now [] w = w
  mark_all_prefilling now (p ∷ ps) w = mark_all_prefilling now ps (
      on_shared w p.request.id
        (λ s. mark_prefilling s (duration_microseconds (now - p.enqueued_at))))

  unfoldable pub fail_pending : BackendError → List PendingStart → Worker B → Worker B
  unfolding on_shared retire mark_failed
  fail_pending e [] w = w
  fail_pending e (p ∷ ps) w =
      let id = p.request.id in fail_pending e ps (retire (on_shared w id (λ s. mark_failed s e)) id)

  -- One element of the final loop of `start_pending`.
  unfoldable pub activate :
      PendingStart → Result BackendError (BackendStarted Session) → Worker B → Worker B
  unfolding on_shared retire mark_failed mark_generating started_record
  activate p (err e) w = let id = p.request.id in retire (on_shared w id (λ s. mark_failed s e)) id
  activate p (ok started) w =
      let id = p.request.id in
      let w' = on_shared w id (λ s.
        mark_generating s started.prefill_microseconds started.peak_request_device_bytes
          started.peak_request_host_bytes) in
      record w' {
        active =
            w'.active
            ++ record {
              session = some started.session;
              record_of = started_record id (w'.store id);
              started_at = p.enqueued_at;
              max_codec_frames = p.request.generation.max_codec_frames;
            }
              ∷ [];
      }

  -- `ready.into_iter().zip(results)`; the lists have the same length.
  unfoldable pub activate_all :
      List PendingStart → List (Result BackendError (BackendStarted Session)) → Worker B → Worker B
  unfolding activate
  activate_all [] results w = w
  activate_all (p ∷ ps) [] w = w
  activate_all (p ∷ ps) (r ∷ results) w = activate_all ps results (activate p r w)

  unfoldable pub finish_start :
      List PendingStart
      → Option (List (Result BackendError (BackendStarted Session)))
      → Worker B
      → Worker B
  unfolding fail_pending activate_all
  finish_start ready none w = fail_pending (internal_error start_panicked) ready w
  finish_start ready (some results) w =
      if length results == length ready
      then activate_all ready results w
      else fail_pending (internal_error wrong_start_count) ready w

  unfoldable pub start_ready : ℕ → List PendingStart → Worker B → Worker B
  unfolding mark_all_prefilling finish_start
  start_ready now [] w = w
  start_ready now (p ∷ ps) w =
      let ready = p ∷ ps in
      let w' = mark_all_prefilling now ready w in
      let (results, state) = B.start_batch w'.backend (map (λ q. q.request) ready) in
      finish_start ready results (record w' { backend = state })

  -- `start_pending` at the time `now`.
  unfoldable pub start_pending : ℕ → Worker B → Worker B
  unfolding drain_pending start_ready
  start_pending now w =
      let (ready, w') = drain_pending w.pending (record w { pending = [] }) in
      start_ready now ready w'
