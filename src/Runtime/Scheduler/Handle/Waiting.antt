-- ===== src/Runtime/Scheduler/Handle/Waiting.antt =====
-- scheduler.rs: `RequestHandle::poll` and `RequestShared::wait_retired`, over the waits of a call.
use qwen3_tts_native.Base.{
  ℕ, ◌≡◌, refl, ◌⊎◌, inl, inr, Bool, true, false, List, [], ◌∷◌, Option, none, some, is_some, arith,
}
use qwen3_tts_native.Runtime.Scheduler.Shared.{RequestShared}
use qwen3_tts_native.Runtime.Scheduler.Handle.{
  Wait, PollResult, deadline_passed, poll, poll_check, wait_retired, or_wait,
}

-- Some wait ends the call: the deadline has passed before it, or it times out.
abbrev pub Expires : Option ℕ → List Wait → Type 0
Expires deadline [] = ⊥
Expires deadline (w ∷ ws) =
    (deadline_passed deadline w.now ≡ true) ⊎ (w.timed_out ≡ true) ⊎ Expires deadline ws

or_wait-is_some :
    (x : PollResult) (zero_timeout : Bool) (wait : RequestShared → PollResult)
    → ((s : RequestShared) → is_some (wait s).0 ≡ true)
    → is_some (or_wait x zero_timeout wait).0 ≡ true
or_wait-is_some (some r, s) zero_timeout wait h = refl
or_wait-is_some (none, s) true wait h = refl
or_wait-is_some (none, s) false wait h = h s

-- `poll` answers as soon as the deadline passes or a wait times out, whatever others do meanwhile.
poll_answers :
    (s : RequestShared) (elapsed : ℕ) (zero_timeout : Bool) (deadline : Option ℕ) (ws : List Wait)
    → Expires deadline ws
    → is_some (poll s elapsed zero_timeout deadline ws).0 ≡ true
unfolding poll
poll_answers s elapsed zero_timeout deadline [] h = elim h [ ]
poll_answers s elapsed zero_timeout deadline (w ∷ ws) (inl e) =
    or_wait-is_some (poll_check s elapsed) zero_timeout _ (λ s'. rw e)
poll_answers s elapsed zero_timeout deadline (w ∷ ws) (inr (inl e)) =
    or_wait-is_some (poll_check s elapsed) zero_timeout _ (λ s'. rw e (ground arith))
poll_answers s elapsed zero_timeout deadline (w ∷ ws) (inr (inr h)) =
    or_wait-is_some (poll_check s elapsed) zero_timeout _
      (λ s'. ground (arith, poll_answers (w.others s') w.elapsed zero_timeout deadline ws h))

wait_retired_at_once :
    (s : RequestShared) (deadline : Option ℕ) (ws : List Wait)
    → (s.retired ≡ false) ⊎ (is_some (wait_retired s deadline ws).0 ≡ true)
unfolding wait_retired
wait_retired_at_once s deadline [] = ground arith
wait_retired_at_once s deadline (w ∷ ws) = ground arith

-- `wait_retired` answers as soon as the deadline passes or a wait times out.
wait_retired_answers :
    (s : RequestShared) (deadline : Option ℕ) (ws : List Wait)
    → Expires deadline ws
    → is_some (wait_retired s deadline ws).0 ≡ true
unfolding wait_retired
wait_retired_answers s deadline [] h = elim h [ ]
wait_retired_answers s deadline (w ∷ ws) (inl e) = ground arith
wait_retired_answers s deadline (w ∷ ws) (inr (inl e)) =
    ground (arith, wait_retired_at_once (w.others s) deadline ws)
wait_retired_answers s deadline (w ∷ ws) (inr (inr h)) =
    ground (arith, wait_retired_answers (w.others s) deadline ws h)
