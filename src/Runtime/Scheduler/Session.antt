-- ===== src/Runtime/Scheduler/Session.antt =====
-- scheduler.rs: one request between the worker and its client. Every method of `RequestShared` and
-- `RequestHandle` is one step under the state's lock, and the steps of the two sides interleave.
pub mod Invariant
pub mod Delivery
pub mod Cancelling
use qwen3_tts_native.Base.{
  ℕ, ◌+◌, ◌≡◌, Bool, true, false, ◌||◌, List, [], ◌∷◌, ◌++◌, length, Option, none, some, is_some,
  ◌!=◌, if◌then◌else◌, Result, ok, err,
}
use qwen3_tts_native.Runtime.Types.{FinishReason, no_reason, is_terminal, RequestMetrics}
use qwen3_tts_native.Runtime.Scheduler.Shared.{
  BackendError, Pcm, OwnedAudioPacket, RequestShared, pool_empty, internal_error, can_accept_packet,
  take_pcm, recycle_pcm, mark_prefilling, mark_generating, push_packet, mark_cancelled, mark_failed,
  mark_retired, new_shared,
}
use qwen3_tts_native.Runtime.Scheduler.Handle.{
  PollError, PollOutcome, packet, would_block, end_of_stream, poll_check, Cancellation, cancel,
}

-- The request, what each side holds of it, and its history: the packets that the worker queued,
-- those that the client received, and those that a cancellation or a failure discarded.
pub record World : Type 0 where
  pub shared : RequestShared
  pub open shared use *
  pub cancel_sent : Bool
  pub eligible : Bool
  pub in_flight : List Pcm
  pub held : List OwnedAudioPacket
  pub pushed : List OwnedAudioPacket
  pub delivered : List OwnedAudioPacket
  pub lost : List OwnedAudioPacket

pub data Action : Type 0 where
  -- The worker: `worker_loop_inner` finds the request eligible or not; `step_eligible` takes a
  -- buffer, which the backend fills, and gives it back or queues it in a packet.
  checks : Action
  takes : Pcm → Action
  gives_back : Action
  pushes : OwnedAudioPacket → RequestMetrics → Action
  fails : BackendError → Action
  aborts : Action
  prefills : ℕ → Action
  generates : ℕ → ℕ → ℕ → Action
  retires : Action
  -- The client.
  polls : ℕ → Action
  drops : List OwnedAudioPacket → OwnedAudioPacket → List OwnedAudioPacket → Action
  cancels : Bool → Action

-- After a step that empties the queue.
abbrev lose : World → RequestShared → World
lose w s = record w { shared = s; eligible = false; lost = w.packets ++ w.lost }

after_take : World → Pcm → Option (Pcm × RequestShared) → World
unfolding mark_failed
after_take w contents none = lose w (mark_failed w.shared (internal_error pool_empty))
after_take w contents (some (pcm, s)) = record w {
  shared = s;
  eligible = false;
  in_flight = contents ∷ [];
}

after_push : World → OwnedAudioPacket → RequestShared × Bool → World
after_push w p (s, queued) = record w {
  shared = s;
  in_flight = [];
  pushed = if queued then w.pushed ++ p ∷ [] else w.pushed;
}

after_poll : World → Option (Result PollError PollOutcome) × RequestShared → World
after_poll w (some (ok (packet p)), s) = record w {
  shared = s;
  held = w.held ++ p ∷ [];
  delivered = w.delivered ++ p ∷ [];
}
after_poll w (r, s) = record w { shared = s }

-- A first cancellation of a request that has not ended empties the queue.
after_cancel : World → Cancellation → World
after_cancel w c = record w {
  shared = c.shared;
  cancel_sent = c.cancel_sent;
  lost = if w.cancel_sent || is_terminal w.phase then w.lost else w.packets ++ w.lost;
}

after_give_back : World → List Pcm → World
unfolding recycle_pcm
after_give_back w [] = w
after_give_back w (pcm ∷ rest) = record w { shared = recycle_pcm w.shared pcm; in_flight = rest }

unfoldable pub perform : World → Action → World
unfolding after_take after_push after_poll after_cancel after_give_back
perform w checks = record w { eligible = can_accept_packet w.shared }
perform w (takes contents) = after_take w contents (take_pcm w.shared)
perform w gives_back = after_give_back w w.in_flight
perform w (pushes p m) = after_push w p (push_packet w.shared p m)
perform w (fails e) = lose w (mark_failed w.shared e)
perform w aborts = lose w (mark_cancelled w.shared)
perform w (prefills us) = record w { shared = mark_prefilling w.shared us }
perform w (generates a b c) = record w { shared = mark_generating w.shared a b c }
perform w retires = record w { shared = mark_retired w.shared }
perform w (polls elapsed) = after_poll w (poll_check w.shared elapsed)
perform w (drops before p rest) = record w {
  shared = recycle_pcm w.shared p.pcm;
  held = before ++ rest;
}
perform w (cancels receiving) = after_cancel w (cancel receiving w.cancel_sent w.shared)

-- When the worker and the client can make a step. The worker checks a request only while no step
-- of it is under way and no final packet is queued (`remove_finished`); it takes a buffer only for
-- a request that it found eligible; it queues the buffer that it took.
abbrev pub Enabled : World → Action → Type 0
Enabled w checks = (w.in_flight ≡ []) × (w.producer_finished ≡ false)
Enabled w (takes contents) = w.eligible ≡ true
Enabled w gives_back = Unit
Enabled w (pushes p m) = w.in_flight ≡ p.pcm ∷ []
Enabled w (fails e) = w.in_flight ≡ []
Enabled w aborts = w.in_flight ≡ []
Enabled w (prefills us) = Unit
Enabled w (generates a b c) = Unit
Enabled w retires = Unit
Enabled w (polls elapsed) = Unit
Enabled w (drops before p rest) = w.held ≡ before ++ p ∷ rest
Enabled w (cancels receiving) = Unit

-- A new request, before the worker has seen it.
unfoldable pub init : ℕ → ℕ → ℕ → ℕ → World
unfolding new_shared
init id packet_capacity packet_samples started_at = record {
  shared = new_shared id packet_capacity packet_samples started_at;
  cancel_sent = false;
  eligible = false;
  in_flight = [];
  held = [];
  pushed = [];
  delivered = [];
  lost = [];
}

-- The worlds that some interleaving of the two sides reaches.
pub data Reach (w : World) : World → Type 0 where
  start : Reach w w
  next : {v : World} (a : Action) → Reach w v → Enabled v a → Reach w (perform v a)
