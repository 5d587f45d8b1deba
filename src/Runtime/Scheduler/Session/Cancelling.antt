-- ===== src/Runtime/Scheduler/Session/Cancelling.antt =====
-- scheduler.rs: a request after `RequestHandle::cancel`, in every interleaving.
use qwen3_tts_native.Base.{
  ℕ, ◌≡◌, Bool, true, false, List, [], ◌∷◌, Option, none, some, err, if◌then◌else◌, arith,
}
use qwen3_tts_native.Runtime.Types.{is_terminal}
use qwen3_tts_native.Runtime.Scheduler.Shared.{
  BackendError, OwnedAudioPacket, can_accept_packet, take_pcm, recycle_pcm, mark_prefilling,
  mark_generating, push_packet, mark_cancelled, mark_failed, mark_retired, drop_packets,
}
use qwen3_tts_native.Runtime.Scheduler.Handle.{
  PollError, was_cancelled, has_failed, Wait, poll, poll_check, cancel,
}
use qwen3_tts_native.Runtime.Scheduler.Session.{
  World, Action, checks, takes, gives_back, pushes, fails, aborts, prefills, generates, retires,
  polls, drops, cancels, perform, Reach, start, next,
}

-- Cancelled, with these histories of packets queued and received.
record Stays (pushed delivered : List OwnedAudioPacket) (w : World) : Type 0 where
  requested : w.cancel_requested ≡ true
  none_queued : w.packets ≡ []
  none_pushed : w.pushed ≡ pushed
  none_delivered : w.delivered ≡ delivered

module _ (pushed delivered : List OwnedAudioPacket) where
  perform-Stays :
      (w : World) (a : Action) → Stays pushed delivered w → Stays pushed delivered (perform w a)
  unfolding perform can_accept_packet take_pcm push_packet poll_check recycle_pcm cancel
      drop_packets mark_prefilling mark_generating mark_cancelled mark_failed mark_retired
  perform-Stays w checks v = ground arith
  perform-Stays w (takes p) v = ground arith
  perform-Stays w gives_back v = ground arith
  perform-Stays w (pushes p m) v = ground arith
  perform-Stays w (fails e) v = ground arith
  perform-Stays w aborts v = ground arith
  perform-Stays w (prefills us) v = ground arith
  perform-Stays w (generates a b c) v = ground arith
  perform-Stays w retires v = ground arith
  perform-Stays w (polls us) v = ground arith
  perform-Stays w (drops before p rest) v = ground arith
  perform-Stays w (cancels receiving) v = ground arith

  Reach-Stays : {w v : World} → Reach w v → Stays pushed delivered w → Stays pushed delivered v
  Reach-Stays start h = h
  Reach-Stays (next a r e) h = perform-Stays _ a (Reach-Stays r h)

cancels-Stays :
    (w : World) (receiving : Bool)
    → w.cancel_sent ≡ false
    → is_terminal w.phase ≡ false
    → Stays w.pushed w.delivered (perform w (cancels receiving))
unfolding perform cancel
cancels-Stays w receiving s p = ground (arith, s, p)

-- The answer to a poll of a cancelled request: a failure comes first.
abbrev pub refusal : Option BackendError → PollError
refusal none = was_cancelled
refusal (some e) = has_failed e

poll-refusal :
    (w : World) (elapsed : ℕ) (zero_timeout : Bool) (deadline : Option ℕ) (ws : List Wait)
    → w.cancel_requested ≡ true
    → poll w.shared elapsed zero_timeout deadline ws ≡ (some (err (refusal w.failure)), w.shared)
unfolding poll poll_check
poll-refusal w elapsed zero_timeout deadline [] h = ground (arith, h)
poll-refusal w elapsed zero_timeout deadline (x ∷ ws) h = ground (arith, h)

-- The first cancellation by its handle of a request that has not ended tells the worker, if that
-- still receives. After it, whatever the worker and the client do, nothing is queued, the worker
-- queues no further packet and the client receives none; and every poll answers at once, changing
-- nothing: that the request failed, if it has by then, and else that it was cancelled.
pub poll-cancels :
    (w v : World) (receiving : Bool)
    → w.cancel_sent ≡ false
    → is_terminal w.phase ≡ false
    → Reach (perform w (cancels receiving)) v
    → (elapsed : ℕ) (zero_timeout : Bool) (deadline : Option ℕ) (ws : List Wait)
    → ((cancel receiving w.cancel_sent w.shared).command ≡ (if receiving then some w.id else none))
      × (v.packets ≡ [])
      × (v.pushed ≡ w.pushed)
      × (v.delivered ≡ w.delivered)
      × (poll v.shared elapsed zero_timeout deadline ws
          ≡ (some (err (refusal v.failure)), v.shared))
unfolding cancel
poll-cancels w v receiving s p r elapsed zero_timeout deadline ws =
    let h = Reach-Stays w.pushed w.delivered r (cancels-Stays w receiving s p) in
    (
      ground (arith, s, p),
      h.none_queued,
      h.none_pushed,
      h.none_delivered,
      poll-refusal v elapsed zero_timeout deadline ws h.requested,
    )
