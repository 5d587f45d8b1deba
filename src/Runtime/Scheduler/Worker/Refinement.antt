-- ===== src/Runtime/Scheduler/Worker/Refinement.antt =====
-- What the worker does with a result of the backend follows the protocol of `Session`.
use qwen3_tts_native.Base.{
  ℕ, ◌≡◌, refl, Bool, true, false, [], ◌∷◌, Result, ok, err, arith, Bool-cases, inl, inr,
}
use qwen3_tts_native.Runtime.Types.{AudioPacketDescriptor, PacketError, RequestMetrics}
use qwen3_tts_native.Runtime.Request.{FloatOps, RequestRecord}
use qwen3_tts_native.Runtime.Scheduler.Shared.{
  BackendError, Message, Pcm, OwnedAudioPacket, RequestShared, push_packet, internal_error,
  frame_limit, packet_invariant, queue_overflowed,
}
use qwen3_tts_native.Runtime.Scheduler.Session.{
  World, Reach, next, perform, gives_back, pushes, fails,
}
use qwen3_tts_native.Runtime.Scheduler.Backend.{BackendPacket}
use qwen3_tts_native.Runtime.Scheduler.Worker.Accept.{
  describe, settle, refuse, after_queue, queue_packet, after_record, over_limit, after_validation,
  accept,
}

-- Some interleaving from `w₀` reaches a world in which the request is `s`.
abbrev pub Realises : World → RequestShared → Type 0
Realises origin s = (v : World) × Reach origin v × (v.shared ≡ s)

module _ {origin w : World} (reached : Reach origin w) (pcm : Pcm)
    (taken : w.in_flight ≡ pcm ∷ []) where
  refuse-Realises :
      (r : RequestRecord) (e : BackendError) → Realises origin (refuse r w.shared pcm e).1
  unfolding refuse perform
  refuse-Realises r e = (
    perform (perform w gives_back) (fails e),
    next (fails e) (next gives_back reached tt) (ground arith),
    ground arith,
  )

  after_queue-Realises :
      (r : RequestRecord) (p : OwnedAudioPacket) (m : RequestMetrics) (x : RequestShared × Bool)
      → p.pcm ≡ pcm
      → push_packet w.shared p m ≡ x
      → Realises origin (after_queue r x).1
  unfolding after_queue perform
  after_queue-Realises r p m (s, true) same e =
      (perform w (pushes p m), next (pushes p m) reached (ground arith), ground arith)
  after_queue-Realises r p m (s, false) same e = elim (Bool-cases s.cancel_requested) [
    | inl c ↦ (perform w (pushes p m), next (pushes p m) reached (ground arith), ground arith)
    | inr c ↦ (
      perform (perform w (pushes p m)) (fails (internal_error queue_overflowed)),
      next (fails (internal_error queue_overflowed)) (next (pushes p m) reached (ground arith))
          (ground arith),
      ground arith,
    )
  ]

  queue_packet-Realises :
      (r : RequestRecord) (p : BackendPacket) (d : AudioPacketDescriptor)
      → Realises origin (queue_packet r w.shared pcm p d).1
  unfolding queue_packet
  queue_packet-Realises r p d =
      after_queue-Realises r (record { descriptor = d; finish_reason = p.finish_reason; pcm = pcm })
        r.metrics _ refl refl

  module _ (fl : FloatOps) (packet_frames limit step_us elapsed : ℕ) (r : RequestRecord) where
    after_record-Realises :
        (p : BackendPacket) (d : AudioPacketDescriptor) (x : Result PacketError RequestRecord)
        → Realises origin (after_record r w.shared pcm p elapsed d x).1
    unfolding after_record
    after_record-Realises p d (err e) = refuse-Realises r (internal_error packet_invariant)
    after_record-Realises p d (ok r') = queue_packet-Realises (settle r' p elapsed) p d

    after_validation-Realises :
        (p : BackendPacket) (x : Result Message (Unit {0}))
        → Realises origin
            (after_validation fl packet_frames limit step_us elapsed r w.shared pcm p x).1
    unfolding after_validation
    after_validation-Realises p (err m) = refuse-Realises r (internal_error m)
    after_validation-Realises p (ok _) = elim (Bool-cases (over_limit r limit p)) [
      | inl e ↦ rw e (refuse-Realises r (internal_error frame_limit))
      | inr e ↦ rw e (after_record-Realises p (describe r p step_us) _)
    ]

    -- Whatever the backend returned for a request whose buffer the worker has taken, what the
    -- worker makes of the shared part is a run of the protocol's steps. So everything that holds in
    -- every reachable world holds after it.
    pub accept-Realises :
        (result : Result BackendError BackendPacket)
        → Realises origin (accept fl packet_frames limit step_us elapsed r w.shared pcm result).1
    unfolding accept
    accept-Realises (err e) = refuse-Realises r e
    accept-Realises (ok p) = after_validation-Realises p _
