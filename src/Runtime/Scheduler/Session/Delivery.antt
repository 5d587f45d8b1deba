-- ===== src/Runtime/Scheduler/Session/Delivery.antt =====
-- What a client and the worker can rely on in every interleaving.
use qwen3_tts_native.Base.{
  ℕ, ◌+◌, ◌≤◌, ◌≡◌, refl, true, false, List, [], ◌∷◌, ◌++◌, append-nil, length, some, ok, arith,
  u64,
}
use qwen3_tts_native.Runtime.Types.{FinishReason, RequestMetrics}
use qwen3_tts_native.Runtime.Scheduler.Shared.{
  Pcm, OwnedAudioPacket, RequestShared, take_pcm, push_packet,
}
use qwen3_tts_native.Runtime.Scheduler.Handle.{end_of_stream, poll_check}
use qwen3_tts_native.Runtime.Scheduler.Session.{World, init, Reach}
use qwen3_tts_native.Runtime.Scheduler.Session.Invariant.{Inv, Reach-Inv, closing, sample_total}

module _ (id slots samples started_at : ℕ) {w : World}
    (r : Reach (init id slots samples started_at) w) where
  -- Whatever the client does between the worker's check and its step, a request that was found
  -- eligible has a buffer to take.
  pub take_pcm_eligible :
      w.eligible ≡ true → (pcm : Pcm) × (s : RequestShared) × (take_pcm w.shared ≡ some (pcm, s))
  unfolding take_pcm
  take_pcm_eligible e = taken w.free_pcm refl (Reach-Inv id slots samples started_at r)
    where
      taken :
          (free : List Pcm)
          → w.free_pcm ≡ free
          → Inv slots w
          → (pcm : Pcm) × (s : RequestShared) × (take_pcm w.shared ≡ some (pcm, s))
      taken [] f v = absurd (ground arith)
      taken (pcm ∷ rest) f v = (pcm, record (w.shared) { free_pcm = rest }, ground arith)

  -- The queue never overflows: a packet in the buffer that the worker took is refused only because
  -- the client has cancelled.
  pub push_packet_refused :
      (p : OwnedAudioPacket) (m : RequestMetrics)
      → w.in_flight ≡ p.pcm ∷ []
      → (push_packet w.shared p m).1 ≡ false
      → w.cancel_requested ≡ true
  unfolding push_packet
  push_packet_refused p m f e =
      let v = Reach-Inv id slots samples started_at r in
      ground (arith, v.buffers, v.busy, v.capacity)

  -- The client has received a prefix of what the worker queued, in order and without a gap; what
  -- is queued comes next, and the poll counters count exactly the packets received.
  pub delivered_prefix :
      (w.delivered ++ (w.packets ++ w.lost) ≡ w.pushed)
      × (w.metrics.emitted_packets ≡ u64 (length w.delivered))
      × (w.metrics.emitted_samples ≡ u64 (sample_total w.delivered))
  delivered_prefix =
      let v = Reach-Inv id slots samples started_at r in (v.order, v.counted, v.sampled)

  -- Every PCM buffer of the request is in exactly one place, so the queue holds at most as many
  -- packets as the ring has slots.
  pub buffers_conserved :
      (length w.free_pcm + length w.packets + length w.in_flight + length w.held ≡ slots)
      × (length w.packets ≤ slots)
  buffers_conserved =
      let v = Reach-Inv id slots samples started_at r in (v.buffers, omega (arith, v.buffers))

  -- The stream ends for the client only after it has received every packet, and with the reason of
  -- the last one, which is final.
  pub end_of_stream_complete :
      (elapsed : ℕ) (last : FinishReason) (s : RequestShared)
      → poll_check w.shared elapsed ≡ (some (ok (end_of_stream last)), s)
      → (w.delivered ≡ w.pushed) × ((closing w.pushed).0 ≡ true) × ((closing w.pushed).1 ≡ last)
  unfolding poll_check
  end_of_stream_complete elapsed last s e =
      let v = Reach-Inv id slots samples started_at r in
      ground (arith, v.order, v.live, append-nil w.delivered)
