-- ===== src/Runtime/Scheduler/Worker/Limits.antt =====
-- One result of the backend: the frame limit, the packet invariant, and the protocol of the shared part.
use qwen3_tts_native.Base.{
  ℕ, ◌+◌, ◌<◌, ◌≤◌, ◌≡◌, refl, ap, u64, ◌⊎◌, inl, inr, true, false, ◌||◌, is_some, Result, ok, err,
  arith, Bool-cases,
}
use qwen3_tts_native.Runtime.Types.{PacketError, max_packet_frames, max_codec_frames}
use qwen3_tts_native.Runtime.Request.{
  FloatOps, RequestRecord, accepts_packets, record_packet, advance,
}
use qwen3_tts_native.Runtime.Request.Contiguity.{record_packet-Fits}
use qwen3_tts_native.Runtime.Scheduler.Shared.{
  BackendError, Message, Pcm, RequestShared, internal_error, frame_limit, packet_invariant,
}
use qwen3_tts_native.Runtime.Scheduler.Backend.{BackendPacket}
use qwen3_tts_native.Runtime.Scheduler.Worker.Accept.{
  Outcome, validate_backend_packet, describe, settle, refuse, queue_packet, after_record,
  over_limit, after_validation, accept,
}

-- A packet that passed the backend checks always fits the record of its request, if that is
-- generating or draining and the configured packet size is a valid one. So "scheduler packet
-- invariant failed" is not reported for such a request.
pub record_packet-describe :
    (fl : FloatOps) (r : RequestRecord) (p : BackendPacket) (packet_frames step_us : ℕ) (pcm : Pcm)
    → accepts_packets r.phase ≡ true
    → packet_frames ≤ max_packet_frames
    → validate_backend_packet p packet_frames pcm ≡ ok tt
    → record_packet fl r (describe r p step_us) packet_frames
      ≡ ok (advance fl r (describe r p step_us))
unfolding record_packet validate_backend_packet describe
record_packet-describe fl r p packet_frames step_us pcm accepts small valid = ground arith

-- The request takes part in no further step.
abbrev pub HasEnded : RequestShared → Type 0
HasEnded s = (s.cancel_requested || is_some s.failure || s.producer_finished) ≡ true

refuse-HasEnded :
    (r : RequestRecord) (s : RequestShared) (pcm : Pcm) (e : BackendError)
    → HasEnded (refuse r s pcm e).1
unfolding refuse
refuse-HasEnded r s pcm e = ground arith

-- `max` is the request's frame limit.
abbrev pub Advances : ℕ → RequestRecord → Outcome → Type 0
Advances limit r (r', s') =
    (r'.next_codec_frame ≤ limit)
    × (HasEnded s' ⊎ ((r.next_codec_frame < r'.next_codec_frame) × (r'.next_codec_frame < limit)))

settle-next_codec_frame :
    (r : RequestRecord) (p : BackendPacket) (elapsed : ℕ)
    → (settle r p elapsed).next_codec_frame ≡ r.next_codec_frame
unfolding settle
settle-next_codec_frame r p elapsed = ground arith

-- After `push_packet` the request goes on only if the packet was not final.
queue_packet-HasEnded :
    (r r' : RequestRecord) (s : RequestShared) (pcm : Pcm) (p : BackendPacket) (step_us : ℕ)
    → let o = queue_packet r' s pcm p (describe r p step_us) in
      (o.0 ≡ r') × (HasEnded o.1 ⊎ (p.is_final ≡ false))
unfolding queue_packet describe
queue_packet-HasEnded r r' s pcm p step_us = ground arith

module _ (fl : FloatOps) (packet_frames limit step_us elapsed : ℕ)
    (small : limit ≤ max_codec_frames) (r : RequestRecord) (below : r.next_codec_frame < limit)
    (s : RequestShared) (pcm : Pcm) where
  refuse-Advances : (e : BackendError) → Advances limit r (refuse r s pcm e)
  unfolding refuse
  refuse-Advances e = ground arith

  after_record-Advances :
      (p : BackendPacket) (x : Result PacketError RequestRecord)
      → record_packet fl r (describe r p step_us) packet_frames ≡ x
      → over_limit r limit p ≡ false
      → Advances limit r (after_record r s pcm p elapsed (describe r p step_us) x)
  unfolding after_record over_limit
  after_record-Advances p (err e) eq under = refuse-Advances (internal_error packet_invariant)
  after_record-Advances p (ok r') eq under =
      let (fits, step) = record_packet-Fits fl r r' (describe r p step_us) packet_frames eq in
      let positive : 0 < p.codec_frames = unfold describe in fits.some_frames in
      let moved : r'.next_codec_frame ≡ u64 (r.next_codec_frame + p.codec_frames) =
        unfold describe in ap (λ (x : RequestRecord). x.next_codec_frame) step in
      ground (
        arith,
        positive,
        moved,
        settle-next_codec_frame r' p elapsed,
        queue_packet-HasEnded r (settle r' p elapsed) s pcm p step_us,
      )

  after_validation-Advances :
      (p : BackendPacket) (x : Result Message (Unit {0}))
      → Advances limit r (after_validation fl packet_frames limit step_us elapsed r s pcm p x)
  unfolding after_validation
  after_validation-Advances p (err m) = refuse-Advances (internal_error m)
  after_validation-Advances p (ok _) = elim (Bool-cases (over_limit r limit p)) [
    | inl e ↦ rw e (refuse-Advances (internal_error frame_limit))
    | inr e ↦ rw e (after_record-Advances p _ refl e)
  ]

  -- For a request below its frame limit, which is a valid one, each result of the backend either
  -- ends the request or moves it strictly forward below the limit, and it never passes the limit.
  -- So a request takes at most `limit` steps.
  pub accept-Advances :
      (result : Result BackendError BackendPacket)
      → Advances limit r (accept fl packet_frames limit step_us elapsed r s pcm result)
  unfolding accept
  accept-Advances (err e) = refuse-Advances e
  accept-Advances (ok p) = after_validation-Advances p _
