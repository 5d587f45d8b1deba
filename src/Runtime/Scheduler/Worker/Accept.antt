-- ===== src/Runtime/Scheduler/Worker/Accept.antt =====
-- scheduler.rs: what the worker makes of one result of `step_batch`.
use qwen3_tts_native.Base.{
  bool_ne, ℕ, ◌*◌, max, Bool, true, false, not, ◌&&◌, ◌||◌, [], ◌∷◌, length, drop, Result, ok, err,
  ltb, ◌==◌, ◌!=◌, if◌then◌else◌, u32, sat_add64,
}
use qwen3_tts_native.Runtime.Types.{
  draining, is_final_reason, AudioPacketDescriptor, PacketError, RequestMetrics,
  samples_per_codec_frame, sample_rate_hz,
}
use qwen3_tts_native.Runtime.Request.{FloatOps, RequestRecord, record_packet, transition}
use qwen3_tts_native.Runtime.Scheduler.Shared.{
  BackendError, Message, Pcm, bad_frame_count, final_mismatch, pcm_too_long, pcm_overrun,
  frame_limit, packet_invariant, queue_overflowed, internal_error, RequestShared, recycle_pcm,
  push_packet, mark_failed,
}
use qwen3_tts_native.Runtime.Scheduler.Backend.{BackendPacket}
use qwen3_tts_native.Runtime.Scheduler.Worker.Start.{or_unchanged}

-- `i16::MIN`, as a pattern.
abbrev pub pcm_sentinel : ℕ
pcm_sentinel = 0x8000

abbrev pub any_written : Pcm → Bool
any_written [] = false
any_written (x ∷ xs) = (x != pcm_sentinel) || any_written xs

unfoldable pub validate_backend_packet : BackendPacket → ℕ → Pcm → Result Message (Unit {0})
validate_backend_packet p packet_frames pcm =
    let expected = p.codec_frames * samples_per_codec_frame in
    if (p.codec_frames == 0) || ltb packet_frames p.codec_frames
    then err bad_frame_count
    else if bool_ne p.is_final (is_final_reason p.finish_reason)
    then err final_mismatch
    else if ltb (length pcm) expected
    then err pcm_too_long
    else if any_written (drop expected pcm)
    then err pcm_overrun
    else ok tt

abbrev flag : Bool → ℕ
flag true = 1
flag false = 0

unfoldable pub describe : RequestRecord → BackendPacket → ℕ → AudioPacketDescriptor
describe r p step_us = record {
  request_id = r.id;
  sequence = r.next_packet_sequence;
  first_codec_frame = r.next_codec_frame;
  first_sample = r.next_sample;
  codec_frames = p.codec_frames;
  sample_count = u32 (p.codec_frames * samples_per_codec_frame);
  sample_rate = sample_rate_hz;
  channels = 1;
  is_final = flag p.is_final;
  reserved = 0;
  talker_gpu_microseconds = p.talker_gpu_microseconds;
  codec_gpu_microseconds = p.codec_gpu_microseconds;
  end_to_end_microseconds = step_us;
}

abbrev time_metrics : RequestMetrics → BackendPacket → ℕ → RequestMetrics
time_metrics m p elapsed = record m {
  first_codec_frame_microseconds =
      if m.first_codec_frame_microseconds == 0 then elapsed else m.first_codec_frame_microseconds;
  wall_microseconds = elapsed;
  peak_request_device_bytes = max m.peak_request_device_bytes p.peak_request_device_bytes;
  peak_request_host_bytes = max m.peak_request_host_bytes p.peak_request_host_bytes;
}

-- The record after an accepted packet: metrics, and `Draining` behind a final one.
unfoldable pub settle : RequestRecord → BackendPacket → ℕ → RequestRecord
unfolding transition
settle r p elapsed =
    let r' = record r { metrics = time_metrics r.metrics p elapsed } in
    if p.is_final then or_unchanged r' (transition r' draining) else r'

abbrev pub Outcome : Type 0
Outcome = RequestRecord × RequestShared

-- The buffer goes back and the request fails.
unfoldable pub refuse : RequestRecord → RequestShared → Pcm → BackendError → Outcome
unfolding recycle_pcm mark_failed
refuse r s pcm e = (r, mark_failed (recycle_pcm s pcm) e)

unfoldable pub after_queue : RequestRecord → RequestShared × Bool → Outcome
unfolding mark_failed
after_queue r (s, true) = (r, s)
after_queue r (s, false) =
    (r, if s.cancel_requested then s else mark_failed s (internal_error queue_overflowed))

unfoldable pub queue_packet :
    RequestRecord → RequestShared → Pcm → BackendPacket → AudioPacketDescriptor → Outcome
unfolding after_queue push_packet
queue_packet r s pcm p d = after_queue r (
    push_packet s (record { descriptor = d; finish_reason = p.finish_reason; pcm = pcm }) r.metrics)

unfoldable pub after_record :
    RequestRecord
    → RequestShared
    → Pcm
    → BackendPacket
    → ℕ
    → AudioPacketDescriptor
    → Result PacketError RequestRecord
    → Outcome
unfolding refuse settle queue_packet
after_record r s pcm p elapsed d (err e) = refuse r s pcm (internal_error packet_invariant)
after_record r s pcm p elapsed d (ok r') = queue_packet (settle r' p elapsed) s pcm p d

-- `next_frames > max || (next_frames == max && !is_final)`.
unfoldable pub over_limit : RequestRecord → ℕ → BackendPacket → Bool
over_limit r max_frames p =
    let next_frames = sat_add64 r.next_codec_frame p.codec_frames in
    ltb max_frames next_frames || ((next_frames == max_frames) && not p.is_final)

unfoldable pub after_validation :
    FloatOps
    → ℕ
    → ℕ
    → ℕ
    → ℕ
    → RequestRecord
    → RequestShared
    → Pcm
    → BackendPacket
    → Result Message (Unit {0})
    → Outcome
unfolding refuse over_limit describe after_record record_packet
after_validation fl packet_frames max_frames step_us elapsed r s pcm p (err m) =
    refuse r s pcm (internal_error m)
after_validation fl packet_frames max_frames step_us elapsed r s pcm p (ok _) =
    let d = describe r p step_us in
    if over_limit r max_frames p
    then refuse r s pcm (internal_error frame_limit)
    else after_record r s pcm p elapsed d (record_packet fl r d packet_frames)

-- The body of the last loop of `step_eligible`, for the request with the record `r`: the float
-- operations, `packet_frames`, `max_codec_frames`, the time of the step as a float, the request's
-- age in microseconds, its shared part, its buffer and the backend's result.
unfoldable pub accept :
    FloatOps
    → ℕ
    → ℕ
    → ℕ
    → ℕ
    → RequestRecord
    → RequestShared
    → Pcm
    → Result BackendError BackendPacket
    → Outcome
unfolding refuse after_validation validate_backend_packet
accept fl packet_frames max_frames step_us elapsed r s pcm (err e) = refuse r s pcm e
accept fl packet_frames max_frames step_us elapsed r s pcm (ok p) =
    after_validation fl packet_frames max_frames step_us elapsed r s pcm p
      (validate_backend_packet p packet_frames pcm)
