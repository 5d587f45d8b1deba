-- ===== src/Runtime/Request.antt =====
-- native/qwen3-tts-runtime/src/request.rs: the phase machine of one request, the packets that it
-- records, and the bounded packet queue.
pub mod Phases
pub mod Contiguity
pub mod Queue
use qwen3_tts_native.Base.{
  ℕ, ◌+◌, ◌≡◌, Bool, true, false, ◌||◌, List, [], ◌∷◌, ◌++◌, length, Option, none, some, Result, ok,
  err, ◌>>=◌, ◌!=◌, ◌==◌, if◌then◌else◌, u64,
}
use qwen3_tts_native.Runtime.Types.{
  RequestPhase, queued, prefilling, generating, draining, completed, cancelled, failed,
  RequestMetrics, metrics_default, AudioPacketDescriptor, PacketError, not_accepting, wrong_request,
  sequence_gap, frame_gap, sample_gap, validate_packet,
}

-- The float arithmetic that the metrics need: `f64 + f64`, `f64::from(f32)` and `u64 as f32`.
pub record FloatOps : Type 0 where
  pub add : ℕ → ℕ → ℕ
  pub widen : ℕ → ℕ
  pub from_u64 : ℕ → ℕ

pub record TransitionError : Type 0 where
  pub from_phase : RequestPhase
  pub to_phase : RequestPhase

pub record RequestRecord : Type 0 where
  pub id : ℕ
  pub phase : RequestPhase
  pub next_packet_sequence : ℕ
  pub next_codec_frame : ℕ
  pub next_sample : ℕ
  pub metrics : RequestMetrics

-- `RequestRecord::new`.
unfoldable pub new_record : ℕ → RequestRecord
new_record id = record {
  id = id;
  phase = queued;
  next_packet_sequence = 0;
  next_codec_frame = 0;
  next_sample = 0;
  metrics = metrics_default;
}

-- The table of `RequestRecord::transition`.
unfoldable pub allowed : RequestPhase → RequestPhase → Bool
allowed queued prefilling = true
allowed queued cancelled = true
allowed queued failed = true
allowed prefilling generating = true
allowed prefilling cancelled = true
allowed prefilling failed = true
allowed generating draining = true
allowed generating completed = true
allowed generating cancelled = true
allowed generating failed = true
allowed draining completed = true
allowed draining cancelled = true
allowed draining failed = true
allowed _ _ = false

unfoldable pub transition : RequestRecord → RequestPhase → Result TransitionError RequestRecord
unfolding allowed
transition r next =
    if allowed r.phase next
    then ok (record r { phase = next })
    else err (record { from_phase = r.phase; to_phase = next })

-- `matches!(self.phase, Generating | Draining)`.
abbrev pub accepts_packets : RequestPhase → Bool
accepts_packets generating = true
accepts_packets draining = true
accepts_packets _ = false

-- The counters and metrics after a packet that passed every test.
abbrev pub advance : FloatOps → RequestRecord → AudioPacketDescriptor → RequestRecord
advance fl r p = record r {
  next_packet_sequence = u64 (r.next_packet_sequence + 1);
  next_codec_frame = u64 (r.next_codec_frame + p.codec_frames);
  next_sample = u64 (r.next_sample + p.sample_count);
  metrics = record (r.metrics) {
    generated_codec_frames = u64 (r.metrics.generated_codec_frames + p.codec_frames);
    talker_gpu_microseconds =
        fl.add r.metrics.talker_gpu_microseconds (fl.widen p.talker_gpu_microseconds);
    codec_gpu_microseconds =
        fl.add r.metrics.codec_gpu_microseconds (fl.widen p.codec_gpu_microseconds);
  };
}

-- The tests of `RequestRecord::record_packet` after the descriptor's own validation.
unfoldable pub check_position :
    FloatOps → RequestRecord → AudioPacketDescriptor → Result PacketError RequestRecord
check_position fl r p =
    if p.request_id != r.id
    then err wrong_request
    else if p.sequence != r.next_packet_sequence
    then err sequence_gap
    else if p.first_codec_frame != r.next_codec_frame
    then err frame_gap
    else if p.first_sample != r.next_sample
    then err sample_gap
    else ok (advance fl r p)

unfoldable pub record_packet :
    FloatOps → RequestRecord → AudioPacketDescriptor → ℕ → Result PacketError RequestRecord
unfolding check_position validate_packet
record_packet fl r p packet_frames =
    if accepts_packets r.phase
    then (do _ ← validate_packet p packet_frames; check_position fl r p)
    else err not_accepting

-- A producer that records one packet after another, up to the first refusal.
unfoldable pub record_all :
    FloatOps → ℕ → RequestRecord → List AudioPacketDescriptor → Result PacketError RequestRecord
record_all fl packet_frames r [] = ok r
record_all fl packet_frames r (p ∷ ps) = do
  r' ← record_packet fl r p packet_frames
  record_all fl packet_frames r' ps

pub data PacketQueueError : Type 0 where
  full : PacketQueueError

pub record PacketQueue {ℓ} (T : Type ℓ) : Type ℓ where
  pub capacity : ℕ
  pub values : List T

module _ {ℓ} {T : Type ℓ} where
  -- `PacketQueue::new`; `none` is the panic of its `assert!`.
  unfoldable pub new_queue : ℕ → Option (PacketQueue T)
  new_queue capacity =
      if capacity == 0 then none else some (record { capacity = capacity; values = [] })

  unfoldable pub push : PacketQueue T → T → Result PacketQueueError (PacketQueue T)
  push q value =
      if length q.values == q.capacity
      then err full
      else ok (record q { values = q.values ++ value ∷ [] })

  unfoldable pub pop : PacketQueue T → Option T × PacketQueue T
  pop q = elim q.values [ [] ↦ (none, q) | value ∷ rest ↦ (some value, record q { values = rest }) ]

  unfoldable pub queue_len : PacketQueue T → ℕ
  queue_len q = length q.values
