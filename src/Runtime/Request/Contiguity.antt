-- ===== src/Runtime/Request/Contiguity.antt =====
-- The packets of one request: positions without gap or overlap.
use qwen3_tts_native.Base.{
  ℕ, ◌+◌, ◌*◌, ◌<◌, ◌≤◌, ◌≡◌, true, List, [], ◌∷◌, length, ok, >>=-eq-ok, arith, u64, u32,
}
use qwen3_tts_native.Runtime.Types.{
  AudioPacketDescriptor, samples_per_codec_frame, sample_rate_hz, max_packet_frames,
}
use qwen3_tts_native.Runtime.Request.{
  FloatOps, RequestRecord, accepts_packets, record_packet, advance, record_all,
}

-- What a descriptor says when it is accepted by the record `r`.
pub record Fits (r : RequestRecord) (packet_frames : ℕ) (p : AudioPacketDescriptor) : Type 0 where
  pub accepting : accepts_packets r.phase ≡ true
  pub some_frames : 0 < p.codec_frames
  pub few_frames : p.codec_frames ≤ packet_frames
  pub samples : p.sample_count ≡ u32 (p.codec_frames * samples_per_codec_frame)
  pub rate : p.sample_rate ≡ sample_rate_hz
  pub mono : p.channels ≡ 1
  pub same_request : p.request_id ≡ r.id
  pub next_sequence : p.sequence ≡ r.next_packet_sequence
  pub next_frame : p.first_codec_frame ≡ r.next_codec_frame
  pub next_sample : p.first_sample ≡ r.next_sample

pub record_packet-Fits :
    (fl : FloatOps) (r r' : RequestRecord) (p : AudioPacketDescriptor) (packet_frames : ℕ)
    → record_packet fl r p packet_frames ≡ ok r'
    → Fits r packet_frames p × (r' ≡ advance fl r p)
unfolding record_packet
record_packet-Fits fl r r' p packet_frames h = ground arith

pub Fits-record_packet :
    (fl : FloatOps) (r : RequestRecord) (p : AudioPacketDescriptor) (packet_frames : ℕ)
    → Fits r packet_frames p
    → record_packet fl r p packet_frames ≡ ok (advance fl r p)
unfolding record_packet
Fits-record_packet fl r p packet_frames h = ground arith

abbrev pub frames : List AudioPacketDescriptor → ℕ
frames [] = 0
frames (p ∷ ps) = p.codec_frames + frames ps

-- The counters of a record after `n` packets and `f` frames.
pub record StandsAt (r : RequestRecord) (n f : ℕ) : Type 0 where
  pub sequence : r.next_packet_sequence ≡ u64 n
  pub frame : r.next_codec_frame ≡ u64 f
  pub sample : r.next_sample ≡ u64 (f * samples_per_codec_frame)

-- Packets that follow one another without gap or overlap, from packet `n` and frame `f` on.
abbrev pub Contiguous : ℕ → ℕ → List AudioPacketDescriptor → Type 0
Contiguous n f [] = Unit
Contiguous n f (p ∷ ps) =
    (p.sequence ≡ u64 n)
    × (p.first_codec_frame ≡ u64 f)
    × (p.first_sample ≡ u64 (f * samples_per_codec_frame))
    × (0 < p.codec_frames)
    × (p.sample_count ≡ p.codec_frames * samples_per_codec_frame)
    × Contiguous (n + 1) (f + p.codec_frames) ps

advance-StandsAt :
    (fl : FloatOps) (r : RequestRecord) (p : AudioPacketDescriptor) (packet_frames n f : ℕ)
    → packet_frames ≤ max_packet_frames
    → Fits r packet_frames p
    → StandsAt r n f
    → StandsAt (advance fl r p) (n + 1) (f + p.codec_frames)
advance-StandsAt fl r p packet_frames n f small fits at = record {
  sequence = omega arith;
  frame = omega arith;
  sample = omega arith;
}

-- Whatever descriptors a record accepts one after another are contiguous, from where it stands;
-- afterwards it stands behind the last of them. The packet size is at most the largest valid one.
pub record_all-Contiguous :
    (fl : FloatOps) (packet_frames : ℕ) (ps : List AudioPacketDescriptor) (r r' : RequestRecord)
    (n f : ℕ)
    → packet_frames ≤ max_packet_frames
    → StandsAt r n f
    → record_all fl packet_frames r ps ≡ ok r'
    → Contiguous n f ps × StandsAt r' (n + length ps) (f + frames ps)
unfolding record_all
record_all-Contiguous fl packet_frames [] r r' n f small at h =
    (tt, record { sequence = ground arith; frame = ground arith; sample = ground arith })
record_all-Contiguous fl packet_frames (p ∷ ps) r r' n f small at h =
    let (q, e, g) =
      >>=-eq-ok (record_packet fl r p packet_frames) (λ q. record_all fl packet_frames q ps) h in
    let (fits, eq) = record_packet-Fits fl r q p packet_frames e in
    let at' : StandsAt q (n + 1) (f + p.codec_frames) =
      rw eq (advance-StandsAt fl r p packet_frames n f small fits at) in
    let (rest, end) =
      record_all-Contiguous fl packet_frames ps q r' (n + 1) (f + p.codec_frames) small at' g in
    (
      (omega arith, omega arith, omega arith, omega arith, omega arith, rest),
      record { sequence = omega arith; frame = omega arith; sample = omega arith },
    )
