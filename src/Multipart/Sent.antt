-- ===== src/Multipart/Sent.antt =====
-- native/qwen3-tts-server/src/server.rs: what `run_streaming_worker` sends for given packets.
use qwen3_tts_native.Base.{
  ℕ, ◌+◌, ◌*◌, ◌≤◌, ◌<◌, ◌≡◌, min, Bool, true, false, List, [], ◌∷◌, ◌++◌, length, Option, none,
  some, Result, ok, err, arith,
}
use qwen3_tts_native.Multipart.Part.{EnginePacket, EngineFinishReason, audio_part}
use qwen3_tts_native.Multipart.Sender.{
  EngineErrorKind, PacketContinuity, validate_engine_packet, advance_continuity, accept_packet,
  EnginePoll, packet, would_block, end_of_stream, StreamTurn, StreamingWorker,
}
use qwen3_tts_native.Runtime.Types.{RequestMetrics}
use qwen3_tts_native.Text.{max_u64}

-- A packet of one to four frames of PCM that stands at a place in the stream.
pub record StandsAt (sequence frame sample : ℕ) (p : EnginePacket) : Type 0 where
  pub sequence_is : p.sequence ≡ sequence
  pub frame_is : p.first_codec_frame ≡ frame
  pub sample_is : p.first_sample ≡ sample
  pub rate : p.sample_rate ≡ 24000
  pub mono : p.channels ≡ 1
  pub some_frames : 0 < p.codec_frames
  pub few_frames : p.codec_frames ≤ 4
  pub samples : p.sample_count ≡ p.codec_frames * 1920
  pub bytes : length p.pcm_s16le ≡ p.sample_count * 2
  pub next_sequence : sequence + 1 ≤ max_u64
  pub next_frame : frame + p.codec_frames ≤ max_u64
  pub next_sample : sample + p.sample_count ≤ max_u64

-- Each packet stands where the one before it ends.
abbrev pub AreContiguous : ℕ → ℕ → ℕ → List EnginePacket → Type 0
AreContiguous sequence frame sample [] = Unit {0}
AreContiguous sequence frame sample (p ∷ ps) =
    StandsAt sequence frame sample p
    × AreContiguous (sequence + 1) (frame + p.codec_frames) (sample + p.sample_count) ps

-- There is a packet, and the last one and no other is final; the flags are of the packets before.
abbrev pub AreFinal : Bool → Bool → List EnginePacket → Type 0
AreFinal saw_packet saw_final [] = (saw_packet ≡ true) × (saw_final ≡ true)
AreFinal saw_packet saw_final (p ∷ ps) = (saw_final ≡ false) × AreFinal true p.is_final ps

abbrev pub total_samples : List EnginePacket → ℕ
total_samples [] = 0
total_samples (p ∷ ps) = p.sample_count + total_samples ps

abbrev pub polled_at : Result EngineErrorKind EnginePoll → List EnginePacket → List EnginePacket
polled_at (ok (packet p)) later = p ∷ later
polled_at (ok would_block) later = later
polled_at (ok (end_of_stream reason)) later = []
polled_at (err e) later = later

-- The packets that the engine gives until its end.
abbrev pub polled : List StreamTurn → List EnginePacket
polled [] = []
polled (t ∷ ts) = polled_at t.poll (polled ts)

abbrev pub End : Type 0
End = Option (EngineFinishReason × RequestMetrics)

abbrev pub end_at : Result EngineErrorKind EnginePoll → RequestMetrics → End → End
end_at (ok (end_of_stream reason)) m later = some (reason, m)
end_at (ok (packet p)) m later = later
end_at (ok would_block) m later = later
end_at (err e) m later = later

-- Why the engine ends, and its metrics then.
abbrev pub end_of : List StreamTurn → End
end_of [] = none
end_of (t ∷ ts) = end_at t.poll t.metrics (end_of ts)

abbrev pub audio_parts : List ℕ → List EnginePacket → List ℕ
audio_parts boundary [] = []
audio_parts boundary (p ∷ ps) = audio_part boundary p ++ audio_parts boundary ps

abbrev pub continuity_after : EnginePacket → PacketContinuity → PacketContinuity
continuity_after p c = record {
  next_sequence = c.next_sequence + 1;
  next_codec_frame = c.next_codec_frame + p.codec_frames;
  next_sample = c.next_sample + p.sample_count;
  saw_packet = true;
  saw_final = p.is_final;
}

abbrev pub sent_packet : EnginePacket → StreamingWorker → PacketContinuity → StreamingWorker
sent_packet p w d = record w {
  continuity = d;
  sent = w.sent ++ audio_part w.boundary p;
  sent_samples = min (w.sent_samples + p.sample_count) max_u64;
}

pub record Accepts (p : EnginePacket) (c d : PacketContinuity) : Type 0 where
  pub stands : StandsAt c.next_sequence c.next_codec_frame c.next_sample p
  pub not_final : c.saw_final ≡ false
  pub after : d ≡ continuity_after p c

pub accept_packet-Accepts :
    (p : EnginePacket) (c : PacketContinuity)
    → (accept_packet p c).0 ≡ ok tt
    → Accepts p c (accept_packet p c).1
unfolding accept_packet advance_continuity validate_engine_packet
accept_packet-Accepts p c h = record {
  stands = ground (arith, h);
  not_final = ground (arith, h);
  after = ground (arith, h);
}
