-- ===== src/Native/Backend/Packets.antt =====
-- native_backend.rs against scheduler.rs: what fits the scheduler's check of a packet.
use qwen3_tts_native.Base.{
  ℕ, ◌+◌, ◌*◌, ◌<◌, ◌≤◌, ◌≡◌, sym, ap, ◌∙◌, Bool, List, ◌++◌, length, length-append, length-take,
  length-drop, drop-append, take, drop, Option, Result, ok, arith,
}
use qwen3_tts_native.Runtime.Types.{FinishReason, is_final_reason, samples_per_codec_frame}
use qwen3_tts_native.Runtime.Scheduler.Shared.{Pcm}
use qwen3_tts_native.Runtime.Scheduler.Backend.{BackendPacket}
use qwen3_tts_native.Native.Stager.{
  Cuda, CudaPacketStager, StagedPacketView, packet_view, stage_frame, release_after_consumer,
  await_frame, copy_slot, record_copy, await_consumer,
}
use qwen3_tts_native.Native.Talker.{SessionEndReason}
use qwen3_tts_native.Native.Backend.{
  Codec, CodecReply, NativeFailure, NativeBackendSession, map_finish_reason, finish_packet,
}

-- A slice of Rust keeps its length.
pub record KeepsLength (codec : Codec) : Type 0 where
  pub process_into :
      (s : codec.Session) (frames : List (List ℕ)) (is_final : Bool) (pcm : Pcm)
      → length (codec.process_into s frames is_final pcm).pcm ≡ length pcm
  pub finish :
      (s : codec.Session) (is_final : Bool) (pcm : Pcm)
      → length (codec.finish s is_final pcm).pcm ≡ length pcm

-- A packet of at most `requested` frames, with the buffer after it.
pub record Fits (requested : ℕ) (before after : Pcm) (p : BackendPacket) : Type 0 where
  pub some_frames : 0 < p.codec_frames
  pub limit : p.codec_frames ≤ requested
  pub final : p.is_final ≡ is_final_reason p.finish_reason
  pub size : length after ≡ length before
  pub rest :
      drop (p.codec_frames * samples_per_codec_frame) after
      ≡ drop (p.codec_frames * samples_per_codec_frame) before

abbrev pub AllFit : {S : Type 0} → ℕ → Pcm → Result NativeFailure BackendPacket × (S × Pcm) → Type 0
AllFit requested before r = (p : BackendPacket) → r.0 ≡ ok p → Fits requested before r.1.1 p

pub map_finish_reason-final :
    (end_reason : Option SessionEndReason) (is_final : Bool) (ending : FinishReason)
    → map_finish_reason end_reason is_final ≡ ok ending
    → is_final ≡ is_final_reason ending
unfolding map_finish_reason
map_finish_reason-final end_reason is_final ending h = ground arith

finished_packet :
    {H C : Type 0} (s : NativeBackendSession H C) (count gpu : ℕ) (is_final : Bool)
    (ending : FinishReason) (pcm : Pcm) (reply : CodecReply C) (p : BackendPacket)
    → (finish_packet s count gpu is_final ending pcm reply).0 ≡ ok p
    → (p.codec_frames ≡ count)
      × (p.is_final ≡ is_final)
      × (p.finish_reason ≡ ending)
      × ((finish_packet s count gpu is_final ending pcm reply).1.1
          ≡ reply.pcm ++ drop (count * samples_per_codec_frame) pcm)
unfolding finish_packet
finished_packet s count gpu is_final ending pcm reply p h = ground arith

pub finish_packet-AllFit :
    {H C : Type 0} (s : NativeBackendSession H C) (count gpu requested : ℕ) (is_final : Bool)
    (ending : FinishReason) (pcm : Pcm) (reply : CodecReply C)
    → 0 < count
    → count ≤ requested
    → is_final ≡ is_final_reason ending
    → requested * samples_per_codec_frame ≤ length pcm
    → length reply.pcm ≡ length (take (count * samples_per_codec_frame) pcm)
    → AllFit requested pcm (finish_packet s count gpu is_final ending pcm reply)
finish_packet-AllFit s count gpu requested is_final ending pcm reply n l f c k p h =
    let d = finished_packet s count gpu is_final ending pcm reply p h in
    let samples = count * samples_per_codec_frame in
    let m : length reply.pcm ≡ samples = omega (arith, k, length-take samples pcm) in
    record {
      some_frames = omega (arith, d.0);
      limit = omega (arith, d.0);
      final = d.1 ∙ (f ∙ sym (ap is_final_reason d.2));
      size =
          rw d.3
            (omega (arith, m, length-append reply.pcm (drop samples pcm), length-drop samples pcm));
      rest = rw (d.3, d.0) (drop-append samples reply.pcm (drop samples pcm) m);
    }

-- A frame staged is one more.
pub stage_frame-one :
    (cuda : Cuda) (s : CudaPacketStager) (codes count event device copied : ℕ)
    → (stage_frame cuda s codes count event device).0 ≡ ok copied
    → (stage_frame cuda s codes count event device).1.staged_frames ≡ s.staged_frames + 1
unfolding stage_frame await_frame copy_slot record_copy
stage_frame-one cuda s codes count event device copied h = ground arith

pub view_count :
    (s : CudaPacketStager) (view : StagedPacketView)
    → packet_view s ≡ ok view
    → view.frame_count ≡ s.staged_frames
unfolding packet_view
view_count s view h = ground arith

pub release-empties :
    (cuda : Cuda) (s : CudaPacketStager) (event : ℕ)
    → (release_after_consumer cuda s event).0 ≡ ok tt
    → (release_after_consumer cuda s event).1.staged_frames ≡ 0
unfolding release_after_consumer await_consumer
release-empties cuda s event h = ground arith
