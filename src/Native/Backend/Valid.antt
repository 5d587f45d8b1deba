-- ===== src/Native/Backend/Valid.antt =====
-- native_backend.rs against scheduler.rs: a step gives packets that the scheduler accepts.
use qwen3_tts_native.Base.{
  ℕ, zero, suc, ◌*◌, ◌≤◌, ◌≡◌, refl, ap, false, ◌||◌, length, drop, replicate, length-replicate,
  Result, ok, ltb, ◌==◌, if◌then◌else◌, if_lem, arith,
}
use qwen3_tts_native.Runtime.Types.{samples_per_codec_frame}
use qwen3_tts_native.Runtime.Scheduler.Shared.{Pcm}
use qwen3_tts_native.Runtime.Scheduler.Backend.{BackendPacket}
use qwen3_tts_native.Runtime.Scheduler.Worker.Accept.{
  pcm_sentinel, any_written, validate_backend_packet,
}
use qwen3_tts_native.Native.Stager.{Cuda, codec_packet_frames}
use qwen3_tts_native.Native.Talker.{TalkerLibrary}
use qwen3_tts_native.Native.Backend.{Codec, NativeFailure}
use qwen3_tts_native.Native.Backend.Steps.{Session, step_either, step_session}
use qwen3_tts_native.Native.Backend.Packets.{Fits, KeepsLength}
use qwen3_tts_native.Native.Backend.Paths.{after_packet-AllFit, step_either-AllFit}

-- A buffer of sentinels, past any of its samples.
sentinels-unwritten : (n m : ℕ) → any_written (drop n (replicate m pcm_sentinel)) ≡ false
sentinels-unwritten zero zero = refl
sentinels-unwritten zero (suc m) = sentinels-unwritten zero m
sentinels-unwritten (suc n) zero = refl
sentinels-unwritten (suc n) (suc m) = sentinels-unwritten n m

Fits-valid :
    (requested packet_frames : ℕ) (after : Pcm) (p : BackendPacket)
    → requested ≤ packet_frames
    → Fits requested (replicate (packet_frames * samples_per_codec_frame) pcm_sentinel) after p
    → validate_backend_packet p packet_frames after ≡ ok tt
unfolding validate_backend_packet
Fits-valid requested packet_frames after p l f =
    let total = packet_frames * samples_per_codec_frame in
    ground (
      arith,
      l,
      f.some_frames,
      f.limit,
      f.final,
      f.size,
      length-replicate total pcm_sentinel,
      ap any_written f.rest,
      sentinels-unwritten (p.codec_frames * samples_per_codec_frame) total,
    )

-- Whatever the libraries do: a packet that `step_session` returns for a buffer of `packet_frames`
-- frames, one or more, filled with sentinels as the scheduler fills it, passes the scheduler's
-- `validate_backend_packet`, for a first packet and a later one, on the host path and the device's.
-- It is assumed that the codec's calls keep the length of the slice that they are given.
pub step_session-valid :
    (lib : TalkerLibrary) (codec : Codec) (cuda : Cuda) (accumulate : ℕ → ℕ → ℕ → ℕ)
    (s : Session lib codec cuda accumulate) (packet_frames : ℕ) (p : BackendPacket)
    → KeepsLength codec
    → 1 ≤ packet_frames
    → let r =
        step_session lib codec cuda accumulate s packet_frames
          (replicate (packet_frames * samples_per_codec_frame) pcm_sentinel) in
      r.0 ≡ ok p → validate_backend_packet p packet_frames r.1.1 ≡ ok tt
unfolding step_session
step_session-valid lib codec cuda accumulate s packet_frames p keeps one =
    let pcm = replicate (packet_frames * samples_per_codec_frame) pcm_sentinel in
    let requested = if s.first_packet then 1 else packet_frames in
    let within : requested ≤ packet_frames = ground arith in
    let P : Result NativeFailure BackendPacket × (Session lib codec cuda accumulate × Pcm)
        → Type 0 =
      λ r. r.0 ≡ ok p → validate_backend_packet p packet_frames r.1.1 ≡ ok tt in
    if_lem P ((requested == 0) || ltb codec_packet_frames requested) (λ b e. cc)
      (λ b.
        if_lem P (ltb (length pcm) (requested * samples_per_codec_frame)) (λ c e. cc)
          (λ c e. Fits-valid requested packet_frames _ p within (
            after_packet-AllFit lib codec cuda accumulate keeps requested pcm (ground (arith, c))
              (step_either lib codec cuda accumulate s requested pcm)
              (step_either-AllFit lib codec cuda accumulate keeps requested pcm (ground (arith, c))
                s)
              p e)))
