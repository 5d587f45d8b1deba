-- ===== src/Native/Backend/Paths.antt =====
-- native_backend.rs: what the host path and the device path give.
use qwen3_tts_native.Base.{
  ℕ, zero, suc, ◌+◌, ◌*◌, ◌<◌, ◌≤◌, ◌≡◌, ◌≢◌, refl, ◌∙◌, Bool, true, false, [], ◌∷◌, ◌++◌, length,
  length-append, take, Option, none, some, Result, ok, err, ◌==◌, ◌!=◌, if_lem, Option-cases,
  Result-cases, inl, inr, arith,
}
use qwen3_tts_native.Runtime.Types.{FinishReason, samples_per_codec_frame}
use qwen3_tts_native.Runtime.Scheduler.Shared.{Pcm}
use qwen3_tts_native.Runtime.Scheduler.Backend.{BackendPacket}
use qwen3_tts_native.Native.Stager.{
  Cuda, CudaPacketStager, packet_view, stage_frame, release_after_consumer,
}
use qwen3_tts_native.Native.Talker.{TalkerLibrary, SessionEndReason, is_ended}
use qwen3_tts_native.Native.Talker.Session.{
  Talker, next_frame, begin_device_frame_batched, finish_with_consumer_event,
}
use qwen3_tts_native.Native.Backend.{
  Codec, CodecReply, NativeFailure, inconsistent_count, map_finish_reason, finish_packet,
}
use qwen3_tts_native.Native.Backend.Steps.{
  Gathered, Session, host_frames, host_packet, step_host_session, DeviceFrames, stage_one,
  device_frames, device_finish, device_release, device_packet, step_device_session, after_packet,
  step_either,
}
use qwen3_tts_native.Native.Backend.Packets.{
  AllFit, KeepsLength, finish_packet-AllFit, map_finish_reason-final, release-empties,
  stage_frame-one, view_count,
}

module _ (lib : TalkerLibrary) (codec : Codec) (cuda : Cuda) (accumulate : ℕ → ℕ → ℕ → ℕ) where
  abbrev AtMost : ℕ → Result NativeFailure Gathered × Talker lib → Type 0
  AtMost limit r = (g : Gathered) → r.0 ≡ ok g → length g.frames ≤ limit

  host_frames-AtMost :
      (count : ℕ) (t : Talker lib) (g : Gathered) (limit : ℕ)
      → length g.frames + count ≤ limit
      → AtMost limit (host_frames lib codec cuda accumulate count t g)
  unfolding host_frames
  host_frames-AtMost zero t g limit l = λ h e. ground (arith, l, e)
  host_frames-AtMost (suc count) t g limit l =
      let r = next_frame lib t in
      elim (Result-cases r.0) [
        | inr (x, q) ↦ rw (q, host_frames) (λ h e. cc)
        | inl (none, q) ↦ rw (q, host_frames) (λ h e. ground (arith, l, e))
        | inl (some frame, q) ↦
            let more : Gathered = record {
              frames = g.frames ++ frame.codes ∷ [];
              gpu = accumulate g.gpu frame.talker_gpu_milliseconds frame.predictor_gpu_milliseconds;
            } in
            let longer : length more.frames ≡ length g.frames + 1 =
              length-append g.frames (frame.codes ∷ []) in
            rw (q, host_frames)
              (if_lem (AtMost limit) (is_ended r.1) (λ b h e. ground (arith, l, e, longer))
                (λ b. host_frames-AtMost count r.1 more limit (omega (arith, l, longer))))
      ]

  -- The stager holds the frames of this packet and no others.
  abbrev Even : DeviceFrames lib codec cuda accumulate → Type 0
  Even g = g.stager.staged_frames ≡ g.count

  abbrev Turned :
      DeviceFrames lib codec cuda accumulate
      → Result NativeFailure Bool × DeviceFrames lib codec cuda accumulate
      → Type 0
  Turned g r =
      (r.0 ≡ ok true → Even r.1 × (r.1.count ≡ g.count + 1))
      × (r.0 ≡ ok false → Even r.1 × (r.1.count ≡ g.count))
      × (r.0 ≢ err inconsistent_count)

  stage_one-Turned :
      (g : DeviceFrames lib codec cuda accumulate)
      → Even g
      → Turned g (stage_one lib codec cuda accumulate g)
  unfolding stage_one
  stage_one-Turned g v =
      let r = begin_device_frame_batched lib g.talker in
      elim (Result-cases r.0) [
        | inr (x, q) ↦ rw (q, stage_one) (λ e. cc, λ e. cc, λ e. cc)
        | inl (none, q) ↦ rw (q, stage_one) (λ e. cc, λ e. (v, refl), λ e. cc)
        | inl (some view, q) ↦
            let c =
              stage_frame cuda g.stager view.device_codes view.code_count view.ready_event
                view.device_index in
            elim (Result-cases c.0) [
              | inr (x, p) ↦ rw (q, p, stage_one) (λ e. cc, λ e. cc, λ e. cc)
              | inl (copied, p) ↦
                  let one =
                    stage_frame-one cuda g.stager view.device_codes view.code_count view.ready_event
                      view.device_index copied p in
                  elim (Result-cases (finish_with_consumer_event lib r.1 view copied).0) [
                    | inr (x, o) ↦ rw (q, p, o, stage_one) (λ e. cc, λ e. cc, λ e. cc)
                    | inl (finished, o) ↦
                        rw (q, p, o, stage_one)
                          (λ e. (omega (arith, one, v), refl), λ e. cc, λ e. cc)
                  ]
            ]
      ]

  abbrev Looped :
      ℕ → Result NativeFailure (Unit {0}) × DeviceFrames lib codec cuda accumulate → Type 0
  Looped limit r = (r.0 ≡ ok tt → Even r.1 × (r.1.count ≤ limit)) × (r.0 ≢ err inconsistent_count)

  device_frames-Looped :
      (count : ℕ) (g : DeviceFrames lib codec cuda accumulate) (limit : ℕ)
      → Even g
      → g.count + count ≤ limit
      → Looped limit (device_frames lib codec cuda accumulate count g)
  unfolding device_frames
  device_frames-Looped zero g limit v l = (λ e. (v, omega (arith, l)), λ e. cc)
  device_frames-Looped (suc count) g limit v l =
      let r = stage_one lib codec cuda accumulate g in
      let turned = stage_one-Turned g v in
      elim (Result-cases r.0) [
        | inr (x, q) ↦ rw (q, device_frames) (λ e. cc, λ e. turned.2 (ground (arith, q, e)))
        | inl (false, q) ↦
            rw (q, device_frames) (λ e. ((turned.1 q).0, omega (arith, (turned.1 q).1, l)), λ e. cc)
        | inl (true, q) ↦
            rw (q, device_frames)
              (if_lem (Looped limit) (is_ended r.1.talker)
                (λ b. (λ e. ((turned.0 q).0, omega (arith, (turned.0 q).1, l)), λ e. cc))
                (λ b.
                  device_frames-Looped count r.1 limit (turned.0 q).0
                    (omega (arith, (turned.0 q).1, l))))
      ]

  module _ (keeps : KeepsLength codec) (requested : ℕ) (pcm : Pcm)
      (room : requested * samples_per_codec_frame ≤ length pcm) where
    host_packet-AllFit :
        (s : Session lib codec cuda accumulate) (g : Gathered)
        → length g.frames ≤ requested
        → AllFit requested pcm (host_packet lib codec cuda accumulate s pcm g)
    unfolding host_packet
    host_packet-AllFit s g l =
        if_lem (AllFit requested pcm) (length g.frames == 0) (λ b p e. cc)
          (λ b. elim (Result-cases (map_finish_reason s.talker.end_reason (is_ended s.talker))) [
            | inr (x, q) ↦ rw q (λ p e. cc)
            | inl (ending, q) ↦ rw q (
                finish_packet-AllFit s (length g.frames) g.gpu requested (is_ended s.talker) ending
                  pcm _ (ground (arith, b)) l
                  (map_finish_reason-final s.talker.end_reason (is_ended s.talker) ending q) room
                  (keeps.process_into s.codec g.frames (is_ended s.talker) _))
          ])

    step_host-AllFit :
        (s : Session lib codec cuda accumulate)
        → AllFit requested pcm (step_host_session lib codec cuda accumulate s requested pcm)
    unfolding step_host_session
    step_host-AllFit s =
        let empty : Gathered = record { frames = []; gpu = 0 } in
        let r = host_frames lib codec cuda accumulate requested s.talker empty in
        elim (Result-cases r.0) [
          | inr (x, q) ↦ rw (q, step_host_session) (λ p e. cc)
          | inl (g, q) ↦
              rw (q, step_host_session)
                (host_packet-AllFit (record s { talker = r.1 }) g
                  (host_frames-AtMost requested s.talker empty requested (omega arith) g q))
        ]

    -- What a step on the device says of the stager after it.
    abbrev Cleared :
        Result NativeFailure BackendPacket × (Session lib codec cuda accumulate × Pcm) → Type 0
    Cleared r =
        AllFit requested pcm r
        × ((p : BackendPacket)
            → r.0 ≡ ok p
            → (st : CudaPacketStager) × (r.1.0.cuda_stager ≡ some st) × (st.staged_frames ≡ 0))
        × (r.0 ≢ err inconsistent_count)

    finish_packet_same :
        (s : Session lib codec cuda accumulate) (count gpu : ℕ) (is_final : Bool)
        (ending : FinishReason) (reply : CodecReply codec.Session)
        → let r = finish_packet s count gpu is_final ending pcm reply in
          (r.1.0.cuda_stager ≡ s.cuda_stager) × (r.0 ≢ err inconsistent_count)
    unfolding finish_packet
    finish_packet_same s count gpu is_final ending reply = (ground arith, λ e. ground arith)

    map_finish_reason_same :
        (end_reason : Option SessionEndReason) (is_final : Bool)
        → map_finish_reason end_reason is_final ≢ err inconsistent_count
    unfolding map_finish_reason
    map_finish_reason_same end_reason is_final e = ground arith

    device_finish-Cleared :
        (s : Session lib codec cuda accumulate) (st : CudaPacketStager) (count gpu : ℕ)
        → 0 < count
        → count ≤ requested
        → s.cuda_stager ≡ some st
        → st.staged_frames ≡ 0
        → Cleared (device_finish lib codec cuda accumulate s count gpu pcm)
    unfolding device_finish
    device_finish-Cleared s st count gpu n l c z =
        let m = map_finish_reason s.talker.end_reason (is_ended s.talker) in
        elim (Result-cases m) [
          | inr (x, q) ↦
              rw (q, device_finish)
                (
                  λ p e. cc,
                  λ p e. cc,
                  λ e.
                      map_finish_reason_same s.talker.end_reason (is_ended s.talker)
                        (ground (arith, q, e)),
                )
          | inl (ending, q) ↦
              let slice = take (count * samples_per_codec_frame) pcm in
              let reply = codec.finish s.codec (is_ended s.talker) slice in
              let same = finish_packet_same s count gpu (is_ended s.talker) ending reply in
              rw (q, device_finish)
                (
                  finish_packet-AllFit s count gpu requested (is_ended s.talker) ending pcm reply n
                      l (map_finish_reason-final s.talker.end_reason (is_ended s.talker) ending q)
                      room (keeps.finish s.codec (is_ended s.talker) slice),
                  λ p e. (st, same.0 ∙ c, z),
                  same.1,
                )
        ]

    device_release-Cleared :
        (s : Session lib codec cuda accumulate) (g : DeviceFrames lib codec cuda accumulate)
        (event : ℕ)
        → 0 < g.count
        → g.count ≤ requested
        → Cleared (device_release lib codec cuda accumulate s g event pcm)
    unfolding device_release
    device_release-Cleared s g event n l =
        let r = release_after_consumer cuda g.stager event in
        elim (Result-cases r.0) [
          | inr (x, q) ↦ rw (q, device_release) (λ p e. cc, λ p e. cc, λ e. cc)
          | inl (done, q) ↦
              rw (q, device_release)
                (device_finish-Cleared (record s { cuda_stager = some r.1 }) r.1 g.count g.gpu n l
                  refl (release-empties cuda g.stager event q))
        ]

    device_packet-Cleared :
        (s : Session lib codec cuda accumulate) (g : DeviceFrames lib codec cuda accumulate)
        → Even g
        → g.count ≤ requested
        → Cleared (device_packet lib codec cuda accumulate s g pcm)
    unfolding device_packet
    device_packet-Cleared s g v l =
        if_lem Cleared (g.count == 0) (λ b. (λ p e. cc, λ p e. cc, λ e. cc))
          (λ b. elim (Result-cases (packet_view g.stager)) [
            | inr (x, q) ↦ rw q (λ p e. cc, λ p e. cc, λ e. cc)
            | inl (view, q) ↦ rw q (
                if_lem Cleared (view.frame_count != g.count)
                  (λ c. absurd (ground (arith, c, view_count g.stager view q, v)))
                  (λ c.
                    elim (Result-cases
                      (codec.begin_device_packet s.codec view.device_codes view.frame_count
                        view.ready_event).0) [
                          | inr (x, o) ↦ rw o (λ p e. cc, λ p e. cc, λ e. cc)
                          | inl (event, o) ↦
                              rw o (device_release-Cleared _ g event (ground (arith, b)) l)
                        ]))
          ])

    pub step_device-Cleared :
        (s : Session lib codec cuda accumulate) (st : CudaPacketStager)
        → Cleared (step_device_session lib codec cuda accumulate s st requested pcm)
    unfolding step_device_session
    step_device-Cleared s st =
        let g : DeviceFrames lib codec cuda accumulate = record {
          talker = s.talker;
          stager = st;
          count = 0;
          gpu = 0;
        } in
        let r = device_frames lib codec cuda accumulate requested g in
        if_lem Cleared (st.staged_frames != 0) (λ b. (λ p e. cc, λ p e. cc, λ e. cc))
          (λ b.
            let looped =
              device_frames-Looped requested g requested (ground (arith, b)) (omega arith) in
            elim (Result-cases r.0) [
              | inr (x, q) ↦ rw q (λ p e. cc, λ p e. cc, λ e. looped.1 (ground (arith, q, e)))
              | inl (done, q) ↦ rw q (
                  device_packet-Cleared
                    (record s { talker = r.1.talker; cuda_stager = some r.1.stager }) r.1
                    (looped.0 q).0 (looped.0 q).1)
            ])

    pub step_either-AllFit :
        (s : Session lib codec cuda accumulate)
        → AllFit requested pcm (step_either lib codec cuda accumulate s requested pcm)
    unfolding step_either
    step_either-AllFit s = elim (Option-cases s.cuda_stager) [
      | inl q ↦ rw (q, step_either) (step_host-AllFit s)
      | inr (st, q) ↦ rw (q, step_either) (step_device-Cleared s st).0
    ]

    pub after_packet-AllFit :
        (r : Result NativeFailure BackendPacket × (Session lib codec cuda accumulate × Pcm))
        → AllFit requested pcm r
        → AllFit requested pcm (after_packet lib codec cuda accumulate r)
    after_packet-AllFit (err e, after) h = λ p q. cc
    after_packet-AllFit (ok x, (s, after)) h = h
