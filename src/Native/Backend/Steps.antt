-- ===== src/Native/Backend/Steps.antt =====
-- native_backend.rs: `step_session` with its two paths, and `cancel`.
use qwen3_tts_native.Base.{
  ℕ, zero, suc, ◌+◌, ◌*◌, Bool, true, false, ◌||◌, List, [], ◌∷◌, ◌++◌, length, take, none, some,
  Result, ok, err, ltb, ◌==◌, ◌!=◌, if◌then◌else◌,
}
use qwen3_tts_native.Runtime.Types.{samples_per_codec_frame}
use qwen3_tts_native.Runtime.Scheduler.Shared.{Pcm}
use qwen3_tts_native.Runtime.Scheduler.Backend.{BackendPacket}
use qwen3_tts_native.Native.Stager.{
  Cuda, CudaPacketStager, packet_view, stage_frame, release_after_consumer, codec_packet_frames,
}
use qwen3_tts_native.Native.Talker.{TalkerLibrary, is_ended, cancel_talker}
use qwen3_tts_native.Native.Talker.Session.{
  Talker, next_frame, begin_device_frame_batched, finish_with_consumer_event, drop_pending,
}
use qwen3_tts_native.Native.Backend.{
  Codec, NativeBackendSession, NativeFailure, bad_frame_limit, codec_failed, finish_packet,
  inconsistent_count, map_finish_reason, no_frame, pcm_too_small, release_failed, stage_failed,
  stager_unconsumed, talker_failed, view_failed,
}

-- What the loops over frames gather: the frames or their number, and the time of the talker.
pub record Gathered : Type 0 where
  pub frames : List (List ℕ)
  pub gpu : ℕ

module _ (lib : TalkerLibrary) (codec : Codec) (cuda : Cuda) (accumulate : ℕ → ℕ → ℕ → ℕ) where
  abbrev pub Session : Type 0
  Session = NativeBackendSession lib.Handle codec.Session

  -- The loop of `step_host_session`; `count` frames are still asked for.
  unfoldable pub host_frames :
      ℕ → Talker lib → Gathered → Result NativeFailure Gathered × Talker lib
  host_frames zero t g = (ok g, t)
  host_frames (suc count) t g =
      let r = next_frame lib t in
      elim r.0 [
        | err e ↦ (err (talker_failed e), r.1)
        | ok none ↦ (ok g, r.1)
        | ok (some frame) ↦
            let more : Gathered = record {
              frames = g.frames ++ frame.codes ∷ [];
              gpu = accumulate g.gpu frame.talker_gpu_milliseconds frame.predictor_gpu_milliseconds;
            } in
            if is_ended r.1 then (ok more, r.1) else host_frames count r.1 more
      ]

  -- The rest of the step, past the loop.
  unfoldable pub host_packet :
      Session → Pcm → Gathered → Result NativeFailure BackendPacket × (Session × Pcm)
  host_packet s pcm g =
      let count = length g.frames in
      if count == 0
      then (err no_frame, (s, pcm))
      else elim (map_finish_reason s.talker.end_reason (is_ended s.talker)) [
        | err e ↦ (err e, (s, pcm))
        | ok ending ↦ finish_packet s count g.gpu (is_ended s.talker) ending pcm (
            codec.process_into s.codec g.frames (is_ended s.talker)
              (take (count * samples_per_codec_frame) pcm))
      ]

  unfoldable pub step_host_session :
      Session → ℕ → Pcm → Result NativeFailure BackendPacket × (Session × Pcm)
  step_host_session s requested pcm =
      let r = host_frames requested s.talker (record { frames = []; gpu = 0 }) in
      let t = record s { talker = r.1 } in
      elim r.0 [ err e ↦ (err e, (t, pcm)) | ok g ↦ host_packet t pcm g ]

  -- The device frames so far by number, with the talker and the stager after them.
  pub record DeviceFrames : Type 0 where
    pub talker : Talker lib
    pub stager : CudaPacketStager
    pub count : ℕ
    pub gpu : ℕ

  -- One turn of the loop of `step_device_session`: none when the talker has no frame.
  unfoldable pub stage_one : DeviceFrames → Result NativeFailure Bool × DeviceFrames
  stage_one g =
      let r = begin_device_frame_batched lib g.talker in
      let g1 = record g { talker = r.1 } in
      elim r.0 [
        | err e ↦ (err (talker_failed e), g1)
        | ok none ↦ (ok false, g1)
        | ok (some view) ↦
            let c =
              stage_frame cuda g.stager view.device_codes view.code_count view.ready_event
                view.device_index in
            let g2 = record g1 { stager = c.1 } in
            elim c.0 [
              | err e ↦ (err (stage_failed e), record g2 { talker = drop_pending lib r.1 view })
              | ok copied ↦
                  let f = finish_with_consumer_event lib r.1 view copied in
                  let g3 = record g2 { talker = f.1 } in
                  elim f.0 [
                    | err e ↦ (err (talker_failed e), g3)
                    | ok finished ↦ (
                      ok true,
                      record g3 {
                        count = g.count + 1;
                        gpu =
                            accumulate g.gpu finished.talker_gpu_milliseconds
                              finished.predictor_gpu_milliseconds;
                      },
                    )
                  ]
            ]
      ]

  unfoldable pub device_frames : ℕ → DeviceFrames → Result NativeFailure (Unit {0}) × DeviceFrames
  device_frames zero g = (ok tt, g)
  device_frames (suc count) g =
      let r = stage_one g in
      elim r.0 [
        | err e ↦ (err e, r.1)
        | ok false ↦ (ok tt, r.1)
        | ok true ↦ if is_ended r.1.talker then (ok tt, r.1) else device_frames count r.1
      ]

  -- The end of `step_device_session`, past the release of the stager. An error before the packet is
  -- finished drops it.
  unfoldable pub device_finish :
      Session → ℕ → ℕ → Pcm → Result NativeFailure BackendPacket × (Session × Pcm)
  device_finish s count gpu pcm = elim (map_finish_reason s.talker.end_reason (is_ended s.talker)) [
    | err e ↦ (err e, (record s { codec = codec.abandon s.codec }, pcm))
    | ok ending ↦
        finish_packet s count gpu (is_ended s.talker) ending pcm
          (codec.finish s.codec (is_ended s.talker) (take (count * samples_per_codec_frame) pcm))
  ]

  unfoldable pub device_release :
      Session → DeviceFrames → ℕ → Pcm → Result NativeFailure BackendPacket × (Session × Pcm)
  device_release s g event pcm =
      let r = release_after_consumer cuda g.stager event in
      let t = record s { cuda_stager = some r.1 } in
      elim r.0 [
        | err e ↦ (err (release_failed e), (record t { codec = codec.abandon s.codec }, pcm))
        | ok done ↦ device_finish t g.count g.gpu pcm
      ]

  unfoldable pub device_packet :
      Session → DeviceFrames → Pcm → Result NativeFailure BackendPacket × (Session × Pcm)
  device_packet s g pcm =
      if g.count == 0 then (err no_frame, (s, pcm)) else elim (packet_view g.stager) [
        | err e ↦ (err (view_failed e), (s, pcm))
        | ok view ↦
            if view.frame_count != g.count
            then (err inconsistent_count, (s, pcm))
            else (let b =
                  codec.begin_device_packet s.codec view.device_codes view.frame_count
                    view.ready_event in
                let t = record s { codec = b.1 } in
                elim b.0 [
                  | err status ↦ (err (codec_failed status), (t, pcm))
                  | ok event ↦ device_release t g event pcm
                ])
      ]

  unfoldable pub step_device_session :
      Session → CudaPacketStager → ℕ → Pcm → Result NativeFailure BackendPacket × (Session × Pcm)
  step_device_session s stager requested pcm =
      if stager.staged_frames != 0
      then (err stager_unconsumed, (s, pcm))
      else (let r =
            device_frames requested
              (record { talker = s.talker; stager = stager; count = 0; gpu = 0 }) in
          let t = record s { talker = r.1.talker; cuda_stager = some r.1.stager } in
          elim r.0 [ err e ↦ (err e, (t, pcm)) | ok done ↦ device_packet t r.1 pcm ])

  abbrev pub after_packet :
      Result NativeFailure BackendPacket × (Session × Pcm)
      → Result NativeFailure BackendPacket × (Session × Pcm)
  after_packet (err e, after) = (err e, after)
  after_packet (ok p, (s, pcm)) = (ok p, (record s { first_packet = false }, pcm))

  unfoldable pub step_either :
      Session → ℕ → Pcm → Result NativeFailure BackendPacket × (Session × Pcm)
  step_either s requested pcm = elim s.cuda_stager [
    | some stager ↦ step_device_session s stager requested pcm
    | none ↦ step_host_session s requested pcm
  ]

  -- `step_session`; four frames' samples cannot overflow a `usize`.
  unfoldable pub step_session :
      Session → ℕ → Pcm → Result NativeFailure BackendPacket × (Session × Pcm)
  step_session s packet_frames pcm =
      let requested = if s.first_packet then 1 else packet_frames in
      if (requested == 0) || ltb codec_packet_frames requested
      then (err bad_frame_limit, (s, pcm))
      else if ltb (length pcm) (requested * samples_per_codec_frame)
      then (err pcm_too_small, (s, pcm))
      else after_packet (step_either s requested pcm)

  -- `cancel`; whether the codec agreed.
  unfoldable pub cancel_native : Session → Bool × Session
  cancel_native s =
      let r = codec.cancel s.codec in
      (r.0, record s { talker = cancel_talker s.talker; codec = r.1 })
