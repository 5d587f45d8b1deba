-- ===== src/Native/Stager/Steps.antt =====
-- cuda_packet_stager.rs: each operation of a stager keeps its invariant.
use qwen3_tts_native.Base.{
  inl, inr, ℕ, ◌+◌, ◌*◌, ◌<◌, refl, true, List, [], ◌∷◌, ◌++◌, Result, ok, err, Bool-cases, if_lem,
  leb, ◌!=◌, ◌||◌, length-append, ◌==◌, arith,
}
use qwen3_tts_native.Native.Stager.{
  codebooks, codec_packet_frames, Call, copy, set_device, wait_event, record_event, Cuda,
  CudaPacketStager, or_fail, or_poison, ask, record_copy, StagerError, copy_slot, await_frame,
  await_consumer, stage_frame, release_after_consumer, staged, released,
}
use qwen3_tts_native.Native.Stager.Inv.{
  Holds, Holds-copy, Holds-front, Holds-quiet, Inv, poison-Inv, quiet-Inv,
}

-- What holds after a call that may fail, given that it holds on both of its outcomes.
module _ (cuda : Cuda) {A : Type 0} (P : Result StagerError A × CudaPacketStager → Type 0) where
  or_fail_lem :
      (s : CudaPacketStager) (c : Call)
      (next : CudaPacketStager → Result StagerError A × CudaPacketStager)
      → ((e : StagerError) → P (err e, ask s c))
      → P (next (ask s c))
      → P (or_fail cuda s c next)
  or_fail_lem s c next failed done = elim (Bool-cases (cuda.status s.calls c == 0)) [
    | inl e ↦ rw e done
    | inr e ↦ rw e (failed _)
  ]

  or_poison_lem :
      (s : CudaPacketStager) (c : Call)
      (next : CudaPacketStager → Result StagerError A × CudaPacketStager)
      → ((e : StagerError) → P (err e, record (ask s c) { poisoned = true }))
      → P (next (ask s c))
      → P (or_poison cuda s c next)
  or_poison_lem s c next failed done = elim (Bool-cases (cuda.status s.calls c == 0)) [
    | inl e ↦ rw e done
    | inr e ↦ rw e (failed _)
  ]

module _ (cuda : Cuda) (base : ℕ) (fs : List ℕ) where
  abbrev Staged : ℕ → Result StagerError ℕ × CudaPacketStager → Type 0
  Staged codes r = Inv base (staged fs codes r.0) r.1

  abbrev Released : Result StagerError (Unit {0}) × CudaPacketStager → Type 0
  Released r = Inv base (released fs r.0) r.1

  record_copy-Staged :
      (s : CudaPacketStager) (codes : ℕ)
      → s.staged_frames < codec_packet_frames
      → Inv base fs s
      → Holds base s.calls 0 (fs ++ codes ∷ [])
      → Staged codes (record_copy cuda s)
  unfolding record_copy
  record_copy-Staged s codes h v held =
      let c = record_event s.copied_event s.stream in
      or_poison_lem cuda (Staged codes) s c
        (λ t. (ok t.copied_event, record t { staged_frames = t.staged_frames + 1 }))
        (λ e. poison-Inv base fs (ask s c) (quiet-Inv base fs s v c tt (λ a. refl)))
        record {
          codes = v.codes;
          counted = ground (arith, v.counted, length-append fs (codes ∷ []));
          limit = ground (arith, v.counted, length-append fs (codes ∷ []));
          bounds = (tt, v.bounds);
          held = Holds-quiet base s.calls (fs ++ codes ∷ []) c (λ a. refl) held;
        }

  copy_slot-Staged :
      (s : CudaPacketStager) (codes : ℕ)
      → s.staged_frames < codec_packet_frames
      → Inv base fs s
      → Staged codes (copy_slot cuda codes s)
  unfolding copy_slot
  copy_slot-Staged s codes h v =
      let destination = s.device_codes + s.staged_frames * codebooks * 2 in
      let c = copy destination codes (codebooks * 2) s.stream in
      let held =
        Holds-copy base s.calls fs destination codes (codebooks * 2) s.stream
          (ground (arith, v.codes, v.counted)) v.held in
      let copied : Inv base fs (ask s c) = record {
        codes = v.codes;
        counted = v.counted;
        limit = v.limit;
        bounds = (ground (arith, v.codes), v.bounds);
        held = Holds-front base (c ∷ s.calls) 0 fs codes held;
      } in
      or_poison_lem cuda (Staged codes) s c (record_copy cuda)
        (λ e. poison-Inv base fs (ask s c) copied)
        (record_copy-Staged (ask s c) codes h copied held)

  await_frame-Staged :
      (s : CudaPacketStager) (codes event : ℕ)
      → s.staged_frames < codec_packet_frames
      → Inv base fs s
      → Staged codes (await_frame cuda codes event s)
  unfolding await_frame
  await_frame-Staged s codes event h v =
      let c = wait_event s.stream event in
      let v1 = quiet-Inv base fs s v c tt (λ a. refl) in
      or_poison_lem cuda (Staged codes) s c (copy_slot cuda codes)
        (λ e. poison-Inv base fs (ask s c) v1) (copy_slot-Staged (ask s c) codes h v1)

  pub select-Inv :
      (s : CudaPacketStager) → Inv base fs s → Inv base fs (ask s (set_device s.device_index))
  select-Inv s v = quiet-Inv base fs s v (set_device s.device_index) tt (λ a. refl)

  pub stage_frame-Staged :
      (s : CudaPacketStager) (codes count event device : ℕ)
      → Inv base fs s
      → Staged codes (stage_frame cuda s codes count event device)
  unfolding stage_frame
  stage_frame-Staged s codes count event device v =
      if_lem (Staged codes) s.poisoned (λ p. v)
        (λ p.
          if_lem (Staged codes) (device != s.device_index) (λ p. v)
            (λ p.
              if_lem (Staged codes) ((codes == 0) || (event == 0)) (λ p. v)
                (λ p.
                  if_lem (Staged codes) (count != codebooks) (λ p. v)
                    (λ p.
                      if_lem (Staged codes) (leb codec_packet_frames s.staged_frames) (λ p. v)
                        (λ p.
                          or_fail_lem cuda (Staged codes) s (set_device s.device_index)
                            (await_frame cuda codes event) (λ e. select-Inv s v)
                            (await_frame-Staged (ask s (set_device s.device_index)) codes event
                              (ground (arith, p)) (select-Inv s v)))))))

  await_consumer-Released :
      (s : CudaPacketStager) (event : ℕ) → Inv base fs s → Released (await_consumer cuda event s)
  unfolding await_consumer
  await_consumer-Released s event v =
      let c = wait_event s.stream event in
      let v1 = quiet-Inv base fs s v c tt (λ a. refl) in
      or_poison_lem cuda Released s c (λ t. (ok tt, record t { staged_frames = 0 }))
        (λ e. poison-Inv base fs (ask s c) v1)
        record {
          codes = v.codes;
          counted = refl;
          limit = omega arith;
          bounds = v1.bounds;
          held = tt;
        }

  pub release-Released :
      (s : CudaPacketStager) (event : ℕ)
      → Inv base fs s
      → Released (release_after_consumer cuda s event)
  unfolding release_after_consumer
  release-Released s event v =
      if_lem Released s.poisoned (λ p. v)
        (λ p.
          if_lem Released (s.staged_frames == 0) (λ p. v)
            (λ p.
              if_lem Released (event == 0) (λ p. v)
                (λ p.
                  or_fail_lem cuda Released s (set_device s.device_index)
                    (await_consumer cuda event) (λ e. select-Inv s v)
                    (await_consumer-Released (ask s (set_device s.device_index)) event
                      (select-Inv s v)))))
