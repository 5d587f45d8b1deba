-- ===== src/Native/Stager/Poison.antt =====
-- cuda_packet_stager.rs: the end of a stager after a CUDA call that failed.
use qwen3_tts_native.Base.{
  inl, inr, ℕ, ◌≡◌, refl, ◌∙◌, ap, ◌⊎◌, true, List, [], ◌∷◌, Result, err, arith,
}
use qwen3_tts_native.Native.Stager.{
  Call, set_device, Cuda, CudaPacketStager, StagerError, cuda_failed, stage_frame,
  release_after_consumer, record_copy, copy_slot, await_frame, ask, StagerOp, stages, releases,
  Loaded, run, run_all,
}

poisoned-run :
    (cuda : Cuda) (op : StagerOp) (l : Loaded) → l.stager.poisoned ≡ true → run cuda op l ≡ l
unfolding run stage_frame release_after_consumer
poisoned-run cuda (stages codes count event device) l h = rw h refl
poisoned-run cuda (releases event) l h = rw h refl

poisoned-run_all :
    (cuda : Cuda) (ops : List StagerOp) (l : Loaded)
    → l.stager.poisoned ≡ true
    → run_all cuda ops l ≡ l
unfolding run_all
poisoned-run_all cuda [] l h = refl
poisoned-run_all cuda (op ∷ ops) l h =
    ap (run_all cuda ops) (poisoned-run cuda op l h) ∙ poisoned-run_all cuda ops l h

-- A failed call is the selection of the device, or the stager is poisoned.
abbrev Poisons : {A : Type 0} → ℕ → Result StagerError A × CudaPacketStager → Type 0
Poisons device r =
    (c : Call) (status : ℕ)
    → r.0 ≡ err (cuda_failed c status)
    → (c ≡ set_device device) ⊎ (r.1.poisoned ≡ true)

module _ (cuda : Cuda) where
  await_frame-Poisons :
      (s : CudaPacketStager) (device codes event : ℕ)
      → Poisons device (await_frame cuda codes event s)
  unfolding await_frame copy_slot record_copy
  await_frame-Poisons s device codes event c status h = ground arith

  stage_frame-Poisons :
      (s : CudaPacketStager) (codes count event device : ℕ)
      → Poisons s.device_index (stage_frame cuda s codes count event device)
  unfolding stage_frame
  stage_frame-Poisons s codes count event device c status h = ground (
    arith,
    await_frame-Poisons (ask s (set_device s.device_index)) s.device_index codes event c status,
  )

  -- If a CUDA call of `stage_frame` fails, the call was the selection of the device, or no later
  -- operation changes the stager or makes another CUDA call.
  pub failed_stage-run_all :
      (s : CudaPacketStager) (codes count event device : ℕ) (c : Call) (status : ℕ) (fs : List ℕ)
      (ops : List StagerOp)
      → (stage_frame cuda s codes count event device).0 ≡ err (cuda_failed c status)
      → let after : Loaded = record {
        stager = (stage_frame cuda s codes count event device).1;
        frames = fs;
      } in
        (c ≡ set_device s.device_index) ⊎ (run_all cuda ops after ≡ after)
  failed_stage-run_all s codes count event device c status fs ops h =
      elim (stage_frame-Poisons s codes count event device c status h) [
        | inl e ↦ inl e
        | inr p ↦ inr (
            poisoned-run_all cuda ops
              record { stager = (stage_frame cuda s codes count event device).1; frames = fs } p)
      ]
