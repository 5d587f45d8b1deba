-- ===== src/Native/Examples/Stager.antt =====
-- A packet stager on a CUDA runtime that succeeds, and on one whose copies fail.
use qwen3_tts_native.Base.{ℕ, ◌≤◌, ◌<◌, ◌≡◌, refl, ◌⊎◌, false, List, [], ◌∷◌, length, ok, err, All}
use qwen3_tts_native.Native.Stager.{
  Cuda, Call, copy, set_device, malloc, stream_create, event_create, CudaPacketStager,
  StagedPacketView, new_stager, stage_frame, release_after_consumer, record_copy, copy_slot,
  await_frame, await_consumer, packet_view, StagerOp, stages, releases, Loaded, run, run_all,
  cuda_failed, teardown,
}
use qwen3_tts_native.Native.Stager.Inv.{InBounds, Holds}
use qwen3_tts_native.Native.Stager.Histories.{copies-InBounds, packet_view-Holds}
use qwen3_tts_native.Native.Stager.Poison.{failed_stage-run_all}

abbrev pub willing : Cuda
willing = record { status = λ log c. 0; pointer = λ log c. 4096 }

-- Every copy fails with status 700.
abbrev copy_status : Call → ℕ
copy_status (copy d s b t) = 700
copy_status _ = 0

abbrev broken : Cuda
broken = record { status = λ log c. copy_status c; pointer = λ log c. 4096 }

abbrev fresh : CudaPacketStager
fresh = record {
  calls = event_create ∷ stream_create ∷ malloc 128 ∷ set_device 0 ∷ [];
  device_index = 0;
  device_codes = 4096;
  stream = 4096;
  copied_event = 4096;
  staged_frames = 0;
  poisoned = false;
}

-- Five frames for four slots, a release, and two frames more, the second on the wrong device.
abbrev ops : List StagerOp
ops =
    stages 11 16 9 0
    ∷ stages 12 16 9 0
    ∷ stages 13 16 9 0
    ∷ stages 14 16 9 0
    ∷ stages 15 16 9 0
    ∷ releases 5
    ∷ stages 16 16 9 0
    ∷ stages 17 16 9 3
    ∷ []

abbrev after : Loaded
after = run_all willing ops (record { stager = fresh; frames = [] })

new_stager_test : (new_stager willing 0).0 ≡ ok fresh
unfolding new_stager teardown
new_stager_test = refl

frames_test : after.frames ≡ 16 ∷ []
unfolding run_all run stage_frame release_after_consumer await_frame copy_slot record_copy
    await_consumer
frames_test = refl

copies-InBounds_example : (after.stager.staged_frames ≤ 4) × All (InBounds 4096) after.stager.calls
copies-InBounds_example = copies-InBounds willing 0 fresh ops new_stager_test

abbrev view : StagedPacketView
view = record { device_codes = 4096; frame_count = 1; ready_event = 4096 }

view_test : packet_view after.stager ≡ ok view
unfolding packet_view run_all run stage_frame release_after_consumer await_frame copy_slot
    record_copy await_consumer
view_test = refl

packet_view-Holds_example :
    (0 < view.frame_count)
    × (view.frame_count ≤ 4)
    × (view.frame_count ≡ length after.frames)
    × (view.device_codes ≡ fresh.device_codes)
    × Holds view.device_codes after.stager.calls 0 after.frames
packet_view-Holds_example = packet_view-Holds willing 0 fresh ops view new_stager_test view_test

abbrev spoilt : Loaded
spoilt = record { stager = (stage_frame broken fresh 11 16 9 0).1; frames = [] }

failed_test : (stage_frame broken fresh 11 16 9 0).0 ≡ err (cuda_failed (copy 4096 11 32 4096) 700)
unfolding stage_frame await_frame copy_slot record_copy
failed_test = refl

failed_stage-run_all_example :
    (copy 4096 11 32 4096 ≡ set_device 0) ⊎ (run_all broken ops spoilt ≡ spoilt)
failed_stage-run_all_example =
    failed_stage-run_all broken fresh 11 16 9 0 (copy 4096 11 32 4096) 700 [] ops failed_test
