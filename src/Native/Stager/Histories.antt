-- ===== src/Native/Stager/Histories.antt =====
-- cuda_packet_stager.rs: what every sequence of operations of a stager keeps.
use qwen3_tts_native.Base.{ℕ, ◌<◌, ◌≤◌, ◌≡◌, refl, List, [], ◌∷◌, length, ok, All, arith}
use qwen3_tts_native.Native.Stager.{
  codec_packet_frames, Cuda, CudaPacketStager, StagedPacketView, packet_view, new_stager, StagerOp,
  stages, releases, Loaded, run, run_all,
}
use qwen3_tts_native.Native.Stager.Inv.{Holds, InBounds, Inv}
use qwen3_tts_native.Native.Stager.Steps.{release-Released, stage_frame-Staged}

run-Inv :
    (cuda : Cuda) (base : ℕ) (op : StagerOp) (l : Loaded)
    → Inv base l.frames l.stager
    → Inv base (run cuda op l).frames (run cuda op l).stager
unfolding run
run-Inv cuda base (stages codes count event device) l v =
    stage_frame-Staged cuda base l.frames l.stager codes count event device v
run-Inv cuda base (releases event) l v = release-Released cuda base l.frames l.stager event v

run_all-Inv :
    (cuda : Cuda) (base : ℕ) (ops : List StagerOp) (l : Loaded)
    → Inv base l.frames l.stager
    → Inv base (run_all cuda ops l).frames (run_all cuda ops l).stager
unfolding run_all
run_all-Inv cuda base [] l v = v
run_all-Inv cuda base (op ∷ ops) l v =
    run_all-Inv cuda base ops (run cuda op l) (run-Inv cuda base op l v)

new_stager-Inv :
    (cuda : Cuda) (device : ℕ) (s : CudaPacketStager)
    → (new_stager cuda device).0 ≡ ok s
    → Inv s.device_codes [] s
unfolding new_stager
new_stager-Inv cuda device s h = record {
  codes = refl;
  counted = ground arith;
  limit = ground arith;
  bounds = ground arith;
  held = tt;
}

-- For every CUDA runtime, after `new` and any sequence of `stage_frame` and `release_after_consumer`
-- calls with any arguments, at most four frames are staged and every copy that the stager ever asked
-- for writes within the 128 bytes that start at its buffer.
pub copies-InBounds :
    (cuda : Cuda) (device : ℕ) (s : CudaPacketStager) (ops : List StagerOp)
    → (new_stager cuda device).0 ≡ ok s
    → let after = (run_all cuda ops (record { stager = s; frames = [] })).stager in
      (after.staged_frames ≤ codec_packet_frames) × All (InBounds s.device_codes) after.calls
copies-InBounds cuda device s ops h =
    let v =
      run_all-Inv cuda s.device_codes ops (record { stager = s; frames = [] })
        (new_stager-Inv cuda device s h) in
    (ground (arith, v.limit, v.counted), v.bounds)

-- For every CUDA runtime, a packet that `packet_view` gives after `new` and any sequence of
-- operations has one to four frames, its address is the start of the buffer, and the last copies
-- into its slots are of the frames staged since the last release, each once and in order.
pub packet_view-Holds :
    (cuda : Cuda) (device : ℕ) (s : CudaPacketStager) (ops : List StagerOp)
    (view : StagedPacketView)
    → (new_stager cuda device).0 ≡ ok s
    → let after = run_all cuda ops (record { stager = s; frames = [] }) in
      packet_view after.stager ≡ ok view
      → (0 < view.frame_count)
        × (view.frame_count ≤ codec_packet_frames)
        × (view.frame_count ≡ length after.frames)
        × (view.device_codes ≡ s.device_codes)
        × Holds view.device_codes after.stager.calls 0 after.frames
unfolding packet_view
packet_view-Holds cuda device s ops view h p =
    let v =
      run_all-Inv cuda s.device_codes ops (record { stager = s; frames = [] })
        (new_stager-Inv cuda device s h) in
    ground (arith, v.limit, v.counted, v.codes, v.held)
