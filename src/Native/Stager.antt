-- ===== src/Native/Stager.antt =====
-- native/qwen3-tts-runtime/src/cuda_packet_stager.rs: a packet of codec frames in device memory.
-- The CUDA runtime is a parameter: the status of a call and the pointer that it gives may depend on
-- every call before. Pointers are numbers, null is 0; a status is the pattern of a `c_int`.
pub mod Steps
pub mod Histories
pub mod Inv
pub mod Poison
use qwen3_tts_native.Base.{
  ℕ, ◌+◌, ◌*◌, Bool, true, false, ◌||◌, List, [], ◌∷◌, ◌++◌, Option, none, some, Result, ok, err,
  leb, ◌==◌, ◌!=◌, if◌then◌else◌,
}

abbrev pub codebooks : ℕ
codebooks = 16

abbrev pub codec_packet_frames : ℕ
codec_packet_frames = 4

-- `size_of::<u16>()` is 2.
abbrev pub frame_bytes : ℕ
frame_bytes = codebooks * 2

abbrev pub packet_bytes : ℕ
packet_bytes = codebooks * codec_packet_frames * 2

pub data Call : Type 0 where
  set_device malloc free : ℕ → Call
  stream_create event_create : Call
  stream_synchronize stream_destroy event_destroy : ℕ → Call
  -- The stream and the event, or the event and the stream.
  wait_event record_event : ℕ → ℕ → Call
  -- Destination, source, number of bytes and stream of an asynchronous copy.
  copy : ℕ → ℕ → ℕ → ℕ → Call

pub record Cuda : Type 0 where
  pub status : List Call → Call → ℕ
  pub pointer : List Call → Call → ℕ

-- An error by its text; `cuda_failed` by the call that failed and its status.
pub data StagerError : Type 0 where
  is_poisoned null_input is_full is_empty_buffer nothing_staged no_event : StagerError
  wrong_device wrong_count : ℕ → StagerError
  cuda_failed : Call → ℕ → StagerError

-- `calls` is what the stager asked of the runtime so far, the newest first.
pub record CudaPacketStager : Type 0 where
  pub calls : List Call
  pub device_index : ℕ
  pub device_codes : ℕ
  pub stream : ℕ
  pub copied_event : ℕ
  pub staged_frames : ℕ
  pub poisoned : Bool

pub record StagedPacketView : Type 0 where
  pub device_codes : ℕ
  pub frame_count : ℕ
  pub ready_event : ℕ

abbrev pub ask : CudaPacketStager → Call → CudaPacketStager
ask s c = record s { calls = c ∷ s.calls }

-- `CudaPacketStager::packet_view`.
unfoldable pub packet_view : CudaPacketStager → Result StagerError StagedPacketView
packet_view s =
    if s.poisoned
    then err is_poisoned
    else if s.staged_frames == 0
    then err is_empty_buffer
    else ok record {
      device_codes = s.device_codes;
      frame_count = s.staged_frames;
      ready_event = s.copied_event;
    }

-- `CudaPacketStager::drop`: the calls that it makes, the newest first.
unfoldable pub teardown : CudaPacketStager → List Call
teardown s =
    let l0 = set_device s.device_index ∷ s.calls in
    let l1 = if s.stream != 0 then stream_synchronize s.stream ∷ l0 else l0 in
    let l2 = if s.copied_event != 0 then event_destroy s.copied_event ∷ l1 else l1 in
    let l3 = if s.stream != 0 then stream_destroy s.stream ∷ l2 else l2 in
    if s.device_codes != 0 then free s.device_codes ∷ l3 else l3

module _ (cuda : Cuda) where
  -- A call whose failure ends the operation.
  abbrev pub or_fail :
      {A : Type 0}
      → CudaPacketStager
      → Call
      → (CudaPacketStager → Result StagerError A × CudaPacketStager)
      → Result StagerError A × CudaPacketStager
  or_fail s c next =
      if cuda.status s.calls c == 0
      then next (ask s c)
      else (err (cuda_failed c (cuda.status s.calls c)), ask s c)

  -- A call whose failure also poisons the stager.
  abbrev pub or_poison :
      {A : Type 0}
      → CudaPacketStager
      → Call
      → (CudaPacketStager → Result StagerError A × CudaPacketStager)
      → Result StagerError A × CudaPacketStager
  or_poison s c next =
      if cuda.status s.calls c == 0
      then next (ask s c)
      else (err (cuda_failed c (cuda.status s.calls c)), record (ask s c) { poisoned = true })

  -- `CudaPacketStager::new`; after an error the stager is dropped.
  unfoldable pub new_stager : ℕ → Result StagerError CudaPacketStager × List Call
  unfolding teardown
  new_stager device =
      let c0 = set_device device in
      let l0 = c0 ∷ [] in
      if cuda.status [] c0 != 0
      then (err (cuda_failed c0 (cuda.status [] c0)), l0)
      else let bare : CudaPacketStager = record {
        calls = l0;
        device_index = device;
        device_codes = 0;
        stream = 0;
        copied_event = 0;
        staged_frames = 0;
        poisoned = false;
      } in
        let c1 = malloc packet_bytes in
        let s1 : CudaPacketStager = record (ask bare c1) { device_codes = cuda.pointer l0 c1 } in
        if cuda.status l0 c1 != 0
        then (err (cuda_failed c1 (cuda.status l0 c1)), teardown s1)
        else let l1 = s1.calls in
          let s2 : CudaPacketStager = record (ask s1 stream_create) {
            stream = cuda.pointer l1 stream_create;
          } in
          if cuda.status l1 stream_create != 0
          then (err (cuda_failed stream_create (cuda.status l1 stream_create)), teardown s2)
          else let l2 = s2.calls in
            let s3 : CudaPacketStager = record (ask s2 event_create) {
              copied_event = cuda.pointer l2 event_create;
            } in
            if cuda.status l2 event_create != 0
            then (err (cuda_failed event_create (cuda.status l2 event_create)), teardown s3)
            else (ok s3, s3.calls)

  -- The end of `stage_frame`, after the copy.
  unfoldable pub record_copy : CudaPacketStager → Result StagerError ℕ × CudaPacketStager
  record_copy s =
      or_poison s (record_event s.copied_event s.stream)
        (λ t. (ok t.copied_event, record t { staged_frames = t.staged_frames + 1 }))

  -- From the copy into the next slot on.
  unfoldable pub copy_slot : ℕ → CudaPacketStager → Result StagerError ℕ × CudaPacketStager
  copy_slot device_codes s =
      or_poison s
        (copy (s.device_codes + s.staged_frames * codebooks * 2) device_codes (codebooks * 2)
          s.stream)
        record_copy

  -- From the wait for the producer on.
  unfoldable pub await_frame : ℕ → ℕ → CudaPacketStager → Result StagerError ℕ × CudaPacketStager
  await_frame device_codes producer_ready_event s =
      or_poison s (wait_event s.stream producer_ready_event) (copy_slot device_codes)

  unfoldable pub stage_frame :
      CudaPacketStager → ℕ → ℕ → ℕ → ℕ → Result StagerError ℕ × CudaPacketStager
  stage_frame s device_codes code_count producer_ready_event source_device =
      if s.poisoned
      then (err is_poisoned, s)
      else if source_device != s.device_index
      then (err (wrong_device source_device), s)
      else if (device_codes == 0) || (producer_ready_event == 0)
      then (err null_input, s)
      else if code_count != codebooks
      then (err (wrong_count code_count), s)
      else if leb codec_packet_frames s.staged_frames
      then (err is_full, s)
      else or_fail s (set_device s.device_index) (await_frame device_codes producer_ready_event)

  -- `release_after_consumer` from the wait for the consumer on.
  unfoldable pub await_consumer :
      ℕ → CudaPacketStager → Result StagerError (Unit {0}) × CudaPacketStager
  await_consumer consumer_done_event s =
      or_poison s (wait_event s.stream consumer_done_event)
        (λ t. (ok tt, record t { staged_frames = 0 }))

  unfoldable pub release_after_consumer :
      CudaPacketStager → ℕ → Result StagerError (Unit {0}) × CudaPacketStager
  release_after_consumer s consumer_done_event =
      if s.poisoned
      then (err is_poisoned, s)
      else if s.staged_frames == 0
      then (err nothing_staged, s)
      else if consumer_done_event == 0
      then (err no_event, s)
      else or_fail s (set_device s.device_index) (await_consumer consumer_done_event)

-- The frames held after `stage_frame`, which appends the source if it succeeds.
abbrev pub staged : List ℕ → ℕ → Result StagerError ℕ → List ℕ
staged fs codes (ok event) = fs ++ codes ∷ []
staged fs codes (err e) = fs

abbrev pub released : List ℕ → Result StagerError (Unit {0}) → List ℕ
released fs (ok t) = []
released fs (err e) = fs

-- What a session does with its stager.
pub data StagerOp : Type 0 where
  stages : (device_codes code_count producer_ready_event source_device : ℕ) → StagerOp
  releases : (consumer_done_event : ℕ) → StagerOp

-- A stager beside the frames staged since the last release, by their sources in order.
pub record Loaded : Type 0 where
  pub stager : CudaPacketStager
  pub frames : List ℕ

unfoldable pub run : Cuda → StagerOp → Loaded → Loaded
run cuda (stages codes count event device) l =
    let r = stage_frame cuda l.stager codes count event device in
    record { stager = r.1; frames = staged l.frames codes r.0 }
run cuda (releases event) l =
    let r = release_after_consumer cuda l.stager event in
    record { stager = r.1; frames = released l.frames r.0 }

unfoldable pub run_all : Cuda → List StagerOp → Loaded → Loaded
run_all cuda [] l = l
run_all cuda (op ∷ ops) l = run_all cuda ops (run cuda op l)

-- The source of the last copy to an address of device memory.
abbrev pub source_at : List Call → ℕ → Option ℕ
source_at [] a = none
source_at (copy destination source bytes stream ∷ cs) a =
    if destination == a then some source else source_at cs a
source_at (_ ∷ cs) a = source_at cs a
