-- ===== src/Native/Backend/Batches.antt =====
-- native_backend.rs: `NativeBackend` as the scheduler's `StreamingBackend`. The threads of a batch
-- share no session and are joined in order, and none of them panics.
use qwen3_tts_native.Base.{
  ℕ, zero, suc, ◌*◌, ◌≤◌, ◌≡◌, subst, ap, ◌∙◌, Bool, List, [], ◌∷◌, map, get_elem?, replicate, some,
  Result, ok, err, arith,
}
use qwen3_tts_native.Runtime.Types.{samples_per_codec_frame}
use qwen3_tts_native.Runtime.Scheduler.Shared.{BackendError, backend_text, Pcm}
use qwen3_tts_native.Runtime.Scheduler.Backend.{Backend, BackendRequest, BackendPacket}
use qwen3_tts_native.Runtime.Scheduler.Worker.Accept.{pcm_sentinel, validate_backend_packet}
use qwen3_tts_native.Native.Stager.{Cuda}
use qwen3_tts_native.Native.Talker.{TalkerLibrary}
use qwen3_tts_native.Native.Backend.{Codec, NativeFailure, failure_status}
use qwen3_tts_native.Native.Backend.Steps.{Session, step_session}
use qwen3_tts_native.Native.Backend.Start.{Starts, start_session}
use qwen3_tts_native.Native.Backend.Packets.{KeepsLength}
use qwen3_tts_native.Native.Backend.Valid.{step_session-valid}

-- The error with which a failure reaches the scheduler, its text given by `describe`.
unfoldable pub backend_error :
    {A : Type 0} → (NativeFailure → List ℕ) → Result NativeFailure A → Result BackendError A
backend_error describe (ok a) = ok a
backend_error describe (err e) =
    err record { status = failure_status e; message = backend_text (describe e) }

some_same : {A : Type 0} {a b : A} → some a ≡ some b → a ≡ b
some_same h = cc

backend_error-ok :
    {A : Type 0} (describe : NativeFailure → List ℕ) (r : Result NativeFailure A) (a : A)
    → backend_error describe r ≡ ok a
    → r ≡ ok a
unfolding backend_error
backend_error-ok describe (ok b) a h = ap ok (ground (arith, h))
backend_error-ok describe (err e) a h = cc

module _ (lib : TalkerLibrary) (codec : Codec) (cuda : Cuda) (accumulate : ℕ → ℕ → ℕ → ℕ)
    (describe : NativeFailure → List ℕ) where
  abbrev Input : Type 0
  Input = Session lib codec cuda accumulate × Pcm

  -- `step_batch`: a step of each input with its own buffer.
  unfoldable pub step_batch : ℕ → List Input → List (Result BackendError BackendPacket)
  step_batch packet_frames [] = []
  step_batch packet_frames ((s, pcm) ∷ inputs) =
      backend_error describe (step_session lib codec cuda accumulate s packet_frames pcm).0
      ∷ step_batch packet_frames inputs

  -- The backend, given what the parts answer to each request.
  abbrev pub native_backend :
      Bool → ℕ → (BackendRequest → Starts lib codec cuda accumulate) → Backend
  native_backend has_runtime device answers = record {
    State = Unit {0};
    Session = Session lib codec cuda accumulate;
    start_batch = λ state requests. (
      some (
          map
            (λ r.
              backend_error describe
                (start_session lib codec cuda accumulate has_runtime device (answers r)))
            requests),
      state,
    );
    step_batch = λ state inputs packet_frames. record {
      results = some (step_batch packet_frames inputs);
      effect = λ i input. (step_session lib codec cuda accumulate input.0 packet_frames input.1).1;
      state = state;
    };
    cancel = λ state session. state;
  }

  step_batch-at :
      (packet_frames : ℕ) (inputs : List Input) (i : ℕ) (s : Session lib codec cuda accumulate)
      (pcm : Pcm) (p : BackendPacket)
      → get_elem? inputs i ≡ some (s, pcm)
      → get_elem? (step_batch packet_frames inputs) i ≡ some (ok p)
      → (step_session lib codec cuda accumulate s packet_frames pcm).0 ≡ ok p
  unfolding step_batch backend_error
  step_batch-at packet_frames [] i s pcm p g h = cc
  step_batch-at packet_frames ((t, b) ∷ inputs) zero s pcm p g h =
      let same : (t, b) ≡ (s, pcm) = some_same g in
      subst (λ x. (step_session lib codec cuda accumulate x.0 packet_frames x.1).0 ≡ ok p) same
        (backend_error-ok describe _ p (some_same h))
  step_batch-at packet_frames ((t, b) ∷ inputs) (suc i) s pcm p g h =
      step_batch-at packet_frames inputs i s pcm p g h

  -- In every batch of the native backend as the scheduler calls it, whatever the libraries do: a
  -- packet returned for an input whose buffer has `packet_frames` frames, one or more, filled with
  -- sentinels as the scheduler fills it, passes the scheduler's `validate_backend_packet` with the
  -- buffer that the step left, for first and later packets, on the host path and the device's. It is
  -- assumed that the codec's calls keep the length of the slice that they are given.
  pub step_batch-valid :
      (has_runtime : Bool) (device : ℕ)
      (answers : BackendRequest → Starts lib codec cuda accumulate) (packet_frames i : ℕ)
      (inputs : List Input) (s : Session lib codec cuda accumulate)
      (results : List (Result BackendError BackendPacket)) (p : BackendPacket)
      → KeepsLength codec
      → 1 ≤ packet_frames
      → let pcm = replicate (packet_frames * samples_per_codec_frame) pcm_sentinel in
        let batch =
          (native_backend has_runtime device answers).step_batch tt inputs packet_frames in
        get_elem? inputs i ≡ some (s, pcm)
        → batch.results ≡ some results
        → get_elem? results i ≡ some (ok p)
        → validate_backend_packet p packet_frames (batch.effect i (s, pcm)).1 ≡ ok tt
  step_batch-valid has_runtime device answers packet_frames i inputs s results p keeps one g r h =
      step_session-valid lib codec cuda accumulate s packet_frames p keeps one (
        step_batch-at packet_frames inputs i s
          (replicate (packet_frames * samples_per_codec_frame) pcm_sentinel) p g
          (ap (λ l. get_elem? l i) (some_same r) ∙ h))
