-- ===== src/Runtime/Scheduler/Backend.antt =====
-- scheduler.rs: the trait `StreamingBackend` with the data that it exchanges with the worker.
use qwen3_tts_native.Base.{ℕ, suc, Bool, List, [], ◌∷◌, Option, Result}
use qwen3_tts_native.Runtime.Types.{RequestInput, GenerationConfig, FinishReason}
use qwen3_tts_native.Runtime.Scheduler.Shared.{BackendError, Pcm}

pub record BackendRequest : Type 0 where
  pub id : ℕ
  pub input : RequestInput
  pub generation : GenerationConfig

pub record BackendStarted (Session : Type 0) : Type 0 where
  pub session : Session
  pub prefill_microseconds : ℕ
  pub peak_request_device_bytes : ℕ
  pub peak_request_host_bytes : ℕ

pub record BackendPacket : Type 0 where
  pub codec_frames : ℕ
  pub is_final : Bool
  pub finish_reason : FinishReason
  pub talker_gpu_microseconds : ℕ
  pub codec_gpu_microseconds : ℕ
  pub peak_request_device_bytes : ℕ
  pub peak_request_host_bytes : ℕ

-- What a call of `step_batch` did: its results, or `none` if it panicked, and what it made of the
-- input at each position. A slice of `&mut` inputs keeps its length.
pub record StepBatch (State Session : Type 0) : Type 0 where
  pub results : Option (List (Result BackendError BackendPacket))
  pub effect : ℕ → Session × Pcm → Session × Pcm
  pub state : State

-- The backend is a parameter of the worker. Its calls may fail, panic (`none`) or return lists of
-- any length; nothing is assumed of them.
pub record Backend : Type 1 where
  pub State : Type 0
  pub Session : Type 0
  pub start_batch :
      State
      → List BackendRequest
      → Option (List (Result BackendError (BackendStarted Session))) × State
  pub step_batch : State → List (Session × Pcm) → ℕ → StepBatch State Session
  pub cancel : State → Session → State

-- The inputs of `step_batch` after the call, from position `i` on.
unfoldable pub apply_effect :
    {S : Type 0} → (ℕ → S × Pcm → S × Pcm) → ℕ → List (S × Pcm) → List (S × Pcm)
apply_effect effect i [] = []
apply_effect effect i (x ∷ xs) = effect i x ∷ apply_effect effect (suc i) xs
