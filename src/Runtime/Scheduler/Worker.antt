-- ===== src/Runtime/Scheduler/Worker.antt =====
-- scheduler.rs: the worker thread's state, its commands and the removal of requests. A request's
-- `Arc<RequestShared>` is its entry in the store, which its handle reads and writes too.
pub mod Start
pub mod Accept
pub mod Step
pub mod Books
pub mod Limits
pub mod Refinement
pub mod Loop
pub mod Front
pub mod Admission
pub mod Answer
pub mod SwapRemove
pub mod Walk
pub mod Removal
pub mod Ending
pub mod Balance
use qwen3_tts_native.Base.{
  ℕ, zero, suc, ◌+◌, ◌-◌, ◌≡◌, Bool, true, false, ◌||◌, List, [], ◌∷◌, ◌++◌, length, Option, none,
  some, is_some, get_elem?, set, ◌==◌, if◌then◌else◌,
}
use qwen3_tts_native.Runtime.Request.{RequestRecord}
use qwen3_tts_native.Runtime.Scheduler.Slots.{SlotPool, release}
use qwen3_tts_native.Runtime.Scheduler.Shared.{
  BackendError, RequestShared, mark_cancelled, mark_failed, mark_retired,
}
use qwen3_tts_native.Runtime.Scheduler.Backend.{Backend, BackendRequest}

abbrev pub Store : Type 0
Store = ℕ → RequestShared

abbrev pub update : Store → ℕ → (RequestShared → RequestShared) → Store
update store id f = λ j. if j == id then f (store j) else store j

-- `PendingStart`. Its shared part is the store's entry at the request's id; its `SlotPermit` is
-- released where it is retired.
pub record PendingStart : Type 0 where
  pub request : BackendRequest
  pub enqueued_at : ℕ

pub record ActiveRequest (Session : Type 0) : Type 0 where
  pub session : Option Session
  pub record_of : RequestRecord
  pub started_at : ℕ
  pub max_codec_frames : ℕ

pub data Command : Type 0 where
  start : PendingStart → Command
  cancel : ℕ → Command
  wake : Command
  shutdown : Command

-- `Vec::swap_remove`: the last element takes the place of the removed one.
module _ {ℓ} {A : Type ℓ} where
  unfoldable pub drop_last : List A → List A
  drop_last [] = []
  drop_last (x ∷ []) = []
  drop_last (x ∷ y ∷ xs) = x ∷ drop_last (y ∷ xs)

  unfoldable pub last_or : A → List A → A
  last_or d [] = d
  last_or d (x ∷ xs) = last_or x xs

  unfoldable pub swap_remove : ℕ → List A → List A
  unfolding drop_last last_or
  swap_remove i [] = []
  swap_remove i (x ∷ xs) = set (drop_last (x ∷ xs)) i (last_or x xs)

  -- `Iterator::position`, from position `i` on.
  unfoldable pub position : (A → Bool) → ℕ → List A → Option ℕ
  position test i [] = none
  position test i (x ∷ xs) = if test x then some i else position test (suc i) xs

  unfoldable pub find : (A → Bool) → List A → Option A
  find test [] = none
  find test (x ∷ xs) = if test x then some x else find test xs

module _ (B : Backend) where
  open B use {State, Session}

  pub record Worker : Type 0 where
    pub store : Store
    pub slots : SlotPool
    pub pending : List PendingStart
    pub active : List (ActiveRequest Session)
    pub backend : State

-- `RequestShared::is_cancel_requested`.
unfoldable pub is_cancel_requested : RequestShared → Bool
is_cancel_requested s = s.cancel_requested

unfoldable pub failed_or_cancelled : RequestShared → Bool
failed_or_cancelled s = is_some s.failure || s.cancel_requested

unfoldable pub is_finished : RequestShared → Bool
unfolding failed_or_cancelled
is_finished s = s.producer_finished || failed_or_cancelled s

module _ {B : Backend} where
  open B use {State, Session}

  unfoldable pub on_shared : Worker B → ℕ → (RequestShared → RequestShared) → Worker B
  on_shared w id f = record w { store = update w.store id f }

  -- `retire_pending` and `retire_active` of a request that has left its list: its permit is
  -- released, then it is marked.
  unfoldable pub retire : Worker B → ℕ → Worker B
  unfolding on_shared release mark_retired
  retire w id = on_shared (record w { slots = release w.slots }) id mark_retired

  cancel_pending : Worker B → ℕ → Option ℕ → Worker B
  unfolding on_shared retire mark_cancelled swap_remove
  cancel_pending w id none = w
  cancel_pending w id (some i) =
      retire (on_shared (record w { pending = swap_remove i w.pending }) id mark_cancelled) id

  cancel_active : Worker B → ℕ → Option (ActiveRequest Session) → Worker B
  unfolding on_shared mark_cancelled
  cancel_active w id none = w
  cancel_active w id (some a) = on_shared w id mark_cancelled

  -- `true` when the worker has to stop.
  unfoldable pub handle_command : Command → Worker B → Bool × Worker B
  unfolding cancel_pending cancel_active position find
  handle_command (start p) w = (false, record w { pending = w.pending ++ p ∷ [] })
  handle_command (cancel id) w =
      let w' = cancel_pending w id (position (λ p. p.request.id == id) 0 w.pending) in
      (false, cancel_active w' id (find (λ a. a.record_of.id == id) w'.active))
  handle_command wake w = (false, w)
  handle_command shutdown w = (true, w)

  -- `cancel_backend_safely` for a request that may have lost its session; a panic is caught.
  unfoldable pub cancel_session : Worker B → Option Session → Worker B
  cancel_session w none = w
  cancel_session w (some session) = record w { backend = B.cancel w.backend session }

  remove_at :
      (ActiveRequest Session → Worker B → Worker B)
      → Worker B
      → ℕ
      → ActiveRequest Session
      → Worker B
  unfolding swap_remove
  remove_at removal w index a = removal a (record w { active = swap_remove index w.active })

  -- One round of the loop over `active`, with what the loop does next.
  remove_step :
      (RequestShared → Bool)
      → (ActiveRequest Session → Worker B → Worker B)
      → (ℕ → Worker B → Worker B)
      → ℕ
      → Worker B
      → Option (ActiveRequest Session)
      → Worker B
  unfolding remove_at
  remove_step test removal again index w none = w
  remove_step test removal again index w (some a) = elim (test (w.store a.record_of.id)) [
    | true ↦ again index (remove_at removal w index a)
    | false ↦ again (suc index) w
  ]

  -- `while index < active.len()`: a round either removes an element or moves on, so as many rounds
  -- as there are elements from `index` on are enough.
  unfoldable pub remove_loop :
      (RequestShared → Bool)
      → (ActiveRequest Session → Worker B → Worker B)
      → ℕ
      → ℕ
      → Worker B
      → Worker B
  unfolding remove_step
  remove_loop test removal zero index w = w
  remove_loop test removal (suc fuel) index w =
      remove_step test removal (remove_loop test removal fuel) index w (get_elem? w.active index)

  remove_cancelled_one : ActiveRequest Session → Worker B → Worker B
  unfolding cancel_session on_shared retire mark_cancelled
  remove_cancelled_one a w =
      let id = a.record_of.id in
      retire (on_shared (cancel_session w a.session) id mark_cancelled) id

  unfoldable pub remove_cancelled : Worker B → Worker B
  unfolding remove_loop is_cancel_requested remove_cancelled_one
  remove_cancelled w = remove_loop is_cancel_requested remove_cancelled_one (length w.active) 0 w

  remove_finished_one : ActiveRequest Session → Worker B → Worker B
  unfolding cancel_session retire failed_or_cancelled
  remove_finished_one a w =
      let id = a.record_of.id in
      retire (if failed_or_cancelled (w.store id) then cancel_session w a.session else w) id

  unfoldable pub remove_finished : Worker B → Worker B
  unfolding remove_loop is_finished remove_finished_one
  remove_finished w = remove_loop is_finished remove_finished_one (length w.active) 0 w
