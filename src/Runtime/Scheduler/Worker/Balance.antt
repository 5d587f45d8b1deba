-- ===== src/Runtime/Scheduler/Worker/Balance.antt =====
-- The permits of the slot pool: one for each request that is pending, active or still in the channel.
use qwen3_tts_native.Base.{
  ℕ, zero, suc, ◌+◌, ◌-◌, ◌<◌, ◌≤◌, ◌≡◌, refl, Bool, List, [], ◌∷◌, length, length-set,
  length-append, Option, none, some, get_elem?, Result, ok, err, arith, Option-cases, Bool-cases,
  ◌==◌, ==_iff, inl, inr,
}
use qwen3_tts_native.Runtime.Scheduler.Shared.{BackendError, RequestShared, mark_cancelled}
use qwen3_tts_native.Runtime.Scheduler.Backend.{Backend, BackendStarted}
use qwen3_tts_native.Runtime.Scheduler.Worker.{
  Worker, is_cancel_requested, PendingStart, ActiveRequest, Command, start, cancel, wake, shutdown,
  on_shared, retire, cancel_session, handle_command, cancel_active, cancel_pending, swap_remove,
  drop_last, position, remove_loop, remove_at, remove_cancelled_one, remove_finished_one,
  failed_or_cancelled, is_finished, remove_step, remove_cancelled, remove_finished,
}
use qwen3_tts_native.Runtime.Scheduler.Worker.Start.{
  drain_pending, mark_all_prefilling, fail_pending, activate, activate_all, finish_start,
  start_ready, start_pending,
}

-- The pool's books: `n` permits are held outside the worker's lists.
pub record Accounts {B : Backend} (c n : ℕ) (w : Worker B) : Type 0 where
  pub capacity : w.slots.capacity ≡ c
  pub used : w.slots.used ≡ length w.pending + length w.active + n
  pub within : w.slots.used ≤ c

abbrev pub permits : Command → ℕ
permits (start p) = 1
permits _ = 0

abbrev pub permits_in : List Command → ℕ
permits_in [] = 0
permits_in (c ∷ cs) = permits c + permits_in cs

module _ {ℓ} {A : Type ℓ} where
  length-drop_last : (x : A) (xs : List A) → length (drop_last (x ∷ xs)) ≡ length xs
  unfolding drop_last
  length-drop_last x [] = refl
  length-drop_last x (y ∷ xs) = omega (arith, length-drop_last y xs)

  pub length-swap_remove : (i : ℕ) (xs : List A) → length (swap_remove i xs) ≡ length xs - 1
  unfolding swap_remove
  length-swap_remove i [] = omega arith
  length-swap_remove i (x ∷ xs) = rw length-set (omega (arith, length-drop_last x xs))

  position-pos :
      (test : A → Bool) (i : ℕ) (xs : List A) {k : ℕ} → position test i xs ≡ some k → 0 < length xs
  unfolding position
  position-pos test i [] h = cc
  position-pos test i (x ∷ xs) h = omega arith

  get_elem?-pos : (xs : List A) (i : ℕ) {a : A} → get_elem? xs i ≡ some a → 0 < length xs
  get_elem?-pos [] i h = cc
  get_elem?-pos (x ∷ xs) i h = omega arith

module _ {B : Backend} (c : ℕ) where
  pub retire-Accounts :
      (n : ℕ) (w : Worker B) (id : ℕ) → Accounts c (n + 1) w → Accounts c n (retire w id)
  unfolding retire
  retire-Accounts n w id v = ground arith

  cancel_active-Accounts :
      (n : ℕ) (w : Worker B) (id : ℕ) (o : Option (ActiveRequest B.Session))
      → Accounts c n w
      → Accounts c n (cancel_active w id o)
  unfolding cancel_active
  cancel_active-Accounts n w id none v = v
  cancel_active-Accounts n w id (some a) v = ground arith

  cancel_pending-Accounts :
      (n : ℕ) (w : Worker B) (id : ℕ) (test : PendingStart → Bool) (o : Option ℕ)
      → position test 0 w.pending ≡ o
      → Accounts c n w
      → Accounts c n (cancel_pending w id o)
  unfolding cancel_pending
  cancel_pending-Accounts n w id test none e v = v
  cancel_pending-Accounts n w id test (some i) e v =
      ground (arith, length-swap_remove i w.pending, position-pos test 0 w.pending {k = i})

  pub handle_command-Accounts :
      (n : ℕ) (x : Command) (w : Worker B)
      → Accounts c (n + permits x) w
      → Accounts c n (handle_command x w).1
  unfolding handle_command
  handle_command-Accounts n (start p) w v = ground (arith, length-append w.pending (p ∷ []))
  handle_command-Accounts n (cancel id) w v =
      cancel_active-Accounts n _ id _
        (cancel_pending-Accounts n w id (λ p. p.request.id == id) _ refl (ground arith))
  handle_command-Accounts n wake w v = ground arith
  handle_command-Accounts n shutdown w v = ground arith

  -- `start_pending`.
  drain_pending-Accounts :
      (ps : List PendingStart) (n : ℕ) (w : Worker B)
      → Accounts c (n + length ps) w
      → Accounts c (n + length (drain_pending ps w).0) (drain_pending ps w).1
  unfolding drain_pending
  drain_pending-Accounts [] n w v = v
  drain_pending-Accounts (p ∷ ps) n w v =
      elim (Bool-cases (is_cancel_requested (w.store p.request.id))) [
        | inl e ↦ rw e (drain_pending-Accounts ps n _ (ground arith))
        | inr e ↦ rw e (
            shift (length (drain_pending ps w).0) (drain_pending ps w).1
              (drain_pending-Accounts ps (n + 1) w (ground arith)))
      ]
    where
      shift : (k : ℕ) (w' : Worker B) → Accounts c (n + 1 + k) w' → Accounts c (n + suc k) w'
      shift k w' h = ground arith

  mark_all_prefilling-Accounts :
      (now : ℕ) (ps : List PendingStart) (n : ℕ) (w : Worker B)
      → Accounts c n w
      → Accounts c n (mark_all_prefilling now ps w)
  unfolding mark_all_prefilling
  mark_all_prefilling-Accounts now [] n w v = v
  mark_all_prefilling-Accounts now (p ∷ ps) n w v =
      mark_all_prefilling-Accounts now ps n _
        (record { capacity = v.capacity; used = v.used; within = v.within })

  fail_pending-Accounts :
      (e : BackendError) (ps : List PendingStart) (n : ℕ) (w : Worker B)
      → Accounts c (n + length ps) w
      → Accounts c n (fail_pending e ps w)
  unfolding fail_pending
  fail_pending-Accounts e [] n w v = ground arith
  fail_pending-Accounts e (p ∷ ps) n w v = fail_pending-Accounts e ps n _ (ground arith)

  activate-Accounts :
      (p : PendingStart) (r : Result BackendError (BackendStarted B.Session)) (n : ℕ) (w : Worker B)
      → Accounts c (n + 1) w
      → Accounts c n (activate p r w)
  unfolding activate
  activate-Accounts p (err e) n w v = ground arith
  activate-Accounts p (ok x) n w v = record {
    capacity = v.capacity;
    used = omega (arith, v.used, length-append w.active);
    within = v.within;
  }

  activate_all-Accounts :
      (ps : List PendingStart) (rs : List (Result BackendError (BackendStarted B.Session))) (n : ℕ)
      (w : Worker B)
      → length rs ≡ length ps
      → Accounts c (n + length ps) w
      → Accounts c n (activate_all ps rs w)
  unfolding activate_all
  activate_all-Accounts [] rs n w e v = ground arith
  activate_all-Accounts (p ∷ ps) [] n w e v = absurd (omega arith)
  activate_all-Accounts (p ∷ ps) (r ∷ rs) n w e v =
      activate_all-Accounts ps rs n _ (omega arith)
        (activate-Accounts p r (n + length ps) w (ground arith))

  finish_start-Accounts :
      (ps : List PendingStart) (o : Option (List (Result BackendError (BackendStarted B.Session))))
      (n : ℕ) (w : Worker B)
      → Accounts c (n + length ps) w
      → Accounts c n (finish_start ps o w)
  unfolding finish_start
  finish_start-Accounts ps none n w v = fail_pending-Accounts _ ps n w v
  finish_start-Accounts ps (some rs) n w v = elim (Bool-cases (length rs == length ps)) [
    | inl e ↦ rw e (activate_all-Accounts ps rs n w ((==_iff _ _).0 e) v)
    | inr e ↦ rw e (fail_pending-Accounts _ ps n w v)
  ]

  start_ready-Accounts :
      (now : ℕ) (ps : List PendingStart) (n : ℕ) (w : Worker B)
      → Accounts c (n + length ps) w
      → Accounts c n (start_ready now ps w)
  unfolding start_ready
  start_ready-Accounts now [] n w v = ground arith
  start_ready-Accounts now (p ∷ ps) n w v =
      let m = mark_all_prefilling-Accounts now (p ∷ ps) _ w v in
      finish_start-Accounts (p ∷ ps) _ n _
        (record { capacity = m.capacity; used = m.used; within = m.within })

  pub start_pending-Accounts :
      (now : ℕ) (n : ℕ) (w : Worker B) → Accounts c n w → Accounts c n (start_pending now w)
  unfolding start_pending
  start_pending-Accounts now n w v = start_ready-Accounts now _ n _ (
      drain_pending-Accounts w.pending n (record w { pending = [] })
        (record { capacity = v.capacity; used = omega (arith, v.used); within = v.within }))

  -- `remove_cancelled` and `remove_finished`.
  remove_loop-Accounts :
      (test : RequestShared → Bool) (removal : ActiveRequest B.Session → Worker B → Worker B)
      → ((n : ℕ) (a : ActiveRequest B.Session) (w : Worker B)
          → Accounts c (n + 1) w
          → Accounts c n (removal a w))
      → (fuel index n : ℕ) (w : Worker B) → Accounts c n w
      → Accounts c n (remove_loop test removal fuel index w)
  unfolding remove_loop remove_at
  remove_loop-Accounts test removal keep zero index n w v = v
  remove_loop-Accounts test removal keep (suc fuel) index n w v =
      elim (Option-cases (get_elem? w.active index)) [
        | inl e ↦ rw (e, remove_step) v
        | inr (a, e) ↦
            rw (e, remove_step)
              (elim (Bool-cases (test (w.store a.record_of.id))) [
                | inl t ↦
                    rw (t, remove_step)
                      (remove_loop-Accounts test removal keep fuel index n _ (
                        keep n a _ (record {
                          capacity = v.capacity;
                          used = omega (
                            arith,
                            v.used,
                            length-swap_remove index w.active,
                            get_elem?-pos w.active index e,
                          );
                          within = v.within;
                        })))
                | inr t ↦
                    rw (t, remove_step)
                      (remove_loop-Accounts test removal keep fuel (suc index) n w v)
              ])
      ]

  pub cancel_session-Accounts :
      (n : ℕ) (w : Worker B) (o : Option B.Session)
      → Accounts c n w
      → Accounts c n (cancel_session w o)
  unfolding cancel_session
  cancel_session-Accounts n w none v = v
  cancel_session-Accounts n w (some x) v = record {
    capacity = v.capacity;
    used = v.used;
    within = v.within;
  }

  pub on_shared-Accounts :
      (n : ℕ) (w : Worker B) (id : ℕ) (f : RequestShared → RequestShared)
      → Accounts c n w
      → Accounts c n (on_shared w id f)
  unfolding on_shared
  on_shared-Accounts n w id f v = record { capacity = v.capacity; used = v.used; within = v.within }

  pub remove_cancelled-Accounts :
      (n : ℕ) (w : Worker B) → Accounts c n w → Accounts c n (remove_cancelled w)
  unfolding remove_cancelled
  remove_cancelled-Accounts n w v =
      remove_loop-Accounts is_cancel_requested remove_cancelled_one
        (λ n a w h.
          retire-Accounts n _ _
            (on_shared-Accounts _ _ _ mark_cancelled (cancel_session-Accounts _ w a.session h)))
        _ 0 n w v

  pub remove_finished-Accounts :
      (n : ℕ) (w : Worker B) → Accounts c n w → Accounts c n (remove_finished w)
  unfolding remove_finished
  remove_finished-Accounts n w v =
      remove_loop-Accounts is_finished remove_finished_one
        (λ n a w h.
          retire-Accounts n _ _ (elim (Bool-cases (failed_or_cancelled (w.store a.record_of.id))) [
            | inl e ↦ rw e (cancel_session-Accounts _ w a.session h)
            | inr e ↦ rw e h
          ]))
        _ 0 n w v
