-- ===== src/Runtime/Scheduler/Worker/Books.antt =====
-- A batch of generation leaves the books of the slot pool as they are.
use qwen3_tts_native.Base.{
  ℕ, ◌-◌, map, ◌==◌, List, [], ◌∷◌, length, length-set, Option, none, some, get_elem?, Result,
  Bool-cases, inl, inr,
}
use qwen3_tts_native.Runtime.Request.{FloatOps}
use qwen3_tts_native.Runtime.Scheduler.Shared.{
  BackendError, RequestShared, Pcm, duration_microseconds,
}
use qwen3_tts_native.Runtime.Scheduler.Backend.{Backend, BackendPacket, apply_effect}
use qwen3_tts_native.Runtime.Scheduler.Worker.{Worker, ActiveRequest}
use qwen3_tts_native.Runtime.Scheduler.Worker.Balance.{Accounts}
use qwen3_tts_native.Runtime.Scheduler.Worker.Step.{
  Selected, select_buffer, select_session, select_one, select, give_back_one, give_back, finish_one,
  finish_all, finish_step, step_eligible, input_of, after_backend,
}

module _ {B : Backend} (c n : ℕ) where
  select_buffer-Accounts :
      (i : ℕ) (a : ActiveRequest B.Session) (x : B.Session) (w : Worker B)
      (o : Option (Pcm × RequestShared))
      → Accounts c n w
      → Accounts c n (select_buffer i a x w o).1
  unfolding select_buffer
  select_buffer-Accounts i a x w none v = record {
    capacity = v.capacity;
    used = v.used;
    within = v.within;
  }
  select_buffer-Accounts i a x w (some (pcm, s)) v = record {
    capacity = v.capacity;
    used = rw length-set v.used;
    within = v.within;
  }

  select_session-Accounts :
      (i : ℕ) (a : ActiveRequest B.Session) (w : Worker B) (o : Option B.Session)
      → Accounts c n w
      → Accounts c n (select_session i a w o).1
  unfolding select_session
  select_session-Accounts i a w none v = record {
    capacity = v.capacity;
    used = v.used;
    within = v.within;
  }
  select_session-Accounts i a w (some x) v = select_buffer-Accounts i a x w _ v

  select_one-Accounts :
      (i : ℕ) (w : Worker B) (o : Option (ActiveRequest B.Session))
      → Accounts c n w
      → Accounts c n (select_one i w o).1
  unfolding select_one
  select_one-Accounts i w none v = v
  select_one-Accounts i w (some a) v = select_session-Accounts i a w a.session v

  select-Accounts :
      (indices : List ℕ) (w : Worker B) → Accounts c n w → Accounts c n (select indices w).1
  unfolding select
  select-Accounts [] w v = v
  select-Accounts (i ∷ indices) w v =
      select-Accounts indices _ (select_one-Accounts i w (get_elem? w.active i) v)

  give_back_one-Accounts :
      (e : BackendError) (x : Selected B.Session) (w : Worker B)
      (o : Option (ActiveRequest B.Session))
      → Accounts c n w
      → Accounts c n (give_back_one e x w o)
  unfolding give_back_one
  give_back_one-Accounts e x w none v = v
  give_back_one-Accounts e x w (some a) v = record {
    capacity = v.capacity;
    used = rw length-set v.used;
    within = v.within;
  }

  give_back-Accounts :
      (e : BackendError) (xs : List (Selected B.Session)) (w : Worker B)
      → Accounts c n w
      → Accounts c n (give_back e xs w)
  unfolding give_back
  give_back-Accounts e [] w v = v
  give_back-Accounts e (x ∷ xs) w v =
      give_back-Accounts e xs _ (give_back_one-Accounts e x w (get_elem? w.active x.index) v)

  module _ (fl : FloatOps) (packet_frames step_us now : ℕ) where
    finish_one-Accounts :
        (x : Selected B.Session) (r : Result BackendError BackendPacket) (w : Worker B)
        (o : Option (ActiveRequest B.Session))
        → Accounts c n w
        → Accounts c n (finish_one fl packet_frames step_us now x r w o)
    unfolding finish_one
    finish_one-Accounts x r w none v = v
    finish_one-Accounts x r w (some a) v = record {
      capacity = v.capacity;
      used = rw length-set v.used;
      within = v.within;
    }

    finish_all-Accounts :
        (xs : List (Selected B.Session)) (rs : List (Result BackendError BackendPacket))
        (w : Worker B)
        → Accounts c n w
        → Accounts c n (finish_all fl packet_frames step_us now xs rs w)
    unfolding finish_all
    finish_all-Accounts [] rs w v = v
    finish_all-Accounts (x ∷ xs) [] w v = v
    finish_all-Accounts (x ∷ xs) (r ∷ rs) w v =
        finish_all-Accounts xs rs _ (finish_one-Accounts x r w (get_elem? w.active x.index) v)

    finish_step-Accounts :
        (xs : List (Selected B.Session)) (o : Option (List (Result BackendError BackendPacket)))
        (w : Worker B)
        → Accounts c n w
        → Accounts c n (finish_step fl packet_frames step_us now xs o w)
    unfolding finish_step
    finish_step-Accounts xs none w v = give_back-Accounts _ xs w v
    finish_step-Accounts xs (some rs) w v = elim (Bool-cases (length rs == length xs)) [
      | inl e ↦ rw e (finish_all-Accounts xs rs w v)
      | inr e ↦ rw e (give_back-Accounts _ xs w v)
    ]

  pub step_eligible-Accounts :
      (fl : FloatOps) (packet_frames began now : ℕ) (indices : List ℕ) (w : Worker B)
      → Accounts c n w
      → Accounts c n (step_eligible fl packet_frames began now indices w)
  unfolding step_eligible
  step_eligible-Accounts fl packet_frames began now indices w v =
      let s = select-Accounts indices w v in
      let (selected, w') = select indices w in
      let inputs = map input_of selected in
      let call = B.step_batch w'.backend inputs packet_frames in
      finish_step-Accounts fl packet_frames (fl.from_u64 (duration_microseconds (now - began))) now
        (after_backend selected (apply_effect call.effect 0 inputs)) call.results
        (record w' { backend = call.state })
        (record { capacity = s.capacity; used = s.used; within = s.within })
