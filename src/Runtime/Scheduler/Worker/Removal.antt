-- ===== src/Runtime/Scheduler/Worker/Removal.antt =====
-- scheduler.rs: which requests `remove_cancelled` and `remove_finished` take out of the active ones.
use qwen3_tts_native.Base.{
  ℕ, ◌≡◌, refl, sym, ap, ◌∙◌, Bool, true, false, length, Option, none, some, arith, Bool-cases, inl,
  inr, ◌==◌, ==_iff, if◌then◌else◌,
}
use qwen3_tts_native.Runtime.Scheduler.Shared.{RequestShared, mark_cancelled, mark_retired}
use qwen3_tts_native.Runtime.Scheduler.Backend.{Backend}
use qwen3_tts_native.Runtime.Scheduler.Worker.{
  Worker, ActiveRequest, is_cancel_requested, is_finished, failed_or_cancelled,
  remove_cancelled_one, remove_finished_one, remove_cancelled, remove_finished, on_shared, retire,
  cancel_session,
}
use qwen3_tts_native.Runtime.Scheduler.Worker.Walk.{Removes, RemovesOne, remove_loop-Walks}

module _ {B : Backend} where
  cancel_session-same :
      (w : Worker B) (o : Option B.Session)
      → ((cancel_session w o).store ≡ w.store) × ((cancel_session w o).active ≡ w.active)
  unfolding cancel_session
  cancel_session-same w none = (refl, refl)
  cancel_session-same w (some x) = (refl, refl)

  -- A removal that changes the request's entry alone, into a retired one that passes.
  changes-RemovesOne :
      (test : RequestShared → Bool) (a : ActiveRequest B.Session) (w r : Worker B)
      (change : RequestShared → RequestShared)
      → r.active ≡ w.active
      → ((j : ℕ) → r.store j ≡ (if j == a.record_of.id then change (w.store j) else w.store j))
      → test (w.store a.record_of.id) ≡ true
      → test (change (w.store a.record_of.id)) ≡ true
      → (change (w.store a.record_of.id)).retired ≡ true
      → RemovesOne test a w r
  changes-RemovesOne test a w r change same at passes still retired = record {
    same_active = same;
    same_test = λ j. elim (Bool-cases (j == a.record_of.id)) [
      | inl q ↦
          ap test (changed j q) ∙ still ∙ sym (ap (λ i. test (w.store i)) (is_it j q) ∙ passes)
      | inr q ↦ ap test (unchanged j q)
    ];
    retires = ap (λ s. s.retired) (changed a.record_of.id ((==_iff _ _).1 refl)) ∙ retired;
    stays = λ j h. elim (Bool-cases (j == a.record_of.id)) [
      | inl q ↦ ap (λ s. s.retired) (changed j q) ∙ retired
      | inr q ↦ ap (λ s. s.retired) (unchanged j q) ∙ h
    ];
    others = λ j h. elim (Bool-cases (j == a.record_of.id)) [
      | inl q ↦ absurd (cc (sym (ap (λ i. test (w.store i)) (is_it j q) ∙ passes) ∙ h))
      | inr q ↦ unchanged j q
    ];
  }
    where
      is_it : (j : ℕ) → (j == a.record_of.id) ≡ true → j ≡ a.record_of.id
      is_it j q = (==_iff j a.record_of.id).0 q

      changed : (j : ℕ) → (j == a.record_of.id) ≡ true → r.store j ≡ change (w.store a.record_of.id)
      changed j q =
          at j
          ∙ ap (λ b. if b then change (w.store j) else w.store j) q
          ∙ ap (λ i. change (w.store i)) (is_it j q)

      unchanged : (j : ℕ) → (j == a.record_of.id) ≡ false → r.store j ≡ w.store j
      unchanged j q = at j ∙ ap (λ b. if b then change (w.store j) else w.store j) q

  cancelled-RemovesOne :
      (a : ActiveRequest B.Session) (w : Worker B)
      → is_cancel_requested (w.store a.record_of.id) ≡ true
      → RemovesOne is_cancel_requested a w (remove_cancelled_one a w)
  unfolding remove_cancelled_one retire on_shared mark_cancelled mark_retired is_cancel_requested
  cancelled-RemovesOne a w t =
      let (store, active) = cancel_session-same w a.session in
      changes-RemovesOne is_cancel_requested a w (remove_cancelled_one a w)
        (λ s. mark_retired (mark_cancelled s)) active
        (λ j. elim (Bool-cases (j == a.record_of.id)) [
          | inl q ↦ rw q (ap (λ f. mark_retired (mark_cancelled (f j))) store)
          | inr q ↦ rw q (ap (λ f. f j) store)
        ])
        t refl refl

  finished-same :
      (a : ActiveRequest B.Session) (w : Worker B) (b : Bool)
      → ((if b then cancel_session w a.session else w).store ≡ w.store)
        × ((if b then cancel_session w a.session else w).active ≡ w.active)
  finished-same a w true = cancel_session-same w a.session
  finished-same a w false = (refl, refl)

  finished-RemovesOne :
      (a : ActiveRequest B.Session) (w : Worker B)
      → is_finished (w.store a.record_of.id) ≡ true
      → RemovesOne is_finished a w (remove_finished_one a w)
  unfolding remove_finished_one retire on_shared mark_retired is_finished failed_or_cancelled
  finished-RemovesOne a w t =
      let (store, active) = finished-same a w (failed_or_cancelled (w.store a.record_of.id)) in
      changes-RemovesOne is_finished a w (remove_finished_one a w) mark_retired active
        (λ j. elim (Bool-cases (j == a.record_of.id)) [
          | inl q ↦ rw q (ap (λ f. mark_retired (f j)) store)
          | inr q ↦ rw q (ap (λ f. f j) store)
        ])
        t t refl

  -- The worker's two walks take exactly the right requests out of the active ones, and end:
  -- `remove_cancelled` those with a cancellation, `remove_finished` those whose last packet is queued
  -- and those that failed or were cancelled. No request that has to go is left, each one that goes is
  -- retired, each other one is still active, and its entry is not touched.
  pub remove_cancelled-Removes :
      (w : Worker B)
      → Removes is_cancel_requested w (remove_cancelled w)
        × Removes is_finished w (remove_finished w)
  unfolding remove_cancelled remove_finished
  remove_cancelled-Removes w =
      let c =
        remove_loop-Walks is_cancel_requested remove_cancelled_one cancelled-RemovesOne
          (length w.active) 0 w (λ k a l e. absurd (omega (arith, l))) (omega arith) in
      let f =
        remove_loop-Walks is_finished remove_finished_one finished-RemovesOne (length w.active) 0 w
          (λ k a l e. absurd (omega (arith, l))) (omega arith) in
      (c.removes, f.removes)
