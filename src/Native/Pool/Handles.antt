-- ===== src/Native/Pool/Handles.antt =====
-- native_talker.rs: where the handle of a native session is between its creation and its end.
use qwen3_tts_native.Base.{
  ℕ, ◌+◌, ◌<◌, ◌≤◌, ◌≡◌, Bool, List, [], ◌∷◌, length, Option, none, some, Result, ok, err, All,
  ◌==◌, if◌then◌else◌,
}
use qwen3_tts_native.Native.Pool.{
  max_pooled_sessions, PooledSession, smallest_adequate_session_index, swap_remove, SessionPool,
  AcquireError, Answers, create_session, acquire_session, drop_session,
}

-- The pool beside the sessions in use and, newest first, the handles that the library created.
pub record Ledger : Type 0 where
  pub sessions : SessionPool
  pub active : List PooledSession
  pub made : List ℕ

pub data PoolOp : Type 0 where
  acquires : (capacity : ℕ) → Answers → PoolOp
  -- The session at an index of those in use ends.
  ends : (index : ℕ) (recyclable : Bool) → PoolOp

abbrev pub opened : Result AcquireError PooledSession → List PooledSession → List PooledSession
opened (ok s) active = s ∷ active
opened (err e) active = active

abbrev pub handles_of : Result AcquireError PooledSession → List ℕ → List ℕ
handles_of (ok s) made = s.handle ∷ made
handles_of (err e) made = made

unfoldable pub end_one : Bool → Ledger → Option (PooledSession × List PooledSession) → Ledger
end_one recyclable l none = l
end_one recyclable l (some (entry, rest)) = record l {
  sessions = drop_session recyclable entry l.sessions;
  active = rest;
}

unfoldable pub run : PoolOp → Ledger → Ledger
run (acquires capacity answers) l =
    let r = acquire_session l.sessions capacity answers in
    record {
      sessions = r.1;
      active = opened r.0 l.active;
      made = (elim (smallest_adequate_session_index l.sessions.pool capacity) [
        | none ↦ handles_of (create_session (answers.create capacity)) l.made
        | some i ↦ l.made
      ]);
    }
run (ends index recyclable) l = end_one recyclable l (swap_remove l.active index)

unfoldable pub run_all : List PoolOp → Ledger → Ledger
run_all [] l = l
run_all (op ∷ ops) l = run_all ops (run op l)

abbrev pub here : ℕ → ℕ → ℕ
here h k = if h == k then 1 else 0

abbrev pub count : ℕ → List ℕ → ℕ
count h [] = 0
count h (k ∷ ks) = here h k + count h ks

abbrev pub held : ℕ → List PooledSession → ℕ
held h [] = 0
held h (s ∷ ss) = here h s.handle + held h ss

abbrev pub HasHandle : PooledSession → Type 0
HasHandle s = 0 < s.handle

pub record Inv (l : Ledger) : Type 0 where
  pub limit : length l.sessions.pool ≤ max_pooled_sessions
  pub pooled : All HasHandle l.sessions.pool
  pub used : All HasHandle l.active
  pub balance :
      (h : ℕ)
      → held h l.sessions.pool + held h l.active + count h l.sessions.destroyed ≡ count h l.made
