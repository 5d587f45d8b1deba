-- ===== src/Native/Pool/Conserved.antt =====
-- native_talker.rs: no operation of the pool loses a handle or makes one.
use qwen3_tts_native.Base.{
  ℕ, zero, suc, ◌+◌, ◌≤◌, ◌≡◌, refl, inl, inr, Bool, List, [], ◌∷◌, ◌++◌, length, length-append,
  Option, none, some, Result, ok, err, All, All-append, Option-cases, arith,
}
use qwen3_tts_native.Native.Pool.{
  max_pooled_sessions, PooledSession, smallest_adequate_session_index, last_of, all_but_last,
  last_first, keep, swap_remove, SessionPool, AcquireError, Answers, destroy_session, reset_session,
  create_session, acquire_session, take_pooled, recycle_session, drop_session,
}
use qwen3_tts_native.Native.Pool.Handles.{
  HasHandle, Inv, Ledger, PoolOp, acquires, count, end_one, ends, handles_of, held, here, opened,
  run, run_all,
}

-- A list less one of its elements, in any order.
record Less (xs : List PooledSession) (y : PooledSession) (rest : List PooledSession) : Type 0 where
  one : length xs ≡ length rest + 1
  tally : (h : ℕ) → held h xs ≡ here h y.handle + held h rest
  handles : All HasHandle xs → HasHandle y × All HasHandle rest

last-Less :
    (x : PooledSession) (xs : List PooledSession) → Less (x ∷ xs) (last_of x xs) (all_but_last x xs)
last-Less x [] = record { one = refl; tally = λ h. refl; handles = λ a. a }
last-Less x (y ∷ ys) =
    let l = last-Less y ys in
    record {
      one = omega (arith, l.one);
      tally = λ h. omega (arith, l.tally h);
      handles = λ a. let b = l.handles a.1 in (b.0, (a.0, b.1));
    }

last_first-Less : (x : PooledSession) (xs : List PooledSession) → Less (x ∷ xs) x (last_first xs)
last_first-Less x [] = record { one = refl; tally = λ h. refl; handles = λ a. a }
last_first-Less x (y ∷ ys) =
    let l = last-Less y ys in
    record {
      one = omega (arith, l.one);
      tally = λ h. omega (arith, l.tally h);
      handles = λ a. let b = l.handles a.1 in (a.0, b);
    }

abbrev Removed : List PooledSession → Option (PooledSession × List PooledSession) → Type 0
Removed xs none = Unit
Removed xs (some (y, rest)) = Less xs y rest

keep-Removed :
    (x : PooledSession) (xs : List PooledSession) (o : Option (PooledSession × List PooledSession))
    → Removed xs o
    → Removed (x ∷ xs) (keep x o)
keep-Removed x xs none l = tt
keep-Removed x xs (some (y, rest)) l = record {
  one = omega (arith, l.one);
  tally = λ h. omega (arith, l.tally h);
  handles = λ a. let b = l.handles a.1 in (b.0, (a.0, b.1));
}

swap_remove-Removed : (xs : List PooledSession) (i : ℕ) → Removed xs (swap_remove xs i)
swap_remove-Removed [] i = tt
swap_remove-Removed (x ∷ xs) zero = last_first-Less x xs
swap_remove-Removed (x ∷ xs) (suc i) =
    keep-Removed x xs (swap_remove xs i) (swap_remove-Removed xs i)

held-append : (h : ℕ) (xs ys : List PooledSession) → held h (xs ++ ys) ≡ held h xs + held h ys
held-append h [] ys = omega arith
held-append h (x ∷ xs) ys = omega (arith, held-append h xs ys)

-- What an operation on the pool does to it, given the sessions that leave and join it.
record Moves (p q : SessionPool) (leaves joins : List PooledSession) : Type 0 where
  limit : length p.pool ≤ max_pooled_sessions → length q.pool ≤ max_pooled_sessions
  pooled : All HasHandle p.pool → All HasHandle joins → All HasHandle q.pool
  tally :
      (h : ℕ)
      → held h q.pool + count h q.destroyed + held h leaves
        ≡ held h p.pool + count h p.destroyed + held h joins

drop_session-Moves :
    (recyclable : Bool) (entry : PooledSession) (p : SessionPool)
    → HasHandle entry
    → Moves p (drop_session recyclable entry p) [] (entry ∷ [])
unfolding drop_session recycle_session destroy_session
drop_session-Moves recyclable entry p n = record {
  limit = λ l. ground (arith, l, length-append p.pool (entry ∷ []));
  pooled = λ a b. ground (arith, a, b, All-append HasHandle p.pool (entry ∷ []));
  tally = λ h. ground (arith, held-append h p.pool (entry ∷ []));
}

-- A session taken out of the pool is handed out or destroyed.
reset_session-Moves :
    (p : SessionPool) (entry : PooledSession) (rest : List PooledSession) (status : Option ℕ)
    → All HasHandle p.pool
    → Less p.pool entry rest
    → let r = reset_session entry status (record p { pool = rest }) in
      Moves p r.1 (opened r.0 []) [] × All HasHandle (opened r.0 [])
unfolding reset_session destroy_session
reset_session-Moves p entry rest status a l = (
  record {
    limit = λ m. ground (arith, m, l.one);
    pooled = λ b c. ground (arith, l.handles a);
    tally = λ h. ground (arith, l.tally h, l.handles a);
  },
  ground (arith, l.handles a),
)

take_pooled-Moves :
    (p : SessionPool) (o : Option (PooledSession × List PooledSession)) (status : Option ℕ)
    → All HasHandle p.pool
    → Removed p.pool o
    → let r = take_pooled p o status in
      Moves p r.1 (opened r.0 []) [] × All HasHandle (opened r.0 [])
unfolding take_pooled
take_pooled-Moves p none status a l =
    (record { limit = λ m. m; pooled = λ b c. b; tally = λ h. refl }, tt)
take_pooled-Moves p (some (entry, rest)) status a l = reset_session-Moves p entry rest status a l

held-opened :
    (h : ℕ) (r : Result AcquireError PooledSession) (active : List PooledSession)
    → held h (opened r active) ≡ held h (opened r []) + held h active
held-opened h (ok s) active = omega arith
held-opened h (err e) active = omega arith

All-opened :
    (r : Result AcquireError PooledSession) (active : List PooledSession)
    → All HasHandle (opened r [])
    → All HasHandle active
    → All HasHandle (opened r active)
All-opened (ok s) active a b = (a.0, b)
All-opened (err e) active a b = b

created-HasHandle : (o : Option (ℕ × PooledSession)) → All HasHandle (opened (create_session o) [])
unfolding create_session
created-HasHandle o = ground arith

count-handles_of :
    (h : ℕ) (r : Result AcquireError PooledSession) (made : List ℕ)
    → count h (handles_of r made) ≡ held h (opened r []) + count h made
count-handles_of h (ok s) made = omega arith
count-handles_of h (err e) made = omega arith

acquires-Inv :
    (capacity : ℕ) (answers : Answers) (l : Ledger)
    → Inv l
    → Inv (run (acquires capacity answers) l)
unfolding run acquire_session
acquires-Inv capacity answers l v =
    elim (Option-cases (smallest_adequate_session_index l.sessions.pool capacity)) [
      | inl e ↦
          let r = create_session (answers.create capacity) in
          rw (e, run, acquire_session)
            record {
              limit = v.limit;
              pooled = v.pooled;
              used = All-opened r l.active (created-HasHandle (answers.create capacity)) v.used;
              balance = λ h.
                  omega (arith, v.balance h, held-opened h r l.active, count-handles_of h r l.made);
            }
      | inr (i, e) ↦
          let o = swap_remove l.sessions.pool i in
          let r = take_pooled l.sessions o answers.reset_status in
          let m =
            take_pooled-Moves l.sessions o answers.reset_status v.pooled
              (swap_remove-Removed l.sessions.pool i) in
          rw (e, run, acquire_session)
            record {
              limit = m.0.limit v.limit;
              pooled = m.0.pooled v.pooled tt;
              used = All-opened r.0 l.active m.1 v.used;
              balance = λ h. omega (arith, v.balance h, m.0.tally h, held-opened h r.0 l.active);
            }
    ]

end_one-Inv :
    (recyclable : Bool) (l : Ledger) (o : Option (PooledSession × List PooledSession))
    → Removed l.active o
    → Inv l
    → Inv (end_one recyclable l o)
unfolding end_one
end_one-Inv recyclable l none r v = v
end_one-Inv recyclable l (some (entry, rest)) r v =
    let a = r.handles v.used in
    let m = drop_session-Moves recyclable entry l.sessions a.0 in
    record {
      limit = m.limit v.limit;
      pooled = m.pooled v.pooled (a.0, tt);
      used = a.1;
      balance = λ h. omega (arith, v.balance h, m.tally h, r.tally h);
    }

run-Inv : (op : PoolOp) (l : Ledger) → Inv l → Inv (run op l)
unfolding run
run-Inv (acquires capacity answers) l v = acquires-Inv capacity answers l v
run-Inv (ends index recyclable) l v =
    end_one-Inv recyclable l (swap_remove l.active index) (swap_remove-Removed l.active index) v

abbrev pub new_ledger : Ledger
new_ledger = record { sessions = record { pool = []; destroyed = [] }; active = []; made = [] }

run_all-Inv : (ops : List PoolOp) (l : Ledger) → Inv l → Inv (run_all ops l)
unfolding run_all
run_all-Inv [] l v = v
run_all-Inv (op ∷ ops) l v = run_all-Inv ops (run op l) (run-Inv op l v)

-- After any sequence of acquisitions and ends of sessions, whatever the library answers, at most
-- eight sessions are pooled, none of them null, and every handle stands in the pool, in use and
-- among those destroyed as often together as the library created it: none leaks, and while handles
-- are unique none is used or destroyed twice. It is assumed that the library can destroy sessions.
pub pool-Inv : (ops : List PoolOp) → Inv (run_all ops new_ledger)
pool-Inv ops =
    run_all-Inv ops new_ledger
      record { limit = omega arith; pooled = tt; used = tt; balance = λ h. refl }
