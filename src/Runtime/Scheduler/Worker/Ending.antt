-- ===== src/Runtime/Scheduler/Worker/Ending.antt =====
-- scheduler.rs: the end of the worker, and what becomes of the requests that it still has.
use qwen3_tts_native.Base.{
  ℕ, ◌+◌, ◌≡◌, refl, ap, true, List, [], ◌∷◌, All, All-mono, length, Option, none, some, arith,
  ◌==◌, Bool-cases, ==_iff, inl, inr,
}
use qwen3_tts_native.Runtime.Types.{is_terminal}
use qwen3_tts_native.Runtime.Scheduler.Shared.{
  BackendError, RequestShared, mark_cancelled, mark_failed, mark_retired,
}
use qwen3_tts_native.Runtime.Scheduler.Backend.{Backend}
use qwen3_tts_native.Runtime.Scheduler.Worker.{
  Store, Worker, PendingStart, ActiveRequest, Command, start, cancel, wake, shutdown, on_shared,
  retire, cancel_session,
}
use qwen3_tts_native.Runtime.Scheduler.Worker.Balance.{
  Accounts, permits_in, retire-Accounts, on_shared-Accounts, cancel_session-Accounts,
}
use qwen3_tts_native.Runtime.Scheduler.Worker.Admission.{Balanced}
use qwen3_tts_native.Runtime.Scheduler.Worker.Loop.{
  Loop, end_pending, end_all_active, end_all_pending, end_commands, shut_down, end_request,
}

-- The client sees the end, and `wait_retired` answers `true`.
abbrev pub IsEnded : RequestShared → Type 0
IsEnded s = (is_terminal s.phase ≡ true) × (s.retired ≡ true)

-- A start command's request is ended; the other commands name none.
abbrev pub IsStartEnded : Store → Command → Type 0
IsStartEnded store (start p) = IsEnded (store p.request.id)
IsStartEnded store _ = Unit

abbrev pub IsEndedAt : {B : Backend} → Worker B → ℕ → Type 0
IsEndedAt w id = IsEnded (w.store id)

end_request-IsEnded :
    (f : Option BackendError) (s : RequestShared) → IsEnded (mark_retired (end_request f s))
unfolding mark_retired mark_cancelled mark_failed
end_request-IsEnded none s = (refl, refl)
end_request-IsEnded (some e) s = (refl, refl)

module _ {B : Backend} (f : Option BackendError) where
  abbrev finish : Worker B → ℕ → Worker B
  finish w id = retire (on_shared w id (end_request f)) id

  finish-IsEndedAt_self : (w : Worker B) (id : ℕ) → IsEndedAt (finish w id) id
  unfolding retire on_shared
  finish-IsEndedAt_self w id = rw ((==_iff id id).1 refl) (end_request-IsEnded f (w.store id))

  finish-IsEndedAt : (w : Worker B) (id j : ℕ) → IsEndedAt w j → IsEndedAt (finish w id) j
  unfolding retire on_shared
  finish-IsEndedAt w id j h = elim (Bool-cases (j == id)) [
    | inl e ↦ rw e (end_request-IsEnded f (w.store j))
    | inr e ↦ rw e h
  ]

  cancel_session-store :
      (w : Worker B) (o : Option B.Session) (j : ℕ) → (cancel_session w o).store j ≡ w.store j
  unfolding cancel_session
  cancel_session-store w none j = refl
  cancel_session-store w (some x) j = refl

  end_all_active-keeps :
      (rest : List (ActiveRequest B.Session)) (w : Worker B) (j : ℕ)
      → IsEndedAt w j
      → IsEndedAt (end_all_active f rest w) j
  unfolding end_all_active
  end_all_active-keeps [] w j h = h
  end_all_active-keeps (a ∷ rest) w j h = end_all_active-keeps rest _ j (
      finish-IsEndedAt (cancel_session w a.session) a.record_of.id j
        (rw (cancel_session-store w a.session j) h))

  end_all_active-IsEndedAt :
      (rest : List (ActiveRequest B.Session)) (w : Worker B)
      → All (λ a. IsEndedAt (end_all_active f rest w) a.record_of.id) rest
  unfolding end_all_active
  end_all_active-IsEndedAt [] w = tt
  end_all_active-IsEndedAt (a ∷ rest) w = (
    end_all_active-keeps rest _ a.record_of.id
        (finish-IsEndedAt_self (cancel_session w a.session) a.record_of.id),
    end_all_active-IsEndedAt rest _,
  )

  end_all_pending-keeps :
      (ps : List PendingStart) (w : Worker B) (j : ℕ)
      → IsEndedAt w j
      → IsEndedAt (end_all_pending f ps w) j
  unfolding end_all_pending
  end_all_pending-keeps [] w j h = h
  end_all_pending-keeps (p ∷ ps) w j h =
      end_all_pending-keeps ps _ j (finish-IsEndedAt w p.request.id j h)

  end_all_pending-IsEndedAt :
      (ps : List PendingStart) (w : Worker B)
      → All (λ p. IsEndedAt (end_all_pending f ps w) p.request.id) ps
  unfolding end_all_pending
  end_all_pending-IsEndedAt [] w = tt
  end_all_pending-IsEndedAt (p ∷ ps) w = (
    end_all_pending-keeps ps _ p.request.id (finish-IsEndedAt_self w p.request.id),
    end_all_pending-IsEndedAt ps _,
  )

  end_commands-keeps :
      (cs : List Command) (w : Worker B) (j : ℕ) → IsEndedAt w j → IsEndedAt (end_commands f cs w) j
  unfolding end_commands
  end_commands-keeps [] w j h = h
  end_commands-keeps (start p ∷ cs) w j h =
      end_commands-keeps cs _ j (finish-IsEndedAt w p.request.id j h)
  end_commands-keeps (cancel id ∷ cs) w j h = end_commands-keeps cs w j h
  end_commands-keeps (wake ∷ cs) w j h = end_commands-keeps cs w j h
  end_commands-keeps (shutdown ∷ cs) w j h = end_commands-keeps cs w j h

  end_commands-IsEndedAt :
      (cs : List Command) (w : Worker B) → All (IsStartEnded (end_commands f cs w).store) cs
  unfolding end_commands
  end_commands-IsEndedAt [] w = tt
  end_commands-IsEndedAt (start p ∷ cs) w = (
    end_commands-keeps cs _ p.request.id (finish-IsEndedAt_self w p.request.id),
    end_commands-IsEndedAt cs _,
  )
  end_commands-IsEndedAt (cancel id ∷ cs) w = (tt, end_commands-IsEndedAt cs w)
  end_commands-IsEndedAt (wake ∷ cs) w = (tt, end_commands-IsEndedAt cs w)
  end_commands-IsEndedAt (shutdown ∷ cs) w = (tt, end_commands-IsEndedAt cs w)

  -- When the worker ends, by a panic or in order, every request that was active, pending or still
  -- in the channel is cancelled or failed, and retired.
  pub shut_down-IsEnded :
      (l : Loop B)
      → All (λ a. IsEndedAt (shut_down f l) a.record_of.id) l.worker.active
        × All (λ p. IsEndedAt (shut_down f l) p.request.id) l.worker.pending
        × All (IsStartEnded (shut_down f l).store) l.channel
  unfolding shut_down
  shut_down-IsEnded l =
      let w = record (l.worker) { active = []; pending = [] } in
      let w' = end_all_active f l.worker.active w in
      let w'' = end_all_pending f l.worker.pending w' in
      (
        All-mono (λ a. IsEndedAt w' a.record_of.id) _ l.worker.active
            (λ a h.
              end_commands-keeps l.channel w'' a.record_of.id
                (end_all_pending-keeps l.worker.pending w' a.record_of.id h))
            (end_all_active-IsEndedAt l.worker.active w),
        All-mono (λ p. IsEndedAt w'' p.request.id) _ l.worker.pending
            (λ p h. end_commands-keeps l.channel w'' p.request.id h)
            (end_all_pending-IsEndedAt l.worker.pending w'),
        end_commands-IsEndedAt l.channel w'',
      )

  end_all_active-Accounts :
      (c n : ℕ) (rest : List (ActiveRequest B.Session)) (w : Worker B)
      → Accounts c (n + length rest) w
      → Accounts c n (end_all_active f rest w)
  unfolding end_all_active
  end_all_active-Accounts c n [] w v = ground arith
  end_all_active-Accounts c n (a ∷ rest) w v = end_all_active-Accounts c n rest _ (
      retire-Accounts c (n + length rest) _ a.record_of.id (
        on_shared-Accounts c _ _ a.record_of.id (end_request f)
          (cancel_session-Accounts c _ w a.session (ground arith))))

  end_pending-Accounts :
      (c n : ℕ) (p : PendingStart) (w : Worker B)
      → Accounts c (n + 1) w
      → Accounts c n (end_pending f p w)
  unfolding end_pending
  end_pending-Accounts c n p w v =
      retire-Accounts c n _ p.request.id (on_shared-Accounts c _ w p.request.id (end_request f) v)

  end_all_pending-Accounts :
      (c n : ℕ) (ps : List PendingStart) (w : Worker B)
      → Accounts c (n + length ps) w
      → Accounts c n (end_all_pending f ps w)
  unfolding end_all_pending
  end_all_pending-Accounts c n [] w v = ground arith
  end_all_pending-Accounts c n (p ∷ ps) w v =
      end_all_pending-Accounts c n ps _ (end_pending-Accounts c (n + length ps) p w (ground arith))

  end_commands-Accounts :
      (c : ℕ) (cs : List Command) (w : Worker B)
      → Accounts c (permits_in cs) w
      → Accounts c 0 (end_commands f cs w)
  unfolding end_commands
  end_commands-Accounts c [] w v = v
  end_commands-Accounts c (start p ∷ cs) w v =
      end_commands-Accounts c cs _ (end_pending-Accounts c (permits_in cs) p w (ground arith))
  end_commands-Accounts c (cancel id ∷ cs) w v = end_commands-Accounts c cs w (ground arith)
  end_commands-Accounts c (wake ∷ cs) w v = end_commands-Accounts c cs w (ground arith)
  end_commands-Accounts c (shutdown ∷ cs) w v = end_commands-Accounts c cs w (ground arith)

  shut_down-Accounts : (c : ℕ) (l : Loop B) → Balanced c l → Accounts c 0 (shut_down f l)
  unfolding shut_down
  shut_down-Accounts c l v =
      let emptied : Worker B = record (l.worker) { active = []; pending = [] } in
      end_commands-Accounts c l.channel _ (
        end_all_pending-Accounts c (permits_in l.channel) l.worker.pending _ (
          end_all_active-Accounts c (permits_in l.channel + length l.worker.pending) l.worker.active
            emptied
            (record { capacity = v.capacity; used = omega (arith, v.used); within = v.within })))

  -- The end of a request does not touch the lists.
  abbrev HasNone : Worker B → Type 0
  HasNone w = (w.pending ≡ []) × (w.active ≡ [])

  end_pending-HasNone : (p : PendingStart) (w : Worker B) → HasNone w → HasNone (end_pending f p w)
  unfolding end_pending on_shared retire
  end_pending-HasNone p w h = h

  cancel_session-HasNone :
      (w : Worker B) (o : Option B.Session) → HasNone w → HasNone (cancel_session w o)
  unfolding cancel_session
  cancel_session-HasNone w none h = h
  cancel_session-HasNone w (some x) h = h

  end_all_active-HasNone :
      (rest : List (ActiveRequest B.Session)) (w : Worker B)
      → HasNone w
      → HasNone (end_all_active f rest w)
  unfolding end_all_active on_shared retire
  end_all_active-HasNone [] w h = h
  end_all_active-HasNone (a ∷ rest) w h =
      end_all_active-HasNone rest _ (cancel_session-HasNone w a.session h)

  end_all_pending-HasNone :
      (ps : List PendingStart) (w : Worker B) → HasNone w → HasNone (end_all_pending f ps w)
  unfolding end_all_pending
  end_all_pending-HasNone [] w h = h
  end_all_pending-HasNone (p ∷ ps) w h = end_all_pending-HasNone ps _ (end_pending-HasNone p w h)

  end_commands-HasNone :
      (cs : List Command) (w : Worker B) → HasNone w → HasNone (end_commands f cs w)
  unfolding end_commands
  end_commands-HasNone [] w h = h
  end_commands-HasNone (start p ∷ cs) w h = end_commands-HasNone cs _ (end_pending-HasNone p w h)
  end_commands-HasNone (cancel id ∷ cs) w h = end_commands-HasNone cs w h
  end_commands-HasNone (wake ∷ cs) w h = end_commands-HasNone cs w h
  end_commands-HasNone (shutdown ∷ cs) w h = end_commands-HasNone cs w h

  shut_down-HasNone : (l : Loop B) → HasNone (shut_down f l)
  unfolding shut_down
  shut_down-HasNone l = end_commands-HasNone l.channel _ (
      end_all_pending-HasNone l.worker.pending _
        (end_all_active-HasNone l.worker.active _ (refl, refl)))

  -- If there was one permit for each request that was pending, active or in the channel, and no
  -- more than the capacity, then after the worker's end no request is pending or active, and every
  -- slot of the pool is free.
  pub shut_down_releases :
      (c : ℕ) (l : Loop B)
      → Balanced c l
      → let w = shut_down f l in
        (w.pending ≡ []) × (w.active ≡ []) × (w.slots.used ≡ 0) × (w.slots.capacity ≡ c)
  shut_down_releases c l v =
      let books = shut_down-Accounts c l v in
      let (no_pending, no_active) = shut_down-HasNone l in
      (
        no_pending,
        no_active,
        omega (arith, books.used, ap length no_pending, ap length no_active),
        books.capacity,
      )
