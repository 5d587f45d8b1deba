-- ===== src/Runtime/Scheduler/Worker/Admission.antt =====
-- scheduler.rs: the permits of the pool over `Scheduler::start` and the rounds of the worker.
use qwen3_tts_native.Base.{
  ℕ, zero, suc, ◌+◌, ◌≤◌, ◌≡◌, refl, ap, Bool, true, false, not, ◌&&◌, ◌||◌, is_empty, ltb,
  if◌then◌else◌, List, [], ◌∷◌, ◌++◌, length, Option, none, some, Result, ok, err, Result-cases,
  arith, Bool-cases, inl, inr,
}
use qwen3_tts_native.Runtime.Types.{EngineConfig, GenerationConfig, RequestInput, RequestInputError}
use qwen3_tts_native.Runtime.Request.{FloatOps}
use qwen3_tts_native.Runtime.Scheduler.Validate.{
  GenerationError, validate_config, validate_config_iff,
}
use qwen3_tts_native.Runtime.Scheduler.Slots.{SlotPool, try_acquire, new_pool}
use qwen3_tts_native.Runtime.Scheduler.Backend.{Backend}
use qwen3_tts_native.Runtime.Scheduler.Worker.{
  Store, Worker, PendingStart, Command, start, cancel, wake, shutdown, handle_command,
}
use qwen3_tts_native.Runtime.Scheduler.Worker.Balance.{
  Accounts, permits_in, handle_command-Accounts, start_pending-Accounts, remove_cancelled-Accounts,
  remove_finished-Accounts,
}
use qwen3_tts_native.Runtime.Scheduler.Worker.Books.{step_eligible-Accounts}
use qwen3_tts_native.Runtime.Scheduler.Worker.Loop.{
  Loop, Tick, receive_from, receive, drain, drain_commands, coalesce, coalesce_pending_starts,
  take_commands, generate_for, generate, round, worker_loop_inner, Arrival, arrive, arrive_one,
  admit_start,
}
use qwen3_tts_native.Runtime.Scheduler.Worker.Front.{
  Scheduler, start_request, enqueue, admit, check_generation, check_input, new_scheduler,
}

-- The books with the start commands that are still in the channel.
abbrev pub Balanced : {B : Backend} → ℕ → Loop B → Type 0
Balanced c l = Accounts c (permits_in l.channel) l.worker

permits_in-append : (cs ds : List Command) → permits_in (cs ++ ds) ≡ permits_in cs + permits_in ds
permits_in-append [] ds = omega arith
permits_in-append (c ∷ cs) ds = omega (arith, permits_in-append cs ds)

module _ {B : Backend} (c : ℕ) where
  admit_start-Balanced :
      (p : PendingStart) (l : Loop B) (o : Option SlotPool)
      → try_acquire l.worker.slots ≡ o
      → Balanced c l
      → Balanced c (admit_start p l o)
  unfolding admit_start try_acquire
  admit_start-Balanced p l none e v = v
  admit_start-Balanced p l (some slots) e v =
      ground (arith, v.within, v.used, v.capacity, permits_in-append l.channel (start p ∷ []))

  arrive_one-Balanced : (x : Command) (l : Loop B) → Balanced c l → Balanced c (arrive_one x l)
  unfolding arrive_one
  arrive_one-Balanced (start p) l v = admit_start-Balanced p l _ refl v
  arrive_one-Balanced (cancel id) l v = ground (arith, permits_in-append l.channel (cancel id ∷ []))
  arrive_one-Balanced wake l v = ground (arith, permits_in-append l.channel (wake ∷ []))
  arrive_one-Balanced shutdown l v = ground (arith, permits_in-append l.channel (shutdown ∷ []))

  arrive-Balanced : (as' : List Arrival) (l : Loop B) → Balanced c l → Balanced c (arrive as' l)
  unfolding arrive
  arrive-Balanced [] l v = v
  arrive-Balanced (a ∷ rest) l v = arrive-Balanced rest _ (
      arrive_one-Balanced a.command _
        (record { capacity = v.capacity; used = v.used; within = v.within }))

  receive_from-Balanced :
      (disconnected : Bool) (l : Loop B) (cs : List Command)
      → l.channel ≡ cs
      → Balanced c l
      → Balanced c (receive_from disconnected l cs)
  unfolding receive_from
  receive_from-Balanced disconnected l [] e v = record {
    capacity = v.capacity;
    used = v.used;
    within = v.within;
  }
  receive_from-Balanced disconnected l (x ∷ xs) e v =
      handle_command-Accounts c (permits_in xs) x l.worker (ground (arith, ap permits_in e))

  drain-Balanced :
      (disconnected : Bool) (cs : List Command) (w : Worker B)
      → Accounts c (permits_in cs) w
      → Balanced c (drain disconnected cs w)
  unfolding drain
  drain-Balanced disconnected [] w v = v
  drain-Balanced disconnected (x ∷ xs) w v =
      let h = handle_command-Accounts c (permits_in xs) x w (ground arith) in
      elim (Bool-cases (handle_command x w).0) [
        | inl e ↦ rw e h
        | inr e ↦ rw e (drain-Balanced disconnected xs _ h)
      ]

  coalesce-Balanced :
      (available : ℕ) (disconnected : Bool) (k : ℕ) (cs : List Command) (w : Worker B) (stop : Bool)
      → Accounts c (permits_in cs) w
      → Balanced c (coalesce available disconnected k cs w stop)
  unfolding coalesce
  coalesce-Balanced available disconnected zero cs w stop v = v
  coalesce-Balanced available disconnected (suc k) [] w stop v = v
  coalesce-Balanced available disconnected (suc k) (x ∷ xs) w stop v =
      let h = handle_command-Accounts c (permits_in xs) x w (ground arith) in
      elim (Bool-cases (not (is_empty w.pending) && ltb (length w.pending) available)) [
        | inl e ↦ rw e (elim (Bool-cases (handle_command x w).0) [
          | inl f ↦ rw f h
          | inr f ↦ rw f (coalesce-Balanced available disconnected k xs _ stop h)
        ])
        | inr e ↦ rw e v
      ]

  -- The store, the flag and the commands that wait do not touch the pool.
  touch :
      (l : Loop B) (f : Store → Store)
      → Balanced c l
      → Balanced c (record l { worker = record (l.worker) { store = f l.worker.store } })
  touch l f v = record { capacity = v.capacity; used = v.used; within = v.within }

  take_commands-Balanced :
      (config : EngineConfig) (t : Tick) (l : Loop B)
      → Balanced c l
      → Balanced c (take_commands config t l)
  unfolding take_commands coalesce_pending_starts drain_commands receive
  take_commands-Balanced config t l v =
      let woken =
        if is_empty l.worker.active && is_empty l.worker.pending
        then receive true (arrive t.idle_arrivals l)
        else l in
      let woken_v : Balanced c woken =
        elim (Bool-cases (is_empty l.worker.active && is_empty l.worker.pending)) [
          | inl e ↦ rw e (receive_from-Balanced true _ _ refl (arrive-Balanced t.idle_arrivals l v))
          | inr e ↦ rw e v
        ] in
      let drained = arrive t.drain_arrivals woken in
      let drained_v =
        drain-Balanced t.disconnected drained.channel drained.worker
          (arrive-Balanced t.drain_arrivals woken woken_v) in
      let windowed = arrive t.window_arrivals (drain_commands t.disconnected drained) in
      let windowed_v =
        arrive-Balanced t.window_arrivals (drain_commands t.disconnected drained) (record {
          capacity = drained_v.capacity;
          used = drained_v.used;
          within = drained_v.within;
        }) in
      coalesce-Balanced _ t.disconnected t.window_receives windowed.channel windowed.worker
        windowed.stop windowed_v

  generate_for-Balanced :
      (fl : FloatOps) (config : EngineConfig) (t : Tick) (indices : List ℕ) (l : Loop B)
      → Balanced c l
      → Balanced c (generate_for fl config t indices l)
  unfolding generate_for receive
  generate_for-Balanced fl config t [] l v =
      receive_from-Balanced t.disconnected _ _ refl (arrive-Balanced t.wait_arrivals l v)
  generate_for-Balanced fl config t (i ∷ indices) l v =
      let s =
        step_eligible-Accounts c _ fl config.packet_frames t.step_began t.step_now (i ∷ indices) _
          (touch l (t.clients 2) v) in
      remove_finished-Accounts c _ _
        (record { capacity = s.capacity; used = s.used; within = s.within })

  generate-Balanced :
      (fl : FloatOps) (config : EngineConfig) (t : Tick) (l : Loop B)
      → Balanced c l
      → Balanced c (generate fl config t l)
  unfolding generate
  generate-Balanced fl config t l v =
      let s = start_pending-Accounts c t.start_now _ _ (touch l (t.clients 0) v) in
      generate_for-Balanced fl config t _ _ (
        remove_cancelled-Accounts c _ _
          (record { capacity = s.capacity; used = s.used; within = s.within }))

  round-Balanced :
      (fl : FloatOps) (config : EngineConfig) (t : Tick) (l : Loop B)
      → Balanced c l
      → Balanced c (round fl config t l)
  unfolding round
  round-Balanced fl config t l v =
      let h = take_commands-Balanced config t l v in
      elim (Bool-cases (t.shutdown_after || (take_commands config t l).stop)) [
        | inl e ↦ rw e (record { capacity = h.capacity; used = h.used; within = h.within })
        | inr e ↦ rw e (generate-Balanced fl config t _ h)
      ]

  worker_loop_inner-Balanced :
      (fl : FloatOps) (config : EngineConfig) (ts : List Tick) (l : Loop B)
      → Balanced c l
      → Balanced c (worker_loop_inner fl config ts l)
  unfolding worker_loop_inner
  worker_loop_inner-Balanced fl config [] l v = v
  worker_loop_inner-Balanced fl config (t ∷ ts) l v =
      elim (Bool-cases (t.shutdown_before || l.stop)) [
        | inl e ↦ rw e v
        | inr e ↦ rw e (worker_loop_inner-Balanced fl config ts _ (round-Balanced fl config t l v))
      ]

  enqueue-Balanced :
      (s : Scheduler B) (input : RequestInput) (g : GenerationConfig) (now : ℕ) (receiving : Bool)
      (slots : SlotPool)
      → try_acquire s.loop.worker.slots ≡ some slots
      → Balanced c s.loop
      → Balanced c (enqueue s input g now receiving slots).1.loop
  unfolding enqueue try_acquire
  enqueue-Balanced s input g now false slots e v = ground (arith, v.used, v.within, v.capacity)
  enqueue-Balanced s input g now true slots e v =
      let p : PendingStart = record {
        request = record { id = s.next_request_id; input = input; generation = g };
        enqueued_at = now;
      } in
      let a = permits_in-append s.loop.channel (start p ∷ []) in
      record {
        capacity = ground (arith, v.capacity);
        used = ground (arith, v.used, a);
        within = ground (arith, v.used, v.within, v.capacity);
      }

  admit-Balanced :
      (s : Scheduler B) (input : RequestInput) (g : GenerationConfig) (now : ℕ) (receiving : Bool)
      (o : Option SlotPool)
      → try_acquire s.loop.worker.slots ≡ o
      → Balanced c s.loop
      → Balanced c (admit s input g now receiving o).1.loop
  unfolding admit
  admit-Balanced s input g now receiving none e v = v
  admit-Balanced s input g now receiving (some slots) e v =
      enqueue-Balanced s input g now receiving slots e v

  check_generation-Balanced :
      (s : Scheduler B) (input : RequestInput) (g : GenerationConfig) (now : ℕ) (receiving : Bool)
      (r : Result GenerationError (Unit {0}))
      → Balanced c s.loop
      → Balanced c (check_generation s input g now receiving r).1.loop
  unfolding check_generation
  check_generation-Balanced s input g now receiving (err e) v = v
  check_generation-Balanced s input g now receiving (ok _) v =
      admit-Balanced s input g now receiving _ refl v

  check_input-Balanced :
      (s : Scheduler B) (input : RequestInput) (g : GenerationConfig) (now : ℕ) (receiving : Bool)
      (r : Result RequestInputError (Unit {0}))
      → Balanced c s.loop
      → Balanced c (check_input s input g now receiving r).1.loop
  unfolding check_input
  check_input-Balanced s input g now receiving (err e) v = v
  check_input-Balanced s input g now receiving (ok _) v =
      check_generation-Balanced s input g now receiving _ v

  pub start_request-Balanced :
      (s : Scheduler B) (input : RequestInput) (g : GenerationConfig) (now : ℕ) (receiving : Bool)
      → Balanced c s.loop
      → Balanced c (start_request s input g now receiving).1.loop
  unfolding start_request
  start_request-Balanced s input g now receiving v =
      check_input-Balanced s input g now receiving _ v

module _ {B : Backend} where
  new_scheduler-Balanced :
      (config : EngineConfig) (backend : B.State) (store : Store) (spawned : Bool) (s : Scheduler B)
      → new_scheduler config backend store spawned ≡ ok s
      → (validate_config config ≡ ok tt) × Balanced config.max_concurrent_requests s.loop
  unfolding new_scheduler new_pool
  new_scheduler-Balanced config backend store spawned s e =
      elim (Result-cases (validate_config config)) [
        | inl (tt, q) ↦ (q, ground (arith, q))
        | inr (x, q) ↦ cc (q)
      ]

  -- However the clients and the worker go on from a new scheduler, at most as many requests as
  -- configured, and so at most six, are pending, active or waiting in the channel.
  pub worker_loop_inner-bounded :
      (fl : FloatOps) (config : EngineConfig) (backend : B.State) (store : Store) (spawned : Bool)
      (s : Scheduler B) (ts : List Tick)
      → new_scheduler config backend store spawned ≡ ok s
      → let l = worker_loop_inner fl config ts s.loop in
        let present = length l.worker.pending + length l.worker.active + permits_in l.channel in
        (l.worker.slots.used ≡ present) × (present ≤ config.max_concurrent_requests) × (present ≤ 6)
  worker_loop_inner-bounded fl config backend store spawned s ts e =
      let (valid, fresh) = new_scheduler-Balanced config backend store spawned s e in
      let v = worker_loop_inner-Balanced config.max_concurrent_requests fl config ts s.loop fresh in
      let limits = (validate_config_iff config).0 valid in
      (
        omega (arith, v.used),
        omega (arith, v.used, v.within),
        omega (arith, v.used, v.within, limits.requests),
      )
