-- ===== src/Runtime/Scheduler/Worker/Answer.antt =====
-- scheduler.rs: the answers of `Scheduler::start` and what each leaves behind.
use qwen3_tts_native.Base.{
  ℕ, ◌+◌, ◌*◌, ◌≡◌, ◌≢◌, refl, ap, ◌∙◌, Bool, true, false, [], ◌∷◌, ◌++◌, Option, none, some,
  Result, ok, err, u64, ==_iff, arith,
}
use qwen3_tts_native.Runtime.Types.{
  GenerationConfig, RequestInput, RequestInputError, validate_input, samples_per_codec_frame,
}
use qwen3_tts_native.Runtime.Scheduler.Validate.{GenerationError, validate_generation}
use qwen3_tts_native.Runtime.Scheduler.Slots.{SlotPool, try_acquire, release}
use qwen3_tts_native.Runtime.Scheduler.Shared.{new_shared}
use qwen3_tts_native.Runtime.Scheduler.Handle.{
  SchedulerError, invalid_configuration, invalid_generation, invalid_input, full, closed,
  worker_not_spawned,
}
use qwen3_tts_native.Runtime.Scheduler.Backend.{Backend}
use qwen3_tts_native.Runtime.Scheduler.Worker.{start}
use qwen3_tts_native.Runtime.Scheduler.Worker.Front.{
  Scheduler, start_request, enqueue, admit, check_generation, check_input,
}
use qwen3_tts_native.Runtime.Scheduler.Worker.Admission.{Balanced, start_request-Balanced}

try_acquire-none : (p : SlotPool) → try_acquire p ≡ none → p.used ≡ p.capacity
unfolding try_acquire
try_acquire-none p h = ground (arith, h)

try_acquire-used : (p q : SlotPool) → try_acquire p ≡ some q → q ≡ record p { used = p.used + 1 }
unfolding try_acquire
try_acquire-used p q h = ground (arith, h)

try_acquire-room : (p q : SlotPool) → try_acquire p ≡ some q → p.used ≢ p.capacity
unfolding try_acquire
try_acquire-room p q h = ground (arith, h)

release-acquired : (p : SlotPool) → release (record p { used = p.used + 1 }) ≡ p
unfolding release
release-acquired p = ap (λ u. record p { used = u }) (omega arith)

module _ {B : Backend} (s : Scheduler B) (input : RequestInput) (g : GenerationConfig) (now : ℕ)
    (receiving : Bool) where
  abbrev IsValidCall : Type 0
  IsValidCall = (validate_input input s.config ≡ ok tt) × (validate_generation g ≡ ok tt)

  -- The request is admitted under the next id: its start is the last command of the channel, it has
  -- one more slot, and a fresh entry under its id. Nothing else changes.
  pub record IsAdmitted (id : ℕ) (t : Scheduler B) : Type 0 where
    pub id_is : id ≡ s.next_request_id
    pub next_id : t.next_request_id ≡ u64 (id + 1)
    pub is_valid : IsValidCall
    pub received : receiving ≡ true
    pub room : s.loop.worker.slots.used ≢ s.loop.worker.slots.capacity
    pub channel :
        t.loop.channel
        ≡ s.loop.channel
          ++ start record {
            request = record { id = id; input = input; generation = g };
            enqueued_at = now;
          }
            ∷ []
    pub used : t.loop.worker.slots.used ≡ s.loop.worker.slots.used + 1
    pub entry :
        t.loop.worker.store id
        ≡ new_shared id s.config.pcm_ring_slots
            (s.config.packet_frames * samples_per_codec_frame)
            now
    pub others : (j : ℕ) → j ≢ id → t.loop.worker.store j ≡ s.loop.worker.store j
    pub pending : t.loop.worker.pending ≡ s.loop.worker.pending
    pub active : t.loop.worker.active ≡ s.loop.worker.active

  -- What an error says of the call.
  abbrev pub Refuses : SchedulerError → Type 0
  Refuses (invalid_input e) = validate_input input s.config ≡ err e
  Refuses (invalid_generation e) =
      (validate_input input s.config ≡ ok tt) × (validate_generation g ≡ err e)
  Refuses full = IsValidCall × (s.loop.worker.slots.used ≡ s.loop.worker.slots.capacity)
  Refuses closed =
      IsValidCall × (s.loop.worker.slots.used ≢ s.loop.worker.slots.capacity) × (receiving ≡ false)
  Refuses (invalid_configuration e) = ⊥
  Refuses worker_not_spawned = ⊥

  -- A request that is refused leaves the pool, the store, the lists and the channel as they were.
  abbrev pub Answers : Result SchedulerError ℕ × Scheduler B → Type 0
  Answers (ok id, t) = IsAdmitted id t
  Answers (err e, t) = Refuses e × (t.loop ≡ s.loop)

  enqueue-Answers :
      (slots : SlotPool) (r : Bool)
      → receiving ≡ r
      → validate_input input s.config ≡ ok tt
      → validate_generation g ≡ ok tt
      → try_acquire s.loop.worker.slots ≡ some slots
      → Answers (enqueue s input g now r slots)
  unfolding enqueue
  enqueue-Answers slots true r i v a = record {
    id_is = refl;
    next_id = refl;
    is_valid = (i, v);
    received = r;
    room = try_acquire-room s.loop.worker.slots slots a;
    channel = refl;
    used = ap (λ p. p.used) (try_acquire-used s.loop.worker.slots slots a);
    entry = rw ((==_iff s.next_request_id s.next_request_id).1 refl) refl;
    others = λ j n. ground (arith, n);
    pending = refl;
    active = refl;
  }
  enqueue-Answers slots false r i v a =
      let pool = s.loop.worker.slots in
      let same : release slots ≡ pool =
        ap release (try_acquire-used pool slots a) ∙ release-acquired pool in
      (
        ((i, v), try_acquire-room pool slots a, r),
        ap (λ p. record (s.loop) { worker = record (s.loop.worker) { slots = p } }) same,
      )

  admit-Answers :
      (o : Option SlotPool)
      → validate_input input s.config ≡ ok tt
      → validate_generation g ≡ ok tt
      → try_acquire s.loop.worker.slots ≡ o
      → Answers (admit s input g now receiving o)
  unfolding admit
  admit-Answers none i v a = (((i, v), try_acquire-none s.loop.worker.slots a), refl)
  admit-Answers (some slots) i v a = enqueue-Answers slots receiving refl i v a

  check_generation-Answers :
      (r : Result GenerationError (Unit {0}))
      → validate_input input s.config ≡ ok tt
      → validate_generation g ≡ r
      → Answers (check_generation s input g now receiving r)
  unfolding check_generation
  check_generation-Answers (err e) i v = ((i, v), refl)
  check_generation-Answers (ok u) i v = admit-Answers _ i v refl

  check_input-Answers :
      (r : Result RequestInputError (Unit {0}))
      → validate_input input s.config ≡ r
      → Answers (check_input s input g now receiving r)
  unfolding check_input
  check_input-Answers (err e) i = (i, refl)
  check_input-Answers (ok u) i = check_generation-Answers _ i refl

  -- If there is one permit for each request that is pending, active or in the channel, and no more
  -- than the capacity, this is so after `Scheduler::start` too, and the answer is true of what it
  -- did. If the answer is an id, the arguments are valid, the worker receives and a slot was free;
  -- the request's start is now the last in the channel, its entry is new, it holds one more slot, and
  -- no other request is touched. If it is an error, the error names a cause that is so, and the
  -- pool, the entries, the lists and the channel are as before, so the request holds no slot.
  pub start_request-Answers :
      (c : ℕ)
      → Balanced c s.loop
      → let r = start_request s input g now receiving in Balanced c r.1.loop × Answers r
  unfolding start_request
  start_request-Answers c v =
      (start_request-Balanced c s input g now receiving v, check_input-Answers _ refl)
