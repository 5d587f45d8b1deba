-- ===== src/Runtime/Request/Queue.antt =====
-- `PacketQueue` as a bounded first-in first-out list.
use qwen3_tts_native.Base.{
  ◌≤◌, ◌≡◌, refl, sym, List, [], ◌∷◌, ◌++◌, append_assoc, append-nil, ap, ◌∙◌, length,
  length-append, Option, none, some, Result, ok, err, arith, Bool-cases, inl, inr, ◌==◌,
}
use qwen3_tts_native.Runtime.Request.{PacketQueue, PacketQueueError, push, pop}

abbrev pub IsBounded {ℓ} : {T : Type ℓ} → PacketQueue T → Type 0
IsBounded q = length q.values ≤ q.capacity

pub data Op {ℓ} (T : Type ℓ) : Type ℓ where
  pushes : T → Op T
  pops : Op T

-- A run of operations, with the values that were accepted and those that were handed out.
pub record Run {ℓ} (T : Type ℓ) : Type ℓ where
  pub queue : PacketQueue T
  pub accepted : List T
  pub popped : List T

module _ {ℓ} {T : Type ℓ} where
  -- A refused push leaves the queue as it was.
  after_push : Run T → T → Result PacketQueueError (PacketQueue T) → Run T
  after_push s v (ok q) = record s { queue = q; accepted = s.accepted ++ v ∷ [] }
  after_push s v (err e) = s

  after_pop : Run T → Option T × PacketQueue T → Run T
  after_pop s (none, q) = record s { queue = q }
  after_pop s (some v, q) = record s { queue = q; popped = s.popped ++ v ∷ [] }

  unfoldable pub run_op : Run T → Op T → Run T
  unfolding after_push after_pop
  run_op s (pushes v) = after_push s v (push s.queue v)
  run_op s pops = after_pop s (pop s.queue)

  unfoldable pub run : Run T → List (Op T) → Run T
  unfolding run_op
  run s [] = s
  run s (o ∷ os) = run (run_op s o) os

-- Nothing is lost, doubled or reordered, and the queue never holds more than its capacity.
pub record IsFifo {ℓ} {T : Type ℓ} (s : Run T) : Type ℓ where
  pub order : s.popped ++ s.queue.values ≡ s.accepted
  pub bounded : IsBounded s.queue

module _ {ℓ} {T : Type ℓ} where
  pop-IsFifo : (s : Run T) (vs : List T) → s.queue.values ≡ vs → IsFifo s → IsFifo (run_op s pops)
  unfolding run_op pop
  pop-IsFifo s [] e h = ground (arith, append-nil s.popped)
  pop-IsFifo s (v ∷ vs) e h = ground (arith, append_assoc s.popped (v ∷ []) vs)

  run_op-IsFifo : (s : Run T) (o : Op T) → IsFifo s → IsFifo (run_op s o)
  unfolding run_op push
  run_op-IsFifo s (pushes v) h = elim (Bool-cases (length s.queue.values == s.queue.capacity)) [
    | inl e ↦ rw e h
    | inr e ↦ rw e (record {
      order = sym (append_assoc s.popped s.queue.values (v ∷ [])) ∙ ap (λ l. l ++ v ∷ []) h.order;
      bounded = ground (arith, length-append s.queue.values (v ∷ []));
    })
  ]
  run_op-IsFifo s pops h = pop-IsFifo s _ refl h

  -- Any run keeps the queue first-in first-out and bounded.
  pub run-IsFifo : (s : Run T) (os : List (Op T)) → IsFifo s → IsFifo (run s os)
  unfolding run
  run-IsFifo s [] h = h
  run-IsFifo s (o ∷ os) h = run-IsFifo (run_op s o) os (run_op-IsFifo s o h)
