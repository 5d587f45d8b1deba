-- ===== src/Runtime/Scheduler/Slots.antt =====
-- scheduler.rs: `SlotPool` and its permits, which bound the requests in the runtime.
use qwen3_tts_native.Base.{ℕ, ◌+◌, ◌-◌, Option, none, some, ◌==◌, if◌then◌else◌}

pub record SlotPool : Type 0 where
  pub capacity : ℕ
  pub used : ℕ

unfoldable pub new_pool : ℕ → SlotPool
new_pool capacity = record { capacity = capacity; used = 0 }

-- `none` when the pool is exhausted; the permit itself is the caller's obligation to release.
unfoldable pub try_acquire : SlotPool → Option SlotPool
try_acquire p = if p.used == p.capacity then none else some (record p { used = p.used + 1 })

-- `SlotPool::release`, which `SlotPermit::drop` calls. `-` is the saturating subtraction.
unfoldable pub release : SlotPool → SlotPool
release p = record p { used = p.used - 1 }
