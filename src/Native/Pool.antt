-- ===== src/Native/Pool.antt =====
-- native_talker.rs: `session_capacity`, and the pool of native sessions of `NativeTalkerModel`.
-- The native library's answers are arguments. Handles are numbers, null is 0.
use qwen3_tts_native.Base.{
  ℕ, zero, suc, ◌+◌, ◌-◌, ◌*◌, ◌/◌, ◌^◌, max, min, Bool, true, false, List, [], ◌∷◌, ◌++◌, length,
  Option, none, some, Result, ok, err, leb, ltb, ◌==◌, ◌!=◌, if◌then◌else◌,
}
use qwen3_tts_native.Wav.Bytes.{checked_add}
pub mod Conserved
pub mod Capacity
pub mod Handles

abbrev pub min_session_capacity : ℕ
min_session_capacity = 16

abbrev pub session_capacity_block : ℕ
session_capacity_block = 32

abbrev pub max_pooled_sessions : ℕ
max_pooled_sessions = 8

pub data CapacityError : Type 0 where
  limit_too_small count_overflows too_many_positions capacity_overflows : CapacityError

unfoldable pub session_capacity : ℕ → ℕ → ℕ → Result CapacityError ℕ
session_capacity prompt_tokens max_frames max_sequence_length =
    if ltb max_sequence_length min_session_capacity
    then err limit_too_small
    else elim (checked_add prompt_tokens max_frames) [
      | none ↦ err count_overflows
      | some required ↦
          if ltb max_sequence_length required
          then err too_many_positions
          else (elim (checked_add (max required min_session_capacity)
              (session_capacity_block - 1)) [
                | none ↦ err capacity_overflows
                | some sum ↦ ok (
                    min (sum / session_capacity_block * session_capacity_block) max_sequence_length)
              ])
    ]

pub record PooledSession : Type 0 where
  pub handle : ℕ
  pub max_sequence_length : ℕ

-- The scan of `filter` and `min_by_key`: the first of the smallest entries that are large enough,
-- with its index. `best` is the choice so far.
abbrev pub choose : Option (ℕ × PooledSession) → ℕ → PooledSession → Option (ℕ × PooledSession)
choose none i entry = some (i, entry)
choose (some (j, best)) i entry =
    if ltb entry.max_sequence_length best.max_sequence_length
    then some (i, entry)
    else some (j, best)

abbrev pub scan_pool :
    List PooledSession → ℕ → ℕ → Option (ℕ × PooledSession) → Option (ℕ × PooledSession)
scan_pool [] required i best = best
scan_pool (entry ∷ rest) required i best =
    scan_pool rest required (suc i)
      (if leb required entry.max_sequence_length then choose best i entry else best)

unfoldable pub smallest_adequate_session_index : List PooledSession → ℕ → Option ℕ
smallest_adequate_session_index pool required = elim (scan_pool pool required 0 none) [
  | none ↦ none
  | some (i, entry) ↦ some i
]

-- `Vec::swap_remove`: the last element takes the place of the one removed.
abbrev pub last_of : PooledSession → List PooledSession → PooledSession
last_of x [] = x
last_of x (y ∷ ys) = last_of y ys

abbrev pub all_but_last : PooledSession → List PooledSession → List PooledSession
all_but_last x [] = []
all_but_last x (y ∷ ys) = x ∷ all_but_last y ys

abbrev pub last_first : List PooledSession → List PooledSession
last_first [] = []
last_first (x ∷ xs) = last_of x xs ∷ all_but_last x xs

abbrev pub keep :
    PooledSession
    → Option (PooledSession × List PooledSession)
    → Option (PooledSession × List PooledSession)
keep x none = none
keep x (some (y, rest)) = some (y, x ∷ rest)

abbrev pub swap_remove : List PooledSession → ℕ → Option (PooledSession × List PooledSession)
swap_remove [] i = none
swap_remove (x ∷ xs) zero = some (x, last_first xs)
swap_remove (x ∷ xs) (suc i) = keep x (swap_remove xs i)

-- The sessions not in use, and the handles destroyed so far.
pub record SessionPool : Type 0 where
  pub pool : List PooledSession
  pub destroyed : List ℕ

pub data AcquireError : Type 0 where
  missing_reset missing_create null_handle pool_index : AcquireError
  native_failed : ℕ → AcquireError

-- What the library answers to `acquire_session`, for each capacity that a new session may be asked
-- to have: `none` for a symbol that it lacks.
pub record Answers : Type 0 where
  pub reset_status : Option ℕ
  pub create : ℕ → Option (ℕ × PooledSession)

-- `destroy_session`; it is assumed that the library has the symbol.
unfoldable pub destroy_session : ℕ → SessionPool → SessionPool
destroy_session handle p = if handle == 0 then p else record p { destroyed = handle ∷ p.destroyed }

-- A pooled session is reset, or destroyed if that fails.
unfoldable pub reset_session :
    PooledSession → Option ℕ → SessionPool → Result AcquireError PooledSession × SessionPool
reset_session entry none p = (err missing_reset, destroy_session entry.handle p)
reset_session entry (some status) p =
    if status == 0
    then (ok entry, p)
    else (err (native_failed status), destroy_session entry.handle p)

unfoldable pub create_session : Option (ℕ × PooledSession) → Result AcquireError PooledSession
create_session none = err missing_create
create_session (some (status, entry)) =
    if status != 0
    then err (native_failed status)
    else if entry.handle == 0
    then err null_handle
    else ok entry

-- The pool without the session chosen, which is reset.
unfoldable pub take_pooled :
    SessionPool
    → Option (PooledSession × List PooledSession)
    → Option ℕ
    → Result AcquireError PooledSession × SessionPool
take_pooled p none reset_status = (err pool_index, p)
take_pooled p (some (entry, rest)) reset_status =
    reset_session entry reset_status (record p { pool = rest })

-- `acquire_session`; `pool_index` would be an index out of range, on which `swap_remove` panics.
unfoldable pub acquire_session :
    SessionPool → ℕ → Answers → Result AcquireError PooledSession × SessionPool
acquire_session p capacity answers = elim (smallest_adequate_session_index p.pool capacity) [
  | none ↦ (create_session (answers.create capacity), p)
  | some i ↦ take_pooled p (swap_remove p.pool i) answers.reset_status
]

unfoldable pub recycle_session : PooledSession → SessionPool → SessionPool
recycle_session entry p =
    if ltb (length p.pool) max_pooled_sessions
    then record p { pool = p.pool ++ entry ∷ [] }
    else destroy_session entry.handle p

-- `NativeTalkerSession::drop`.
unfoldable pub drop_session : Bool → PooledSession → SessionPool → SessionPool
drop_session recyclable entry p =
    if entry.handle == 0
    then p
    else if recyclable
    then recycle_session entry p
    else destroy_session entry.handle p
