-- ===== src/Http/Buffer.antt =====
-- native/qwen3-tts-http-bench/src/http.rs: `TimedBuffer`, bytes in the segments in which they arrived.
use qwen3_tts_native.Base.{
  ℕ, ◌+◌, ◌-◌, min, Bool, true, false, List, [], ◌∷◌, ◌++◌, length, take, drop, get_or, is_empty,
  Option, none, some, Result, ok, err, ltb, ◌==◌, if◌then◌else◌,
}
pub mod Bytes
pub mod Find
pub mod Prefix
pub mod Streams

-- An instant is a number.
pub record Segment : Type 0 where
  pub bytes : List ℕ
  pub offset : ℕ
  pub arrived : ℕ

pub record TimedBuffer : Type 0 where
  pub segments : List Segment
  pub len : ℕ

pub record TimedBytes : Type 0 where
  pub bytes : List ℕ
  pub arrived : ℕ

-- `drain_bytes` on too many bytes, and its `expect` on a buffer without segments.
pub data BufferError : Type 0 where
  underflow missing_segment : BufferError

abbrev pub empty_buffer : TimedBuffer
empty_buffer = record { segments = []; len = 0 }

unfoldable pub push_bytes : List ℕ → ℕ → TimedBuffer → TimedBuffer
push_bytes bytes arrived b = if is_empty bytes then b else record {
  segments = b.segments ++ record { bytes = bytes; offset = 0; arrived = arrived } ∷ [];
  len = b.len + length bytes;
}

-- The bytes of a segment that are not read yet.
abbrev pub unread : Segment → List ℕ
unread s = drop s.offset s.bytes

-- The loop of `find`, with the bytes of the needle matched and the position.
unfoldable pub find_loop : List ℕ → List ℕ → ℕ → ℕ → Result (ℕ × ℕ) ℕ
find_loop needle [] matched position = err (matched, position)
find_loop needle (byte ∷ bytes) matched position =
    if byte == get_or needle matched 0
    then if matched + 1 == length needle
      then ok (position + 1 - length needle)
      else find_loop needle bytes (matched + 1) (position + 1)
    else find_loop needle bytes (if byte == get_or needle 0 0 then 1 else 0) (position + 1)

unfoldable pub find_segments : List ℕ → List Segment → ℕ → ℕ → Option ℕ
find_segments needle [] matched position = none
find_segments needle (s ∷ ss) matched position =
    elim (find_loop needle (unread s) matched position) [
      | ok at ↦ some at
      | err (m, p) ↦ find_segments needle ss m p
    ]

unfoldable pub find : List ℕ → TimedBuffer → Option ℕ
find needle b = if is_empty needle then some 0 else find_segments needle b.segments 0 0

-- The bytes that a read takes from the front, and the buffer after it.
abbrev pub Taken : Type 0
Taken = Result BufferError (List ℕ) × TimedBuffer

-- The loop of `drain_bytes`. A segment that is not used up has given all that was asked for, and the
-- loop ends with it.
unfoldable pub drain_loop : List Segment → ℕ → ℕ → List ℕ → Taken
drain_loop [] len count output =
    let b : TimedBuffer = record { segments = []; len = len } in
    if count == 0 then (ok output, b) else (err missing_segment, b)
drain_loop (s ∷ ss) len count output =
    if count == 0
    then (ok output, record { segments = s ∷ ss; len = len })
    else (let taken = min (length s.bytes - s.offset) count in
        let more = output ++ take taken (drop s.offset s.bytes) in
        if s.offset + taken == length s.bytes
        then drain_loop ss (len - taken) (count - taken) more
        else (
          ok more,
          record { segments = record s { offset = s.offset + taken } ∷ ss; len = len - taken },
        ))

unfoldable pub drain_bytes : ℕ → TimedBuffer → Taken
drain_bytes count b =
    if ltb b.len count then (err underflow, b) else drain_loop b.segments b.len count []

-- `pop_segment` on a buffer with the front segment `s`.
unfoldable pub pop_front : ℕ → Segment → List Segment → ℕ → Option TimedBytes × TimedBuffer
pop_front maximum s ss len =
    let taken = min (length s.bytes - s.offset) maximum in
    (
      some record { bytes = take taken (drop s.offset s.bytes); arrived = s.arrived },
      record {
        segments =
            if s.offset + taken == length s.bytes
            then ss
            else record s { offset = s.offset + taken } ∷ ss;
        len = len - taken;
      },
    )

unfoldable pub pop_segments : ℕ → List Segment → ℕ → Option TimedBytes × TimedBuffer
pop_segments maximum [] len = (none, record { segments = []; len = len })
pop_segments maximum (s ∷ ss) len = pop_front maximum s ss len

unfoldable pub pop_segment : ℕ → TimedBuffer → Option TimedBytes × TimedBuffer
pop_segment maximum b = pop_segments maximum b.segments b.len
