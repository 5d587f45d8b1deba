-- ===== src/Multipart/Reading.antt =====
-- native/qwen3-tts-http-bench/src/multipart.rs: what a `MultipartReader` reads with. The body of the response is the list
-- of the answers that its `next_segment` will give, then its end.
use qwen3_tts_native.Base.{
  ℕ, zero, suc, ◌+◌, ◌-◌, ◌*◌, Bool, true, false, List, [], ◌∷◌, ◌++◌, length, take, is_empty,
  Option, none, some, Result, ok, err, ltb, ◌==◌, if◌then◌else◌,
}
use qwen3_tts_native.Http.Buffer.{
  TimedBuffer, TimedBytes, BufferError, empty_buffer, push_bytes, find, drain_bytes, pop_segment,
}
use qwen3_tts_native.Http.Buffer.Find.{crlf}
use qwen3_tts_native.Multipart.Part.{delimiter, closing_delimiter}

abbrev pub max_part_header_bytes : ℕ
max_part_header_bytes = 64 * 1024

abbrev pub max_part_payload_bytes : ℕ
max_part_payload_bytes = 512 * 1024 * 1024

-- An error of the body is its number.
pub data MultipartError : Type 0 where
  body_error : ℕ → MultipartError
  buffer_error : BufferError → MultipartError
  no_opening no_length bad_length payload_too_long truncated no_suffix bad_boundary : MultipartError
  epilogue body_ended framing_too_long : MultipartError
  not_text folded_header malformed_header duplicate_header : MultipartError
  -- The loop over the payload has used up its fuel.
  stalled : MultipartError

abbrev pub Headers : Type 0
Headers = List (List ℕ × List ℕ)

pub record Part : Type 0 where
  pub headers : Headers
  pub payload : List ℕ
  pub first_payload_at : Option ℕ

abbrev pub Body : Type 0
Body = List (Result ℕ TimedBytes)

pub record MultipartReader : Type 0 where
  pub body : Body
  pub buffer : TimedBuffer
  pub boundary_line : List ℕ
  pub closing_boundary_line : List ℕ
  pub started : Bool
  pub finished : Bool

unfoldable pub new_reader : Body → List ℕ → MultipartReader
new_reader body boundary = record {
  body = body;
  buffer = empty_buffer;
  boundary_line = delimiter boundary;
  closing_boundary_line = closing_delimiter boundary;
  started = false;
  finished = false;
}

-- A method of the reader that may fail; what it changed stays changed.
abbrev pub Reading {ℓ} : Type ℓ → Type ℓ
Reading A = MultipartReader → Result MultipartError A × MultipartReader

abbrev pub and_then {ℓ κ} :
    {A : Type ℓ} {B : Type κ}
    → Result MultipartError A × MultipartReader
    → (A → Reading B)
    → Result MultipartError B × MultipartReader
and_then (ok a, r) go = go a r
and_then (err e, r) go = (err e, r)

infixl 5 ◌>>=◌ ◌>>◌
abbrev pub ◌>>=◌ {ℓ κ} : {A : Type ℓ} {B : Type κ} → Reading A → (A → Reading B) → Reading B
◌>>=◌ m go r = and_then (m r) go

abbrev pub ◌>>◌ {ℓ} : {B : Type ℓ} → Reading (Unit {0}) → Reading B → Reading B
first >> rest = first >>= λ t. rest

abbrev pub lift {ℓ} : {A : Type ℓ} → Result MultipartError A → Reading A
lift result r = (result, r)

abbrev pub give {ℓ} : {A : Type ℓ} → A → Reading A
give a r = (ok a, r)

abbrev pub refuse_unless : Bool → MultipartError → Reading (Unit {0})
refuse_unless true e r = (ok tt, r)
refuse_unless false e r = (err e, r)

-- `self.body.next_segment().await?`, none at the end of the body.
abbrev pub receive_segment : Body → MultipartReader → TimedBytes → MultipartReader
receive_segment rest r s = record r { body = rest; buffer = push_bytes s.bytes s.arrived r.buffer }

-- The bytes before the delimiter, of those drained with it.
abbrev pub cut_at :
    ℕ → Result BufferError (List ℕ) × TimedBuffer → Result MultipartError (List ℕ) × TimedBuffer
cut_at position (ok bytes, b) = (ok (take position bytes), b)
cut_at position (err e, b) = (err (buffer_error e), b)

-- What a round of `read_until` finds in the buffer: a result, or none if it wants more bytes.
unfoldable pub try_read_until :
    List ℕ → ℕ → TimedBuffer → Option (Result MultipartError (List ℕ) × TimedBuffer)
try_read_until needle maximum b = elim (find needle b) [
  | some position ↦ some (
      if ltb maximum position
      then (err framing_too_long, b)
      else cut_at position (drain_bytes (position + length needle) b))
  | none ↦ if ltb maximum b.len then some (err framing_too_long, b) else none
]

abbrev pub with_buffer {ℓ} :
    {A : Type ℓ}
    → MultipartReader
    → Result MultipartError A × TimedBuffer
    → Result MultipartError A × MultipartReader
with_buffer r (result, b) = (result, record r { buffer = b })

abbrev pub with_body : MultipartReader → Body → MultipartReader
with_body r body = record r { body = body }

-- The loop of `read_until`, on the answers of the body.
unfoldable pub read_until_loop : List ℕ → ℕ → Body → Reading (List ℕ)
read_until_loop needle maximum [] r = elim (try_read_until needle maximum r.buffer) [
  | some result ↦ with_buffer (with_body r []) result
  | none ↦ (err body_ended, with_body r [])
]
read_until_loop needle maximum (err e ∷ rest) r = elim (try_read_until needle maximum r.buffer) [
  | some result ↦ with_buffer (with_body r (err e ∷ rest)) result
  | none ↦ (err (body_error e), with_body r rest)
]
read_until_loop needle maximum (ok s ∷ rest) r = elim (try_read_until needle maximum r.buffer) [
  | some result ↦ with_buffer (with_body r (ok s ∷ rest)) result
  | none ↦ read_until_loop needle maximum rest (receive_segment rest r s)
]

unfoldable pub read_until : List ℕ → ℕ → Reading (List ℕ)
read_until needle maximum r = read_until_loop needle maximum r.body r

unfoldable pub read_line : ℕ → Reading (List ℕ)
read_line maximum = read_until crlf maximum

abbrev pub exact_bytes :
    Result BufferError (List ℕ) × TimedBuffer → Result MultipartError (List ℕ) × TimedBuffer
exact_bytes (ok bytes, b) = (ok bytes, b)
exact_bytes (err e, b) = (err (buffer_error e), b)

-- The loop of `read_exact`.
unfoldable pub read_exact_loop : ℕ → Body → Reading (List ℕ)
read_exact_loop count [] r =
    if ltb r.buffer.len count
    then (err body_ended, with_body r [])
    else with_buffer (with_body r []) (exact_bytes (drain_bytes count r.buffer))
read_exact_loop count (err e ∷ rest) r =
    if ltb r.buffer.len count
    then (err (body_error e), with_body r rest)
    else with_buffer (with_body r (err e ∷ rest)) (exact_bytes (drain_bytes count r.buffer))
read_exact_loop count (ok s ∷ rest) r =
    let more = read_exact_loop count rest (receive_segment rest r s) in
    if ltb r.buffer.len count
    then more
    else with_buffer (with_body r (ok s ∷ rest)) (exact_bytes (drain_bytes count r.buffer))

unfoldable pub read_exact : ℕ → Reading (List ℕ)
read_exact count r = read_exact_loop count r.body r

abbrev pub fill_from : Body → Reading (Unit {0})
fill_from [] r = (err body_ended, r)
fill_from (err e ∷ rest) r = (err (body_error e), with_body r rest)
fill_from (ok s ∷ rest) r = (ok tt, receive_segment rest r s)

unfoldable pub fill_if_empty : Reading (Unit {0})
fill_if_empty r = if r.buffer.len == 0 then fill_from r.body r else (ok tt, r)

abbrev pub popped_payload :
    MultipartReader
    → Option TimedBytes × TimedBuffer
    → Result MultipartError TimedBytes × MultipartReader
popped_payload r (none, b) = (err truncated, record r { buffer = b })
popped_payload r (some s, b) = (ok s, record r { buffer = b })

unfoldable pub pop_payload : ℕ → Reading TimedBytes
pop_payload remaining r = popped_payload r (pop_segment remaining r.buffer)

-- `get_or_insert`.
abbrev pub or_else : Option ℕ → ℕ → Option ℕ
or_else none b = some b
or_else (some a) b = some a

-- The loop over the payload, on fuel for its rounds: each takes a byte or more.
unfoldable pub payload_loop : ℕ → ℕ → List ℕ → Option ℕ → Reading (List ℕ × Option ℕ)
payload_loop zero remaining payload first r =
    if remaining == 0 then (ok (payload, first), r) else (err stalled, r)
payload_loop (suc fuel) remaining payload first r =
    if remaining == 0
    then (ok (payload, first), r)
    else and_then (fill_if_empty r) (λ t. do
      s ← pop_payload remaining
      payload_loop fuel (remaining - length s.bytes) (payload ++ s.bytes) (or_else first s.arrived))

-- The loop of `finish_after_closing_boundary`.
unfoldable pub expect_end : Body → Reading (Unit {0})
expect_end [] r = (ok tt, with_body r [])
expect_end (err e ∷ rest) r = (err (body_error e), with_body r rest)
expect_end (ok s ∷ rest) r =
    let more = expect_end rest r in
    if is_empty s.bytes then more else (err epilogue, with_body r rest)

unfoldable pub finish_after_closing_boundary : Reading (Unit {0})
finish_after_closing_boundary r =
    if r.buffer.len == 0 then expect_end r.body r else (err epilogue, r)
