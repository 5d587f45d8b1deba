-- ===== src/Http/Buffer/Streams.antt =====
-- http.rs: what a reader does with its `TimedBuffer`, and what it gets.
use qwen3_tts_native.Base.{
  ℕ, ◌<◌, ◌≤◌, ◌≡◌, refl, sym, ap, ◌∙◌, List, [], ◌∷◌, ◌++◌, append-nil, append_assoc, take, drop,
  take-append-drop, Result, ok, err, ltb, if_lem, ltb→lt, Bool-cases, inl, inr, arith,
}
use qwen3_tts_native.Http.Buffer.{
  TimedBuffer, BufferError, empty_buffer, push_bytes, underflow, pop_segment, drain_bytes,
  pop_segment,
}
use qwen3_tts_native.Http.Buffer.Bytes.{
  Cuts, Inv, contents, drain_loop-Cuts, given, pop_segments-Pops, push_bytes-Inv,
  push_segment-contents,
}

-- What a reader does with its buffer.
pub data BufferOp : Type 0 where
  pushes : (bytes : List ℕ) (arrived : ℕ) → BufferOp
  drains pops : ℕ → BufferOp

-- The buffer beside all bytes pushed so far and all handed out.
pub record Stream : Type 0 where
  pub buffer : TimedBuffer
  pub pushed : List ℕ
  pub read : List ℕ

abbrev pub drained : Result BufferError (List ℕ) → List ℕ
drained (ok bytes) = bytes
drained (err e) = []

unfoldable pub run : BufferOp → Stream → Stream
run (pushes bytes arrived) s = record {
  buffer = push_bytes bytes arrived s.buffer;
  pushed = s.pushed ++ bytes;
  read = s.read;
}
run (drains count) s =
    let r = drain_bytes count s.buffer in
    record { buffer = r.1; pushed = s.pushed; read = s.read ++ drained r.0 }
run (pops maximum) s =
    let r = pop_segment maximum s.buffer in
    record { buffer = r.1; pushed = s.pushed; read = s.read ++ given r.0 }

unfoldable pub run_all : List BufferOp → Stream → Stream
run_all [] s = s
run_all (op ∷ ops) s = run_all ops (run op s)

abbrev pub new_stream : Stream
new_stream = record { buffer = empty_buffer; pushed = []; read = [] }

pub record InOrder (s : Stream) : Type 0 where
  pub valid : Inv s.buffer
  pub order : s.read ++ contents s.buffer.segments ≡ s.pushed

pub drain_bytes-Cuts :
    (count : ℕ) (b : TimedBuffer)
    → Inv b
    → count ≤ b.len
    → Cuts (contents b.segments) count [] (drain_bytes count b)
unfolding drain_bytes
drain_bytes-Cuts count b v l =
    if_lem (Cuts (contents b.segments) count []) (ltb b.len count)
      (λ e. absurd (ground (arith, e, l)))
      (λ e. drain_loop-Cuts b.segments b.len count [] v.live v.count l)

refused-drain :
    (count : ℕ) (b : TimedBuffer) → b.len < count → drain_bytes count b ≡ (err underflow, b)
unfolding drain_bytes
refused-drain count b l = ground (arith, l)

drains-InOrder : (count : ℕ) (s : Stream) → InOrder s → InOrder (run (drains count) s)
unfolding run
drains-InOrder count s v =
    let all = contents s.buffer.segments in
    elim (Bool-cases (ltb s.buffer.len count)) [
      | inl e ↦
          rw (refused-drain count s.buffer (ltb→lt _ _ e))
            record { valid = v.valid; order = ap (λ l. l ++ all) (append-nil s.read) ∙ v.order }
      | inr e ↦
          let c = drain_bytes-Cuts count s.buffer v.valid (ground (arith, e)) in
          record {
            valid = c.valid;
            order =
                ap (λ r. (s.read ++ drained r) ++ contents (drain_bytes count s.buffer).1.segments)
                  c.result
                ∙ ap (λ l. (s.read ++ take count all) ++ l) c.rest
                ∙ append_assoc s.read (take count all) (drop count all)
                ∙ ap (λ l. s.read ++ l) (take-append-drop count all)
                ∙ v.order;
          }
    ]

run-InOrder : (op : BufferOp) (s : Stream) → InOrder s → InOrder (run op s)
unfolding run pop_segment
run-InOrder (pushes bytes arrived) s v = record {
  valid = push_bytes-Inv bytes arrived s.buffer v.valid;
  order =
      ap (λ l. s.read ++ l) (push_segment-contents bytes arrived s.buffer)
      ∙ sym (append_assoc s.read (contents s.buffer.segments) bytes)
      ∙ ap (λ l. l ++ bytes) v.order;
}
run-InOrder (drains count) s v = drains-InOrder count s v
run-InOrder (pops maximum) s v =
    let r = pop_segment maximum s.buffer in
    let p = pop_segments-Pops maximum s.buffer.segments s.buffer.len v.valid in
    record {
      valid = p.valid;
      order =
          append_assoc s.read (given r.0) (contents r.1.segments)
          ∙ ap (λ l. s.read ++ l) p.order
          ∙ v.order;
    }

run_all-InOrder : (ops : List BufferOp) (s : Stream) → InOrder s → InOrder (run_all ops s)
unfolding run_all
run_all-InOrder [] s v = v
run_all-InOrder (op ∷ ops) s v = run_all-InOrder ops (run op s) (run-InOrder op s v)

-- After any sequence of `push`, `drain_bytes` and `pop_segment` on a new `TimedBuffer`, `len` is the
-- number of unread bytes, the bytes handed out followed by the unread ones are the bytes pushed, in
-- order, and a further `drain_bytes` of at most `len` bytes gives exactly the first of the unread,
-- while one of more is refused and changes nothing; however the bytes are cut into segments.
pub new_stream-InOrder :
    (ops : List BufferOp)
    → let s = run_all ops new_stream in
      let unread_bytes = contents s.buffer.segments in
      InOrder s
      × ((count : ℕ)
          → count ≤ s.buffer.len
          → ((drain_bytes count s.buffer).0 ≡ ok (take count unread_bytes))
            × (contents (drain_bytes count s.buffer).1.segments ≡ drop count unread_bytes))
      × ((count : ℕ)
          → s.buffer.len < count
          → drain_bytes count s.buffer ≡ (err underflow, s.buffer))
new_stream-InOrder ops =
    let s = run_all ops new_stream in
    let v =
      run_all-InOrder ops new_stream
        record { valid = record { count = refl; live = tt }; order = refl } in
    (
      v,
      λ count l. let c = drain_bytes-Cuts count s.buffer v.valid l in (c.result, c.rest),
      λ count l. refused-drain count s.buffer l,
    )
