-- ===== src/Multipart/Payload.antt =====
-- native/qwen3-tts-http-bench/src/multipart.rs: how `next_part` reads up to a delimiter and behind it.
use qwen3_tts_native.Base.{
  ℕ, ◌-◌, ◌≤◌, ◌<◌, ◌≡◌, refl, subst, sym, ap, ◌∙◌, min, false, List, [], ◌∷◌, ◌++◌, append_assoc,
  map, length, length-append, length-take, length-drop, take, drop, Option, none, some, Result, ok,
  err, ltb, ltb→lt, ◌==◌, if◌then◌else◌, if_lem, arith,
}
use qwen3_tts_native.Http.Buffer.{
  Segment, TimedBuffer, TimedBytes, BufferError, unread, drain_bytes, pop_segment, pop_segments,
  pop_front,
}
use qwen3_tts_native.Http.Buffer.Bytes.{
  contents, Inv, push_segment-contents, given, pop_segments-Pops,
}
use qwen3_tts_native.Multipart.Reading.{
  MultipartReader, MultipartError, receive_segment, with_body, with_buffer, exact_bytes,
  read_exact_loop, read_exact, fill_from, fill_if_empty, popped_payload, pop_payload, expect_end,
  finish_after_closing_boundary, epilogue,
}
use qwen3_tts_native.Multipart.Arrivals.{
  Setup, arriving, Expects, Holds, Reads, Expects-receive_segment, Expects-drained, drained_bytes,
}

drained_lem :
    (bs : List ℕ) (out : Result BufferError (List ℕ) × TimedBuffer)
    → out.0 ≡ ok bs
    → exact_bytes out ≡ (ok bs, out.1)
drained_lem bs (ok cs, b) h = ap (λ r. exact_bytes (r, b)) h
drained_lem bs (err e, b) h = absurd (cc h)

module _ (setup : Setup) (bytes : List ℕ) (count : ℕ) (enough : count ≤ length bytes) where
  exact-Reads :
      (ss : List TimedBytes) (r : MultipartReader)
      → Expects setup ss bytes r
      → ltb r.buffer.len count ≡ false
      → Reads setup
          (take count bytes)
          (drop count bytes)
          (with_buffer (with_body r (map ok ss)) (exact_bytes (drain_bytes count r.buffer)))
  exact-Reads ss r v e =
      let l : count ≤ length (contents r.buffer.segments) = ground (arith, e, v.valid.count) in
      rw
        (drained_lem (take count bytes) (drain_bytes count r.buffer)
          (drained_bytes setup ss bytes count r v l))
        record {
          result = refl;
          after = record {
            segments = ss;
            body_is = refl;
            expects = Expects-drained setup ss bytes count (map ok ss) r v l;
          };
        }

  read_exact_loop-Reads :
      (ss : List TimedBytes) (r : MultipartReader)
      → Expects setup ss bytes r
      → Reads setup (take count bytes) (drop count bytes) (read_exact_loop count (map ok ss) r)
  unfolding read_exact_loop
  read_exact_loop-Reads [] r v =
      let c = contents r.buffer.segments in
      if_lem (Reads setup (take count bytes) (drop count bytes)) (ltb r.buffer.len count)
        (λ e. absurd (
          omega
            (arith, enough, ap length v.in_order, length-append c [], v.valid.count, ltb→lt _ _ e)))
        (λ e. exact-Reads [] r v e)
  read_exact_loop-Reads (s ∷ ss) r v =
      if_lem (Reads setup (take count bytes) (drop count bytes)) (ltb r.buffer.len count)
        (λ e.
          read_exact_loop-Reads ss (receive_segment (map ok ss) r s)
            (Expects-receive_segment setup s ss (map ok ss) bytes r v))
        (λ e. exact-Reads (s ∷ ss) r v e)

  -- `read_exact` takes exactly so many bytes off the front.
  pub read_exact-Reads :
      (r : MultipartReader)
      → Holds setup bytes r
      → Reads setup (take count bytes) (drop count bytes) (read_exact count r)
  unfolding read_exact
  read_exact-Reads r v =
      subst
        (λ body. Reads setup (take count bytes) (drop count bytes) (read_exact_loop count body r))
        (sym v.body_is) (read_exact_loop-Reads v.segments r v.expects)

-- A pop from a buffer that is not empty gives a byte or more, and no more than asked for.
record Sized (maximum : ℕ) (o : Option TimedBytes) : Type 0 where
  pub segment : TimedBytes
  is_given : o ≡ some segment
  pub positive : 0 < length segment.bytes
  pub bounded : length segment.bytes ≤ maximum

pop_segments-Sized :
    (maximum : ℕ) (ss : List Segment) (len : ℕ)
    → Inv (record { segments = ss; len = len })
    → 0 < len
    → 0 < maximum
    → Sized maximum (pop_segments maximum ss len).0
unfolding pop_segments pop_front
pop_segments-Sized maximum [] len v l m = absurd (omega (arith, l, v.count))
pop_segments-Sized maximum (s ∷ ss) len v l m =
    let taken = min (length s.bytes - s.offset) maximum in
    let size = length-take taken (unread s) in
    let left = length-drop s.offset s.bytes in
    record {
      segment = record { bytes = take taken (unread s); arrived = s.arrived };
      is_given = refl;
      positive = omega (arith, size, left, v.live.0, m);
      bounded = omega (arith, size, left);
    }

popped_lem :
    (r : MultipartReader) (s : TimedBytes) (out : Option TimedBytes × TimedBuffer)
    → out.0 ≡ some s
    → popped_payload r out ≡ (ok s, record r { buffer = out.1 })
popped_lem r s (none, b) h = absurd (cc h)
popped_lem r s (some t, b) h = ap (λ o. popped_payload r (o, b)) h

-- A segment of the payload leaves the front.
pub record TakesSegment (setup : Setup) (maximum : ℕ) (bytes : List ℕ)
    (out : Result MultipartError TimedBytes × MultipartReader) : Type 0 where
  pub segment : TimedBytes
  pub rest : List ℕ
  pub splits : segment.bytes ++ rest ≡ bytes
  pub positive : 0 < length segment.bytes
  pub bounded : length segment.bytes ≤ maximum
  pub reads : Reads setup segment rest out

pub pop_payload-TakesSegment :
    (setup : Setup) (maximum : ℕ) (bytes : List ℕ) (r : MultipartReader)
    → Holds setup bytes r
    → 0 < r.buffer.len
    → 0 < maximum
    → TakesSegment setup maximum bytes (pop_payload maximum r)
unfolding pop_payload pop_segment
pop_payload-TakesSegment setup maximum bytes r v l m =
    let e = v.expects in
    let out = pop_segments maximum r.buffer.segments r.buffer.len in
    let z = pop_segments-Sized maximum r.buffer.segments r.buffer.len e.valid l m in
    let p = pop_segments-Pops maximum r.buffer.segments r.buffer.len e.valid in
    let left = contents out.1.segments in
    record {
      segment = z.segment;
      rest = left ++ arriving v.segments;
      splits =
          sym (append_assoc z.segment.bytes left (arriving v.segments))
          ∙ ap (λ o. (given o ++ left) ++ arriving v.segments) (sym z.is_given)
          ∙ ap (λ k. k ++ arriving v.segments) p.order
          ∙ e.in_order;
      positive = z.positive;
      bounded = z.bounded;
      reads = rw (popped_lem r z.segment out z.is_given) record {
        result = refl;
        after = record {
          segments = v.segments;
          body_is = v.body_is;
          expects = record {
            nonempty = e.nonempty;
            valid = p.valid;
            in_order = refl;
            opening = e.opening;
            ending = e.ending;
            was_started = e.was_started;
            was_finished = e.was_finished;
          };
        };
      };
    }

-- A reader with a byte in its buffer.
pub record Filled (setup : Setup) (bytes : List ℕ)
    (out : Result MultipartError (Unit {0}) × MultipartReader) : Type 0 where
  pub reads : Reads setup tt bytes out
  pub positive : 0 < out.1.buffer.len

fill_from-Filled :
    (setup : Setup) (bytes : List ℕ) (ss : List TimedBytes) (r : MultipartReader)
    → Expects setup ss bytes r
    → 0 < length bytes
    → r.buffer.len ≡ 0
    → Filled setup bytes (fill_from (map ok ss) r)
fill_from-Filled setup bytes [] r v l z = absurd (
    omega (
      arith,
      l,
      z,
      v.valid.count,
      ap length v.in_order,
      length-append (contents r.buffer.segments) [],
    ))
fill_from-Filled setup bytes (s ∷ ss) r v l z =
    let e = Expects-receive_segment setup s ss (map ok ss) bytes r v in
    record {
      reads = record {
        result = refl;
        after = record { segments = ss; body_is = refl; expects = e };
      };
      positive = omega (
        arith,
        e.valid.count,
        ap length (push_segment-contents s.bytes s.arrived r.buffer),
        length-append (contents r.buffer.segments) s.bytes,
        v.nonempty.0,
      );
    }

pub fill_if_empty-Filled :
    (setup : Setup) (bytes : List ℕ) (r : MultipartReader)
    → Holds setup bytes r
    → 0 < length bytes
    → Filled setup bytes (fill_if_empty r)
unfolding fill_if_empty
fill_if_empty-Filled setup bytes r v l =
    if_lem (Filled setup bytes) (r.buffer.len == 0)
      (λ e.
        subst (λ body. Filled setup bytes (fill_from body r)) (sym v.body_is)
          (fill_from-Filled setup bytes v.segments r v.expects l (ground (arith, e))))
      (λ e. record { reads = record { result = refl; after = v }; positive = ground (arith, e) })

finish_from-Reads :
    (setup : Setup) (ss : List TimedBytes) (r : MultipartReader)
    → Expects setup ss [] r
    → Reads setup tt [] (if r.buffer.len == 0 then expect_end (map ok ss) r else (err epilogue, r))
unfolding expect_end
finish_from-Reads setup (s ∷ ss) r v =
    let c = contents r.buffer.segments in
    absurd (
      omega (
        arith,
        ap length v.in_order,
        length-append c (s.bytes ++ arriving ss),
        length-append s.bytes (arriving ss),
        v.nonempty.0,
      ))
finish_from-Reads setup [] r v =
    if_lem (Reads setup tt []) (r.buffer.len == 0)
      (λ e. record {
        result = refl;
        after = record {
          segments = [];
          body_is = refl;
          expects = record {
            nonempty = tt;
            valid = v.valid;
            in_order = v.in_order;
            opening = v.opening;
            ending = v.ending;
            was_started = v.was_started;
            was_finished = v.was_finished;
          };
        };
      })
      (λ e. absurd (
        ground (
          arith,
          e,
          v.valid.count,
          ap length v.in_order,
          length-append (contents r.buffer.segments) [],
        )))

-- After the last byte the body ends.
pub finish-Reads :
    (setup : Setup) (r : MultipartReader)
    → Holds setup [] r
    → Reads setup tt [] (finish_after_closing_boundary r)
unfolding finish_after_closing_boundary
finish-Reads setup r v =
    subst
      (λ body.
        Reads setup tt [] (if r.buffer.len == 0 then expect_end body r else (err epilogue, r)))
      (sym v.body_is) (finish_from-Reads setup v.segments r v.expects)
