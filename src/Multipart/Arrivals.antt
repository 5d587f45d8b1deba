-- ===== src/Multipart/Arrivals.antt =====
-- native/qwen3-tts-http-bench/src/multipart.rs: what has arrived of a response, in its buffer and in
-- the segments still to come.
use qwen3_tts_native.Base.{
  ℕ, ◌+◌, ◌≤◌, ◌<◌, ◌≡◌, refl, subst, sym, ap, ◌∙◌, Bool, List, [], ◌∷◌, ◌++◌, append_assoc,
  append-nil, map, length, take, drop, take-append_le, drop-append_le, take-take, none, some,
  Result, ok, err, All, ltb, ltb→lt, if_lem, inl, inr, Bool-cases, arith,
}
use qwen3_tts_native.Http.Buffer.{TimedBuffer, TimedBytes, BufferError, find, drain_bytes}
use qwen3_tts_native.Http.Buffer.Bytes.{contents, Inv, push_segment-contents, push_bytes-Inv}
use qwen3_tts_native.Http.Buffer.Streams.{drain_bytes-Cuts}
use qwen3_tts_native.Http.Buffer.Find.{first_at}
use qwen3_tts_native.Http.Buffer.Prefix.{first_at-append, first_at-bounded, first_at-none}
use qwen3_tts_native.Multipart.Part.{delimiter, closing_delimiter}
use qwen3_tts_native.Multipart.Reading.{
  MultipartReader, MultipartError, Body, and_then, receive_segment, with_body, with_buffer, cut_at,
  try_read_until, read_until_loop, read_until,
}

-- What stays in a reader.
pub record Setup : Type 0 where
  pub boundary : List ℕ
  pub started : Bool
  pub finished : Bool

abbrev pub arriving : List TimedBytes → List ℕ
arriving [] = []
arriving (s ∷ ss) = s.bytes ++ arriving ss

-- The reader's unread bytes, and those of the segments to come, are `bytes`.
pub record Expects (setup : Setup) (segments : List TimedBytes) (bytes : List ℕ)
    (r : MultipartReader) : Type 0 where
  pub nonempty : All (λ s. 0 < length s.bytes) segments
  pub valid : Inv r.buffer
  pub in_order : contents r.buffer.segments ++ arriving segments ≡ bytes
  pub opening : r.boundary_line ≡ delimiter setup.boundary
  pub ending : r.closing_boundary_line ≡ closing_delimiter setup.boundary
  pub was_started : r.started ≡ setup.started
  pub was_finished : r.finished ≡ setup.finished

pub record Holds (setup : Setup) (bytes : List ℕ) (r : MultipartReader) : Type 0 where
  pub segments : List TimedBytes
  pub body_is : r.body ≡ map ok segments
  pub expects : Expects setup segments bytes r

-- An operation succeeds and leaves `rest`.
pub record Reads {ℓ} {A : Type ℓ} (setup : Setup) (a : A) (rest : List ℕ)
    (out : Result MultipartError A × MultipartReader) : Type ℓ where
  pub result : out.0 ≡ ok a
  pub after : Holds setup rest out.1

pub continue_with_ok {ℓ κ μ} :
    {A : Type ℓ} {B : Type κ} (P : Result MultipartError B × MultipartReader → Type μ) {a : A}
    (out : Result MultipartError A × MultipartReader)
    (go : A → MultipartReader → Result MultipartError B × MultipartReader)
    → out.0 ≡ ok a
    → P (go a out.1)
    → P (and_then out go)
continue_with_ok P (ok b, r) go h p = subst (λ x. P (go x r)) (sym (cc h)) p
continue_with_ok P (err e, r) go h p = absurd (cc h)

pub Expects-receive_segment :
    (setup : Setup) (s : TimedBytes) (ss : List TimedBytes) (rest : Body) (bytes : List ℕ)
    (r : MultipartReader)
    → Expects setup (s ∷ ss) bytes r
    → Expects setup ss bytes (receive_segment rest r s)
Expects-receive_segment setup s ss rest bytes r v = record {
  nonempty = v.nonempty.1;
  valid = push_bytes-Inv s.bytes s.arrived r.buffer v.valid;
  in_order =
      ap (λ l. l ++ arriving ss) (push_segment-contents s.bytes s.arrived r.buffer)
      ∙ append_assoc (contents r.buffer.segments) s.bytes (arriving ss)
      ∙ v.in_order;
  opening = v.opening;
  ending = v.ending;
  was_started = v.was_started;
  was_finished = v.was_finished;
}

pub Expects-drained :
    (setup : Setup) (ss : List TimedBytes) (bytes : List ℕ) (n : ℕ) (body : Body)
    (r : MultipartReader)
    → Expects setup ss bytes r
    → n ≤ length (contents r.buffer.segments)
    → Expects setup ss
        (drop n bytes)
        (record r { body = body; buffer = (drain_bytes n r.buffer).1 })
Expects-drained setup ss bytes n body r v l =
    let c = drain_bytes-Cuts n r.buffer v.valid (omega (arith, l, v.valid.count)) in
    record {
      nonempty = v.nonempty;
      valid = c.valid;
      in_order =
          ap (λ k. k ++ arriving ss) c.rest
          ∙ sym (drop-append_le n (contents r.buffer.segments) (arriving ss) l)
          ∙ ap (drop n) v.in_order;
      opening = v.opening;
      ending = v.ending;
      was_started = v.was_started;
      was_finished = v.was_finished;
    }

-- The bytes that a drain gives are the first.
pub drained_bytes :
    (setup : Setup) (ss : List TimedBytes) (bytes : List ℕ) (n : ℕ) (r : MultipartReader)
    → Expects setup ss bytes r
    → n ≤ length (contents r.buffer.segments)
    → (drain_bytes n r.buffer).0 ≡ ok (take n bytes)
drained_bytes setup ss bytes n r v l =
    let c = drain_bytes-Cuts n r.buffer v.valid (omega (arith, l, v.valid.count)) in
    c.result
    ∙ ap ok (
        sym (take-append_le n (contents r.buffer.segments) (arriving ss) l)
        ∙ ap (take n) v.in_order)

cut_at_lem :
    (k : ℕ) (bs : List ℕ) (out : Result BufferError (List ℕ) × TimedBuffer)
    → out.0 ≡ ok bs
    → cut_at k out ≡ (ok (take k bs), out.1)
cut_at_lem k bs (ok cs, b) h = ap (λ r. cut_at k (r, b)) h
cut_at_lem k bs (err e, b) h = absurd (cc h)

-- `find` is right about the needle.
abbrev IsFound : List ℕ → Type 0
IsFound needle =
    (0 < length needle)
    × ((b : TimedBuffer) → find needle b ≡ first_at needle (contents b.segments) 0)

module _ (setup : Setup) (needle : List ℕ) (is_found : IsFound needle) (maximum : ℕ)
    (bytes : List ℕ) (k : ℕ) (at : first_at needle bytes 0 ≡ some k)
    (short : k + length needle ≤ maximum + 1) where
  -- The delimiter has arrived.
  try_read_until-some :
      (ss : List TimedBytes) (r : MultipartReader)
      → Expects setup ss bytes r
      → k + length needle ≤ length (contents r.buffer.segments)
      → try_read_until needle maximum r.buffer
        ≡ some (ok (take k bytes), (drain_bytes (k + length needle) r.buffer).1)
  unfolding try_read_until
  try_read_until-some ss r v l =
      let c = contents r.buffer.segments in
      let here : find needle r.buffer ≡ some k =
        is_found.1 r.buffer
        ∙ first_at-append needle c (arriving ss) 0 k is_found.0 (omega (arith, l))
            (ap (λ l. first_at needle l 0) v.in_order ∙ at) in
      let drains = drained_bytes setup ss bytes (k + length needle) r v l in
      let first = take-take k (k + length needle) bytes (omega arith) in
      rw (here, try_read_until)
        (ap some (
          if_lem (λ out. out ≡ (ok (take k bytes), (drain_bytes (k + length needle) r.buffer).1))
            (ltb maximum k) (λ e. absurd (ground (arith, e, short, is_found.0)))
            (λ e.
              cut_at_lem k (take (k + length needle) bytes)
                (drain_bytes (k + length needle) r.buffer) drains
              ∙ ap (λ l. (ok l, (drain_bytes (k + length needle) r.buffer).1)) first)))

  try_read_until-none :
      (ss : List TimedBytes) (r : MultipartReader)
      → Expects setup ss bytes r
      → length (contents r.buffer.segments) < k + length needle
      → try_read_until needle maximum r.buffer ≡ none
  unfolding try_read_until
  try_read_until-none ss r v l =
      let c = contents r.buffer.segments in
      let gone : find needle r.buffer ≡ none =
        is_found.1 r.buffer
        ∙ first_at-none needle c (arriving ss) k (ap (λ l. first_at needle l 0) v.in_order ∙ at)
            l in
      let size = v.valid.count in rw (gone, try_read_until) (ground (arith, size, l, short))

  try_read_until-Reads :
      (ss : List TimedBytes) (r : MultipartReader)
      → Expects setup ss bytes r
      → k + length needle ≤ length (contents r.buffer.segments)
      → Reads setup (take k bytes) (drop (k + length needle) bytes) (
          with_buffer
            (with_body r (map ok ss))
            (ok (take k bytes), (drain_bytes (k + length needle) r.buffer).1))
  try_read_until-Reads ss r v l = record {
    result = refl;
    after = record {
      segments = ss;
      body_is = refl;
      expects = Expects-drained setup ss bytes (k + length needle) (map ok ss) r v l;
    };
  }

  pub read_until_loop-Reads :
      (ss : List TimedBytes) (r : MultipartReader)
      → Expects setup ss bytes r
      → Reads setup
          (take k bytes)
          (drop (k + length needle) bytes)
          (read_until_loop needle maximum (map ok ss) r)
  unfolding read_until_loop
  read_until_loop-Reads [] r v =
      let c = contents r.buffer.segments in
      let whole : length bytes ≡ length c = ap length (sym v.in_order) ∙ ap length (append-nil c) in
      let l : k + length needle ≤ length c =
        omega (arith, whole, (first_at-bounded needle bytes 0 k at).1) in
      rw (try_read_until-some [] r v l, read_until_loop) (try_read_until-Reads [] r v l)
  read_until_loop-Reads (s ∷ ss) r v =
      let c = contents r.buffer.segments in
      elim (Bool-cases (ltb (length c) (k + length needle))) [
        | inl e ↦
            rw (try_read_until-none (s ∷ ss) r v (ltb→lt _ _ e), read_until_loop)
              (read_until_loop-Reads ss (receive_segment (map ok ss) r s)
                (Expects-receive_segment setup s ss (map ok ss) bytes r v))
        | inr e ↦
            let l : k + length needle ≤ length c = ground (arith, e) in
            rw (try_read_until-some (s ∷ ss) r v l, read_until_loop)
              (try_read_until-Reads (s ∷ ss) r v l)
      ]

  -- Bytes up to a delimiter are read, and the delimiter goes with them.
  pub read_until-Reads :
      (r : MultipartReader)
      → Holds setup bytes r
      → Reads setup (take k bytes) (drop (k + length needle) bytes) (read_until needle maximum r)
  unfolding read_until
  read_until-Reads r v =
      subst
        (λ body.
          Reads setup (take k bytes) (drop (k + length needle) bytes)
            (read_until_loop needle maximum body r))
        (sym v.body_is) (read_until_loop-Reads v.segments r v.expects)
