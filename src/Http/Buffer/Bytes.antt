-- ===== src/Http/Buffer/Bytes.antt =====
-- http.rs: a `TimedBuffer` is the queue of its unread bytes, however they are cut into segments.
use qwen3_tts_native.Base.{
  ℕ, ◌+◌, ◌-◌, ◌<◌, ◌≤◌, ◌≡◌, refl, sym, ap, ◌∙◌, min, List, [], ◌∷◌, ◌++◌, append-nil,
  append_assoc, length, length-append, length-drop, take, drop, take-append_le, drop-append_le,
  take-append_add, drop-append_add, drop-drop, take-append-drop, take-length, Option, none, some,
  ok, All, All-append, ◌==◌, if_lem, arith,
}
use qwen3_tts_native.Http.Buffer.{
  Segment, TimedBuffer, TimedBytes, push_bytes, pop_front, pop_segments, unread, Taken, drain_loop,
}

abbrev pub contents : List Segment → List ℕ
contents [] = []
contents (s ∷ ss) = unread s ++ contents ss

abbrev Live : Segment → Type 0
Live s = s.offset < length s.bytes

pub record Inv (b : TimedBuffer) : Type 0 where
  pub count : b.len ≡ length (contents b.segments)
  pub live : All Live b.segments

-- `count` bytes leave the front.
pub record Cuts (bytes : List ℕ) (count : ℕ) (output : List ℕ) (r : Taken) : Type 0 where
  pub result : r.0 ≡ ok (output ++ take count bytes)
  pub rest : contents r.1.segments ≡ drop count bytes
  pub valid : Inv r.1

pub drain_loop-Cuts :
    (ss : List Segment) (len count : ℕ) (output : List ℕ)
    → All Live ss
    → len ≡ length (contents ss)
    → count ≤ len
    → Cuts (contents ss) count output (drain_loop ss len count output)
unfolding drain_loop
drain_loop-Cuts [] len count output live n l =
    if_lem (Cuts [] count output) (count == 0)
      (λ e.
        let z : count ≡ 0 = ground (arith, e) in
        rw z record {
          result = ap ok (sym (append-nil output));
          rest = refl;
          valid = record { count = n; live = tt };
        })
      (λ e. absurd (ground (arith, e, n, l)))
drain_loop-Cuts (s ∷ ss) len count output (alive, live) n l =
    let all = contents (s ∷ ss) in
    let available = length s.bytes - s.offset in
    let taken = min available count in
    let size : length (unread s) ≡ available = length-drop s.offset s.bytes in
    let sum : len ≡ available + length (contents ss) =
      omega (arith, n, size, length-append (unread s) (contents ss)) in
    if_lem (Cuts all count output) (count == 0)
      (λ e.
        let z : count ≡ 0 = ground (arith, e) in
        rw z record {
          result = ap ok (sym (append-nil output));
          rest = refl;
          valid = record { count = n; live = (alive, live) };
        })
      (λ e.
        if_lem (Cuts all count output) (s.offset + taken == length s.bytes)
          (λ f.
            let full : taken ≡ available = ground (arith, f, alive) in
            let more = output ++ take taken (unread s) in
            let given : take taken (unread s) ≡ unread s =
              ap (λ k. take k (unread s)) (full ∙ sym size) ∙ take-length (unread s) in
            let here : count ≡ length (unread s) + (count - taken) = omega (arith, size, full) in
            let c =
              drain_loop-Cuts ss (len - taken) (count - taken) more live (omega (arith, sum, full))
                (omega (arith, l)) in
            record {
              result =
                  c.result
                  ∙ ap ok (
                      append_assoc output (take taken (unread s))
                        (take (count - taken) (contents ss))
                      ∙ ap (λ k. output ++ k)
                          (ap (λ k. k ++ take (count - taken) (contents ss)) given
                            ∙ sym (
                                take-append_add count (count - taken) (unread s) (contents ss)
                                  here)));
              rest =
                  c.rest
                  ∙ sym (drop-append_add count (count - taken) (unread s) (contents ss) here);
              valid = c.valid;
            })
          (λ f.
            let part : taken ≡ count = ground (arith, f, alive) in
            let within : count ≤ length (unread s) = omega (arith, size, part) in
            let left : drop (s.offset + taken) s.bytes ++ contents ss ≡ drop count all =
              ap (λ k. k ++ contents ss)
                (sym (drop-drop s.offset count (s.offset + taken) s.bytes (omega (arith, part))))
              ∙ sym (drop-append_le count (unread s) (contents ss) within) in
            record {
              result =
                  ap (λ k. ok (output ++ k))
                    (ap (λ k. take k (unread s)) part
                      ∙ sym (take-append_le count (unread s) (contents ss) within));
              rest = left;
              valid = record {
                count = omega (arith, sum, part, ap length left, length-drop count all, n);
                live = (ground (arith, f, alive), live);
              };
            }))

contents-append : (xs ys : List Segment) → contents (xs ++ ys) ≡ contents xs ++ contents ys
contents-append [] ys = refl
contents-append (x ∷ xs) ys =
    ap (λ l. unread x ++ l) (contents-append xs ys)
    ∙ sym (append_assoc (unread x) (contents xs) (contents ys))

pub push_segment-contents :
    (bytes : List ℕ) (arrived : ℕ) (b : TimedBuffer)
    → contents (push_bytes bytes arrived b).segments ≡ contents b.segments ++ bytes
unfolding push_bytes
push_segment-contents [] arrived b = sym (append-nil (contents b.segments))
push_segment-contents (x ∷ xs) arrived b =
    contents-append b.segments (record { bytes = x ∷ xs; offset = 0; arrived = arrived } ∷ [])
    ∙ ap (λ l. contents b.segments ++ l) (append-nil (x ∷ xs))

pub push_bytes-Inv :
    (bytes : List ℕ) (arrived : ℕ) (b : TimedBuffer) → Inv b → Inv (push_bytes bytes arrived b)
unfolding push_bytes
push_bytes-Inv [] arrived b v = v
push_bytes-Inv (x ∷ xs) arrived b v = record {
  count = ground (
    arith,
    v.count,
    ap length (push_segment-contents (x ∷ xs) arrived b),
    length-append (contents b.segments) (x ∷ xs),
  );
  live = All-append Live b.segments _ v.live (omega arith, tt);
}

-- The bytes that an operation handed out.
abbrev pub given : Option TimedBytes → List ℕ
given none = []
given (some t) = t.bytes

-- A pop gives what stood at the front.
pub record Pops (b : TimedBuffer) (r : Option TimedBytes × TimedBuffer) : Type 0 where
  pub order : given r.0 ++ contents r.1.segments ≡ contents b.segments
  pub valid : Inv r.1

pop_front-Pops :
    (maximum : ℕ) (s : Segment) (ss : List Segment) (len : ℕ)
    → Inv (record { segments = s ∷ ss; len = len })
    → Pops (record { segments = s ∷ ss; len = len }) (pop_front maximum s ss len)
unfolding pop_front
pop_front-Pops maximum s ss len v =
    let available = length s.bytes - s.offset in
    let taken = min available maximum in
    let size : length (unread s) ≡ available = length-drop s.offset s.bytes in
    let sum : len ≡ available + length (contents ss) =
      omega (arith, v.count, size, length-append (unread s) (contents ss)) in
    if_lem
      (λ rest.
        Pops (record { segments = s ∷ ss; len = len })
          (
            some record { bytes = take taken (unread s); arrived = s.arrived },
            record { segments = rest; len = len - taken },
          ))
      (s.offset + taken == length s.bytes)
      (λ f.
        let full : taken ≡ available = ground (arith, f, v.live.0) in
        let whole : take taken (unread s) ≡ unread s =
          ap (λ k. take k (unread s)) (full ∙ sym size) ∙ take-length (unread s) in
        record {
          order = ap (λ k. k ++ contents ss) whole;
          valid = record { count = omega (arith, sum, full); live = v.live.1 };
        })
      (λ f.
        let left : drop (s.offset + taken) s.bytes ≡ drop taken (unread s) =
          sym (drop-drop s.offset taken (s.offset + taken) s.bytes refl) in
        record {
          order =
              sym (
                append_assoc (take taken (unread s)) (drop (s.offset + taken) s.bytes)
                  (contents ss))
              ∙ ap (λ k. k ++ contents ss)
                  (ap (λ k. take taken (unread s) ++ k) left ∙ take-append-drop taken (unread s));
          valid = record {
            count = omega (
              arith,
              sum,
              length-append (drop (s.offset + taken) s.bytes) (contents ss),
              length-drop (s.offset + taken) s.bytes,
            );
            live = (ground (arith, f, v.live.0), v.live.1);
          };
        })

pub pop_segments-Pops :
    (maximum : ℕ) (ss : List Segment) (len : ℕ)
    → Inv (record { segments = ss; len = len })
    → Pops (record { segments = ss; len = len }) (pop_segments maximum ss len)
unfolding pop_segments
pop_segments-Pops maximum [] len v = record { order = refl; valid = v }
pop_segments-Pops maximum (s ∷ ss) len v = pop_front-Pops maximum s ss len v
