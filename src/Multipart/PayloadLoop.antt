-- ===== src/Multipart/PayloadLoop.antt =====
-- native/qwen3-tts-http-bench/src/multipart.rs: the loop of `next_part` over a part's payload.
use qwen3_tts_native.Base.{
  ℕ, zero, suc, ◌≤◌, ◌<◌, ◌≡◌, refl, subst, sym, ap, ◌∙◌, true, List, [], ◌∷◌, ◌++◌, append_assoc,
  append-nil, length, length-append, take-append-drop, length-drop, take, drop, take-append_le,
  drop-append_le, drop-append, take-append, Option, none, some, is_some, Result, ok, ◌==◌, if_lem,
  arith,
}
use qwen3_tts_native.Multipart.Reading.{
  MultipartReader, MultipartError, fill_if_empty, pop_payload, or_else, payload_loop,
}
use qwen3_tts_native.Multipart.Arrivals.{Setup, Holds, Reads, continue_with_ok}
use qwen3_tts_native.Multipart.Payload.{fill_if_empty-Filled, pop_payload-TakesSegment}

-- The payload is read, and a time is noted if it has a byte.
pub record TakesPayload (setup : Setup) (before : Option ℕ) (size : ℕ) (payload tail : List ℕ)
    (out : Result MultipartError (List ℕ × Option ℕ) × MultipartReader) : Type 0 where
  pub first : Option ℕ
  pub kept : is_some before ≡ true → is_some first ≡ true
  pub noted : 0 < size → is_some first ≡ true
  pub reads : Reads setup (payload, first) tail out

or_else-is_some : (before : Option ℕ) (at : ℕ) → is_some (or_else before at) ≡ true
or_else-is_some none at = refl
or_else-is_some (some a) at = refl

empty_payload :
    (setup : Setup) (before : Option ℕ) (payload tail so_far : List ℕ) (r : MultipartReader)
    → Holds setup (payload ++ tail) r
    → length payload ≡ 0
    → TakesPayload setup before (length payload) (so_far ++ payload) tail (ok (so_far, before), r)
empty_payload setup before [] tail so_far r v h = record {
  first = before;
  kept = λ k. k;
  noted = λ l. absurd (omega (arith, l));
  reads = record { result = ap (λ l. ok (l, before)) (sym (append-nil so_far)); after = v };
}
empty_payload setup before (x ∷ xs) tail so_far r v h = absurd (omega (arith, h))

-- A segment from the front of the payload and what follows is one of the payload.
record Splits (s payload rest tail : List ℕ) : Type 0 where
  front : s ++ drop (length s) payload ≡ payload
  back : rest ≡ drop (length s) payload ++ tail

append-Splits :
    (s payload rest tail : List ℕ)
    → s ++ rest ≡ payload ++ tail
    → length s ≤ length payload
    → Splits s payload rest tail
append-Splits s payload rest tail e l = record {
  front =
      ap (λ k. k ++ drop (length s) payload)
        (sym (take-append (length s) s rest refl)
          ∙ ap (take (length s)) e
          ∙ take-append_le (length s) payload tail l)
      ∙ take-append-drop (length s) payload;
  back =
      sym (drop-append (length s) s rest refl)
      ∙ ap (drop (length s)) e
      ∙ drop-append_le (length s) payload tail l;
}

pub payload_loop-TakesPayload :
    (fuel : ℕ) (setup : Setup) (before : Option ℕ) (payload tail so_far : List ℕ)
    (r : MultipartReader)
    → Holds setup (payload ++ tail) r
    → length payload ≤ fuel
    → TakesPayload setup before
        (length payload)
        (so_far ++ payload)
        tail
        (payload_loop fuel (length payload) so_far before r)
unfolding payload_loop
payload_loop-TakesPayload zero setup before payload tail so_far r v h =
    if_lem (TakesPayload setup before (length payload) (so_far ++ payload) tail)
      (length payload == 0)
      (λ e. empty_payload setup before payload tail so_far r v (omega (arith, h)))
      (λ e. absurd (ground (arith, e, h)))
payload_loop-TakesPayload (suc fuel) setup before payload tail so_far r v h =
    let T = TakesPayload setup before (length payload) (so_far ++ payload) tail in
    if_lem T (length payload == 0)
      (λ e. empty_payload setup before payload tail so_far r v (ground (arith, e)))
      (λ e.
        let n : 0 < length payload = ground (arith, e) in
        let f =
          fill_if_empty-Filled setup (payload ++ tail) r v
            (omega (arith, n, length-append payload tail)) in
        let t =
          pop_payload-TakesSegment setup (length payload) (payload ++ tail) (fill_if_empty r).1
            f.reads.after f.positive n in
        let s = t.segment in
        let p = append-Splits s.bytes payload t.rest tail t.splits t.bounded in
        let left = drop (length s.bytes) payload in
        let size = length-drop (length s.bytes) payload in
        let ih =
          payload_loop-TakesPayload fuel setup (or_else before s.arrived) left tail
            (so_far ++ s.bytes) _
            (subst (λ b. Holds setup b (pop_payload (length payload) (fill_if_empty r).1).1) p.back
              t.reads.after)
            (omega (arith, h, size, t.positive)) in
        let q = (pop_payload (length payload) (fill_if_empty r).1).1 in
        let whole : (so_far ++ s.bytes) ++ left ≡ so_far ++ payload =
          append_assoc so_far s.bytes left ∙ ap (λ k. so_far ++ k) p.front in
        let some_time = or_else-is_some before s.arrived in
        let last : T
            (payload_loop fuel (length left) (so_far ++ s.bytes) (or_else before s.arrived) q) =
          record {
            first = ih.first;
            kept = λ k. ih.kept some_time;
            noted = λ k. ih.kept some_time;
            reads =
                subst
                  (λ b.
                    Reads setup (b, ih.first) tail
                      (payload_loop fuel (length left) (so_far ++ s.bytes)
                        (or_else before s.arrived) q))
                  whole ih.reads;
          } in
        continue_with_ok T (fill_if_empty r) _ f.reads.result (
          continue_with_ok T (pop_payload (length payload) (fill_if_empty r).1) _ t.reads.result (
            subst (λ k. T (payload_loop fuel k (so_far ++ s.bytes) (or_else before s.arrived) q))
              size last)))
