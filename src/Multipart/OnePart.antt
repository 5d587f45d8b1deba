-- ===== src/Multipart/OnePart.antt =====
-- native/qwen3-tts-http-bench/src/multipart.rs: `next_part` on a part of the server's.
use qwen3_tts_native.Base.{
  ℕ, suc, ◌+◌, ◌≤◌, ◌<◌, ◌≡◌, ◌≢◌, refl, subst, sym, ap, ◌∙◌, Bool, true, false, List, [], ◌∷◌,
  ◌++◌, length, length-append, take, take-append, drop-append, drop-append_add, Option, none, some,
  is_some, Result, ok, All, All-append, if_lem, Bool-cases, inl, inr, arith,
}
use qwen3_tts_native.Http.Buffer.{TimedBuffer, find}
use qwen3_tts_native.Http.Buffer.Bytes.{contents}
use qwen3_tts_native.Http.Buffer.Find.{begins_with, first_at, crlf, blank_line, find-first_at}
use qwen3_tts_native.Multipart.Arrivals.{Setup, Holds, Reads, continue_with_ok, read_until-Reads}
use qwen3_tts_native.Multipart.Payload.{read_exact-Reads, finish-Reads}
use qwen3_tts_native.Multipart.PayloadLoop.{payload_loop-TakesPayload}
use qwen3_tts_native.Multipart.Heads.{
  IsHeader, head_text, lowered, AreNew, first_at-head_text, parse_part_headers_lem,
}
use qwen3_tts_native.Multipart.Headers.{parse_part_headers, payload_length}
use qwen3_tts_native.Multipart.Part.{delimiter, closing_delimiter}
use qwen3_tts_native.Multipart.Reading.{
  MultipartReader, MultipartError, Headers, Part, max_part_header_bytes, read_until, read_line,
  read_exact, payload_loop, finish_after_closing_boundary,
}
use qwen3_tts_native.Multipart.Reader.{check_boundary, read_part}
use qwen3_tts_native.Text.{IsLine, same_refl, same_lem}
use qwen3_tts_native.Wav.Bytes.{same}

-- A line without a carriage return ends at the first `crlf`.
first_at-crlf :
    (line rest : List ℕ) (p : ℕ)
    → IsLine line
    → first_at crlf (line ++ 13 ∷ 10 ∷ rest) p ≡ some (p + length line)
unfolding first_at begins_with
first_at-crlf [] rest p h = ap some (omega arith)
first_at-crlf (c ∷ cs) rest p (h, hs) =
    let ih = first_at-crlf cs rest (p + 1) hs in
    let e : p + 1 + length cs ≡ p + suc (length cs) = omega arith in
    ground (arith, h, ih, ap some e)

-- Text that ends with a delimiter is read up to there.
read_piece :
    (setup : Setup) (needle text rest : List ℕ) (maximum : ℕ) (r : MultipartReader)
    → (0 < length needle)
      × ((b : TimedBuffer) → find needle b ≡ first_at needle (contents b.segments) 0)
    → first_at needle (text ++ (needle ++ rest)) 0 ≡ some (length text)
    → length text + length needle ≤ maximum + 1
    → Holds setup (text ++ (needle ++ rest)) r
    → Reads setup text rest (read_until needle maximum r)
read_piece setup needle text rest maximum r finds at l v =
    let bytes = text ++ (needle ++ rest) in
    let k = length text in
    let out = read_until-Reads setup needle finds maximum bytes k at l r v in
    let front = take-append k text (needle ++ rest) refl in
    let back =
      drop-append_add (k + length needle) (length needle) text (needle ++ rest) refl
      ∙ drop-append (length needle) needle rest refl in
    subst (λ t. Reads setup t rest (read_until needle maximum r)) front
      (subst (λ t. Reads setup (take k bytes) t (read_until needle maximum r)) back out)

pub read_line-Reads :
    (setup : Setup) (line rest : List ℕ) (maximum : ℕ) (r : MultipartReader)
    → IsLine line
    → length line + 1 ≤ maximum
    → Holds setup (line ++ 13 ∷ 10 ∷ rest) r
    → Reads setup line rest (read_line maximum r)
unfolding read_line
read_line-Reads setup line rest maximum r h l v =
    read_piece setup crlf line rest maximum r (omega arith, λ b. (find-first_at b).0)
      (first_at-crlf line rest 0 h ∙ ap some (omega arith)) (omega (arith, l)) v

-- A boundary that `validate_boundary` lets through has no carriage return and at most 70 bytes.
pub record IsBoundary (boundary : List ℕ) : Type 0 where
  pub line : IsLine boundary
  pub short : length boundary ≤ 70

pub delimiter-IsLine : (boundary : List ℕ) → IsBoundary boundary → IsLine (delimiter boundary)
delimiter-IsLine boundary v = (omega arith, (omega arith, v.line))

pub closing_delimiter-IsLine :
    (boundary : List ℕ) → IsBoundary boundary → IsLine (closing_delimiter boundary)
closing_delimiter-IsLine boundary v =
    All-append (λ c. c ≢ 13) (delimiter boundary) (45 ∷ 45 ∷ []) (delimiter-IsLine boundary v)
      (omega arith, (omega arith, tt))

delimiter-closing_delimiter :
    (boundary : List ℕ) → same (delimiter boundary) (closing_delimiter boundary) ≡ false
delimiter-closing_delimiter boundary =
    elim (Bool-cases (same (delimiter boundary) (closing_delimiter boundary))) [
      | inl e ↦
          let eq = ap length (same_lem (delimiter boundary) (closing_delimiter boundary) e) in
          absurd (omega (arith, eq, length-append (delimiter boundary) (45 ∷ 45 ∷ [])))
      | inr e ↦ e
    ]

abbrev pub reading : List ℕ → Setup
reading boundary = record { boundary = boundary; started = true; finished = false }

abbrev pub ended : List ℕ → Setup
ended boundary = record { boundary = boundary; started = true; finished = true }

pub check-next :
    (boundary rest : List ℕ) (r : MultipartReader)
    → Holds (reading boundary) rest r
    → Reads (reading boundary) tt rest (check_boundary (delimiter boundary) r)
unfolding check_boundary
check-next boundary rest r v =
    let d = delimiter boundary in
    if_lem (Reads (reading boundary) tt rest) (same d r.closing_boundary_line)
      (λ e.
        let wrong : ◌≡◌ {A = Bool} true false =
          sym e ∙ ap (same d) v.expects.ending ∙ delimiter-closing_delimiter boundary in
        absurd (cc wrong))
      (λ e. rw (ap (same d) v.expects.opening ∙ same_refl d) record { result = refl; after = v })

pub check-last :
    (boundary : List ℕ) (r : MultipartReader)
    → Holds (reading boundary) [] r
    → Reads (ended boundary) tt [] (check_boundary (closing_delimiter boundary) r)
unfolding check_boundary
check-last boundary r v =
    let P : Result MultipartError (Unit {0}) × MultipartReader → Type 0 =
      Reads (ended boundary) tt [] in
    let c = closing_delimiter boundary in
    let f = finish-Reads (reading boundary) r v in
    let x = f.after.expects in
    if_lem P (same c r.closing_boundary_line)
      (λ e. continue_with_ok P (finish_after_closing_boundary r) _ f.result record {
        result = refl;
        after = record {
          segments = f.after.segments;
          body_is = f.after.body_is;
          expects = record {
            nonempty = x.nonempty;
            valid = x.valid;
            in_order = x.in_order;
            opening = x.opening;
            ending = x.ending;
            was_started = x.was_started;
            was_finished = refl;
          };
        };
      })
      (λ e.
        let wrong : ◌≡◌ {A = Bool} false true =
          sym e ∙ ap (same c) v.expects.ending ∙ same_refl c in
        absurd (cc wrong))

-- What a part holds that can be read: its headers are proper, and its size is within the limits.
pub record IsPart (h : List ℕ × List ℕ) (hs : Headers) (payload : List ℕ) : Type 0 where
  pub first_header : IsHeader h
  pub headers : All IsHeader hs
  pub no_double : AreNew [] (h ∷ hs)
  pub head_short : length (head_text h hs) + 3 ≤ max_part_header_bytes
  pub length_known : payload_length (lowered (h ∷ hs)) ≡ ok (length payload)

-- The part that the client makes of it.
pub record ReadsPart (setup : Setup) (headers : Headers) (payload rest : List ℕ)
    (out : Result MultipartError Part × MultipartReader) : Type 0 where
  pub time : Option ℕ
  pub noted : 0 < length payload → is_some time ≡ true
  pub reads :
      Reads setup
        (record { headers = headers; payload = payload; first_payload_at = time })
        rest
        out

module _ (boundary : List ℕ) (setup : Setup) (h : List ℕ × List ℕ) (hs : Headers)
    (payload line rest : List ℕ) (is_line : IsLine line)
    (short : length line + 1 ≤ max_part_header_bytes) (p : IsPart h hs payload)
    (next : (r : MultipartReader)
      → Holds (reading boundary) rest r
      → Reads setup tt rest (check_boundary line r)) where
  abbrev pub after_payload : List ℕ
  after_payload = crlf ++ (line ++ 13 ∷ 10 ∷ rest)

  pub read_part-ReadsPart :
      (r : MultipartReader)
      → Holds (reading boundary) (head_text h hs ++ (blank_line ++ (payload ++ after_payload))) r
      → ReadsPart setup (lowered (h ∷ hs)) payload rest (read_part r)
  unfolding read_part
  read_part-ReadsPart r v =
      let P = ReadsPart setup (lowered (h ∷ hs)) payload rest in
      let a =
        read_piece (reading boundary) blank_line (head_text h hs) (payload ++ after_payload)
          max_part_header_bytes r (omega arith, λ b. (find-first_at b).1)
          (first_at-head_text h hs (payload ++ after_payload) 0 p.first_header p.headers
            ∙ ap some (omega arith))
          (omega (arith, p.head_short)) v in
      let q = (read_until blank_line max_part_header_bytes r).1 in
      let n = length payload in
      let b =
        payload_loop-TakesPayload n (reading boundary) none payload after_payload [] q a.after
          (omega arith) in
      let q2 = (payload_loop n n [] none q).1 in
      let c = read_exact-Reads (reading boundary) after_payload 2 (omega arith) q2 b.reads.after in
      let q3 = (read_exact 2 q2).1 in
      let d =
        read_line-Reads (reading boundary) line rest max_part_header_bytes q3 is_line short
          c.after in
      let q4 = (read_line max_part_header_bytes q3).1 in
      let e = next q4 d.after in
      let parsed = parse_part_headers_lem h hs p.first_header p.headers p.no_double in
      continue_with_ok P (read_until blank_line max_part_header_bytes r) _ a.result (
        continue_with_ok P (parse_part_headers (head_text h hs), q) _ parsed
          (continue_with_ok P (payload_length (lowered (h ∷ hs)), q) _ p.length_known
            (continue_with_ok P (payload_loop n n [] none q) _ b.reads.result (
              continue_with_ok P (read_exact 2 q2) _ c.result (
                continue_with_ok P (read_line max_part_header_bytes q3) _ d.result (
                  continue_with_ok P (check_boundary line q4) _ e.result record {
                    time = b.first;
                    noted = b.noted;
                    reads = record { result = refl; after = e.after };
                  }))))))
