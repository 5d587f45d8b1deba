-- ===== src/Multipart/AllParts.antt =====
-- native/qwen3-tts-http-bench/src/multipart.rs: `next_part` called until the closing boundary.
use qwen3_tts_native.Base.{
  ℕ, ◌+◌, ◌≤◌, ◌<◌, ◌≡◌, refl, subst, sym, ap, ◌∙◌, Bool, true, false, List, [], ◌∷◌, ◌++◌, map,
  length, length-append, Option, none, some, is_some, Result, ok, All, if_lem, arith,
}
use qwen3_tts_native.Http.Buffer.{TimedBytes}
use qwen3_tts_native.Multipart.Arrivals.{Setup, arriving, Holds, Reads, continue_with_ok}
use qwen3_tts_native.Multipart.OnePart.{
  IsBoundary, reading, ended, delimiter-IsLine, closing_delimiter-IsLine, check-next, check-last,
  read_line-Reads, read_part-ReadsPart,
}
use qwen3_tts_native.Multipart.Part.{delimiter, closing_delimiter}
use qwen3_tts_native.Multipart.Reading.{
  MultipartReader, MultipartError, Body, Part, new_reader, max_part_header_bytes, read_line,
}
use qwen3_tts_native.Multipart.Reader.{open_body, read_part, next_part}
use qwen3_tts_native.Text.{same_refl}
use qwen3_tts_native.Wav.Bytes.{same}
use qwen3_tts_native.Multipart.RoundTrip.{
  Content, Gives, IsContent, behind, first_header, in_body, more_headers, next_part-ended,
  next_part-in_body, next_part-open, read_headers, written, written-behind,
}

module _ (boundary : List ℕ) (is_boundary : IsBoundary boundary) where
  short_line : (line : List ℕ) → length line ≤ 74 → length line + 1 ≤ max_part_header_bytes
  short_line line l = omega (arith, l)

  Gives-behind :
      (c : Content) (cs : List Content) (r : MultipartReader)
      → IsContent c
      → All IsContent cs
      → Holds (reading boundary) (behind boundary c cs) r
      → Gives (c ∷ cs) r
  Gives-behind c [] r v vs h =
      let size = length-append (delimiter boundary) (45 ∷ 45 ∷ []) in
      let p =
        read_part-ReadsPart boundary (ended boundary) (first_header c) (more_headers c) c.payload
          (closing_delimiter boundary) [] (closing_delimiter-IsLine boundary is_boundary)
          (short_line (closing_delimiter boundary) (omega (arith, size, is_boundary.short))) v
          (check-last boundary) r h in
      (
        p.time,
        next_part-open boundary (behind boundary c []) r
            (λ out.
              out.0
              ≡ ok (
                  some record {
                    headers = read_headers c;
                    payload = c.payload;
                    first_payload_at = p.time;
                  }))
            h p.reads.result refl,
        p.noted,
        next_part-open boundary (behind boundary c []) r (λ out. (next_part out.1).0 ≡ ok none) h
            p.reads.result (next_part-ended boundary [] (read_part r).1 p.reads.after),
      )
  Gives-behind c (d ∷ cs) r v (w, vs) h =
      let p =
        read_part-ReadsPart boundary (reading boundary) (first_header c) (more_headers c) c.payload
          (delimiter boundary) (behind boundary d cs) (delimiter-IsLine boundary is_boundary)
          (short_line (delimiter boundary) (omega (arith, is_boundary.short))) v
          (check-next boundary (behind boundary d cs)) r h in
      (
        p.time,
        next_part-open boundary (behind boundary c (d ∷ cs)) r
            (λ out.
              out.0
              ≡ ok (
                  some record {
                    headers = read_headers c;
                    payload = c.payload;
                    first_payload_at = p.time;
                  }))
            h p.reads.result refl,
        p.noted,
        next_part-open boundary (behind boundary c (d ∷ cs)) r (λ out. Gives (d ∷ cs) out.1) h
            p.reads.result (Gives-behind d cs (read_part r).1 w vs p.reads.after),
      )

  abbrev opening : Setup
  opening = record { boundary = boundary; started = false; finished = false }

  open_body-Reads :
      (bytes : List ℕ) (r : MultipartReader)
      → Holds opening (delimiter boundary ++ 13 ∷ 10 ∷ bytes) r
      → Reads (reading boundary) tt bytes (open_body r)
  unfolding open_body
  open_body-Reads bytes r v =
      let P : Result MultipartError (Unit {0}) × MultipartReader → Type 0 =
        Reads (reading boundary) tt bytes in
      let d = delimiter boundary in
      let l =
        read_line-Reads opening d bytes max_part_header_bytes r
          (delimiter-IsLine boundary is_boundary) (short_line d (omega (arith, is_boundary.short)))
          v in
      let x = l.after.expects in
      let q = (read_line max_part_header_bytes r).1 in
      continue_with_ok P (read_line max_part_header_bytes r) _ l.result (
        if_lem P (same d q.boundary_line)
          (λ e. record {
            result = refl;
            after = record {
              segments = l.after.segments;
              body_is = l.after.body_is;
              expects = record {
                nonempty = x.nonempty;
                valid = x.valid;
                in_order = x.in_order;
                opening = x.opening;
                ending = x.ending;
                was_started = refl;
                was_finished = x.was_finished;
              };
            };
          })
          (λ e.
            let wrong : ◌≡◌ {A = Bool} false true = sym e ∙ ap (same d) x.opening ∙ same_refl d in
            absurd (cc wrong)))

  -- The first call opens the body, and goes on as the later calls do.
  next_part-first :
      (bytes : List ℕ) (body : Body)
      → Holds opening (delimiter boundary ++ 13 ∷ 10 ∷ bytes) (new_reader body boundary)
      → (P : Result MultipartError (Option Part) × MultipartReader → Type 0)
      → P (next_part (open_body (new_reader body boundary)).1)
      → P (next_part (new_reader body boundary))
  unfolding next_part new_reader
  next_part-first bytes body v P x =
      let r = new_reader body boundary in
      let o = open_body-Reads bytes r v in
      continue_with_ok P (open_body r) in_body o.result
        (subst P (next_part-in_body boundary bytes (open_body r).1 o.after) x)

-- For every boundary that the client accepts, all contents that fit its limits, and every way in
-- which their text arrives in segments that are not empty, the calls of `next_part` give the headers
-- and the payloads that the server wrote, in order, and then the end.
pub next_part-written :
    (boundary : List ℕ) (c : Content) (cs : List Content) (segments : List TimedBytes)
    → IsBoundary boundary
    → IsContent c
    → All IsContent cs
    → All (λ s. 0 < length s.bytes) segments
    → arriving segments ≡ written boundary (c ∷ cs)
    → Gives (c ∷ cs) (new_reader (map ok segments) boundary)
unfolding new_reader
next_part-written boundary c cs segments b v vs nonempty e =
    let bytes = behind boundary c cs in
    let h : Holds (opening boundary b) (delimiter boundary ++ 13 ∷ 10 ∷ bytes)
        (new_reader (map ok segments) boundary) =
      record {
        segments = segments;
        body_is = refl;
        expects = record {
          nonempty = nonempty;
          valid = record { count = refl; live = tt };
          in_order = e ∙ written-behind boundary c cs;
          opening = refl;
          ending = refl;
          was_started = refl;
          was_finished = refl;
        };
      } in
    let r = new_reader (map ok segments) boundary in
    next_part-first boundary b bytes (map ok segments) h
      (λ out.
        (time : Option ℕ) × (out.0
          ≡ ok (
              some
                record { headers = read_headers c; payload = c.payload; first_payload_at = time }))
        × (0 < length c.payload → is_some time ≡ true)
        × Gives cs out.1)
      (Gives-behind boundary b c cs (open_body r).1 v vs
        (open_body-Reads boundary b bytes r h).after)
