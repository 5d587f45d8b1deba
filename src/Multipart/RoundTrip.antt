-- ===== src/Multipart/RoundTrip.antt =====
-- native/qwen3-tts-server/src/multipart.rs against native/qwen3-tts-http-bench/src/multipart.rs: a part
-- written and read.
use qwen3_tts_native.Base.{
  ℕ, ◌<◌, ◌≡◌, refl, subst, sym, ap, ◌∙◌, Bool, true, false, List, [], ◌∷◌, ◌++◌, append_assoc,
  append-nil, length, Option, none, some, is_some, Result, ok, if◌then◌else◌, if_lem,
}
use qwen3_tts_native.Http.Buffer.Find.{crlf, blank_line}
use qwen3_tts_native.Multipart.Arrivals.{Holds, continue_with_ok}
use qwen3_tts_native.Multipart.Heads.{head_text, lowered, header_lines-joined}
use qwen3_tts_native.Multipart.OnePart.{IsPart, reading, ended}
use qwen3_tts_native.Multipart.Part.{
  line_end, header_line, header_lines, own_headers, delimiter, closing_delimiter, part,
}
use qwen3_tts_native.Multipart.Reading.{
  MultipartReader, MultipartError, Headers, Part, and_then, give,
}
use qwen3_tts_native.Multipart.Reader.{read_part, next_part}
use qwen3_tts_native.Text.{codes, to_string}

-- The arguments of `part`.
pub record Content : Type 0 where
  pub content_type : List ℕ
  pub headers : Headers
  pub payload : List ℕ

-- The parts of a response: the last one closes it.
unfoldable pub written : List ℕ → List Content → List ℕ
written boundary [] = []
written boundary (c ∷ []) = part boundary c.content_type c.headers c.payload true
written boundary (c ∷ d ∷ cs) =
    part boundary c.content_type c.headers c.payload false ++ written boundary (d ∷ cs)

abbrev pub first_header : Content → List ℕ × List ℕ
first_header c = (codes "Content-Type", c.content_type)

abbrev pub more_headers : Content → Headers
more_headers c = (codes "Content-Length", to_string (length c.payload)) ∷ c.headers

-- The headers that the client is to find.
abbrev pub read_headers : Content → Headers
read_headers c = lowered (first_header c ∷ more_headers c)

abbrev pub IsContent : Content → Type 0
IsContent c = IsPart (first_header c) (more_headers c) c.payload

-- The calls of `next_part` give these headers and payloads, then none; every payload that is not
-- empty has a time.
abbrev pub Gives : List Content → MultipartReader → Type 0
Gives [] r = (next_part r).0 ≡ ok none
Gives (c ∷ cs) r =
    (time : Option ℕ) × ((next_part r).0
      ≡ ok (some record { headers = read_headers c; payload = c.payload; first_payload_at = time }))
    × (0 < length c.payload → is_some time ≡ true)
    × Gives cs (next_part r).1

-- The text behind the first boundary.
abbrev pub behind : List ℕ → Content → List Content → List ℕ
behind boundary c [] =
    head_text (first_header c) (more_headers c)
    ++ (blank_line ++ (c.payload ++ (crlf ++ (closing_delimiter boundary ++ 13 ∷ 10 ∷ []))))
behind boundary c (d ∷ cs) =
    head_text (first_header c) (more_headers c)
    ++ (blank_line
        ++ (c.payload ++ (crlf ++ (delimiter boundary ++ 13 ∷ 10 ∷ behind boundary d cs))))

header_lines-append :
    (hs ks : Headers) → header_lines (hs ++ ks) ≡ header_lines hs ++ header_lines ks
header_lines-append [] ks = refl
header_lines-append (h ∷ hs) ks =
    ap (λ l. header_line h ++ l) (header_lines-append hs ks)
    ∙ sym (append_assoc (header_line h) (header_lines hs) (header_lines ks))

regroup :
    (d e o h p c more : List ℕ)
    → (d ++ (e ++ (o ++ (h ++ (e ++ (p ++ (e ++ c))))))) ++ more
      ≡ d ++ (e ++ ((o ++ h) ++ (e ++ (p ++ (e ++ (c ++ more))))))
regroup d e o h p c more = simp append_assoc refl

part-text :
    (boundary : List ℕ) (c : Content) (close : Bool) (more : List ℕ)
    → part boundary c.content_type c.headers c.payload close ++ more
      ≡ delimiter boundary
        ++ 13
          ∷ 10
          ∷ (head_text (first_header c) (more_headers c)
              ++ (blank_line
                  ++ (c.payload
                      ++ (crlf
                          ++ ((if close then closing_delimiter boundary ++ line_end else [])
                              ++ more)))))
unfolding part
part-text boundary c close more =
    let own = own_headers c.content_type c.payload in
    let shut : List ℕ = if close then closing_delimiter boundary ++ line_end else [] in
    let rest = c.payload ++ (crlf ++ (shut ++ more)) in
    regroup (delimiter boundary) line_end (header_lines own) (header_lines c.headers) c.payload shut
      more
    ∙ ap (λ l. delimiter boundary ++ 13 ∷ 10 ∷ l)
        (ap (λ l. l ++ (line_end ++ rest)) (sym (header_lines-append own c.headers))
          ∙ header_lines-joined (first_header c) (more_headers c) (line_end ++ rest))

pub written-behind :
    (boundary : List ℕ) (c : Content) (cs : List Content)
    → written boundary (c ∷ cs) ≡ delimiter boundary ++ 13 ∷ 10 ∷ behind boundary c cs
unfolding written
written-behind boundary c [] =
    let text = part boundary c.content_type c.headers c.payload true in
    sym (append-nil text)
    ∙ part-text boundary c true []
    ∙ ap
        (λ l.
          delimiter boundary
          ++ 13
            ∷ 10
            ∷ (head_text (first_header c) (more_headers c)
                ++ (blank_line ++ (c.payload ++ (crlf ++ l)))))
        (append-nil (closing_delimiter boundary ++ line_end))
written-behind boundary c (d ∷ cs) =
    part-text boundary c false (written boundary (d ∷ cs))
    ∙ ap
        (λ l.
          delimiter boundary
          ++ 13
            ∷ 10
            ∷ (head_text (first_header c) (more_headers c)
                ++ (blank_line ++ (c.payload ++ (crlf ++ l)))))
        (written-behind boundary d cs)

-- What `next_part` does with an open body.
abbrev pub in_body :
    Unit {0} → MultipartReader → Result MultipartError (Option Part) × MultipartReader
in_body t q = and_then (read_part q) (λ p. give (some p))

pub next_part-in_body :
    (boundary bytes : List ℕ) (r : MultipartReader)
    → Holds (reading boundary) bytes r
    → next_part r ≡ in_body tt r
unfolding next_part
next_part-in_body boundary bytes r v =
    if_lem (λ out. out ≡ in_body tt r) r.finished
      (λ f.
        let wrong : ◌≡◌ {A = Bool} true false = sym f ∙ v.expects.was_finished in absurd (cc wrong))
      (λ f.
        if_lem (λ m. and_then m in_body ≡ in_body tt r) r.started (λ s. refl)
          (λ s.
            let wrong : ◌≡◌ {A = Bool} true false = sym v.expects.was_started ∙ s in
            absurd (cc wrong)))

pub next_part-open :
    (boundary bytes : List ℕ) (r : MultipartReader)
    (P : Result MultipartError (Option Part) × MultipartReader → Type 0) {p : Part}
    → Holds (reading boundary) bytes r
    → (read_part r).0 ≡ ok p
    → P (ok (some p), (read_part r).1)
    → P (next_part r)
next_part-open boundary bytes r P v e x =
    subst P (sym (next_part-in_body boundary bytes r v)) (continue_with_ok P (read_part r) _ e x)

pub next_part-ended :
    (boundary bytes : List ℕ) (r : MultipartReader)
    → Holds (ended boundary) bytes r
    → (next_part r).0 ≡ ok none
unfolding next_part
next_part-ended boundary bytes r v = rw (v.expects.was_finished, next_part) refl
