-- ===== src/Multipart/Heads.antt =====
-- The head of a part: native/qwen3-tts-server/src/multipart.rs writes it,
-- native/qwen3-tts-http-bench/src/multipart.rs parses it.
use qwen3_tts_native.Base.{
  ℕ, suc, ◌+◌, ◌≡◌, ◌≢◌, refl, sym, ap, ◌∙◌, false, List, [], ◌∷◌, ◌++◌, append_assoc, append-nil,
  map, length, length-append, none, some, ok, All, All-append, All-mono, arith,
}
use qwen3_tts_native.Http.Buffer.Find.{begins_with, first_at, blank_line}
use qwen3_tts_native.Multipart.Headers.{
  get, is_folded, parse_header_line, parse_lines, parse_part_headers,
}
use qwen3_tts_native.Multipart.Part.{line_end, header_line, header_lines}
use qwen3_tts_native.Multipart.Reading.{Headers}
use qwen3_tts_native.Text.{
  IsAscii, IsGraphic, IsLine, from_utf8-IsAscii, split_once_lem, joined, split_crlf-joined,
  trim_space, trim-IsGraphic, to_ascii_lowercase,
}

-- A name of graphic characters other than the colon, and a value of graphic characters.
pub record IsHeader (h : List ℕ × List ℕ) : Type 0 where
  pub name : All (λ c. IsGraphic c × (c ≢ 58)) h.0
  pub value : All IsGraphic h.1

abbrev line_of : List ℕ × List ℕ → List ℕ
line_of (name, value) = name ++ 58 ∷ 32 ∷ value

-- The text of a head with a first header.
abbrev pub head_text : List ℕ × List ℕ → Headers → List ℕ
head_text h hs = joined (line_of h) (map line_of hs)

-- What the client makes of the headers: it lowers their names.
abbrev pub lowered : Headers → Headers
lowered hs = map (λ h. (to_ascii_lowercase h.0, h.1)) hs

-- No name stands twice, nor with `seen`, in whatever case.
abbrev pub AreNew : Headers → Headers → Type 0
AreNew seen [] = Unit
AreNew seen (h ∷ hs) =
    (get seen (to_ascii_lowercase h.0) ≡ none)
    × AreNew (seen ++ (to_ascii_lowercase h.0, h.1) ∷ []) hs

pub header_lines-joined :
    (h : List ℕ × List ℕ) (hs : Headers) (rest : List ℕ)
    → header_lines (h ∷ hs) ++ rest ≡ head_text h hs ++ 13 ∷ 10 ∷ rest
unfolding joined
header_lines-joined h [] rest =
    ap (λ l. l ++ rest) (append-nil (header_line h)) ∙ append_assoc (line_of h) line_end rest
header_lines-joined h (k ∷ hs) rest =
    append_assoc (header_line h) (header_lines (k ∷ hs)) rest
    ∙ ap (λ l. header_line h ++ l) (header_lines-joined k hs rest)
    ∙ append_assoc (line_of h) line_end (head_text k hs ++ 13 ∷ 10 ∷ rest)
    ∙ sym (append_assoc (line_of h) (13 ∷ 10 ∷ head_text k hs) (13 ∷ 10 ∷ rest))

-- A blank line is found where the head ends.
first_at-line :
    (line rest : List ℕ) (p : ℕ)
    → IsLine line
    → first_at blank_line (line ++ rest) p ≡ first_at blank_line rest (p + length line)
unfolding first_at begins_with
first_at-line [] rest p h = ap (first_at blank_line rest) (omega arith)
first_at-line (c ∷ cs) rest p (h, hs) =
    let ih = first_at-line cs rest (p + 1) hs in
    let e : p + 1 + length cs ≡ p + suc (length cs) = omega arith in
    ground (arith, h, ih, ap (first_at blank_line rest) e)

-- The first character is no carriage return.
record Starts (text : List ℕ) : Type 0 where
  first : ℕ
  others : List ℕ
  text_is : text ≡ first ∷ others
  ordinary : first ≢ 13

first_at-next :
    (text rest : List ℕ) (p : ℕ)
    → Starts text
    → first_at blank_line (13 ∷ 10 ∷ (text ++ rest)) p
      ≡ first_at blank_line (text ++ rest) (p + 1 + 1)
unfolding first_at begins_with
first_at-next [] rest p s = absurd (cc s.text_is)
first_at-next (c ∷ cs) rest p s =
    let e : c ≡ s.first = cc s.text_is in ground (arith, e, s.ordinary)

line_of-Starts : (h : List ℕ × List ℕ) → IsHeader h → Starts (line_of h)
line_of-Starts ([], value) v = record {
  first = 58;
  others = 32 ∷ value;
  text_is = refl;
  ordinary = omega arith;
}
line_of-Starts (c ∷ cs, value) v = record {
  first = c;
  others = cs ++ 58 ∷ 32 ∷ value;
  text_is = refl;
  ordinary = omega (arith, v.name.0);
}

head_text-Starts : (h : List ℕ × List ℕ) (hs : Headers) → IsHeader h → Starts (head_text h hs)
unfolding joined
head_text-Starts h [] v = line_of-Starts h v
head_text-Starts h (k ∷ hs) v =
    let s = line_of-Starts h v in
    record {
      first = s.first;
      others = s.others ++ 13 ∷ 10 ∷ head_text k hs;
      text_is = ap (λ l. l ++ 13 ∷ 10 ∷ head_text k hs) s.text_is;
      ordinary = s.ordinary;
    }

IsHeader-IsLine : (h : List ℕ × List ℕ) → IsHeader h → IsLine (line_of h)
IsHeader-IsLine h v =
    All-append (λ c. c ≢ 13) h.0 (58 ∷ 32 ∷ h.1)
      (All-mono (λ c. IsGraphic c × (c ≢ 58)) (λ c. c ≢ 13) h.0 (λ c g. omega arith) v.name)
      (
        omega arith,
        (omega arith, All-mono IsGraphic (λ c. c ≢ 13) h.1 (λ c g. omega arith) v.value),
      )

IsHeader-IsAscii : (h : List ℕ × List ℕ) → IsHeader h → All IsAscii (line_of h)
IsHeader-IsAscii h v =
    All-append IsAscii h.0 (58 ∷ 32 ∷ h.1)
      (All-mono (λ c. IsGraphic c × (c ≢ 58)) IsAscii h.0 (λ c g. omega arith) v.name)
      (omega arith, (omega arith, All-mono IsGraphic IsAscii h.1 (λ c g. omega arith) v.value))

pub first_at-head_text :
    (h : List ℕ × List ℕ) (hs : Headers) (rest : List ℕ) (p : ℕ)
    → IsHeader h
    → All IsHeader hs
    → first_at blank_line (head_text h hs ++ (blank_line ++ rest)) p
      ≡ some (p + length (head_text h hs))
unfolding joined
first_at-head_text h [] rest p v vs =
    first_at-line (line_of h) (blank_line ++ rest) p (IsHeader-IsLine h v)
    ∙ unfold first_at begins_with in refl
first_at-head_text h (k ∷ hs) rest p v (w, vs) =
    let line = line_of h in
    let text = head_text k hs in
    let size = length-append line (13 ∷ 10 ∷ text) in
    let sum : p + length line + 1 + 1 + length text ≡ p + length (line ++ 13 ∷ 10 ∷ text) =
      omega (arith, size) in
    ap (λ l. first_at blank_line l p) (append_assoc line (13 ∷ 10 ∷ text) (blank_line ++ rest))
    ∙ first_at-line line (13 ∷ 10 ∷ (text ++ (blank_line ++ rest))) p (IsHeader-IsLine h v)
    ∙ first_at-next text (blank_line ++ rest) (p + length line) (head_text-Starts k hs w)
    ∙ first_at-head_text k hs rest (p + length line + 1 + 1) w vs
    ∙ ap some sum

joined-IsAscii :
    (h : List ℕ × List ℕ) (hs : Headers)
    → IsHeader h
    → All IsHeader hs
    → All IsAscii (head_text h hs)
unfolding joined
joined-IsAscii h [] v vs = IsHeader-IsAscii h v
joined-IsAscii h (k ∷ hs) v (w, vs) =
    All-append IsAscii (line_of h) (13 ∷ 10 ∷ head_text k hs) (IsHeader-IsAscii h v)
      (omega arith, (omega arith, joined-IsAscii k hs w vs))

is_folded-line :
    (name value : List ℕ)
    → All (λ c. IsGraphic c × (c ≢ 58)) name
    → is_folded (name ++ 58 ∷ 32 ∷ value) ≡ false
is_folded-line [] value h = refl
is_folded-line (c ∷ cs) value (h, hs) = ground (arith, h)

parse_header_line_lem :
    (seen : Headers) (h : List ℕ × List ℕ)
    → IsHeader h
    → get seen (to_ascii_lowercase h.0) ≡ none
    → parse_header_line seen (line_of h) ≡ ok (seen ++ (to_ascii_lowercase h.0, h.1) ∷ [])
unfolding parse_header_line
parse_header_line_lem seen h v new =
    let split =
      split_once_lem 58 h.0 (32 ∷ h.1)
        (All-mono (λ c. IsGraphic c × (c ≢ 58)) (λ c. c ≢ 58) h.0 (λ c g. g.1) v.name) in
    let value = trim_space h.1 ∙ trim-IsGraphic h.1 v.value in
    rw (is_folded-line h.0 h.1 v.name, split, value, new) refl

parse_lines_lem :
    (seen hs : Headers)
    → All IsHeader hs
    → AreNew seen hs
    → parse_lines seen (map line_of hs) ≡ ok (seen ++ lowered hs)
unfolding parse_lines
parse_lines_lem seen [] vs new = ap ok (sym (append-nil seen))
parse_lines_lem seen (h ∷ hs) (v, vs) (n, new) =
    rw (parse_header_line_lem seen h v n, parse_lines)
      (parse_lines_lem (seen ++ (to_ascii_lowercase h.0, h.1) ∷ []) hs vs new
        ∙ ap ok (append_assoc seen ((to_ascii_lowercase h.0, h.1) ∷ []) (lowered hs)))

map-IsLine : (hs : Headers) → All IsHeader hs → All IsLine (map line_of hs)
map-IsLine [] vs = tt
map-IsLine (h ∷ hs) (v, vs) = (IsHeader-IsLine h v, map-IsLine hs vs)

pub parse_part_headers_lem :
    (h : List ℕ × List ℕ) (hs : Headers)
    → IsHeader h
    → All IsHeader hs
    → AreNew [] (h ∷ hs)
    → parse_part_headers (head_text h hs) ≡ ok (lowered (h ∷ hs))
unfolding parse_part_headers
parse_part_headers_lem h hs v vs new =
    rw (from_utf8-IsAscii (head_text h hs) (joined-IsAscii h hs v vs), parse_part_headers)
      (ap (parse_lines [])
          (split_crlf-joined (line_of h) (map line_of hs) (IsHeader-IsLine h v) (map-IsLine hs vs))
        ∙ parse_lines_lem [] (h ∷ hs) (v, vs) new)
