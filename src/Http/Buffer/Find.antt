-- ===== src/Http/Buffer/Find.antt =====
-- http.rs: `TimedBuffer::find` for the end of a line.
use qwen3_tts_native.Base.{
  ℕ, ◌+◌, ◌≡◌, refl, sym, ap, ◌∙◌, Bool, true, false, List, [], ◌∷◌, ◌++◌, get_or, Option, none,
  some, Result, ok, err, ◌==◌, if◌then◌else◌, arith,
}
use qwen3_tts_native.Http.Buffer.{Segment, TimedBuffer, unread, find_loop, find_segments, find}
use qwen3_tts_native.Http.Buffer.Bytes.{contents}

abbrev pub crlf : List ℕ
crlf = 13 ∷ 10 ∷ []

-- What ends a head: an empty line.
abbrev pub blank_line : List ℕ
blank_line = 13 ∷ 10 ∷ 13 ∷ 10 ∷ []

unfoldable pub begins_with : List ℕ → List ℕ → Bool
begins_with [] bytes = true
begins_with (n ∷ needle) [] = false
begins_with (n ∷ needle) (byte ∷ bytes) = if byte == n then begins_with needle bytes else false

-- The position of the first suffix that begins with the needle, counted from `position`.
unfoldable pub first_at : List ℕ → List ℕ → ℕ → Option ℕ
first_at needle [] position = none
first_at needle (byte ∷ bytes) position =
    if begins_with needle (byte ∷ bytes)
    then some position
    else first_at needle bytes (position + 1)

abbrev found : Result (ℕ × ℕ) ℕ → Option ℕ
found (ok at) = some at
found (err e) = none

abbrev continue_with : (ℕ → ℕ → Result (ℕ × ℕ) ℕ) → Result (ℕ × ℕ) ℕ → Result (ℕ × ℕ) ℕ
continue_with next (ok at) = ok at
continue_with next (err e) = next e.0 e.1

find_loop-append :
    (needle xs ys : List ℕ) (matched position : ℕ)
    → find_loop needle (xs ++ ys) matched position
      ≡ continue_with (find_loop needle ys) (find_loop needle xs matched position)
unfolding find_loop
find_loop-append needle [] ys matched position = refl
find_loop-append needle (x ∷ xs) ys matched position =
    let next = find_loop-append needle xs ys in
    let a = next (matched + 1) (position + 1) in
    let b = next (if x == get_or needle 0 0 then 1 else 0) (position + 1) in ground arith

found-continue_with :
    (rest : ℕ → ℕ → Option ℕ) (next : ℕ → ℕ → Result (ℕ × ℕ) ℕ)
    → ((matched position : ℕ) → rest matched position ≡ found (next matched position))
    → (r : Result (ℕ × ℕ) ℕ)
    → elim r [ ok at ↦ some at | err e ↦ rest e.0 e.1 ] ≡ found (continue_with next r)
found-continue_with rest next h (ok at) = refl
found-continue_with rest next h (err e) = h e.0 e.1

find_segments-contents :
    (needle : List ℕ) (ss : List Segment) (matched position : ℕ)
    → find_segments needle ss matched position
      ≡ found (find_loop needle (contents ss) matched position)
unfolding find_segments find_loop
find_segments-contents needle [] matched position = refl
find_segments-contents needle (s ∷ ss) matched position =
    let a = find_loop-append needle (unread s) (contents ss) matched position in
    found-continue_with (find_segments needle ss) (find_loop needle (contents ss))
      (find_segments-contents needle ss) (find_loop needle (unread s) matched position)
    ∙ sym (ap found a)

-- The matcher after a byte that is not a carriage return, and after one.
record Finds (xs : List ℕ) : Type 0 where
  outside : (p : ℕ) → found (find_loop crlf xs 0 p) ≡ first_at crlf xs p
  after_cr : (p : ℕ) → found (find_loop crlf xs 1 (p + 1)) ≡ first_at crlf (13 ∷ xs) p

find_loop-Finds : (xs : List ℕ) → Finds xs
unfolding find_loop first_at begins_with
find_loop-Finds [] = record { outside = λ p. refl; after_cr = λ p. refl }
find_loop-Finds (x ∷ xs) =
    let v = find_loop-Finds xs in
    record {
      outside = λ p. let a = v.outside (p + 1) in let b = v.after_cr p in ground arith;
      after_cr = λ p. let a = v.outside (p + 1 + 1) in let b = v.after_cr (p + 1) in ground arith;
    }

-- The same for a blank line, after as many of its bytes.
record FindsBlank (xs : List ℕ) : Type 0 where
  none_of : (p : ℕ) → found (find_loop blank_line xs 0 p) ≡ first_at blank_line xs p
  one : (p : ℕ) → found (find_loop blank_line xs 1 (p + 1)) ≡ first_at blank_line (13 ∷ xs) p
  two :
      (p : ℕ) → found (find_loop blank_line xs 2 (p + 1 + 1)) ≡ first_at blank_line (13 ∷ 10 ∷ xs) p
  three :
      (p : ℕ)
      → found (find_loop blank_line xs 3 (p + 1 + 1 + 1))
        ≡ first_at blank_line (13 ∷ 10 ∷ 13 ∷ xs) p

find_loop-FindsBlank : (xs : List ℕ) → FindsBlank xs
unfolding find_loop first_at begins_with
find_loop-FindsBlank [] = record {
  none_of = λ p. refl;
  one = λ p. refl;
  two = λ p. refl;
  three = λ p. refl;
}
find_loop-FindsBlank (x ∷ xs) =
    let v = find_loop-FindsBlank xs in
    record {
      none_of = λ p. let a = v.none_of (p + 1) in let b = v.one p in ground arith;
      one = λ p.
          let a = v.none_of (p + 1 + 1) in let b = v.one (p + 1) in let c = v.two p in ground arith;
      two = λ p. let a = v.none_of (p + 1 + 1 + 1) in let b = v.three p in ground arith;
      three = λ p.
          let a = v.none_of (p + 1 + 1 + 1 + 1) in let b = v.one (p + 1 + 1 + 1) in ground arith;
    }

-- `find` of a line's end, or of a blank line, gives the first position in the unread bytes at which
-- it stands, and none if there is no such position; however the bytes are cut into segments.
pub find-first_at :
    (b : TimedBuffer)
    → (find crlf b ≡ first_at crlf (contents b.segments) 0)
      × (find blank_line b ≡ first_at blank_line (contents b.segments) 0)
unfolding find
find-first_at b = (
  find_segments-contents crlf b.segments 0 0 ∙ (find_loop-Finds (contents b.segments)).outside 0,
  find_segments-contents blank_line b.segments 0 0
      ∙ (find_loop-FindsBlank (contents b.segments)).none_of 0,
)
