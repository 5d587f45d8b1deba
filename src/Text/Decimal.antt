-- ===== src/Text/Decimal.antt =====
-- `u64::to_string` and `str::parse::<u64>`.
use qwen3_tts_native.Base.{
  ℕ, zero, suc, ◌+◌, ◌-◌, ◌*◌, ◌/◌, ◌%◌, ◌^◌, ◌≤◌, ◌<◌, ◌≡◌, refl, ◌∙◌, ap, ◌&&◌, List, [], ◌∷◌,
  ◌++◌, append_assoc, append-nil, sym, length, length-append, is_empty, Option, none, some, All,
  All-append, leb, ltb, ◌==◌, if◌then◌else◌, if_lem, arith,
}

abbrev pub max_u64 : ℕ
max_u64 = 2 ^ 64 - 1

-- The last `count` digits at most.
unfoldable pub digits : ℕ → ℕ → List ℕ
digits zero n = []
digits (suc count) n =
    let before = digits count (n / 10) in
    if ltb n 10 then (48 + n) ∷ [] else before ++ (48 + n % 10) ∷ []

-- A `u64` has at most twenty digits.
unfoldable pub to_string : ℕ → List ℕ
to_string n = digits 20 n

unfoldable pub parse_digits : List ℕ → ℕ → Option ℕ
parse_digits [] n = some n
parse_digits (c ∷ cs) n =
    let rest = parse_digits cs (n * 10 + (c - 48)) in
    if leb 48 c && leb c 57 && leb (n * 10 + (c - 48)) max_u64 then rest else none

-- A sign `+` may stand before the digits.
unfoldable pub parse_u64 : List ℕ → Option ℕ
parse_u64 [] = none
parse_u64 (c ∷ cs) =
    if c == 43 then if is_empty cs then none else parse_digits cs 0 else parse_digits (c ∷ cs) 0

abbrev pub IsDigit : ℕ → Type 0
IsDigit c = (48 ≤ c) × (c ≤ 57)

-- The least number with more than `count` digits.
abbrev power_of_ten : ℕ → ℕ
power_of_ten zero = 1
power_of_ten (suc count) = 10 * power_of_ten count

digits-IsDigit : (count n : ℕ) → All IsDigit (digits count n)
unfolding digits
digits-IsDigit zero n = tt
digits-IsDigit (suc count) n =
    if_lem (All IsDigit) (ltb n 10) (λ l. (ground (arith, l), tt))
      (λ l.
        All-append IsDigit (digits count (n / 10)) _ (digits-IsDigit count (n / 10))
          (omega arith, tt))

-- Reading the last digit of `n` after those before it gives `n`.
parse_last :
    (n : ℕ) (rest : List ℕ)
    → n ≤ max_u64
    → parse_digits ((48 + n % 10) ∷ rest) (n / 10) ≡ parse_digits rest n
unfolding parse_digits
parse_last n rest h = ground arith

parse_digit :
    (n : ℕ) (rest : List ℕ) → n < 10 → parse_digits ((48 + n) ∷ rest) 0 ≡ parse_digits rest n
unfolding parse_digits
parse_digit n rest h = ground arith

parse_digits-digits :
    (count n : ℕ) (rest : List ℕ)
    → n < power_of_ten (suc count)
    → n ≤ max_u64
    → parse_digits (digits (suc count) n ++ rest) 0 ≡ parse_digits rest n
unfolding digits
parse_digits-digits zero n rest l h =
    if_lem (λ ds. parse_digits (ds ++ rest) 0 ≡ parse_digits rest n) (ltb n 10)
      (λ e. parse_digit n rest l) (λ e. absurd (ground (arith, e, l)))
parse_digits-digits (suc count) n rest l h =
    if_lem (λ ds. parse_digits (ds ++ rest) 0 ≡ parse_digits rest n) (ltb n 10)
      (λ e. parse_digit n rest (ground (arith, e)))
      (λ e.
        ap (λ ds. parse_digits ds 0)
          (append_assoc (digits (suc count) (n / 10)) ((48 + n % 10) ∷ []) rest)
        ∙ parse_digits-digits count (n / 10) ((48 + n % 10) ∷ rest) (omega (arith, l))
            (omega (arith, h))
        ∙ parse_last n rest h)

pub to_string-IsDigit : (n : ℕ) → All IsDigit (to_string n)
unfolding to_string
to_string-IsDigit n = digits-IsDigit 20 n

parse_u64-IsDigit :
    (ds : List ℕ) → All IsDigit ds → 0 < length ds → parse_u64 ds ≡ parse_digits ds 0
unfolding parse_u64
parse_u64-IsDigit [] d h = absurd (omega (arith, h))
parse_u64-IsDigit (c ∷ cs) (d, ds) h = ground (arith, d)

digits-positive : (count n : ℕ) → 0 < length (digits (suc count) n)
unfolding digits
digits-positive count n =
    let before = digits count (n / 10) in
    if_lem (λ ds. 0 < length ds) (ltb n 10) {x = (48 + n) ∷ []} {y = before ++ (48 + n % 10) ∷ []}
      (λ l. omega arith) (λ l. omega (arith, length-append before ((48 + n % 10) ∷ [])))

digits-length : (count n : ℕ) → length (digits count n) ≤ count
unfolding digits
digits-length zero n = omega arith
digits-length (suc count) n =
    let before = digits count (n / 10) in
    if_lem (λ ds. length ds ≤ suc count) (ltb n 10) {x = (48 + n) ∷ []}
      {y = before ++ (48 + n % 10) ∷ []} (λ l. omega arith)
      (λ l. omega (arith, digits-length count (n / 10), length-append before ((48 + n % 10) ∷ [])))

pub to_string-length : (n : ℕ) → length (to_string n) ≤ 20
unfolding to_string
to_string-length n = digits-length 20 n

-- Every `u64` is read back from its text.
pub parse_u64-to_string : (n : ℕ) → n ≤ max_u64 → parse_u64 (to_string n) ≡ some n
unfolding to_string
parse_u64-to_string n h =
    parse_u64-IsDigit (digits 20 n) (digits-IsDigit 20 n) (digits-positive 19 n)
    ∙ ap (λ ds. parse_digits ds 0) (sym (append-nil (digits 20 n)))
    ∙ parse_digits-digits 19 n [] (omega (arith, h)) h
    ∙ unfold parse_digits in refl
