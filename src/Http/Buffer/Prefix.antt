-- ===== src/Http/Buffer/Prefix.antt =====
-- http.rs: where a delimiter stands in bytes of which only the first have arrived.
use qwen3_tts_native.Base.{
  ℕ, ◌+◌, ◌≤◌, ◌<◌, ◌≡◌, refl, sym, ◌∙◌, true, List, [], ◌∷◌, ◌++◌, length, none, some, inl, inr,
  Option-cases, arith,
}
use qwen3_tts_native.Http.Buffer.Find.{begins_with, first_at}

begins_with-length : (needle xs : List ℕ) → begins_with needle xs ≡ true → length needle ≤ length xs
unfolding begins_with
begins_with-length [] xs h = omega arith
begins_with-length (n ∷ needle) [] h = cc
begins_with-length (n ∷ needle) (x ∷ xs) h = ground (arith, begins_with-length needle xs)

begins_with-append :
    (needle xs ys : List ℕ)
    → length needle ≤ length xs
    → begins_with needle (xs ++ ys) ≡ begins_with needle xs
unfolding begins_with
begins_with-append [] xs ys h = refl
begins_with-append (n ∷ needle) [] ys h = absurd (omega (arith, h))
begins_with-append (n ∷ needle) (x ∷ xs) ys h =
    let ih = begins_with-append needle xs ys (omega (arith, h)) in ground arith

pub first_at-bounded :
    (needle xs : List ℕ) (p k : ℕ)
    → first_at needle xs p ≡ some k
    → (p ≤ k) × (k + length needle ≤ p + length xs)
unfolding first_at
first_at-bounded needle [] p k h = cc
first_at-bounded needle (x ∷ xs) p k h =
    let here = begins_with-length needle (x ∷ xs) in
    let ih = first_at-bounded needle xs (p + 1) k in ground (arith, here, ih)

-- What stands within the first bytes is found in them, and only that.
pub first_at-append :
    (needle xs ys : List ℕ) (p k : ℕ)
    → 0 < length needle
    → k + length needle ≤ p + length xs
    → first_at needle (xs ++ ys) p ≡ some k
    → first_at needle xs p ≡ some k
unfolding first_at
first_at-append needle [] ys p k n l h =
    absurd (omega (arith, n, l, (first_at-bounded needle ys p k h).0))
first_at-append needle (x ∷ xs) ys p k n l h =
    let same = begins_with-append needle (x ∷ xs) ys in
    let bound = first_at-bounded needle (xs ++ ys) (p + 1) k in
    let ih = first_at-append needle xs ys (p + 1) k n (omega (arith, l)) in ground (arith, same, ih)

append-first_at :
    (needle xs ys : List ℕ) (p k : ℕ)
    → first_at needle xs p ≡ some k
    → first_at needle (xs ++ ys) p ≡ some k
unfolding first_at
append-first_at needle [] ys p k h = cc
append-first_at needle (x ∷ xs) ys p k h =
    let bound = first_at-bounded needle xs (p + 1) k in
    let ih = append-first_at needle xs ys (p + 1) k in
    let same = begins_with-append needle (x ∷ xs) ys in
    let here = begins_with-length needle (x ∷ xs) in ground (arith, same, ih, bound, here)

-- A delimiter that has not arrived whole is not found.
pub first_at-none :
    (needle xs ys : List ℕ) (k : ℕ)
    → first_at needle (xs ++ ys) 0 ≡ some k
    → length xs < k + length needle
    → first_at needle xs 0 ≡ none
first_at-none needle xs ys k h l = elim (Option-cases (first_at needle xs 0)) [
  | inl e ↦ e
  | inr (j, e) ↦
      let whole : some j ≡ some k = sym (append-first_at needle xs ys 0 j e) ∙ h in
      let same : j ≡ k = cc whole in
      absurd (omega (arith, l, same, (first_at-bounded needle xs 0 j e).1))
]
