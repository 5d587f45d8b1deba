-- ===== src/Base/Results.antt =====
-- Rust's `Result`, its bind, and the early return of `ensure!`.
use mathlib.Core.Bool.{Bool, true, false}
use mathlib.Core.Path.{◌≡◌, refl}
use mathlib.Core.Logic.{◌⊎◌, inl, inr}
use mathlib.Core.Option.{Option, none, some}

pub data Result {ℓ} (E : Type 0) (A : Type ℓ) : Type ℓ where
  ok : A → Result E A
  err : E → Result E A

infixl 5 ◌>>=◌ ◌>>◌
abbrev pub ◌>>=◌ {ℓ κ} :
    {E : Type 0} {B : Type ℓ} {C : Type κ} → Result E B → (B → Result E C) → Result E C
err x >>= go = err x
ok b >>= go = go b

-- `if !b { return Err(x) }`.
abbrev pub ensure : {E : Type 0} → Bool → E → Result E (Unit {0})
ensure false x = err x
ensure true x = ok tt

abbrev pub ◌>>◌ {ℓ} : {E : Type 0} {C : Type ℓ} → Result E (Unit {0}) → Result E C → Result E C
first >> rest = first >>= λ t. rest

-- `Option::ok_or`.
abbrev pub ok_or {ℓ} : {E : Type 0} {A : Type ℓ} → Option A → E → Result E A
ok_or none e = err e
ok_or (some a) e = ok a

abbrev pub is_ok {ℓ} : {E : Type 0} {A : Type ℓ} → Result E A → Bool
is_ok (ok a) = true
is_ok (err e) = false

-- A bind that succeeds has a first part that succeeds.
pub >>=-eq-ok {ℓ κ} :
    {E : Type 0} {B : Type ℓ} {C : Type κ} (r : Result E B) (go : B → Result E C) {c : C}
    → (r >>= go) ≡ ok c
    → (b : B) × (r ≡ ok b) × (go b ≡ ok c)
>>=-eq-ok (err x) go h = cc
>>=-eq-ok (ok b) go h = (b, refl, h)

pub Result-cases {ℓ} :
    {E : Type 0} {A : Type ℓ} (r : Result E A) → ((a : A) × (r ≡ ok a)) ⊎ ((e : E) × (r ≡ err e))
Result-cases (ok a) = inl (a, refl)
Result-cases (err e) = inr (e, refl)
