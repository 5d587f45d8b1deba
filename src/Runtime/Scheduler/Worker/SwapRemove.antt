-- ===== src/Runtime/Scheduler/Worker/SwapRemove.antt =====
-- scheduler.rs: `Vec::swap_remove`, by which `remove_cancelled` and `remove_finished` take requests out
-- of the active ones.
use qwen3_tts_native.Base.{
  ℕ, zero, suc, ◌+◌, ◌<◌, ◌≤◌, ◌≡◌, ◌≢◌, refl, sym, ap, ◌∙◌, List, [], ◌∷◌, length, none, some,
  get_elem?, set, arith, inl, inr, ◌⊎◌,
}
use qwen3_tts_native.Runtime.Scheduler.Worker.{swap_remove, drop_last, last_or}

module _ {ℓ} {A : Type ℓ} where
  pub get_elem?-some_lt : (xs : List A) (k : ℕ) {a : A} → get_elem? xs k ≡ some a → k < length xs
  get_elem?-some_lt [] k h = cc
  get_elem?-some_lt (x ∷ xs) zero h = omega arith
  get_elem?-some_lt (x ∷ xs) (suc k) h = omega (arith, get_elem?-some_lt xs k h)

  pub get_elem?-none_le : (xs : List A) (k : ℕ) → get_elem? xs k ≡ none → length xs ≤ k
  get_elem?-none_le [] k h = omega arith
  get_elem?-none_le (x ∷ xs) zero h = cc
  get_elem?-none_le (x ∷ xs) (suc k) h = omega (arith, get_elem?-none_le xs k h)

  get_elem?-set_other :
      (xs : List A) (i k : ℕ) (v : A) → k ≢ i → get_elem? (set xs i v) k ≡ get_elem? xs k
  get_elem?-set_other [] i k v n = refl
  get_elem?-set_other (x ∷ xs) zero zero v n = absurd (n refl)
  get_elem?-set_other (x ∷ xs) zero (suc k) v n = refl
  get_elem?-set_other (x ∷ xs) (suc i) zero v n = refl
  get_elem?-set_other (x ∷ xs) (suc i) (suc k) v n =
      get_elem?-set_other xs i k v (λ e. n (ap suc e))

  get_elem?-set_same :
      (xs : List A) (i : ℕ) (v : A) → i < length xs → get_elem? (set xs i v) i ≡ some v
  get_elem?-set_same [] i v h = absurd (omega (arith, h))
  get_elem?-set_same (x ∷ xs) zero v h = refl
  get_elem?-set_same (x ∷ xs) (suc i) v h = get_elem?-set_same xs i v (omega (arith, h))

  get_elem?-drop_last :
      (xs : List A) (k : ℕ) → k + 1 < length xs → get_elem? (drop_last xs) k ≡ get_elem? xs k
  unfolding drop_last
  get_elem?-drop_last [] k h = refl
  get_elem?-drop_last (x ∷ []) k h = absurd (omega (arith, h))
  get_elem?-drop_last (x ∷ y ∷ xs) zero h = refl
  get_elem?-drop_last (x ∷ y ∷ xs) (suc k) h = get_elem?-drop_last (y ∷ xs) k (omega (arith, h))

  get_elem?-last_or :
      (x : A) (xs : List A) (k : ℕ) → k ≡ length xs → get_elem? (x ∷ xs) k ≡ some (last_or x xs)
  unfolding last_or
  get_elem?-last_or x [] zero h = refl
  get_elem?-last_or x [] (suc k) h = absurd (omega (arith, h))
  get_elem?-last_or x (y ∷ xs) zero h = absurd (omega (arith, h))
  get_elem?-last_or x (y ∷ xs) (suc k) h = get_elem?-last_or y xs k (omega (arith, h))

  length-drop_last_lt : (x : A) (xs : List A) → length (drop_last (x ∷ xs)) ≡ length xs
  unfolding drop_last
  length-drop_last_lt x [] = refl
  length-drop_last_lt x (y ∷ xs) = omega (arith, length-drop_last_lt y xs)

  -- The elements before the removed one stay where they are.
  pub get_elem?-swap_remove :
      (xs : List A) (i k : ℕ)
      → k < i
      → i < length xs
      → get_elem? (swap_remove i xs) k ≡ get_elem? xs k
  unfolding swap_remove
  get_elem?-swap_remove [] i k h l = refl
  get_elem?-swap_remove (x ∷ xs) i k h l =
      get_elem?-set_other (drop_last (x ∷ xs)) i k (last_or x xs)
        (λ e. absurd (omega (arith, h, e)))
      ∙ get_elem?-drop_last (x ∷ xs) k (omega (arith, h, l))

  -- An element at another place than the removed one is still there, perhaps elsewhere.
  pub swap_remove-keeps :
      (xs : List A) (i k : ℕ) {a : A}
      → k ≢ i
      → i < length xs
      → get_elem? xs k ≡ some a
      → (m : ℕ) × (get_elem? (swap_remove i xs) m ≡ some a)
  unfolding swap_remove
  swap_remove-keeps [] i k n l h = absurd (omega (arith, l))
  swap_remove-keeps (x ∷ xs) i k {a} n l h = elim (last_cases k (length xs) bound) [
    | inl e ↦ (
      i,
      get_elem?-set_same (drop_last (x ∷ xs)) i (last_or x xs)
            (omega (arith, length-drop_last_lt x xs, l, n, e, lower e))
          ∙ sym (get_elem?-last_or x xs k e)
          ∙ h,
    )
    | inr e ↦ (
      k,
      get_elem?-set_other (drop_last (x ∷ xs)) i k (last_or x xs) n
          ∙ get_elem?-drop_last (x ∷ xs) k (omega (arith, e))
          ∙ h,
    )
  ]
    where
      bound : k < length (x ∷ xs)
      bound = get_elem?-some_lt (x ∷ xs) k h

      lower : k ≡ length xs → i < length xs
      lower e = ground (arith, n, l, e)

      last_cases : (k n : ℕ) → k < suc n → (k ≡ n) ⊎ (k < n)
      last_cases k n b = ground arith
