-- ===== src/Native/Pool/Capacity.antt =====
-- native_talker.rs: the size of a session for a request, and the choice of a pooled one.
use qwen3_tts_native.Base.{
  ℕ, suc, ◌+◌, ◌%◌, ◌^◌, true, ◌<◌, ◌≤◌, ◌≡◌, sym, subst, ◌++◌, append-nil, append_assoc, length,
  length-append, All-append, All-mono, get_elem?-length, get_elem?-append, Option-cases, ltb→lt,
  ◌⊎◌, inl, inr, List, [], ◌∷◌, Option, none, some, ok, is_ok, All, get_elem?, leb, ltb,
  if◌then◌else◌, if_lem, arith, ◌↔◌,
}
use qwen3_tts_native.Native.Pool.{
  session_capacity, PooledSession, choose, scan_pool, smallest_adequate_session_index,
}

-- For sizes that a `usize` holds and a limit below 2^31: `session_capacity` succeeds exactly if the
-- limit is 16 or more and the prompt with the frames fits it, and the size is then at least what the
-- request needs and 16, at most the limit, and a multiple of 32 unless it is the limit.
pub session_capacity-bounded :
    (prompt frames limit : ℕ)
    → prompt < 2 ^ 64
    → frames < 2 ^ 64
    → limit < 2 ^ 31
    → (is_ok (session_capacity prompt frames limit) ≡ true
        ↔ (16 ≤ limit) × (prompt + frames ≤ limit))
      × ((size : ℕ)
          → session_capacity prompt frames limit ≡ ok size
          → (prompt + frames ≤ size)
            × (16 ≤ size)
            × (size ≤ limit)
            × ((size % 32 ≡ 0) ⊎ (size ≡ limit)))
unfolding session_capacity
session_capacity-bounded prompt frames limit p f l =
    ((λ h. ground arith, λ h. ground arith), λ size h. ground arith)

-- Of the entries seen, `found` is the smallest that is large enough, or none is.
abbrev Least : ℕ → List PooledSession → Option (ℕ × PooledSession) → Type 0
Least required seen none = All (λ x. x.max_sequence_length < required) seen
Least required seen (some (j, e)) =
    (get_elem? seen j ≡ some e)
    × ((required ≤ e.max_sequence_length)
        × All
            (λ x. required ≤ x.max_sequence_length → e.max_sequence_length ≤ x.max_sequence_length)
            seen)

choose-Least :
    (required : ℕ) (seen : List PooledSession) (x : PooledSession)
    (best : Option (ℕ × PooledSession))
    → Least required seen best
    → Least required
        (seen ++ x ∷ [])
        (if leb required x.max_sequence_length then choose best (length seen) x else best)
choose-Least required seen x none h =
    if_lem (Least required (seen ++ x ∷ [])) (leb required x.max_sequence_length)
      (λ b. (
        get_elem?-length seen x,
        (
          ground (arith, b),
          All-append _ seen (x ∷ [])
              (All-mono (λ y. y.max_sequence_length < required)
                (λ y.
                  required ≤ y.max_sequence_length → x.max_sequence_length ≤ y.max_sequence_length)
                seen (λ y s l. omega (arith, s, l)) h)
              (ground arith),
        ),
      ))
      (λ b. All-append _ seen (x ∷ []) h (ground (arith, b)))
choose-Least required seen x (some (j, e)) (at, (enough, least)) =
    let kept : (required ≤ x.max_sequence_length → e.max_sequence_length ≤ x.max_sequence_length)
        → Least required (seen ++ x ∷ []) (some (j, e)) =
      λ l. (
        get_elem?-append seen (x ∷ []) j e at,
        (enough, All-append _ seen (x ∷ []) least (l, tt)),
      ) in
    if_lem (Least required (seen ++ x ∷ [])) (leb required x.max_sequence_length)
      (λ b.
        if_lem (Least required (seen ++ x ∷ [])) (ltb x.max_sequence_length e.max_sequence_length)
          (λ c. (
            get_elem?-length seen x,
            (
              ground (arith, b),
              All-append _ seen (x ∷ [])
                  (All-mono
                    (λ y.
                      required ≤ y.max_sequence_length
                      → e.max_sequence_length ≤ y.max_sequence_length)
                    (λ y.
                      required ≤ y.max_sequence_length
                      → x.max_sequence_length ≤ y.max_sequence_length)
                    seen (λ y s l. omega (arith, s l, ltb→lt _ _ c)) least)
                  (ground arith),
            ),
          ))
          (λ c. kept (ground (arith, c))))
      (λ b. kept (ground (arith, b)))

scan_pool-Least :
    (required : ℕ) (seen rest : List PooledSession) (best : Option (ℕ × PooledSession))
    → Least required seen best
    → Least required (seen ++ rest) (scan_pool rest required (length seen) best)
scan_pool-Least required seen [] best h =
    subst (λ l. Least required l best) (sym (append-nil seen)) h
scan_pool-Least required seen (x ∷ rest) best h =
    let next = if leb required x.max_sequence_length then choose best (length seen) x else best in
    subst (λ l. Least required l (scan_pool rest required (suc (length seen)) next))
      (append_assoc seen (x ∷ []) rest)
      (subst (λ n. Least required ((seen ++ x ∷ []) ++ rest) (scan_pool rest required n next))
        (omega (arith, length-append seen (x ∷ [])))
        (scan_pool-Least required (seen ++ x ∷ []) rest next (choose-Least required seen x best h)))

-- A pooled session is reused exactly if one is large enough for the request; the one chosen is then
-- large enough, and no larger than any other that is.
pub smallest-Least :
    (pool : List PooledSession) (required : ℕ)
    → (smallest_adequate_session_index pool required ≡ none
        → All (λ x. x.max_sequence_length < required) pool)
      × ((i : ℕ)
          → smallest_adequate_session_index pool required ≡ some i
          → (e : PooledSession) × (get_elem? pool i ≡ some e)
            × (required ≤ e.max_sequence_length)
            × All
                (λ x.
                  required ≤ x.max_sequence_length → e.max_sequence_length ≤ x.max_sequence_length)
                pool)
unfolding smallest_adequate_session_index
smallest-Least pool required =
    let l = scan_pool-Least required [] pool none tt in
    elim (Option-cases (scan_pool pool required 0 none)) [
      | inl e ↦
          rw (e, smallest_adequate_session_index) (λ h. subst (Least required pool) e l, λ i h. cc)
      | inr ((j, x), e) ↦
          rw (e, smallest_adequate_session_index)
            (
              λ h. cc,
              λ i h.
                  let k = subst (Least required pool) e l in
                  (x, subst (λ n. get_elem? pool n ≡ some x) (ground (arith, h)) k.0, k.1.0, k.1.1),
            )
    ]
