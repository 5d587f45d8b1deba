-- ===== src/Runtime/Request/Phases.antt =====
-- The phase machine: which transitions there are and how long a request can live.
use qwen3_tts_native.Base.{
  ℕ, ◌+◌, ◌≤◌, ◌≡◌, true, false, List, [], ◌∷◌, length, Result, ok, err, ◌>>=◌, >>=-eq-ok, arith,
}
use qwen3_tts_native.Runtime.Types.{
  RequestPhase, queued, prefilling, generating, draining, cancelled, failed, is_terminal,
}
use qwen3_tts_native.Runtime.Request.{RequestRecord, TransitionError, transition}

-- The steps that a request in this phase can still make at most.
abbrev pub remaining : RequestPhase → ℕ
remaining queued = 4
remaining prefilling = 3
remaining generating = 2
remaining draining = 1
remaining _ = 0

-- A sequence of transitions, each of which must be accepted.
unfoldable pub transitions :
    RequestRecord → List RequestPhase → Result TransitionError RequestRecord
transitions r [] = ok r
transitions r (next ∷ rest) = do r' ← transition r next; transitions r' rest

-- From a terminal phase every transition is refused, and the error names both phases.
transition-is_terminal :
    (r : RequestRecord) (next : RequestPhase)
    → is_terminal r.phase ≡ true
    → transition r next ≡ err (record { from_phase = r.phase; to_phase = next })
unfolding transition
transition-is_terminal r next h = ground arith

-- From any phase that is not terminal a request can be cancelled, and it can fail.
transition_abort :
    (r : RequestRecord)
    → is_terminal r.phase ≡ false
    → (transition r cancelled ≡ ok (record r { phase = cancelled }))
      × (transition r failed ≡ ok (record r { phase = failed }))
unfolding transition
transition_abort r h = ground arith

transition-remaining :
    (r r' : RequestRecord) (next : RequestPhase)
    → transition r next ≡ ok r'
    → (remaining r'.phase + 1 ≤ remaining r.phase) × (r'.phase ≡ next)
unfolding transition
transition-remaining r r' next h = ground arith

-- A request makes at most four transitions in its life, whatever their order.
pub transitions_bounded :
    (ps : List RequestPhase) (r r' : RequestRecord)
    → transitions r ps ≡ ok r'
    → length ps + remaining r'.phase ≤ remaining r.phase
unfolding transitions
transitions_bounded [] r r' h = ground arith
transitions_bounded (p ∷ ps) r r' h =
    let (q, e, f) = >>=-eq-ok (transition r p) (λ q. transitions q ps) h in
    omega (arith, transition-remaining r q p e, transitions_bounded ps q r' f)
