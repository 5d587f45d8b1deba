-- ===== src/Native/Pump.antt =====
-- native_talker.rs: `BatchFramePump`, which joins the frame requests of concurrent sessions into one
-- call of the native library. A request is the number of its responder; the time, the count of
-- registered sessions and what arrives are explicit in the turns of the gathering loop.
use qwen3_tts_native.Base.{
  take-length, ℕ, ◌≤◌, ◌<◌, ◌≡◌, refl, max, min, List, [], ◌∷◌, ◌++◌, map, length, length-append,
  take, Option, none, some, leb, ◌==◌, if◌then◌else◌, if_lem, Option-cases, inl, inr, ap, subst,
  ◌∙◌, arith,
}
use qwen3_tts_native.Native.Talker.{NativeDeviceFrameView, PumpAnswer, answered, failed_batch}

abbrev pub max_batch_sessions : ℕ
max_batch_sessions = 8

-- A turn of the loop: the count it reads, and the request that arrives before the deadline, if any.
pub record Turn : Type 0 where
  pub registered : ℕ
  pub arrival : Option ℕ

-- The inner loop of the pump's thread; no further turn is a receiver that gives nothing.
unfoldable pub gather : List Turn → List ℕ → List ℕ
gather [] batch = batch
gather (turn ∷ turns) batch =
    if leb (min (max turn.registered 1) max_batch_sessions) (length batch)
    then batch
    else elim turn.arrival [ none ↦ batch | some request ↦ gather turns (batch ++ request ∷ []) ]

abbrev pub zip_answers : List ℕ → List NativeDeviceFrameView → List (ℕ × PumpAnswer)
zip_answers [] views = []
zip_answers (r ∷ rs) [] = []
zip_answers (r ∷ rs) (v ∷ vs) = (r, answered v) ∷ zip_answers rs vs

-- `run_batch`: the sessions given to the native call, and the answers sent, given the status and
-- the views that the call left in the array.
unfoldable pub batch_sessions : List ℕ → List ℕ
batch_sessions batch = take (min (length batch) max_batch_sessions) batch

unfoldable pub run_batch : List ℕ → ℕ → List NativeDeviceFrameView → List (ℕ × PumpAnswer)
run_batch batch status views =
    if status == 0 then zip_answers batch views else map (λ r. (r, failed_batch)) batch

abbrev IsBatch : List ℕ → Type 0
IsBatch batch = (0 < length batch) × (length batch ≤ max_batch_sessions)

abbrev pub requester : ℕ × PumpAnswer → ℕ
requester a = a.0

gather-bounded :
    (turns : List Turn) (batch : List ℕ)
    → 0 < length batch
    → length batch ≤ max_batch_sessions
    → IsBatch (gather turns batch)
unfolding gather
gather-bounded [] batch p l = (p, l)
gather-bounded (turn ∷ turns) batch p l =
    if_lem IsBatch (leb (min (max turn.registered 1) max_batch_sessions) (length batch))
      (λ e. (p, l))
      (λ e. elim (Option-cases turn.arrival) [
        | inl n ↦ rw (n, gather) (p, l)
        | inr (r, n) ↦
            rw (n, gather)
              (gather-bounded turns (batch ++ r ∷ []) (omega (arith, length-append batch (r ∷ [])))
                (ground (arith, e, length-append batch (r ∷ []))))
      ])

requesters-zip :
    (rs : List ℕ) (vs : List NativeDeviceFrameView)
    → length vs ≡ length rs
    → map requester (zip_answers rs vs) ≡ rs
requesters-zip [] vs h = refl
requesters-zip (r ∷ rs) [] h = absurd (omega (arith, h))
requesters-zip (r ∷ rs) (v ∷ vs) h = ap (◌∷◌ r) (requesters-zip rs vs (omega (arith, h)))

requesters-map : (rs : List ℕ) (a : PumpAnswer) → map requester (map (λ r. (r, a)) rs) ≡ rs
requesters-map [] a = refl
requesters-map (r ∷ rs) a = ap (◌∷◌ r) (requesters-map rs a)

-- Whatever arrives and whatever the native call's status: a batch begun by a request has between one
-- and eight of them, the native call is given them all, and each gets exactly one answer, in order.
-- It is assumed that the call keeps the length of the array of views.
pub run_batch-gather :
    (turns : List Turn) (first status : ℕ) (views : List NativeDeviceFrameView)
    → let batch = gather turns (first ∷ []) in
      length views ≡ length (batch_sessions batch)
      → (0 < length batch)
        × (length batch ≤ max_batch_sessions)
        × (batch_sessions batch ≡ batch)
        × (map requester (run_batch batch status views) ≡ batch)
unfolding batch_sessions run_batch
run_batch-gather turns first status views h =
    let batch = gather turns (first ∷ []) in
    let b = gather-bounded turns (first ∷ []) (omega arith) (omega arith) in
    let all : take (min (length batch) max_batch_sessions) batch ≡ batch =
      subst (λ n. take n batch ≡ batch) (omega (arith, b.1)) (take-length batch) in
    (
      b.0,
      b.1,
      all,
      if_lem (λ answers. map requester answers ≡ batch) (status == 0)
          (λ e. requesters-zip batch views (h ∙ ap length all))
          (λ e. requesters-map batch failed_batch),
    )
