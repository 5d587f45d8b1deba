-- ===== src/Runtime/Scheduler/Worker/Step.antt =====
-- scheduler.rs: `step_eligible` and `validate_backend_packet`, one batch of generation.
use qwen3_tts_native.Base.{
  ℕ, suc, ◌-◌, List, [], ◌∷◌, map, length, Option, none, some, get_elem?, set, Result, ◌==◌,
  if◌then◌else◌,
}
use qwen3_tts_native.Runtime.Request.{FloatOps}
use qwen3_tts_native.Runtime.Scheduler.Shared.{
  BackendError, Pcm, fill, no_session, pool_empty, step_panicked, wrong_step_count, internal_error,
  RequestShared, can_accept_packet, take_pcm, recycle_pcm, mark_failed, duration_microseconds,
}
use qwen3_tts_native.Runtime.Scheduler.Backend.{Backend, BackendPacket, apply_effect}
use qwen3_tts_native.Runtime.Scheduler.Worker.{Worker, ActiveRequest, on_shared}
use qwen3_tts_native.Runtime.Scheduler.Worker.Accept.{accept, pcm_sentinel}

-- A request taken out of `active` for a step: its position, its session and its buffer.
pub record Selected (Session : Type 0) : Type 0 where
  pub index : ℕ
  pub session : Session
  pub pcm : Pcm

module _ {S : Type 0} where
  abbrev pub with_selected : Option (Selected S) → List (Selected S) → List (Selected S)
  with_selected none xs = xs
  with_selected (some x) xs = x ∷ xs

  -- The selected requests with what the backend left in their sessions and buffers.
  unfoldable pub after_backend : List (Selected S) → List (S × Pcm) → List (Selected S)
  after_backend [] ys = []
  after_backend (x ∷ xs) [] = x ∷ xs
  after_backend (x ∷ xs) ((session, pcm) ∷ ys) =
      record x { session = session; pcm = pcm } ∷ after_backend xs ys

  abbrev pub input_of : Selected S → S × Pcm
  input_of x = (x.session, x.pcm)

module _ {B : Backend} where
  open B use {State, Session}

  abbrev pub set_session : Worker B → ℕ → ActiveRequest Session → Option Session → Worker B
  set_session w i a session = record w { active = set w.active i (record a { session = session }) }

  -- Selection at one index, which is one of `eligible` and so within `active`.
  unfoldable pub select_buffer :
      ℕ
      → ActiveRequest Session
      → Session
      → Worker B
      → Option (Pcm × RequestShared)
      → Option (Selected Session) × Worker B
  unfolding on_shared mark_failed
  select_buffer i a session w none =
      (none, on_shared w a.record_of.id (λ s. mark_failed s (internal_error pool_empty)))
  select_buffer i a session w (some (pcm, s)) = (
    some (record { index = i; session = session; pcm = fill pcm_sentinel pcm }),
    on_shared (set_session w i a none) a.record_of.id (λ _. s),
  )

  unfoldable pub select_session :
      ℕ → ActiveRequest Session → Worker B → Option Session → Option (Selected Session) × Worker B
  unfolding on_shared mark_failed select_buffer take_pcm
  select_session i a w none =
      (none, on_shared w a.record_of.id (λ s. mark_failed s (internal_error no_session)))
  select_session i a w (some session) =
      select_buffer i a session w (take_pcm (w.store a.record_of.id))

  unfoldable pub select_one :
      ℕ → Worker B → Option (ActiveRequest Session) → Option (Selected Session) × Worker B
  unfolding select_session
  select_one i w none = (none, w)
  select_one i w (some a) = select_session i a w a.session

  unfoldable pub select : List ℕ → Worker B → List (Selected Session) × Worker B
  unfolding select_one
  select [] w = ([], w)
  select (i ∷ indices) w =
      let (one, w') = select_one i w (get_elem? w.active i) in
      let (rest, w'') = select indices w' in (with_selected one rest, w'')

  -- After a panic or a wrong number of results: session and buffer go back, the request fails.
  unfoldable pub give_back_one :
      BackendError → Selected Session → Worker B → Option (ActiveRequest Session) → Worker B
  unfolding on_shared recycle_pcm mark_failed
  give_back_one e x w none = w
  give_back_one e x w (some a) =
      on_shared (set_session w x.index a (some x.session)) a.record_of.id
        (λ s. mark_failed (recycle_pcm s x.pcm) e)

  unfoldable pub give_back : BackendError → List (Selected Session) → Worker B → Worker B
  unfolding give_back_one
  give_back e [] w = w
  give_back e (x ∷ xs) w = give_back e xs (give_back_one e x w (get_elem? w.active x.index))

  unfoldable pub finish_one :
      FloatOps
      → ℕ
      → ℕ
      → ℕ
      → Selected Session
      → Result BackendError BackendPacket
      → Worker B
      → Option (ActiveRequest Session)
      → Worker B
  unfolding accept on_shared
  finish_one fl packet_frames step_us now x result w none = w
  finish_one fl packet_frames step_us now x result w (some a) =
      let id = a.record_of.id in
      let elapsed = duration_microseconds (now - a.started_at) in
      let (r, s) =
        accept fl packet_frames a.max_codec_frames step_us elapsed a.record_of (w.store id) x.pcm
          result in
      let a' = record a { session = some x.session; record_of = r } in
      on_shared (record w { active = set w.active x.index a' }) id (λ _. s)

  unfoldable pub finish_all :
      FloatOps
      → ℕ
      → ℕ
      → ℕ
      → List (Selected Session)
      → List (Result BackendError BackendPacket)
      → Worker B
      → Worker B
  unfolding finish_one
  finish_all fl packet_frames step_us now [] results w = w
  finish_all fl packet_frames step_us now (x ∷ xs) [] w = w
  finish_all fl packet_frames step_us now (x ∷ xs) (r ∷ rs) w =
      finish_all fl packet_frames step_us now xs rs
        (finish_one fl packet_frames step_us now x r w (get_elem? w.active x.index))

  unfoldable pub finish_step :
      FloatOps
      → ℕ
      → ℕ
      → ℕ
      → List (Selected Session)
      → Option (List (Result BackendError BackendPacket))
      → Worker B
      → Worker B
  unfolding give_back finish_all
  finish_step fl packet_frames step_us now selected none w =
      give_back (internal_error step_panicked) selected w
  finish_step fl packet_frames step_us now selected (some results) w =
      if length results == length selected
      then finish_all fl packet_frames step_us now selected results w
      else give_back (internal_error wrong_step_count) selected w

  -- `step_eligible`; the step began at `began` and its results are recorded at `now`.
  unfoldable pub step_eligible : FloatOps → ℕ → ℕ → ℕ → List ℕ → Worker B → Worker B
  unfolding select after_backend apply_effect finish_step
  step_eligible fl packet_frames began now eligible w =
      let (selected, w') = select eligible w in
      let inputs = map input_of selected in
      let call = B.step_batch w'.backend inputs packet_frames in
      let step_us = fl.from_u64 (duration_microseconds (now - began)) in
      finish_step fl packet_frames step_us now
        (after_backend selected (apply_effect call.effect 0 inputs)) call.results
        (record w' { backend = call.state })

  -- The indices of the requests that can accept a packet, from index `i` on.
  unfoldable pub eligible_from : ℕ → List (ActiveRequest Session) → Worker B → List ℕ
  unfolding can_accept_packet
  eligible_from i [] w = []
  eligible_from i (a ∷ others) w =
      let rest = eligible_from (suc i) others w in
      if can_accept_packet (w.store a.record_of.id) then i ∷ rest else rest
