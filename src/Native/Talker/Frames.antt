-- ===== src/Native/Talker/Frames.antt =====
-- native_talker.rs: the limit on the frames of a session and the reasons for which it ends.
use qwen3_tts_native.Base.{
  ℕ, ◌+◌, ◌<◌, ◌≤◌, ◌≡◌, refl, inl, inr, Bool, true, false, Option, none, some, is_some, Result, ok,
  err, Result-cases, if_lem, leb, ◌==◌, if◌then◌else◌, arith, ◌∙◌, sym, not, ◌||◌, get_or,
}
use qwen3_tts_native.Native.Prompt.{tts_pad}
use qwen3_tts_native.Native.Talker.{
  codec_eos, max_frames, TalkerError, NativeTalkerSession, NativeDeviceFrameView, TalkerLibrary,
  is_ended, cancel_talker, unless_ended, with_text, reason_after, advance_frame, discard,
  text_source_id, no_device_frames,
}
use qwen3_tts_native.Native.Talker.Session.{
  Talker, accept_frame, generate_frame, next_frame, accept_view, begin_frame, begin_device_frame,
  accept_answer, request_frame, begin_device_frame_batched, finish_device_native_raw,
  commit_finished_device_frame, drop_pending, complete, finish_with_consumer_event,
  finish_without_consumer, FrameEnd, is_dropped, has_no_consumer, has_consumer, settle_frame,
  device_frame, TalkerOp, next_host, cancels, next_device, run,
}

-- The session `t` after the session `s`: it emitted no more than one frame, and only if `s` had
-- not ended; a reason to end other than a cancellation is true of it.
pub record After {H : Type 0} (s t : NativeTalkerSession H) : Type 0 where
  pub limit : t.max_frames ≡ s.max_frames
  pub eos : t.codec_eos_token ≡ s.codec_eos_token
  pub emitted : t.frames_emitted ≤ s.max_frames
  pub grows : s.frames_emitted ≤ t.frames_emitted
  pub once : t.frames_emitted ≤ s.frames_emitted + 1
  pub absorbing : is_ended s ≡ true → (is_ended t ≡ true) × (t.frames_emitted ≡ s.frames_emitted)
  pub at_limit : t.end_reason ≡ some max_frames → s.max_frames ≤ t.frames_emitted
  pub at_eos : t.end_reason ≡ some codec_eos → t.current_semantic ≡ s.codec_eos_token

abbrev Ends :
    {H : Type 0} {A : Type 0}
    → NativeTalkerSession H
    → Result TalkerError A × NativeTalkerSession H
    → Type 0
Ends s r = After s r.1

-- What is true of every session.
pub record Inv {H : Type 0} (s : NativeTalkerSession H) : Type 0 where
  pub emitted : s.frames_emitted ≤ s.max_frames
  pub at_limit : s.end_reason ≡ some max_frames → s.frames_emitted ≡ s.max_frames
  pub at_eos : s.end_reason ≡ some codec_eos → s.current_semantic ≡ s.codec_eos_token

module _ (lib : TalkerLibrary) (s : Talker lib) (v : Inv s) where
  cancel_talker-After : After s (cancel_talker s)
  unfolding cancel_talker
  cancel_talker-After = ground (arith, v.emitted, v.at_limit, v.at_eos)

  generate_frame-After :
      (text_id : ℕ)
      → s.end_reason ≡ none
      → s.frames_emitted < s.max_frames
      → After s (generate_frame lib s text_id).1
  unfolding generate_frame discard accept_frame advance_frame reason_after
  generate_frame-After text_id r l = ground arith

  -- What holds after each guard holds after the three.
  pub unless_ended_lem :
      {A : Type 0} (P : Result TalkerError (Option A) × Talker lib → Type 0)
      (r : Result TalkerError (Option A) × Talker lib)
      → (is_some s.end_reason ≡ true → P (ok none, s))
      → (s.max_frames ≤ s.frames_emitted → P (ok none, record s { end_reason = some max_frames }))
      → (s.current_semantic ≡ s.codec_eos_token
          → P (ok none, record s { end_reason = some codec_eos }))
      → (s.end_reason ≡ none → s.frames_emitted < s.max_frames → P r)
      → P (unless_ended s r)
  unfolding unless_ended
  unless_ended_lem P r over full last go = if_lem P (is_some s.end_reason) over (λ p.
      if_lem P (leb s.max_frames s.frames_emitted) (λ q. full (ground (arith, q)))
        (λ q.
          if_lem P (s.current_semantic == s.codec_eos_token) (λ e. last (ground (arith, e)))
            (λ e. go (ground (arith, p)) (ground (arith, q)))))

  pub with_text_lem :
      {A : Type 0} (P : Result TalkerError (Option A) × Talker lib → Type 0)
      (go : ℕ → Result TalkerError (Option A) × Talker lib)
      → ((e : TalkerError) → P (err e, s))
      → ((text_id : ℕ) → P (go text_id))
      → P (with_text s go)
  unfolding with_text
  with_text_lem P go failed done =
      elim (Result-cases
        (text_source_id s.model (get_or s.trailing_text s.frames_emitted tts_pad))) [
          | inl (i, e) ↦ rw (e, with_text) (done i)
          | inr (x, e) ↦ rw (e, with_text) (failed x)
        ]

  same-After : After s s
  same-After = ground (arith, v.emitted, v.at_limit, v.at_eos)

  pub next_frame-After : After s (next_frame lib s).1
  unfolding next_frame
  next_frame-After =
      unless_ended_lem (Ends s) (with_text s (generate_frame lib s)) (λ p. same-After)
        (λ p. ground (arith, v.emitted, p)) (λ p. ground (arith, v.emitted, p))
        (λ p q.
          with_text_lem (Ends s) (generate_frame lib s) (λ e. same-After)
            (λ i. generate_frame-After i p q))

  drop_pending-After : (view : NativeDeviceFrameView) → After s (drop_pending lib s view)
  unfolding drop_pending discard finish_device_native_raw
  drop_pending-After view = ground (arith, v.emitted, v.at_limit, v.at_eos)

  complete-After :
      (view : NativeDeviceFrameView) (event : ℕ)
      → s.end_reason ≡ none
      → s.frames_emitted < s.max_frames
      → After s (complete lib s view event).1
  unfolding complete commit_finished_device_frame finish_device_native_raw discard drop_pending
      advance_frame reason_after
  complete-After view event q l = ground (arith, v.emitted, v.at_limit, v.at_eos)

  consumer-After :
      (view : NativeDeviceFrameView) (event : ℕ)
      → s.end_reason ≡ none
      → s.frames_emitted < s.max_frames
      → After s (finish_with_consumer_event lib s view event).1
  unfolding finish_with_consumer_event
  consumer-After view event q l =
      if_lem (Ends s) (event == 0) (λ p. drop_pending-After view)
        (λ p. complete-After view event q l)

  no_consumer-After :
      (view : NativeDeviceFrameView)
      → s.end_reason ≡ none
      → s.frames_emitted < s.max_frames
      → After s (finish_without_consumer lib s view).1
  unfolding finish_without_consumer
  no_consumer-After view q l = complete-After view 0 q l

  -- A frame was begun: only the library's state differs, or it was refused.
  abbrev Begun : Result TalkerError (Option NativeDeviceFrameView) × Talker lib → Type 0
  Begun r =
      After s r.1
      × ((r.1.frames_emitted ≡ s.frames_emitted)
          × ((view : NativeDeviceFrameView)
              → r.0 ≡ ok (some view)
              → (r.1.end_reason ≡ none) × (r.1.frames_emitted < r.1.max_frames)))

  begin_frame-Begun :
      (text_id : ℕ)
      → s.end_reason ≡ none
      → s.frames_emitted < s.max_frames
      → Begun (begin_frame lib s text_id)
  unfolding begin_frame discard accept_view
  begin_frame-Begun text_id q l = ground (arith, v.emitted, v.at_limit, v.at_eos)

  request_frame-Begun :
      (text_id : ℕ)
      → s.end_reason ≡ none
      → s.frames_emitted < s.max_frames
      → Begun (request_frame lib s text_id)
  unfolding request_frame discard accept_view accept_answer
  request_frame-Begun text_id q l = ground (arith, v.emitted, v.at_limit, v.at_eos)

  unless_ended-Begun :
      (r : Result TalkerError (Option NativeDeviceFrameView) × Talker lib)
      → (s.end_reason ≡ none → s.frames_emitted < s.max_frames → Begun r)
      → Begun (unless_ended s r)
  unless_ended-Begun r go =
      unless_ended_lem Begun r (λ p. (same-After, (refl, λ view e. ground arith)))
        (λ p. ground (arith, v.emitted, p)) (λ p. ground (arith, v.emitted, p)) go

  begin_device_frame-Begun : Begun (begin_device_frame lib s)
  unfolding begin_device_frame
  begin_device_frame-Begun =
      unless_ended-Begun
        (if s.model.has_device_frame_api
          then with_text s (begin_frame lib s)
          else (err no_device_frames, s))
        (λ p q.
          if_lem Begun s.model.has_device_frame_api
            (λ a.
              with_text_lem Begun (begin_frame lib s)
                (λ e. (same-After, (refl, λ view f. ground arith))) (λ i. begin_frame-Begun i p q))
            (λ a. (same-After, (refl, λ view f. ground arith))))

  batched-Begun : Begun (begin_device_frame_batched lib s)
  unfolding begin_device_frame_batched
  batched-Begun =
      if_lem Begun (not s.model.has_batch_pump || (s.frames_emitted == 0))
        (λ p. begin_device_frame-Begun)
        (λ p. unless_ended-Begun (with_text s (request_frame lib s)) (λ p q.
          with_text_lem Begun (request_frame lib s)
            (λ e. (same-After, (refl, λ view f. ground arith))) (λ i. request_frame-Begun i p q)))

pub After-Inv : {H : Type 0} (s t : NativeTalkerSession H) → After s t → Inv t
After-Inv s t a = record {
  emitted = ground (arith, a.emitted, a.limit);
  at_limit = λ e. ground (arith, a.at_limit e, a.limit, a.emitted);
  at_eos = λ e. a.at_eos e ∙ sym a.eos;
}

-- A session two steps on, the first of which emitted nothing.
After-trans :
    {H : Type 0} (s t u : NativeTalkerSession H)
    → After s t
    → t.frames_emitted ≡ s.frames_emitted
    → After t u
    → After s u
After-trans s t u a e b = ground (
  arith, e, a.limit, a.eos, a.absorbing, b.limit, b.eos, b.emitted, b.grows, b.once, b.absorbing,
  b.at_limit, b.at_eos,
)

module _ (lib : TalkerLibrary) (s : Talker lib) (v : Inv s) where
  settle_frame-After :
      (how : FrameEnd) (r : Result TalkerError (Option NativeDeviceFrameView) × Talker lib)
      → Begun lib s v r
      → After s (settle_frame lib how r)
  unfolding settle_frame
  settle_frame-After how (ok none, t) b = b.0
  settle_frame-After how (err e, t) b = b.0
  settle_frame-After is_dropped (ok (some view), t) b =
      After-trans s t _ b.0 b.1.0 (drop_pending-After lib t (After-Inv s t b.0) view)
  settle_frame-After has_no_consumer (ok (some view), t) b =
      let w = b.1.1 view refl in
      After-trans s t _ b.0 b.1.0 (no_consumer-After lib t (After-Inv s t b.0) view w.0 w.1)
  settle_frame-After (has_consumer e) (ok (some view), t) b =
      let w = b.1.1 view refl in
      After-trans s t _ b.0 b.1.0 (consumer-After lib t (After-Inv s t b.0) view e w.0 w.1)

  device_frame-After : (batched : Bool) (how : FrameEnd) → After s (device_frame lib s batched how)
  unfolding device_frame
  device_frame-After true how =
      settle_frame-After how (begin_device_frame_batched lib s) (batched-Begun lib s v)
  device_frame-After false how =
      settle_frame-After how (begin_device_frame lib s) (begin_device_frame-Begun lib s v)

  -- For every native library, after every method that changes a session, with the three ways in which
  -- a frame begun on the device can end: if the session was within its limit and said truly why it
  -- ended, if it did, then it emitted at most one frame, is within its limit, and
  -- emitted none if it had ended before; it then stays ended; if its limit ended it it has emitted
  -- exactly that many frames, and if the codec ended it it holds the end token.
  pub run-After : (op : TalkerOp) → After s (run lib op s) × Inv (run lib op s)
  unfolding run
  run-After next_host = (next_frame-After lib s v, After-Inv s _ (next_frame-After lib s v))
  run-After cancels = (cancel_talker-After lib s v, After-Inv s _ (cancel_talker-After lib s v))
  run-After (next_device batched how) =
      (device_frame-After batched how, After-Inv s _ (device_frame-After batched how))
