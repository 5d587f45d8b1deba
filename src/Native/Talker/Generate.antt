-- ===== src/Native/Talker/Generate.antt =====
-- native_talker.rs: the loop of `generate_prompt`, on fuel, and what it hands out.
use qwen3_tts_native.Base.{
  ℕ, zero, suc, ◌+◌, ◌*◌, ◌/◌, ◌<◌, ◌≤◌, ◌≡◌, refl, ◌∙◌, ◌⊎◌, Bool, true, false, List, [], ◌∷◌,
  ◌++◌, length, length-append, Option, none, some, Result, ok, err, arith, subst,
}
use qwen3_tts_native.Native.Talker.{
  SessionEndReason, codec_eos, cancelled, talker_codebooks, TalkerError, NativeTalkerSession,
  NativeSamplingConfig, StreamingCodecFrame, TalkerLibrary, is_ended, with_text, advance_frame,
  discard,
}
use qwen3_tts_native.Native.Talker.Session.{Talker, accept_frame, generate_frame, next_frame}
use qwen3_tts_native.Native.Talker.Frames.{
  Inv, unless_ended_lem, with_text_lem, next_frame-After, After-Inv,
}

-- `some (err e)` for an error of a frame, `none` for too little fuel.
abbrev pub Generated : Type 0 → Type 0
Generated H = Option (Result TalkerError (List StreamingCodecFrame × NativeTalkerSession H))

abbrev pub prepend : {H : Type 0} → StreamingCodecFrame → Generated H → Generated H
prepend f none = none
prepend f (some (err e)) = some (err e)
prepend f (some (ok (fs, t))) = some (ok (f ∷ fs, t))

-- `while let Some(frame) = session.next_frame()?`.
unfoldable pub generate_loop : (lib : TalkerLibrary) → ℕ → Talker lib → Generated lib.Handle
generate_loop lib zero s = none
generate_loop lib (suc fuel) s =
    let r = next_frame lib s in
    let rest = generate_loop lib fuel r.1 in
    elim r.0 [
      | ok (some frame) ↦ prepend frame rest
      | ok none ↦ some (ok ([], r.1))
      | err e ↦ some (err e)
    ]

pub record GenerationOutput : Type 0 where
  pub codec_codes : List ℕ
  pub frame_count : ℕ
  pub ended_by_eos : Bool
  pub final_semantic_token : ℕ

abbrev pub all_codes : List StreamingCodecFrame → List ℕ
all_codes [] = []
all_codes (f ∷ fs) = f.codes ++ all_codes fs

abbrev is_codec_eos : Option SessionEndReason → Bool
is_codec_eos (some codec_eos) = true
is_codec_eos _ = false

-- The end of `generate_prompt`, past the loop.
unfoldable pub generation_output :
    {H : Type 0} → List StreamingCodecFrame → NativeTalkerSession H → GenerationOutput
generation_output frames s = record {
  codec_codes = all_codes frames;
  frame_count = length (all_codes frames) / talker_codebooks;
  ended_by_eos = is_codec_eos s.end_reason;
  final_semantic_token = s.current_semantic;
}

-- `[u16; CODEBOOKS]`.
pub record FillsFrames (lib : TalkerLibrary) : Type 0 where
  pub codes :
      (h : lib.Handle) (semantic text : ℕ) (a b : NativeSamplingConfig)
      → length (lib.session_next_frame h semantic text a b).codes ≡ talker_codebooks

module _ (lib : TalkerLibrary) (fills : FillsFrames lib) where
  -- What a call of `next_frame` says of the session after it.
  abbrev Says : Talker lib → Result TalkerError (Option StreamingCodecFrame) × Talker lib → Type 0
  Says s r =
      (r.0 ≡ ok none → (is_ended r.1 ≡ true) × (r.1.frames_emitted ≡ s.frames_emitted))
      × ((f : StreamingCodecFrame)
          → r.0 ≡ ok (some f)
          → (r.1.frames_emitted ≡ s.frames_emitted + 1)
            × ((f.frame_index ≡ s.frames_emitted) × (length f.codes ≡ talker_codebooks)))

  generate_frame-Says : (s : Talker lib) (text_id : ℕ) → Says s (generate_frame lib s text_id)
  unfolding generate_frame discard accept_frame advance_frame
  generate_frame-Says s text_id = ground (
    arith,
    fills.codes s.handle s.current_semantic text_id s.talker_sampling s.predictor_sampling,
  )

  next_frame-Says : (s : Talker lib) → Inv s → Says s (next_frame lib s)
  unfolding next_frame
  next_frame-Says s v =
      unless_ended_lem lib s v (Says s) (with_text s (generate_frame lib s))
        (λ p. (λ e. (p, refl), λ f e. ground arith)) (λ p. (λ e. (refl, refl), λ f e. ground arith))
        (λ p. (λ e. (refl, refl), λ f e. ground arith))
        (λ p q.
          with_text_lem lib s v (Says s) (generate_frame lib s)
            (λ e. (λ f. ground arith, λ f g. ground arith)) (λ i. generate_frame-Says s i))

-- Indices that count up from `i`.
abbrev pub CountsFrom : ℕ → List StreamingCodecFrame → Type 0
CountsFrom i [] = Unit
CountsFrom i (f ∷ fs) = (f.frame_index ≡ i) × CountsFrom (suc i) fs

-- What the loop gives: with frames, the session after them.
abbrev pub Completes : {H : Type 0} → NativeTalkerSession H → Generated H → Type 0
Completes s none = ⊥
Completes s (some (err e)) = Unit
Completes s (some (ok (fs, t))) =
    (is_ended t ≡ true)
    × ((t.frames_emitted ≡ s.frames_emitted + length fs)
        × (((t.max_frames ≡ s.max_frames) × Inv t)
            × (CountsFrom s.frames_emitted fs
                × (length (all_codes fs) ≡ length fs * talker_codebooks))))

Completes-prepend :
    {H : Type 0} (s t : NativeTalkerSession H) (f : StreamingCodecFrame) (rest : Generated H)
    → t.max_frames ≡ s.max_frames
    → t.frames_emitted ≡ s.frames_emitted + 1
    → f.frame_index ≡ s.frames_emitted
    → length f.codes ≡ talker_codebooks
    → Completes t rest
    → Completes s (prepend f rest)
Completes-prepend s t f none m n i c h = h
Completes-prepend s t f (some (err e)) m n i c h = tt
Completes-prepend s t f (some (ok (fs, u))) m n i c h = (
  h.0,
  (
    omega (arith, h.1.0, n),
    (
      (h.1.1.0.0 ∙ m, h.1.1.0.1),
      (
        (i, subst (λ k. CountsFrom k fs) (omega (arith, n)) h.1.1.1.0),
        omega (arith, c, h.1.1.1.1, length-append f.codes (all_codes fs)),
      ),
    ),
  ),
)

module _ (lib : TalkerLibrary) (fills : FillsFrames lib) where
  after_frame-Completes :
      (fuel : ℕ) (s : Talker lib)
      → Inv s
      → ((t : Talker lib)
          → Inv t
          → t.max_frames < t.frames_emitted + fuel
          → Completes t (generate_loop lib fuel t))
      → s.max_frames < s.frames_emitted + suc fuel
      → (r : Result TalkerError (Option StreamingCodecFrame)) → (next_frame lib s).0 ≡ r
      → Completes s (generate_loop lib (suc fuel) s)
  unfolding generate_loop
  after_frame-Completes fuel s v ih h (err e) q = rw (q, generate_loop) tt
  after_frame-Completes fuel s v ih h (ok none) q =
      let a = next_frame-After lib s v in
      let says = (next_frame-Says lib fills s v).0 q in
      rw (q, generate_loop)
        (says.0, (omega (arith, says.1), ((a.limit, After-Inv s _ a), (tt, refl))))
  after_frame-Completes fuel s v ih h (ok (some f)) q =
      let t = (next_frame lib s).1 in
      let a = next_frame-After lib s v in
      let says = (next_frame-Says lib fills s v).1 f q in
      rw (q, generate_loop)
        (Completes-prepend s t f (generate_loop lib fuel t) a.limit says.0 says.1.0 says.1.1
          (ih t (After-Inv s t a) (omega (arith, h, a.limit, says.0))))

  -- With fuel for one frame more than the limit leaves, the loop ends on every session that is
  -- within its limit and says truly why it ended: with the error of a frame,
  -- or with an ended session within its limit, whose frames are numbered in order from the first
  -- one emitted and hold 16 codes each. It is assumed that a native call fills a `[u16; 16]`.
  pub loop-Completes :
      (fuel : ℕ) (s : Talker lib)
      → Inv s
      → s.max_frames < s.frames_emitted + fuel
      → Completes s (generate_loop lib fuel s)
  unfolding generate_loop
  loop-Completes zero s v h = omega (arith, h, v.emitted)
  loop-Completes (suc fuel) s v h =
      after_frame-Completes fuel s v (loop-Completes fuel) h (next_frame lib s).0 refl

  ends_by_limit :
      (t : Talker lib) {count limit : ℕ}
      → is_ended t ≡ true
      → Inv t
      → count ≡ t.frames_emitted
      → t.max_frames ≡ limit
      → is_codec_eos t.end_reason ≡ false
      → (t.end_reason ≡ some cancelled) ⊎ (count ≡ limit)
  ends_by_limit t e v n m h = ground (arith, v.at_limit)

  -- A fresh session's output, if no frame fails: `frame_count` is the number of frames handed out
  -- and within the limit, there are 16 codes for each, and unless the codec ended the session or it
  -- was cancelled it emitted its limit. It is assumed that a native call fills a `[u16; 16]`.
  pub generation_output-bounded :
      (s t : Talker lib) (frames : List StreamingCodecFrame)
      → Inv s
      → s.frames_emitted ≡ 0
      → generate_loop lib (suc s.max_frames) s ≡ some (ok (frames, t))
      → let o = generation_output frames t in
        (o.frame_count ≡ length frames)
        × (o.frame_count ≤ s.max_frames)
        × (length o.codec_codes ≡ o.frame_count * talker_codebooks)
        × (o.ended_by_eos ≡ false
            → (t.end_reason ≡ some cancelled) ⊎ (o.frame_count ≡ s.max_frames))
  unfolding generation_output
  generation_output-bounded s t frames v z h =
      let c = subst (Completes s) h (loop-Completes (suc s.max_frames) s v (omega (arith, z))) in
      let n : length (all_codes frames) / talker_codebooks ≡ length frames =
        omega (arith, c.1.1.1.1) in
      (
        n,
        omega (arith, n, c.1.0, c.1.1.0.0, c.1.1.0.1.emitted, z),
        omega (arith, n, c.1.1.1.1),
        λ e. ends_by_limit t c.0 c.1.1.0.1 (omega (arith, n, c.1.0, z)) c.1.1.0.0 e,
      )
