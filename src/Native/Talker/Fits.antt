-- ===== src/Native/Talker/Fits.antt =====
-- native_talker.rs: a session that `start_prompt` gives has room for what it may generate.
use qwen3_tts_native.Base.{
  ℕ, zero, suc, ◌+◌, ◌*◌, ◌^◌, ◌%◌, ◌<◌, ◌≤◌, ◌≡◌, ◌≢◌, refl, List, [], ◌∷◌, length, Option, none,
  some, Option-cases, ok, err, Result-cases, get_elem?, inl, inr, arith,
}
use qwen3_tts_native.Native.Prompt.{EmbeddingStep, VoiceDesignPrompt}
use qwen3_tts_native.Native.Pool.{
  session_capacity, PooledSession, keep, swap_remove, SessionPool, Answers,
  smallest_adequate_session_index, reset_session, create_session, take_pooled, acquire_session,
}
use qwen3_tts_native.Native.Pool.Capacity.{session_capacity-bounded, smallest-Least}
use qwen3_tts_native.Native.Talker.{
  StreamingCodecFrame, NativeTalkerSession, TalkerLibrary, TalkerModel, talker_codebooks,
}
use qwen3_tts_native.Native.Talker.Session.{Talker}
use qwen3_tts_native.Native.Talker.Frames.{Inv}
use qwen3_tts_native.Native.Talker.Generate.{
  Generated, FillsFrames, GenerationOutput, generation_output, generation_output-bounded,
  generate_loop, loop-Completes, Completes,
}
use qwen3_tts_native.Native.Talker.Start.{
  GenerationSettings, StartLibrary, Plan, native_prompt_steps, plan, prefill_session,
  acquire_and_prefill, start_prompt, generate_started, output_of,
}

-- A session that the library creates is as large as it was asked to be.
pub record Honours (answers : Answers) : Type 0 where
  pub size :
      (capacity : ℕ) (entry : PooledSession)
      → answers.create capacity ≡ some (0, entry)
      → capacity ≤ entry.max_sequence_length

keep-some :
    (x : PooledSession) (o : Option (PooledSession × List PooledSession)) (y : PooledSession)
    (rest : List PooledSession)
    → keep x o ≡ some (y, rest)
    → (zs : List PooledSession) × (o ≡ some (y, zs))
keep-some x none y rest h = cc
keep-some x (some (z, zs)) y rest h = (zs, ground (arith, h))

-- What `swap_remove` takes out is what stood there.
swap_remove-get_elem? :
    (xs : List PooledSession) (i : ℕ) (y : PooledSession) (rest : List PooledSession)
    → swap_remove xs i ≡ some (y, rest)
    → get_elem? xs i ≡ some y
swap_remove-get_elem? [] i y rest h = cc
swap_remove-get_elem? (x ∷ xs) zero y rest h = ground (arith, h)
swap_remove-get_elem? (x ∷ xs) (suc i) y rest h =
    let (zs, q) = keep-some x (swap_remove xs i) y rest h in swap_remove-get_elem? xs i y zs q

native_prompt_steps-length :
    (m : TalkerModel) (steps : List EmbeddingStep) (ids : List (ℕ × ℕ))
    → native_prompt_steps m steps ≡ ok ids
    → length ids ≡ length steps
unfolding native_prompt_steps
native_prompt_steps-length m [] ids h = ground arith
native_prompt_steps-length m (step ∷ steps) ids h =
    elim (Result-cases (native_prompt_steps m steps)) [
      | inl (rest, q) ↦ ground (arith, h, q, native_prompt_steps-length m steps rest q)
      | inr (e, q) ↦ ground (arith, h, q)
    ]

plan-capacity :
    (m : TalkerModel) (prompt : VoiceDesignPrompt) (settings : GenerationSettings) (p : Plan)
    → plan m prompt settings ≡ ok p
    → (0 < settings.max_frames)
      × (settings.max_sequence_length < 2 ^ 31)
      × (native_prompt_steps m prompt.prefill ≡ ok p.ids)
      × (session_capacity (length p.ids) settings.max_frames settings.max_sequence_length
          ≡ ok p.capacity)
unfolding plan
plan-capacity m prompt settings p h = ground arith

taken-entry :
    (p : SessionPool) (o : Option (PooledSession × List PooledSession)) (status : Option ℕ)
    (entry : PooledSession)
    → (take_pooled p o status).0 ≡ ok entry
    → (rest : List PooledSession) × (o ≡ some (entry, rest))
unfolding take_pooled reset_session
taken-entry p none status entry h = ground (arith, h)
taken-entry p (some (x, rest)) status entry h = (rest, ground (arith, h))

created-entry :
    (o : Option (ℕ × PooledSession)) (entry : PooledSession)
    → create_session o ≡ ok entry
    → o ≡ some (0, entry)
unfolding create_session
created-entry o entry h = ground (arith, h)

acquire_session-size :
    (p : SessionPool) (capacity : ℕ) (answers : Answers) (entry : PooledSession)
    → Honours answers
    → (acquire_session p capacity answers).0 ≡ ok entry
    → capacity ≤ entry.max_sequence_length
unfolding acquire_session
acquire_session-size p capacity answers entry honest =
    elim (Option-cases (smallest_adequate_session_index p.pool capacity)) [
      | inl q ↦
          rw (q, acquire_session)
            (λ h. honest.size capacity entry (created-entry (answers.create capacity) entry h))
      | inr (i, q) ↦
          rw (q, acquire_session)
            (λ h.
              let (rest, o) = taken-entry p (swap_remove p.pool i) answers.reset_status entry h in
              let (least, at, enough, others) = (smallest-Least p.pool capacity).1 i q in
              ground (arith, swap_remove-get_elem? p.pool i entry rest o, at, enough))
    ]

output_of-some :
    {H : Type 0} (g : Generated H) (o : GenerationOutput)
    → output_of g ≡ some (ok o)
    → (frames : List StreamingCodecFrame) × (t : NativeTalkerSession H) × (g
        ≡ some (ok (frames, t)))
      × (generation_output frames t ≡ o)
unfolding output_of
output_of-some none o h = cc
output_of-some (some (err e)) o h = cc
output_of-some (some (ok (frames, t))) o h = (frames, t, refl, ground (arith, h))

output_of-none :
    {H : Type 0} (s : NativeTalkerSession H) (g : Generated H) → Completes s g → output_of g ≢ none
unfolding output_of
output_of-none s none c h = c
output_of-none s (some (err e)) c h = cc
output_of-none s (some (ok (frames, t))) c h = cc

module _ (lib : TalkerLibrary) (more : StartLibrary lib) where
  -- A session that was started: fresh, and with room for the prompt and all its frames.
  record Started (prompt : VoiceDesignPrompt) (settings : GenerationSettings) (s : Talker lib)
      (entry : PooledSession) : Type 0 where
    pub valid : Inv s
    pub fresh : s.frames_emitted ≡ 0
    pub limit : s.max_frames ≡ settings.max_frames
    pub some_frames : 0 < s.max_frames
    pub room : length prompt.prefill + s.max_frames ≤ entry.max_sequence_length

  prefill_session-Started :
      (m : TalkerModel) (eos : ℕ) (prompt : VoiceDesignPrompt) (settings : GenerationSettings)
      (p : Plan) (entry : PooledSession) (pool : SessionPool) (s : Talker lib) (got : PooledSession)
      → 0 < settings.max_frames
      → length prompt.prefill + settings.max_frames ≤ entry.max_sequence_length
      → (prefill_session lib more m eos prompt settings p entry pool).0 ≡ ok (s, got)
      → Started prompt settings s got
  unfolding prefill_session
  prefill_session-Started m eos prompt settings p entry pool s got n r h = record {
    valid = record {
      emitted = ground (arith, h);
      at_limit = ground (arith, h);
      at_eos = ground (arith, h);
    };
    fresh = ground (arith, h);
    limit = ground (arith, h);
    some_frames = ground (arith, n, h);
    room = ground (arith, r, h);
  }

  acquire_and_prefill-Started :
      (m : TalkerModel) (eos : ℕ) (prompt : VoiceDesignPrompt) (settings : GenerationSettings)
      (p : Plan) (answers : Answers) (pool : SessionPool) (s : Talker lib) (entry : PooledSession)
      → Honours answers
      → 0 < settings.max_frames
      → length prompt.prefill + settings.max_frames ≤ p.capacity
      → (acquire_and_prefill lib more m eos prompt settings p answers pool).0 ≡ ok (s, entry)
      → Started prompt settings s entry
  unfolding acquire_and_prefill
  acquire_and_prefill-Started m eos prompt settings p answers pool s entry honest n r =
      let a = acquire_session pool p.capacity answers in
      elim (Result-cases a.0) [
        | inr (e, q) ↦ rw (q, acquire_and_prefill) (λ h. cc)
        | inl (got, q) ↦
            rw (q, acquire_and_prefill)
              (λ h.
                let size = acquire_session-size pool p.capacity answers got honest q in
                prefill_session-Started m eos prompt settings p got a.1 s entry n
                  (ground (arith, r, size)) h)
      ]

  start_prompt-Started :
      (m : TalkerModel) (eos_id : ℕ) (prompt : VoiceDesignPrompt) (settings : GenerationSettings)
      (answers : Answers) (pool : SessionPool) (s : Talker lib) (entry : PooledSession)
      → Honours answers
      → length prompt.prefill < 2 ^ 64
      → settings.max_frames < 2 ^ 64
      → (start_prompt lib more m eos_id prompt settings answers pool).0 ≡ ok (s, entry)
      → Started prompt settings s entry
  unfolding start_prompt
  start_prompt-Started m eos_id prompt settings answers pool s entry honest a b =
      elim (Result-cases (plan m prompt settings)) [
        | inr (e, q) ↦ rw (q, start_prompt) (λ h. cc)
        | inl (p, q) ↦
            rw (q, start_prompt)
              (λ h.
                let (n, l, ids, c) = plan-capacity m prompt settings p q in
                let same = native_prompt_steps-length m prompt.prefill p.ids ids in
                let (fits, bounds) =
                  session_capacity-bounded (length p.ids) settings.max_frames
                    settings.max_sequence_length (omega (arith, same, a)) b l in
                acquire_and_prefill-Started m (eos_id % 2 ^ 16) prompt settings p answers pool s
                  entry honest n (omega (arith, same, (bounds p.capacity c).0)) h)
      ]

  -- `generate_prompt` as a whole, on a session that `start_prompt` gave: it ends, and an output has
  -- at most `max_frames` frames of 16 codes each, and the prompt's tokens with these frames are no
  -- more than the positions of the native session that was taken, pooled or new. It is assumed that
  -- a native call fills a `[u16; 16]`, that a created session is as large as asked for, and that
  -- the lengths are those of a `usize`.
  pub generate_prompt-fits :
      (m : TalkerModel) (eos_id : ℕ) (prompt : VoiceDesignPrompt) (settings : GenerationSettings)
      (answers : Answers) (pool : SessionPool) (s : Talker lib) (entry : PooledSession)
      → FillsFrames lib
      → Honours answers
      → length prompt.prefill < 2 ^ 64
      → settings.max_frames < 2 ^ 64
      → (start_prompt lib more m eos_id prompt settings answers pool).0 ≡ ok (s, entry)
      → (generate_started lib s ≢ none)
        × ((o : GenerationOutput)
            → generate_started lib s ≡ some (ok o)
            → (o.frame_count ≤ settings.max_frames)
              × (length o.codec_codes ≡ o.frame_count * talker_codebooks)
              × (length prompt.prefill + o.frame_count ≤ entry.max_sequence_length))
  unfolding generate_started
  generate_prompt-fits m eos_id prompt settings answers pool s entry fills honest a b h =
      let st = start_prompt-Started m eos_id prompt settings answers pool s entry honest a b h in
      let complete =
        loop-Completes lib fills (suc s.max_frames) s st.valid (omega (arith, st.fresh)) in
      (
        output_of-none s (generate_loop lib (suc s.max_frames) s) complete,
        λ o e.
            let (frames, t, loop, same) =
              output_of-some (generate_loop lib (suc s.max_frames) s) o e in
            let (n, l, codes, reason) =
              generation_output-bounded lib fills s t frames st.valid st.fresh loop in
            ground (arith, same, l, codes, st.limit, st.room),
      )
