-- ===== src/Native/Prompt/Modes.antt =====
-- prompt.rs: what the two text modes have in common, and where the slices lie.
use qwen3_tts_native.Base.{
  ℕ, ◌+◌, ◌-◌, ◌≡◌, refl, ◌∙◌, ap, sym, false, ◌&&◌, List, [], ◌∷◌, ◌++◌, map, length, take, get_or,
  length-append, append_assoc, take-append, drop-append, inl, inr, Option, none, some, ok, leb, ltb,
  arith, Bool-cases,
}
use qwen3_tts_native.Native.Prompt.{
  TextSource, token, tts_bos, tts_eos, tts_pad, EmbeddingStep, VoiceDesignPrompt, TextMode,
  streaming, non_streaming, TalkerConfig, language_id, codec_prefix, text_step, paired_step,
  prefix_steps, slice_ids, shared_steps, finish_prompt, from_token_ids,
}

-- The texts that are not padding.
abbrev pub heard : List TextSource → List TextSource
heard [] = []
heard (tts_pad ∷ ts) = heard ts
heard (token t ∷ ts) = token t ∷ heard ts
heard (tts_bos ∷ ts) = tts_bos ∷ heard ts
heard (tts_eos ∷ ts) = tts_eos ∷ heard ts

abbrev some_text : Option TextSource → List TextSource
some_text none = []
some_text (some t) = t ∷ []

abbrev pub texts : List EmbeddingStep → List TextSource
texts [] = []
texts (s ∷ ss) = some_text s.text ++ texts ss

-- What the talker hears of a prompt: the prefill, then a text for each frame.
unfoldable pub spoken : VoiceDesignPrompt → List TextSource
spoken p = heard (texts p.prefill ++ p.trailing_text)

heard-append : (xs ys : List TextSource) → heard (xs ++ ys) ≡ heard xs ++ heard ys
heard-append [] ys = refl
heard-append (tts_pad ∷ xs) ys = heard-append xs ys
heard-append (token t ∷ xs) ys = ap (◌∷◌ (token t)) (heard-append xs ys)
heard-append (tts_bos ∷ xs) ys = ap (◌∷◌ tts_bos) (heard-append xs ys)
heard-append (tts_eos ∷ xs) ys = ap (◌∷◌ tts_eos) (heard-append xs ys)

texts-append : (xs ys : List EmbeddingStep) → texts (xs ++ ys) ≡ texts xs ++ texts ys
texts-append [] ys = refl
texts-append (x ∷ xs) ys =
    ap (λ l. some_text x.text ++ l) (texts-append xs ys)
    ∙ sym (append_assoc (some_text x.text) (texts xs) (texts ys))

texts-text_step : (ts : List ℕ) → texts (map text_step ts) ≡ map token ts
texts-text_step [] = refl
texts-text_step (t ∷ ts) = ap (◌∷◌ (token t)) (texts-text_step ts)

texts-paired : (c : ℕ) (ts : List ℕ) → texts (map (λ t. paired_step (token t) c) ts) ≡ map token ts
texts-paired c [] = refl
texts-paired c (t ∷ ts) = ap (◌∷◌ (token t)) (texts-paired c ts)

heard-tokens : (ts : List ℕ) → heard (map token ts) ≡ map token ts
heard-tokens [] = refl
heard-tokens (t ∷ ts) = ap (◌∷◌ (token t)) (heard-tokens ts)

-- All but the last step of the prefix are padding, and the last begins the text.
heard-prefix :
    (c : TalkerConfig) (id : Option ℕ)
    → let codecs = codec_prefix c id in
      heard (texts (prefix_steps (length codecs - 1) 0 (take (length codecs - 1) codecs)))
      ≡ tts_bos ∷ []
unfolding codec_prefix
heard-prefix c none = refl
heard-prefix c (some id) = refl

heard-shared :
    (c : TalkerConfig) (id : Option ℕ) (instruction : List ℕ) (r s t : ℕ) (rest : List ℕ)
    → heard (texts (shared_steps instruction (r ∷ s ∷ t ∷ rest) (codec_prefix c id)))
      ≡ map token instruction ++ (token r ∷ token s ∷ token t ∷ tts_bos ∷ [])
unfolding shared_steps
heard-shared c id instruction r s t rest =
    let tail =
      prefix_steps (length (codec_prefix c id) - 1) 0
        (take (length (codec_prefix c id) - 1) (codec_prefix c id)) in
    rw
      (
        texts-append (map text_step instruction) (text_step r ∷ text_step s ∷ text_step t ∷ tail),
        heard-append (texts (map text_step instruction)) (token r ∷ token s ∷ token t ∷ texts tail),
        texts-text_step instruction,
        heard-tokens instruction,
      )
      (ap (λ l. map token instruction ++ (token r ∷ token s ∷ token t ∷ l)) (heard-prefix c id))

-- A slice between two other parts.
slice_ids-middle :
    (front text tail : List ℕ) (first last : ℕ)
    → length front ≡ first
    → first + length text ≡ last
    → slice_ids (front ++ (text ++ tail)) first last ≡ some text
unfolding slice_ids
slice_ids-middle front text tail first last e f =
    elim (Bool-cases (leb first last && leb last (length (front ++ (text ++ tail))))) [
      | inl b ↦
          rw
            (
              b,
              drop-append first front (text ++ tail) e,
              take-append (last - first) text tail (omega (arith, f)),
            )
            refl
      | inr b ↦
          absurd
            (ground (arith, b, e, f, length-append front (text ++ tail), length-append text tail))
    ]

module _ (c : TalkerConfig) (id : Option ℕ) (instruction : List ℕ) (r s t x : ℕ) where
  -- What is heard first, whatever follows.
  heard-more :
      (rest : List ℕ) (more : List EmbeddingStep) (trailing : List TextSource)
      → let shared = shared_steps instruction (r ∷ s ∷ t ∷ rest) (codec_prefix c id) in
        heard (texts (shared ++ more) ++ trailing)
        ≡ map token instruction
          ++ (token r ∷ token s ∷ token t ∷ tts_bos ∷ heard (texts more ++ trailing))
  heard-more rest more trailing =
      let shared = shared_steps instruction (r ∷ s ∷ t ∷ rest) (codec_prefix c id) in
      rw
        (
          texts-append shared more,
          append_assoc (texts shared) (texts more) trailing,
          heard-append (texts shared) (texts more ++ trailing),
          heard-shared c id instruction r s t rest,
        )
        (append_assoc (map token instruction) (token r ∷ token s ∷ token t ∷ tts_bos ∷ [])
          (heard (texts more ++ trailing)))

  module _ (text tail : List ℕ) (five : length tail ≡ 5) where
    abbrev pub assistant : List ℕ
    assistant = r ∷ s ∷ t ∷ x ∷ (text ++ tail)

    abbrev said : List TextSource
    said =
        map token instruction
        ++ (token r ∷ token s ∷ token t ∷ tts_bos ∷ token x ∷ (map token text ++ tts_eos ∷ []))

    long : ltb (length assistant) 8 ≡ false
    long = ground (arith, five, length-append text tail)

    measure : length assistant - 5 ≡ 4 + length text
    measure = omega (arith, five, length-append text tail)

    heard-text : heard (map token text ++ tts_eos ∷ []) ≡ map token text ++ tts_eos ∷ []
    heard-text =
        heard-append (map token text) (tts_eos ∷ [])
        ∙ ap (λ l. l ++ tts_eos ∷ []) (heard-tokens text)

    streaming-said :
        (p : VoiceDesignPrompt) × (finish_prompt c streaming instruction assistant
            (codec_prefix c id)
          ≡ some p)
        × (spoken p ≡ said)
    unfolding finish_prompt spoken
    streaming-said =
        let step =
          paired_step (token x) (get_or (codec_prefix c id) (length (codec_prefix c id) - 1) 0) in
        (
          record {
            instruction_ids = instruction;
            assistant_ids = assistant;
            prefill = shared_steps instruction assistant (codec_prefix c id) ++ step ∷ [];
            trailing_text = map token text ++ tts_eos ∷ [];
          },
          rw
              (
                slice_ids-middle (r ∷ s ∷ t ∷ x ∷ []) text tail 4 (length assistant - 5) refl
                    (sym measure),
                finish_prompt,
              )
              refl,
          heard-more (x ∷ (text ++ tail)) (step ∷ []) (map token text ++ tts_eos ∷ [])
              ∙ ap
                  (λ l.
                    map token instruction ++ (token r ∷ token s ∷ token t ∷ tts_bos ∷ token x ∷ l))
                  heard-text,
        )

    heard-paired :
        heard (
          texts (
            map (λ k. paired_step (token k) c.codec_pad_id) text
            ++ paired_step tts_eos c.codec_pad_id ∷ paired_step tts_pad c.codec_bos_id ∷ [])
          ++ tts_pad ∷ [])
        ≡ map token text ++ tts_eos ∷ []
    heard-paired =
        rw
          (
            texts-append (map (λ k. paired_step (token k) c.codec_pad_id) text)
                (paired_step tts_eos c.codec_pad_id ∷ paired_step tts_pad c.codec_bos_id ∷ []),
            texts-paired c.codec_pad_id text,
            append_assoc (map token text) (tts_eos ∷ tts_pad ∷ []) (tts_pad ∷ []),
            heard-append (map token text) (tts_eos ∷ tts_pad ∷ tts_pad ∷ []),
            heard-tokens text,
          )
          refl

    non_streaming-said :
        (p : VoiceDesignPrompt) × (finish_prompt c non_streaming instruction assistant
            (codec_prefix c id)
          ≡ some p)
        × (spoken p ≡ said)
    unfolding finish_prompt spoken
    non_streaming-said =
        let more =
          map (λ k. paired_step (token k) c.codec_pad_id) (x ∷ text)
          ++ paired_step tts_eos c.codec_pad_id ∷ paired_step tts_pad c.codec_bos_id ∷ [] in
        (
          record {
            instruction_ids = instruction;
            assistant_ids = assistant;
            prefill = shared_steps instruction assistant (codec_prefix c id) ++ more;
            trailing_text = tts_pad ∷ [];
          },
          rw
              (
                slice_ids-middle (r ∷ s ∷ t ∷ []) (x ∷ text) tail 3 (length assistant - 5) refl
                    (omega (arith, measure)),
                finish_prompt,
              )
              refl,
          heard-more (x ∷ (text ++ tail)) more (tts_pad ∷ [])
              ∙ ap
                  (λ l.
                    map token instruction ++ (token r ∷ token s ∷ token t ∷ tts_bos ∷ token x ∷ l))
                  heard-paired,
        )

    -- For a known language and a tokenized text of one token or more, framed by three tokens before
    -- and five after, `from_token_ids` succeeds in both modes, and in both the talker hears the same:
    -- the instruction, the three tokens, the begin, the text in order, and the end, padding aside.
    pub from_token_ids-spoken :
        (language : List ℕ) (mode : TextMode)
        → language_id c language ≡ ok id
        → (p : VoiceDesignPrompt) × (from_token_ids c instruction assistant language mode
            ≡ some (ok p))
          × (spoken p ≡ said)
    unfolding from_token_ids
    from_token_ids-spoken language streaming known =
        let (p, e, f) = streaming-said in (p, rw (long, known, e, from_token_ids) refl, f)
    from_token_ids-spoken language non_streaming known =
        let (p, e, f) = non_streaming-said in (p, rw (long, known, e, from_token_ids) refl, f)
