-- ===== src/Runtime/Scheduler/Validate.antt =====
-- scheduler.rs: `validate_config` and `validate_generation`, and what they accept.
use qwen3_tts_native.Base.{
  ℕ, ◌/◌, ◌%◌, ◌^◌, ◌<◌, ◌≤◌, ◌≡◌, ◌↔◌, Bool, false, not, ◌&&◌, ◌||◌, List, [], ◌∷◌, Result, ok,
  err, arith, ltb, leb, ◌==◌, ◌!=◌, if◌then◌else◌,
}
use qwen3_tts_native.Runtime.Types.{
  EngineConfig, GenerationConfig, engine_config_size, generation_config_size,
  max_concurrent_requests, max_packet_frames, max_pcm_ring_slots, max_text_bytes,
  max_instruct_bytes, max_codec_frames,
}

-- `SchedulerError::InvalidConfiguration`, by its message.
pub data ConfigError : Type 0 where
  config_size_mismatch flags_or_reserved no_requests too_many_requests no_packet_frames :
      ConfigError
  too_many_packet_frames no_ring_slots too_many_ring_slots bad_text_limit : ConfigError
  bad_instruct_limit : ConfigError

-- `SchedulerError::InvalidGeneration`, by its message.
pub data GenerationError : Type 0 where
  generation_size_mismatch reserved_not_zero no_codec_frames too_many_codec_frames : GenerationError
  bad_temperature bad_predictor_temperature bad_top_p bad_predictor_top_p : GenerationError
  bad_repetition_penalty bad_sampling_flag bad_top_k : GenerationError

abbrev any_set : List ℕ → Bool
any_set [] = false
any_set (x ∷ xs) = (x != 0) || any_set xs

unfoldable pub validate_config : EngineConfig → Result ConfigError (Unit {0})
validate_config c =
    if c.struct_size != engine_config_size
    then err config_size_mismatch
    else if (c.flags != 0) || any_set c.reserved
    then err flags_or_reserved
    else if c.max_concurrent_requests == 0
    then err no_requests
    else if ltb max_concurrent_requests c.max_concurrent_requests
    then err too_many_requests
    else if c.packet_frames == 0
    then err no_packet_frames
    else if ltb max_packet_frames c.packet_frames
    then err too_many_packet_frames
    else if c.pcm_ring_slots == 0
    then err no_ring_slots
    else if ltb max_pcm_ring_slots c.pcm_ring_slots
    then err too_many_ring_slots
    else if (c.max_text_bytes == 0) || ltb max_text_bytes c.max_text_bytes
    then err bad_text_limit
    else if ltb max_instruct_bytes c.max_instruct_bytes
    then err bad_instruct_limit
    else ok tt

-- `f32` tests on IEEE 754 binary32 patterns: sign, eight bits of exponent, 23 bits of fraction.
abbrev exponent : ℕ → ℕ
exponent b = b / 2 ^ 23 % 2 ^ 8

unfoldable pub is_finite : ℕ → Bool
is_finite b = exponent b != 255

unfoldable pub is_nan : ℕ → Bool
is_nan b = (exponent b == 255) && (b % 2 ^ 23 != 0)

-- `x <= 0.0`.
unfoldable pub le_zero : ℕ → Bool
unfolding is_nan
le_zero b = not (is_nan b) && (leb (2 ^ 31) b || (b == 0))

-- `(0.0..=1.0).contains(&x)`.
unfoldable pub in_unit : ℕ → Bool
unfolding is_nan
in_unit b =
    not (is_nan b) && (ltb b (2 ^ 31) || (b == 2 ^ 31)) && (leb (2 ^ 31) b || leb b 0x3f80_0000)

-- `x == 0.0`, for both zeros.
unfoldable pub eq_zero : ℕ → Bool
eq_zero b = (b == 0) || (b == 2 ^ 31)

-- `!x.is_finite() || x <= 0.0`.
unfoldable pub not_positive : ℕ → Bool
unfolding is_finite le_zero
not_positive b = not (is_finite b) || le_zero b

-- `!x.is_finite() || !(0.0..=1.0).contains(&x) || x == 0.0`.
unfoldable pub not_probability : ℕ → Bool
unfolding is_finite in_unit eq_zero
not_probability b = not (is_finite b) || not (in_unit b) || eq_zero b

unfoldable pub validate_generation : GenerationConfig → Result GenerationError (Unit {0})
validate_generation g =
    if g.struct_size != generation_config_size
    then err generation_size_mismatch
    else if any_set g.reserved
    then err reserved_not_zero
    else if g.max_codec_frames == 0
    then err no_codec_frames
    else if ltb max_codec_frames g.max_codec_frames
    then err too_many_codec_frames
    else if not_positive g.temperature
    then err bad_temperature
    else if not_positive g.predictor_temperature
    then err bad_predictor_temperature
    else if not_probability g.top_p
    then err bad_top_p
    else if not_probability g.predictor_top_p
    then err bad_predictor_top_p
    else if not_positive g.repetition_penalty
    then err bad_repetition_penalty
    else if ltb 1 g.do_sample || ltb 1 g.predictor_do_sample
    then err bad_sampling_flag
    else if ltb 3072 g.top_k || ltb 2048 g.predictor_top_k
    then err bad_top_k
    else ok tt

-- The limits that the rest of the runtime relies on.
pub record IsValidConfig (c : EngineConfig) : Type 0 where
  pub size : c.struct_size ≡ engine_config_size
  pub no_flags : c.flags ≡ 0
  pub reserved : any_set c.reserved ≡ false
  pub requests : (0 < c.max_concurrent_requests) × (c.max_concurrent_requests ≤ 6)
  pub packet : (0 < c.packet_frames) × (c.packet_frames ≤ 4)
  pub ring : (0 < c.pcm_ring_slots) × (c.pcm_ring_slots ≤ 64)
  pub text : (0 < c.max_text_bytes) × (c.max_text_bytes ≤ 1048576)
  pub instruct : c.max_instruct_bytes ≤ 262144

-- Patterns of the numbers greater than zero and finite, and of those greater than zero up to one.
abbrev pub IsPositive : ℕ → Type 0
IsPositive b = (0 < b) × (b < 0x7f80_0000)

abbrev pub IsProbability : ℕ → Type 0
IsProbability b = (0 < b) × (b ≤ 0x3f80_0000)

pub record IsValidGeneration (g : GenerationConfig) : Type 0 where
  pub size : g.struct_size ≡ generation_config_size
  pub reserved : any_set g.reserved ≡ false
  pub frames : (0 < g.max_codec_frames) × (g.max_codec_frames ≤ 8192)
  pub temperature : IsPositive g.temperature
  pub predictor_temperature : IsPositive g.predictor_temperature
  pub top_p : IsProbability g.top_p
  pub predictor_top_p : IsProbability g.predictor_top_p
  pub repetition_penalty : IsPositive g.repetition_penalty
  pub flags : (g.do_sample ≤ 1) × (g.predictor_do_sample ≤ 1)
  pub top_k : (g.top_k ≤ 3072) × (g.predictor_top_k ≤ 2048)

-- The float fields hold 32-bit patterns.
pub record HasPatterns (g : GenerationConfig) : Type 0 where
  pub temperature : g.temperature < 2 ^ 32
  pub predictor_temperature : g.predictor_temperature < 2 ^ 32
  pub top_p : g.top_p < 2 ^ 32
  pub predictor_top_p : g.predictor_top_p < 2 ^ 32
  pub repetition_penalty : g.repetition_penalty < 2 ^ 32

-- `validate_config` accepts a configuration exactly if every limit holds.
pub validate_config_iff : (c : EngineConfig) → (validate_config c ≡ ok tt) ↔ IsValidConfig c
unfolding validate_config
validate_config_iff c = (λ h. ground arith, λ v. ground arith)

not_positive_iff : (b : ℕ) → b < 2 ^ 32 → (not_positive b ≡ false) ↔ IsPositive b
unfolding not_positive
not_positive_iff b h = (λ e. ground arith, λ e. ground arith)

not_probability_iff : (b : ℕ) → b < 2 ^ 32 → (not_probability b ≡ false) ↔ IsProbability b
unfolding not_probability
not_probability_iff b h = (λ e. ground arith, λ e. ground arith)

-- For float fields that are 32-bit patterns, `validate_generation` accepts exactly the positive
-- finite temperatures and penalty, the probabilities in (0, 1], 1 to 8192 frames, flags of 0 or 1,
-- the vocabulary limits of top-k, the right size and no reserved word.
pub validate_generation_iff :
    (g : GenerationConfig) → HasPatterns g → (validate_generation g ≡ ok tt) ↔ IsValidGeneration g
unfolding validate_generation
validate_generation_iff g p = (
  λ h. ground (
    arith,
    (not_positive_iff g.temperature p.temperature).0,
    (not_positive_iff g.predictor_temperature p.predictor_temperature).0,
    (not_probability_iff g.top_p p.top_p).0,
    (not_probability_iff g.predictor_top_p p.predictor_top_p).0,
    (not_positive_iff g.repetition_penalty p.repetition_penalty).0,
  ),
  λ v. ground (
    arith,
    (not_positive_iff g.temperature p.temperature).1 v.temperature,
    (not_positive_iff g.predictor_temperature p.predictor_temperature).1 v.predictor_temperature,
    (not_probability_iff g.top_p p.top_p).1 v.top_p,
    (not_probability_iff g.predictor_top_p p.predictor_top_p).1 v.predictor_top_p,
    (not_positive_iff g.repetition_penalty p.repetition_penalty).1 v.repetition_penalty,
  ),
)
