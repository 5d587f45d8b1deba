-- ===== src/Runtime/Examples/Request.antt =====
-- Concrete runs of the theorems on one request's record, its queue and the validations.
use qwen3_tts_native.Base.{ℕ, ◌+◌, ◌≡◌, ◌≤◌, ◌↔◌, refl, List, [], ◌∷◌, ok, arith}
use qwen3_tts_native.Runtime.Types.{
  generating, draining, completed, AudioPacketDescriptor, engine_config_default,
  generation_config_default,
}
use qwen3_tts_native.Runtime.Request.{
  RequestRecord, new_record, transition, record_packet, record_all, advance,
}
use qwen3_tts_native.Runtime.Request.Phases.{transitions, remaining, transitions_bounded}
use qwen3_tts_native.Runtime.Request.Contiguity.{
  StandsAt, Contiguous, frames, record_all-Contiguous,
}
use qwen3_tts_native.Runtime.Request.Queue.{Op, pushes, pops, Run, IsFifo, run, run-IsFifo}
use qwen3_tts_native.Runtime.Scheduler.Validate.{
  validate_config, validate_generation, IsValidConfig, IsValidGeneration, validate_config_iff,
  validate_generation_iff,
}
use qwen3_tts_native.Runtime.Examples.{floats, descriptor}

abbrev fresh : RequestRecord
fresh = record {
  id = 7;
  phase = generating;
  next_packet_sequence = 0;
  next_codec_frame = 0;
  next_sample = 0;
  metrics = (new_record 7).metrics;
}

abbrev ended : RequestRecord
ended = record fresh { phase = completed }

finishes : transitions fresh (draining ∷ completed ∷ []) ≡ ok ended
unfolding transitions transition
finishes = refl

transitions_bounded_example : 2 + remaining completed ≤ remaining generating
transitions_bounded_example = transitions_bounded (draining ∷ completed ∷ []) fresh ended finishes

abbrev two : List AudioPacketDescriptor
two = descriptor 0 0 ∷ descriptor 1 1 ∷ []

abbrev after_two : RequestRecord
after_two = advance floats (advance floats fresh (descriptor 0 0)) (descriptor 1 1)

two_recorded : record_all floats 4 fresh two ≡ ok after_two
unfolding record_all record_packet
two_recorded = refl

record_all-Contiguous_example : Contiguous 0 0 two × StandsAt after_two (0 + 2) (0 + frames two)
record_all-Contiguous_example =
    record_all-Contiguous floats 4 two fresh after_two 0 0 (omega arith)
      (record { sequence = refl; frame = refl; sample = refl }) two_recorded

abbrev empty : Run ℕ
empty = record { queue = record { capacity = 1; values = [] }; accepted = []; popped = [] }

abbrev operations : List (Op ℕ)
operations = pushes 3 ∷ pushes 4 ∷ pops ∷ pops ∷ pushes 5 ∷ []

run-IsFifo_example : IsFifo (run empty operations)
run-IsFifo_example = run-IsFifo empty operations (record { order = refl; bounded = omega arith })

validate_config_iff_example :
    (validate_config engine_config_default ≡ ok tt) ↔ IsValidConfig engine_config_default
validate_config_iff_example = validate_config_iff engine_config_default

validate_generation_iff_example :
    (validate_generation generation_config_default ≡ ok tt)
    ↔ IsValidGeneration generation_config_default
validate_generation_iff_example = validate_generation_iff generation_config_default (record {
  temperature = omega arith;
  predictor_temperature = omega arith;
  top_p = omega arith;
  predictor_top_p = omega arith;
  repetition_penalty = omega arith;
})
