-- ===== src/Multipart/Examples.antt =====
-- A response with one packet, sent, cut in two and received; a part with an empty payload.
use qwen3_tts_native.Base.{
  ℕ, ◌<◌, ◌≡◌, refl, ap, true, false, List, [], ◌∷◌, append-nil, length, take, drop, replicate,
  Option, none, some, ok, ◌↔◌, All, map, ◌==◌, if◌then◌else◌, arith,
}
use qwen3_tts_native.Http.Buffer.{TimedBytes}
use qwen3_tts_native.Multipart.Arrivals.{arriving}
use qwen3_tts_native.Multipart.Completion.{IsSmooth, run_worker-completed_iff}
use qwen3_tts_native.Multipart.EndToEnd.{IsFaithful, Receives}
use qwen3_tts_native.Multipart.OnePart.{IsBoundary}
use qwen3_tts_native.Multipart.Part.{
  EnginePacket, EngineFinishReason, stop, length_limit, Json, start_part, part,
}
use qwen3_tts_native.Multipart.Reading.{new_reader}
use qwen3_tts_native.Multipart.Receiver.{JsonEvent, new_state}
use qwen3_tts_native.Multipart.Parts.{receive_parts}
use qwen3_tts_native.Multipart.Received.{reason_text}
use qwen3_tts_native.Multipart.Sender.{
  ErrorReport, StreamTurn, packet, would_block, end_of_stream, new_worker, run_worker, worker_turn,
  handle_poll, handle_packet, accept_packet, advance_continuity, validate_engine_packet,
  send_packet, handle_end_of_stream, finish_continuity, response, completed,
}
use qwen3_tts_native.Multipart.Sent.{AreContiguous, AreFinal, total_samples}
use qwen3_tts_native.Multipart.Transfer.{HasShortTexts, receive_parts-response}
use qwen3_tts_native.Runtime.Types.{RequestMetrics, metrics_default}
use qwen3_tts_native.Text.{codes}

abbrev boundary : List ℕ
boundary = codes "qwen3tts-7"

boundary-IsBoundary : IsBoundary boundary
boundary-IsBoundary = record { line = omega arith; short = omega arith }

-- A stand-in for `serde_json` that writes a tag and the fields that the client reads.
abbrev reason_code : EngineFinishReason → ℕ
reason_code stop = 0
reason_code length_limit = 1

abbrev reason_of : ℕ → EngineFinishReason
reason_of code = if code == 0 then stop else length_limit

abbrev json : Json
json = record {
  start_text = λ e. 0 ∷ e.request_id ∷ [];
  end_text = λ e.
      1
      ∷ e.request_id
      ∷ reason_code e.finish_reason
      ∷ e.metrics.emitted_packets
      ∷ e.metrics.emitted_samples
      ∷ [];
}

abbrev uuid_text : ℕ → List ℕ
uuid_text id = id ∷ []

abbrev from_slice : List ℕ → Option JsonEvent
from_slice (tag ∷ id ∷ []) = some record {
  event_type = codes "start";
  request_id = some (uuid_text id);
  finish_reason = none;
  metrics = none;
  audio = some record {
    encoding = codes "pcm_s16le";
    sample_rate_hz = 24000;
    channels = 1;
    samples_per_codec_frame = 1920;
  };
}
from_slice (tag ∷ id ∷ reason ∷ packets ∷ samples ∷ []) = some record {
  event_type = codes "end";
  request_id = some (uuid_text id);
  finish_reason = some (reason_text (reason_of reason));
  metrics =
      some
        record { is_object = true; emitted_packets = some packets; emitted_samples = some samples };
  audio = none;
}
from_slice text = none

json-IsFaithful : IsFaithful json from_slice uuid_text
json-IsFaithful = record {
  starts = λ request_id seed. refl;
  ends = λ request_id reason m.
      elim reason
        as (λ r.
          from_slice (1 ∷ request_id ∷ reason_code r ∷ m.emitted_packets ∷ m.emitted_samples ∷ [])
          ≡ some record {
            event_type = codes "end";
            request_id = some (uuid_text request_id);
            finish_reason = some (reason_text r);
            metrics = some record {
              is_object = true;
              emitted_packets = some m.emitted_packets;
              emitted_samples = some m.emitted_samples;
            };
            audio = none;
          }) [ stop ↦ refl | length_limit ↦ refl ];
}

json-HasShortTexts : HasShortTexts json
json-HasShortTexts = record {
  start_short = λ request_id seed. omega arith;
  end_short = λ request_id reason m. omega arith;
}

abbrev one_frame : EnginePacket
one_frame = record {
  sequence = 0;
  first_codec_frame = 0;
  first_sample = 0;
  codec_frames = 1;
  sample_count = 1920;
  sample_rate = 24000;
  channels = 1;
  is_final = true;
  pcm_s16le = replicate 3840 5;
}

abbrev metrics : RequestMetrics
metrics = record metrics_default { emitted_packets = 1; emitted_samples = 1920 }

abbrev turns : List StreamTurn
turns =
    record {
      is_cancelled = false;
      poll = ok would_block;
      is_sent = true;
      retires = true;
      metrics = metrics;
    }
    ∷ record {
      is_cancelled = false;
      poll = ok (packet one_frame);
      is_sent = true;
      retires = true;
      metrics = metrics;
    }
    ∷ record {
      is_cancelled = false;
      poll = ok (end_of_stream stop);
      is_sent = true;
      retires = true;
      metrics = metrics;
    }
    ∷ []

abbrev error_text : ErrorReport → ℕ → List ℕ
error_text report id = []

turns_complete :
    (run_worker json error_text turns (new_worker 7 boundary)).completion ≡ completed 1920
unfolding run_worker worker_turn handle_poll handle_packet accept_packet advance_continuity
    validate_engine_packet send_packet handle_end_of_stream finish_continuity
turns_complete = refl

abbrev sent : List ℕ
sent = response json error_text 7 boundary 3 turns

-- Its first byte arrives alone.
abbrev cut : List TimedBytes
cut = record { bytes = take 1 sent; arrived = 4 } ∷ record { bytes = drop 1 sent; arrived = 9 } ∷ []

cut_positive : All (λ s. 0 < length s.bytes) cut
unfolding response start_part part
cut_positive = omega arith

cut_whole : arriving cut ≡ sent
unfolding response start_part part
cut_whole = ap (λ l. 45 ∷ l) (append-nil (drop 1 sent))

receive_parts-response_example :
    Receives
      (one_frame ∷ [])
      stop
      ([], new_state (uuid_text 7))
      (receive_parts from_slice 6 (new_reader (map ok cut) boundary) ([], new_state (uuid_text 7)))
    × AreContiguous 0 0 0 (one_frame ∷ [])
    × AreFinal false false (one_frame ∷ [])
    × ◌≡◌ {A = ℕ} 1920 (total_samples (one_frame ∷ []))
receive_parts-response_example =
    receive_parts-response json error_text from_slice uuid_text json-IsFaithful json-HasShortTexts 7
      3 boundary boundary-IsBoundary turns 1920 cut 6 stop metrics turns_complete refl refl refl
      cut_positive cut_whole (omega arith)

turns-IsSmooth : All IsSmooth turns
turns-IsSmooth = (
  record { not_cancelled = refl; sent = refl; retires = refl; no_error = λ e h. cc h },
  (
    record { not_cancelled = refl; sent = refl; retires = refl; no_error = λ e h. cc h },
    (record { not_cancelled = refl; sent = refl; retires = refl; no_error = λ e h. cc h }, tt),
  ),
)

run_worker-completed_iff_example :
    ((run_worker json error_text turns (new_worker 7 boundary)).completion ≡ completed 1920) ↔ (
      AreContiguous 0 0 0 (one_frame ∷ [])
      × AreFinal false false (one_frame ∷ [])
      × (◌≡◌ {A = ℕ} 1920 (total_samples (one_frame ∷ []))))
run_worker-completed_iff_example =
    run_worker-completed_iff json error_text turns 7 1920 boundary turns-IsSmooth refl
