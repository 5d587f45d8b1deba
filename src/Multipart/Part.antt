-- ===== src/Multipart/Part.antt =====
-- native/qwen3-tts-server/src/multipart.rs: the parts of a streamed response, and the packets of
-- engine.rs that it prints. A text is its bytes. What `serde_json` makes of an event
-- is a parameter.
use qwen3_tts_native.Base.{ℕ, Bool, true, false, List, [], ◌∷◌, ◌++◌, length, if◌then◌else◌}
use qwen3_tts_native.Runtime.Types.{RequestMetrics}
use qwen3_tts_native.Text.{codes, to_string}

pub record EnginePacket : Type 0 where
  pub sequence : ℕ
  pub first_codec_frame : ℕ
  pub first_sample : ℕ
  pub codec_frames : ℕ
  pub sample_count : ℕ
  pub sample_rate : ℕ
  pub channels : ℕ
  pub is_final : Bool
  pub pcm_s16le : List ℕ

pub data EngineFinishReason : Type 0 where
  stop length_limit : EngineFinishReason

pub record AudioDescription : Type 0 where
  pub encoding : List ℕ
  pub sample_rate_hz : ℕ
  pub channels : ℕ
  pub samples_per_codec_frame : ℕ

pub record StartEvent : Type 0 where
  pub event_type : List ℕ
  pub request_id : ℕ
  pub model : List ℕ
  pub seed : ℕ
  pub audio : AudioDescription

-- Its metrics are those of the runtime, field by field.
pub record EndEvent : Type 0 where
  pub event_type : List ℕ
  pub request_id : ℕ
  pub finish_reason : EngineFinishReason
  pub metrics : RequestMetrics

abbrev pub line_end : List ℕ
line_end = 13 ∷ 10 ∷ []

-- A header's name, `: `, its value and the line's end.
abbrev pub header_line : List ℕ × List ℕ → List ℕ
header_line (name, value) = name ++ 58 ∷ 32 ∷ value ++ line_end

abbrev pub header_lines : List (List ℕ × List ℕ) → List ℕ
header_lines [] = []
header_lines (h ∷ hs) = header_line h ++ header_lines hs

-- `--` and the boundary.
abbrev pub delimiter : List ℕ → List ℕ
delimiter boundary = 45 ∷ 45 ∷ boundary

abbrev pub closing_delimiter : List ℕ → List ℕ
closing_delimiter boundary = delimiter boundary ++ 45 ∷ 45 ∷ []

-- The headers that every part has.
abbrev pub own_headers : List ℕ → List ℕ → List (List ℕ × List ℕ)
own_headers content_type payload =
    (codes "Content-Type", content_type) ∷ (codes "Content-Length", to_string (length payload)) ∷ []

unfoldable pub part : List ℕ → List ℕ → List (List ℕ × List ℕ) → List ℕ → Bool → List ℕ
part boundary content_type headers payload close =
    delimiter boundary
    ++ (line_end
        ++ (header_lines (own_headers content_type payload)
            ++ (header_lines headers
                ++ (line_end
                    ++ (payload
                        ++ (line_end
                            ++ (if close then closing_delimiter boundary ++ line_end else [])))))))

abbrev pub audio_type : List ℕ
audio_type = codes "audio/pcm;rate=24000;channels=1;format=s16le"

abbrev pub json_type : List ℕ
json_type = codes "application/json"

-- `bool::to_string`.
abbrev pub show_bool : Bool → List ℕ
show_bool true = codes "true"
show_bool false = codes "false"

abbrev pub audio_headers : EnginePacket → List (List ℕ × List ℕ)
audio_headers p =
    (codes "X-Sequence", to_string p.sequence)
    ∷ (codes "X-First-Codec-Frame", to_string p.first_codec_frame)
    ∷ (codes "X-First-Sample", to_string p.first_sample)
    ∷ (codes "X-Sample-Count", to_string p.sample_count)
    ∷ (codes "X-Codec-Frames", to_string p.codec_frames)
    ∷ (codes "X-Final", show_bool p.is_final)
    ∷ []

unfoldable pub audio_part : List ℕ → EnginePacket → List ℕ
audio_part boundary p = part boundary audio_type (audio_headers p) p.pcm_s16le false

abbrev pub start_event : ℕ → ℕ → StartEvent
start_event request_id seed = record {
  event_type = codes "start";
  request_id = request_id;
  model = codes "qwen3-tts-1.7b-voice-design";
  seed = seed;
  audio = record {
    encoding = codes "pcm_s16le";
    sample_rate_hz = 24000;
    channels = 1;
    samples_per_codec_frame = 1920;
  };
}

abbrev pub end_event : ℕ → EngineFinishReason → RequestMetrics → EndEvent
end_event request_id reason metrics = record {
  event_type = codes "end";
  request_id = request_id;
  finish_reason = reason;
  metrics = metrics;
}

-- `serde_json::to_vec` on the events.
pub record Json : Type 0 where
  pub start_text : StartEvent → List ℕ
  pub end_text : EndEvent → List ℕ

module _ (json : Json) where
  unfoldable pub start_part : List ℕ → ℕ → ℕ → List ℕ
  start_part boundary request_id seed =
      part boundary json_type [] (json.start_text (start_event request_id seed)) false

  unfoldable pub end_part : List ℕ → ℕ → EngineFinishReason → RequestMetrics → List ℕ
  end_part boundary request_id reason metrics =
      part boundary json_type [] (json.end_text (end_event request_id reason metrics)) true

-- `payload` is the text of the error's value.
unfoldable pub error_part : List ℕ → List ℕ → List ℕ
error_part boundary payload = part boundary json_type [] payload true
