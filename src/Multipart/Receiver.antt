-- ===== src/Multipart/Receiver.antt =====
-- native/qwen3-tts-http-bench/src/runner.rs: `parse_native_multipart` with `NativeStreamState`. What
-- `serde_json` makes of a payload is a parameter; the digest is that of `audio`, the bytes hashed so
-- far, and a packet's times are those of its arrival.
use qwen3_tts_native.Base.{
  ℕ, Bool, true, false, not, ◌&&◌, ◌||◌, List, [], ◌∷◌, reverse, drop, Option, none, some, Result,
  ok, err, ◌>>=◌, ◌>>◌, ensure, ok_or, ltb, ◌==◌, if◌then◌else◌,
}
use qwen3_tts_native.Multipart.Reading.{MultipartError}
use qwen3_tts_native.Text.{codes, parse_u64, split_char, split_once, trim, to_ascii_lowercase}
use qwen3_tts_native.Wav.Bytes.{same}

pub data ReceiveError : Type 0 where
  multipart_error : MultipartError → ReceiveError
  no_content_type unsupported_type bad_audio_type : ReceiveError
  bad_json no_request_id other_request_id bad_start_audio no_finish_reason bad_finish_reason :
      ReceiveError
  no_metrics other_metrics out_of_order : ReceiveError
  outside_interval empty_payload missing_header bad_header discontinuous incomplete : ReceiveError
  -- The loop over the parts has used up its fuel.
  out_of_fuel : ReceiveError

pub record JsonAudioDescription : Type 0 where
  pub encoding : List ℕ
  pub sample_rate_hz : ℕ
  pub channels : ℕ
  pub samples_per_codec_frame : ℕ

-- What is read of the metrics, if they are an object: two of its members as `u64`.
pub record JsonMetrics : Type 0 where
  pub is_object : Bool
  pub emitted_packets : Option ℕ
  pub emitted_samples : Option ℕ

pub record JsonEvent : Type 0 where
  pub event_type : List ℕ
  pub request_id : Option (List ℕ)
  pub finish_reason : Option (List ℕ)
  pub metrics : Option JsonMetrics
  pub audio : Option JsonAudioDescription

pub record PacketRecord : Type 0 where
  pub sequence : ℕ
  pub arrival : ℕ
  pub previous_arrival : Option ℕ
  pub payload_bytes : ℕ
  pub payload : List ℕ
  pub byte_offset : ℕ
  pub first_codec_frame : ℕ
  pub first_sample : ℕ
  pub sample_count : ℕ
  pub codec_frames : ℕ
  pub is_first : Bool
  pub is_final : Bool

pub record NativeStreamState : Type 0 where
  pub server_request_id : List ℕ
  pub expected_sequence : ℕ
  pub expected_sample : ℕ
  pub expected_codec_frame : ℕ
  pub byte_offset : ℕ
  pub first_audio_at : Option ℕ
  pub previous_audio_at : Option ℕ
  pub start_seen : Bool
  pub end_seen : Bool
  pub final_seen : Bool
  pub finish_reason : Option (List ℕ)
  pub end_metrics : Option JsonMetrics
  pub audio : List ℕ

abbrev pub new_state : List ℕ → NativeStreamState
new_state request_id = record {
  server_request_id = request_id;
  expected_sequence = 0;
  expected_sample = 0;
  expected_codec_frame = 0;
  byte_offset = 0;
  first_audio_at = none;
  previous_audio_at = none;
  start_seen = false;
  end_seen = false;
  final_seen = false;
  finish_reason = none;
  end_metrics = none;
  audio = [];
}

-- `eq_ignore_ascii_case`.
abbrev pub same_lowered : List ℕ → List ℕ → Bool
same_lowered a b = same (to_ascii_lowercase a) (to_ascii_lowercase b)

abbrev pub first_of : List (List ℕ) → Option (List ℕ)
first_of [] = none
first_of (x ∷ xs) = some x

unfoldable pub media_type_is : List ℕ → List ℕ → Bool
media_type_is value expected = elim (first_of (split_char 59 value)) [
  | none ↦ false
  | some m ↦ same_lowered (trim m) expected
]

abbrev pub strip_quotes : List ℕ → List ℕ
strip_quotes [] = []
strip_quotes (c ∷ cs) = let rest = strip_quotes cs in if c == 34 then rest else c ∷ cs

-- `trim_matches('"')`.
abbrev pub trim_quotes : List ℕ → List ℕ
trim_quotes text = reverse (strip_quotes (reverse (strip_quotes text)))

unfoldable pub find_parameter : List (List ℕ) → List ℕ → Option (List ℕ)
find_parameter [] expected = none
find_parameter (parameter ∷ rest) expected =
    let later = find_parameter rest expected in
    elim (split_once 61 (trim parameter)) [
      | none ↦ later
      | some (name, value) ↦
          if same_lowered (trim name) expected then some (trim_quotes (trim value)) else later
    ]

unfoldable pub content_type_parameter : List ℕ → List ℕ → Option (List ℕ)
content_type_parameter content_type expected =
    find_parameter (drop 1 (split_char 59 content_type)) expected

-- `and_then(|value| value.parse::<u64>().ok()) == Some(expected)`.
abbrev pub parses_to : Option (List ℕ) → ℕ → Bool
parses_to none expected = false
parses_to (some text) expected = elim (parse_u64 text) [ none ↦ false | some n ↦ n == expected ]

abbrev pub is_format : Option (List ℕ) → Bool
is_format none = false
is_format (some value) = same_lowered value (codes "s16le")

unfoldable pub validate_native_audio_content_type : List ℕ → Result ReceiveError (Unit {0})
validate_native_audio_content_type content_type =
    ensure
      (parses_to (content_type_parameter content_type (codes "rate")) 24000
        && parses_to (content_type_parameter content_type (codes "channels")) 1
        && is_format (content_type_parameter content_type (codes "format")))
      bad_audio_type

unfoldable pub validate_event_request_id : List ℕ → Option (List ℕ) → Result ReceiveError (Unit {0})
validate_event_request_id part_header none = err no_request_id
validate_event_request_id part_header (some event) =
    ensure (same part_header event) other_request_id

unfoldable pub validate_start_audio : Option JsonAudioDescription → Result ReceiveError (Unit {0})
validate_start_audio none = err bad_start_audio
validate_start_audio (some audio) =
    ensure
      (same audio.encoding (codes "pcm_s16le")
        && audio.sample_rate_hz == 24000
        && audio.channels == 1
        && audio.samples_per_codec_frame == 1920)
      bad_start_audio

unfoldable pub validate_native_finish_reason : List ℕ → Result ReceiveError (Unit {0})
validate_native_finish_reason reason =
    ensure (same reason (codes "stop") || same reason (codes "length")) bad_finish_reason

abbrev pub is_some_of : Option ℕ → ℕ → Bool
is_some_of none n = false
is_some_of (some m) n = m == n

unfoldable pub validate_end_metrics : Option JsonMetrics → ℕ → ℕ → Result ReceiveError (Unit {0})
validate_end_metrics none packets samples = err no_metrics
validate_end_metrics (some m) packets samples =
    if not m.is_object
    then err no_metrics
    else ensure (is_some_of m.emitted_packets packets && is_some_of m.emitted_samples samples)
        other_metrics

unfoldable pub handle_start : JsonEvent → NativeStreamState → Result ReceiveError NativeStreamState
handle_start event s = do validate_start_audio event.audio; ok (record s { start_seen = true })

unfoldable pub handle_end : JsonEvent → NativeStreamState → Result ReceiveError NativeStreamState
handle_end event s = do
  reason ← ok_or event.finish_reason no_finish_reason
  validate_native_finish_reason reason
  validate_end_metrics event.metrics s.expected_sequence s.expected_sample
  ok (record s { finish_reason = some reason; end_metrics = event.metrics; end_seen = true })

unfoldable pub dispatch_event :
    JsonEvent → NativeStreamState → Result ReceiveError NativeStreamState
dispatch_event event s =
    if same event.event_type (codes "start")
      && not s.start_seen
      && s.expected_sequence == 0
      && not s.end_seen
    then handle_start event s
    else if same event.event_type (codes "end")
        && s.start_seen
        && ltb 0 s.expected_sequence
        && not s.end_seen
    then handle_end event s
    else err out_of_order

unfoldable pub handle_json_event :
    JsonEvent → NativeStreamState → Result ReceiveError NativeStreamState
handle_json_event event s = do
  validate_event_request_id s.server_request_id event.request_id
  dispatch_event event s
