-- ===== src/Multipart/Parts.antt =====
-- native/qwen3-tts-http-bench/src/runner.rs: the audio parts, and the loop over all parts.
use qwen3_tts_native.Base.{
  ℕ, zero, suc, ◌+◌, ◌*◌, Bool, true, false, not, ◌&&◌, ◌||◌, List, [], ◌∷◌, ◌++◌, length, Option,
  none, some, is_some, Result, ok, err, ◌>>=◌, ◌>>◌, ensure, ok_or, u64, ltb, ◌==◌, ◌!=◌,
  if◌then◌else◌,
}
use qwen3_tts_native.Multipart.Headers.{get}
use qwen3_tts_native.Multipart.Reader.{next_part}
use qwen3_tts_native.Multipart.Reading.{MultipartReader, Part}
use qwen3_tts_native.Text.{codes, max_u64, parse_u64, to_ascii_lowercase}
use qwen3_tts_native.Wav.Bytes.{same}
use qwen3_tts_native.Multipart.Receiver.{
  JsonEvent, NativeStreamState, PacketRecord, ReceiveError, bad_header, bad_json, discontinuous,
  empty_payload, handle_json_event, incomplete, media_type_is, missing_header, multipart_error,
  no_content_type, out_of_fuel, outside_interval, unsupported_type,
  validate_native_audio_content_type,
}

-- `Part::header` lowers the name.
abbrev pub part_header : Part → List ℕ → Option (List ℕ)
part_header part name = get part.headers (to_ascii_lowercase name)

unfoldable pub part_u64 : Part → List ℕ → Result ReceiveError ℕ
part_u64 part name = do
  text ← ok_or (part_header part name) missing_header
  ok_or (parse_u64 text) bad_header

-- `str::parse::<bool>`.
abbrev pub parse_bool : List ℕ → Option Bool
parse_bool text =
    if same text (codes "true")
    then some true
    else if same text (codes "false")
    then some false
    else none

unfoldable pub part_bool : Part → List ℕ → Result ReceiveError Bool
part_bool part name = do
  text ← ok_or (part_header part name) missing_header
  ok_or (parse_bool text) bad_header

-- The numbers in a part's headers.
pub record AudioHeaders : Type 0 where
  pub sequence : ℕ
  pub first_codec_frame : ℕ
  pub first_sample : ℕ
  pub sample_count : ℕ
  pub codec_frames : ℕ
  pub is_final : Bool

unfoldable pub audio_headers_of : Part → Result ReceiveError AudioHeaders
audio_headers_of part = do
  sequence ← part_u64 part (codes "x-sequence")
  first_codec_frame ← part_u64 part (codes "x-first-codec-frame")
  first_sample ← part_u64 part (codes "x-first-sample")
  sample_count ← part_u64 part (codes "x-sample-count")
  codec_frames ← part_u64 part (codes "x-codec-frames")
  is_final ← part_bool part (codes "x-final")
  ok record {
    sequence = sequence;
    first_codec_frame = first_codec_frame;
    first_sample = first_sample;
    sample_count = sample_count;
    codec_frames = codec_frames;
    is_final = is_final;
  }

abbrev pub or_first : Option ℕ → ℕ → Option ℕ
or_first none b = some b
or_first (some a) b = some a

abbrev pub is_discontinuous : AudioHeaders → Part → NativeStreamState → Bool
is_discontinuous h part s =
    h.sequence != s.expected_sequence
    || h.first_sample != s.expected_sample
    || h.first_codec_frame != s.expected_codec_frame
    || h.sample_count == 0
    || h.codec_frames == 0
    || ltb max_u64 (h.sample_count * 2)
    || h.sample_count * 2 != length part.payload

abbrev pub packet_record : ℕ → AudioHeaders → Part → NativeStreamState → PacketRecord
packet_record arrival h part s = record {
  sequence = h.sequence;
  arrival = arrival;
  previous_arrival = s.previous_audio_at;
  payload_bytes = length part.payload;
  payload = part.payload;
  byte_offset = s.byte_offset;
  first_codec_frame = h.first_codec_frame;
  first_sample = h.first_sample;
  sample_count = h.sample_count;
  codec_frames = h.codec_frames;
  is_first = h.sequence == 0;
  is_final = h.is_final;
}

abbrev pub state_after : ℕ → AudioHeaders → Part → NativeStreamState → NativeStreamState
state_after arrival h part s = record s {
  expected_sequence = u64 (s.expected_sequence + 1);
  expected_sample = u64 (s.expected_sample + h.sample_count);
  expected_codec_frame = u64 (s.expected_codec_frame + h.codec_frames);
  byte_offset = u64 (s.byte_offset + length part.payload);
  first_audio_at = or_first s.first_audio_at arrival;
  previous_audio_at = some arrival;
  final_seen = h.is_final;
  audio = s.audio ++ part.payload;
}

unfoldable pub take_packet :
    ℕ
    → AudioHeaders
    → Part
    → NativeStreamState
    → Result ReceiveError (PacketRecord × NativeStreamState)
take_packet arrival h part s =
    if is_discontinuous h part s
    then err discontinuous
    else ok (packet_record arrival h part s, state_after arrival h part s)

unfoldable pub handle_audio_part :
    Part → NativeStreamState → Result ReceiveError (PacketRecord × NativeStreamState)
handle_audio_part part s = do
  ensure (s.start_seen && not s.end_seen && not s.final_seen) outside_interval
  arrival ← ok_or part.first_payload_at empty_payload
  h ← audio_headers_of part
  take_packet arrival h part s

unfoldable pub validate_complete : NativeStreamState → Result ReceiveError (Unit {0})
validate_complete s =
    ensure (s.start_seen && s.end_seen && s.final_seen && is_some s.first_audio_at) incomplete

-- The packets so far and the state.
abbrev pub Received : Type 0
Received = List PacketRecord × NativeStreamState

module _ (from_slice : List ℕ → Option JsonEvent) where
  unfoldable pub handle_json : Part → Received → Result ReceiveError Received
  handle_json part (packets, s) = do
    event ← ok_or (from_slice part.payload) bad_json
    t ← handle_json_event event s
    ok (packets, t)

  unfoldable pub handle_audio : List ℕ → Part → Received → Result ReceiveError Received
  handle_audio content_type part (packets, s) = do
    validate_native_audio_content_type content_type
    (p, t) ← handle_audio_part part s
    ok (packets ++ p ∷ [], t)

  unfoldable pub handle_typed : List ℕ → Part → Received → Result ReceiveError Received
  handle_typed content_type part received =
      if media_type_is content_type (codes "application/json")
      then handle_json part received
      else if media_type_is content_type (codes "audio/pcm")
      then handle_audio content_type part received
      else err unsupported_type

  unfoldable pub handle_part : Part → Received → Result ReceiveError Received
  handle_part part received = do
    content_type ← ok_or (part_header part (codes "content-type")) no_content_type
    handle_typed content_type part received

  -- The loop over the parts, on fuel for their number and one round more.
  unfoldable pub receive_parts : ℕ → MultipartReader → Received → Result ReceiveError Received
  receive_parts zero r received = err out_of_fuel
  receive_parts (suc fuel) r received = elim (next_part r).0 [
    | err e ↦ err (multipart_error e)
    | ok none ↦ validate_complete received.1 >>= λ t. ok received
    | ok (some part) ↦ handle_part part received >>= receive_parts fuel (next_part r).1
  ]
