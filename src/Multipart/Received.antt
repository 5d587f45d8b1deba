-- ===== src/Multipart/Received.antt =====
-- native/qwen3-tts-http-bench/src/runner.rs: `NativeStreamState` on the parts that the server sends.
use qwen3_tts_native.Base.{
  ℕ, ◌+◌, ◌≤◌, ◌<◌, ◌≡◌, refl, Bool, true, false, List, [], ◌∷◌, ◌++◌, Option, none, some, is_some,
  Result, ok, ok_or, arith,
}
use qwen3_tts_native.Multipart.Contents.{audio_content}
use qwen3_tts_native.Multipart.Part.{
  EnginePacket, EngineFinishReason, stop, length_limit, audio_type, json_type, show_bool,
}
use qwen3_tts_native.Multipart.Reading.{Part}
use qwen3_tts_native.Multipart.Receiver.{
  JsonEvent, PacketRecord, NativeStreamState, media_type_is, content_type_parameter, find_parameter,
  validate_native_audio_content_type, bad_header, ReceiveError,
}
use qwen3_tts_native.Multipart.Parts.{
  Received, AudioHeaders, part_header, parse_bool, part_u64, part_bool, audio_headers_of,
  is_discontinuous, packet_record, state_after, take_packet, handle_audio_part, handle_audio,
  handle_typed, handle_part, or_first,
}
use qwen3_tts_native.Multipart.RoundTrip.{Content, read_headers}
use qwen3_tts_native.Multipart.Sent.{StandsAt}
use qwen3_tts_native.Text.{
  codes, max_u64, to_string, parse_u64, parse_u64-to_string, split_char, split_loop_at, trim,
  trim_start, is_whitespace, split_once, parse_digits,
}

-- The packet that a record describes.
abbrev pub packet_of : PacketRecord → EnginePacket
packet_of r = record {
  sequence = r.sequence;
  first_codec_frame = r.first_codec_frame;
  first_sample = r.first_sample;
  codec_frames = r.codec_frames;
  sample_count = r.sample_count;
  sample_rate = 24000;
  channels = 1;
  is_final = r.is_final;
  pcm_s16le = r.payload;
}

abbrev pub reason_text : EngineFinishReason → List ℕ
reason_text stop = codes "stop"
reason_text length_limit = codes "length"

abbrev pub pcm_of : List EnginePacket → List ℕ
pcm_of [] = []
pcm_of (p ∷ ps) = p.pcm_s16le ++ pcm_of ps

audio_is_not_json : media_type_is audio_type (codes "application/json") ≡ false
unfolding media_type_is split_char split_loop_at trim trim_start is_whitespace
audio_is_not_json = refl

audio_is_audio : media_type_is audio_type (codes "audio/pcm") ≡ true
unfolding media_type_is split_char split_loop_at trim trim_start is_whitespace
audio_is_audio = refl

pub json_is_json : media_type_is json_type (codes "application/json") ≡ true
unfolding media_type_is split_char split_loop_at trim trim_start is_whitespace
json_is_json = refl

audio_type_lem : validate_native_audio_content_type audio_type ≡ ok tt
unfolding validate_native_audio_content_type content_type_parameter find_parameter split_char
    split_loop_at trim trim_start is_whitespace split_once parse_u64 parse_digits
audio_type_lem = refl

-- The part that the client reads for a content.
abbrev pub part_of : Content → Option ℕ → Part
part_of c time = record { headers = read_headers c; payload = c.payload; first_payload_at = time }

part_u64_lem :
    (part : Part) (name : List ℕ) (n : ℕ)
    → part_header part name ≡ some (to_string n)
    → n ≤ max_u64
    → part_u64 part name ≡ ok n
unfolding part_u64
part_u64_lem part name n h l = rw (h, part_u64) (rw (parse_u64-to_string n l) refl)

shown_bool : (b : Bool) → ok_or (parse_bool (show_bool b)) bad_header ≡ ok b
shown_bool true = refl
shown_bool false = refl

part_bool_lem :
    (p : EnginePacket) (time : Option ℕ)
    → part_bool (part_of (audio_content p) time) (codes "x-final") ≡ ok p.is_final
unfolding part_bool
part_bool_lem p time = shown_bool p.is_final

abbrev headers_of : EnginePacket → AudioHeaders
headers_of p = record {
  sequence = p.sequence;
  first_codec_frame = p.first_codec_frame;
  first_sample = p.first_sample;
  sample_count = p.sample_count;
  codec_frames = p.codec_frames;
  is_final = p.is_final;
}

audio_headers_lem :
    (sequence frame sample : ℕ) (p : EnginePacket) (time : Option ℕ)
    → StandsAt sequence frame sample p
    → audio_headers_of (part_of (audio_content p) time) ≡ ok (headers_of p)
unfolding audio_headers_of
audio_headers_lem sequence frame sample p time v =
    let part = part_of (audio_content p) time in
    rw
      (
        part_u64_lem part (codes "x-sequence") p.sequence refl
            (omega (arith, v.sequence_is, v.next_sequence)),
        part_u64_lem part (codes "x-first-codec-frame") p.first_codec_frame refl
            (omega (arith, v.frame_is, v.next_frame)),
        part_u64_lem part (codes "x-first-sample") p.first_sample refl
            (omega (arith, v.sample_is, v.next_sample)),
        part_u64_lem part (codes "x-sample-count") p.sample_count refl
            (omega (arith, v.next_sample)),
        part_u64_lem part (codes "x-codec-frames") p.codec_frames refl
            (omega (arith, v.next_frame)),
        part_bool_lem p time,
        audio_headers_of,
      )
      refl

-- The client waits for the packet at this place.
pub record Listens (id : List ℕ) (sequence frame sample : ℕ) (s : NativeStreamState) : Type 0 where
  pub started : s.start_seen ≡ true
  pub not_ended : s.end_seen ≡ false
  pub sequence_is : s.expected_sequence ≡ sequence
  pub frame_is : s.expected_codec_frame ≡ frame
  pub sample_is : s.expected_sample ≡ sample
  pub id_is : s.server_request_id ≡ id
  pub timed : 0 < sequence → is_some s.first_audio_at ≡ true

-- A packet's part is taken: its record is the packet.
pub record Takes (id : List ℕ) (sequence frame sample : ℕ) (p : EnginePacket)
    (records : List PacketRecord) (s : NativeStreamState) (out : Result ReceiveError Received)
    : Type 0 where
  pub taken : PacketRecord
  pub state : NativeStreamState
  pub result : out ≡ ok (records ++ taken ∷ [], state)
  pub packet_is : packet_of taken ≡ p
  pub listens : Listens id (sequence + 1) (frame + p.codec_frames) (sample + p.sample_count) state
  pub final_is : state.final_seen ≡ p.is_final
  pub audio_is : state.audio ≡ s.audio ++ p.pcm_s16le

or_first-is_some : (before : Option ℕ) (at : ℕ) → is_some (or_first before at) ≡ true
or_first-is_some none at = refl
or_first-is_some (some a) at = refl

module _ (id : List ℕ) (sequence frame sample : ℕ) (p : EnginePacket) (records : List PacketRecord)
    (s : NativeStreamState) (v : StandsAt sequence frame sample p)
    (l : Listens id sequence frame sample s) (open_still : s.final_seen ≡ false) (at : ℕ) where
  abbrev part : Part
  part = part_of (audio_content p) (some at)

  continuous : is_discontinuous (headers_of p) part s ≡ false
  continuous = ground (arith, v, l)

  next-Listens :
      Listens id
        (sequence + 1)
        (frame + p.codec_frames)
        (sample + p.sample_count)
        (state_after at (headers_of p) part s)
  next-Listens = record {
    started = l.started;
    not_ended = l.not_ended;
    sequence_is = omega (arith, l.sequence_is, v.next_sequence);
    frame_is = omega (arith, l.frame_is, v.next_frame);
    sample_is = omega (arith, l.sample_is, v.next_sample);
    id_is = l.id_is;
    timed = λ n. or_first-is_some s.first_audio_at at;
  }

  record_is : packet_of (packet_record at (headers_of p) part s) ≡ p
  record_is = ground (arith, v.rate, v.mono)

  handle_audio_part_lem :
      handle_audio_part part s
      ≡ ok (packet_record at (headers_of p) part s, state_after at (headers_of p) part s)
  unfolding handle_audio_part take_packet
  handle_audio_part_lem =
      rw
        (
          l.started,
          l.not_ended,
          open_still,
          audio_headers_lem sequence frame sample p (some at) v,
          handle_audio_part,
        )
        (rw (continuous, take_packet) refl)

  pub handle_part-Takes :
      (from_slice : List ℕ → Option JsonEvent)
      → Takes id sequence frame sample p records s (handle_part from_slice part (records, s))
  unfolding handle_part handle_typed handle_audio
  handle_part-Takes from_slice = record {
    taken = packet_record at (headers_of p) part s;
    state = state_after at (headers_of p) part s;
    result =
        rw
          (
            audio_is_not_json, audio_is_audio, audio_type_lem, handle_audio_part_lem, handle_part,
            handle_typed, handle_audio,
          )
          refl;
    packet_is = record_is;
    listens = next-Listens;
    final_is = refl;
    audio_is = refl;
  }
