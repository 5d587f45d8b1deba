-- ===== src/Multipart/EndToEnd.antt =====
-- From `run_streaming_worker` (native/qwen3-tts-server/src/server.rs) to the records of
-- `parse_native_multipart` (native/qwen3-tts-http-bench/src/runner.rs).
use qwen3_tts_native.Base.{
  ℕ, zero, suc, ◌+◌, ◌≤◌, ◌<◌, ◌≡◌, refl, subst, sym, ap, ◌∙◌, Bool, true, List, [], ◌∷◌, ◌++◌,
  append_assoc, append-nil, map, length, Option, none, some, Result, ok, arith,
}
use mathlib.Core.List.{map-append}
use qwen3_tts_native.Multipart.Contents.{json_content, audio_content}
use qwen3_tts_native.Multipart.Part.{
  EnginePacket, EngineFinishReason, stop, length_limit, Json, start_event, end_event,
}
use qwen3_tts_native.Multipart.Reader.{next_part}
use qwen3_tts_native.Multipart.Reading.{MultipartReader, Part}
use qwen3_tts_native.Multipart.Receiver.{
  JsonEvent, PacketRecord, NativeStreamState, ReceiveError, handle_json_event, dispatch_event,
  handle_start, handle_end, validate_event_request_id, validate_start_audio,
  validate_native_finish_reason, validate_end_metrics, new_state,
}
use qwen3_tts_native.Multipart.Parts.{
  Received, handle_json, validate_complete, handle_typed, handle_part, receive_parts,
}
use qwen3_tts_native.Multipart.Received.{
  packet_of, reason_text, pcm_of, json_is_json, part_of, Listens, handle_part-Takes,
}
use qwen3_tts_native.Multipart.RoundTrip.{Gives}
use qwen3_tts_native.Multipart.Sent.{StandsAt, AreContiguous, AreFinal, total_samples}
use qwen3_tts_native.Runtime.Types.{RequestMetrics}
use qwen3_tts_native.Text.{codes, same_refl}
use qwen3_tts_native.Wav.Bytes.{same}

-- `serde_json` reads what it wrote: the client's event has the fields of the server's.
pub record IsFaithful (json : Json) (from_slice : List ℕ → Option JsonEvent)
    (uuid_text : ℕ → List ℕ) : Type 0 where
  pub starts :
      (request_id seed : ℕ)
      → from_slice (json.start_text (start_event request_id seed))
        ≡ some record {
          event_type = (start_event request_id seed).event_type;
          request_id = some (uuid_text request_id);
          finish_reason = none;
          metrics = none;
          audio = some record {
            encoding = (start_event request_id seed).audio.encoding;
            sample_rate_hz = (start_event request_id seed).audio.sample_rate_hz;
            channels = (start_event request_id seed).audio.channels;
            samples_per_codec_frame = (start_event request_id seed).audio.samples_per_codec_frame;
          };
        }
  pub ends :
      (request_id : ℕ) (reason : EngineFinishReason) (m : RequestMetrics)
      → from_slice (json.end_text (end_event request_id reason m))
        ≡ some record {
          event_type = (end_event request_id reason m).event_type;
          request_id = some (uuid_text request_id);
          finish_reason = some (reason_text reason);
          metrics = some record {
            is_object = true;
            emitted_packets = some m.emitted_packets;
            emitted_samples = some m.emitted_samples;
          };
          audio = none;
        }

-- The client has taken these packets and the end.
pub record Receives (packets : List EnginePacket) (reason : EngineFinishReason) (before : Received)
    (out : Result ReceiveError Received) : Type 0 where
  pub received : Received
  pub result : out ≡ ok received
  pub packets_are : map packet_of received.0 ≡ map packet_of before.0 ++ packets
  pub audio_is : received.1.audio ≡ before.1.audio ++ pcm_of packets
  pub reason_is : received.1.finish_reason ≡ some (reason_text reason)

module _ (json : Json) (from_slice : List ℕ → Option JsonEvent) (uuid_text : ℕ → List ℕ)
    (faithful : IsFaithful json from_slice uuid_text) (request_id : ℕ) where
  abbrev pub started : NativeStreamState
  started = record (new_state (uuid_text request_id)) { start_seen = true }

  pub start_lem :
      (seed : ℕ) (time : Option ℕ)
      → handle_part from_slice
          (part_of (json_content (json.start_text (start_event request_id seed))) time)
          ([], new_state (uuid_text request_id))
        ≡ ok ([], started)
  unfolding handle_part handle_typed handle_json handle_json_event dispatch_event handle_start
      validate_event_request_id validate_start_audio
  start_lem seed time =
      rw (json_is_json, handle_part, handle_typed)
        (rw (faithful.starts request_id seed, handle_json)
          (rw (same_refl (uuid_text request_id), handle_json_event, validate_event_request_id)
            refl))

  module _ (reason : EngineFinishReason) (m : RequestMetrics) where
    abbrev ended : NativeStreamState → NativeStreamState
    ended s = record s {
      finish_reason = some (reason_text reason);
      end_metrics = some record {
        is_object = true;
        emitted_packets = some m.emitted_packets;
        emitted_samples = some m.emitted_samples;
      };
      end_seen = true;
    }

    abbrev event : JsonEvent
    event = record {
      event_type = codes "end";
      request_id = some (uuid_text request_id);
      finish_reason = some (reason_text reason);
      metrics = some record {
        is_object = true;
        emitted_packets = some m.emitted_packets;
        emitted_samples = some m.emitted_samples;
      };
      audio = none;
    }

    reason_lem : validate_native_finish_reason (reason_text reason) ≡ ok tt
    unfolding validate_native_finish_reason
    reason_lem = elim reason as (λ r. validate_native_finish_reason (reason_text r) ≡ ok tt) [
      | stop ↦ refl
      | length_limit ↦ refl
    ]

    handle_end_lem :
        (sequence frame sample : ℕ) (s : NativeStreamState)
        → Listens (uuid_text request_id) sequence frame sample s
        → m.emitted_packets ≡ sequence
        → m.emitted_samples ≡ sample
        → handle_end event s ≡ ok (ended s)
    unfolding handle_end validate_end_metrics
    handle_end_lem sequence frame sample s l e f =
        rw (reason_lem, handle_end) (ground (arith, l.sequence_is, l.sample_is, e, f))

    dispatch_lem :
        (sequence frame sample : ℕ) (s : NativeStreamState)
        → Listens (uuid_text request_id) sequence frame sample s
        → 0 < sequence
        → dispatch_event event s ≡ handle_end event s
    unfolding dispatch_event
    dispatch_lem sequence frame sample s l n =
        ground (arith, l.started, l.not_ended, l.sequence_is, n)

    end_lem :
        (sequence frame sample : ℕ) (s : NativeStreamState) (records : List PacketRecord)
        (time : Option ℕ)
        → Listens (uuid_text request_id) sequence frame sample s
        → 0 < sequence
        → m.emitted_packets ≡ sequence
        → m.emitted_samples ≡ sample
        → handle_part from_slice
            (part_of (json_content (json.end_text (end_event request_id reason m))) time)
            (records, s)
          ≡ ok (records, ended s)
    unfolding handle_part handle_typed handle_json handle_json_event validate_event_request_id
    end_lem sequence frame sample s records time l n e f =
        let d =
          dispatch_lem sequence frame sample s l n ∙ handle_end_lem sequence frame sample s l e f in
        let known : same s.server_request_id (uuid_text request_id) ≡ true =
          ap (λ i. same i (uuid_text request_id)) l.id_is ∙ same_refl (uuid_text request_id) in
        rw (json_is_json, handle_part, handle_typed)
          (rw (faithful.ends request_id reason m, handle_json)
            (rw (known, handle_json_event, validate_event_request_id) (rw d refl)))

    complete_lem :
        (sequence frame sample : ℕ) (s : NativeStreamState)
        → Listens (uuid_text request_id) sequence frame sample s
        → 0 < sequence
        → s.final_seen ≡ true
        → validate_complete (ended s) ≡ ok tt
    unfolding validate_complete
    complete_lem sequence frame sample s l n e = ground (arith, l.started, e, l.timed n)

    pub receive_parts-some :
        (fuel : ℕ) (r : MultipartReader) (received next : Received) {part : Part}
        → (next_part r).0 ≡ ok (some part)
        → handle_part from_slice part received ≡ ok next
        → receive_parts from_slice (suc fuel) r received
          ≡ receive_parts from_slice fuel (next_part r).1 next
    unfolding receive_parts
    receive_parts-some fuel r received next g h = rw (g, receive_parts) (rw h refl)

    receive_parts-none :
        (fuel : ℕ) (r : MultipartReader) (received : Received)
        → (next_part r).0 ≡ ok none
        → validate_complete received.1 ≡ ok tt
        → receive_parts from_slice (suc fuel) r received ≡ ok received
    unfolding receive_parts
    receive_parts-none fuel r received g h = rw (g, receive_parts) (rw h refl)

    pcm_positive :
        (sequence frame sample : ℕ) (p : EnginePacket)
        → StandsAt sequence frame sample p
        → 0 < length p.pcm_s16le
    pcm_positive sequence frame sample p v = omega (arith, v.some_frames, v.samples, v.bytes)

    -- The packets from here on, the end part and the end of the body are received.
    pub receive_parts-Receives :
        (packets : List EnginePacket) (sequence frame sample : ℕ) (saw_packet : Bool) (fuel : ℕ)
        (r : MultipartReader) (records : List PacketRecord) (s : NativeStreamState)
        → Listens (uuid_text request_id) sequence frame sample s
        → AreContiguous sequence frame sample packets
        → AreFinal saw_packet s.final_seen packets
        → (saw_packet ≡ true → 0 < sequence)
        → m.emitted_packets ≡ sequence + length packets
        → m.emitted_samples ≡ sample + total_samples packets
        → Gives
            (map audio_content packets
              ++ json_content (json.end_text (end_event request_id reason m)) ∷ [])
            r
        → length packets + 2 ≤ fuel
        → Receives packets reason (records, s) (receive_parts from_slice fuel r (records, s))
    unfolding receive_parts
    receive_parts-Receives [] sequence frame sample saw_packet (suc (suc fuel)) r records s l c
          (sp, sf) some_packet e f (time, g, noted, last) h =
        let positive = some_packet sp in
        let n = some_packet sp in
        let x =
          end_lem sequence frame sample s records time l n (omega (arith, e)) (omega (arith, f)) in
        record {
          received = (records, ended s);
          result =
              receive_parts-some (suc fuel) r (records, s) (records, ended s) g x
              ∙ receive_parts-none fuel (next_part r).1 (records, ended s) last
                  (complete_lem sequence frame sample s l n sf);
          packets_are = sym (append-nil (map packet_of records));
          audio_is = sym (append-nil s.audio);
          reason_is = refl;
        }
    receive_parts-Receives (p ∷ ps) sequence frame sample saw_packet (suc fuel) r records s l (v, c)
          (nf, final) some_packet e f (none, g, noted, gs) h =
        absurd (cc (noted (pcm_positive sequence frame sample p v)))
    receive_parts-Receives (p ∷ ps) sequence frame sample saw_packet (suc fuel) r records s l (v, c)
          (nf, final) some_packet e f (some at, g, noted, gs) h =
        let t =
          handle_part-Takes (uuid_text request_id) sequence frame sample p records s v l nf at
            from_slice in
        let ih =
          receive_parts-Receives ps (sequence + 1) (frame + p.codec_frames)
            (sample + p.sample_count) true fuel (next_part r).1 (records ++ t.taken ∷ []) t.state
            t.listens c (subst (λ b. AreFinal true b ps) (sym t.final_is) final) (λ q. omega arith)
            (omega (arith, e)) (omega (arith, f)) gs (omega (arith, h)) in
        record {
          received = ih.received;
          result =
              receive_parts-some fuel r (records, s) (records ++ t.taken ∷ [], t.state) g t.result
              ∙ ih.result;
          packets_are =
              ih.packets_are
              ∙ ap (λ l. l ++ ps)
                  (map-append packet_of records (t.taken ∷ [])
                    ∙ ap (λ q. map packet_of records ++ q ∷ []) t.packet_is)
              ∙ append_assoc (map packet_of records) (p ∷ []) ps;
          audio_is =
              ih.audio_is
              ∙ ap (λ l. l ++ pcm_of ps) t.audio_is
              ∙ append_assoc s.audio p.pcm_s16le (pcm_of ps);
          reason_is = ih.reason_is;
        }
    receive_parts-Receives [] sequence frame sample saw_packet zero r records s l c final
          some_packet e f g h =
        absurd (omega (arith, h))
    receive_parts-Receives [] sequence frame sample saw_packet (suc zero) r records s l c final
          some_packet e f g h =
        absurd (omega (arith, h))
    receive_parts-Receives (p ∷ ps) sequence frame sample saw_packet zero r records s l c final
          some_packet e f g h =
        absurd (omega (arith, h))
