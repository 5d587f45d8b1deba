-- ===== src/Multipart/Transfer.antt =====
-- A completed response, from the engine's packets to the client's records.
use qwen3_tts_native.Base.{
  ℕ, zero, suc, ◌+◌, ◌≤◌, ◌<◌, ◌≡◌, refl, subst, sym, ap, ap₂, ◌∙◌, true, false, List, [], ◌∷◌,
  ◌++◌, append_assoc, map, length, length-append, Option, some, ok, All, All-append, arith,
}
use qwen3_tts_native.Http.Buffer.{TimedBytes}
use qwen3_tts_native.Multipart.Arrivals.{arriving}
use qwen3_tts_native.Multipart.Contents.{
  json_content, audio_content, json_content-IsContent, audio_content-IsContent,
}
use qwen3_tts_native.Multipart.EndToEnd.{
  IsFaithful, Receives, start_lem, started, receive_parts-some, receive_parts-Receives,
}
use qwen3_tts_native.Multipart.OnePart.{IsBoundary}
use qwen3_tts_native.Multipart.Part.{
  EnginePacket, EngineFinishReason, Json, start_event, end_event, start_part, audio_part, end_part,
  part, json_type,
}
use qwen3_tts_native.Multipart.Reading.{new_reader, max_part_payload_bytes}
use qwen3_tts_native.Multipart.Receiver.{JsonEvent, new_state}
use qwen3_tts_native.Multipart.Parts.{receive_parts}
use qwen3_tts_native.Multipart.Reader.{next_part}
use qwen3_tts_native.Multipart.Received.{Listens}
use qwen3_tts_native.Multipart.RoundTrip.{Content, written, IsContent}
use qwen3_tts_native.Multipart.AllParts.{next_part-written}
use qwen3_tts_native.Multipart.Sender.{
  ErrorReport, StreamTurn, StreamingWorker, new_worker, run_worker, response, completed,
}
use qwen3_tts_native.Multipart.Sent.{
  AreContiguous, AreFinal, polled, end_of, total_samples, audio_parts,
}
use qwen3_tts_native.Multipart.Delivery.{Delivery, run_worker-Delivers}
use qwen3_tts_native.Runtime.Types.{RequestMetrics}

-- The texts of the events are within the client's limit.
pub record HasShortTexts (json : Json) : Type 0 where
  pub start_short :
      (request_id seed : ℕ)
      → length (json.start_text (start_event request_id seed)) ≤ max_part_payload_bytes
  pub end_short :
      (request_id : ℕ) (reason : EngineFinishReason) (m : RequestMetrics)
      → length (json.end_text (end_event request_id reason m)) ≤ max_part_payload_bytes

written-more :
    (boundary : List ℕ) (c : Content) (cs : List Content)
    → 0 < length cs
    → written boundary (c ∷ cs)
      ≡ part boundary c.content_type c.headers c.payload false ++ written boundary cs
unfolding written
written-more boundary c [] h = absurd (omega (arith, h))
written-more boundary c (d ∷ cs) h = refl

written-audio :
    (boundary text : List ℕ) (packets : List EnginePacket)
    → written boundary (map audio_content packets ++ json_content text ∷ [])
      ≡ audio_parts boundary packets ++ part boundary json_type [] text true
unfolding written audio_part
written-audio boundary text [] = refl
written-audio boundary text (p ∷ ps) =
    let rest = map audio_content ps ++ json_content text ∷ [] in
    let some_rest = length-append (map audio_content ps) (json_content text ∷ []) in
    written-more boundary (audio_content p) rest (omega (arith, some_rest))
    ∙ ap (λ l. audio_part boundary p ++ l) (written-audio boundary text ps)
    ∙ sym (append_assoc (audio_part boundary p) (audio_parts boundary ps) _)

packets-IsContent :
    (packets : List EnginePacket) (sequence frame sample : ℕ)
    → AreContiguous sequence frame sample packets
    → All IsContent (map audio_content packets)
packets-IsContent [] sequence frame sample c = tt
packets-IsContent (p ∷ ps) sequence frame sample (v, c) = (
  audio_content-IsContent p (omega (arith, v.bytes, v.samples, v.few_frames)),
  packets-IsContent ps (sequence + 1) (frame + p.codec_frames) (sample + p.sample_count) c,
)

polled-length : (ts : List StreamTurn) → length (polled ts) ≤ length ts
polled-length [] = omega arith
polled-length (t ∷ ts) = let ih = polled-length ts in ground arith

module _ (json : Json) (error_text : ErrorReport → ℕ → List ℕ)
    (from_slice : List ℕ → Option JsonEvent) (uuid_text : ℕ → List ℕ)
    (faithful : IsFaithful json from_slice uuid_text) (short : HasShortTexts json)
    (request_id seed : ℕ) (boundary : List ℕ) (is_boundary : IsBoundary boundary) where
  listens :
      Listens (uuid_text request_id) 0 0 0 (started json from_slice uuid_text faithful request_id)
  listens = record {
    started = refl;
    not_ended = refl;
    sequence_is = refl;
    frame_is = refl;
    sample_is = refl;
    id_is = refl;
    timed = λ n. absurd (omega (arith, n));
  }

  -- The text of a completed response.
  response-written :
      (ts : List StreamTurn) (reason : EngineFinishReason) (m : RequestMetrics)
      (start_text : List ℕ) {out : StreamingWorker} {samples : ℕ}
      → (d : Delivery json error_text ts (new_worker request_id boundary) out samples)
      → end_of ts ≡ some (reason, m)
      → part boundary json_type [] start_text false ++ out.sent
        ≡ written boundary (
            json_content start_text
            ∷ (map audio_content (polled ts)
                ++ json_content (json.end_text (end_event request_id reason m)) ∷ []))
  unfolding end_part
  response-written ts reason m start_text {out} d end =
      let same : ◌≡◌ {A = EngineFinishReason × RequestMetrics} (d.reason, d.metrics) (reason, m) =
        cc (sym d.end_is ∙ end) in
      let end_text = json.end_text (end_event request_id reason m) in
      let rest = map audio_content (polled ts) ++ json_content end_text ∷ [] in
      let some_rest = length-append (map audio_content (polled ts)) (json_content end_text ∷ []) in
      let sent : out.sent ≡ written boundary rest =
        d.sent_is
        ∙ ap₂ (λ ps e. audio_parts boundary ps ++ end_part json boundary request_id e.0 e.1)
            d.packets_are same
        ∙ sym (written-audio boundary end_text (polled ts)) in
      ap (λ l. part boundary json_type [] start_text false ++ l) sent
      ∙ sym (written-more boundary (json_content start_text) rest (omega (arith, some_rest)))

  -- Let the worker complete a stream with `samples` samples, where the metrics at the engine's end
  -- count the packets and samples that the engine gave. Then, in whatever segments that are not empty
  -- the response arrives, and with fuel for a part of each turn and three more, the client accepts all
  -- of it: its records are exactly the engine's packets, in order, the bytes that it hashes are their
  -- PCM, and its reason is the engine's; and `samples` is the number of samples in the packets, which
  -- are contiguous, with the last one and no other final.
  pub receive_parts-response :
      (ts : List StreamTurn) (samples : ℕ) (segments : List TimedBytes) (fuel : ℕ)
      (reason : EngineFinishReason) (m : RequestMetrics)
      → (run_worker json error_text ts (new_worker request_id boundary)).completion
        ≡ completed samples
      → end_of ts ≡ some (reason, m)
      → m.emitted_packets ≡ length (polled ts)
      → m.emitted_samples ≡ total_samples (polled ts)
      → All (λ s. 0 < length s.bytes) segments
      → arriving segments ≡ response json error_text request_id boundary seed ts
      → length ts + 3 ≤ fuel
      → let state = new_state (uuid_text request_id) in
        let reader = new_reader (map ok segments) boundary in
        Receives (polled ts) reason ([], state) (receive_parts from_slice fuel reader ([], state))
        × AreContiguous 0 0 0 (polled ts)
        × AreFinal false false (polled ts)
        × (samples ≡ total_samples (polled ts))
  unfolding response start_part end_part
  receive_parts-response ts samples segments (suc fuel) reason m done end packets_counted
        samples_counted nonempty arrives h =
      let d =
        run_worker-Delivers json error_text ts samples (new_worker request_id boundary) refl refl
          done in
      let packets = polled ts in
      let start_text = json.start_text (start_event request_id seed) in
      let end_text = json.end_text (end_event request_id reason m) in
      let rest = map audio_content packets ++ json_content end_text ∷ [] in
      let ending = response-written ts reason m start_text d end in
      let contiguous = subst (AreContiguous 0 0 0) d.packets_are d.contiguous in
      let final = subst (AreFinal false false) d.packets_are d.final in
      let contents =
        All-append IsContent (map audio_content packets) (json_content end_text ∷ [])
          (packets-IsContent packets 0 0 0 contiguous)
          (json_content-IsContent end_text (short.end_short request_id reason m), tt) in
      let (time, g, noted, gs) =
        next_part-written boundary (json_content start_text) rest segments is_boundary
          (json_content-IsContent start_text (short.start_short request_id seed)) contents nonempty
          (arrives ∙ ending) in
      let reader = new_reader (map ok segments) boundary in
      let first = start_lem json from_slice uuid_text faithful request_id seed time in
      let main =
        receive_parts-Receives json from_slice uuid_text faithful request_id reason m packets 0 0 0
          false fuel (next_part reader).1 [] (started json from_slice uuid_text faithful request_id)
          listens contiguous final (λ e. cc e) (omega (arith, packets_counted))
          (omega (arith, samples_counted)) gs (omega (arith, h, polled-length ts)) in
      (
        record {
          received = main.received;
          result =
              receive_parts-some json from_slice uuid_text faithful request_id reason m fuel reader
                _ _ g first
              ∙ main.result;
          packets_are = main.packets_are;
          audio_is = main.audio_is;
          reason_is = main.reason_is;
        },
        contiguous,
        final,
        omega (arith, d.samples_are, ap total_samples d.packets_are),
      )
  receive_parts-response ts samples segments zero reason m done end packets_counted samples_counted
        nonempty arrives h =
      absurd (omega (arith, h))
