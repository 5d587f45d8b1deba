-- ===== src/Multipart/Completion.antt =====
-- native/qwen3-tts-server/src/server.rs: when `run_streaming_worker` completes.
use qwen3_tts_native.Base.{
  ℕ, ◌+◌, ◌≡◌, ◌≢◌, ◌↔◌, refl, subst, sym, ap, ◌∙◌, true, false, List, [], ◌∷◌, some, Result, ok,
  err, if◌then◌else◌, All, arith,
}
use qwen3_tts_native.Multipart.Part.{EnginePacket, EngineFinishReason, Json}
use qwen3_tts_native.Multipart.Sender.{
  EngineErrorKind, PacketContinuity, ErrorReport, validate_engine_packet, advance_continuity,
  accept_packet, finish_continuity, EnginePoll, packet, would_block, end_of_stream, StreamTurn,
  StreamingWorker, after_accept, send_packet, handle_packet, handle_end_of_stream,
  handle_cancellation, handle_poll, worker_turn, keep_on, run_worker, new_worker, completed,
}
use qwen3_tts_native.Multipart.Sent.{
  StandsAt, AreContiguous, AreFinal, End, continuity_after, end_at, end_of, polled, polled_at,
  sent_packet, total_samples,
}
use qwen3_tts_native.Multipart.Delivery.{run_worker-Delivers}
use qwen3_tts_native.Runtime.Types.{RequestMetrics}

-- Nothing disturbs the turn: the client listens, and the engine works and retires the request.
pub record IsSmooth (t : StreamTurn) : Type 0 where
  pub not_cancelled : t.is_cancelled ≡ false
  pub sent : t.is_sent ≡ true
  pub retires : t.retires ≡ true
  pub no_error : (e : EngineErrorKind) → t.poll ≢ err e

accept_packet-StandsAt :
    (p : EnginePacket) (c : PacketContinuity)
    → StandsAt c.next_sequence c.next_codec_frame c.next_sample p
    → c.saw_final ≡ false
    → accept_packet p c ≡ (ok tt, continuity_after p c)
unfolding accept_packet advance_continuity validate_engine_packet
accept_packet-StandsAt p c s f = ground (
  arith, f, s.sequence_is, s.frame_is, s.sample_is, s.rate, s.mono, s.some_frames, s.few_frames,
  s.samples, s.bytes, s.next_sequence, s.next_frame, s.next_sample,
)

module _ (json : Json) (error_text : ErrorReport → ℕ → List ℕ) where
  handle_packet-StandsAt :
      (t : StreamTurn) (p : EnginePacket) (w : StreamingWorker)
      → IsSmooth t
      → StandsAt w.continuity.next_sequence w.continuity.next_codec_frame w.continuity.next_sample p
      → w.continuity.saw_final ≡ false
      → handle_packet json error_text t p w
        ≡ (true, sent_packet p w (continuity_after p w.continuity))
  unfolding handle_packet send_packet
  handle_packet-StandsAt t p w smooth s f =
      ap (after_accept json error_text t p w) (accept_packet-StandsAt p w.continuity s f)
      ∙ ground (arith, smooth.sent)

  handle_end_of_stream-completed :
      (t : StreamTurn) (reason : EngineFinishReason) (w : StreamingWorker)
      → IsSmooth t
      → w.continuity.saw_packet ≡ true
      → w.continuity.saw_final ≡ true
      → (handle_end_of_stream json error_text t reason w).completion ≡ completed w.sent_samples
  unfolding handle_end_of_stream finish_continuity
  handle_end_of_stream-completed t reason w smooth p f =
      ground (arith, p, f, smooth.sent, smooth.retires)

  -- The rest of the run completes, if what it polls goes on where the worker stands.
  abbrev Completes : List EnginePacket → StreamingWorker → StreamingWorker → Type 0
  Completes packets w out =
      w.sent_samples ≡ w.continuity.next_sample
      → AreContiguous w.continuity.next_sequence w.continuity.next_codec_frame
          w.continuity.next_sample packets
      → AreFinal w.continuity.saw_packet w.continuity.saw_final packets
      → out.completion ≡ completed (w.sent_samples + total_samples packets)

  handle_poll-Completes :
      (t : StreamTurn) (poll : Result EngineErrorKind EnginePoll) (packets : List EnginePacket)
      (later : End) (run : StreamingWorker → StreamingWorker) (w : StreamingWorker)
      {end : EngineFinishReason × RequestMetrics}
      → IsSmooth t
      → ((e : EngineErrorKind) → poll ≢ err e)
      → end_at poll t.metrics later ≡ some end
      → (later ≡ some end → (v : StreamingWorker) → Completes packets v (run v))
      → Completes (polled_at poll packets) w (keep_on (handle_poll json error_text t poll w) run)
  unfolding handle_poll
  handle_poll-Completes t (ok would_block) packets later run w smooth n l ih = ih l w
  handle_poll-Completes t (err e) packets later run w smooth n l ih = absurd (n e refl)
  handle_poll-Completes t (ok (end_of_stream reason)) packets later run w smooth n l ih =
      λ s c (p, f).
        handle_end_of_stream-completed t reason w smooth p f ∙ ap completed (omega arith)
  handle_poll-Completes t (ok (packet p)) packets later run w smooth n l ih = λ s (a, c) (f, g).
      let next = sent_packet p w (continuity_after p w.continuity) in
      let size : next.sent_samples ≡ w.sent_samples + p.sample_count =
        omega (arith, a.next_sample, s) in
      ap (λ r. (keep_on r run).completion) (handle_packet-StandsAt t p w smooth a f)
      ∙ ih l next (omega (arith, size, s)) c g
      ∙ ap completed (omega (arith, size))

  run_worker-Completes :
      (ts : List StreamTurn) (w : StreamingWorker) {end : EngineFinishReason × RequestMetrics}
      → All IsSmooth ts
      → end_of ts ≡ some end
      → Completes (polled ts) w (run_worker json error_text ts w)
  unfolding run_worker worker_turn
  run_worker-Completes [] w a e = absurd (cc e)
  run_worker-Completes (t ∷ ts) w (smooth, a) e =
      let main =
        handle_poll-Completes t t.poll (polled ts) (end_of ts) (run_worker json error_text ts) w
          smooth smooth.no_error e (λ l v. run_worker-Completes ts v a l) in
      subst
        (λ b. Completes (polled (t ∷ ts)) w (
          keep_on
            (if b
              then (false, handle_cancellation json error_text t w)
              else handle_poll json error_text t t.poll w)
            (run_worker json error_text ts)))
        (sym smooth.not_cancelled) main

  -- Let nothing disturb a stream: no cancellation, no error of the engine, every chunk sent and the
  -- request retired in time, and let the engine come to its end. Then the worker completes it with
  -- `samples` samples exactly if the packets that the engine gives until then are well formed and
  -- contiguous, there is one, the last one and no other is final, and `samples` is the number of
  -- samples in them.
  pub run_worker-completed_iff :
      (ts : List StreamTurn) (request_id samples : ℕ) (boundary : List ℕ)
      {end : EngineFinishReason × RequestMetrics}
      → All IsSmooth ts
      → end_of ts ≡ some end
      → ((run_worker json error_text ts (new_worker request_id boundary)).completion
          ≡ completed samples)
        ↔ (AreContiguous 0 0 0 (polled ts)
            × AreFinal false false (polled ts)
            × (samples ≡ total_samples (polled ts)))
  run_worker-completed_iff ts request_id samples boundary a e =
      let w = new_worker request_id boundary in
      (
        λ h.
            let d = run_worker-Delivers json error_text ts samples w refl refl h in
            (
              subst (AreContiguous 0 0 0) d.packets_are d.contiguous,
              subst (AreFinal false false) d.packets_are d.final,
              omega (arith, d.samples_are, ap total_samples d.packets_are),
            ),
        λ (c, f, s). run_worker-Completes ts w a e refl c f ∙ ap completed (omega (arith, s)),
      )
