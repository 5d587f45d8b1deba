-- ===== src/Multipart/Delivery.antt =====
-- native/qwen3-tts-server/src/server.rs: `run_streaming_worker`, from packets to sent parts.
use qwen3_tts_native.Base.{
  ℕ, ◌+◌, ◌≡◌, ◌≢◌, refl, subst, sym, ap, ◌∙◌, Bool, true, false, not, List, [], ◌∷◌, ◌++◌,
  append_assoc, some, Result, ok, err, if◌then◌else◌, if_lem, Result-cases, inl, inr, arith,
}
use qwen3_tts_native.Multipart.Part.{EnginePacket, EngineFinishReason, Json, audio_part, end_part}
use qwen3_tts_native.Multipart.Sender.{
  EngineErrorKind, engine_cancelled, ErrorReport, PacketContinuity, accept_packet,
  finish_continuity, Completion, pending, failed, cancelled, retirement_timed_out, completed,
  EnginePoll, packet, would_block, end_of_stream, StreamTurn, StreamingWorker, after_accept,
  send_packet, handle_packet, handle_end_of_stream, handle_engine_error, handle_cancellation,
  fail_native_output, handle_poll, worker_turn, keep_on, run_worker,
}
use qwen3_tts_native.Runtime.Types.{RequestMetrics}
use qwen3_tts_native.Multipart.Sent.{
  StandsAt, AreContiguous, AreFinal, Accepts, accept_packet-Accepts, audio_parts, continuity_after,
  end_at, end_of, polled, polled_at, sent_packet, total_samples,
}

abbrev IsNotCompleted : Completion → Type 0
IsNotCompleted c = (n : ℕ) → c ≢ completed n

finish_continuity-packet :
    (c : PacketContinuity) {u : Unit {0}} → finish_continuity c ≡ ok u → c.saw_packet ≡ true
unfolding finish_continuity
finish_continuity-packet c h = ground arith

finish_continuity-final :
    (c : PacketContinuity) {u : Unit {0}} → finish_continuity c ≡ ok u → c.saw_final ≡ true
unfolding finish_continuity
finish_continuity-final c h = ground arith

module _ (json : Json) (error_text : ErrorReport → ℕ → List ℕ) where
  -- What a turn can do.
  data Outcome (t : StreamTurn) (poll : Result EngineErrorKind EnginePoll) (w : StreamingWorker)
      (r : Bool × StreamingWorker) : Type 0 where
    stops : r.0 ≡ false → IsNotCompleted r.1.completion → Outcome t poll w r
    idles : poll ≡ ok would_block → r ≡ (true, w) → Outcome t poll w r
    sends :
        (p : EnginePacket)
        → poll ≡ ok (packet p)
        → StandsAt w.continuity.next_sequence w.continuity.next_codec_frame w.continuity.next_sample
            p
        → w.continuity.saw_final ≡ false
        → r ≡ (true, sent_packet p w (continuity_after p w.continuity))
        → Outcome t poll w r
    ends :
        (reason : EngineFinishReason)
        → poll ≡ ok (end_of_stream reason)
        → w.continuity.saw_packet ≡ true
        → w.continuity.saw_final ≡ true
        → r ≡ (
          false,
          record w {
            sent = w.sent ++ end_part json w.boundary w.request_id reason t.metrics;
            completion = completed w.sent_samples;
          },
        )
        → Outcome t poll w r

  retired-IsNotCompleted :
      (retires : Bool) (c : Completion)
      → IsNotCompleted c
      → IsNotCompleted (if retires then c else retirement_timed_out)
  retired-IsNotCompleted true c h n = h n
  retired-IsNotCompleted false c h n = λ e. absurd (cc e)

  accepted-Outcome :
      (t : StreamTurn) (p : EnginePacket) (w : StreamingWorker)
      (out : Result EngineErrorKind (Unit {0}) × PacketContinuity)
      → (out.0 ≡ ok tt → Accepts p w.continuity out.1)
      → Outcome t (ok (packet p)) w (after_accept json error_text t p w out)
  unfolding send_packet fail_native_output
  accepted-Outcome t p w (err e, c) a =
      stops refl (retired-IsNotCompleted t.retires failed (λ n f. cc f))
  accepted-Outcome t p w (ok u, c) a =
      let b = a refl in
      if_lem (Outcome t (ok (packet p)) w) t.is_sent
        (λ e. sends p refl b.stands b.not_final (ap (λ d. (true, sent_packet p w d)) b.after))
        (λ e. stops refl (retired-IsNotCompleted t.retires cancelled (λ n f. cc f)))

  packet-Outcome :
      (t : StreamTurn) (p : EnginePacket) (w : StreamingWorker)
      → Outcome t (ok (packet p)) w (handle_packet json error_text t p w)
  unfolding handle_packet
  packet-Outcome t p w =
      accepted-Outcome t p w (accept_packet p w.continuity) (accept_packet-Accepts p w.continuity)

  end-Outcome :
      (t : StreamTurn) (reason : EngineFinishReason) (w : StreamingWorker)
      → Outcome t
          (ok (end_of_stream reason))
          w
          (false, handle_end_of_stream json error_text t reason w)
  unfolding handle_end_of_stream fail_native_output
  end-Outcome t reason w = elim (Result-cases (finish_continuity w.continuity)) [
    | inr (e, f) ↦
        rw (f, handle_end_of_stream)
          (stops refl (retired-IsNotCompleted t.retires failed (λ n g. cc g)))
    | inl (u, f) ↦
        rw (f, handle_end_of_stream)
          (if_lem (λ v. Outcome t (ok (end_of_stream reason)) w (false, v)) (not t.retires)
            (λ e. stops refl (λ n g. absurd (cc g)))
            (λ e.
              if_lem (λ v. Outcome t (ok (end_of_stream reason)) w (false, v)) t.is_sent
                (λ i.
                  ends reason refl (finish_continuity-packet w.continuity f)
                    (finish_continuity-final w.continuity f) refl)
                (λ i. stops refl (λ n g. absurd (cc g)))))
  ]

  poll-Outcome :
      (t : StreamTurn) (poll : Result EngineErrorKind EnginePoll) (w : StreamingWorker)
      → Outcome t poll w (handle_poll json error_text t poll w)
  unfolding handle_poll handle_engine_error
  poll-Outcome t (ok would_block) w = idles refl refl
  poll-Outcome t (ok (packet p)) w = packet-Outcome t p w
  poll-Outcome t (ok (end_of_stream reason)) w = end-Outcome t reason w
  poll-Outcome t (err engine_cancelled) w =
      stops refl (retired-IsNotCompleted t.retires cancelled (λ n f. cc f))
  poll-Outcome t (err e) w = stops refl (retired-IsNotCompleted t.retires failed (λ n f. cc f))

  worker_turn-Outcome :
      (t : StreamTurn) (w : StreamingWorker) → Outcome t t.poll w (worker_turn json error_text t w)
  unfolding worker_turn handle_cancellation
  worker_turn-Outcome t w =
      if_lem (Outcome t t.poll w) t.is_cancelled
        (λ e. stops refl (retired-IsNotCompleted t.retires cancelled (λ n f. cc f)))
        (λ e. poll-Outcome t t.poll w)

  -- From here to the end of the stream the worker sends these packets and the end part.
  pub record Delivery (ts : List StreamTurn) (w out : StreamingWorker) (samples : ℕ) : Type 0 where
    pub packets : List EnginePacket
    pub reason : EngineFinishReason
    pub metrics : RequestMetrics
    pub sent_is :
        out.sent
        ≡ w.sent
          ++ (audio_parts w.boundary packets
              ++ end_part json w.boundary w.request_id reason metrics)
    pub contiguous :
        AreContiguous w.continuity.next_sequence w.continuity.next_codec_frame
          w.continuity.next_sample packets
    pub final : AreFinal w.continuity.saw_packet w.continuity.saw_final packets
    pub packets_are : packets ≡ polled ts
    pub end_is : end_of ts ≡ some (reason, metrics)
    pub samples_are : samples ≡ w.sent_samples + total_samples packets

  -- The rest of the run delivers, if it is completed.
  abbrev Delivers : List StreamTurn → ℕ → StreamingWorker → StreamingWorker → Type 0
  Delivers ts samples w out =
      w.completion ≡ pending
      → w.sent_samples ≡ w.continuity.next_sample
      → out.completion ≡ completed samples
      → Delivery ts w out samples

  step-Delivers :
      (t : StreamTurn) (ts : List StreamTurn) (samples : ℕ) (w : StreamingWorker)
      → ((v : StreamingWorker) → Delivers ts samples v (run_worker json error_text ts v))
      → (r : Bool × StreamingWorker) → Outcome t t.poll w r
      → Delivers (t ∷ ts) samples w (keep_on r (run_worker json error_text ts))
  step-Delivers t ts samples w ih (true, v) (stops e n) p s h = absurd (cc e)
  step-Delivers t ts samples w ih (false, v) (stops e n) p s h = absurd (n samples h)
  step-Delivers t ts samples w ih r (idles q e) p s h =
      subst (λ x. Delivers (t ∷ ts) samples w (keep_on x (run_worker json error_text ts))) (sym e)
        (λ p' s' h'.
          let v = ih w p' s' h' in
          record {
            packets = v.packets;
            reason = v.reason;
            metrics = v.metrics;
            sent_is = v.sent_is;
            contiguous = v.contiguous;
            final = v.final;
            packets_are = v.packets_are ∙ ap (λ x. polled_at x (polled ts)) (sym q);
            end_is = ap (λ x. end_at x t.metrics (end_of ts)) q ∙ v.end_is;
            samples_are = v.samples_are;
          })
        p s h
  step-Delivers t ts samples w ih r (sends q polls a f e) p s h =
      subst (λ x. Delivers (t ∷ ts) samples w (keep_on x (run_worker json error_text ts))) (sym e)
        (λ p' s' h'.
          let next = sent_packet q w (continuity_after q w.continuity) in
          let size : next.sent_samples ≡ w.sent_samples + q.sample_count =
            omega (arith, a.next_sample, s) in
          let v = ih next p' (omega (arith, size, s)) h' in
          record {
            packets = q ∷ v.packets;
            reason = v.reason;
            metrics = v.metrics;
            sent_is =
                v.sent_is
                ∙ append_assoc w.sent (audio_part w.boundary q) _
                ∙ ap (λ l. w.sent ++ l)
                    (sym (
                      append_assoc (audio_part w.boundary q) (audio_parts w.boundary v.packets) _));
            contiguous = (a, v.contiguous);
            final = (f, v.final);
            packets_are =
                ap (λ l. q ∷ l) v.packets_are ∙ ap (λ x. polled_at x (polled ts)) (sym polls);
            end_is = ap (λ x. end_at x t.metrics (end_of ts)) polls ∙ v.end_is;
            samples_are = omega (arith, v.samples_are, size);
          })
        p s h
  step-Delivers t ts samples w ih r (ends reason polls sp sf e) p s h =
      subst (λ x. Delivers (t ∷ ts) samples w (keep_on x (run_worker json error_text ts))) (sym e)
        (λ p' s' h'.
          let same : w.sent_samples ≡ samples = cc h' in
          record {
            packets = [];
            reason = reason;
            metrics = t.metrics;
            sent_is = refl;
            contiguous = tt;
            final = (sp, sf);
            packets_are = ap (λ x. polled_at x (polled ts)) (sym polls);
            end_is = ap (λ x. end_at x t.metrics (end_of ts)) polls;
            samples_are = omega (arith, same);
          })
        p s h

  pub run_worker-Delivers :
      (ts : List StreamTurn) (samples : ℕ) (w : StreamingWorker)
      → Delivers ts samples w (run_worker json error_text ts w)
  unfolding run_worker
  run_worker-Delivers [] samples w = λ p s h. absurd (cc (sym p ∙ h))
  run_worker-Delivers (t ∷ ts) samples w =
      step-Delivers t ts samples w (run_worker-Delivers ts samples)
        (worker_turn json error_text t w) (worker_turn-Outcome t w)
