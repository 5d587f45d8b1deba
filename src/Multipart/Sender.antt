-- ===== src/Multipart/Sender.antt =====
-- native/qwen3-tts-server/src/server.rs: `PacketContinuity`, and `StreamingWorker`, which turns what
-- the engine polls into the chunks of the response. One turn of its loop meets what a `Turn` says.
-- Messages of errors are left out, and so is the registry of active requests.
use qwen3_tts_native.Base.{
  ℕ, ◌+◌, ◌*◌, min, Bool, true, false, not, ◌||◌, List, [], ◌∷◌, ◌++◌, length, Result, ok, err, ltb,
  ◌==◌, ◌!=◌, if◌then◌else◌,
}
use qwen3_tts_native.Multipart.Part.{
  EnginePacket, EngineFinishReason, Json, start_part, audio_part, end_part, error_part,
}
use qwen3_tts_native.Runtime.Types.{RequestMetrics}
use qwen3_tts_native.Text.{max_u64}

pub data EngineErrorKind : Type 0 where
  invalid_request capacity engine_cancelled backend_unavailable internal : EngineErrorKind

-- The errors that a stream can end with; what `stream_payload` and `serde_json` make of one and the
-- request's id is a parameter.
pub data ErrorReport : Type 0 where
  engine_report : EngineErrorKind → ErrorReport
  retirement_timeout_error : ErrorReport

unfoldable pub validate_engine_packet : EnginePacket → Result EngineErrorKind (Unit {0})
validate_engine_packet p =
    if p.sample_rate != 24000
      || p.channels != 1
      || p.codec_frames == 0
      || ltb 4 p.codec_frames
      || p.sample_count != p.codec_frames * 1920
      || length p.pcm_s16le != min (p.sample_count * 2) max_u64
    then err internal
    else ok tt

pub record PacketContinuity : Type 0 where
  pub next_sequence : ℕ
  pub next_codec_frame : ℕ
  pub next_sample : ℕ
  pub saw_packet : Bool
  pub saw_final : Bool

abbrev pub new_continuity : PacketContinuity
new_continuity = record {
  next_sequence = 0;
  next_codec_frame = 0;
  next_sample = 0;
  saw_packet = false;
  saw_final = false;
}

abbrev pub overflows : ℕ → ℕ → Bool
overflows a b = ltb max_u64 (a + b)

-- The three checked sums; one that overflows leaves those before it done.
unfoldable pub advance_continuity :
    EnginePacket → PacketContinuity → Result EngineErrorKind (Unit {0}) × PacketContinuity
advance_continuity p c =
    if overflows c.next_sequence 1
    then (err internal, c)
    else if overflows c.next_codec_frame p.codec_frames
    then (err internal, record c { next_sequence = c.next_sequence + 1 })
    else if overflows c.next_sample p.sample_count
    then (
      err internal,
      record c {
        next_sequence = c.next_sequence + 1;
        next_codec_frame = c.next_codec_frame + p.codec_frames;
      },
    )
    else (
      ok tt,
      record {
        next_sequence = c.next_sequence + 1;
        next_codec_frame = c.next_codec_frame + p.codec_frames;
        next_sample = c.next_sample + p.sample_count;
        saw_packet = true;
        saw_final = p.is_final;
      },
    )

unfoldable pub accept_packet :
    EnginePacket → PacketContinuity → Result EngineErrorKind (Unit {0}) × PacketContinuity
accept_packet p c = elim (validate_engine_packet p) [
  | err e ↦ (err e, c)
  | ok t ↦
      if c.saw_final
        || p.sequence != c.next_sequence
        || p.first_codec_frame != c.next_codec_frame
        || p.first_sample != c.next_sample
      then (err internal, c)
      else advance_continuity p c
]

unfoldable pub finish_continuity : PacketContinuity → Result EngineErrorKind (Unit {0})
finish_continuity c = if not c.saw_packet || not c.saw_final then err internal else ok tt

pub data Completion : Type 0 where
  pending failed cancelled retirement_timed_out : Completion
  completed : ℕ → Completion

pub data EnginePoll : Type 0 where
  packet : EnginePacket → EnginePoll
  would_block : EnginePoll
  end_of_stream : EngineFinishReason → EnginePoll

-- What a turn meets: whether the request is cancelled by then, what `poll` gives, whether the chunk
-- that it sends goes out, whether the request retires in time, and its metrics.
pub record StreamTurn : Type 0 where
  pub is_cancelled : Bool
  pub poll : Result EngineErrorKind EnginePoll
  pub is_sent : Bool
  pub retires : Bool
  pub metrics : RequestMetrics

pub record StreamingWorker : Type 0 where
  pub request_id : ℕ
  pub boundary : List ℕ
  pub sent_samples : ℕ
  pub continuity : PacketContinuity
  pub completion : Completion
  -- The request was told to cancel.
  pub told_to_cancel : Bool
  -- The bytes that went out after the start part.
  pub sent : List ℕ

abbrev pub new_worker : ℕ → List ℕ → StreamingWorker
new_worker request_id boundary = record {
  request_id = request_id;
  boundary = boundary;
  sent_samples = 0;
  continuity = new_continuity;
  completion = pending;
  told_to_cancel = false;
  sent = [];
}

-- `send`, when the chunk goes out.
abbrev pub send_chunk : Bool → List ℕ → StreamingWorker → StreamingWorker
send_chunk is_sent chunk w = record w { sent = if is_sent then w.sent ++ chunk else w.sent }

-- `mark_retirement`.
abbrev pub mark_retirement : Bool → Completion → StreamingWorker → StreamingWorker
mark_retirement retires completion w = record w {
  completion = if retires then completion else retirement_timed_out;
}

abbrev pub tell_to_cancel : StreamingWorker → StreamingWorker
tell_to_cancel w = record w { told_to_cancel = true }

abbrev pub keep_on : Bool × StreamingWorker → (StreamingWorker → StreamingWorker) → StreamingWorker
keep_on (true, w) go = go w
keep_on (false, w) go = w

module _ (json : Json) (error_text : ErrorReport → ℕ → List ℕ) where
  abbrev pub send_error : StreamTurn → ErrorReport → StreamingWorker → StreamingWorker
  send_error t e w = send_chunk t.is_sent (error_part w.boundary (error_text e w.request_id)) w

  unfoldable pub handle_cancellation : StreamTurn → StreamingWorker → StreamingWorker
  handle_cancellation t w =
      mark_retirement t.retires cancelled
        (send_error t (engine_report engine_cancelled) (tell_to_cancel w))

  unfoldable pub fail_native_output :
      StreamTurn → EngineErrorKind → StreamingWorker → StreamingWorker
  fail_native_output t e w =
      mark_retirement t.retires failed (send_error t (engine_report e) (tell_to_cancel w))

  unfoldable pub handle_engine_error :
      StreamTurn → EngineErrorKind → StreamingWorker → StreamingWorker
  handle_engine_error t engine_cancelled w =
      mark_retirement t.retires cancelled (send_error t (engine_report engine_cancelled) w)
  handle_engine_error t e w = mark_retirement t.retires failed (send_error t (engine_report e) w)

  -- True if the loop goes on.
  unfoldable pub send_packet : StreamTurn → EnginePacket → StreamingWorker → Bool × StreamingWorker
  send_packet t p w =
      if t.is_sent
      then (
        true,
        record (send_chunk true (audio_part w.boundary p) w) {
          sent_samples = min (w.sent_samples + p.sample_count) max_u64;
        },
      )
      else (false, mark_retirement t.retires cancelled (tell_to_cancel w))

  abbrev pub after_accept :
      StreamTurn
      → EnginePacket
      → StreamingWorker
      → Result EngineErrorKind (Unit {0}) × PacketContinuity
      → Bool × StreamingWorker
  after_accept t p w (ok u, c) = send_packet t p (record w { continuity = c })
  after_accept t p w (err e, c) = (false, fail_native_output t e (record w { continuity = c }))

  unfoldable pub handle_packet :
      StreamTurn → EnginePacket → StreamingWorker → Bool × StreamingWorker
  handle_packet t p w = after_accept t p w (accept_packet p w.continuity)

  unfoldable pub handle_end_of_stream :
      StreamTurn → EngineFinishReason → StreamingWorker → StreamingWorker
  handle_end_of_stream t reason w = elim (finish_continuity w.continuity) [
    | err e ↦ fail_native_output t e w
    | ok u ↦
        if not t.retires
        then record (send_error t retirement_timeout_error w) { completion = retirement_timed_out }
        else if t.is_sent
        then record (send_chunk true (end_part json w.boundary w.request_id reason t.metrics) w) {
          completion = completed w.sent_samples;
        }
        else record w { completion = cancelled }
  ]

  unfoldable pub handle_poll :
      StreamTurn → Result EngineErrorKind EnginePoll → StreamingWorker → Bool × StreamingWorker
  handle_poll t (ok would_block) w = (true, w)
  handle_poll t (ok (packet p)) w = handle_packet t p w
  handle_poll t (ok (end_of_stream reason)) w = (false, handle_end_of_stream t reason w)
  handle_poll t (err e) w = (false, handle_engine_error t e w)

  unfoldable pub worker_turn : StreamTurn → StreamingWorker → Bool × StreamingWorker
  worker_turn t w =
      if t.is_cancelled then (false, handle_cancellation t w) else handle_poll t t.poll w

  -- The loop of `run`; with no more turns it is still running.
  unfoldable pub run_worker : List StreamTurn → StreamingWorker → StreamingWorker
  run_worker [] w = w
  run_worker (t ∷ ts) w = keep_on (worker_turn t w) (run_worker ts)

  -- What the client gets.
  unfoldable pub response : ℕ → List ℕ → ℕ → List StreamTurn → List ℕ
  response request_id boundary seed ts =
      start_part json boundary request_id seed
      ++ (run_worker ts (new_worker request_id boundary)).sent
