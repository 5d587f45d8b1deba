-- ===== src/Native/Talker/Session.antt =====
-- native_talker.rs: the operations of a session, on the host and on the device.
use qwen3_tts_native.Base.{
  bool_ne, ℕ, Bool, true, false, not, List, [], ◌∷◌, Option, none, some, Result, ok, err, ◌==◌,
  ◌!=◌, if◌then◌else◌, ◌||◌,
}
use qwen3_tts_native.Native.Talker.{
  FinishedDeviceFrame, NativeDeviceFrameView, NativeTalkerSession, NextReply, PumpAnswer,
  StreamingCodecFrame, TalkerError, TalkerLibrary, advance_frame, answered, cancel_talker,
  cancelled, check_view, discard, eos_disagrees, failed_batch, native_status, no_answer,
  no_device_frames, not_submitted, null_consumer_event, pump_dropped, pump_failed, pump_shut_down,
  reason_after, unless_ended, with_text,
}

-- The three ways in which the owner of a `PendingTalkerFrame` is done with it: it drops the frame,
-- or calls `finish_without_consumer`, or `finish_with_consumer_event` with an event.
pub data FrameEnd : Type 0 where
  is_dropped has_no_consumer : FrameEnd
  has_consumer : (event : ℕ) → FrameEnd

module _ (lib : TalkerLibrary) where
  abbrev pub Talker : Type 0
  Talker = NativeTalkerSession lib.Handle

  -- The end of `next_frame`: the flag is checked after the counters are set.
  unfoldable pub accept_frame :
      Talker → NextReply lib.Handle → Result TalkerError (Option StreamingCodecFrame) × Talker
  unfolding advance_frame reason_after
  accept_frame s r =
      let eos = r.next_semantic_token == s.codec_eos_token in
      let t = advance_frame s r.next_semantic_token in
      if bool_ne eos (r.info.ended_by_eos != 0) then (err eos_disagrees, t) else (
        ok (
            some record {
              codes = r.codes;
              frame_index = s.frames_emitted;
              next_semantic_token = r.next_semantic_token;
              talker_position = r.info.talker_position;
              predictor_gpu_milliseconds = r.info.predictor_gpu_milliseconds;
              talker_gpu_milliseconds = r.info.talker_gpu_milliseconds;
              ended_by_eos = eos;
            }),
        record t { end_reason = reason_after eos t.frames_emitted t.max_frames },
      )

  unfoldable pub generate_frame :
      Talker → ℕ → Result TalkerError (Option StreamingCodecFrame) × Talker
  unfolding discard
  generate_frame s text_id =
      let r =
        lib.session_next_frame s.handle s.current_semantic text_id s.talker_sampling
          s.predictor_sampling in
      let t = record s { handle = r.handle } in
      if r.status != 0 then (err (native_status r.status), discard t) else accept_frame t r

  unfoldable pub next_frame : Talker → Result TalkerError (Option StreamingCodecFrame) × Talker
  next_frame s = unless_ended s (with_text s (generate_frame s))

  -- A view that does not pass leaves the session unfit for reuse.
  unfoldable pub accept_view :
      Talker → NativeDeviceFrameView → Result TalkerError (Option NativeDeviceFrameView) × Talker
  unfolding discard
  accept_view s view = elim (check_view view s.model.device_index) [
    | ok t ↦ (ok (some view), s)
    | err e ↦ (err e, discard s)
  ]

  unfoldable pub begin_frame :
      Talker → ℕ → Result TalkerError (Option NativeDeviceFrameView) × Talker
  unfolding discard
  begin_frame s text_id =
      let r = lib.begin s.handle text_id s.talker_sampling s.predictor_sampling in
      let t = record s { handle = r.handle } in
      if r.status != 0 then (err (native_status r.status), discard t) else accept_view t r.view

  unfoldable pub begin_device_frame :
      Talker → Result TalkerError (Option NativeDeviceFrameView) × Talker
  begin_device_frame s = unless_ended s (
      if s.model.has_device_frame_api
      then with_text s (begin_frame s)
      else (err no_device_frames, s))

  unfoldable pub accept_answer :
      Talker → PumpAnswer → Result TalkerError (Option NativeDeviceFrameView) × Talker
  unfolding discard
  accept_answer s not_submitted = (err pump_shut_down, discard s)
  accept_answer s no_answer = (err pump_dropped, discard s)
  accept_answer s failed_batch = (err pump_failed, discard s)
  accept_answer s (answered view) = accept_view s view

  unfoldable pub request_frame :
      Talker → ℕ → Result TalkerError (Option NativeDeviceFrameView) × Talker
  request_frame s text_id =
      let r = lib.pump s.handle text_id s.talker_sampling s.predictor_sampling in
      accept_answer (record s { handle = r.1 }) r.0

  -- Without a pump, and for the first frame, the session begins its frame alone.
  unfoldable pub begin_device_frame_batched :
      Talker → Result TalkerError (Option NativeDeviceFrameView) × Talker
  begin_device_frame_batched s =
      if not s.model.has_batch_pump || (s.frames_emitted == 0)
      then begin_device_frame s
      else unless_ended s (with_text s (request_frame s))

  unfoldable pub finish_device_native_raw :
      Talker → ℕ → ℕ → Result TalkerError (NextReply lib.Handle) × Talker
  unfolding discard
  finish_device_native_raw s lease event =
      if s.model.has_device_frame_api
      then (let r = lib.finish s.handle lease event in
          let t = record s { handle = r.handle } in
          if r.status != 0 then (err (native_status r.status), discard t) else (ok r, t))
      else (err no_device_frames, s)

  -- The end of a device frame: the flag is checked before the counters are set.
  unfoldable pub commit_finished_device_frame :
      Talker → NextReply lib.Handle → Result TalkerError FinishedDeviceFrame × Talker
  unfolding advance_frame reason_after discard
  commit_finished_device_frame s r =
      let eos = r.next_semantic_token == s.codec_eos_token in
      let t = advance_frame s r.next_semantic_token in
      if bool_ne eos (r.info.ended_by_eos != 0) then (err eos_disagrees, discard s) else (
        ok record {
          frame_index = s.frames_emitted;
          next_semantic_token = r.next_semantic_token;
          talker_position = r.info.talker_position;
          predictor_gpu_milliseconds = r.info.predictor_gpu_milliseconds;
          talker_gpu_milliseconds = r.info.talker_gpu_milliseconds;
          ended_by_eos = eos;
        },
        record t { end_reason = reason_after eos t.frames_emitted t.max_frames },
      )

  -- `PendingTalkerFrame::drop` of a frame that is not finished.
  unfoldable pub drop_pending : Talker → NativeDeviceFrameView → Talker
  unfolding discard
  drop_pending s view = record (discard (finish_device_native_raw s view.lease_id 0).1) {
    end_reason = some cancelled;
  }

  -- `PendingTalkerFrame::complete`; a frame that the library did not finish is dropped.
  unfoldable pub complete :
      Talker → NativeDeviceFrameView → ℕ → Result TalkerError FinishedDeviceFrame × Talker
  complete s view event =
      let raw = finish_device_native_raw s view.lease_id event in
      elim raw.0 [
        | ok r ↦ commit_finished_device_frame raw.1 r
        | err e ↦ (err e, drop_pending raw.1 view)
      ]

  unfoldable pub finish_with_consumer_event :
      Talker → NativeDeviceFrameView → ℕ → Result TalkerError FinishedDeviceFrame × Talker
  finish_with_consumer_event s view event =
      if event == 0 then (err null_consumer_event, drop_pending s view) else complete s view event

  unfoldable pub finish_without_consumer :
      Talker → NativeDeviceFrameView → Result TalkerError FinishedDeviceFrame × Talker
  finish_without_consumer s view = complete s view 0

  -- What becomes of a frame that was begun on the device, if one was.
  unfoldable pub settle_frame :
      FrameEnd → Result TalkerError (Option NativeDeviceFrameView) × Talker → Talker
  settle_frame how (ok none, t) = t
  settle_frame how (err e, t) = t
  settle_frame is_dropped (ok (some view), t) = drop_pending t view
  settle_frame has_no_consumer (ok (some view), t) = (finish_without_consumer t view).1
  settle_frame (has_consumer event) (ok (some view), t) =
      (finish_with_consumer_event t view event).1

  unfoldable pub device_frame : Talker → Bool → FrameEnd → Talker
  device_frame s true how = settle_frame how (begin_device_frame_batched s)
  device_frame s false how = settle_frame how (begin_device_frame s)

-- The methods that change a session: `next_frame`, `cancel`, and `begin_device_frame` or
-- `begin_device_frame_batched` with what becomes of the frame.
pub data TalkerOp : Type 0 where
  next_host cancels : TalkerOp
  next_device : (batched : Bool) (how : FrameEnd) → TalkerOp

unfoldable pub run : (lib : TalkerLibrary) → TalkerOp → Talker lib → Talker lib
run lib next_host s = (next_frame lib s).1
run lib cancels s = cancel_talker s
run lib (next_device batched how) s = device_frame lib s batched how

unfoldable pub run_all : (lib : TalkerLibrary) → List TalkerOp → Talker lib → Talker lib
run_all lib [] s = s
run_all lib (op ∷ ops) s = run_all lib ops (run lib op s)
