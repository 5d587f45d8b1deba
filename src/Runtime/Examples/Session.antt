-- ===== src/Runtime/Examples/Session.antt =====
-- A session: the client receives a packet and then the last one, and a second one that it cancels.
use qwen3_tts_native.Base.{
  ℕ, ◌+◌, ◌≡◌, ◌≤◌, refl, true, false, [], ◌∷◌, ◌++◌, length, none, some, ok, err, u64,
}
use qwen3_tts_native.Runtime.Types.{FinishReason, no_reason, codec_eos, metrics_default}
use qwen3_tts_native.Runtime.Scheduler.Shared.{
  Pcm, OwnedAudioPacket, RequestShared, can_accept_packet, take_pcm, push_packet, recycle_pcm,
  drop_packets, new_shared, mark_failed, internal_error, pool_empty,
}
use qwen3_tts_native.Runtime.Scheduler.Handle.{Wait, poll_check, poll, cancel, has_failed}
use qwen3_tts_native.Runtime.Scheduler.Session.{
  World, checks, takes, pushes, polls, fails, cancels, perform, init, Reach, start, next,
}
use qwen3_tts_native.Runtime.Scheduler.Session.Cancelling.{poll-cancels}
use qwen3_tts_native.Runtime.Scheduler.Session.Invariant.{closing, sample_total}
use qwen3_tts_native.Runtime.Scheduler.Session.Delivery.{
  take_pcm_eligible, push_packet_refused, delivered_prefix, buffers_conserved,
  end_of_stream_complete,
}
use qwen3_tts_native.Runtime.Scheduler.Worker.Accept.{accept}
use qwen3_tts_native.Runtime.Scheduler.Worker.Refinement.{Realises, accept-Realises}
use qwen3_tts_native.Runtime.Request.{new_record}
use qwen3_tts_native.Runtime.Examples.{floats, descriptor, one_frame}

abbrev packet_of : ℕ → ℕ → FinishReason → Pcm → OwnedAudioPacket
packet_of sequence final why pcm = record {
  descriptor = descriptor sequence final;
  finish_reason = why;
  pcm = pcm;
}

abbrev origin : World
origin = init 7 2 3 0

abbrev first_packet : OwnedAudioPacket
first_packet = packet_of 0 0 no_reason (1 ∷ 2 ∷ 3 ∷ [])

abbrev last_packet : OwnedAudioPacket
last_packet = packet_of 1 1 codec_eos (4 ∷ 5 ∷ 6 ∷ [])

abbrev checked : World
checked = perform origin checks

abbrev taken : World
taken = perform checked (takes (1 ∷ 2 ∷ 3 ∷ []))

abbrev queued : World
queued = perform taken (pushes first_packet metrics_default)

abbrev polled : World
polled = perform queued (polls 50)

to_checked : Reach origin checked
unfolding init new_shared perform can_accept_packet take_pcm push_packet poll_check recycle_pcm
    cancel drop_packets
to_checked = next checks start (refl, refl)

to_taken : Reach origin taken
unfolding init new_shared perform can_accept_packet take_pcm push_packet poll_check recycle_pcm
    cancel drop_packets
to_taken = next (takes (1 ∷ 2 ∷ 3 ∷ [])) to_checked refl

to_polled : Reach origin polled
unfolding init new_shared perform can_accept_packet take_pcm push_packet poll_check recycle_pcm
    cancel drop_packets
to_polled = next (polls 50) (next (pushes first_packet metrics_default) to_taken refl) tt

abbrev checked' : World
checked' = perform polled checks

abbrev taken' : World
taken' = perform checked' (takes (4 ∷ 5 ∷ 6 ∷ []))

abbrev queued' : World
queued' = perform taken' (pushes last_packet metrics_default)

abbrev polled' : World
polled' = perform queued' (polls 60)

to_checked' : Reach origin checked'
unfolding init new_shared perform can_accept_packet take_pcm push_packet poll_check recycle_pcm
    cancel drop_packets
to_checked' = next checks to_polled (refl, refl)

to_taken' : Reach origin taken'
unfolding init new_shared perform can_accept_packet take_pcm push_packet poll_check recycle_pcm
    cancel drop_packets
to_taken' = next (takes (4 ∷ 5 ∷ 6 ∷ [])) to_checked' refl

to_polled' : Reach origin polled'
unfolding init new_shared perform can_accept_packet take_pcm push_packet poll_check recycle_pcm
    cancel drop_packets
to_polled' = next (polls 60) (next (pushes last_packet metrics_default) to_taken' refl) tt

take_pcm_eligible_example :
    (pcm : Pcm) × (s : RequestShared) × (take_pcm checked.shared ≡ some (pcm, s))
unfolding init new_shared perform can_accept_packet take_pcm push_packet poll_check recycle_pcm
    cancel drop_packets
take_pcm_eligible_example = take_pcm_eligible 7 2 3 0 to_checked refl

-- The client cancels while the worker makes the packet.
abbrev cancelled_meanwhile : World
cancelled_meanwhile = perform taken (cancels true)

to_cancelled : Reach origin cancelled_meanwhile
to_cancelled = next (cancels true) to_taken tt

push_packet_refused_example : cancelled_meanwhile.cancel_requested ≡ true
unfolding init new_shared perform can_accept_packet take_pcm push_packet poll_check recycle_pcm
    cancel drop_packets
push_packet_refused_example =
    push_packet_refused 7 2 3 0 to_cancelled first_packet metrics_default refl refl

delivered_prefix_example :
    (polled'.delivered ++ (polled'.packets ++ polled'.lost) ≡ polled'.pushed)
    × (polled'.metrics.emitted_packets ≡ u64 (length polled'.delivered))
    × (polled'.metrics.emitted_samples ≡ u64 (sample_total polled'.delivered))
delivered_prefix_example = delivered_prefix 7 2 3 0 to_polled'

buffers_conserved_example :
    (length polled'.free_pcm
        + length polled'.packets
        + length polled'.in_flight
        + length polled'.held
      ≡ 2)
    × (length polled'.packets ≤ 2)
buffers_conserved_example = buffers_conserved 7 2 3 0 to_polled'

end_of_stream_complete_example :
    (polled'.delivered ≡ polled'.pushed)
    × ((closing polled'.pushed).0 ≡ true)
    × ((closing polled'.pushed).1 ≡ codec_eos)
unfolding init new_shared perform can_accept_packet take_pcm push_packet poll_check recycle_pcm
    cancel drop_packets
end_of_stream_complete_example =
    end_of_stream_complete 7 2 3 0 to_polled' 70 codec_eos (poll_check polled'.shared 70).1 refl

accept-Realises_example :
    Realises origin
      (accept floats 4 8 0 9
        (new_record 7)
        taken.shared
        (1 ∷ 2 ∷ 3 ∷ [])
        (ok (one_frame true codec_eos))).1
unfolding init new_shared perform can_accept_packet take_pcm push_packet poll_check recycle_pcm
    cancel drop_packets
accept-Realises_example =
    accept-Realises to_taken (1 ∷ 2 ∷ 3 ∷ []) refl floats 4 8 0 9 (new_record 7)
      (ok (one_frame true codec_eos))

-- A wait that times out while the request stays as it is.
abbrev timeout : Wait
timeout = record { now = 5; others = λ s. s; timed_out = true; elapsed = 9 }

abbrev waiting : RequestShared
waiting = new_shared 7 2 3 0

-- The client cancels while a packet is queued, and then the worker fails the request.
abbrev cancelled_queued : World
cancelled_queued = perform queued (cancels true)

abbrev failed_later : World
failed_later = perform cancelled_queued (fails (internal_error pool_empty))

to_failed : Reach cancelled_queued failed_later
unfolding init new_shared perform can_accept_packet take_pcm push_packet poll_check recycle_pcm
    cancel drop_packets
to_failed = next (fails (internal_error pool_empty)) start refl

poll-cancels_example :
    ((cancel true false queued.shared).command ≡ some 7)
    × (failed_later.packets ≡ [])
    × (failed_later.pushed ≡ queued.pushed)
    × (failed_later.delivered ≡ queued.delivered)
    × (poll failed_later.shared 0 false none (timeout ∷ [])
        ≡ (some (err (has_failed (internal_error pool_empty))), failed_later.shared))
unfolding init new_shared perform can_accept_packet take_pcm push_packet poll_check recycle_pcm
    cancel drop_packets mark_failed
poll-cancels_example =
    poll-cancels queued failed_later true refl refl to_failed 0 false none (timeout ∷ [])
