-- ===== src/Runtime/Scheduler/Shared.antt =====
-- scheduler.rs: `RequestState` and `RequestShared`, the part of a request that its handle and the
-- worker share. Each method runs under the state's lock and is one step. Condition variables and
-- `try_send(Wake)` only wake a waiting thread and leave no trace here.
use qwen3_tts_native.Base.{
  ℕ, ◌-◌, ◌^◌, min, Bool, true, false, not, ◌&&◌, ◌||◌, List, [], ◌∷◌, ◌++◌, map, length, replicate,
  is_empty, Option, none, some, is_some, ltb, ◌==◌, ◌!=◌, if◌then◌else◌,
}
use qwen3_tts_native.Runtime.Types.{
  RuntimeStatus, RequestPhase, queued, prefilling, generating, draining, cancelled, failed,
  FinishReason, no_reason, AudioPacketDescriptor, RequestMetrics, metrics_default,
}

-- An error's text: the scheduler's own messages by name, any other by its bytes.
pub data Message : Type 0 where
  worker_panicked start_panicked step_panicked wrong_start_count wrong_step_count : Message
  no_session pool_empty frame_limit packet_invariant queue_overflowed : Message
  bad_frame_count final_mismatch pcm_too_long pcm_overrun : Message
  backend_text : List ℕ → Message

pub record BackendError : Type 0 where
  pub status : RuntimeStatus
  pub message : Message

-- `BackendError::new`, and so `From<&str>`.
abbrev pub internal_error : Message → BackendError
internal_error m = record { status = RuntimeStatus.internal; message = m }

-- A buffer holds `i16` samples by their 16-bit patterns.
abbrev pub Pcm : Type 0
Pcm = List ℕ

pub record OwnedAudioPacket : Type 0 where
  pub descriptor : AudioPacketDescriptor
  pub finish_reason : FinishReason
  pub pcm : Pcm

pub record RequestState : Type 0 where
  pub phase : RequestPhase
  pub packets : List OwnedAudioPacket
  pub packet_capacity : ℕ
  pub producer_finished : Bool
  pub finish_reason : FinishReason
  pub retired : Bool
  pub cancel_requested : Bool
  pub failure : Option BackendError
  pub metrics : RequestMetrics

pub record RequestShared : Type 0 where
  pub id : ℕ
  pub started_at : ℕ
  pub state : RequestState
  pub open state use *
  pub free_pcm : List Pcm

abbrev pub packet_count : RequestShared → ℕ
packet_count s = length s.packets

-- `RequestShared::new`: the request owns as many zeroed buffers as it may queue packets.
unfoldable pub new_shared : ℕ → ℕ → ℕ → ℕ → RequestShared
new_shared id packet_capacity packet_samples started_at = record {
  id = id;
  started_at = started_at;
  state = record {
    phase = queued;
    packets = [];
    packet_capacity = packet_capacity;
    producer_finished = false;
    finish_reason = no_reason;
    retired = false;
    cancel_requested = false;
    failure = none;
    metrics = metrics_default;
  };
  free_pcm = replicate packet_capacity (replicate packet_samples 0);
}

unfoldable pub can_accept_packet : RequestShared → Bool
can_accept_packet s =
    not s.cancel_requested
    && not (is_some s.failure)
    && ltb (packet_count s) s.packet_capacity
    && not (is_empty s.free_pcm)

-- The head of the list is the end of the vector.
unfoldable pub take_pcm : RequestShared → Option (Pcm × RequestShared)
take_pcm s = elim s.free_pcm [ [] ↦ none | pcm ∷ rest ↦ some (pcm, record s { free_pcm = rest }) ]

abbrev pub fill : ℕ → Pcm → Pcm
fill value = map (λ _. value)

unfoldable pub recycle_pcm : RequestShared → Pcm → RequestShared
recycle_pcm s pcm = record s { free_pcm = fill 0 pcm ∷ s.free_pcm }

-- `OwnedAudioPacket::drop` gives the buffer back; `packets.clear()` drops the packets in order.
unfoldable pub drop_packets : List OwnedAudioPacket → List Pcm → List Pcm
drop_packets [] free = free
drop_packets (p ∷ ps) free = drop_packets ps (fill 0 p.pcm ∷ free)

unfoldable pub mark_prefilling : RequestShared → ℕ → RequestShared
mark_prefilling s queue_us = record s {
  state = record (s.state) {
    phase = prefilling;
    metrics = record (s.metrics) { queue_microseconds = queue_us };
  };
}

unfoldable pub mark_generating : RequestShared → ℕ → ℕ → ℕ → RequestShared
mark_generating s prefill_us device_bytes host_bytes = record s {
  state = record (s.state) {
    phase = generating;
    metrics = record (s.metrics) {
      prefill_microseconds = prefill_us;
      peak_request_device_bytes = device_bytes;
      peak_request_host_bytes = host_bytes;
    };
  };
}

-- The counters that polls keep stay those of the shared state.
abbrev pub merge_metrics : RequestMetrics → RequestMetrics → RequestMetrics
merge_metrics old new = record new {
  first_audio_microseconds = old.first_audio_microseconds;
  emitted_samples = old.emitted_samples;
  emitted_packets = old.emitted_packets;
}

abbrev finishing : OwnedAudioPacket → RequestState → RequestState
finishing p s =
    if p.descriptor.is_final != 0
    then record s { phase = draining; producer_finished = true; finish_reason = p.finish_reason }
    else s

unfoldable pub push_refused : RequestShared → Bool
push_refused s = s.cancel_requested || is_some s.failure || (packet_count s == s.packet_capacity)

-- `true` for `Ok(())`. A refused packet is dropped, which gives its buffer back.
unfoldable pub push_packet :
    RequestShared → OwnedAudioPacket → RequestMetrics → RequestShared × Bool
unfolding push_refused recycle_pcm
push_packet s p metrics = if push_refused s then (recycle_pcm s p.pcm, false) else (
  record s {
    state = finishing p (record (s.state) {
      metrics = merge_metrics s.metrics metrics;
      packets = s.packets ++ p ∷ [];
    });
  },
  true,
)

unfoldable pub mark_cancelled : RequestShared → RequestShared
unfolding drop_packets
mark_cancelled s = record s {
  state = record (s.state) {
    cancel_requested = true;
    phase = cancelled;
    finish_reason = no_reason;
    packets = [];
    producer_finished = true;
  };
  free_pcm = drop_packets s.packets s.free_pcm;
}

unfoldable pub mark_failed : RequestShared → BackendError → RequestShared
unfolding drop_packets
mark_failed s e = record s {
  state = record (s.state) {
    phase = failed;
    finish_reason = no_reason;
    packets = [];
    producer_finished = true;
    failure = some e;
  };
  free_pcm = drop_packets s.packets s.free_pcm;
}

unfoldable pub mark_retired : RequestShared → RequestShared
mark_retired s = record s { state = record (s.state) { retired = true } }

-- `u64::try_from(duration.as_micros()).unwrap_or(u64::MAX)`.
abbrev pub duration_microseconds : ℕ → ℕ
duration_microseconds micros = min micros (2 ^ 64 - 1)
