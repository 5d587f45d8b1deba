-- ===== src/Runtime/Scheduler/Session/Invariant.antt =====
-- What every interleaving of the worker and the client keeps.
use qwen3_tts_native.Base.{
  ℕ, ◌+◌, ◌<◌, ◌≡◌, refl, ◌⊎◌, Bool, true, false, ◌||◌, List, [], ◌∷◌, ◌++◌, append_assoc,
  append-nil, length, length-append, length-replicate, replicate, is_some, ◌!=◌, if◌then◌else◌,
  arith, u64,
}
use qwen3_tts_native.Runtime.Types.{FinishReason, no_reason, RequestMetrics}
use qwen3_tts_native.Runtime.Scheduler.Shared.{
  BackendError, Pcm, OwnedAudioPacket, can_accept_packet, take_pcm, recycle_pcm, mark_prefilling,
  mark_generating, push_packet, mark_cancelled, mark_failed, mark_retired, drop_packets, fill,
}
use qwen3_tts_native.Runtime.Scheduler.Handle.{poll_check, cancel}
use qwen3_tts_native.Runtime.Scheduler.Session.{
  World, Action, checks, takes, gives_back, pushes, fails, aborts, prefills, generates, retires,
  polls, drops, cancels, perform, Enabled, init, Reach, start, next,
}

-- Cancelled or failed.
abbrev pub ended : World → Bool
ended w = w.cancel_requested || is_some w.failure

-- Whether the last packet is final, and the reason that the stream then ends with.
abbrev pub closing : List OwnedAudioPacket → Bool × FinishReason
closing [] = (false, no_reason)
closing (p ∷ []) =
    if p.descriptor.is_final != 0 then (true, p.finish_reason) else (false, no_reason)
closing (p ∷ q ∷ ps) = closing (q ∷ ps)

abbrev pub sample_total : List OwnedAudioPacket → ℕ
sample_total [] = 0
sample_total (p ∷ ps) = p.descriptor.sample_count + sample_total ps

pub record Inv (slots : ℕ) (w : World) : Type 0 where
  pub capacity : w.packet_capacity ≡ slots
  -- Every buffer is free, queued, with the worker or with the client.
  pub buffers : length w.free_pcm + length w.packets + length w.in_flight + length w.held ≡ slots
  -- An eligible request has a buffer left and has not ended on the worker's side.
  pub ready :
      (w.eligible ≡ false)
      ⊎ ((0 < length w.free_pcm)
          × (length w.in_flight ≡ 0)
          × (is_some w.failure ≡ false)
          × (w.producer_finished ≡ false))
  pub busy :
      (length w.in_flight ≡ 0)
      ⊎ ((length w.in_flight ≡ 1) × (is_some w.failure ≡ false) × (w.producer_finished ≡ false))
  pub order : w.delivered ++ (w.packets ++ w.lost) ≡ w.pushed
  -- A live request has lost nothing and knows whether its last packet is queued; an ended one has
  -- nothing queued.
  pub live :
      ((ended w ≡ true) × (w.packets ≡ []))
      ⊎ ((ended w ≡ false)
          × (w.lost ≡ [])
          × (w.producer_finished ≡ (closing w.pushed).0)
          × (w.finish_reason ≡ (closing w.pushed).1))
  pub counted : w.metrics.emitted_packets ≡ u64 (length w.delivered)
  pub sampled : w.metrics.emitted_samples ≡ u64 (sample_total w.delivered)

length-drop_packets :
    (ps : List OwnedAudioPacket) (free : List Pcm)
    → length (drop_packets ps free) ≡ length ps + length free
unfolding drop_packets
length-drop_packets [] free = omega arith
length-drop_packets (p ∷ ps) free = omega (arith, length-drop_packets ps (fill 0 p.pcm ∷ free))

closing-append :
    (ps : List OwnedAudioPacket) (p : OwnedAudioPacket) → closing (ps ++ p ∷ []) ≡ closing (p ∷ [])
closing-append [] p = refl
closing-append (q ∷ []) p = refl
closing-append (q ∷ r ∷ ps) p = closing-append (r ∷ ps) p

-- As long as no final packet is queued there is no reason to end.
closing_open : (ps : List OwnedAudioPacket) → (closing ps).0 ≡ false → (closing ps).1 ≡ no_reason
closing_open [] h = refl
closing_open (p ∷ []) h = ground arith
closing_open (p ∷ q ∷ ps) h = closing_open (q ∷ ps) h

sample_total-append :
    (ps : List OwnedAudioPacket) (p : OwnedAudioPacket)
    → sample_total (ps ++ p ∷ []) ≡ sample_total ps + p.descriptor.sample_count
sample_total-append [] p = omega arith
sample_total-append (q ∷ ps) p = omega (arith, sample_total-append ps p)

module _ (slots : ℕ) (w : World) (v : Inv slots w) where
  checks-Inv : Enabled w checks → Inv slots (perform w checks)
  unfolding perform can_accept_packet
  checks-Inv e = ground arith

  takes-Inv : (contents : Pcm) → Enabled w (takes contents) → Inv slots (perform w (takes contents))
  unfolding perform take_pcm
  takes-Inv contents e = ground arith

  gives_back-Inv : Inv slots (perform w gives_back)
  unfolding perform
  gives_back-Inv = ground arith

  pushes-Inv :
      (p : OwnedAudioPacket) (m : RequestMetrics)
      → Enabled w (pushes p m)
      → Inv slots (perform w (pushes p m))
  unfolding perform push_packet
  pushes-Inv p m e = ground (
    arith,
    closing-append w.pushed p,
    closing_open w.pushed,
    length-append w.packets (p ∷ []),
    append-nil (w.packets ++ p ∷ []),
    append-nil w.packets,
    append_assoc w.delivered w.packets (p ∷ []),
  )

  fails-Inv : (x : BackendError) → Enabled w (fails x) → Inv slots (perform w (fails x))
  unfolding perform mark_failed
  fails-Inv x e = ground (arith, length-drop_packets w.packets w.free_pcm)

  aborts-Inv : Enabled w aborts → Inv slots (perform w aborts)
  unfolding perform mark_cancelled
  aborts-Inv e = ground (arith, length-drop_packets w.packets w.free_pcm)

  polls_queued-Inv :
      (elapsed : ℕ) (ps : List OwnedAudioPacket)
      → w.packets ≡ ps
      → Inv slots (perform w (polls elapsed))
  unfolding perform poll_check
  polls_queued-Inv elapsed [] e = ground arith
  polls_queued-Inv elapsed (p ∷ rest) e = ground (
    arith,
    append_assoc w.delivered (p ∷ []) (rest ++ w.lost),
    length-append w.delivered (p ∷ []),
    length-append w.held (p ∷ []),
    sample_total-append w.delivered p,
  )

  prefills-Inv : (us : ℕ) → Inv slots (perform w (prefills us))
  unfolding perform mark_prefilling
  prefills-Inv us = ground arith

  generates-Inv : (a b c : ℕ) → Inv slots (perform w (generates a b c))
  unfolding perform mark_generating
  generates-Inv a b c = ground arith

  retires-Inv : Inv slots (perform w retires)
  unfolding perform mark_retired
  retires-Inv = ground arith

  drops-Inv :
      (before : List OwnedAudioPacket) (p : OwnedAudioPacket) (rest : List OwnedAudioPacket)
      → Enabled w (drops before p rest)
      → Inv slots (perform w (drops before p rest))
  unfolding perform recycle_pcm
  drops-Inv before p rest e =
      ground (arith, length-append before (p ∷ rest), length-append before rest)

  cancels-Inv : (receiving : Bool) → Inv slots (perform w (cancels receiving))
  unfolding perform cancel
  cancels-Inv receiving = ground (arith, length-drop_packets w.packets w.free_pcm)

perform-Inv :
    (slots : ℕ) (w : World) (a : Action) → Enabled w a → Inv slots w → Inv slots (perform w a)
perform-Inv slots w checks e v = checks-Inv slots w v e
perform-Inv slots w (takes contents) e v = takes-Inv slots w v contents e
perform-Inv slots w gives_back e v = gives_back-Inv slots w v
perform-Inv slots w (pushes p m) e v = pushes-Inv slots w v p m e
perform-Inv slots w (fails x) e v = fails-Inv slots w v x e
perform-Inv slots w aborts e v = aborts-Inv slots w v e
perform-Inv slots w (prefills us) e v = prefills-Inv slots w v us
perform-Inv slots w (generates a b c) e v = generates-Inv slots w v a b c
perform-Inv slots w retires e v = retires-Inv slots w v
perform-Inv slots w (polls elapsed) e v = polls_queued-Inv slots w v elapsed w.packets refl
perform-Inv slots w (drops before p rest) e v = drops-Inv slots w v before p rest e
perform-Inv slots w (cancels receiving) e v = cancels-Inv slots w v receiving

init-Inv : (id slots samples started_at : ℕ) → Inv slots (init id slots samples started_at)
unfolding init
init-Inv id slots samples started_at =
    ground (arith, length-replicate slots (replicate {A = ℕ} samples 0))

-- Every interleaving of the worker and the client keeps a request's buffers, order and counts.
pub Reach-Inv :
    (id slots samples started_at : ℕ) {w : World}
    → Reach (init id slots samples started_at) w
    → Inv slots w
Reach-Inv id slots samples started_at start = init-Inv id slots samples started_at
Reach-Inv id slots samples started_at (next {v = w} a r e) =
    perform-Inv slots w a e (Reach-Inv id slots samples started_at r)
