-- ===== src/Native/Stager/Inv.antt =====
-- cuda_packet_stager.rs: the invariant of a stager and its device memory.
use qwen3_tts_native.Base.{
  ℕ, suc, ◌+◌, ◌*◌, ◌<◌, ◌≤◌, ◌≡◌, ◌∙◌, true, List, [], ◌∷◌, ◌++◌, length, some, All, arith,
}
use qwen3_tts_native.Native.Stager.{
  codec_packet_frames, frame_bytes, packet_bytes, Call, copy, CudaPacketStager, ask, source_at,
}

-- A copy writes within the packet that starts at `base`.
abbrev pub InBounds : ℕ → Call → Type 0
InBounds base (copy destination source bytes stream) =
    (base ≤ destination) × (destination + bytes ≤ base + packet_bytes)
InBounds base _ = Unit

-- The frames stand in memory one after the other, from slot `k` on.
abbrev pub Holds : ℕ → List Call → ℕ → List ℕ → Type 0
Holds base log k [] = Unit
Holds base log k (f ∷ fs) =
    (source_at log (base + k * frame_bytes) ≡ some f) × Holds base log (suc k) fs

-- A stager that holds the frames `fs`, in the device memory from `base` on.
pub record Inv (base : ℕ) (fs : List ℕ) (s : CudaPacketStager) : Type 0 where
  pub codes : s.device_codes ≡ base
  pub counted : s.staged_frames ≡ length fs
  pub limit : length fs ≤ codec_packet_frames
  pub bounds : All (InBounds base) s.calls
  pub held : Holds base s.calls 0 fs

Holds-mono :
    (base : ℕ) (log new : List Call) (k : ℕ) (fs : List ℕ)
    → ((i : ℕ)
        → i < k + length fs
        → source_at new (base + i * frame_bytes) ≡ source_at log (base + i * frame_bytes))
    → Holds base log k fs
    → Holds base new k fs
Holds-mono base log new k [] same h = tt
Holds-mono base log new k (f ∷ fs) same h = (
  same k (omega arith) ∙ h.0,
  Holds-mono base log new (suc k) fs (λ i l. same i (omega (arith, l))) h.1,
)

Holds-append :
    (base : ℕ) (log : List Call) (k : ℕ) (fs : List ℕ) (f : ℕ)
    → Holds base log k fs
    → source_at log (base + (k + length fs) * frame_bytes) ≡ some f
    → Holds base log k (fs ++ f ∷ [])
Holds-append base log k [] f h e = (ground arith, tt)
Holds-append base log k (g ∷ fs) f h e =
    (h.0, Holds-append base log (suc k) fs f h.1 (ground arith))

-- A call that copies nothing leaves device memory as it is.
pub Holds-quiet :
    (base : ℕ) (log : List Call) (fs : List ℕ) (c : Call)
    → ((a : ℕ) → source_at (c ∷ log) a ≡ source_at log a)
    → Holds base log 0 fs
    → Holds base (c ∷ log) 0 fs
Holds-quiet base log fs c same =
    Holds-mono base log (c ∷ log) 0 fs (λ i l. same (base + i * frame_bytes))

-- A copy into the next slot leaves those before it as they are and fills its own.
pub Holds-copy :
    (base : ℕ) (log : List Call) (fs : List ℕ) (destination source bytes stream : ℕ)
    → destination ≡ base + length fs * frame_bytes
    → Holds base log 0 fs
    → Holds base (copy destination source bytes stream ∷ log) 0 (fs ++ source ∷ [])
Holds-copy base log fs destination source bytes stream e h =
    let new = copy destination source bytes stream ∷ log in
    Holds-append base new 0 fs source (Holds-mono base log new 0 fs (λ i l. ground arith) h)
      (ground arith)

pub Holds-front :
    (base : ℕ) (log : List Call) (k : ℕ) (fs : List ℕ) (f : ℕ)
    → Holds base log k (fs ++ f ∷ [])
    → Holds base log k fs
Holds-front base log k [] f h = tt
Holds-front base log k (g ∷ fs) f h = (h.0, Holds-front base log (suc k) fs f h.1)

module _ (base : ℕ) (fs : List ℕ) (s : CudaPacketStager) (v : Inv base fs s) where
  pub quiet-Inv :
      (c : Call)
      → InBounds base c
      → ((a : ℕ) → source_at (c ∷ s.calls) a ≡ source_at s.calls a)
      → Inv base fs (ask s c)
  quiet-Inv c within same = record {
    codes = v.codes;
    counted = v.counted;
    limit = v.limit;
    bounds = (within, v.bounds);
    held = Holds-quiet base s.calls fs c same v.held;
  }

  pub poison-Inv : Inv base fs (record s { poisoned = true })
  poison-Inv = record {
    codes = v.codes;
    counted = v.counted;
    limit = v.limit;
    bounds = v.bounds;
    held = v.held;
  }
