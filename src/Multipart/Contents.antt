-- ===== src/Multipart/Contents.antt =====
-- native/qwen3-tts-server/src/multipart.rs and the client's multipart.rs: headers and their limits.
use qwen3_tts_native.Base.{
  ℕ, suc, ◌+◌, ◌*◌, ◌≤◌, ◌≡◌, ◌≢◌, refl, Bool, true, false, List, [], ◌∷◌, ◌++◌, length,
  length-append, ok, All, All-mono, arith,
}
use qwen3_tts_native.Multipart.Heads.{IsHeader, head_text, lowered, AreNew}
use qwen3_tts_native.Multipart.Headers.{payload_length}
use qwen3_tts_native.Multipart.Part.{EnginePacket, audio_type, json_type, audio_headers, show_bool}
use qwen3_tts_native.Multipart.Reading.{Headers, max_part_payload_bytes}
use qwen3_tts_native.Multipart.RoundTrip.{Content, first_header, more_headers, IsContent}
use qwen3_tts_native.Text.{
  codes, to_string, to_string-IsDigit, to_string-length, parse_u64-to_string, IsDigit, IsGraphic,
  joined,
}

-- A header of at most 128 bytes with its line's end.
record Fits (h : List ℕ × List ℕ) : Type 0 where
  header : IsHeader h
  short : length h.0 + length h.1 + 4 ≤ 128

head_text-bounded :
    (h : List ℕ × List ℕ) (hs : Headers)
    → Fits h
    → All Fits hs
    → length (head_text h hs) ≤ 128 * suc (length hs)
unfolding joined
head_text-bounded h [] f fs = omega (arith, f.short, length-append h.0 (58 ∷ 32 ∷ h.1))
head_text-bounded h (k ∷ hs) f (g, fs) =
    let ih = head_text-bounded k hs g fs in
    let line = length-append h.0 (58 ∷ 32 ∷ h.1) in
    omega
      (arith, ih, line, f.short, length-append (h.0 ++ 58 ∷ 32 ∷ h.1) (13 ∷ 10 ∷ head_text k hs))

number-Fits :
    (name : List ℕ) (n : ℕ)
    → All (λ c. IsGraphic c × (c ≢ 58)) name
    → length name ≤ 100
    → Fits (name, to_string n)
number-Fits name n h l = record {
  header = record {
    name = h;
    value = All-mono IsDigit IsGraphic (to_string n) (λ c d. omega arith) (to_string-IsDigit n);
  };
  short = omega (arith, l, to_string-length n);
}

payload_length-own :
    (c : Content)
    → length c.payload ≤ max_part_payload_bytes
    → payload_length (lowered (first_header c ∷ more_headers c)) ≡ ok (length c.payload)
unfolding payload_length
payload_length-own c h =
    let n = length c.payload in
    rw (parse_u64-to_string n (omega (arith, h)), payload_length) (ground (arith, h))

-- A content with a type, its length and a few more headers can be read.
content-IsContent :
    (c : Content)
    → Fits (first_header c)
    → All Fits c.headers
    → length c.headers ≤ 16
    → AreNew [] (first_header c ∷ more_headers c)
    → length c.payload ≤ max_part_payload_bytes
    → IsContent c
content-IsContent c f fs few new h =
    let g = number-Fits (codes "Content-Length") (length c.payload) (omega arith) (omega arith) in
    record {
      first_header = f.header;
      headers = (g.header, All-mono Fits IsHeader c.headers (λ x y. y.header) fs);
      no_double = new;
      head_short =
          omega (arith, few, head_text-bounded (first_header c) (more_headers c) f (g, fs));
      length_known = payload_length-own c h;
    }

abbrev pub json_content : List ℕ → Content
json_content text = record { content_type = json_type; headers = []; payload = text }

abbrev pub audio_content : EnginePacket → Content
audio_content p = record {
  content_type = audio_type;
  headers = audio_headers p;
  payload = p.pcm_s16le;
}

pub json_content-IsContent :
    (text : List ℕ) → length text ≤ max_part_payload_bytes → IsContent (json_content text)
json_content-IsContent text h =
    content-IsContent (json_content text)
      (record { header = record { name = omega arith; value = omega arith }; short = omega arith })
      tt (omega arith) (refl, (refl, tt)) h

bool-Fits : (b : Bool) → Fits (codes "X-Final", show_bool b)
bool-Fits true = record {
  header = record { name = omega arith; value = omega arith };
  short = omega arith;
}
bool-Fits false = record {
  header = record { name = omega arith; value = omega arith };
  short = omega arith;
}

pub audio_content-IsContent :
    (p : EnginePacket) → length p.pcm_s16le ≤ max_part_payload_bytes → IsContent (audio_content p)
audio_content-IsContent p h =
    content-IsContent (audio_content p)
      (record { header = record { name = omega arith; value = omega arith }; short = omega arith })
      (
        number-Fits (codes "X-Sequence") p.sequence (omega arith) (omega arith),
        (
          number-Fits (codes "X-First-Codec-Frame") p.first_codec_frame (omega arith) (omega arith),
          (
            number-Fits (codes "X-First-Sample") p.first_sample (omega arith) (omega arith),
            (
              number-Fits (codes "X-Sample-Count") p.sample_count (omega arith) (omega arith),
              (
                number-Fits (codes "X-Codec-Frames") p.codec_frames (omega arith) (omega arith),
                (bool-Fits p.is_final, tt),
              ),
            ),
          ),
        ),
      )
      (omega arith) (refl, (refl, (refl, (refl, (refl, (refl, (refl, (refl, tt)))))))) h
