-- ===== src/Http/Examples.antt =====
-- Buffers that receive two segments and are read and searched across their border.
use qwen3_tts_native.Base.{ℕ, ◌<◌, ◌≤◌, ◌≡◌, refl, List, [], ◌∷◌, take, drop, some, ok, err}
use qwen3_tts_native.Http.Buffer.Find.{crlf, blank_line, first_at, find-first_at}
use qwen3_tts_native.Http.Buffer.{
  TimedBuffer, underflow, push_bytes, drain_loop, drain_bytes, pop_segment, pop_segments, pop_front,
  find_loop, find_segments, find,
}
use qwen3_tts_native.Http.Buffer.Bytes.{contents}
use qwen3_tts_native.Http.Buffer.Streams.{
  BufferOp, pushes, drains, pops, Stream, run, run_all, new_stream, InOrder, new_stream-InOrder,
}

abbrev ops : List BufferOp
ops = pushes (72 ∷ 84 ∷ 13 ∷ []) 1 ∷ pushes (10 ∷ 88 ∷ []) 2 ∷ drains 2 ∷ drains 9 ∷ pops 1 ∷ []

abbrev read : Stream
read = run_all ops new_stream

read_test : read.read ≡ 72 ∷ 84 ∷ 13 ∷ []
unfolding run_all run push_bytes drain_bytes drain_loop pop_segment pop_segments pop_front
read_test = refl

-- A line's end across two segments.
abbrev line : TimedBuffer
line = record {
  segments =
      record { bytes = 72 ∷ 13 ∷ []; offset = 0; arrived = 1 }
      ∷ record { bytes = 10 ∷ []; offset = 0; arrived = 2 }
      ∷ [];
  len = 3;
}

found_test : find crlf line ≡ some 1
unfolding find find_segments find_loop
found_test = refl

new_stream-InOrder_example :
    InOrder read
    × ((count : ℕ)
        → count ≤ read.buffer.len
        → ((drain_bytes count read.buffer).0 ≡ ok (take count (contents read.buffer.segments)))
          × (contents (drain_bytes count read.buffer).1.segments
              ≡ drop count (contents read.buffer.segments)))
    × ((count : ℕ)
        → read.buffer.len < count
        → drain_bytes count read.buffer ≡ (err underflow, read.buffer))
new_stream-InOrder_example = new_stream-InOrder ops

find-first_at_example :
    (find crlf line ≡ first_at crlf (72 ∷ 13 ∷ 10 ∷ []) 0)
    × (find blank_line line ≡ first_at blank_line (72 ∷ 13 ∷ 10 ∷ []) 0)
find-first_at_example = find-first_at line
