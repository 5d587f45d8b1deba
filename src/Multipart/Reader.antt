-- ===== src/Multipart/Reader.antt =====
-- native/qwen3-tts-http-bench/src/multipart.rs: `next_part`.
use qwen3_tts_native.Base.{ℕ, true, List, [], Option, none, some, ok, err, if◌then◌else◌}
use qwen3_tts_native.Http.Buffer.Find.{crlf, blank_line}
use qwen3_tts_native.Wav.Bytes.{same}
use qwen3_tts_native.Multipart.Reading.{
  max_part_header_bytes, Part, Reading, and_then, ◌>>=◌, ◌>>◌, lift, give, refuse_unless,
  read_until, read_line, read_exact, payload_loop, finish_after_closing_boundary, no_opening,
  no_suffix, bad_boundary,
}
use qwen3_tts_native.Multipart.Headers.{parse_part_headers, payload_length}

unfoldable pub open_body : Reading (Unit {0})
open_body r = and_then (read_line max_part_header_bytes r) (λ opening q.
    if same opening q.boundary_line
    then (ok tt, record q { started = true })
    else (err no_opening, q))

-- What follows a part: the next boundary, or the closing one and the end of the body.
unfoldable pub check_boundary : List ℕ → Reading (Unit {0})
check_boundary next r =
    if same next r.closing_boundary_line
    then and_then (finish_after_closing_boundary r) (λ t q. (ok tt, record q { finished = true }))
    else refuse_unless (same next r.boundary_line) bad_boundary r

unfoldable pub read_part : Reading Part
read_part = do
  bytes ← read_until blank_line max_part_header_bytes
  headers ← lift (parse_part_headers bytes)
  capacity ← lift (payload_length headers)
  (payload, first) ← payload_loop capacity capacity [] none
  suffix ← read_exact 2
  refuse_unless (same suffix crlf) no_suffix
  next ← read_line max_part_header_bytes
  check_boundary next
  give (record { headers = headers; payload = payload; first_payload_at = first })

-- None after the last part.
unfoldable pub next_part : Reading (Option Part)
next_part r =
    if r.finished
    then (ok none, r)
    else and_then (if r.started then (ok tt, r) else open_body r)
        (λ t q. and_then (read_part q) (λ p. give (some p)))
