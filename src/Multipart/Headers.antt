-- ===== src/Multipart/Headers.antt =====
-- native/qwen3-tts-http-bench/src/multipart.rs: the head of a part.
use qwen3_tts_native.Base.{
  ℕ, Bool, false, List, [], ◌∷◌, ◌++◌, length, Option, none, some, Result, ok, err, ltb, ◌==◌, ◌||◌,
  is_some, if◌then◌else◌,
}
use qwen3_tts_native.Text.{
  codes, from_utf8, split_crlf, split_once, trim, to_ascii_lowercase, parse_u64,
}
use qwen3_tts_native.Wav.Bytes.{same}
use qwen3_tts_native.Multipart.Reading.{
  max_part_payload_bytes, MultipartError, Headers, no_length, bad_length, payload_too_long,
  not_text, folded_header, malformed_header, duplicate_header,
}

abbrev pub get : Headers → List ℕ → Option (List ℕ)
get [] name = none
get ((key, value) ∷ rest) name = if same key name then some value else get rest name

-- `headers.insert`, with the refusal of what it replaces; the order is that of insertion.
abbrev pub insert_new : Headers → List ℕ → List ℕ → Result MultipartError Headers
insert_new headers name value =
    if is_some (get headers name) then err duplicate_header else ok (headers ++ (name, value) ∷ [])

abbrev pub is_folded : List ℕ → Bool
is_folded [] = false
is_folded (c ∷ cs) = c == 32 || c == 9

-- One line of a part's head.
unfoldable pub parse_header_line : Headers → List ℕ → Result MultipartError Headers
parse_header_line headers line =
    if is_folded line then err folded_header else elim (split_once 58 line) [
      | none ↦ err malformed_header
      | some (name, value) ↦ insert_new headers (to_ascii_lowercase name) (trim value)
    ]

unfoldable pub parse_lines : Headers → List (List ℕ) → Result MultipartError Headers
parse_lines headers [] = ok headers
parse_lines headers (line ∷ lines) = elim (parse_header_line headers line) [
  | ok h ↦ parse_lines h lines
  | err e ↦ err e
]

unfoldable pub parse_part_headers : List ℕ → Result MultipartError Headers
parse_part_headers bytes = elim (from_utf8 bytes) [
  | none ↦ err not_text
  | some text ↦ parse_lines [] (split_crlf text)
]

-- The declared length, within the limit.
unfoldable pub payload_length : Headers → Result MultipartError ℕ
payload_length headers = elim (get headers (codes "content-length")) [
  | none ↦ err no_length
  | some text ↦ elim (parse_u64 text) [
    | none ↦ err bad_length
    | some length ↦ if ltb max_part_payload_bytes length then err payload_too_long else ok length
  ]
]
