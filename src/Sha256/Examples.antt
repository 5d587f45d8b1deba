-- ===== src/Sha256/Examples.antt =====
-- Three bytes in two reads.
use qwen3_tts_native.Base.{ℕ, ◌≡◌, refl, List, [], ◌∷◌, some, ok, arith}
use qwen3_tts_native.Sha256.{
  digest_reader, with_count, finalize, digest_bytes, update, compress, compress_all, absorb_blocks,
  after_chunks, as_chunks, finish, pad, last_block,
}
use qwen3_tts_native.Sha256.Incremental.{granted, digest_reader-digest_bytes}

abbrev reads : List (List ℕ)
reads = (97 ∷ []) ∷ (98 ∷ 99 ∷ []) ∷ []

digest_reader-digest_bytes_example :
    digest_reader 2 (granted reads) ≡ ok (with_count (digest_bytes (97 ∷ 98 ∷ 99 ∷ [])) 3)
digest_reader-digest_bytes_example =
    digest_reader-digest_bytes 2 reads (omega arith) (omega arith, (omega arith, tt)) (omega arith)

-- The published digest of "abc".
abc :
    digest_bytes (97 ∷ 98 ∷ 99 ∷ [])
    ≡ some (
        0xba ∷ 0x78 ∷ 0x16 ∷ 0xbf ∷ 0x8f ∷ 0x01 ∷ 0xcf ∷ 0xea ∷ 0x41 ∷ 0x41 ∷ 0x40 ∷ 0xde ∷ 0x5d
        ∷ 0xae ∷ 0x22 ∷ 0x23 ∷ 0xb0 ∷ 0x03 ∷ 0x61 ∷ 0xa3 ∷ 0x96 ∷ 0x17 ∷ 0x7a ∷ 0x9c ∷ 0xb4 ∷ 0x10
        ∷ 0xff ∷ 0x61 ∷ 0xf2 ∷ 0x00 ∷ 0x15 ∷ 0xad ∷ [])
unfolding digest_bytes update absorb_blocks after_chunks as_chunks compress_all finalize finish pad
    last_block compress
abc = refl
