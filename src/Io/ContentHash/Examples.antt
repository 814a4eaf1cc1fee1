-- ===== src/Io/ContentHash/Examples.antt =====
-- Runs of the hash, and its theorems at concrete inputs. Characters are their ASCII codes.
use hyowon.Io.ContentHash.Closing.{hash_chunks, reference, hash_chunks-eq}
use hyowon.Io.ContentHash.Misuse.{after_finalize}
use hyowon.Io.ContentHash.Streaming.{Holds, initial-Holds}
use hyowon.Io.ContentHash.Canonical.{update_canonical_uint64}
use hyowon.Io.ContentHash.Canonical.RoundTrip.{IsLittleEndian, update_canonical_uint64-Holds}
use hyowon.Common.{ℕ, List, arith, done, thrown, left_by, ◌≡◌, refl, inr, [], ◌∷◌}
use hyowon.Io.ContentHash.Compression.{
  k_round_constants, rotr, choose, majority, big_sigma0, big_sigma1, small_sigma0, small_sigma1,
  load_loop, expand_loop, schedule, round, rounds, compress,
}
use hyowon.Io.ContentHash.{
  Impl, update_after_finalization, finalized_more_than_once, initial_state, initial, transform,
  flushed, stage_leading, blocks_loop, stage_trailing, absorb_input, update, push, zero_fill,
  push_length, transform_buffer, close, word_bytes, finalize, digest, hex_digit, hex_digest,
  finish_hex, sha256_bytes,
}

-- All that a run computes with.
program : Unit {0}
unfolding k_round_constants rotr choose majority big_sigma0 big_sigma1 small_sigma0 small_sigma1
    load_loop expand_loop schedule round rounds compress initial_state initial transform flushed
    stage_leading blocks_loop stage_trailing absorb_input update push zero_fill push_length
    transform_buffer close word_bytes finalize digest hex_digit hex_digest finish_hex sha256_bytes
program = tt

-- The published digest of the three bytes "abc".
sha256-abc :
    sha256_bytes (97 ∷ 98 ∷ 99 ∷ [])
    ≡ inr (
        98 ∷ 97 ∷ 55 ∷ 56 ∷ 49 ∷ 54 ∷ 98 ∷ 102 ∷ 56 ∷ 102 ∷ 48 ∷ 49 ∷ 99 ∷ 102 ∷ 101 ∷ 97 ∷ 52 ∷ 49
        ∷ 52 ∷ 49 ∷ 52 ∷ 48 ∷ 100 ∷ 101 ∷ 53 ∷ 100 ∷ 97 ∷ 101 ∷ 50 ∷ 50 ∷ 50 ∷ 51 ∷ 98 ∷ 48 ∷ 48
        ∷ 51 ∷ 54 ∷ 49 ∷ 97 ∷ 51 ∷ 57 ∷ 54 ∷ 49 ∷ 55 ∷ 55 ∷ 97 ∷ 57 ∷ 99 ∷ 98 ∷ 52 ∷ 49 ∷ 48 ∷ 102
        ∷ 102 ∷ 54 ∷ 49 ∷ 102 ∷ 50 ∷ 48 ∷ 48 ∷ 49 ∷ 53 ∷ 97 ∷ 100 ∷ [])
unfolding program
sha256-abc = refl

-- The same three bytes in three chunks, one of them empty.
hash_chunks-eq_example :
    hash_chunks initial ((97 ∷ []) ∷ [] ∷ (98 ∷ 99 ∷ []) ∷ [])
    ≡ inr (hex_digest (reference (97 ∷ 98 ∷ 99 ∷ [])))
hash_chunks-eq_example = hash_chunks-eq ((97 ∷ []) ∷ [] ∷ (98 ∷ 99 ∷ []) ∷ []) (omega arith)

after_finalize_example :
    (update (left_by (finalize initial)) (97 ∷ [])
      ≡ thrown update_after_finalization (left_by (finalize initial)))
    × (finalize (left_by (finalize initial))
        ≡ thrown finalized_more_than_once (left_by (finalize initial)))
after_finalize_example = after_finalize initial (97 ∷ [])

update_canonical_uint64-Holds_example :
    (t : Impl) × (bytes : List ℕ) × (update_canonical_uint64 initial (7 ∷ 258 ∷ []) ≡ done t)
    × IsLittleEndian (7 ∷ 258 ∷ []) bytes
    × Holds t bytes
update_canonical_uint64-Holds_example =
    update_canonical_uint64-Holds initial [] (7 ∷ 258 ∷ []) initial-Holds (omega arith)
