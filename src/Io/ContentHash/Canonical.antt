-- ===== src/Io/ContentHash/Canonical.antt =====
-- src/io/content_hash.cpp: the little-endian encodings of integers and of real numbers, by chunks of
-- 4096 values. A real number is the bit pattern of its `double`.
pub mod RoundTrip
use hyowon.Common.{
  ℕ, zero, suc, ◌+◌, ◌*◌, ◌/◌, ◌%◌, ◌^◌, Bool, true, false, not, ◌&&◌, Option, none, some, List, [],
  ◌∷◌, ◌++◌, ◌==◌, if◌then◌else◌, take, drop, length, map, Outcome, done, thrown, ◌>>=◌,
}
use hyowon.Math.ExactPositiveSum.{is_finite}
use hyowon.Io.ContentHash.{Impl, Error, not_finite, update}

-- `for (offset = 0; offset < sizeof(value); ++offset)`, with `left` bytes to write.
unfoldable pub encode_loop : ℕ → ℕ → ℕ → List ℕ
encode_loop zero offset value = []
encode_loop (suc left) offset value =
    value / 2 ^ (8 * offset) % 256 ∷ encode_loop left (offset + 1) value

unfoldable pub encode_little_endian_u64 : ℕ → List ℕ
encode_little_endian_u64 value = encode_loop 8 0 value

-- The loop over the values of one chunk.
unfoldable pub encode_all : List ℕ → List ℕ
encode_all [] = []
encode_all (value ∷ values) = encode_little_endian_u64 value ++ encode_all values

-- The loop over the chunks, of which there are at most as many as values.
unfoldable pub uint64_loop : ℕ → Impl → List ℕ → Outcome Error Impl
uint64_loop zero s values = done s
uint64_loop (suc fuel) s values =
    let updated = update s (encode_all (take 4096 values)) in
    let rest = updated >>= (λ t. uint64_loop fuel t (drop 4096 values)) in
    if length values == 0 then done s else rest

unfoldable pub update_canonical_uint64 : Impl → List ℕ → Outcome Error Impl
update_canonical_uint64 s values = uint64_loop (length values) s values

-- `value == core::Real{0.0} ? 0.0 : value`: both zeros are read as +0.
unfoldable pub canonical : ℕ → ℕ
canonical value = if value % 2 ^ 63 == 0 then 0 else value

unfoldable pub encode_before : ℕ → Option (List ℕ) → Option (List ℕ)
encode_before value none = none
encode_before value (some bytes) = some (encode_little_endian_u64 (canonical value) ++ bytes)

-- The values of one chunk; `none` is the exception on a value that is not finite.
unfoldable pub encode_reals : List ℕ → Option (List ℕ)
encode_reals [] = some []
encode_reals (value ∷ values) =
    let rest = encode_before value (encode_reals values) in
    if not (is_finite value) then none else rest

unfoldable pub real_loop : ℕ → Impl → List ℕ → Outcome Error Impl
real_loop zero s values = done s
real_loop (suc fuel) s values =
    let rest : Outcome Error Impl = elim (encode_reals (take 4096 values)) [
      | none ↦ thrown not_finite s
      | some bytes ↦ update s bytes >>= (λ t. real_loop fuel t (drop 4096 values))
    ] in
    if length values == 0 then done s else rest

unfoldable pub update_canonical_real : Impl → List ℕ → Outcome Error Impl
update_canonical_real s values = real_loop (length values) s values
