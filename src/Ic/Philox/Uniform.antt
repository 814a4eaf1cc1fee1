-- ===== src/Ic/Philox/Uniform.antt =====
-- src/ic/philox_rng.cpp: the range of the uniform number.
use hyowon.Common.{
  ℕ, ◌+◌, ◌*◌, ◌/◌, ◌^◌, ◌<◌, ◌≡◌, ◌⊎◌, refl, inl, inr, ◌==◌, Bool-cases, arith, bit_or-disjoint,
}
use hyowon.Ic.Philox.{uint32, uniform_bits, open_uniform_from_words}

uniform_bits-eq :
    (high low : ℕ) → low < uint32 → uniform_bits high low ≡ high * 2 ^ 21 + low / 2 ^ 11
unfolding uniform_bits
uniform_bits-eq high low h = bit_or-disjoint 21 high (low / 2 ^ 11) (omega arith)

-- The least number above 0 stands for zero, and each other number of 53 bits for itself.
abbrev pub Maps : ℕ → ℕ → Type 0
Maps bits result = ((bits ≡ 0) × (result ≡ 1)) ⊎ ((0 < bits) × (result ≡ bits * 2))

maps :
    (high low : ℕ)
    → uniform_bits high low ≡ high * 2 ^ 21 + low / 2 ^ 11
    → Maps (high * 2 ^ 21 + low / 2 ^ 11) (open_uniform_from_words high low)
unfolding open_uniform_from_words
maps high low e = elim (Bool-cases (uniform_bits high low == 0)) [
  | inl nothing ↦ rw nothing (inl (ground arith, refl))
  | inr some_bits ↦ rw some_bits (inr (ground arith, omega arith))
]

-- In units of 2 ^ -54 the result of two words is above 0 and below 2 ^ 54, and it is the 53-bit
-- number of their upper bits doubled, or 1 where that number is zero.
pub open_uniform_from_words-bounds :
    (high low : ℕ)
    → high < uint32
    → low < uint32
    → (0 < open_uniform_from_words high low)
      × (open_uniform_from_words high low < 2 ^ 54)
      × Maps (high * 2 ^ 21 + low / 2 ^ 11) (open_uniform_from_words high low)
unfolding open_uniform_from_words
open_uniform_from_words-bounds high low hh hl =
    let bits = uniform_bits-eq high low hl in (ground arith, ground arith, maps high low bits)
