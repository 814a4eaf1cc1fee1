-- ===== src/Ic/Philox.antt =====
-- src/ic/philox_rng.cpp: the counter-based generator Philox4x32 with ten rounds, and the 53-bit
-- number that two of its words address. The real functions on that number are left out.
pub mod Inverse
pub mod Uniform
mod Examples
use hyowon.Common.{
  ℕ, zero, suc, ◌+◌, ◌*◌, ◌/◌, ◌%◌, ◌^◌, Bool, not, ◌==◌, if◌then◌else◌, bit_or, bit_xor,
}

-- One more than the largest `std::uint32_t`.
abbrev pub uint32 : ℕ
uint32 = 2 ^ 32

abbrev pub philox_m0 : ℕ
philox_m0 = 0xD2511F53

abbrev pub philox_m1 : ℕ
philox_m1 = 0xCD9E8D57

abbrev pub philox_w0 : ℕ
philox_w0 = 0x9E3779B9

abbrev pub philox_w1 : ℕ
philox_w1 = 0xBB67AE85

pub record Counter : Type 0 where
  pub c0 : ℕ
  pub c1 : ℕ
  pub c2 : ℕ
  pub c3 : ℕ

pub record Key : Type 0 where
  pub k0 : ℕ
  pub k1 : ℕ

-- The high and the low word of the product.
unfoldable pub multiply_high_low : ℕ → ℕ → ℕ × ℕ
multiply_high_low lhs rhs = (lhs * rhs / uint32, lhs * rhs % uint32)

-- The counter's part of a round.
unfoldable pub mix : Counter → Key → Counter
unfolding multiply_high_low
mix counter key =
    let (hi0, lo0) = multiply_high_low philox_m0 counter.c0 in
    let (hi1, lo1) = multiply_high_low philox_m1 counter.c2 in
    record {
      c0 = bit_xor (bit_xor hi1 counter.c1) key.k0;
      c1 = lo1;
      c2 = bit_xor (bit_xor hi0 counter.c3) key.k1;
      c3 = lo0;
    }

unfoldable pub next_key : Key → Key
next_key key = record { k0 = (key.k0 + philox_w0) % uint32; k1 = (key.k1 + philox_w1) % uint32 }

-- `for (round = 0; round < 10; ++round)`, with `left` rounds to go: the key is raised but behind the
-- last.
unfoldable pub rounds : ℕ → Counter → Key → Counter
rounds zero counter key = counter
rounds (suc left) counter key =
    rounds left (mix counter key) (if left == 0 then key else next_key key)

unfoldable pub philox4x32_10 : Counter → Key → Counter
philox4x32_10 counter key = rounds 10 counter key

-- The 53 bits of `open_uniform_from_words`: the high word and the upper 21 bits of the low one.
unfoldable pub uniform_bits : ℕ → ℕ → ℕ
uniform_bits high low = bit_or (high * 2 ^ 21) (low / 2 ^ 11)

-- The same number in units of 2 ^ -54, as the code returns it: 2 ^ -54 for zero, and j * 2 ^ -53.
unfoldable pub open_uniform_from_words : ℕ → ℕ → ℕ
open_uniform_from_words high low =
    let bits = uniform_bits high low in if bits == 0 then 1 else bits * 2
