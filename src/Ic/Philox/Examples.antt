-- ===== src/Ic/Philox/Examples.antt =====
-- Runs of the generator, and its theorems at concrete inputs.
use hyowon.Common.{◌+◌, ◌*◌, ◌/◌, ◌^◌, ◌<◌, ◌≡◌, refl, arith}
use hyowon.Ic.Philox.{
  Counter, Key, multiply_high_low, mix, next_key, rounds, philox4x32_10, uniform_bits,
  open_uniform_from_words,
}
use hyowon.Ic.Philox.Inverse.{AreWords, philox4x32_10-injective}
use hyowon.Ic.Philox.Uniform.{Maps, open_uniform_from_words-bounds}

-- All that a run computes with.
program : Unit {0}
unfolding multiply_high_low mix next_key rounds philox4x32_10 uniform_bits open_uniform_from_words
program = tt

abbrev zero_counter : Counter
zero_counter = record { c0 = 0; c1 = 0; c2 = 0; c3 = 0 }

abbrev zero_key : Key
zero_key = record { k0 = 0; k1 = 0 }

-- The known answer of Random123 for the counter and the key zero.
zero-run :
    philox4x32_10 zero_counter zero_key
    ≡ record { c0 = 0x6627e8d5; c1 = 0xe169c58d; c2 = 0xbc57ac4c; c3 = 0x9b00dbd8 }
unfolding program
zero-run = refl

zero_counter-AreWords : AreWords zero_counter
zero_counter-AreWords = record {
  c0-lt = omega arith;
  c1-lt = omega arith;
  c2-lt = omega arith;
  c3-lt = omega arith;
}

philox4x32_10-injective_example : zero_counter ≡ zero_counter
philox4x32_10-injective_example =
    philox4x32_10-injective zero_counter zero_counter zero_key zero_counter-AreWords
      zero_counter-AreWords (omega arith, omega arith) refl

open_uniform_from_words-bounds_example :
    (0 < open_uniform_from_words 0x6627e8d5 0xe169c58d)
    × (open_uniform_from_words 0x6627e8d5 0xe169c58d < 2 ^ 54)
    × Maps
        (0x6627e8d5 * 2 ^ 21 + 0xe169c58d / 2 ^ 11)
        (open_uniform_from_words 0x6627e8d5 0xe169c58d)
open_uniform_from_words-bounds_example =
    open_uniform_from_words-bounds 0x6627e8d5 0xe169c58d (omega arith) (omega arith)
