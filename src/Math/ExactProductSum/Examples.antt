-- ===== src/Math/ExactProductSum/Examples.antt =====
-- Runs of the product sum, and its theorems at concrete inputs. 1.0 is 0x3ff0_0000_0000_0000.
use hyowon.Common.{
  ℕ, zero, suc, ◌+◌, ◌-◌, true, false, ◌^◌, ◌≡◌, refl, inl, inr, List, [], ◌∷◌, replicate, arith,
}
use hyowon.Math.ExactPositiveSum.{Limbs, exponent_field, fraction_field, carry_loop}
use hyowon.Math.ExactPositiveSum.Rounding.{bit_width, countl_zero, highest_loop, any_loop}
use hyowon.Math.ExactSignedSum.{compare_loop}
use hyowon.Math.ExactPositiveSum.Limbs.{number, AreWords}
use hyowon.Math.ExactProductSum.{
  ExactBinary64ProductTerm, no_totals, multiply_u64, multiply_product, terms_loop, add_term,
  factor_not_finite, Totals, decode_binary64, multiply_loop, add_word, add_shifted_limb,
  add_shifted_product, compare, subtract_loop, subtract, one_product, with_factor, factors_loop,
}
use hyowon.Math.ExactProductSum.Terms.{IsTerm, IsValid, total, terms_loop-exact}
use hyowon.Math.ExactProductSum.Misuse.{here, there, add_term-not_finite}
use hyowon.Math.ExactProductSum.Rounding.{
  rounded_binary64, exact_binary64_product_sum, highest_set_bit, bit, any_bits_below, extract_u64,
  rounded_shifted_integer, is_subnormal, is_too_large, normal_bits, carried,
}
use hyowon.Math.ExactProductSum.Exact.{
  RoundsDifference, exact_binary64_product_sum-Rounds, no_totals-IsValid,
}

abbrev one : ℕ
one = 0x3ff0_0000_0000_0000

-- 1.5 * 1.0 and -1.0.
abbrev first_term : ExactBinary64ProductTerm
first_term = record { factors = 0x3ff8_0000_0000_0000 ∷ one ∷ 0 ∷ 0 ∷ 0 ∷ []; factor_count = 2 }

abbrev second_term : ExactBinary64ProductTerm
second_term = record { factors = 0xbff0_0000_0000_0000 ∷ 0 ∷ 0 ∷ 0 ∷ 0 ∷ []; factor_count = 1 }

abbrev two_terms : List ExactBinary64ProductTerm
two_terms = first_term ∷ second_term ∷ []

first_term-IsTerm : IsTerm first_term
first_term-IsTerm = record {
  five = refl;
  some_factors = omega arith;
  few = omega arith;
  finite = (omega arith, (omega arith, tt));
}

second_term-IsTerm : IsTerm second_term
second_term-IsTerm = record {
  five = refl;
  some_factors = omega arith;
  few = omega arith;
  finite = (omega arith, tt);
}

exact_binary64_product_sum-Rounds_example :
    RoundsDifference
      (total false two_terms)
      (total true two_terms)
      (exact_binary64_product_sum two_terms)
exact_binary64_product_sum-Rounds_example =
    exact_binary64_product_sum-Rounds two_terms (omega arith)
      (first_term-IsTerm, (second_term-IsTerm, tt))

terms_loop-exact_example :
    (u : Totals) × (terms_loop no_totals two_terms ≡ inr u)
    × IsValid 0 u
    × (number u.positive ≡ number no_totals.positive + total false two_terms)
    × (number u.negative ≡ number no_totals.negative + total true two_terms)
terms_loop-exact_example =
    terms_loop-exact two_terms no_totals (no_totals-IsValid 2 (omega arith))
      (first_term-IsTerm, (second_term-IsTerm, tt))

-- An infinity behind a zero.
abbrev hidden_infinity : ExactBinary64ProductTerm
hidden_infinity = record { factors = 0 ∷ 0x7ff0_0000_0000_0000 ∷ 0 ∷ 0 ∷ 0 ∷ []; factor_count = 2 }

add_term-not_finite_example : add_term no_totals hidden_infinity ≡ inl factor_not_finite
add_term-not_finite_example =
    add_term-not_finite no_totals hidden_infinity refl (omega arith) (omega arith)
      (there _ _ (here _ _ (omega arith)))

abbrev largest_word : ℕ
largest_word = 2 ^ 64 - 1

abbrev six_limbs : Limbs
six_limbs = largest_word ∷ 1 ∷ 0 ∷ 0 ∷ 0 ∷ 0 ∷ []

abbrev one_unit : Limbs
one_unit = 1 ∷ replicate 165 1

one_unit-AreWords : AreWords one_unit
one_unit-AreWords = (omega arith, ones 165)
  where
    ones : (n : ℕ) → AreWords (replicate n 1)
    ones zero = tt
    ones (suc n) = (omega arith, ones n)

program : Unit {0}
unfolding multiply_u64 decode_binary64 exponent_field fraction_field multiply_loop multiply_product
    carry_loop add_word add_shifted_limb add_shifted_product compare_loop compare subtract_loop
    subtract one_product with_factor factors_loop no_totals add_term terms_loop highest_loop
    any_loop bit_width countl_zero highest_set_bit bit any_bits_below extract_u64
    rounded_shifted_integer is_subnormal is_too_large normal_bits carried rounded_binary64
    exact_binary64_product_sum
program = tt

-- 1.5 - 1.0 is 0.5.
two_terms-run : exact_binary64_product_sum two_terms ≡ inr 0x3fe0_0000_0000_0000
unfolding program
two_terms-run = refl
