-- ===== src/Math/ExactPositiveSum/Examples.antt =====
-- Runs of the accumulator, and its theorems at concrete inputs. A pattern is a `double`'s bits:
-- 1.0 is 0x3ff0_0000_0000_0000.
use mathlib.Core.List.Perm
use hyowon.Common.{
  ℕ, ◌+◌, ◌-◌, ◌*◌, ◌^◌, ◌≤◌, ◌≡◌, ◌≢◌, ◌⊎◌, refl, inl, none, some, [], ◌∷◌, ◌++◌, arith, length,
  replicate, negsuc, done,
}
use hyowon.Math.ExactPositiveSum.{
  Limbs, limb_count, word, Sum, empty_sum, exponent_field, fraction_field, is_finite, is_negative,
  decode, lacks_capacity, carry_loop, add_word, add_shifted_word, counted, add, repeat_loop,
  add_repeated, combine_loop, adopted, combine_serialized, combine, is_bad_term, add_values,
  exact_positive_double_accumulator, not_finite_non_negative, term_count_overflow,
  accumulator_overflow,
}
use hyowon.Math.ExactPositiveSum.Limbs.{number}
use hyowon.Math.ExactPositiveSum.Terms.{IsTerm, units}
use hyowon.Math.ExactPositiveSum.Adding.{IsValid, Gains, add-Gains, add_thrown, empty_sum-IsValid}
use hyowon.Math.ExactPositiveSum.Order.{
  add_each, add_times, add_repeated-eq-add_times, add_each-perm,
}
use hyowon.Math.ExactPositiveSum.Combine.{
  Gains-state, done-Gains, combine-add_each, combine_serialized_thrown,
}
use hyowon.Math.ExactPositiveSum.Rounding.{
  bit_width, countl_zero, highest_loop, highest_set_bit, bit, any_loop, any_bits_below, extract_u64,
  round_up, rounded_binary64_components,
}
use hyowon.Math.ExactPositiveSum.Rounding.Components.{Rounds, rounded_binary64_components-Rounds}

-- All that a run computes with.
program : Unit {0}
unfolding empty_sum exponent_field fraction_field is_finite is_negative decode lacks_capacity
    carry_loop add_word add_shifted_word counted add repeat_loop add_repeated combine_loop adopted
    combine_serialized combine is_bad_term add_values exact_positive_double_accumulator add_each
program = tt

reading : Unit {0}
unfolding bit_width countl_zero highest_loop highest_set_bit bit any_loop any_bits_below extract_u64
    round_up rounded_binary64_components
reading = tt

abbrev one : ℕ
one = 0x3ff0_0000_0000_0000

-- The largest finite value, and the smallest subnormal.
abbrev largest : ℕ
largest = 0x7fef_ffff_ffff_ffff

abbrev smallest : ℕ
smallest = 1

one-IsTerm : IsTerm one
one-IsTerm = inl (omega arith)

largest-IsTerm : IsTerm largest
largest-IsTerm = inl (omega arith)

smallest-IsTerm : IsTerm smallest
smallest-IsTerm = inl (omega arith)

-- 1.0 is 2 ^ 1074 smallest subnormals: bit 50 of the limb 16.
abbrev one_limbs : Limbs
one_limbs = replicate 16 0 ++ 2 ^ 50 ∷ replicate 17 0

abbrev one_sum : Sum
one_sum = record { limbs = one_limbs; term_count = 1 }

add-one_run : add empty_sum one ≡ done one_sum
unfolding program
add-one_run = refl

-- The two modes of the shared reduction agree.
modes_agree :
    exact_positive_double_accumulator 3 (one ∷ one ∷ one ∷ []) none
    ≡ exact_positive_double_accumulator 3 [] (some one)
unfolding program
modes_agree = refl

-- 3.0 is 3 * 2 ^ 51 with the exponent -51.
three_reads :
    rounded_binary64_components (replicate 16 0 ++ 3 * 2 ^ 50 ∷ replicate 17 0)
    ≡ some (3 * 2 ^ 51, negsuc 50)
unfolding reading
three_reads = refl

-- A tie goes to the even significand: 2 ^ 53 + 1 rounds down, and 2 ^ 53 + 3 up.
ties_read :
    (rounded_binary64_components ((2 ^ 53 + 1) ∷ replicate 33 0) ≡ some (2 ^ 52, negsuc 1072))
    × (rounded_binary64_components ((2 ^ 53 + 3) ∷ replicate 33 0) ≡ some (2 ^ 52 + 2, negsuc 1072))
unfolding reading
ties_read = (refl, refl)

-- Rounding up carries into the next binade.
carry_reads :
    rounded_binary64_components ((2 ^ 54 - 1) ∷ replicate 33 0) ≡ some (2 ^ 52, negsuc 1071)
unfolding reading
carry_reads = refl

add-Gains_example : Gains empty_sum 1 (units largest) (add empty_sum largest)
add-Gains_example =
    add-Gains empty_sum largest empty_sum-IsValid largest-IsTerm (unfold empty_sum in omega arith)

-- -1.0 is refused.
abbrev minus_one : ℕ
minus_one = 0xbff0_0000_0000_0000

add_thrown_example :
    (empty_sum ≡ empty_sum)
    × (((not_finite_non_negative ≡ term_count_overflow) × (empty_sum.term_count + 1 ≡ word))
        ⊎ ((not_finite_non_negative ≡ not_finite_non_negative) × (IsTerm minus_one → ⊥)))
add_thrown_example =
    add_thrown empty_sum minus_one not_finite_non_negative empty_sum empty_sum-IsValid (omega arith)
      (unfold program in refl)

add_repeated-eq-add_times_example : add_repeated empty_sum one 1000 ≡ add_times 1000 empty_sum one
add_repeated-eq-add_times_example =
    add_repeated-eq-add_times empty_sum one 1000 empty_sum-IsValid one-IsTerm
      (unfold empty_sum in omega arith)

add_each-perm_example :
    add_each empty_sum (largest ∷ smallest ∷ one ∷ [])
    ≡ add_each empty_sum (smallest ∷ largest ∷ one ∷ [])
add_each-perm_example =
    add_each-perm empty_sum (largest ∷ smallest ∷ one ∷ []) (smallest ∷ largest ∷ one ∷ [])
      empty_sum-IsValid (largest-IsTerm, (smallest-IsTerm, (one-IsTerm, tt)))
      (unfold empty_sum in omega arith) (Perm.swap smallest largest (one ∷ []))

combine-add_each_example : combine one_sum one_sum ≡ add_each empty_sum (one ∷ one ∷ [])
combine-add_each_example =
    combine-add_each (one ∷ []) (one ∷ []) (one-IsTerm, tt) (one-IsTerm, tt) (omega arith) one_sum
      one_sum (unfold program in refl) (unfold program in refl)

one_sum-IsValid : IsValid one_sum
one_sum-IsValid =
    let gained =
      add-Gains empty_sum one empty_sum-IsValid one-IsTerm (unfold empty_sum in omega arith) in
    (Gains-state empty_sum one_sum 1 _ (done-Gains empty_sum one_sum 1 _ _ gained add-one_run)).0

-- Limbs of ones everywhere overflow the accumulator, which is left as it was.
combine_serialized_thrown_example :
    (one_sum ≡ one_sum)
    × ((length {A = ℕ} (replicate 34 (word - 1)) ≢ limb_count)
        ⊎ (word ≤ one_sum.term_count + 5)
        ⊎ (word ^ limb_count ≤ number one_sum.limbs + number (replicate 34 (word - 1))))
combine_serialized_thrown_example =
    combine_serialized_thrown one_sum (replicate 34 (word - 1)) 5 one_sum-IsValid (omega arith)
      accumulator_overflow one_sum (unfold program in refl)

rounded_binary64_components-Rounds_example :
    Rounds
      (number ((2 ^ 53 + 3) ∷ replicate 33 0))
      (rounded_binary64_components ((2 ^ 53 + 3) ∷ replicate 33 0))
rounded_binary64_components-Rounds_example =
    rounded_binary64_components-Rounds ((2 ^ 53 + 3) ∷ replicate 33 0) refl (omega arith)
