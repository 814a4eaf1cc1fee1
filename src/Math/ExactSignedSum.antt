-- ===== src/Math/ExactSignedSum.antt =====
-- include/cosmo_nbody/math/exact_signed_sum.hpp: two exact accumulators, one for each sign, and the
-- reading of their difference. The private routines on limbs are the text of the accumulator's own.
pub mod Subtract
pub mod Magnitude
pub mod Exact
mod Examples
use hyowon.Common.{
  ℕ, zero, suc, ◌+◌, ◌-◌, ◌*◌, ◌/◌, ◌%◌, ◌^◌, Bool, true, false, not, ◌&&◌, ◌||◌, Option, none,
  some, ltb, leb, ◌==◌, if◌then◌else◌, get_or, set, replicate, ◌⊎◌, inl, inr, ℤ, sub_ℕ, pos, negsuc,
  Outcome, done, thrown,
}
use hyowon.Math.ExactPositiveSum.{
  Limbs, limb_count, word, Error, not_finite_non_negative, Sum, empty_sum, is_finite,
}
use hyowon.Math.ExactPositiveSum.Rounding.{
  highest_set_bit, bit, any_bits_below, extract_u64, round_up,
}

pub record SignedSum : Type 0 where
  pub positive : Sum
  pub negative : Sum

unfoldable pub empty_signed_sum : SignedSum
empty_signed_sum = record { positive = empty_sum; negative = empty_sum }

-- `invalid_argument` is the class's own exception; the others are those of an accumulator.
pub data AddError : Type 0 where
  not_finite : AddError
  from_sum : Error → AddError

unfoldable pub with_positive : SignedSum → Outcome Error Sum → Outcome AddError SignedSum
with_positive s (done t) = done (record s { positive = t })
with_positive s (thrown e t) = thrown (from_sum e) (record s { positive = t })

unfoldable pub with_negative : SignedSum → Outcome Error Sum → Outcome AddError SignedSum
with_negative s (done t) = done (record s { negative = t })
with_negative s (thrown e t) = thrown (from_sum e) (record s { negative = t })

-- `value > 0.0` and `value < 0.0`, for a finite value; the negation of a negative one clears its
-- sign.
unfoldable pub add : SignedSum → ℕ → Outcome AddError SignedSum
add s value =
    if not (is_finite value)
    then thrown not_finite s
    else if ltb value (2 ^ 63) && not (value == 0)
    then with_positive s (hyowon.Math.ExactPositiveSum.add s.positive value)
    else if ltb (2 ^ 63) value
    then with_negative s (hyowon.Math.ExactPositiveSum.add s.negative (value - 2 ^ 63))
    else done s

-- The loop from the highest limb down, with `left` limbs to compare.
unfoldable pub compare_loop : ℕ → Limbs → Limbs → ℤ
compare_loop zero lhs rhs = pos 0
compare_loop (suc index) lhs rhs =
    let rest = compare_loop index lhs rhs in
    if ltb (get_or lhs index 0) (get_or rhs index 0)
    then negsuc 0
    else if ltb (get_or rhs index 0) (get_or lhs index 0)
    then pos 1
    else rest

unfoldable pub compare : Limbs → Limbs → ℤ
compare lhs rhs = compare_loop limb_count lhs rhs

-- The loop over the limbs, `left` of them from `index` on: the result and the borrow.
unfoldable pub subtract_loop : ℕ → ℕ → Limbs → Limbs → Limbs → Bool → Limbs × Bool
subtract_loop zero index lhs rhs result borrow = (result, borrow)
subtract_loop (suc left) index lhs rhs result borrow =
    let taken = if borrow then 1 else 0 in
    let first = (get_or lhs index 0 + word - get_or rhs index 0) % word in
    let first_borrow = ltb (get_or lhs index 0) (get_or rhs index 0) in
    let second = (first + word - taken) % word in
    let second_borrow = ltb first taken in
    subtract_loop left (index + 1) lhs rhs (set result index second) (first_borrow || second_borrow)

-- `none` is the exception on a difference below zero.
unfoldable pub subtract : Limbs → Limbs → Option Limbs
subtract lhs rhs =
    let (result, borrow) = subtract_loop limb_count 0 lhs rhs (replicate limb_count 0) false in
    if borrow then none else some result

pub data ValueError : Type 0 where
  subtraction_underflowed result_not_finite : ValueError

-- `-rounded`
unfoldable pub negated : ℕ → ℕ
negated bits = if ltb bits (2 ^ 63) then bits + 2 ^ 63 else bits - 2 ^ 63

unfoldable pub if_finite : ℕ → ValueError ⊎ ℕ
if_finite bits = if not (is_finite bits) then inl result_not_finite else inr bits

-- The magnitude of a difference, where its subtraction threw nothing.
unfoldable pub magnitude_value : (ℕ → ℤ → ℕ) → Option Limbs → ValueError ⊎ ℕ
magnitude_value ldexp none = inl subtraction_underflowed
magnitude_value ldexp (some limbs) = elim (highest_set_bit limbs) [
  | none ↦ inr 0
  | some highest ↦
      let discarded_bits = highest - 52 in
      let guard = bit limbs (discarded_bits - 1) in
      let sticky = any_bits_below limbs (discarded_bits - 1) in
      let (significand, rounded_highest) =
        round_up guard sticky (extract_u64 limbs discarded_bits % 2 ^ 53) highest in
      if leb highest 52
      then inr (ldexp (get_or limbs 0 0) (negsuc 1073))
      else if_finite (ldexp significand (sub_ℕ rounded_highest 1126))
]

unfoldable pub with_sign : Bool → ValueError ⊎ ℕ → ValueError ⊎ ℕ
with_sign negative_result (inl e) = inl e
with_sign negative_result (inr bits) = inr (if negative_result then negated bits else bits)

unfoldable pub value_of : (ℕ → ℤ → ℕ) → Limbs → Limbs → ℤ → ValueError ⊎ ℕ
value_of ldexp positive negative (negsuc n) =
    with_sign true (magnitude_value ldexp (subtract negative positive))
value_of ldexp positive negative (pos zero) = inr 0
value_of ldexp positive negative (pos (suc n)) =
    with_sign false (magnitude_value ldexp (subtract positive negative))

unfoldable pub value : (ℕ → ℤ → ℕ) → SignedSum → ValueError ⊎ ℕ
value ldexp s =
    value_of ldexp s.positive.limbs s.negative.limbs (compare s.positive.limbs s.negative.limbs)
