-- ===== src/Math/ExactProductSum/Rounding.antt =====
-- include/cosmo_nbody/math/exact_binary64_product_sum.hpp: the one rounding to a binary64 pattern.
pub mod Shifted
pub mod Pattern
pub mod Normal
pub mod Nearest
use hyowon.Common.{
  ℕ, zero, suc, ◌+◌, ◌-◌, ◌*◌, ◌/◌, ◌%◌, ◌^◌, Bool, true, false, not, ◌&&◌, ◌||◌, Option, none,
  some, List, ltb, leb, ◌==◌, if◌then◌else◌, get_or, bit_or, ◌⊎◌, inl, inr, ℤ, pos, negsuc, ◌+ℤ◌,
}
use hyowon.Math.ExactPositiveSum.{Limbs, word}
use hyowon.Math.ExactPositiveSum.Rounding.{highest_loop, any_loop}
use hyowon.Math.ExactProductSum.{
  Error, nonzero_underflows, not_representable, ordering_violated, accumulator_limbs, base_exponent,
  ExactBinary64ProductTerm, Totals, no_totals, compare, subtract, terms_loop,
}

-- `none` is the greatest `std::size_t`.
unfoldable pub highest_set_bit : Limbs → Option ℕ
highest_set_bit value = highest_loop accumulator_limbs value

unfoldable pub bit : Limbs → ℕ → Bool
bit value position = not (get_or value (position / 64) 0 / 2 ^ (position % 64) % 2 == 0)

unfoldable pub any_bits_below : Limbs → ℕ → Bool
any_bits_below value exclusive_end =
    let complete_words = exclusive_end / 64 in
    let remainder = exclusive_end % 64 in
    if any_loop complete_words 0 value
    then true
    else if not (remainder == 0)
    then not (get_or value complete_words 0 % 2 ^ remainder == 0)
    else false

unfoldable pub extract_u64 : Limbs → ℕ → ℕ
extract_u64 value shift =
    let index = shift / 64 in
    let offset = shift % 64 in
    let result = if ltb index accumulator_limbs then get_or value index 0 / 2 ^ offset else 0 in
    let next = get_or value (index + 1) 0 * 2 ^ (64 - offset) % word in
    if not (offset == 0) && ltb (index + 1) accumulator_limbs then bit_or next result else result

unfoldable pub rounded_shifted_integer : Limbs → ℕ → ℕ
rounded_shifted_integer magnitude shift =
    let significand = extract_u64 magnitude shift in
    let guard = bit magnitude (shift - 1) in
    let sticky = any_bits_below magnitude (shift - 1) in
    if shift == 0
    then significand
    else if guard && (sticky || not (significand % 2 == 0))
    then (significand + 1) % word
    else significand

-- The smallest normal number is 2 ^ -1022.
unfoldable pub is_subnormal : ℤ → Bool
is_subnormal (pos n) = false
is_subnormal (negsuc n) = leb 1022 n

-- `rounded_exponent > 1023`
unfoldable pub is_too_large : ℤ → Bool
is_too_large (pos n) = ltb 1023 n
is_too_large (negsuc n) = false

-- `rounded_exponent + 1023` as a word.
abbrev pub biased : ℤ → ℕ
biased (pos n) = n
biased (negsuc n) = (word - (n + 1) % word) % word

-- `-1074 - base_exponent`
abbrev pub subnormal_shift : ℕ
subnormal_shift = 4296

unfoldable pub normal_bits : ℕ → ℕ → ℕ → Error ⊎ ℕ
normal_bits sign significand shift =
    let rounded_exponent = base_exponent +ℤ pos shift +ℤ pos 52 in
    if is_too_large rounded_exponent
    then inl not_representable
    else inr (
        bit_or (bit_or sign (biased (rounded_exponent +ℤ pos 1023) * 2 ^ 52 % word))
          (significand % 2 ^ 52))

-- After `if (significand == 2 ^ 53)`.
unfoldable pub carried : ℕ → ℕ → ℕ → Error ⊎ ℕ
carried sign significand shift =
    if significand == 2 ^ 53
    then normal_bits sign (significand / 2) (shift + 1)
    else normal_bits sign significand shift

unfoldable pub rounded_binary64 : Limbs → Bool → Error ⊎ ℕ
rounded_binary64 magnitude negative = elim (highest_set_bit magnitude) [
  | none ↦ inr 0
  | some highest ↦
      let value_exponent = pos highest +ℤ base_exponent in
      let sign = if negative then 2 ^ 63 else 0 in
      let units = rounded_shifted_integer magnitude subnormal_shift in
      let shift = if ltb 52 highest then highest - 52 else 0 in
      if is_subnormal value_exponent
      then (if units == 0 then inl nonzero_underflows else inr (bit_or sign units))
      else carried sign (rounded_shifted_integer magnitude shift) shift
]

-- The magnitude of a difference, where its subtraction threw nothing.
abbrev pub rounded_difference : Option Limbs → Bool → Error ⊎ ℕ
rounded_difference none negative = inl ordering_violated
rounded_difference (some magnitude) negative = rounded_binary64 magnitude negative

abbrev pub by_ordering : Totals → ℤ → Error ⊎ ℕ
by_ordering t (pos zero) = inr 0
by_ordering t (pos (suc n)) = rounded_difference (subtract t.positive t.negative) false
by_ordering t (negsuc n) = rounded_difference (subtract t.negative t.positive) true

unfoldable pub exact_binary64_product_sum : List ExactBinary64ProductTerm → Error ⊎ ℕ
exact_binary64_product_sum terms = elim (terms_loop no_totals terms) [
  | inl e ↦ inl e
  | inr t ↦ by_ordering t (compare t.positive t.negative)
]
