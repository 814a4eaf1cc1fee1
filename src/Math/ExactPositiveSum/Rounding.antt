-- ===== src/Math/ExactPositiveSum/Rounding.antt =====
-- include/cosmo_nbody/math/exact_positive_sum.hpp: how the accumulator is read. `std::ldexp` of a
-- converted significand is a parameter; the exponent is the library's own integer.
pub mod Digits
pub mod Nearest
pub mod Components
pub mod Value
pub mod Ldexp
mod Examples
pub mod Highest
pub mod Below
use hyowon.Common.{
  ℕ, zero, suc, ◌+◌, ◌-◌, ◌*◌, ◌/◌, ◌%◌, ◌^◌, min, Bool, true, false, not, ◌&&◌, ◌||◌, Option, none,
  some, ltb, leb, ◌==◌, if◌then◌else◌, get_or, bit_or, ℤ, negsuc, sub_ℕ,
}
use hyowon.Math.ExactPositiveSum.{Limbs, limb_count, word, is_finite}

-- The count of binary digits of a word, 64 - std::countl_zero.
unfoldable pub bit_width : ℕ → ℕ → ℕ
bit_width zero w = 0
bit_width (suc fuel) w = let rest = bit_width fuel (w / 2) in if w == 0 then 0 else suc rest

unfoldable pub countl_zero : ℕ → ℕ
countl_zero w = 64 - bit_width 64 w

-- The loop from the highest limb down; `none` is `no_bit`.
unfoldable pub highest_loop : ℕ → Limbs → Option ℕ
highest_loop zero limbs = none
highest_loop (suc index) limbs =
    let w = get_or limbs index 0 in
    let rest = highest_loop index limbs in
    if w == 0 then rest else some (index * 64 + (63 - countl_zero w))

unfoldable pub highest_set_bit : Limbs → Option ℕ
highest_set_bit limbs = highest_loop limb_count limbs

unfoldable pub bit : Limbs → ℕ → Bool
bit limbs position =
    let index = position / 64 in
    let offset = position % 64 in
    ltb index limb_count && not (get_or limbs index 0 / 2 ^ offset % 2 == 0)

-- The loop over the complete limbs, `left` of them from `index` on.
unfoldable pub any_loop : ℕ → ℕ → Limbs → Bool
any_loop zero index limbs = false
any_loop (suc left) index limbs =
    let rest = any_loop left (index + 1) limbs in
    if not (get_or limbs index 0 == 0) then true else rest

unfoldable pub any_bits_below : Limbs → ℕ → Bool
any_bits_below limbs exclusive_end =
    let complete_limbs = exclusive_end / 64 in
    let remainder = exclusive_end % 64 in
    if exclusive_end == 0
    then false
    else if any_loop (min complete_limbs limb_count) 0 limbs
    then true
    else if not (remainder == 0) && ltb complete_limbs limb_count
    then not (get_or limbs complete_limbs 0 % 2 ^ remainder == 0)
    else false

unfoldable pub extract_u64 : Limbs → ℕ → ℕ
extract_u64 limbs shift =
    let index = shift / 64 in
    let offset = shift % 64 in
    let result = get_or limbs index 0 / 2 ^ offset in
    let next = get_or limbs (index + 1) 0 * 2 ^ (64 - offset) % word in
    if leb limb_count index
    then 0
    else if not (offset == 0) && ltb (index + 1) limb_count
    then bit_or next result
    else result

-- The significand and the place of its highest bit, after `if (guard && (sticky || odd))`.
unfoldable pub round_up : Bool → Bool → ℕ → ℕ → ℕ × ℕ
round_up guard sticky significand highest =
    if guard && (sticky || not (significand % 2 == 0))
    then (if significand + 1 == 2 ^ 53
        then ((significand + 1) / 2, highest + 1)
        else (significand + 1, highest))
    else (significand, highest)

-- `none` is the result `false`, that of the empty sum.
unfoldable pub rounded_binary64_components : Limbs → Option (ℕ × ℤ)
rounded_binary64_components limbs = elim (highest_set_bit limbs) [
  | none ↦ none
  | some highest ↦
      let discarded_bits = highest - 52 in
      let guard = bit limbs (discarded_bits - 1) in
      let sticky = any_bits_below limbs (discarded_bits - 1) in
      let (significand, rounded_highest) =
        round_up guard sticky (extract_u64 limbs discarded_bits % 2 ^ 53) highest in
      if leb highest 52
      then some (get_or limbs 0 0, negsuc 1073)
      else some (significand, sub_ℕ rounded_highest 1126)
]

-- `value()`: a bit pattern, or `none` for the exception on a result that is not finite.
unfoldable pub value : (ℕ → ℤ → ℕ) → Limbs → Option ℕ
value ldexp limbs = elim (rounded_binary64_components limbs) [
  | none ↦ some 0
  | some (significand, exponent) ↦
      if not (is_finite (ldexp significand exponent))
      then none
      else some (ldexp significand exponent)
]
