-- ===== src/Math/ExactProductSum.antt =====
-- include/cosmo_nbody/math/exact_binary64_product_sum.hpp: sums of products of binary64 numbers, exact
-- until one rounding. A `double` is its bit pattern, an array of limbs a list with the least
-- significant first, an `int` an integer.
pub mod Multiply
pub mod Adding
pub mod Difference
pub mod Factors
pub mod Products
pub mod Terms
pub mod Rounding
pub mod Exact
pub mod Misuse
mod Examples
use hyowon.Common.{
  ℕ, zero, suc, ◌+◌, ◌-◌, ◌*◌, ◌/◌, ◌%◌, ◌^◌, Bool, true, false, not, ◌&&◌, ◌||◌, Option, none,
  some, List, [], ◌∷◌, ltb, leb, ◌==◌, if◌then◌else◌, get_or, set, take, length, replicate, bit_or,
  ◌⊎◌, inl, inr, ℤ, pos, negsuc, sub_ℕ, ◌+ℤ◌, ◌-ℤ◌, Outcome, done, thrown, ◌>>=◌,
}
use hyowon.Math.ExactPositiveSum.{
  Limbs, word, carry_loop, exponent_field, fraction_field, is_finite,
}
use hyowon.Math.ExactSignedSum.{compare_loop}

-- The exceptions; `product_exceeds_limbs` and `sum_exceeds_limbs` are those of the limbs' envelope.
pub data Error : Type 0 where
  factor_not_finite product_exceeds_limbs sum_exceeds_limbs ordering_violated : Error
  nonzero_underflows not_representable bad_factor_count below_base : Error

-- `factors` has five elements, of which the first `factor_count` are the term's.
pub record ExactBinary64ProductTerm : Type 0 where
  pub factors : List ℕ
  pub factor_count : ℕ

abbrev pub base_exponent : ℤ
base_exponent = negsuc 5369

abbrev pub accumulator_limbs : ℕ
accumulator_limbs = 166

abbrev pub product_limbs : ℕ
product_limbs = 6

pub record UInt128Words : Type 0 where
  pub high : ℕ
  pub low : ℕ

unfoldable pub multiply_u64 : ℕ → ℕ → UInt128Words
multiply_u64 lhs rhs =
    let lhs_low = lhs % 2 ^ 32 in
    let lhs_high = lhs / 2 ^ 32 in
    let rhs_low = rhs % 2 ^ 32 in
    let rhs_high = rhs / 2 ^ 32 in
    let product_low_low = lhs_low * rhs_low % word in
    let product_low_high = lhs_low * rhs_high % word in
    let product_high_low = lhs_high * rhs_low % word in
    let product_high_high = lhs_high * rhs_high % word in
    let first = (product_low_low + product_low_high * 2 ^ 32 % word) % word in
    let first_carry = if ltb first product_low_low then 1 else 0 in
    let second = (first + product_high_low * 2 ^ 32 % word) % word in
    let carry = first_carry + (if ltb second first then 1 else 0) in
    record {
      high =
          (product_high_high + product_low_high / 2 ^ 32 + product_high_low / 2 ^ 32 + carry)
          % word;
      low = second;
    }

pub record DecodedBinary64 : Type 0 where
  pub negative : Bool
  pub significand : ℕ
  pub exponent : ℤ

-- `none` is the exception on a value that is not finite.
unfoldable pub decode_binary64 : ℕ → Option DecodedBinary64
unfolding exponent_field fraction_field
decode_binary64 bits =
    let negative = not (bits / 2 ^ 63 == 0) in
    if exponent_field bits == 0x7ff
    then none
    else if exponent_field bits == 0
    then some
        (record { negative = negative; significand = fraction_field bits; exponent = negsuc 1073 })
    else some (record {
      negative = negative;
      significand = bit_or (2 ^ 52) (fraction_field bits);
      exponent = sub_ℕ (exponent_field bits) 1075;
    })

-- The loop over the limbs: the product's limbs, and the carry behind the last.
unfoldable pub multiply_loop : Limbs → ℕ → ℕ → Limbs × ℕ
multiply_loop [] factor carry = ([], carry)
multiply_loop (w ∷ ws) factor carry =
    let wide = multiply_u64 w factor in
    let low = (wide.low + carry) % word in
    let carry_from_low = if ltb low wide.low then 1 else 0 in
    let (rest, last) = multiply_loop ws factor ((wide.high + carry_from_low) % word) in
    (low ∷ rest, last)

-- `none` is the exception on a carry behind the last limb.
unfoldable pub multiply_product : Limbs → ℕ → Option Limbs
multiply_product product factor =
    let (limbs, carry) = multiply_loop product factor 0 in if carry == 0 then some limbs else none

-- The loop of `add_word` has the text of the positive accumulator's.
unfoldable pub add_word : Limbs → ℕ → ℕ → Outcome hyowon.Math.ExactPositiveSum.Error Limbs
add_word accumulator index w = carry_loop (accumulator_limbs - index) accumulator index w

-- One limb of the product, `index` limbs above the shift's own.
unfoldable pub add_shifted_limb :
    Limbs → ℕ → ℕ → ℕ → Outcome hyowon.Math.ExactPositiveSum.Error Limbs
add_shifted_limb accumulator w index shift =
    let word_offset = shift / 64 in
    let bit_offset = shift % 64 in
    let low = add_word accumulator (word_offset + index) (w * 2 ^ bit_offset % word) in
    let both = low >>= (λ ls. add_word ls (word_offset + index + 1) (w / 2 ^ (64 - bit_offset))) in
    if w == 0 then done accumulator else if bit_offset == 0 then low else both

-- The loop over the limbs of the product from `index` on.
unfoldable pub add_shifted_product :
    Limbs → Limbs → ℕ → ℕ → Outcome hyowon.Math.ExactPositiveSum.Error Limbs
add_shifted_product accumulator [] index shift = done accumulator
add_shifted_product accumulator (w ∷ ws) index shift =
    add_shifted_limb accumulator w index shift
    >>= (λ ls. add_shifted_product ls ws (index + 1) shift)

unfoldable pub compare : Limbs → Limbs → ℤ
compare lhs rhs = compare_loop accumulator_limbs lhs rhs

-- The loop over the limbs, `left` of them from `index` on: the difference and the borrow.
unfoldable pub subtract_loop : ℕ → ℕ → Limbs → Limbs → Limbs → Bool → Limbs × Bool
subtract_loop zero index lhs rhs difference borrow = (difference, borrow)
subtract_loop (suc left) index lhs rhs difference borrow =
    let rhs_word = get_or rhs index 0 in
    let lhs_word = get_or lhs index 0 in
    let subtrahend = (rhs_word + (if borrow then 1 else 0)) % word in
    let carry_into_subtrahend = ltb subtrahend rhs_word in
    subtract_loop left (index + 1) lhs rhs
      (set difference index ((lhs_word + word - subtrahend) % word))
      (carry_into_subtrahend || ltb lhs_word subtrahend)

-- `none` is the exception on a difference below zero.
unfoldable pub subtract : Limbs → Limbs → Option Limbs
subtract lhs rhs =
    let (difference, borrow) =
      subtract_loop accumulator_limbs 0 lhs rhs (replicate accumulator_limbs 0) false in
    if borrow then none else some difference

-- The product of the factors so far.
pub record Product : Type 0 where
  pub product_negative : Bool
  pub product_zero : Bool
  pub exponent : ℤ
  pub product : Limbs

unfoldable pub one_product : Product
one_product = record {
  product_negative = false;
  product_zero = false;
  exponent = pos 0;
  product = 1 ∷ replicate (product_limbs - 1) 0;
}

-- The factor's limbs and exponent, where nothing was thrown.
abbrev pub with_product : Product → Option Limbs → ℤ → Error ⊎ Product
with_product p none exponent = inl product_exceeds_limbs
with_product p (some limbs) exponent = inr (record p { product = limbs; exponent = exponent })

-- One decoded factor.
unfoldable pub with_factor : Product → DecodedBinary64 → Error ⊎ Product
with_factor p decoded =
    let signed = record p {
      product_negative = if decoded.negative then not p.product_negative else p.product_negative;
    } in
    if decoded.significand == 0
    then inr (record signed { product_zero = true })
    else if p.product_zero
    then inr signed
    else with_product signed (multiply_product p.product decoded.significand)
        (p.exponent +ℤ decoded.exponent)

unfoldable pub factors_loop : Product → List ℕ → Error ⊎ Product
factors_loop p [] = inr p
factors_loop p (f ∷ fs) = elim (decode_binary64 f) [
  | none ↦ inl factor_not_finite
  | some decoded ↦ elim (with_factor p decoded) [ inl e ↦ inl e | inr q ↦ factors_loop q fs ]
]

pub record Totals : Type 0 where
  pub positive : Limbs
  pub negative : Limbs

unfoldable pub no_totals : Totals
no_totals = record {
  positive = replicate accumulator_limbs 0;
  negative = replicate accumulator_limbs 0;
}

abbrev pub with_total :
    Bool → Totals → Outcome hyowon.Math.ExactPositiveSum.Error Limbs → Error ⊎ Totals
with_total negative t (thrown e ls) = inl sum_exceeds_limbs
with_total true t (done ls) = inr (record t { negative = ls })
with_total false t (done ls) = inr (record t { positive = ls })

-- A product that is not zero, at its shift.
abbrev pub add_product : Totals → Product → ℤ → Error ⊎ Totals
add_product t p (negsuc k) = inl below_base
add_product t p (pos shift) =
    with_total p.product_negative t (
      add_shifted_product (if p.product_negative then t.negative else t.positive) p.product 0 shift)

unfoldable pub add_term : Totals → ExactBinary64ProductTerm → Error ⊎ Totals
add_term t term =
    if term.factor_count == 0 || ltb (length term.factors) term.factor_count
    then inl bad_factor_count
    else elim (factors_loop one_product (take term.factor_count term.factors)) [
      | inl e ↦ inl e
      | inr p ↦ if p.product_zero then inr t else add_product t p (p.exponent -ℤ base_exponent)
    ]

unfoldable pub terms_loop : Totals → List ExactBinary64ProductTerm → Error ⊎ Totals
terms_loop t [] = inr t
terms_loop t (term ∷ terms) = elim (add_term t term) [ inl e ↦ inl e | inr u ↦ terms_loop u terms ]
