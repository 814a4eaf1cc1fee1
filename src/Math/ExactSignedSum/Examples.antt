-- ===== src/Math/ExactSignedSum/Examples.antt =====
-- Runs of the signed sum, and its theorems at concrete inputs.
use hyowon.Common.{refl, arith}
use hyowon.Math.ExactPositiveSum.{empty_sum, exponent_field, is_finite}
use hyowon.Math.ExactPositiveSum.Limbs.{number}
use hyowon.Math.ExactPositiveSum.Adding.{empty_sum-IsValid}
use hyowon.Math.ExactPositiveSum.Rounding.Ldexp.{
  exact_ldexp, exact_ldexp-IsExact, exact_ldexp-IsUnsigned,
}
use hyowon.Math.ExactSignedSum.{SignedSum, empty_signed_sum, value}
use hyowon.Math.ExactSignedSum.Exact.{
  BothValid, ReadsDifference, value-ReadsDifference, GainsSigned, add-GainsSigned,
}

empty_signed_sum-BothValid : BothValid empty_signed_sum
unfolding empty_signed_sum
empty_signed_sum-BothValid = (empty_sum-IsValid, empty_sum-IsValid)

-- -1.0 goes to the negative sum.
minus_one_added :
    GainsSigned empty_signed_sum 0xbff0_0000_0000_0000
      (hyowon.Math.ExactSignedSum.add empty_signed_sum 0xbff0_0000_0000_0000)
minus_one_added =
    add-GainsSigned empty_signed_sum 0xbff0_0000_0000_0000 empty_signed_sum-BothValid (omega arith)
      (unfold is_finite exponent_field in refl) (unfold empty_signed_sum empty_sum in omega arith)
      (unfold empty_signed_sum empty_sum in omega arith)

one_negative : SignedSum
one_negative = minus_one_added.0

one_negative-BothValid : BothValid one_negative
unfolding one_negative
one_negative-BothValid = minus_one_added.2

value-ReadsDifference_example :
    ReadsDifference exact_ldexp
      (number one_negative.positive.limbs)
      (number one_negative.negative.limbs)
      (value exact_ldexp one_negative)
value-ReadsDifference_example =
    value-ReadsDifference exact_ldexp exact_ldexp-IsExact exact_ldexp-IsUnsigned one_negative
      one_negative-BothValid

-- 1.5 goes to the positive sum.
add-GainsSigned_example :
    GainsSigned empty_signed_sum 0x3ff8_0000_0000_0000
      (hyowon.Math.ExactSignedSum.add empty_signed_sum 0x3ff8_0000_0000_0000)
add-GainsSigned_example =
    add-GainsSigned empty_signed_sum 0x3ff8_0000_0000_0000 empty_signed_sum-BothValid (omega arith)
      (unfold is_finite exponent_field in refl) (unfold empty_signed_sum empty_sum in omega arith)
      (unfold empty_signed_sum empty_sum in omega arith)
