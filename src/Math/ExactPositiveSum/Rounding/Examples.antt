-- ===== src/Math/ExactPositiveSum/Rounding/Examples.antt =====
-- `value` at a concrete input.
use hyowon.Common.{ℕ, ◌≡◌, some, done, arith}
use hyowon.Math.ExactPositiveSum.{Sum, add, empty_sum}
use hyowon.Math.ExactPositiveSum.Rounding.{value}
use hyowon.Math.ExactPositiveSum.Rounding.Ldexp.{exact_ldexp, exact_ldexp-IsExact}
use hyowon.Math.ExactPositiveSum.Rounding.Value.{value-add}

-- The bit pattern of 1.0.
abbrev one : ℕ
one = 0x3ff0_0000_0000_0000

value-add_example :
    (t : Sum) × (add empty_sum one ≡ done t) × (value exact_ldexp t.limbs ≡ some one)
value-add_example = value-add exact_ldexp exact_ldexp-IsExact one (omega arith)
