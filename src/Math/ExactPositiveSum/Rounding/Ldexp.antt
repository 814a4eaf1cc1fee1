-- ===== src/Math/ExactPositiveSum/Rounding/Ldexp.antt =====
-- A function that meets what the readings of the sums rely on of `std::ldexp`: exact on representable
-- results, of which it cuts off the bits that do not fit, and infinity where the result is too large.
use native.Mathlib.Nat.{pow-suc, pow-le-pow_right, mul-div_cancel, le_trans, mul-le-mul_right}
use hyowon.Common.{
  ℕ, zero, suc, ◌+◌, ◌-◌, ◌*◌, ◌/◌, ◌%◌, ◌^◌, ◌<◌, ◌≤◌, ◌≡◌, refl, ◌∙◌, inl, inr, true, false,
  arith, tests, ltb, ltb→lt, ltb→le, lt→ltb, if◌then◌else◌, Bool-cases, two_pow_pos, ℤ, pos_part,
  neg_part, sub_ℕ, pow-add,
}
use hyowon.Math.ExactPositiveSum.Terms.{units, units_subnormal, units_normal}
use hyowon.Math.ExactPositiveSum.Rounding.{bit_width}
use hyowon.Math.ExactPositiveSum.Rounding.Highest.{bit_width_lem, bit_width-zero}
use hyowon.Math.ExactPositiveSum.Rounding.Value.{LdexpIsExact, LdexpIsUnsigned}

-- The pattern of the number with `n` units, where it is representable.
abbrev pattern_at : ℕ → ℕ → ℕ
pattern_at n width =
    if ltb width 53 then n else (width - 52) * 2 ^ 52 + (n / 2 ^ (width - 53) - 2 ^ 52)

-- The pattern of infinity in place of what is no pattern of a finite number.
abbrev finite_or_infinity : ℕ → ℕ
finite_or_infinity pattern = if ltb pattern (0x7ff * 2 ^ 52) then pattern else 0x7ff * 2 ^ 52

unfoldable pub exact_ldexp : ℕ → ℤ → ℕ
exact_ldexp sig exp =
    let n = sig * 2 ^ (pos_part exp + 1074 - neg_part exp) in
    finite_or_infinity (pattern_at n (bit_width 2100 n))

width_unique : (n k b : ℕ) → 2 ^ k ≤ n → n < 2 ^ suc k → n < 2 ^ b → 2 ^ b ≤ 2 * n → b ≡ suc k
width_unique n k b lo hi above below = elim (Bool-cases (ltb k b)) [
  | inr small ↦
      let le : 2 ^ b ≤ 2 ^ k = pow-le-pow_right {n = 2} (omega arith) (ltb→le k b small) in
      absurd (omega arith)
  | inl large ↦ elim (Bool-cases (ltb (suc k) b)) [
    | inr equal ↦ omega tests
    | inl larger ↦
        let le : 2 ^ suc (suc k) ≤ 2 ^ b =
          pow-le-pow_right {n = 2} (omega arith) (ltb→lt (suc k) b larger) in
        absurd (omega (arith, pow-suc 2 (suc k)))
  ]
]

width_small : (n b : ℕ) → n < 2 ^ 52 → 2 ^ b ≤ 2 * n → b < 53
width_small n b h below = elim (Bool-cases (ltb b 53)) [
  | inl small ↦ ltb→lt b 53 small
  | inr large ↦
      let le : 2 ^ 53 ≤ 2 ^ b = pow-le-pow_right {n = 2} (omega arith) (ltb→le b 53 large) in
      absurd (omega arith)
]

fits_small : (n : ℕ) → n < 2 ^ 52 → n < 2 ^ 2100
fits_small n h = omega arith

width_subnormal : (v : ℕ) → v < 2 ^ 52 → bit_width 2100 v < 53
width_subnormal zero h = rw (bit_width-zero 2100) (omega arith)
width_subnormal (suc v) h =
    let (above, below) = bit_width_lem 2100 (suc v) (fits_small (suc v) h) in
    width_small (suc v) (bit_width 2100 (suc v)) h (below (omega arith))

module _ (m k : ℕ) (norm : 2 ^ 52 ≤ m) (lt : m < 2 ^ 53) (le : k ≤ 2045) where
  scaled_lo : 2 ^ (52 + k) ≤ m * 2 ^ k
  scaled_lo = rw (pow-add 2 52 k) (mul-le-mul_right (2 ^ k) norm)

  scaled_hi : m * 2 ^ k < 2 ^ suc (52 + k)
  scaled_hi =
      let double = pow-suc 2 (52 + k) in
      let top : suc m * 2 ^ k ≤ 2 ^ 53 * 2 ^ k = mul-le-mul_right (2 ^ k) lt in
      omega (arith, pow-add 2 52 k, two_pow_pos k)

  width_normal : bit_width 2100 (m * 2 ^ k) ≡ suc (52 + k)
  width_normal =
      let room : 2 ^ suc (52 + k) ≤ 2 ^ 2100 =
        pow-le-pow_right {n = 2} (omega arith) {j = 2100} (omega arith) in
      let (above, below) = bit_width_lem 2100 (m * 2 ^ k) (le_trans scaled_hi room) in
      width_unique (m * 2 ^ k) (52 + k) _ scaled_lo scaled_hi above
        (below (le_trans (two_pow_pos (52 + k)) scaled_lo))

  pattern_normal :
      pattern_at (m * 2 ^ k) (bit_width 2100 (m * 2 ^ k)) ≡ suc k * 2 ^ 52 + (m - 2 ^ 52)
  pattern_normal =
      let high : ltb (suc (52 + k)) 53 ≡ false = ground arith in
      let e : suc (52 + k) - 52 ≡ suc k = omega arith in
      let shift : suc (52 + k) - 53 ≡ k = omega arith in
      rw (width_normal, high, e, shift, mul-div_cancel m (two_pow_pos k))

pattern_units : (v : ℕ) → v < 0x7ff * 2 ^ 52 → pattern_at (units v) (bit_width 2100 (units v)) ≡ v
pattern_units v h = elim (Bool-cases (ltb v (2 ^ 52))) [
  | inl small ↦
      let lt : v < 2 ^ 52 = omega tests in
      rw (units_subnormal v lt, lt→ltb (bit_width 2100 v) 53 (width_subnormal v lt))
  | inr large ↦
      let le : 2 ^ 52 ≤ v = omega tests in
      rw (units_normal v le h) (
        pattern_normal (2 ^ 52 + v % 2 ^ 52) (v / 2 ^ 52 - 1) (omega arith) (omega arith)
          (omega arith)
        ∙ omega arith)
]

same_scale : (e : ℕ) → pos_part (sub_ℕ e 1074) + 1074 - neg_part (sub_ℕ e 1074) ≡ e
same_scale e = ground arith

pub exact_ldexp-IsExact : LdexpIsExact exact_ldexp
unfolding exact_ldexp
exact_ldexp-IsExact v sig e h same =
    let small : ltb v (0x7ff * 2 ^ 52) ≡ true = omega tests in
    rw (same_scale e, ← same, pattern_units v h, small) refl

infinity_or_less : (pattern : ℕ) → finite_or_infinity pattern < 2 ^ 63
infinity_or_less pattern = ground arith

pub exact_ldexp-IsUnsigned : LdexpIsUnsigned exact_ldexp
unfolding exact_ldexp
exact_ldexp-IsUnsigned sig exp =
    let n : ℕ = sig * 2 ^ (pos_part exp + 1074 - neg_part exp) in
    infinity_or_less (pattern_at n (bit_width 2100 n))
