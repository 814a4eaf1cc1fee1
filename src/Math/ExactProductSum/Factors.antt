-- ===== src/Math/ExactProductSum/Factors.antt =====
-- include/cosmo_nbody/math/exact_binary64_product_sum.hpp: the factors of one term, and the integer
-- that a term stands for.
use hyowon.Common.{
  ℕ, ◌+◌, ◌-◌, ◌*◌, ◌/◌, ◌%◌, ◌^◌, ◌<◌, ◌≤◌, ◌≡◌, refl, sym, ap, ◌∙◌, false, not, some, ltb, ◌==◌,
  arith, tests, Bool-cases, inl, inr, ℤ, negsuc, sub_ℕ, bit_or-disjoint, bit_or,
}
use hyowon.Math.ExactPositiveSum.{exponent_field, fraction_field}
use hyowon.Math.ExactPositiveSum.Terms.{units, units_no_sign, units_subnormal, units_normal}
use hyowon.Math.ExactProductSum.{DecodedBinary64, decode_binary64}

-- The pattern of a finite number of either sign.
abbrev pub IsFactor : ℕ → Type 0
IsFactor v = v % 2 ^ 63 < 0x7ff * 2 ^ 52

-- The fields of a factor, and its value in units of 2 ^ -1074.
pub record ReadsFactor (v : ℕ) (d : DecodedBinary64) : Type 0 where
  pub sign : d.negative ≡ not (v / 2 ^ 63 == 0)
  pub significand-lt : d.significand < 2 ^ 53
  pub shift : ℕ
  pub shift-le : shift ≤ 2045
  pub exponent : d.exponent ≡ sub_ℕ shift 1074
  pub value : d.significand * 2 ^ shift ≡ units v

-- What `decode_binary64` gives for a pattern below the normal numbers, and for the others.
abbrev fields : ℕ → ℕ → ℤ → DecodedBinary64
fields v significand exponent = record {
  negative = not (v / 2 ^ 63 == 0);
  significand = significand;
  exponent = exponent;
}

decode_subnormal :
    (v : ℕ) → v % 2 ^ 63 < 2 ^ 52 → decode_binary64 v ≡ some (fields v (v % 2 ^ 52) (negsuc 1073))
unfolding decode_binary64
decode_subnormal v h =
    let low : exponent_field v ≡ 0 = unfold exponent_field in omega arith in
    rw (low, decode_binary64) refl

decode_normal :
    (v : ℕ)
    → 2 ^ 52 ≤ v % 2 ^ 63
    → IsFactor v
    → decode_binary64 v ≡ some (fields v (2 ^ 52 + v % 2 ^ 52) (sub_ℕ (v % 2 ^ 63 / 2 ^ 52) 1075))
unfolding decode_binary64
decode_normal v lo hi =
    let field : exponent_field v ≡ v % 2 ^ 63 / 2 ^ 52 = unfold exponent_field in omega arith in
    let finite : (v % 2 ^ 63 / 2 ^ 52 == 0x7ff) ≡ false = ground arith in
    let nonzero : (v % 2 ^ 63 / 2 ^ 52 == 0) ≡ false = ground arith in
    let joined : bit_or (2 ^ 52) (fraction_field v) ≡ 2 ^ 52 + v % 2 ^ 52 =
      unfold fraction_field in bit_or-disjoint 52 1 (v % 2 ^ 52) (omega arith) in
    rw (field, decode_binary64, finite, nonzero, joined) refl

pub decode_binary64-reads :
    (v : ℕ) → IsFactor v → (d : DecodedBinary64) × (decode_binary64 v ≡ some d) × ReadsFactor v d
decode_binary64-reads v finite = elim (Bool-cases (ltb (v % 2 ^ 63) (2 ^ 52))) [
  | inl small ↦
      let lt : v % 2 ^ 63 < 2 ^ 52 = omega tests in
      (
        fields v (v % 2 ^ 52) (negsuc 1073),
        decode_subnormal v lt,
        record {
          sign = refl;
          significand-lt = omega arith;
          shift = 0;
          shift-le = omega arith;
          exponent = refl;
          value = omega (arith, units_no_sign v, units_subnormal (v % 2 ^ 63) lt);
        },
      )
  | inr normal ↦
      let le : 2 ^ 52 ≤ v % 2 ^ 63 = omega tests in
      (
        _,
        decode_normal v le finite,
        record {
          sign = refl;
          significand-lt = omega arith;
          shift = v % 2 ^ 63 / 2 ^ 52 - 1;
          shift-le = omega arith;
          exponent = ground arith;
          value =
              let same : v % 2 ^ 52 ≡ v % 2 ^ 63 % 2 ^ 52 = omega arith in
              ap (λ (n : ℕ). (2 ^ 52 + n) * 2 ^ (v % 2 ^ 63 / 2 ^ 52 - 1)) same
              ∙ sym (units_normal (v % 2 ^ 63) le finite)
              ∙ units_no_sign v;
        },
      )
]
