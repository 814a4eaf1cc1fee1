-- ===== src/Math/ExactSignedSum/Exact.antt =====
-- include/cosmo_nbody/math/exact_signed_sum.hpp: `add` and `value` as statements on the integers of
-- the two sums.
use hyowon.Common.{
  ℕ, ◌+◌, ◌-◌, ◌*◌, ◌%◌, ◌^◌, ◌<◌, ◌≡◌, ◌≢◌, refl, ap, subst, ◌∙◌, ◌⊎◌, inl, inr, true, false, some,
  lt→ltb, arith, tests, ltb, ◌==◌, if◌then◌else◌, Bool-cases, ==→eq, ℤ, Outcome, done,
}
use hyowon.Math.ExactPositiveSum.{word, is_finite, exponent_field}
use hyowon.Math.ExactPositiveSum.Limbs.{number}
use hyowon.Math.ExactPositiveSum.Terms.{units, units-zero}
use hyowon.Math.ExactPositiveSum.Adding.{IsValid, add-Gains}
use hyowon.Math.ExactSignedSum.{
  SignedSum, AddError, ValueError, add, with_positive, with_negative, value_of, value, with_sign,
  negated, result_not_finite,
}
use hyowon.Math.ExactSignedSum.Magnitude.{
  ReadsMagnitude, finite_magnitude, infinite_magnitude, magnitude_value-Reads,
}
use hyowon.Math.ExactPositiveSum.Rounding.Components.{Rounds}
use hyowon.Math.ExactPositiveSum.Rounding.Value.{LdexpIsExact, LdexpIsUnsigned}
use hyowon.Math.ExactSignedSum.Subtract.{
  Compares, below, same, above, compare-Compares, subtract-exact,
}

-- Both sums are valid.
abbrev pub BothValid : SignedSum → Type 0
BothValid s = IsValid s.positive × IsValid s.negative

-- What `value` returns for the two integers: zero where they are equal, and else the result of `ldexp`
-- for the nearest number to their distance with a significand of 53 bits, its sign bit set where the
-- negative one is greater, or the exception where that result is not finite.
pub data ReadsDifference (ldexp : ℕ → ℤ → ℕ) (p n : ℕ) : ValueError ⊎ ℕ → Type 0 where
  no_difference : p ≡ n → ReadsDifference ldexp p n (inr 0)
  positive_difference :
      (sig : ℕ) (exp : ℤ)
      → n < p
      → Rounds (p - n) (some (sig, exp))
      → is_finite (ldexp sig exp) ≡ true
      → ReadsDifference ldexp p n (inr (ldexp sig exp))
  negative_difference :
      (sig : ℕ) (exp : ℤ)
      → p < n
      → Rounds (n - p) (some (sig, exp))
      → is_finite (ldexp sig exp) ≡ true
      → ReadsDifference ldexp p n (inr (ldexp sig exp + 2 ^ 63))
  too_large :
      (sig : ℕ) (exp : ℤ)
      → p ≢ n
      → Rounds (p - n + (n - p)) (some (sig, exp))
      → is_finite (ldexp sig exp) ≡ false
      → ReadsDifference ldexp p n (inl result_not_finite)

module _ (ldexp : ℕ → ℤ → ℕ) (exact : LdexpIsExact ldexp) (unsigned : LdexpIsUnsigned ldexp)
    (s : SignedSum) (v : BothValid s) where
  positive_reads :
      (p n : ℕ) (r : ValueError ⊎ ℕ)
      → n < p
      → ReadsMagnitude ldexp (p - n) r
      → ReadsDifference ldexp p n (with_sign false r)
  unfolding with_sign
  positive_reads p n r h (finite_magnitude sig exp rounds f) =
      positive_difference sig exp h rounds f
  positive_reads p n r h (infinite_magnitude sig exp rounds f) =
      let same : p - n ≡ p - n + (n - p) = omega arith in
      too_large sig exp (λ e. omega arith)
        (subst (λ (d : ℕ). Rounds d (some (sig, exp))) same rounds) f

  negative_reads :
      (p n : ℕ) (r : ValueError ⊎ ℕ)
      → p < n
      → ReadsMagnitude ldexp (n - p) r
      → ReadsDifference ldexp p n (with_sign true r)
  unfolding with_sign negated
  negative_reads p n r h (finite_magnitude sig exp rounds f) =
      let clear : ltb (ldexp sig exp) (2 ^ 63) ≡ true =
        lt→ltb (ldexp sig exp) (2 ^ 63) (unsigned sig exp) in
      rw clear (negative_difference sig exp h rounds f)
  negative_reads p n r h (infinite_magnitude sig exp rounds f) =
      let same : n - p ≡ p - n + (n - p) = omega arith in
      too_large sig exp (λ e. omega arith)
        (subst (λ (d : ℕ). Rounds d (some (sig, exp))) same rounds) f

  by_comparison :
      (r : ℤ)
      → Compares (number s.positive.limbs) (number s.negative.limbs) r
      → ReadsDifference ldexp
          (number s.positive.limbs)
          (number s.negative.limbs)
          (value_of ldexp s.positive.limbs s.negative.limbs r)
  unfolding value_of
  by_comparison r (same h) = no_difference h
  by_comparison r (above h) =
      let (ls, done_with, words, len, total) =
        subtract-exact s.positive.limbs s.negative.limbs v.0.width v.1.width v.0.words v.1.words
          (omega arith) in
      rw done_with (
        positive_reads _ _ _ h
          (magnitude_value-Reads ldexp exact ls len words _ (omega arith) (omega arith)))
  by_comparison r (below h) =
      let (ls, done_with, words, len, total) =
        subtract-exact s.negative.limbs s.positive.limbs v.1.width v.0.width v.1.words v.0.words
          (omega arith) in
      rw done_with (
        negative_reads _ _ _ h
          (magnitude_value-Reads ldexp exact ls len words _ (omega arith) (omega arith)))

  -- `value` of two valid sums returns +0 where their integers are equal, and else the result of
  -- `ldexp` for the nearest number to their exact distance with a 53-bit significand, ties to even,
  -- with the sign bit set exactly where the negative integer is greater; it throws only where that
  -- result is not finite, and the subtraction never throws. `ldexp` is exact on representable results
  -- and sets no sign bit.
  pub value-ReadsDifference :
      ReadsDifference ldexp (number s.positive.limbs) (number s.negative.limbs) (value ldexp s)
  unfolding value
  value-ReadsDifference =
      by_comparison _
        (compare-Compares s.positive.limbs s.negative.limbs v.0.width v.1.width v.0.words v.1.words)

-- The integer that a finite value adds to each of the two sums.
unfoldable pub positive_units : ℕ → ℕ
positive_units value = if ltb value (2 ^ 63) then units value else 0

unfoldable pub negative_units : ℕ → ℕ
negative_units value = if ltb (2 ^ 63) value then units (value - 2 ^ 63) else 0

-- What a call of `add` leaves where nothing is thrown.
abbrev pub GainsSigned : SignedSum → ℕ → Outcome AddError SignedSum → Type 0
GainsSigned s value r =
    (t : SignedSum) × (r ≡ done t)
    × BothValid t
    × (number t.positive.limbs ≡ number s.positive.limbs + positive_units value)
    × (number t.negative.limbs ≡ number s.negative.limbs + negative_units value)

finite-lt : (v : ℕ) → v < word → is_finite v ≡ true → v % 2 ^ 63 < 0x7ff * 2 ^ 52
unfolding is_finite exponent_field
finite-lt v h f = ground arith

-- A finite value is added exactly to the sum of its sign, while that sum's count has room; both
-- zeros are skipped.
pub add-GainsSigned :
    (s : SignedSum) (value : ℕ)
    → BothValid s
    → value < word
    → is_finite value ≡ true
    → s.positive.term_count + 1 < word
    → s.negative.term_count + 1 < word
    → GainsSigned s value (add s value)
unfolding add with_positive with_negative positive_units negative_units
add-GainsSigned s value v small finite hp hn =
    let bound = finite-lt value small finite in
    elim (Bool-cases (ltb value (2 ^ 63))) [
      | inl low ↦
          let high : ltb (2 ^ 63) value ≡ false = omega tests in
          elim (Bool-cases (value == 0)) [
            | inl nothing ↦
                let none_added : units value ≡ 0 = ap units (==→eq _ _ nothing) ∙ units-zero in
                rw (finite, low, high, nothing)
                  (s, refl, v, rw none_added (omega arith), omega arith)
            | inr something ↦
                let (t, e, vt, total, count) =
                  add-Gains s.positive value v.0 (inl (omega tests)) hp in
                rw (finite, low, high, something, e)
                  (record s { positive = t }, refl, (vt, v.1), total, omega arith)
          ]
      | inr not_low ↦ elim (Bool-cases (ltb (2 ^ 63) value)) [
        | inl high ↦
            let (t, e, vt, total, count) =
              add-Gains s.negative (value - 2 ^ 63) v.1 (inl (omega tests)) hn in
            rw (finite, not_low, high, e)
              (record s { negative = t }, refl, (v.0, vt), omega arith, total)
        | inr not_high ↦ rw (finite, not_low, not_high) (s, refl, v, omega arith, omega arith)
      ]
    ]
