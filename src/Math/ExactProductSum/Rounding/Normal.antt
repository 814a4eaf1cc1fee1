-- ===== src/Math/ExactProductSum/Rounding/Normal.antt =====
-- include/cosmo_nbody/math/exact_binary64_product_sum.hpp: results with a significand of 53 bits.
use native.Mathlib.Nat.{mul-le-mul, pow-le-pow_right, mul_assoc, pow-suc}
use native.Mathlib.Numerals.{add-one}
use hyowon.Common.{
  ℕ, suc, ◌+◌, ◌-◌, ◌*◌, ◌/◌, ◌%◌, ◌^◌, ◌<◌, ◌≤◌, ◌≡◌, refl, sym, ap, subst, ◌∙◌, inl, inr, Bool,
  true, false, ltb, ◌==◌, if◌then◌else◌, arith, tests, Bool-cases, ==→eq, pow-add,
}
use hyowon.Math.ExactPositiveSum.Terms.{decode-term}
use hyowon.Math.ExactPositiveSum.Rounding.Nearest.{dist, Nearest, Chosen, down, up}
use hyowon.Math.ExactPositiveSum.Rounding.Components.{Chosen-Nearest, quotient_bounds}
use hyowon.Math.ExactProductSum.Rounding.{normal_bits, carried}
use hyowon.Math.ExactProductSum.Rounding.Pattern.{
  exact_units, Closest, RoundsTo, rounded, overflows, packed, exponent_fields, past_middle,
  normal_units,
}

-- A finite number as one of the candidates with 53 bits.
candidate :
    (w : ℕ) → w < 0x7ff * 2 ^ 52 → (m : ℕ) × (k : ℕ) × (m < 2 ^ 53) × (m * 2 ^ k ≡ exact_units w)
candidate w h =
    let (d, _, reads) = decode-term w (inl h) in
    (
      d.mantissa,
      d.shift + 4296,
      reads.mantissa-lt,
      ap (λ (x : ℕ). d.mantissa * x) (pow-add 2 d.shift 4296)
          ∙ sym (mul_assoc d.mantissa (2 ^ d.shift) (2 ^ 4296))
          ∙ ap (λ (x : ℕ). x * 2 ^ 4296) reads.value,
    )

candidate-Closest :
    (n v sig e : ℕ) → Nearest n sig e → exact_units v ≡ sig * 2 ^ e → v % 2 ≡ sig % 2 → Closest n v
candidate-Closest n v sig e near same parity = record {
  closest = λ w h.
      let (m, k, small, value) = candidate w h in
      subst (λ a. dist n a ≤ dist n (exact_units w)) (sym same)
        (subst (λ a. dist n (sig * 2 ^ e) ≤ dist n a) value (near.closest m k small));
  tie_even = λ w h equal other.
      let (m, k, small, value) = candidate w h in
      parity
      ∙ near.tie_even m k small (ap (dist n) value ∙ equal ∙ ap (dist n) same)
          (λ q. other (sym value ∙ q ∙ sym same));
}

pub sign_bit :
    (negative : Bool) → (k : ℕ) × (k ≤ 1) × ((if negative then 2 ^ 63 else 0) ≡ k * 2 ^ 63)
sign_bit true = (1, omega arith, refl)
sign_bit false = (0, omega arith, refl)

too_large : (n sig e : ℕ) → Nearest n sig e → 2 ^ 52 ≤ sig → 6342 ≤ e → (2 ^ 54 - 1) * 2 ^ 6340 ≤ n
too_large n sig e near lo h =
    let power : 2 ^ 6342 ≤ 2 ^ e = pow-le-pow_right {n = 2} (omega arith) {j = e} h in
    let large : 2 ^ 52 * 2 ^ 6342 ≤ sig * 2 ^ e = mul-le-mul lo power in
    past_middle n (sig * 2 ^ e) (2 ^ 6340) large (near.closest (2 ^ 53 - 1) 6341 (omega arith))

-- The carried significand is even.
halved : (lo t r sig v v' : ℕ) → Chosen lo t r sig v → v ≡ v' → Chosen lo t r (2 ^ 52) v'
halved lo t r sig v v' (down e le even) same = down (sym same ∙ e) le (λ _. refl)
halved lo t r sig v v' (up e le even) same = up (sym same ∙ e) le (λ _. refl)

module _ (n : ℕ) (negative : Bool) where
  normal_bits-Rounds :
      (sig e : ℕ)
      → Nearest n sig e
      → 2 ^ 52 ≤ sig
      → 4296 ≤ e
      → RoundsTo n negative (normal_bits (if negative then 2 ^ 63 else 0) sig e)
  unfolding normal_bits
  normal_bits-Rounds sig e near lo h =
      let (large, exponent) = exponent_fields e h in
      let (k, bit, sign) = sign_bit negative in
      elim (Bool-cases (ltb 6341 e)) [
        | inl out ↦ rw (large, out) (overflows (too_large n sig e near lo (omega tests)))
        | inr fits ↦
            let le : e ≤ 6341 = omega tests in
            let v : ℕ = (e - 4295) * 2 ^ 52 + sig % 2 ^ 52 in
            let bits = packed k (e - 4295) (sig % 2 ^ 52) bit (omega arith) (omega arith) in
            let same = normal_units sig e lo near.sig-lt h le in
            let result : RoundsTo n negative (inr ((if negative then 2 ^ 63 else 0) + v)) =
              rounded v (omega arith) (omega arith)
                (candidate-Closest n v sig e near same (omega arith)) in
            rw (large, fits, exponent, sign, bits)
              (subst (λ s. RoundsTo n negative (inr (s + v))) sign result)
      ]

  -- After the rounded shift by `d + 1` digits, where the quotient has 53 digits.
  pub carried-Rounds :
      (d sig : ℕ)
      → 4295 ≤ d
      → 2 ^ (suc d + 52) ≤ n
      → n < 2 ^ (suc d + 52 + 1)
      → n / 2 ^ d / 2 ≤ sig
      → sig ≤ n / 2 ^ d / 2 + 1
      → Chosen
          (n / 2 ^ d / 2 * 2 ^ suc d)
          (2 ^ suc d)
          (n / 2 ^ d % 2 * 2 ^ d + n % 2 ^ d)
          sig
          (sig * 2 ^ suc d)
      → RoundsTo n negative (carried (if negative then 2 ^ 63 else 0) sig (suc d))
  unfolding carried
  carried-Rounds d sig h lo hi above below chosen =
      let (q_lo, q_hi) = quotient_bounds n d lo hi in
      elim (Bool-cases (sig == 2 ^ 53)) [
        | inr stays ↦ rw stays (
            normal_bits-Rounds sig (suc d)
              (Chosen-Nearest n d lo hi sig (suc d) (omega arith) (ground arith) chosen)
              (omega arith) (omega arith))
        | inl carry ↦
            let full : sig ≡ 2 ^ 53 = ==→eq _ _ carry in
            let half : sig / 2 ≡ 2 ^ 52 = omega arith in
            let same : sig * 2 ^ suc d ≡ 2 ^ 52 * 2 ^ (suc d + 1) =
              rw (full, add-one (suc d), pow-suc 2 (suc d)) (omega arith) in
            let lo_sig : 2 ^ 52 ≤ 2 ^ 52 = omega arith in
            rw (carry, half)
              (normal_bits-Rounds (2 ^ 52) (suc d + 1)
                (Chosen-Nearest n d lo hi (2 ^ 52) (suc d + 1) lo_sig (omega arith)
                  (halved _ _ _ sig _ _ chosen same))
                lo_sig (omega arith))
      ]
