-- ===== src/Math/ExactProductSum/Rounding/Nearest.antt =====
-- include/cosmo_nbody/math/exact_binary64_product_sum.hpp: the rounding of an accumulator.
use native.Mathlib.Nat.{pow-suc, mod-lt, mod-add-div, mul-le-mul_right, pow-le-pow_right}
use hyowon.Common.{
  ℕ, suc, ◌+◌, ◌-◌, ◌*◌, ◌/◌, ◌%◌, ◌^◌, ◌<◌, ◌≤◌, ◌≡◌, ◌≢◌, refl, sym, ap, subst, ◌∙◌, inl, inr,
  ◌⊎◌, Bool, Option, none, some, ltb, ◌==◌, if◌then◌else◌, length, arith, tests, Bool-cases, ==→eq,
  two_pow_pos, bit_or, bit_or-disjoint, pos, ◌+ℤ◌,
}
use hyowon.Math.ExactPositiveSum.{Limbs}
use hyowon.Math.ExactPositiveSum.Limbs.{number, AreWords}
use hyowon.Math.ExactPositiveSum.Terms.{units, units_subnormal, units_normal}
use hyowon.Math.ExactPositiveSum.Rounding.Highest.{Highest, nothing, found}
use hyowon.Math.ExactPositiveSum.Rounding.Nearest.{dist, Chosen, down, up, Chosen-closest}
use hyowon.Math.ExactPositiveSum.Rounding.Components.{quotient_bounds}
use hyowon.Math.ExactProductSum.{nonzero_underflows, accumulator_limbs, base_exponent}
use hyowon.Math.ExactProductSum.Rounding.{highest_set_bit, is_subnormal, rounded_binary64}
use hyowon.Math.ExactProductSum.Rounding.Shifted.{
  highest_set_bit-Highest, rounded_shifted_integer-Chosen,
}
use hyowon.Math.ExactProductSum.Rounding.Pattern.{
  exact_units, Closest, RoundsTo, rounded, underflows,
}
use hyowon.Math.ExactProductSum.Rounding.Normal.{carried-Rounds, sign_bit}

-- An integer by its quotient, its guard digit and the digits below.
split_shift :
    (n d : ℕ)
    → (n ≡ n / 2 ^ d / 2 * 2 ^ suc d + (n / 2 ^ d % 2 * 2 ^ d + n % 2 ^ d))
      × (n / 2 ^ d % 2 * 2 ^ d + n % 2 ^ d < 2 ^ suc d)
split_shift n d =
    let double = pow-suc 2 d in
    let low : n % 2 ^ d < 2 ^ d = mod-lt n (two_pow_pos d) in
    let guard : n / 2 ^ d % 2 * 2 ^ d ≤ 1 * 2 ^ d = mul-le-mul_right (2 ^ d) (omega arith) in
    (
      omega (
        arith,
        mod-add-div n (2 ^ d),
        ap (λ (y : ℕ). 2 ^ d * y) (mod-add-div (n / 2 ^ d) 2),
        ap (λ (y : ℕ). n / 2 ^ d / 2 * y) double,
      ),
      omega arith,
    )

beside : (u q t : ℕ) → (u * t ≤ q * t) ⊎ (q * t + t ≤ u * t)
beside u q t = elim (Bool-cases (ltb q u)) [
  | inl more ↦ inr (omega (arith, mul-le-mul_right {m = suc q} {n = u} t (omega tests)))
  | inr less ↦ inl (mul-le-mul_right t (omega tests))
]

-- Among the multiples of a power of two, a rounded quotient is the nearest.
multiple-closest :
    (n d sig u : ℕ)
    → Chosen
        (n / 2 ^ d / 2 * 2 ^ suc d)
        (2 ^ suc d)
        (n / 2 ^ d % 2 * 2 ^ d + n % 2 ^ d)
        sig
        (sig * 2 ^ suc d)
    → (dist n (sig * 2 ^ suc d) ≤ dist n (u * 2 ^ suc d))
      × (dist n (u * 2 ^ suc d) ≡ dist n (sig * 2 ^ suc d)
          → u * 2 ^ suc d ≢ sig * 2 ^ suc d
          → sig % 2 ≡ 0)
multiple-closest n d sig u chosen =
    let (split, small) = split_shift n d in
    Chosen-closest n _ _ _ sig (sig * 2 ^ suc d) (u * 2 ^ suc d) split small chosen
      (beside u (n / 2 ^ d / 2) (2 ^ suc d))

-- What is rounded to zero is at most half a unit.
rounded_away :
    (n lo t r sig : ℕ) → n ≡ lo + r → 0 < t → sig ≡ 0 → Chosen lo t r sig (sig * t) → 2 * n ≤ t
rounded_away n lo t r sig split some_weight z (down e le even) =
    let none_left : sig * t ≡ 0 = rw z (omega arith) in omega arith
rounded_away n lo t r sig split some_weight z (up e le even) =
    let none_left : sig * t ≡ 0 = rw z (omega arith) in absurd (omega arith)

-- Up to the smallest normal number a pattern is its own count of units.
small_units : (v : ℕ) → v ≤ 2 ^ 52 → units v ≡ v
small_units v h = elim (Bool-cases (ltb v (2 ^ 52))) [
  | inl below ↦ units_subnormal v (omega tests)
  | inr top ↦
      let e : v ≡ 2 ^ 52 = omega tests in
      rw e (units_normal (2 ^ 52) (omega arith) (omega arith) ∙ refl)
]

units-Closest :
    (n d sig : ℕ)
    → d ≡ 4295
    → sig ≤ 2 ^ 52
    → Chosen
        (n / 2 ^ d / 2 * 2 ^ suc d)
        (2 ^ suc d)
        (n / 2 ^ d % 2 * 2 ^ d + n % 2 ^ d)
        sig
        (sig * 2 ^ suc d)
    → Closest n sig
units-Closest n d sig e le chosen =
    let power : 2 ^ suc d ≡ 2 ^ 4296 = ap (λ (i : ℕ). 2 ^ suc i) e in
    let own : sig * 2 ^ suc d ≡ exact_units sig =
      ap (λ (i : ℕ). sig * i) power ∙ ap (λ (i : ℕ). i * 2 ^ 4296) (sym (small_units sig le)) in
    let other : (w : ℕ) → units w * 2 ^ suc d ≡ exact_units w =
      λ w. ap (λ (i : ℕ). units w * i) power in
    record {
      closest = λ w _.
          subst (λ a. dist n a ≤ dist n (exact_units w)) own
            (subst (λ a. dist n (sig * 2 ^ suc d) ≤ dist n a) (other w)
              (multiple-closest n d sig (units w) chosen).0);
      tie_even = λ w _ equal apart.
          (multiple-closest n d sig (units w) chosen).1
            (ap (dist n) (other w) ∙ equal ∙ ap (dist n) (sym own))
            (λ q. apart (sym (other w) ∙ q ∙ own));
    }

module _ (n : ℕ) (negative : Bool) where
  subnormal-Rounds :
      (d sig : ℕ)
      → d ≡ 4295
      → sig ≤ 2 ^ 52
      → Chosen
          (n / 2 ^ d / 2 * 2 ^ suc d)
          (2 ^ suc d)
          (n / 2 ^ d % 2 * 2 ^ d + n % 2 ^ d)
          sig
          (sig * 2 ^ suc d)
      → RoundsTo n negative (
          if sig == 0
          then inl nonzero_underflows
          else inr (bit_or (if negative then 2 ^ 63 else 0) sig))
  subnormal-Rounds d sig e le chosen = elim (Bool-cases (sig == 0)) [
    | inl none_left ↦ rw none_left (
        underflows (
          subst (λ p. 2 * n ≤ p) (ap (λ (i : ℕ). 2 ^ suc i) e)
            (rounded_away n _ _ _ sig (split_shift n d).0 (two_pow_pos (suc d))
              (==→eq sig 0 none_left) chosen)))
    | inr some_units ↦
        let (k, bit, sign) = sign_bit negative in
        let joined = bit_or-disjoint 63 k sig (omega arith) in
        let result : RoundsTo n negative (inr ((if negative then 2 ^ 63 else 0) + sig)) =
          rounded sig (ground arith) (omega arith) (units-Closest n d sig e le chosen) in
        rw (some_units, sign, joined) (subst (λ s. RoundsTo n negative (inr (s + sig))) sign result)
  ]

-- Where a leading digit is below the smallest normal number's.
subnormal_iff : (h : ℕ) → is_subnormal (pos h +ℤ base_exponent) ≡ ltb h 4348
unfolding is_subnormal
subnormal_iff h = ground arith

quotient_small : (n h : ℕ) → n < 2 ^ (h + 1) → h < 4348 → n / 2 ^ 4295 / 2 < 2 ^ 52
quotient_small n h hi small =
    let most : 2 ^ (h + 1) ≤ 2 ^ 4348 =
      pow-le-pow_right {n = 2} (omega arith) {j = 4348} (omega arith) in
    omega arith

module _ (xs : Limbs) (negative : Bool) (len : length xs ≡ accumulator_limbs)
    (words : AreWords xs) where
  by-Highest :
      (o : Option ℕ)
      → highest_set_bit xs ≡ o
      → Highest (number xs) o
      → 0 < number xs
      → RoundsTo (number xs) negative (rounded_binary64 xs negative)
  unfolding rounded_binary64
  by-Highest none e (nothing z) some_sum = absurd (omega arith)
  by-Highest (some h) e (found _ lo hi) some_sum = elim (Bool-cases (ltb h 4348)) [
    | inl small ↦
        let q_lt = quotient_small (number xs) h hi (omega tests) in
        let (le, _, chosen) = rounded_shifted_integer-Chosen xs len words 4295 (omega arith) in
        rw (e, rounded_binary64, subnormal_iff h, small)
          (subnormal-Rounds (number xs) negative 4295 _ refl (omega arith) chosen)
    | inr large ↦
        let d : ℕ = h - 53 in
        let shift : (if ltb 52 h then h - 52 else 0) ≡ suc d = ground arith in
        let place : h ≡ suc d + 52 = omega tests in
        let lo' = subst (λ i. 2 ^ i ≤ number xs) place lo in
        let hi' = subst (λ i. number xs < 2 ^ (i + 1)) place hi in
        let (q_lo, q_hi) = quotient_bounds (number xs) d lo' hi' in
        let (below, above, chosen) = rounded_shifted_integer-Chosen xs len words d (omega arith) in
        rw (e, rounded_binary64, subnormal_iff h, large, shift)
          (carried-Rounds (number xs) negative d _ (omega tests) lo' hi' above below chosen)
  ]

  -- An accumulator that is not zero is rounded to the nearest binary64 number, ties to even, and the
  -- exceptions are those of results past either end of the range.
  pub rounded_binary64-Rounds :
      0 < number xs → RoundsTo (number xs) negative (rounded_binary64 xs negative)
  rounded_binary64-Rounds some_sum =
      by-Highest _ refl (highest_set_bit-Highest xs len words) some_sum
