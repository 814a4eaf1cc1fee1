-- ===== src/Math/ExactSignedSum/Magnitude.antt =====
-- include/cosmo_nbody/math/exact_signed_sum.hpp: the rounding of a difference, by that of the
-- accumulator's own limbs.
use hyowon.Common.{
  ℕ, ◌-◌, ◌*◌, ◌/◌, ◌^◌, ◌<◌, ◌≡◌, refl, subst, inl, inr, ◌⊎◌, true, false, Option, none, some, leb,
  ltb, length, get_or, Bool-cases, arith, tests, ℤ, negsuc,
}
use hyowon.Math.ExactPositiveSum.{Limbs, limb_count, is_finite}
use hyowon.Math.ExactPositiveSum.Limbs.{number, AreWords}
use hyowon.Math.ExactPositiveSum.Terms.{units, units_subnormal, units_normal}
use hyowon.Math.ExactPositiveSum.Rounding.{highest_set_bit, rounded_binary64_components}
use hyowon.Math.ExactPositiveSum.Rounding.Components.{Rounds, rounded_binary64_components-Rounds}
use hyowon.Math.ExactPositiveSum.Rounding.Value.{LdexpIsExact, finite_pattern}
use hyowon.Math.ExactSignedSum.{ValueError, result_not_finite, if_finite, magnitude_value}

-- What is returned for a positive integer.
pub data ReadsMagnitude (ldexp : ℕ → ℤ → ℕ) (d : ℕ) : ValueError ⊎ ℕ → Type 0 where
  finite_magnitude :
      (sig : ℕ) (exp : ℤ)
      → Rounds d (some (sig, exp))
      → is_finite (ldexp sig exp) ≡ true
      → ReadsMagnitude ldexp d (inr (ldexp sig exp))
  infinite_magnitude :
      (sig : ℕ) (exp : ℤ)
      → Rounds d (some (sig, exp))
      → is_finite (ldexp sig exp) ≡ false
      → ReadsMagnitude ldexp d (inl result_not_finite)

-- How the result follows from the components of the accumulator's own rounding.
data FromComponents (ldexp : ℕ → ℤ → ℕ) : Option (ℕ × ℤ) → ValueError ⊎ ℕ → Type 0 where
  empty : FromComponents ldexp none (inr 0)
  small : (sig : ℕ) → FromComponents ldexp (some (sig, negsuc 1073)) (inr (ldexp sig (negsuc 1073)))
  checked : (sig : ℕ) (exp : ℤ) → FromComponents ldexp (some (sig, exp)) (if_finite (ldexp sig exp))

by_highest :
    (ldexp : ℕ → ℤ → ℕ) (ls : Limbs) (o : Option ℕ)
    → highest_set_bit ls ≡ o
    → FromComponents ldexp (rounded_binary64_components ls) (magnitude_value ldexp (some ls))
unfolding rounded_binary64_components magnitude_value
by_highest ldexp ls none e = rw (e, rounded_binary64_components, magnitude_value) empty
by_highest ldexp ls (some highest) e = elim (Bool-cases (leb highest 52)) [
  | inl low ↦ rw (e, rounded_binary64_components, magnitude_value, low) (small (get_or ls 0 0))
  | inr high ↦ rw (e, rounded_binary64_components, magnitude_value, high) (checked _ _)
]

-- A number of 53 bits counts as many units.
units_small : (v : ℕ) → v < 2 ^ 53 → units v ≡ v * 2 ^ 0
units_small v h = elim (Bool-cases (ltb v (2 ^ 52))) [
  | inl low ↦ rw (units_subnormal v (omega tests)) (omega arith)
  | inr high ↦
      let place : v / 2 ^ 52 - 1 ≡ 0 = omega tests in
      rw (units_normal v (omega tests) (omega arith), place) (omega tests)
]

module _ (ldexp : ℕ → ℤ → ℕ) (exact : LdexpIsExact ldexp) where
  small_finite : (sig : ℕ) → sig < 2 ^ 53 → is_finite (ldexp sig (negsuc 1073)) ≡ true
  small_finite sig h =
      let back : ldexp sig (negsuc 1073) ≡ sig =
        exact sig sig 0 (omega arith) (units_small sig h) in
      rw back (finite_pattern sig (omega arith))

  by_components :
      (d : ℕ) (c : Option (ℕ × ℤ)) (r : ValueError ⊎ ℕ)
      → 0 < d
      → Rounds d c
      → FromComponents ldexp c r
      → ReadsMagnitude ldexp d r
  unfolding if_finite
  by_components d c r positive nothing empty = absurd (omega arith)
  by_components d c r positive rounds (small sig) =
      finite_magnitude sig (negsuc 1073) rounds (small_finite sig rounds.2.sig-lt)
  by_components d c r positive rounds (checked sig exp) =
      elim (Bool-cases (is_finite (ldexp sig exp))) [
        | inl is_number ↦ rw is_number (finite_magnitude sig exp rounds is_number)
        | inr too_large ↦ rw too_large (infinite_magnitude sig exp rounds too_large)
      ]

  -- Limbs that hold a positive integer are read as the nearest number to it.
  pub magnitude_value-Reads :
      (ls : Limbs)
      → length ls ≡ limb_count
      → AreWords ls
      → (d : ℕ) → number ls ≡ d
      → 0 < d
      → ReadsMagnitude ldexp d (magnitude_value ldexp (some ls))
  magnitude_value-Reads ls len words d total positive =
      let rounds =
        subst (λ (n : ℕ). Rounds n (rounded_binary64_components ls)) total
          (rounded_binary64_components-Rounds ls len words) in
      by_components d _ _ positive rounds (by_highest ldexp ls _ refl)
