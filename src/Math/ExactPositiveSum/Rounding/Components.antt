-- ===== src/Math/ExactPositiveSum/Rounding/Components.antt =====
-- The whole of `rounded_binary64_components`, and `value`.
use native.Mathlib.Nat.{
  pow-suc, mod-lt, mod-add-div, div-div-eq-div-mul, div-lt_iff_lt-mul, le-div_iff_mul-le,
  pow-le-pow_right, mul-le-mul_right, div-one,
}
use native.Mathlib.Numerals.{add-one}
use hyowon.Common.{
  ℕ, suc, ◌+◌, ◌-◌, ◌*◌, ◌/◌, ◌%◌, ◌^◌, ◌<◌, ◌≤◌, ◌≡◌, refl, ap, subst, ◌∙◌, ◌⊎◌, inl, inr, false,
  Option, none, some, leb, get_or, length, arith, tests, Bool-cases, leb→le, pow-add, two_pow_pos,
  ℤ, negsuc, sub_ℕ,
}
use hyowon.Math.ExactPositiveSum.{Limbs, limb_count}
use hyowon.Math.ExactPositiveSum.Limbs.{number, AreWords}
use hyowon.Math.ExactPositiveSum.Rounding.{
  highest_set_bit, extract_u64, rounded_binary64_components,
}
use hyowon.Math.ExactPositiveSum.Rounding.Digits.{digit, bit_lem, extract_u64_lem}
use hyowon.Math.ExactPositiveSum.Rounding.Below.{any_bits_below_lem}
use hyowon.Math.ExactPositiveSum.Rounding.Highest.{Highest, nothing, found, highest_set_bit-Highest}
use hyowon.Math.ExactPositiveSum.Rounding.Nearest.{
  Nearest, gap, Chosen, Chosen-closest, round_up-Chosen,
}

-- A number with a significand of 53 bits is its own nearest.
exact-Nearest :
    (n sig e : ℕ) → sig * 2 ^ e ≡ n → sig < 2 ^ 53 → (e ≡ 0) ⊎ (2 ^ 52 ≤ sig) → Nearest n sig e
exact-Nearest n sig e same lt norm = record {
  sig-lt = lt;
  normal = norm;
  closest = λ m k _. omega arith;
  tie_even = λ m k _ near other. absurd (other (omega arith));
}

-- What the components say of the integer: none where it is zero, and else the nearest number, its
-- exponent counted from the smallest subnormal's.
abbrev pub Rounds : ℕ → Option (ℕ × ℤ) → Type 0
Rounds n none = n ≡ 0
Rounds n (some c) = (e : ℕ) × (c.1 ≡ sub_ℕ e 1074) × Nearest n c.0 e

module _ (n d : ℕ) (lo : 2 ^ (suc d + 52) ≤ n) (hi : n < 2 ^ (suc d + 52 + 1)) where
  pub quotient_bounds : (2 ^ 52 ≤ n / 2 ^ d / 2) × (n / 2 ^ d / 2 < 2 ^ 53)
  quotient_bounds =
      let half : n / 2 ^ d / 2 ≡ n / 2 ^ suc d =
        rw (div-div-eq-div-mul n (2 ^ d) 2, ← pow-suc 2 d) in
      let positive = two_pow_pos (suc d) in
      let scale = pow-add 2 (suc d) 52 in
      let scale' : 2 ^ (suc d + 52 + 1) ≡ 2 ^ (suc d + 52) * 2 =
        rw add-one (pow-suc 2 (suc d + 52)) in
      rw half
        ((le-div_iff_mul-le positive).1 (omega arith), (div-lt_iff_lt-mul positive).1 (omega arith))

  pub Chosen-Nearest :
      (sig e : ℕ)
      → 2 ^ 52 ≤ sig
      → sig < 2 ^ 53
      → Chosen
          (n / 2 ^ d / 2 * 2 ^ suc d)
          (2 ^ suc d)
          (n / 2 ^ d % 2 * 2 ^ d + n % 2 ^ d)
          sig
          (sig * 2 ^ e)
      → Nearest n sig e
  Chosen-Nearest sig e norm lt chosen =
      let t : ℕ = 2 ^ suc d in
      let q : ℕ = n / 2 ^ d / 2 in
      let r : ℕ = n / 2 ^ d % 2 * 2 ^ d + n % 2 ^ d in
      let double = pow-suc 2 d in
      let low : n % 2 ^ d < 2 ^ d = mod-lt n (two_pow_pos d) in
      let guard : n / 2 ^ d % 2 * 2 ^ d ≤ 1 * 2 ^ d = mul-le-mul_right (2 ^ d) (omega arith) in
      let small : r < t = omega arith in
      let split : n ≡ q * t + r = omega (
        arith,
        mod-add-div n (2 ^ d),
        ap (λ (y : ℕ). 2 ^ d * y) (mod-add-div (n / 2 ^ d) 2),
        ap (λ (y : ℕ). q * y) double,
      ) in
      let other = λ (m k : ℕ) (fits : m < 2 ^ 53).
        Chosen-closest n (q * t) t r sig (sig * 2 ^ e) (m * 2 ^ k) split small chosen
          (gap q (suc d) m k quotient_bounds.0 fits) in
      record {
        sig-lt = lt;
        normal = inr norm;
        closest = λ m k fits. (other m k fits).0;
        tie_even = λ m k fits. (other m k fits).1;
      }

same_exponent : (a e : ℕ) → a ≡ e + 52 → sub_ℕ a 1126 ≡ sub_ℕ e 1074
same_exponent a e h = ground arith

module _ (xs : Limbs) (len : length xs ≡ limb_count) (words : AreWords xs) where
  small_components :
      (h : ℕ)
      → h ≤ 52
      → number xs < 2 ^ (h + 1)
      → Rounds (number xs) (some (get_or xs 0 0, negsuc 1073))
  small_components h le lt =
      let bound : 2 ^ (h + 1) ≤ 2 ^ 53 =
        pow-le-pow_right {n = 2} (omega arith) {j = 53} (omega arith) in
      let low : get_or xs 0 0 ≡ number xs =
        digit xs 0 words ∙ rw (div-one (number xs)) (omega arith) in
      rw low
        (0, refl, exact-Nearest (number xs) (number xs) 0 (omega arith) (omega arith) (inl refl))

  large_components :
      (d : ℕ)
      → 2 ^ (suc d + 52) ≤ number xs
      → number xs < 2 ^ (suc d + 52 + 1)
      → highest_set_bit xs ≡ some (suc d + 52)
      → Rounds (number xs) (rounded_binary64_components xs)
  unfolding rounded_binary64_components
  large_components d lo hi e =
      let n : ℕ = number xs in
      let (lo', hi') = quotient_bounds n d lo hi in
      let large : leb (suc d + 52) 52 ≡ false = ground arith in
      let here : suc d + 52 - 52 ≡ suc d = omega arith in
      let below : suc d - 1 ≡ d = omega arith in
      let significand : extract_u64 xs (suc d) % 2 ^ 53 ≡ n / 2 ^ d / 2 =
        rw (extract_u64_lem xs len words (suc d), pow-suc 2 d, ← div-div-eq-div-mul n (2 ^ d) 2)
          (omega arith) in
      let (k, place, norm, lt, chosen) =
        round_up-Chosen (n / 2 ^ d) (n % 2 ^ d) d (mod-lt n (two_pow_pos d)) lo' hi' in
      rw
        (
          e,
          rounded_binary64_components,
          large,
          here,
          below,
          bit_lem xs len words d,
          any_bits_below_lem xs len words d,
          significand,
        )
        (k, same_exponent _ k place, Chosen-Nearest n d lo hi _ k norm lt chosen)

  by-Highest :
      (o : Option ℕ)
      → highest_set_bit xs ≡ o
      → Highest (number xs) o
      → Rounds (number xs) (rounded_binary64_components xs)
  unfolding rounded_binary64_components
  by-Highest none e (nothing zero_sum) = rw (e, rounded_binary64_components) zero_sum
  by-Highest (some h) e (found _ lo hi) = elim (Bool-cases (leb h 52)) [
    | inl small ↦
        rw (e, rounded_binary64_components, small) (small_components h (leb→le h 52 small) hi)
    | inr large ↦
        let place : h ≡ suc (h - 53) + 52 = omega tests in
        large_components (h - 53) (subst (λ n. 2 ^ n ≤ number xs) place lo)
          (subst (λ n. number xs < 2 ^ (n + 1)) place hi) (e ∙ ap some place)
  ]

  -- 34 limbs of 64-bit words are read as the number nearest to their integer with a significand of
  -- 53 bits, ties to even.
  pub rounded_binary64_components-Rounds : Rounds (number xs) (rounded_binary64_components xs)
  rounded_binary64_components-Rounds = by-Highest _ refl (highest_set_bit-Highest xs words len)
