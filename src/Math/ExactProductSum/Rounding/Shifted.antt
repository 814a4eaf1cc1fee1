-- ===== src/Math/ExactProductSum/Rounding/Shifted.antt =====
-- include/cosmo_nbody/math/exact_binary64_product_sum.hpp: the bits of an accumulator, and a shift to
-- the right with rounding.
use native.Mathlib.Nat.{
  pow-suc, mod-lt, mod-one, div-one, div-div-eq-div-mul, mod-eq_of_lt, one-le-pow,
}
use hyowon.Common.{
  ℕ, zero, suc, ◌+◌, ◌-◌, ◌*◌, ◌/◌, ◌%◌, ◌^◌, ◌<◌, ◌≤◌, ◌≡◌, refl, subst, inl, inr, Bool, false,
  not, ◌&&◌, ◌||◌, ltb, ◌==◌, if◌then◌else◌, get_or, length, arith, tests, Bool-cases, ==→eq,
  mod_split, two_pow_pos, suc-ne_zero,
}
use hyowon.Math.ExactPositiveSum.{Limbs, word}
use hyowon.Math.ExactPositiveSum.Limbs.{number, AreWords, number-lt, two_pow_shift}
use hyowon.Math.ExactPositiveSum.Rounding.Digits.{
  digit, low_of_word, shifted_limb, parity, above, straddle, whole_limb, last_limb,
}
use hyowon.Math.ExactPositiveSum.Rounding.Below.{any_loop_lem, part_test}
use hyowon.Math.ExactPositiveSum.Rounding.Highest.{Highest, highest_loop-Highest}
use hyowon.Math.ExactPositiveSum.Rounding.Nearest.{Chosen, down, up}
use hyowon.Math.ExactProductSum.{accumulator_limbs}
use hyowon.Math.ExactProductSum.Rounding.{
  highest_set_bit, bit, any_bits_below, extract_u64, rounded_shifted_integer,
}

module _ (xs : Limbs) (len : length xs ≡ accumulator_limbs) (words : AreWords xs) where
  pub highest_set_bit-Highest : Highest (number xs) (highest_set_bit xs)
  unfolding highest_set_bit
  highest_set_bit-Highest =
      subst (λ n. Highest n (highest_set_bit xs))
        (mod-eq_of_lt (subst (λ n. number xs < word ^ n) len (number-lt xs words)))
        (highest_loop-Highest xs words accumulator_limbs)

  bit_lem : (p : ℕ) → bit xs p ≡ not (number xs / 2 ^ p % 2 == 0)
  unfolding bit
  bit_lem p =
      rw (shifted_limb xs p words, parity (64 - p % 64) (number xs / 2 ^ p) (omega arith)) refl

  partial_limb :
      (c r : ℕ)
      → r < 64
      → (if not (r == 0) then not (get_or xs c 0 % 2 ^ r == 0) else false)
        ≡ not (number xs / word ^ c % 2 ^ r == 0)
  partial_limb c zero h = rw (mod-one (number xs / word ^ c)) refl
  partial_limb c (suc r) h =
      rw (suc-ne_zero r, digit xs c words, low_of_word (suc r) (omega arith)) refl

  any_bits_below_lem : (e : ℕ) → any_bits_below xs e ≡ not (number xs % 2 ^ e == 0)
  unfolding any_bits_below
  any_bits_below_lem e =
      let c : ℕ = e / 64 in
      let r : ℕ = e % 64 in
      rw
        (
          any_loop_lem xs words c 0,
          div-one (number xs),
          partial_limb c r (omega arith),
          two_pow_shift e,
          mod_split (number xs) (word ^ c) (2 ^ r),
        )
        (part_test (number xs % word ^ c) (number xs / word ^ c % 2 ^ r) (word ^ c)
          (one-le-pow c word (omega arith)))

  extract_u64_lem : (shift : ℕ) → extract_u64 xs shift ≡ number xs / 2 ^ shift % word
  unfolding extract_u64
  extract_u64_lem shift = elim (Bool-cases (ltb (shift / 64) accumulator_limbs)) [
    | inr outside ↦
        let past : ltb (shift / 64 + 1) accumulator_limbs ≡ false = ground arith in
        let none_left = above xs shift (omega tests) words in
        rw (outside, past, none_left) (by_offset (not (shift % 64 == 0)) _)
    | inl inside ↦ elim (Bool-cases (shift % 64 == 0)) [
      | inl whole ↦ rw (inside, whole) (whole_limb xs words shift (==→eq _ _ whole))
      | inr part ↦ elim (Bool-cases (ltb (shift / 64 + 1) accumulator_limbs)) [
        | inl next ↦ rw (inside, part, next) (straddle xs words shift)
        | inr last ↦ rw (inside, part, last) (last_limb xs words shift (omega tests))
      ]
    ]
  ]
    where
      by_offset : (b : Bool) (x : ℕ) → (if b && false then x else 0) ≡ 0
      by_offset b x = ground arith

  -- A shift to the right by `d + 1` digits, rounded: the quotient or its successor, the nearer of the
  -- two, and the even one where both are as near.
  pub rounded_shifted_integer-Chosen :
      (d : ℕ)
      → number xs / 2 ^ d / 2 + 1 < word
      → let sig = rounded_shifted_integer xs (suc d) in
        (sig ≤ number xs / 2 ^ d / 2 + 1)
        × (number xs / 2 ^ d / 2 ≤ sig)
        × Chosen
            (number xs / 2 ^ d / 2 * 2 ^ suc d)
            (2 ^ suc d)
            (number xs / 2 ^ d % 2 * 2 ^ d + number xs % 2 ^ d)
            sig
            (sig * 2 ^ suc d)
  unfolding rounded_shifted_integer
  rounded_shifted_integer-Chosen d fits =
      let n : ℕ = number xs in
      let q : ℕ = n / 2 ^ d / 2 in
      let low : n % 2 ^ d < 2 ^ d = mod-lt n (two_pow_pos d) in
      let double : 2 ^ suc d ≡ 2 ^ d * 2 = pow-suc 2 d in
      let here : suc d - 1 ≡ d = omega arith in
      let whole : extract_u64 xs (suc d) ≡ q =
        rw (extract_u64_lem (suc d), pow-suc 2 d, ← div-div-eq-div-mul n (2 ^ d) 2)
          (mod-eq_of_lt (omega arith)) in
      rw (suc-ne_zero d, here, whole, bit_lem d, any_bits_below_lem d)
        (elim (Bool-cases (n / 2 ^ d % 2 == 0)) [
          | inl clear ↦
              let g : n / 2 ^ d % 2 ≡ 0 = ==→eq _ _ clear in
              rw clear (
                omega arith,
                omega arith,
                rw g (down refl (omega arith) (λ e. absurd (omega arith))),
              )
          | inr guard ↦
              let g : n / 2 ^ d % 2 ≡ 1 = ground arith in
              elim (Bool-cases (not (n % 2 ^ d == 0) || not (q % 2 == 0))) [
                | inr even ↦
                    let exact : n % 2 ^ d ≡ 0 = ground arith in
                    let e : q % 2 ≡ 0 = ground arith in
                    rw (guard, even)
                      (omega arith, omega arith, rw g (down refl (omega arith) (λ _. e)))
                | inl upward ↦
                    let next : (q + 1) % word ≡ q + 1 = mod-eq_of_lt fits in
                    let odd : n % 2 ^ d ≡ 0 → (q + 1) % 2 ≡ 0 = λ e. ground arith in
                    rw (guard, upward, next)
                      (
                        omega arith,
                        omega arith,
                        rw g (up (omega arith) (omega arith) (λ e. odd (omega arith))),
                      )
              ]
        ])
