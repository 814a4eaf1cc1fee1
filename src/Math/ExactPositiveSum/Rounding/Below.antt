-- ===== src/Math/ExactPositiveSum/Rounding/Below.antt =====
-- `any_bits_below` and remainders.
use native.Mathlib.Nat.{
  pow-succ', div-div-eq-div-mul, div-one, mod-one, zero-mod, mod-eq_of_lt, le_trans,
  pow-le-pow_right, one-le-pow,
}
use hyowon.Common.{
  ℕ, zero, suc, ◌+◌, ◌*◌, ◌/◌, ◌%◌, ◌^◌, ◌<◌, ◌≤◌, ◌≡◌, ◌∙◌, inl, inr, true, false, not, ◌&&◌, ltb,
  ◌==◌, if◌then◌else◌, get_or, length, min, arith, tests, Bool-cases, suc-ne_zero, mod_split,
}
use hyowon.Math.ExactPositiveSum.{Limbs, limb_count, word}
use hyowon.Math.ExactPositiveSum.Limbs.{number, AreWords, number-lt, two_pow_shift, word_pow_suc}
use hyowon.Math.ExactPositiveSum.Rounding.{any_loop, any_bits_below}
use hyowon.Math.ExactPositiveSum.Rounding.Digits.{digit, above_limb, low_of_word}

-- A sum of two parts is zero where both are.
pub part_test :
    (a t w : ℕ) → 0 < w → (if not (a == 0) then true else not (t == 0)) ≡ not (a + w * t == 0)
part_test a zero w h = ground arith
part_test a (suc t) w h = grind arith

module _ (xs : Limbs) (words : AreWords xs) where
  pub any_loop_lem :
      (left i : ℕ) → any_loop left i xs ≡ not (number xs / word ^ i % word ^ left == 0)
  unfolding any_loop
  any_loop_lem zero i = ground arith
  any_loop_lem (suc left) i =
      let next : number xs / word ^ i / word ≡ number xs / word ^ (i + 1) =
        rw (div-div-eq-div-mul (number xs) (word ^ i) word, word_pow_suc i) in
      rw
        (
          pow-succ' word left,
          mod_split (number xs / word ^ i) word (word ^ left),
          next,
          digit xs i words,
          any_loop_lem left (i + 1),
        )
        (part_test (number xs / word ^ i % word) (number xs / word ^ (i + 1) % word ^ left) word
          (omega arith))

module _ (xs : Limbs) (len : length xs ≡ limb_count) (words : AreWords xs) where
  whole_below : (k : ℕ) → limb_count ≤ k → number xs % word ^ k ≡ number xs
  whole_below k h =
      mod-eq_of_lt
        (le_trans (number-lt xs words) (pow-le-pow_right {n = word} (omega arith) (rw len h)))

  -- The complete limbs below a bit are all zero exactly where the remainder is.
  complete_limbs : (c : ℕ) → any_loop (min c limb_count) 0 xs ≡ not (number xs % word ^ c == 0)
  complete_limbs c = elim (Bool-cases (ltb c limb_count)) [
    | inl inside ↦
        let e : min c limb_count ≡ c = omega tests in
        rw e (any_loop_lem xs words c 0 ∙ rw (div-one (number xs)))
    | inr outside ↦
        let e : min c limb_count ≡ limb_count = omega tests in
        rw (e, whole_below c (omega tests))
          (any_loop_lem xs words limb_count 0
            ∙ rw (div-one (number xs), whole_below limb_count (omega arith)))
  ]

  -- The limb that the bit stands in.
  partial_limb :
      (c r : ℕ)
      → r < 64
      → (if not (r == 0) && ltb c limb_count then not (get_or xs c 0 % 2 ^ r == 0) else false)
        ≡ not (number xs / word ^ c % 2 ^ r == 0)
  partial_limb c zero h = rw (mod-one (number xs / word ^ c))
  partial_limb c (suc r) h = elim (Bool-cases (ltb c limb_count)) [
    | inl inside ↦ rw (suc-ne_zero r, inside, digit xs c words, low_of_word (suc r) (omega arith))
    | inr outside ↦
        rw (suc-ne_zero r, outside, above_limb xs c (omega tests) words, zero-mod (2 ^ suc r))
  ]

  pub any_bits_below_lem : (e : ℕ) → any_bits_below xs e ≡ not (number xs % 2 ^ e == 0)
  unfolding any_bits_below
  any_bits_below_lem zero = rw (mod-one (number xs))
  any_bits_below_lem (suc e) =
      let c : ℕ = suc e / 64 in
      let r : ℕ = suc e % 64 in
      rw
        (
          suc-ne_zero e,
          complete_limbs c,
          partial_limb c r (omega arith),
          two_pow_shift (suc e),
          mod_split (number xs) (word ^ c) (2 ^ r),
        )
        (part_test (number xs % word ^ c) (number xs / word ^ c % 2 ^ r) (word ^ c)
          (one-le-pow c word (omega arith)))
