-- ===== src/Math/ExactPositiveSum/Rounding/Highest.antt =====
-- `highest_set_bit` and the integer's binary digits.
use native.Mathlib.Nat.{
  pow-suc, mod-eq_of_lt, mod-lt, mul-le-mul_left, one-le-pow, mod-one, mul_comm, add_assoc,
  mul-zero, add-zero,
}
use native.Mathlib.Numerals.{add-one}
use hyowon.Common.{
  ℕ, zero, suc, ◌+◌, ◌-◌, ◌*◌, ◌/◌, ◌%◌, ◌^◌, ◌<◌, ◌≤◌, ◌≡◌, refl, ap, subst, ◌∙◌, inl, inr, Option,
  none, some, ltb, ◌==◌, get_or, All-get_or, length, arith, tests, Bool-cases, ==→eq, suc-ne_zero,
  mod_split, pow-add, pow-mul,
}
use hyowon.Math.ExactPositiveSum.{Limbs, limb_count, word}
use hyowon.Math.ExactPositiveSum.Limbs.{number, AreWords, number-lt}
use hyowon.Math.ExactPositiveSum.Rounding.{bit_width, countl_zero, highest_loop, highest_set_bit}
use hyowon.Math.ExactPositiveSum.Rounding.Digits.{digit}

bit_width-le : (fuel w : ℕ) → bit_width fuel w ≤ fuel
unfolding bit_width
bit_width-le zero w = omega arith
bit_width-le (suc fuel) w = ground (arith, bit_width-le fuel (w / 2))

pub bit_width-zero : (fuel : ℕ) → bit_width fuel 0 ≡ 0
unfolding bit_width
bit_width-zero zero = refl
bit_width-zero (suc fuel) = refl

-- The width is that of the number: it fits, and fits no less.
pub bit_width_lem :
    (fuel w : ℕ)
    → w < 2 ^ fuel
    → (w < 2 ^ bit_width fuel w) × (0 < w → 2 ^ bit_width fuel w ≤ 2 * w)
unfolding bit_width
bit_width_lem zero w h = (h, λ pos. absurd (omega arith))
bit_width_lem (suc fuel) zero h = (omega arith, λ pos. absurd (omega arith))
bit_width_lem (suc fuel) (suc w) h =
    let b : ℕ = bit_width fuel (suc w / 2) in
    let (above, below) = bit_width_lem fuel (suc w / 2) (omega (arith, pow-suc 2 fuel)) in
    rw (suc-ne_zero w) (
      omega (arith, pow-suc 2 b),
      λ _. elim (Bool-cases (ltb 0 (suc w / 2))) [
        | inl more ↦ omega (arith, pow-suc 2 b, below (omega tests))
        | inr last ↦
            let one : suc w / 2 ≡ 0 = omega tests in rw (one, bit_width-zero fuel) (omega arith)
      ],
    )

place_of_width :
    (b w : ℕ)
    → b ≤ 64
    → w < 2 ^ b
    → 2 ^ b ≤ 2 * w
    → (2 ^ (63 - (64 - b)) ≤ w) × (w < 2 ^ (63 - (64 - b) + 1))
place_of_width zero w h above below = absurd (omega arith)
place_of_width (suc b) w h above below =
    let place : 63 - (64 - suc b) ≡ b = omega arith in
    rw (place, add-one b) (omega (arith, pow-suc 2 b), above)

-- For a word that is not zero, 63 - countl_zero is the place of its highest digit.
word_top :
    (w : ℕ) → 0 < w → w < word → (2 ^ (63 - countl_zero w) ≤ w) × (w < 2 ^ (63 - countl_zero w + 1))
unfolding countl_zero
word_top w pos h =
    let (above, below) = bit_width_lem 64 w h in
    place_of_width (bit_width 64 w) w (bit_width-le 64 w) above (below pos)

-- Where the highest digit of an integer stands.
pub data Highest (n : ℕ) : Option ℕ → Type 0 where
  nothing : n ≡ 0 → Highest n none
  found : (h : ℕ) → 2 ^ h ≤ n → n < 2 ^ (h + 1) → Highest n (some h)

limb_place : (i k : ℕ) → 2 ^ (i * 64 + k) ≡ word ^ i * 2 ^ k
limb_place i k =
    pow-add 2 (i * 64) k
    ∙ ap (λ (n : ℕ). n * 2 ^ k) (ap (λ (n : ℕ). 2 ^ n) (mul_comm i 64) ∙ pow-mul 2 64 i)

-- A limb's digits stand above those of the limbs below it.
place_above :
    (i k w low : ℕ)
    → low < word ^ i
    → 2 ^ k ≤ w
    → w < 2 ^ (k + 1)
    → (2 ^ (i * 64 + k) ≤ low + word ^ i * w) × (low + word ^ i * w < 2 ^ (i * 64 + k + 1))
place_above i k w low small lo hi =
    rw (add_assoc (i * 64) k 1, limb_place i k, limb_place i (k + 1))
      (
        omega (arith, mul-le-mul_left (word ^ i) lo),
        omega (arith, mul-le-mul_left {m = suc w} (word ^ i) hi),
      )

module _ (xs : Limbs) (words : AreWords xs) where
  pub highest_loop-Highest : (i : ℕ) → Highest (number xs % word ^ i) (highest_loop i xs)
  unfolding highest_loop
  highest_loop-Highest zero = nothing (mod-one (number xs))
  highest_loop-Highest (suc i) =
      let w : ℕ = get_or xs i 0 in
      let low : ℕ = number xs % word ^ i in
      let split : number xs % word ^ suc i ≡ low + word ^ i * w =
        rw (pow-suc word i, mod_split (number xs) (word ^ i) word, digit xs i words) in
      elim (Bool-cases (w == 0)) [
        | inl empty ↦
            rw (empty, split, ==→eq w 0 empty, mul-zero (word ^ i), add-zero)
              (highest_loop-Highest i)
        | inr some_bits ↦
            let small : low < word ^ i = mod-lt _ (one-le-pow i word (omega arith)) in
            let (lo, hi) =
              word_top w (ground arith) (All-get_or (λ x. x < word) xs i 0 words (omega arith)) in
            let (lo', hi') = place_above i (63 - countl_zero w) w low small lo hi in
            rw (some_bits, split) (found (i * 64 + (63 - countl_zero w)) lo' hi')
      ]

  pub highest_set_bit-Highest : length xs ≡ limb_count → Highest (number xs) (highest_set_bit xs)
  unfolding highest_set_bit
  highest_set_bit-Highest len =
      subst (λ n. Highest n (highest_loop limb_count xs))
        (mod-eq_of_lt (subst (λ n. number xs < word ^ n) len (number-lt xs words)))
        (highest_loop-Highest limb_count)
