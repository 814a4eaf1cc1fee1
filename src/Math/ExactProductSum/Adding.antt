-- ===== src/Math/ExactProductSum/Adding.antt =====
-- include/cosmo_nbody/math/exact_binary64_product_sum.hpp: a product at its shift in the accumulator,
-- and the difference of two accumulators.
use native.Mathlib.Nat.{mod-lt, div-le_self, mul-one}
use hyowon.Common.{
  ℕ, ◌+◌, ◌-◌, ◌*◌, ◌/◌, ◌%◌, ◌^◌, ◌<◌, ◌≤◌, ◌≡◌, refl, ap, ◌∙◌, inl, inr, [], ◌∷◌, ◌==◌, length,
  arith, Bool-cases, ==→eq, pow-add, ◌>>=◌,
}
use hyowon.Math.ExactPositiveSum.{Limbs, word}
use hyowon.Math.ExactPositiveSum.Limbs.{
  number, AreWords, Added, exact, Added-transfer, Added-bind, carry_loop-Added, two_pow_shift,
  parts_total, word_pow_suc,
}
use hyowon.Math.ExactProductSum.{accumulator_limbs, add_word, add_shifted_limb, add_shifted_product}

add_word-Added :
    (xs : Limbs) (i w : ℕ)
    → length xs ≡ accumulator_limbs
    → i ≤ accumulator_limbs
    → AreWords xs
    → w < word
    → Added xs (w * word ^ i) (add_word xs i w)
unfolding add_word
add_word-Added xs i w len h words lt =
    carry_loop-Added (accumulator_limbs - i) xs i w (omega arith) words lt

-- The weight of a limb of a product at a shift.
limb_weight :
    (index shift : ℕ) → word ^ index * 2 ^ shift ≡ word ^ (shift / 64 + index) * 2 ^ (shift % 64)
limb_weight index shift = rw (two_pow_shift shift, pow-add word (shift / 64) index) (omega arith)

module _ (xs : Limbs) (w index shift : ℕ) (len : length xs ≡ accumulator_limbs)
    (words : AreWords xs) where
  low_limb-Added :
      shift / 64 + index ≤ accumulator_limbs
      → Added xs
          (w * 2 ^ (shift % 64) % word * word ^ (shift / 64 + index))
          (add_word xs (shift / 64 + index) (w * 2 ^ (shift % 64) % word))
  low_limb-Added room = add_word-Added xs _ _ len room words (mod-lt _ (omega arith))

  whole_limb-Added :
      w < word
      → shift / 64 + index ≤ accumulator_limbs
      → shift % 64 ≡ 0
      → Added xs
          (w * (word ^ index * 2 ^ shift))
          (add_word xs (shift / 64 + index) (w * 2 ^ (shift % 64) % word))
  whole_limb-Added lt room whole =
      let one : 2 ^ (shift % 64) ≡ 1 = ap (λ (n : ℕ). 2 ^ n) whole in
      let same : w * 2 ^ (shift % 64) % word ≡ w = rw one (omega arith) in
      let weight : word ^ index * 2 ^ shift ≡ word ^ (shift / 64 + index) =
        limb_weight index shift ∙ rw one (mul-one _) in
      Added-transfer refl (rw (same, weight)) (low_limb-Added room)

  both_limbs-Added :
      w < word
      → shift / 64 + index + 1 ≤ accumulator_limbs
      → Added xs (w * (word ^ index * 2 ^ shift)) (
          add_word xs (shift / 64 + index) (w * 2 ^ (shift % 64) % word)
          >>= (λ ls. add_word ls (shift / 64 + index + 1) (w / 2 ^ (64 - shift % 64))))
  both_limbs-Added lt room =
      let at : ℕ = shift / 64 + index in
      let high : ℕ = w / 2 ^ (64 - shift % 64) in
      let total : w * 2 ^ (shift % 64) % word * word ^ at + high * word ^ (at + 1)
          ≡ w * (word ^ index * 2 ^ shift) =
        rw (word_pow_suc at, limb_weight index shift)
          (parts_total w (shift % 64) (word ^ at) (omega arith)) in
      Added-transfer refl (rw total) (
        Added-bind (high * word ^ (at + 1)) _ (low_limb-Added (omega arith)) (λ ys all l.
          add_word-Added ys (at + 1) high (l ∙ len) room all
            (omega (arith, div-le_self w (2 ^ (64 - shift % 64))))))

  add_shifted_limb-Added :
      w < word
      → shift / 64 + index + 1 ≤ accumulator_limbs
      → Added xs (w * (word ^ index * 2 ^ shift)) (add_shifted_limb xs w index shift)
  unfolding add_shifted_limb
  add_shifted_limb-Added lt room = elim (Bool-cases (w == 0)) [
    | inl empty ↦
        let e : w ≡ 0 = ==→eq w 0 empty in rw empty (exact xs words refl (rw e (omega arith)))
    | inr some_bits ↦ elim (Bool-cases (shift % 64 == 0)) [
      | inl whole ↦ rw (some_bits, whole) (whole_limb-Added lt (omega arith) (==→eq _ _ whole))
      | inr part ↦ rw (some_bits, part) (both_limbs-Added lt room)
    ]
  ]

product_split :
    (w ws weight scale : ℕ)
    → w * (weight * scale) + ws * (weight * word * scale) ≡ (w + word * ws) * (weight * scale)
product_split w ws weight scale = omega arith

-- The limbs of a product are added at their shift, or the sum has no room.
pub add_shifted_product-Added :
    (ws xs : Limbs) (index shift : ℕ)
    → length xs ≡ accumulator_limbs
    → AreWords xs
    → AreWords ws
    → shift / 64 + index + length ws ≤ accumulator_limbs
    → Added xs (number ws * (word ^ index * 2 ^ shift)) (add_shifted_product xs ws index shift)
unfolding add_shifted_product
add_shifted_product-Added [] xs index shift len words h room = exact xs words refl (omega arith)
add_shifted_product-Added (w ∷ ws) xs index shift len words h room =
    Added-transfer refl
      (rw word_pow_suc
        (ap (λ (n : ℕ). number xs + n) (product_split w (number ws) (word ^ index) (2 ^ shift))))
      (Added-bind (number ws * (word ^ (index + 1) * 2 ^ shift)) _
        (add_shifted_limb-Added xs w index shift len words h.0 (omega arith))
        (λ ys all l.
          add_shifted_product-Added ws ys (index + 1) shift (l ∙ len) all h.1 (omega arith)))
