-- ===== src/Math/ExactProductSum/Products.antt =====
-- include/cosmo_nbody/math/exact_binary64_product_sum.hpp: the loop over the factors of one term, and
-- the integer that their product stands for.
use native.Mathlib.Nat.{mul-le-mul, pow-le-pow_right}
use hyowon.Common.{
  ℕ, zero, suc, ◌+◌, ◌*◌, ◌/◌, ◌^◌, ◌<◌, ◌≤◌, ◌≡◌, refl, sym, ap, ap₂, subst, ◌∙◌, Bool, true,
  false, not, List, [], ◌∷◌, ◌==◌, if◌then◌else◌, length, replicate, All, arith, Bool-cases, inl,
  inr, ◌⊎◌, ℤ, sub_ℕ, ◌+ℤ◌, sub-add, pow-add, two_pow_pos, ==→eq,
}
use hyowon.Math.ExactPositiveSum.{word}
use hyowon.Math.ExactPositiveSum.Limbs.{number, AreWords}
use hyowon.Math.ExactPositiveSum.Terms.{units}
use hyowon.Math.ExactProductSum.{
  Error, product_limbs, DecodedBinary64, Product, one_product, multiply_product, with_product,
  with_factor, factors_loop,
}
use hyowon.Math.ExactProductSum.Multiply.{multiply_product-exact}
use hyowon.Math.ExactProductSum.Difference.{zeros-AreWords}
use hyowon.Math.ExactProductSum.Factors.{IsFactor, ReadsFactor, decode_binary64-reads}

-- The product of the magnitudes, in units of 2 ^ -1074 for each factor.
abbrev pub product_units : List ℕ → ℕ
product_units [] = 1
product_units (f ∷ fs) = units f * product_units fs

abbrev pub flipped : Bool → Bool → Bool
flipped negative b = if negative then not b else b

-- Whether an odd number of factors has the sign set.
abbrev pub odd_negatives : List ℕ → Bool
odd_negatives [] = false
odd_negatives (f ∷ fs) = flipped (not (f / 2 ^ 63 == 0)) (odd_negatives fs)

flipped-flipped : (a b c : Bool) → flipped (flipped a b) c ≡ flipped b (flipped a c)
flipped-flipped a b c = ground arith

-- The product of `n` factors with the magnitude `m`.
pub data Holds (p : Product) (m n : ℕ) : Type 0 where
  zeroed : p.product_zero ≡ true → m ≡ 0 → Holds p m n
  nonzero :
      (shift : ℕ)
      → p.product_zero ≡ false
      → shift ≤ 2045 * n
      → p.exponent ≡ sub_ℕ shift (1074 * n)
      → AreWords p.product
      → length p.product ≡ product_limbs
      → 0 < m
      → number p.product ≤ 2 ^ (53 * n)
      → number p.product * 2 ^ shift ≡ m
      → Holds p m n

magnitude_step : (a b s t : ℕ) → a * 2 ^ s * (b * 2 ^ t) ≡ a * b * 2 ^ (s + t)
magnitude_step a b s t = rw (pow-add 2 s t) (omega arith)

-- Four factors and one more fit in the limbs.
product_fits : (a b n : ℕ) → a ≤ 2 ^ (53 * n) → b < 2 ^ 53 → a * b ≤ 2 ^ (53 * (n + 1))
product_fits a b n h k =
    let e : 53 * (n + 1) ≡ 53 * n + 53 = omega arith in
    let scale : 2 ^ (53 * (n + 1)) ≡ 2 ^ (53 * n) * 2 ^ 53 =
      ap (λ (i : ℕ). 2 ^ i) e ∙ pow-add 2 (53 * n) 53 in
    rw scale (mul-le-mul {m₂ = 2 ^ 53} h (omega arith))

envelope : (n : ℕ) → n ≤ 5 → 2 ^ (53 * n) < word ^ product_limbs
envelope n h =
    let most : 2 ^ (53 * n) ≤ 2 ^ 265 =
      pow-le-pow_right {n = 2} (omega arith) {j = 265} (omega arith) in
    omega arith

positive_product : (a b : ℕ) → 0 < a → 0 < b → 0 < a * b
positive_product (suc a) (suc b) h k = omega arith
positive_product zero b h k = absurd (omega arith)
positive_product (suc a) zero h k = absurd (omega arith)

abbrev HoldsAfter : Bool → Product → ℕ → ℕ → Error ⊎ Product → Type 0
HoldsAfter negative p m n r =
    (q : Product) × (r ≡ inr q)
    × (q.product_negative ≡ flipped negative p.product_negative)
    × Holds q m n

module _ (p : Product) (d : DecodedBinary64) (v m n : ℕ) (reads : ReadsFactor v d) where
  signed : Product
  signed = record p {
    product_negative = if d.negative then not p.product_negative else p.product_negative;
  }

  multiplied :
      n < 5
      → 0 < d.significand
      → Holds p m n
      → HoldsAfter d.negative p (m * units v) (n + 1) (
          if p.product_zero
          then inr signed
          else with_product signed
              (multiply_product p.product d.significand)
              (p.exponent +ℤ d.exponent))
  unfolding signed
  multiplied few some_bits (zeroed e z) = (
    signed,
    ap
        (λ (b : Bool).
          if b
          then inr signed
          else with_product signed (multiply_product p.product d.significand)
              (p.exponent +ℤ d.exponent))
        e,
    refl,
    zeroed e (rw z (omega arith)),
  )
  multiplied few some_bits (nonzero shift e bound place words len above small total) =
      let fits = product_fits (number p.product) d.significand n small reads.significand-lt in
      let (vs, done_so, words', len', exact) =
        multiply_product-exact p.product d.significand words (omega (arith, reads.significand-lt))
          (rw len (omega (arith, fits, envelope (n + 1) (omega arith)))) in
      (
        record signed { product = vs; exponent = p.exponent +ℤ d.exponent },
        ap
              (λ (b : Bool).
                if b
                then inr signed
                else with_product signed (multiply_product p.product d.significand)
                    (p.exponent +ℤ d.exponent))
              e
            ∙ ap (λ o. with_product signed o (p.exponent +ℤ d.exponent)) done_so,
        refl,
        nonzero (shift + reads.shift) e (omega (arith, reads.shift-le))
            (ap₂ (λ (x y : ℤ). x +ℤ y) place reads.exponent
              ∙ sub-add shift (1074 * n) reads.shift 1074
              ∙ ap (sub_ℕ (shift + reads.shift))
                  (let w : 1074 * n + 1074 ≡ 1074 * (n + 1) = omega arith in w))
            words' (len' ∙ len)
            (positive_product m (units v) above (
              rw (← reads.value) (
                positive_product d.significand (2 ^ reads.shift) some_bits
                  (two_pow_pos reads.shift))))
            (rw exact fits)
            (rw exact (
              sym (magnitude_step (number p.product) d.significand shift reads.shift)
              ∙ ap₂ (λ (x y : ℕ). x * y) total reads.value)),
      )

  pub with_factor-Holds :
      n < 5 → Holds p m n → HoldsAfter d.negative p (m * units v) (n + 1) (with_factor p d)
  unfolding with_factor signed
  with_factor-Holds few h = elim (Bool-cases (d.significand == 0)) [
    | inl none_left ↦
        let z : d.significand ≡ 0 = ==→eq _ 0 none_left in
        let nothing : units v ≡ 0 = sym reads.value ∙ rw z (omega arith) in
        (
          record signed { product_zero = true },
          rw (with_factor, none_left) refl,
          refl,
          zeroed refl (rw nothing (omega arith)),
        )
    | inr some_bits ↦ rw (with_factor, some_bits) (multiplied few (ground arith) h)
  ]

-- What the loop makes of finite factors: their sign and magnitude, and no exception.
pub factors_loop-Holds :
    (fs : List ℕ) (p : Product) (m n : ℕ)
    → n + length fs ≤ 5
    → All IsFactor fs
    → Holds p m n
    → HoldsAfter (odd_negatives fs) p (m * product_units fs) (n + length fs) (factors_loop p fs)
unfolding factors_loop
factors_loop-Holds [] p m n few all h =
    let one : m ≡ m * 1 = omega arith in
    let none_more : n ≡ n + 0 = omega arith in
    (p, refl, refl, subst (λ k. Holds p k (n + 0)) one (subst (Holds p m) none_more h))
factors_loop-Holds (f ∷ fs) p m n few all h =
    let (d, decoded, reads) = decode_binary64-reads f all.0 in
    let (q, stepped, sign, held) = with_factor-Holds p d f m n reads (omega arith) h in
    let (r, looped, sign', held') =
      factors_loop-Holds fs q (m * units f) (n + 1) (omega arith) all.1 held in
    let magnitude : m * units f * product_units fs ≡ m * (units f * product_units fs) =
      omega arith in
    let count : n + 1 + length fs ≡ n + suc (length fs) = omega arith in
    (
      r,
      rw (factors_loop, decoded, stepped) looped,
      sign'
          ∙ ap (flipped (odd_negatives fs))
              (sign ∙ ap (λ (b : Bool). flipped b p.product_negative) reads.sign)
          ∙ sym (flipped-flipped (not (f / 2 ^ 63 == 0)) (odd_negatives fs) p.product_negative),
      subst (λ k. Holds r k (n + suc (length fs))) magnitude
          (subst (Holds r (m * units f * product_units fs)) count held'),
    )

pub one_product-Holds : Holds one_product 1 0
unfolding one_product
one_product-Holds =
    let words : AreWords (1 ∷ replicate 5 0) = (omega arith, zeros-AreWords 5) in
    let one : 1 ≤ 2 ^ (53 * 0) = omega arith in
    nonzero 0 refl (omega arith) refl words refl (omega arith) one refl
