-- ===== src/Math/ExactProductSum/Multiply.antt =====
-- include/cosmo_nbody/math/exact_binary64_product_sum.hpp: products of words and of limbs.
use native.Mathlib.Nat.{mul-le-mul, pow-suc}
use hyowon.Common.{
  ℕ, zero, suc, ◌+◌, ◌-◌, ◌*◌, ◌/◌, ◌%◌, ◌^◌, ◌<◌, ◌≤◌, ◌≡◌, refl, sym, ap, ap₂, subst, ◌∙◌, [],
  ◌∷◌, none, some, ltb, ◌==◌, if◌then◌else◌, length, arith,
}
use hyowon.Math.ExactPositiveSum.{Limbs, word}
use hyowon.Math.ExactPositiveSum.Limbs.{number, AreWords}
use hyowon.Math.ExactProductSum.{multiply_u64, multiply_loop, multiply_product}

half_product : (a b : ℕ) → a < 2 ^ 32 → b < 2 ^ 32 → a * b ≤ (2 ^ 32 - 1) * (2 ^ 32 - 1)
half_product a b h k = mul-le-mul {n₂ = 2 ^ 32 - 1} {m₂ = 2 ^ 32 - 1} (omega arith) (omega arith)

-- The four partial products, put together with their carries.
parts_sum :
    (ll lh hl hh : ℕ)
    → ll ≤ (2 ^ 32 - 1) * (2 ^ 32 - 1)
    → lh ≤ (2 ^ 32 - 1) * (2 ^ 32 - 1)
    → hl ≤ (2 ^ 32 - 1) * (2 ^ 32 - 1)
    → let first = (ll + lh * 2 ^ 32 % word) % word in
      let second = (first + hl * 2 ^ 32 % word) % word in
      let carry = (if ltb first ll then 1 else 0) + (if ltb second first then 1 else 0) in
      (hh + lh / 2 ^ 32 + hl / 2 ^ 32 + carry) * word + second ≡ hh * word + (lh + hl) * 2 ^ 32 + ll
parts_sum ll lh hl hh a b c = ground arith

-- A number is its halves.
halves_product :
    (a b c d : ℕ)
    → (a * 2 ^ 32 + b) * (c * 2 ^ 32 + d) ≡ a * c * word + (b * c + a * d) * 2 ^ 32 + b * d
halves_product a b c d = omega arith

word_product : (a b : ℕ) → a < word → b < word → a * b ≤ (word - 1) * (word - 1)
word_product a b h k = mul-le-mul {n₂ = word - 1} {m₂ = word - 1} (omega arith) (omega arith)

high_fits :
    (high low k : ℕ) → high * word + low ≤ k → k ≤ (word - 1) * (word - 1) → high % word ≡ high
high_fits high low k h bound = omega arith

-- The product of two words is the two words of the result, which are words.
pub multiply_u64-exact :
    (lhs rhs : ℕ)
    → lhs < word
    → rhs < word
    → let wide = multiply_u64 lhs rhs in
      (wide.high * word + wide.low ≡ lhs * rhs) × (wide.high < word) × (wide.low < word)
unfolding multiply_u64
multiply_u64-exact lhs rhs h k =
    let a : ℕ = lhs / 2 ^ 32 in
    let b : ℕ = lhs % 2 ^ 32 in
    let c : ℕ = rhs / 2 ^ 32 in
    let d : ℕ = rhs % 2 ^ 32 in
    let ll = half_product b d (omega arith) (omega arith) in
    let lh = half_product b c (omega arith) (omega arith) in
    let hl = half_product a d (omega arith) (omega arith) in
    let hh = half_product a c (omega arith) (omega arith) in
    let ll' : b * d % word ≡ b * d = omega arith in
    let lh' : b * c % word ≡ b * c = omega arith in
    let hl' : a * d % word ≡ a * d = omega arith in
    let hh' : a * c % word ≡ a * c = omega arith in
    let whole : lhs * rhs ≡ (a * 2 ^ 32 + b) * (c * 2 ^ 32 + d) =
      ap₂ (λ (m n : ℕ). m * n) (let e : lhs ≡ a * 2 ^ 32 + b = omega arith in e)
        (let e : rhs ≡ c * 2 ^ 32 + d = omega arith in e) in
    let total = parts_sum (b * d) (b * c) (a * d) (a * c) ll lh hl in
    let exact = total ∙ sym (whole ∙ halves_product a b c d) in
    let bound : _ ≤ lhs * rhs =
      subst (λ (n : ℕ). n ≤ lhs * rhs) (sym exact)
        (let e : lhs * rhs ≤ lhs * rhs = omega arith in e) in
    let fits = high_fits _ _ (lhs * rhs) bound (word_product lhs rhs h k) in
    rw (ll', lh', hl', hh', fits) (exact, omega arith, omega arith)

-- One limb of a product with its carry.
limb_split :
    (high low carry p : ℕ)
    → high * word + low ≡ p
    → p ≤ (word - 1) * (word - 1)
    → low < word
    → carry < word
    → let sum = (low + carry) % word in
      sum + (high + (if ltb sum low then 1 else 0)) % word * word ≡ p + carry
limb_split high low carry p e bound h k = ground arith

limb_total :
    (sum next rest last w factor carry weight tail : ℕ)
    → sum + next * word ≡ w * factor + carry
    → rest + last * weight ≡ tail * factor + next
    → sum + word * rest + last * (weight * word) ≡ (w + word * tail) * factor + carry
limb_total sum next rest last w factor carry weight tail h k =
    omega (arith, ap (λ (n : ℕ). word * n) k)

multiply_loop-exact :
    (ws : Limbs) (factor carry : ℕ)
    → AreWords ws
    → factor < word
    → carry < word
    → let (vs, last) = multiply_loop ws factor carry in
      AreWords vs
      × (length vs ≡ length ws)
      × (number vs + last * word ^ length ws ≡ number ws * factor + carry)
unfolding multiply_loop
multiply_loop-exact [] factor carry h k l = (tt, refl, omega arith)
multiply_loop-exact (w ∷ ws) factor carry h k l =
    let (exact, high_lt, low_lt) = multiply_u64-exact w factor h.0 k in
    let wide = multiply_u64 w factor in
    let sum : ℕ = (wide.low + carry) % word in
    let next : ℕ = (wide.high + (if ltb sum wide.low then 1 else 0)) % word in
    let split =
      limb_split wide.high wide.low carry (w * factor) exact (word_product w factor h.0 k) low_lt
        l in
    let (words, len, total) = multiply_loop-exact ws factor next h.1 k (omega arith) in
    (
      (omega arith, words),
      ap suc len,
      rw (pow-suc word (length ws)) (limb_total sum next _ _ w factor carry _ _ split total),
    )

-- A product that fits in its limbs is computed exactly, without the exception.
pub multiply_product-exact :
    (ws : Limbs) (factor : ℕ)
    → AreWords ws
    → factor < word
    → number ws * factor < word ^ length ws
    → (vs : Limbs) × (multiply_product ws factor ≡ some vs)
      × AreWords vs
      × (length vs ≡ length ws)
      × (number vs ≡ number ws * factor)
unfolding multiply_product
multiply_product-exact ws factor h k fits =
    by_carry (multiply_loop ws factor 0) (multiply_loop-exact ws factor 0 h k (omega arith))
  where
    by_carry :
        (r : Limbs × ℕ)
        → AreWords r.0
          × (length r.0 ≡ length ws)
          × (number r.0 + r.1 * word ^ length ws ≡ number ws * factor + 0)
        → (vs : Limbs) × ((if r.1 == 0 then some r.0 else none) ≡ some vs)
          × AreWords vs
          × (length vs ≡ length ws)
          × (number vs ≡ number ws * factor)
    by_carry (vs, zero) (words, len, total) = (vs, refl, words, len, omega arith)
    by_carry (vs, suc last) (words, len, total) = absurd (omega arith)
