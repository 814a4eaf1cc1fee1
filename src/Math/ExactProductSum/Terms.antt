-- ===== src/Math/ExactProductSum/Terms.antt =====
-- include/cosmo_nbody/math/exact_binary64_product_sum.hpp: the loop over the terms, and the exact sum.
use native.Mathlib.Nat.{mul-le-mul, pow-le-pow_right, le_trans}
use hyowon.Common.{
  ℕ, suc, ◌+◌, ◌-◌, ◌*◌, ◌^◌, ◌<◌, ◌≤◌, ◌≡◌, refl, ap, subst, ◌∙◌, Bool, true, false, List, [], ◌∷◌,
  ◌==◌, if◌then◌else◌, ◌||◌, length, take, All, arith, inr, ℤ, pos, sub_ℕ, ◌-ℤ◌, pow-add, ltb,
  length-take, Outcome, done, thrown,
}
use hyowon.Math.ExactPositiveSum.{Limbs, word}
use hyowon.Math.ExactPositiveSum.Limbs.{number, AreWords, Added, exact, overflow}
use hyowon.Math.ExactProductSum.{
  product_limbs, accumulator_limbs, base_exponent, ExactBinary64ProductTerm, Product, one_product,
  Totals, with_total, add_product, add_term, terms_loop, add_shifted_product,
}
use hyowon.Math.ExactProductSum.Adding.{add_shifted_product-Added}
use hyowon.Math.ExactProductSum.Factors.{IsFactor}
use hyowon.Math.ExactProductSum.Products.{
  product_units, odd_negatives, flipped, Holds, zeroed, nonzero, factors_loop-Holds,
  one_product-Holds,
}

-- A term that the code accepts: one to five factors of its array, all finite.
pub record IsTerm (term : ExactBinary64ProductTerm) : Type 0 where
  pub five : length term.factors ≡ 5
  pub some_factors : 0 < term.factor_count
  pub few : term.factor_count ≤ 5
  pub finite : All IsFactor (take term.factor_count term.factors)

abbrev pub factors_of : ExactBinary64ProductTerm → List ℕ
factors_of term = take term.factor_count term.factors

-- The term's magnitude in units of 2 ^ -5370.
abbrev pub magnitude : ExactBinary64ProductTerm → ℕ
magnitude term = product_units (factors_of term) * 2 ^ (1074 * (5 - term.factor_count))

abbrev pub is_below_zero : ExactBinary64ProductTerm → Bool
is_below_zero term = odd_negatives (factors_of term)

-- What a term of either sign adds to the sum of one sign.
abbrev pub share : Bool → Bool → ℕ → ℕ
share below negative m = if flipped below negative then 0 else m

-- The sum of the magnitudes with one sign.
abbrev pub total : Bool → List ExactBinary64ProductTerm → ℕ
total below [] = 0
total below (term ∷ terms) = share below (is_below_zero term) (magnitude term) + total below terms

-- Two accumulators with room for so many further terms.
pub record IsValid (room : ℕ) (t : Totals) : Type 0 where
  pub positive_words : AreWords t.positive
  pub positive_width : length t.positive ≡ accumulator_limbs
  pub negative_words : AreWords t.negative
  pub negative_width : length t.negative ≡ accumulator_limbs
  pub positive_room : number t.positive + room * 2 ^ 10490 < word ^ accumulator_limbs
  pub negative_room : number t.negative + room * 2 ^ 10490 < word ^ accumulator_limbs

-- The exponent of a product of `n` factors as a shift.
shift_of :
    (shift n : ℕ) → n ≤ 5 → sub_ℕ shift (1074 * n) -ℤ base_exponent ≡ pos (shift + 1074 * (5 - n))
shift_of shift n h = ground arith

scaled : (a s n m : ℕ) → a * 2 ^ s ≡ m → a * 2 ^ (s + 1074 * (5 - n)) ≡ m * 2 ^ (1074 * (5 - n))
scaled a s n m e = rw (pow-add 2 s (1074 * (5 - n)), ← e) (omega arith)

-- No term exceeds the room of one.
scaled-lt :
    (a s n : ℕ) → n ≤ 5 → s ≤ 2045 * n → a ≤ 2 ^ (53 * n) → a * 2 ^ (s + 1074 * (5 - n)) ≤ 2 ^ 10490
scaled-lt a s n h k l =
    let sum = pow-add 2 (53 * n) (s + 1074 * (5 - n)) in
    let most : 2 ^ (53 * n + (s + 1074 * (5 - n))) ≤ 2 ^ 10490 =
      pow-le-pow_right {n = 2} (omega arith) {j = 10490} (omega arith) in
    le_trans (mul-le-mul {m₂ = 2 ^ (s + 1074 * (5 - n))} l (omega arith)) (rw (← sum) most)

-- What one more product does to the accumulator of its sign.
product_added :
    (xs ws : Limbs) (shift amount : ℕ)
    → length xs ≡ accumulator_limbs
    → AreWords xs
    → AreWords ws
    → length ws ≡ product_limbs
    → shift ≤ 10230
    → number ws * 2 ^ shift ≡ amount
    → number xs + amount < word ^ accumulator_limbs
    → (ys : Limbs) × (add_shifted_product xs ws 0 shift ≡ done ys)
      × AreWords ys
      × (length ys ≡ accumulator_limbs)
      × (number ys ≡ number xs + amount)
product_added xs ws shift amount len words words' width h e fits =
    by_outcome (add_shifted_product xs ws 0 shift) refl
      (add_shifted_product-Added ws xs 0 shift len words words' (omega arith))
  where
    same : number ws * (word ^ 0 * 2 ^ shift) ≡ amount
    same =
        ap (λ (n : ℕ). number ws * n) (let one : 1 * 2 ^ shift ≡ 2 ^ shift = omega arith in one) ∙ e

    by_outcome :
        (r : Outcome hyowon.Math.ExactPositiveSum.Error Limbs)
        → add_shifted_product xs ws 0 shift ≡ r
        → Added xs (number ws * (word ^ 0 * 2 ^ shift)) r
        → (ys : Limbs) × (add_shifted_product xs ws 0 shift ≡ done ys)
          × AreWords ys
          × (length ys ≡ accumulator_limbs)
          × (number ys ≡ number xs + amount)
    by_outcome (done ys) q (exact _ all l n) =
        (ys, q, all, l ∙ len, n ∙ ap (λ (k : ℕ). number xs + k) same)
    by_outcome (thrown err ys) q (overflow _ _ large) =
        let width' : word ^ length xs ≡ word ^ accumulator_limbs = ap (λ (n : ℕ). word ^ n) len in
        absurd (omega arith)

-- A term with this sign and magnitude is in the totals, and takes one term's room.
pub record Gains (room : ℕ) (t u : Totals) (below : Bool) (m : ℕ) : Type 0 where
  pub valid : IsValid room u
  pub positive_gain : number u.positive ≡ number t.positive + share false below m
  pub negative_gain : number u.negative ≡ number t.negative + share true below m

nothing_gained :
    (room : ℕ) (t : Totals) (negative : Bool) (m : ℕ)
    → IsValid (suc room) t
    → m ≡ 0
    → Gains room t t negative m
nothing_gained room t negative m v z =
    let none_left = λ (below : Bool). no_share below negative in
    record {
      valid = record {
        positive_words = v.positive_words;
        positive_width = v.positive_width;
        negative_words = v.negative_words;
        negative_width = v.negative_width;
        positive_room = omega (arith, v.positive_room);
        negative_room = omega (arith, v.negative_room);
      };
      positive_gain = rw (z, none_left false) (omega arith);
      negative_gain = rw (z, none_left true) (omega arith);
    }
  where
    no_share : (below sign : Bool) → share below sign 0 ≡ 0
    no_share below sign = ground arith

product_gained :
    (negative : Bool) (room : ℕ) (t : Totals) (ws : Limbs) (shift m : ℕ)
    → IsValid (suc room) t
    → AreWords ws
    → length ws ≡ product_limbs
    → shift ≤ 10230
    → number ws * 2 ^ shift ≡ m
    → m ≤ 2 ^ 10490
    → (u : Totals) × (with_total negative t
          (add_shifted_product (if negative then t.negative else t.positive) ws 0 shift)
        ≡ inr u)
      × Gains room t u negative m
product_gained true room t ws shift m v words len h e le =
    let (ys, q, all, l, n) =
      product_added t.negative ws shift m v.negative_width v.negative_words words len h e
        (omega (arith, v.negative_room)) in
    (
      record t { negative = ys },
      ap (with_total true t) q,
      record {
        valid = record {
          positive_words = v.positive_words;
          positive_width = v.positive_width;
          negative_words = all;
          negative_width = l;
          positive_room = omega (arith, v.positive_room);
          negative_room = omega (arith, v.negative_room, n);
        };
        positive_gain = omega arith;
        negative_gain = n;
      },
    )
product_gained false room t ws shift m v words len h e le =
    let (ys, q, all, l, n) =
      product_added t.positive ws shift m v.positive_width v.positive_words words len h e
        (omega (arith, v.positive_room)) in
    (
      record t { positive = ys },
      ap (with_total false t) q,
      record {
        valid = record {
          positive_words = all;
          positive_width = l;
          negative_words = v.negative_words;
          negative_width = v.negative_width;
          positive_room = omega (arith, v.positive_room, n);
          negative_room = omega (arith, v.negative_room);
        };
        positive_gain = n;
        negative_gain = omega arith;
      },
    )

-- The sign of a product whose factors were read from the start.
unsigned : (b : Bool) → flipped b false ≡ b
unsigned b = ground arith

add_term-Gains :
    (room : ℕ) (t : Totals) (term : ExactBinary64ProductTerm)
    → IsValid (suc room) t
    → IsTerm term
    → (u : Totals) × (add_term t term ≡ inr u)
      × Gains room t u (is_below_zero term) (magnitude term)
unfolding add_term
add_term-Gains room t term v is_term =
    let n : ℕ = term.factor_count in
    let count : 0 + length (factors_of term) ≡ n =
      omega (arith, length-take n term.factors, is_term.few, is_term.five) in
    let (p, looped, sign, held) =
      factors_loop-Holds (factors_of term) one_product 1 0 (omega (arith, count, is_term.few))
        is_term.finite one_product-Holds in
    let guard : (n == 0 || ltb (length term.factors) n) ≡ false =
      ground (arith, is_term.some_factors, is_term.few, is_term.five) in
    let same : 1 * product_units (factors_of term) ≡ product_units (factors_of term) =
      omega arith in
    let of_term : Holds p (product_units (factors_of term)) n =
      subst (λ k. Holds p k n) same (subst (Holds p _) count held) in
    let start : flipped (is_below_zero term) one_product.product_negative ≡ is_below_zero term =
      unfold one_product in unsigned (is_below_zero term) in
    let negative : p.product_negative ≡ is_below_zero term = sign ∙ start in
    rw (add_term, guard, looped) (by_product p of_term negative)
  where
    by_product :
        (p : Product)
        → Holds p (product_units (factors_of term)) term.factor_count
        → p.product_negative ≡ is_below_zero term
        → (u : Totals) × ((if p.product_zero
              then inr t
              else add_product t p (p.exponent -ℤ base_exponent))
            ≡ inr u)
          × Gains room t u (is_below_zero term) (magnitude term)
    by_product p (zeroed e z) sign = (
      t,
      ap (λ (b : Bool). if b then inr t else add_product t p (p.exponent -ℤ base_exponent)) e,
      nothing_gained room t (is_below_zero term) (magnitude term) v (rw z (omega arith)),
    )
    by_product p (nonzero shift e bound place words len above small whole) sign =
        let n : ℕ = term.factor_count in
        let exact_shift = ap (λ (x : ℤ). x -ℤ base_exponent) place ∙ shift_of shift n is_term.few in
        let of_term = scaled (number p.product) shift n _ whole in
        let le = scaled-lt (number p.product) shift n is_term.few bound small in
        let (u, q, gains) =
          product_gained p.product_negative room t p.product (shift + 1074 * (5 - n))
            (magnitude term) v words len (omega (arith, is_term.few)) of_term
            (subst (λ k. k ≤ 2 ^ 10490) of_term le) in
        (
          u,
          ap (λ (b : Bool). if b then inr t else add_product t p (p.exponent -ℤ base_exponent)) e
              ∙ ap (add_product t p) exact_shift
              ∙ q,
          subst (λ b. Gains room t u b (magnitude term)) sign gains,
        )

-- Finite terms are added exactly, whatever their factors and signs, and nothing is thrown: the
-- product fits in its limbs, the shift is not negative, and the sums fit in the accumulators.
pub terms_loop-exact :
    (terms : List ExactBinary64ProductTerm) (t : Totals)
    → IsValid (length terms) t
    → All IsTerm terms
    → (u : Totals) × (terms_loop t terms ≡ inr u)
      × IsValid 0 u
      × (number u.positive ≡ number t.positive + total false terms)
      × (number u.negative ≡ number t.negative + total true terms)
unfolding terms_loop
terms_loop-exact [] t v all = (t, refl, v, omega arith, omega arith)
terms_loop-exact (term ∷ terms) t v all =
    let (u, added, gains) = add_term-Gains (length terms) t term v all.0 in
    let (w, looped, valid, pos_total, neg_total) = terms_loop-exact terms u gains.valid all.1 in
    (
      w,
      rw (terms_loop, added) looped,
      valid,
      omega (arith, pos_total, gains.positive_gain),
      omega (arith, neg_total, gains.negative_gain),
    )
