-- ===== src/Math/ExactProductSum/Exact.antt =====
-- include/cosmo_nbody/math/exact_binary64_product_sum.hpp: the whole of `exact_binary64_product_sum`.
use hyowon.Common.{
  ℕ, zero, suc, ◌+◌, ◌-◌, ◌*◌, ◌^◌, ◌<◌, ◌≡◌, refl, subst, inr, ◌⊎◌, Bool, true, false, List,
  length, replicate, All, arith, ℤ,
}
use hyowon.Math.ExactPositiveSum.{Limbs, word}
use hyowon.Math.ExactPositiveSum.Limbs.{number, AreWords}
use hyowon.Math.ExactSignedSum.Subtract.{Compares, below, same, above}
use hyowon.Math.ExactProductSum.{
  Error, accumulator_limbs, ExactBinary64ProductTerm, Totals, no_totals, compare, subtract,
}
use hyowon.Math.ExactProductSum.Difference.{compare-Compares, subtract-exact, zeros-AreWords}
use hyowon.Math.ExactProductSum.Terms.{IsTerm, IsValid, total, terms_loop-exact}
use hyowon.Math.ExactProductSum.Rounding.{
  by_ordering, rounded_difference, exact_binary64_product_sum,
}
use hyowon.Math.ExactProductSum.Rounding.Pattern.{RoundsTo}
use hyowon.Math.ExactProductSum.Rounding.Nearest.{rounded_binary64-Rounds}

-- The result for the two exact sums: +0 where they are equal, and else their difference rounded.
pub data RoundsDifference (p n : ℕ) (r : Error ⊎ ℕ) : Type 0 where
  zero_sum : p ≡ n → r ≡ inr 0 → RoundsDifference p n r
  positive_sum : n < p → RoundsTo (p - n) false r → RoundsDifference p n r
  negative_sum : p < n → RoundsTo (n - p) true r → RoundsDifference p n r

rounded_difference-Rounds :
    (xs ys : Limbs) (negative : Bool)
    → length xs ≡ accumulator_limbs
    → length ys ≡ accumulator_limbs
    → AreWords xs
    → AreWords ys
    → number ys < number xs
    → RoundsTo (number xs - number ys) negative (rounded_difference (subtract xs ys) negative)
rounded_difference-Rounds xs ys negative lx ly wx wy h =
    let (ws, done_so, words, len, whole) = subtract-exact xs ys lx ly wx wy (omega arith) in
    let e : number xs - number ys ≡ number ws = omega arith in
    rw (done_so, e) (rounded_binary64-Rounds ws negative len words (omega arith))

by_ordering-Rounds :
    (t : Totals) (o : ℤ)
    → IsValid 0 t
    → Compares (number t.positive) (number t.negative) o
    → RoundsDifference (number t.positive) (number t.negative) (by_ordering t o)
by_ordering-Rounds t o v (same e) = zero_sum e refl
by_ordering-Rounds t o v (above h) = positive_sum h (
    rounded_difference-Rounds t.positive t.negative false v.positive_width v.negative_width
      v.positive_words v.negative_words h)
by_ordering-Rounds t o v (below h) = negative_sum h (
    rounded_difference-Rounds t.negative t.positive true v.negative_width v.positive_width
      v.negative_words v.positive_words h)

number_zeros : (n : ℕ) → number (replicate n 0) ≡ 0
number_zeros zero = refl
number_zeros (suc n) = rw (number_zeros n) (omega arith)

room_for : (count n : ℕ) → count < word → n ≡ 0 → n + count * 2 ^ 10490 < word ^ accumulator_limbs
room_for count n h e = omega arith

pub no_totals-IsValid : (count : ℕ) → count < word → IsValid count no_totals
unfolding no_totals
no_totals-IsValid count h = record {
  positive_words = zeros-AreWords accumulator_limbs;
  positive_width = refl;
  negative_words = zeros-AreWords accumulator_limbs;
  negative_width = refl;
  positive_room = room_for count _ h (number_zeros accumulator_limbs);
  negative_room = room_for count _ h (number_zeros accumulator_limbs);
}

-- For fewer than 2 ^ 64 terms of one to five finite factors each, the result is that of the exact sum of
-- the exact products: +0 where it is zero, and else the nearest binary64 number, ties to even, or the
-- exception of a sum past either end of the range. No other exception is thrown.
pub exact_binary64_product_sum-Rounds :
    (terms : List ExactBinary64ProductTerm)
    → length terms < word
    → All IsTerm terms
    → RoundsDifference (total false terms) (total true terms) (exact_binary64_product_sum terms)
unfolding exact_binary64_product_sum
exact_binary64_product_sum-Rounds terms h all =
    let (t, looped, v, positive, negative) =
      terms_loop-exact terms no_totals (no_totals-IsValid (length terms) h) all in
    let zeros = number_zeros accumulator_limbs in
    let p : number t.positive ≡ total false terms = unfold no_totals in omega arith in
    let n : number t.negative ≡ total true terms = unfold no_totals in omega arith in
    let ordered =
      compare-Compares t.positive t.negative v.positive_width v.negative_width v.positive_words
        v.negative_words in
    rw (exact_binary64_product_sum, looped)
      (subst
        (λ a. RoundsDifference a (total true terms) (by_ordering t (compare t.positive t.negative)))
        p
        (subst
          (λ b.
            RoundsDifference (number t.positive) b (by_ordering t (compare t.positive t.negative)))
          n (by_ordering-Rounds t (compare t.positive t.negative) v ordered)))
