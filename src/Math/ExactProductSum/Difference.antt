-- ===== src/Math/ExactProductSum/Difference.antt =====
-- include/cosmo_nbody/math/exact_binary64_product_sum.hpp: the comparison and the difference of two
-- accumulators.
use hyowon.Common.{
  ℕ, zero, suc, ◌+◌, ◌-◌, ◌%◌, ◌<◌, ◌≤◌, ◌≡◌, refl, sym, ap, ap₂, subst, ◌∙◌, Bool, false, ◌||◌,
  some, ltb, if◌then◌else◌, get_or, set, length, replicate, All-get_or, arith, take_all,
}
use hyowon.Math.ExactPositiveSum.{Limbs, word}
use hyowon.Math.ExactPositiveSum.Limbs.{number, AreWords}
use hyowon.Math.ExactSignedSum
use hyowon.Math.ExactSignedSum.Subtract.{
  Compares, compare_loop-Compares, low, no_borrow, subtract_loop-difference,
}
use hyowon.Math.ExactProductSum.{accumulator_limbs, compare, subtract_loop, subtract}

-- One limb, by one subtraction or by two.
same_limb :
    (l r taken : ℕ)
    → l < word
    → r < word
    → taken ≤ 1
    → let subtrahend = (r + taken) % word in
      let first = (l + word - r) % word in
      ((l + word - subtrahend) % word ≡ (first + word - taken) % word)
      × ((ltb subtrahend r || ltb l subtrahend) ≡ (ltb l r || ltb first taken))
same_limb l r taken hl hr ht = (ground arith, ground arith)

taken_le : (b : Bool) → (if b then 1 else 0) ≤ 1
taken_le b = ground arith

subtract_loop-same :
    (left index : ℕ) (xs ys zs : Limbs) (borrow : Bool)
    → left + index ≤ length xs
    → left + index ≤ length ys
    → AreWords xs
    → AreWords ys
    → subtract_loop left index xs ys zs borrow
      ≡ ExactSignedSum.subtract_loop left index xs ys zs borrow
unfolding subtract_loop ExactSignedSum.subtract_loop
subtract_loop-same zero index xs ys zs borrow hx hy wx wy = refl
subtract_loop-same (suc left) index xs ys zs borrow hx hy wx wy =
    let taken : ℕ = if borrow then 1 else 0 in
    let (limb, next) =
      same_limb (get_or xs index 0) (get_or ys index 0) taken
        (All-get_or (λ x. x < word) xs index 0 wx (omega arith))
        (All-get_or (λ x. x < word) ys index 0 wy (omega arith)) (taken_le borrow) in
    subtract_loop-same left (index + 1) xs ys _ _ (omega arith) (omega arith) wx wy
    ∙ ap₂
        (λ (v : ℕ) (b : Bool).
          ExactSignedSum.subtract_loop left (index + 1) xs ys (set zs index v) b)
        limb next

pub compare-Compares :
    (xs ys : Limbs)
    → length xs ≡ accumulator_limbs
    → length ys ≡ accumulator_limbs
    → AreWords xs
    → AreWords ys
    → Compares (number xs) (number ys) (compare xs ys)
unfolding compare
compare-Compares xs ys lx ly wx wy =
    let count : ℕ = accumulator_limbs in
    let whole = compare_loop-Compares count xs ys (omega arith) (omega arith) wx wy in
    subst (λ n. Compares n (number ys) (compare xs ys)) (ap number (take_all count xs (sym lx)))
      (subst (λ n. Compares (low count xs) n (compare xs ys))
        (ap number (take_all count ys (sym ly))) whole)

pub zeros-AreWords : (n : ℕ) → AreWords (replicate n 0)
zeros-AreWords zero = tt
zeros-AreWords (suc n) = (omega arith, zeros-AreWords n)

-- The accumulator of a smaller or equal integer is subtracted exactly, and nothing is thrown.
pub subtract-exact :
    (xs ys : Limbs)
    → length xs ≡ accumulator_limbs
    → length ys ≡ accumulator_limbs
    → AreWords xs
    → AreWords ys
    → number ys ≤ number xs
    → (ws : Limbs) × (subtract xs ys ≡ some ws)
      × AreWords ws
      × (length ws ≡ accumulator_limbs)
      × (number ws + number ys ≡ number xs)
unfolding subtract
subtract-exact xs ys lx ly wx wy h =
    let zeros : Limbs = replicate accumulator_limbs 0 in
    let same =
      subtract_loop-same accumulator_limbs 0 xs ys zeros false (omega arith) (omega arith) wx wy in
    rw same (
      no_borrow accumulator_limbs xs ys
        (ExactSignedSum.subtract_loop accumulator_limbs 0 xs ys zeros false) h
        (subtract_loop-difference accumulator_limbs accumulator_limbs 0 xs ys zeros false refl lx ly
          refl wx wy (zeros-AreWords accumulator_limbs) refl))
