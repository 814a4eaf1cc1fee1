-- ===== src/Math/ExactSignedSum/Subtract.antt =====
-- include/cosmo_nbody/math/exact_signed_sum.hpp: comparison and subtraction of limbs.
use native.Mathlib.Nat.{pow-suc, mul-le-mul}
use native.Mathlib.Numerals.{add-one}
use hyowon.Common.{
  ℕ, zero, suc, ◌+◌, ◌-◌, ◌*◌, ◌%◌, ◌^◌, ◌≤◌, ◌<◌, ◌≡◌, refl, sym, ap, subst, ◌∙◌, inl, inr, Bool,
  true, false, ◌||◌, none, some, [], ◌∷◌, ltb, if◌then◌else◌, get_or, set, take, length, replicate,
  arith, tests, All-get_or, All-set, length-set, take_all, Bool-cases, ℤ, pos, negsuc,
  get_or-set_self,
}
use hyowon.Math.ExactPositiveSum.{Limbs, limb_count, word}
use hyowon.Math.ExactPositiveSum.Limbs.{number, AreWords, number-lt}
use hyowon.Math.ExactSignedSum.{compare_loop, compare, subtract_loop, subtract}

-- The integer of the lowest `n` limbs.
abbrev pub low : ℕ → Limbs → ℕ
low n xs = number (take n xs)

pub low-suc :
    (n : ℕ) (xs : Limbs) → n < length xs → low (suc n) xs ≡ low n xs + get_or xs n 0 * word ^ n
low-suc n [] h = absurd (omega arith)
low-suc zero (x ∷ xs) h = omega arith
low-suc (suc n) (x ∷ xs) h =
    omega (arith, low-suc n xs (omega arith), ap (λ (t : ℕ). get_or xs n 0 * t) (pow-suc word n))

low-lt : (n : ℕ) (xs : Limbs) → AreWords xs → low n xs < word ^ n
low-lt zero xs h = omega arith
low-lt (suc n) [] h = grind (arith, pow-suc word n, low-lt n [] tt)
low-lt (suc n) (x ∷ xs) h = omega (arith, low-lt n xs h.1, pow-suc word n, h.0)

-- A comparison says how the two integers are ordered.
pub data Compares (a b : ℕ) : ℤ → Type 0 where
  below : a < b → Compares a b (negsuc 0)
  same : a ≡ b → Compares a b (pos 0)
  above : b < a → Compares a b (pos 1)

-- A smaller digit in front makes the smaller number.
digit-lt : (a b x y w : ℕ) → a < w → x < y → a + x * w < b + y * w
digit-lt a b x y w h lt =
    let next : suc x ≡ x + 1 = omega arith in
    let more : suc x * w ≤ y * w = mul-le-mul (omega arith) (omega arith) in
    omega (arith, ap (λ (n : ℕ). n * w) next)

pub compare_loop-Compares :
    (n : ℕ) (xs ys : Limbs)
    → n ≤ length xs
    → n ≤ length ys
    → AreWords xs
    → AreWords ys
    → Compares (low n xs) (low n ys) (compare_loop n xs ys)
unfolding compare_loop
compare_loop-Compares zero xs ys hx hy wx wy = same refl
compare_loop-Compares (suc n) xs ys hx hy wx wy =
    let x : ℕ = get_or xs n 0 in
    let y : ℕ = get_or ys n 0 in
    rw (low-suc n xs (omega arith), low-suc n ys (omega arith))
      (elim (Bool-cases (ltb x y)) [
        | inl less ↦ rw less (below (digit-lt _ _ x y _ (low-lt n xs wx) (omega tests)))
        | inr not_less ↦ elim (Bool-cases (ltb y x)) [
          | inl more ↦
              rw (not_less, more) (above (digit-lt _ _ y x _ (low-lt n ys wy) (omega tests)))
          | inr not_more ↦
              let equal : x ≡ y = omega tests in
              rw (not_less, not_more)
                (with_equal n x y _ equal
                  (compare_loop-Compares n xs ys (omega arith) (omega arith) wx wy))
        ]
      ])
  where
    with_equal :
        (n x y : ℕ) (r : ℤ)
        → x ≡ y
        → Compares (low n xs) (low n ys) r
        → Compares (low n xs + x * word ^ n) (low n ys + y * word ^ n) r
    with_equal n x y r e (below h) = below (rw e (omega arith))
    with_equal n x y r e (same h) = same (rw (e, h) refl)
    with_equal n x y r e (above h) = above (rw e (omega arith))

-- `compare` orders the limbs as the integers that they stand for.
pub compare-Compares :
    (xs ys : Limbs)
    → length xs ≡ limb_count
    → length ys ≡ limb_count
    → AreWords xs
    → AreWords ys
    → Compares (number xs) (number ys) (compare xs ys)
unfolding compare
compare-Compares xs ys lx ly wx wy =
    let whole = compare_loop-Compares limb_count xs ys (omega arith) (omega arith) wx wy in
    subst (λ n. Compares n (number ys) (compare_loop limb_count xs ys))
      (ap number (take_all limb_count xs (sym lx)))
      (subst (λ n. Compares (low limb_count xs) n (compare_loop limb_count xs ys))
        (ap number (take_all limb_count ys (sym ly))) whole)

-- One limb of the subtraction: what is borrowed makes up the difference.
borrow_split :
    (l r taken : ℕ)
    → l < word
    → r < word
    → taken ≤ 1
    → let first = (l + word - r) % word in
      let second = (first + word - taken) % word in
      second + r + taken ≡ l + (if ltb l r || ltb first taken then 1 else 0) * word
borrow_split l r taken hl hr ht = ground arith

taken_le : (b : Bool) → (if b then 1 else 0) ≤ 1
taken_le b = ground arith

low-set : (n : ℕ) (xs : Limbs) (v : ℕ) → low n (set xs n v) ≡ low n xs
low-set zero xs v = refl
low-set (suc n) [] v = refl
low-set (suc n) (x ∷ xs) v = omega (arith, low-set n xs v)

written_digit :
    (n : ℕ) (xs : Limbs) (v : ℕ)
    → n < length xs
    → low (suc n) (set xs n v) ≡ low n xs + v * word ^ n
written_digit n xs v h =
    low-suc n (set xs n v) (rw length-set h) ∙ rw (low-set n xs v, get_or-set_self xs n v 0 h) refl

step_total :
    (zl yl xl second r l taken k t : ℕ)
    → zl + yl ≡ xl + taken * t
    → second + r + taken ≡ l + k * word
    → zl + second * t + (yl + r * t) ≡ xl + l * t + k * (t * word)
step_total zl yl xl second r l taken k t h split = omega (arith, ap (λ (n : ℕ). n * t) split)

-- The loop over all `count` limbs.
pub subtract_loop-difference :
    (count left index : ℕ) (xs ys zs : Limbs) (borrow : Bool)
    → left + index ≡ count
    → length xs ≡ count
    → length ys ≡ count
    → length zs ≡ count
    → AreWords xs
    → AreWords ys
    → AreWords zs
    → low index zs + low index ys ≡ low index xs + (if borrow then 1 else 0) * word ^ index
    → let (ws, over) = subtract_loop left index xs ys zs borrow in
      AreWords ws
      × (length ws ≡ count)
      × (number ws + number ys ≡ number xs + (if over then 1 else 0) * word ^ count)
unfolding subtract_loop
subtract_loop-difference count zero index xs ys zs borrow e lx ly lz wx wy wz h =
    let here : index ≡ count = omega arith in
    let all_of : (us : Limbs) → length us ≡ count → low index us ≡ number us =
      λ us l. ap number (take_all index us (here ∙ sym l)) in
    (
      wz,
      lz,
      rw (← all_of zs lz, ← all_of ys ly, ← all_of xs lx)
          (h ∙ ap (λ (n : ℕ). low index xs + (if borrow then 1 else 0) * word ^ n) here),
    )
subtract_loop-difference count (suc left) index xs ys zs borrow e lx ly lz wx wy wz h =
    let l : ℕ = get_or xs index 0 in
    let r : ℕ = get_or ys index 0 in
    let taken : ℕ = if borrow then 1 else 0 in
    let first : ℕ = (l + word - r) % word in
    let second : ℕ = (first + word - taken) % word in
    let next : Bool = ltb l r || ltb first taken in
    let hl : l < word = All-get_or (λ x. x < word) xs index 0 wx (omega arith) in
    let hr : r < word = All-get_or (λ x. x < word) ys index 0 wy (omega arith) in
    let split = borrow_split l r taken hl hr (taken_le borrow) in
    subtract_loop-difference count left (index + 1) xs ys (set zs index second) next (omega arith)
      lx ly (length-set zs index second ∙ lz) wx wy
      (All-set (λ x. x < word) zs index second wz (omega arith))
      (rw
        (
          add-one,
          written_digit index zs second (omega arith),
          low-suc index xs (omega arith),
          low-suc index ys (omega arith),
          pow-suc word index,
        )
        (step_total _ _ _ second r l taken (if next then 1 else 0) (word ^ index) h split))

-- A loop whose minuend is no less leaves no borrow.
pub no_borrow :
    (count : ℕ) (xs ys : Limbs) (r : Limbs × Bool)
    → number ys ≤ number xs
    → AreWords r.0
      × (length r.0 ≡ count)
      × (number r.0 + number ys ≡ number xs + (if r.1 then 1 else 0) * word ^ count)
    → (ws : Limbs) × ((if r.1 then none else some r.0) ≡ some ws)
      × AreWords ws
      × (length ws ≡ count)
      × (number ws + number ys ≡ number xs)
no_borrow count xs ys (ws, false) h (words, len, total) = (ws, refl, words, len, omega arith)
no_borrow count xs ys (ws, true) h (words, len, total) =
    let bound : number ws < word ^ count =
      subst (λ n. number ws < word ^ n) len (number-lt ws words) in
    absurd (omega arith)

-- Limbs of a smaller or equal integer are subtracted exactly, and nothing is thrown.
pub subtract-exact :
    (xs ys : Limbs)
    → length xs ≡ limb_count
    → length ys ≡ limb_count
    → AreWords xs
    → AreWords ys
    → number ys ≤ number xs
    → (ws : Limbs) × (subtract xs ys ≡ some ws)
      × AreWords ws
      × (length ws ≡ limb_count)
      × (number ws + number ys ≡ number xs)
unfolding subtract
subtract-exact xs ys lx ly wx wy h =
    let zeros : Limbs = replicate limb_count 0 in
    no_borrow limb_count xs ys (subtract_loop limb_count 0 xs ys zeros false) h (
      subtract_loop-difference limb_count limb_count 0 xs ys zeros false refl lx ly refl wx wy
        (omega arith) refl)
