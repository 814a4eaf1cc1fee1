-- ===== src/Math/ExactProductSum/Rounding/Pattern.antt =====
-- include/cosmo_nbody/math/exact_binary64_product_sum.hpp: the patterns that a rounded significand is
-- packed in, and what the nearest binary64 number is.
use native.Mathlib.Nat.{mul_assoc}
use hyowon.Common.{
  ℕ, ◌+◌, ◌-◌, ◌*◌, ◌/◌, ◌%◌, ◌^◌, ◌<◌, ◌≤◌, ◌≡◌, ◌≢◌, sym, ap, ◌∙◌, ◌⊎◌, inl, inr, Bool, ltb,
  if◌then◌else◌, arith, bit_or, bit_or-disjoint, pow-add, ℤ, pos, sub_ℕ, ◌+ℤ◌, sub-add,
}
use hyowon.Math.ExactPositiveSum.{word}
use hyowon.Math.ExactPositiveSum.Terms.{units, units_normal}
use hyowon.Math.ExactPositiveSum.Rounding.Nearest.{dist}
use hyowon.Math.ExactProductSum.{Error, nonzero_underflows, not_representable, base_exponent}
use hyowon.Math.ExactProductSum.Rounding.{is_too_large, biased}

-- A pattern with no sign, in units of 2 ^ -5370.
abbrev pub exact_units : ℕ → ℕ
exact_units v = units v * 2 ^ 4296

-- No finite number is nearer to `n`; where another one is as near, the pattern is even.
pub record Closest (n v : ℕ) : Type 0 where
  pub closest : (w : ℕ) → w < 0x7ff * 2 ^ 52 → dist n (exact_units v) ≤ dist n (exact_units w)
  pub tie_even :
      (w : ℕ)
      → w < 0x7ff * 2 ^ 52
      → dist n (exact_units w) ≡ dist n (exact_units v)
      → exact_units w ≢ exact_units v
      → v % 2 ≡ 0

-- The result for an integer that is not zero: the nearest pattern under its sign, or an exception for
-- an integer at most half the smallest number, or past the middle above the largest one.
pub data RoundsTo (n : ℕ) (negative : Bool) : Error ⊎ ℕ → Type 0 where
  rounded :
      (v : ℕ)
      → 0 < v
      → v < 0x7ff * 2 ^ 52
      → Closest n v
      → RoundsTo n negative (inr ((if negative then 2 ^ 63 else 0) + v))
  underflows : 2 * n ≤ 2 ^ 4296 → RoundsTo n negative (inl nonzero_underflows)
  overflows : (2 ^ 54 - 1) * 2 ^ 6340 ≤ n → RoundsTo n negative (inl not_representable)

-- The three fields of a pattern.
pub packed :
    (k e s : ℕ)
    → k ≤ 1
    → e < 2 ^ 11
    → s < 2 ^ 52
    → bit_or (bit_or (k * 2 ^ 63) (e * 2 ^ 52 % word)) s ≡ k * 2 ^ 63 + (e * 2 ^ 52 + s)
packed k e s hk he hs =
    let whole : e * 2 ^ 52 % word ≡ e * 2 ^ 52 = omega arith in
    let regrouped : k * 2 ^ 63 + e * 2 ^ 52 ≡ (k * 2 ^ 11 + e) * 2 ^ 52 = omega arith in
    let upper : bit_or (k * 2 ^ 63) (e * 2 ^ 52) ≡ (k * 2 ^ 11 + e) * 2 ^ 52 =
      bit_or-disjoint 63 k (e * 2 ^ 52) (omega arith) ∙ regrouped in
    let regroup : (k * 2 ^ 11 + e) * 2 ^ 52 + s ≡ k * 2 ^ 63 + (e * 2 ^ 52 + s) = omega arith in
    rw (whole, upper) (bit_or-disjoint 52 (k * 2 ^ 11 + e) s hs ∙ regroup)

summed_exponent : (e : ℕ) → base_exponent +ℤ pos e +ℤ pos 52 ≡ sub_ℕ (e + 52) 5370
summed_exponent e =
    ap (λ (z : ℤ). z +ℤ pos 52)
      (let first : base_exponent +ℤ pos e ≡ sub_ℕ e 5370 = ground arith in first)
    ∙ sub-add e 5370 52 0

too_large_sub : (e : ℕ) → 4296 ≤ e → is_too_large (sub_ℕ (e + 52) 5370) ≡ ltb 6341 e
unfolding is_too_large
too_large_sub e h = ground arith

biased_sub : (e : ℕ) → 4296 ≤ e → biased (sub_ℕ (e + 52 + 1023) 5370) ≡ e - 4295
biased_sub e h = ground arith

-- The exponent of a normal result.
pub exponent_fields :
    (e : ℕ)
    → 4296 ≤ e
    → (is_too_large (base_exponent +ℤ pos e +ℤ pos 52) ≡ ltb 6341 e)
      × (biased (base_exponent +ℤ pos e +ℤ pos 52 +ℤ pos 1023) ≡ e - 4295)
exponent_fields e h = (
  ap is_too_large (summed_exponent e) ∙ too_large_sub e h,
  ap biased (ap (λ (z : ℤ). z +ℤ pos 1023) (summed_exponent e) ∙ sub-add (e + 52) 5370 1023 0)
      ∙ biased_sub e h,
)

-- Past the middle between the largest number and the next.
pub past_middle :
    (n v x : ℕ) → 2 ^ 54 * x ≤ v → dist n v ≤ dist n ((2 ^ 53 - 1) * (x * 2)) → (2 ^ 54 - 1) * x ≤ n
past_middle n v x h near = omega arith

pub normal_units :
    (sig e : ℕ)
    → 2 ^ 52 ≤ sig
    → sig < 2 ^ 53
    → 4296 ≤ e
    → e ≤ 6341
    → exact_units ((e - 4295) * 2 ^ 52 + sig % 2 ^ 52) ≡ sig * 2 ^ e
normal_units sig e lo hi small large =
    let v : ℕ = (e - 4295) * 2 ^ 52 + sig % 2 ^ 52 in
    let low : v % 2 ^ 52 ≡ sig % 2 ^ 52 = omega arith in
    let high : v / 2 ^ 52 ≡ e - 4295 = omega arith in
    let significand : 2 ^ 52 + sig % 2 ^ 52 ≡ sig = omega arith in
    let shift : e - 4295 - 1 + 4296 ≡ e = omega arith in
    rw (units_normal v (omega arith) (omega arith), low, high, significand)
      (mul_assoc sig (2 ^ (e - 4295 - 1)) (2 ^ 4296)
        ∙ ap (λ (k : ℕ). sig * k)
            (sym (pow-add 2 (e - 4295 - 1) 4296) ∙ ap (λ (k : ℕ). 2 ^ k) shift))
