-- ===== src/Math/ExactPositiveSum/Rounding/Nearest.antt =====
-- The rounding step of `rounded_binary64_components` on an integer, and what a nearest number with a
-- significand of 53 bits is.
use native.Mathlib.Nat.{
  pow-suc, mul-le-mul, mul-le-mul_right, pow-le-pow_right, mul_assoc, sub-add_cancel,
}
use native.Mathlib.Numerals.{add-one}
use hyowon.Common.{
  ℕ, suc, ◌+◌, ◌-◌, ◌*◌, ◌/◌, ◌%◌, ◌^◌, ◌<◌, ◌≤◌, ◌≡◌, ◌≢◌, refl, ap, ◌⊎◌, inl, inr, not, ◌||◌, ltb,
  ◌==◌, arith, tests, ltb→le, Bool-cases, ==→eq, pow-add,
}
use hyowon.Math.ExactPositiveSum.Rounding.{round_up}

-- How far two numbers are apart.
abbrev pub dist : ℕ → ℕ → ℕ
dist a b = a - b + (b - a)

-- `sig * 2 ^ e` is the nearest to `n` of the numbers with a significand of 53 bits; where another is
-- as near, `sig` is even. The significand is normalized unless the exponent is the least.
pub record Nearest (n sig e : ℕ) : Type 0 where
  pub sig-lt : sig < 2 ^ 53
  pub normal : (e ≡ 0) ⊎ (2 ^ 52 ≤ sig)
  pub closest : (m k : ℕ) → m < 2 ^ 53 → dist n (sig * 2 ^ e) ≤ dist n (m * 2 ^ k)
  pub tie_even :
      (m k : ℕ)
      → m < 2 ^ 53
      → dist n (m * 2 ^ k) ≡ dist n (sig * 2 ^ e)
      → m * 2 ^ k ≢ sig * 2 ^ e
      → sig % 2 ≡ 0

-- No number with 53 bits lies strictly between two neighbours with normalized significands.
pub gap :
    (q d m k : ℕ)
    → 2 ^ 52 ≤ q
    → m < 2 ^ 53
    → (m * 2 ^ k ≤ q * 2 ^ d) ⊎ (q * 2 ^ d + 2 ^ d ≤ m * 2 ^ k)
gap q d m k norm small = elim (Bool-cases (ltb k d)) [
  | inl finer ↦
      let step : 2 ^ suc k ≤ 2 ^ d = pow-le-pow_right {n = 2} (omega arith) (omega tests) in
      let below : m * 2 ^ k ≤ 2 ^ 53 * 2 ^ k = mul-le-mul_right (2 ^ k) (omega arith) in
      let above : 2 ^ 52 * 2 ^ suc k ≤ q * 2 ^ d = mul-le-mul norm step in
      inl (omega (arith, pow-suc 2 k))
  | inr coarser ↦
      let c : ℕ = m * 2 ^ (k - d) in
      let scaled : m * 2 ^ k ≡ c * 2 ^ d = rw (
        mul_assoc m (2 ^ (k - d)) (2 ^ d),
        ← pow-add 2 (k - d) d,
        sub-add_cancel (ltb→le k d coarser),
      ) in
      elim (Bool-cases (ltb q c)) [
        | inl larger ↦
            inr (omega (arith, scaled, mul-le-mul_right {m = suc q} {n = c} (2 ^ d) (omega tests)))
        | inr smaller ↦ inl (rw scaled (mul-le-mul_right (2 ^ d) (omega tests)))
      ]
]

-- Which neighbour is the nearer, by twice the remainder.
pub data Chosen (lo t r sig v : ℕ) : Type 0 where
  down : v ≡ lo → 2 * r ≤ t → (2 * r ≡ t → sig % 2 ≡ 0) → Chosen lo t r sig v
  up : v ≡ lo + t → t ≤ 2 * r → (2 * r ≡ t → sig % 2 ≡ 0) → Chosen lo t r sig v

pub Chosen-closest :
    (n lo t r sig v w : ℕ)
    → n ≡ lo + r
    → r < t
    → Chosen lo t r sig v
    → (w ≤ lo) ⊎ (lo + t ≤ w)
    → (dist n v ≤ dist n w) × (dist n w ≡ dist n v → w ≢ v → sig % 2 ≡ 0)
Chosen-closest n lo t r sig v w split small (down e le even) out =
    (omega arith, λ near other. even (omega arith))
Chosen-closest n lo t r sig v w split small (up e le even) out =
    (omega arith, λ near other. even (omega arith))

-- The candidates for the significand and its place, by the guard digit `x % 2` and the digits `low`
-- below it, where `half` is the guard's weight.
pub round_up-Chosen :
    (x low d : ℕ)
    → low < 2 ^ d
    → 2 ^ 52 ≤ x / 2
    → x / 2 < 2 ^ 53
    → let s = round_up (not (x % 2 == 0)) (not (low == 0)) (x / 2) (suc d + 52) in
      (e : ℕ) × (s.1 ≡ e + 52)
      × (2 ^ 52 ≤ s.0)
      × (s.0 < 2 ^ 53)
      × Chosen (x / 2 * 2 ^ suc d) (2 ^ suc d) (x % 2 * 2 ^ d + low) s.0 (s.0 * 2 ^ e)
unfolding round_up
round_up-Chosen x low d small lo hi =
    let t : ℕ = 2 ^ suc d in
    let double : t ≡ 2 ^ d * 2 = pow-suc 2 d in
    elim (Bool-cases (x % 2 == 0)) [
      | inl guard_clear ↦
          let g : x % 2 ≡ 0 = ==→eq _ _ guard_clear in
          rw guard_clear
            (suc d, refl, lo, hi, rw g (down refl (omega arith) (λ e. absurd (omega arith))))
      | inr guard ↦
          let g : x % 2 ≡ 1 = ground arith in
          elim (Bool-cases (not (low == 0) || not (x / 2 % 2 == 0))) [
            | inr tie_to_even ↦
                let exact : low ≡ 0 = ground arith in
                let even : x / 2 % 2 ≡ 0 = ground arith in
                rw (guard, tie_to_even)
                  (suc d, refl, lo, hi, rw g (down refl (omega arith) (λ e. even)))
            | inl upward ↦ elim (Bool-cases (x / 2 + 1 == 2 ^ 53)) [
              | inl carry ↦
                  let q : x / 2 + 1 ≡ 2 ^ 53 = ==→eq _ _ carry in
                  let half : (x / 2 + 1) / 2 ≡ 2 ^ 52 = omega arith in
                  let next : 2 ^ (suc d + 1) ≡ t * 2 = rw (add-one (suc d)) (pow-suc 2 (suc d)) in
                  let whole : x / 2 * t + t ≡ 2 ^ 53 * t = omega (arith, ap (λ (n : ℕ). n * t) q) in
                  rw (guard, upward, carry, half)
                    (
                      suc d + 1,
                      omega arith,
                      omega arith,
                      omega arith,
                      rw g (up (rw next (omega arith)) (omega arith) (λ e. refl)),
                    )
              | inr stays ↦
                  let odd : low ≡ 0 → (x / 2 + 1) % 2 ≡ 0 = λ e. ground arith in
                  rw (guard, upward, stays)
                    (
                      suc d,
                      refl,
                      omega arith,
                      ground arith,
                      rw g (up (omega arith) (omega arith) (λ e. odd (omega arith))),
                    )
            ]
          ]
    ]
