-- ===== src/Halo/Grid/Cubes.antt =====
-- src/halo/fof_membership.cpp: cubes of numbers, and the largest one below a count.
use native.Mathlib.Nat.{le-div_iff_mul-le, div-lt_iff_lt-mul, mul-le-mul, mod-eq_of_lt}
use hyowon.Common.{
  ℕ, zero, suc, ◌+◌, ◌-◌, ◌*◌, ◌/◌, ◌%◌, ◌^◌, max, ◌≤◌, ◌<◌, ◌≡◌, ◌↔◌, refl, true, false, ltb, leb,
  inl, inr, ◌⊎◌, arith, tests, Bool-cases, suc-ne_zero, leb→le, le→leb,
}
use hyowon.Halo.Grid.{
  GridError, grid_overflows, cube_fits_within, checked_cube, lower_cap, raise_cap, memory_cap_1d,
}

-- The test of a positive number, when its square is known to fit.
cube_test :
    (v limit : ℕ) → 0 < v → limit < 2 ^ 64 → (cube_fits_within v limit ≡ true) ↔ (v * v * v ≤ limit)
unfolding cube_fits_within
cube_test zero limit h k = absurd (omega arith)
cube_test (suc v) limit h k =
    let w : ℕ = suc v in
    let square = le-div_iff_mul-le {k = w} {x = w} {y = limit} h in
    elim (Bool-cases (ltb (limit / w) w)) [
      | inl large ↦
          let over : limit < w * w =
            (div-lt_iff_lt-mul {k = w} {x = limit} {y = w} h).0 (omega tests) in
          let more : w * w * 1 ≤ w * w * w = mul-le-mul (omega arith) h in
          rw (suc-ne_zero v, large) (λ e. absurd (ground arith), λ le. absurd (omega arith))
      | inr small ↦
          let fits : w * w ≤ limit = square.0 (omega tests) in
          let whole : w * w % 2 ^ 64 ≡ w * w = mod-eq_of_lt (omega arith) in
          let square_pos : 0 < w * w = mul-le-mul {n₁ = 1} {m₁ = 1} h h in
          let cube = le-div_iff_mul-le {k = w * w} {x = w} {y = limit} square_pos in
          rw (suc-ne_zero v, small, whole)
            (λ e. omega (arith, cube.0 (leb→le _ _ e)), λ le. le→leb _ _ (cube.1 (omega arith)))
    ]

-- The overflow-free test says whether the cube of a number is at most a limit of 64 bits.
pub cube_fits_within_iff :
    (v limit : ℕ) → limit < 2 ^ 64 → (cube_fits_within v limit ≡ true) ↔ (v * v * v ≤ limit)
unfolding cube_fits_within
cube_fits_within_iff zero limit k = (λ e. omega arith, λ le. refl)
cube_fits_within_iff (suc v) limit k = cube_test (suc v) limit (omega arith) k

-- What `checked_cube` may give.
pub data Cubed (v : ℕ) : GridError ⊎ ℕ → Type 0 where
  cubed : v * v * v < 2 ^ 64 → Cubed v (inr (v * v * v))
  too_large : 2 ^ 64 ≤ v * v * v → Cubed v (inl grid_overflows)

square-le : (v : ℕ) → v * v ≤ v * v * v
square-le zero = omega arith
square-le (suc v) =
    let w : ℕ = suc v in
    let more : w * w * 1 ≤ w * w * w =
      mul-le-mul {n₁ = w * w} {m₁ = 1} {n₂ = w * w} {m₂ = w} (omega arith) (omega arith) in
    omega arith

over_limit : (v limit : ℕ) → limit < 2 ^ 64 → cube_fits_within v limit ≡ false → limit < v * v * v
over_limit v limit k out = elim (Bool-cases (leb (v * v * v) limit)) [
  | inr large ↦ omega tests
  | inl small ↦
      let yes = (cube_fits_within_iff v limit k).1 (leb→le _ _ small) in absurd (ground arith)
]

-- `checked_cube` is the cube, or an exception where the cube does not fit in 64 bits.
pub checked_cube-Cubed : (v : ℕ) → Cubed v (checked_cube v)
unfolding checked_cube
checked_cube-Cubed v =
    let limit : ℕ = 2 ^ 64 - 1 in
    elim (Bool-cases (cube_fits_within v limit)) [
      | inl fits ↦
          let le = (cube_fits_within_iff v limit (omega arith)).0 fits in
          let small = square-le v in
          let square : v * v % 2 ^ 64 ≡ v * v = mod-eq_of_lt (omega arith) in
          let cube : v * v * v % 2 ^ 64 ≡ v * v * v = mod-eq_of_lt (omega arith) in
          rw (fits, square, cube) (cubed (omega arith))
      | inr out ↦ rw out (too_large (over_limit v limit (omega arith) out))
    ]

-- A number whose cube is at most `n`, found below a bound.
lower_cap-fits :
    (start n : ℕ)
    → 0 < start
    → 0 < n
    → n < 2 ^ 64
    → let c = lower_cap start n in (0 < c) × (c * c * c ≤ n)
unfolding lower_cap
lower_cap-fits zero n h k l = absurd (omega arith)
lower_cap-fits (suc zero) n h k l = (omega arith, omega arith)
lower_cap-fits (suc (suc i)) n h k l =
    let more : leb 1 (suc i) ≡ true = ground arith in
    elim (Bool-cases (cube_fits_within (suc (suc i)) n)) [
      | inl fits ↦ rw (more, fits) (omega arith, (cube_fits_within_iff (suc (suc i)) n l).0 fits)
      | inr out ↦ rw (more, out) (lower_cap-fits (suc i) n (omega arith) k l)
    ]

own_cube-le : (c : ℕ) → 0 < c → c ≤ c * c * c
own_cube-le c h =
    let square : 1 * 1 ≤ c * c = mul-le-mul {n₁ = 1} {m₁ = 1} {n₂ = c} {m₂ = c} h h in
    let grown : 1 * c ≤ c * c * c =
      mul-le-mul {n₁ = 1} {m₁ = c} {n₂ = c * c} {m₂ = c} square (omega arith) in
    omega arith

-- The cube of the next number is above the count.
raise_cap-greatest :
    (left c n : ℕ)
    → left + c ≡ n
    → 0 < c
    → n < 2 ^ 64
    → c * c * c ≤ n
    → let r = raise_cap left c n in (r * r * r ≤ n) × (n < (r + 1) * (r + 1) * (r + 1))
unfolding raise_cap
raise_cap-greatest zero c n e h l le = (le, omega (arith, own_cube-le (c + 1) (omega arith)))
raise_cap-greatest (suc left) c n e h l le =
    let below : ltb c n ≡ true = ground arith in
    elim (Bool-cases (cube_fits_within (c + 1) n)) [
      | inl fits ↦
          rw (below, fits)
            (raise_cap-greatest left (c + 1) n (omega arith) (omega arith) l
              ((cube_fits_within_iff (c + 1) n l).0 fits))
      | inr out ↦ rw (below, out) (le, over_limit (c + 1) n l out)
    ]

-- Whatever the estimate of the cube root, the two loops end at the integer cube root of the particle
-- count, for a positive count of 64 bits.
pub memory_cap_1d-root :
    (floor_cbrt n : ℕ)
    → 0 < n
    → n < 2 ^ 64
    → let c = memory_cap_1d floor_cbrt n in (c * c * c ≤ n) × (n < (c + 1) * (c + 1) * (c + 1))
unfolding memory_cap_1d
memory_cap_1d-root floor_cbrt n h l =
    let (some_cap, le) = lower_cap-fits (max 1 floor_cbrt) n (omega arith) h l in
    raise_cap-greatest _ (lower_cap (max 1 floor_cbrt) n) n
      (omega (arith, own_cube-le (lower_cap (max 1 floor_cbrt) n) some_cap)) some_cap l le
