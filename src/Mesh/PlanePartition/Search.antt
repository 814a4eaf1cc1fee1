-- ===== src/Mesh/PlanePartition/Search.antt =====
-- include/cosmo_nbody/mesh/detail/weighted_plane_partition.hpp: the binary search over loads, and
-- the bounds that it starts from.
use native.Mathlib.Nat.{pow-suc, div-add-mod, mul-le-mul}
use hyowon.Common.{
  ℕ, zero, suc, ◌+◌, ◌-◌, ◌*◌, ◌/◌, ◌%◌, ◌^◌, ◌≤◌, ◌<◌, ◌≡◌, refl, subst, false, not, inl, inr,
  none, some, List, [], ◌∷◌, ltb, leb, ◌==◌, if◌then◌else◌, max, arith, tests, Bool-cases,
}
use hyowon.Mesh.PlanePartition.{
  size_max, contiguous_groups_required, totals_loop, search_loop, optimal_maximum_load,
}
use hyowon.Mesh.PlanePartition.Greedy.{
  Fits, stop, join, open_group, Fits-mono, contiguous_groups_required_iff,
}

-- A load that some cut for these workers keeps to.
abbrev pub Feasible : List ℕ → ℕ → ℕ → Type 0
Feasible ws workers m = Fits m (workers - 1) 0 ws

-- The least feasible load.
abbrev pub IsLeast : List ℕ → ℕ → ℕ → Type 0
IsLeast ws workers m = Feasible ws workers m × ((n : ℕ) → Feasible ws workers n → m ≤ n)

module _ (ws : List ℕ) (workers : ℕ) (positive : 0 < workers) (few : workers < size_max) where
  infeasible :
      (m n : ℕ)
      → leb (contiguous_groups_required ws m) workers ≡ false
      → Feasible ws workers n
      → m + 1 ≤ n
  infeasible m n h f = elim (Bool-cases (leb n m)) [
    | inr greater ↦ omega tests
    | inl small ↦
        let counted =
          (contiguous_groups_required_iff ws m workers positive few).1
            (Fits-mono n m (workers - 1) 0 ws (omega tests) f) in
        absurd (ground arith)
  ]

  search_loop-IsLeast :
      (fuel lower upper : ℕ)
      → upper - lower < 2 ^ fuel
      → lower ≤ upper
      → Feasible ws workers upper
      → ((n : ℕ) → Feasible ws workers n → lower ≤ n)
      → IsLeast ws workers (search_loop fuel ws workers lower upper)
  unfolding search_loop
  search_loop-IsLeast zero lower upper gap le top bottom =
      let same : upper ≡ lower = omega arith in (subst (Feasible ws workers) same top, bottom)
  search_loop-IsLeast (suc fuel) lower upper gap le top bottom =
      let midpoint : ℕ = lower + (upper - lower) / 2 in
      let double = pow-suc 2 fuel in
      elim (Bool-cases (ltb lower upper)) [
        | inr met ↦
            let same : upper ≡ lower = omega tests in
            rw met (subst (Feasible ws workers) same top, bottom)
        | inl apart ↦ elim (Bool-cases (leb (contiguous_groups_required ws midpoint) workers)) [
          | inl fits ↦
              rw (apart, fits)
                (search_loop-IsLeast fuel lower midpoint (omega tests) (omega tests)
                  ((contiguous_groups_required_iff ws midpoint workers positive few).0 fits) bottom)
          | inr not_fits ↦
              rw (apart, not_fits)
                (search_loop-IsLeast fuel (midpoint + 1) upper (omega tests) (omega tests) top
                  (λ n f. infeasible midpoint n not_fits f))
        ]
      ]

-- The sum of the weights.
abbrev pub sum : List ℕ → ℕ
sum [] = 0
sum (w ∷ ws) = w + sum ws

none-some : (r : ℕ × ℕ) → none ≡ some r → ⊥
none-some r e = cc

-- What the loop over the weights computes, where nothing overflows.
totals_loop-sum :
    (ws : List ℕ) (t l : ℕ) (r : ℕ × ℕ)
    → t ≤ size_max
    → totals_loop ws t l ≡ some r
    → (r.0 ≡ t + sum ws) × (r.0 ≤ size_max)
unfolding totals_loop
totals_loop-sum [] t l r h e =
    let same : (t, l) ≡ r = cc in
    (
      subst (λ (p : ℕ × ℕ). p.0 ≡ t + 0) same (omega arith),
      subst (λ (p : ℕ × ℕ). p.0 ≤ size_max) same h,
    )
totals_loop-sum (w ∷ ws) t l r h e = elim (Bool-cases (ltb (size_max - t) w)) [
  | inl over ↦ absurd (none-some r (rw over at e))
  | inr fits ↦
      let rest : totals_loop ws (t + w) (max l w) ≡ some r = rw fits at e in
      let (total, small) = totals_loop-sum ws (t + w) (max l w) r (omega tests) rest in
      (omega arith, small)
]

-- Where the sum of the weights fits in 64 bits, the loop over them reports no overflow.
totals_loop-some :
    (ws : List ℕ) (t l : ℕ) → t + sum ws < 2 ^ 64 → (r : ℕ × ℕ) × (totals_loop ws t l ≡ some r)
unfolding totals_loop
totals_loop-some [] t l h = ((t, l), refl)
totals_loop-some (w ∷ ws) t l h =
    let fits : ltb (size_max - t) w ≡ false = omega tests in
    rw fits (totals_loop-some ws (t + w) (max l w) (omega arith))

-- The largest weight is carried by some group.
totals_loop-largest :
    (ws : List ℕ) (t l m k c : ℕ) (r : ℕ × ℕ)
    → l ≤ m
    → Fits m k c ws
    → totals_loop ws t l ≡ some r
    → r.1 ≤ m
unfolding totals_loop
totals_loop-largest [] t l m k c r h (stop _ _) e =
    let same : (t, l) ≡ r = cc in subst (λ (p : ℕ × ℕ). p.1 ≤ m) same h
totals_loop-largest (w ∷ ws) t l m k c r h (join _ _ _ _ le f) e =
    elim (Bool-cases (ltb (size_max - t) w)) [
      | inl over ↦ absurd (none-some r (rw over at e))
      | inr fits ↦
          totals_loop-largest ws (t + w) (max l w) m k (c + w) r (omega arith) f (rw fits at e)
    ]
totals_loop-largest (w ∷ ws) t l m (suc k) c r h (open_group _ _ _ _ le f) e =
    elim (Bool-cases (ltb (size_max - t) w)) [
      | inl over ↦ absurd (none-some r (rw over at e))
      | inr fits ↦ totals_loop-largest ws (t + w) (max l w) m k w r (omega arith) f (rw fits at e)
    ]

-- The groups together carry all the weights.
Fits-sum : (m k c : ℕ) (ws : List ℕ) → c ≤ m → Fits m k c ws → c + sum ws ≤ (k + 1) * m
Fits-sum m k c [] h (stop _ _) = grind arith
Fits-sum m k c (w ∷ ws) h (join _ _ _ _ le f) = omega (arith, Fits-sum m k (c + w) ws le f)
Fits-sum m (suc k) c (w ∷ ws) h (open_group _ _ _ _ le f) =
    let rest = Fits-sum m k w ws le f in
    let next : suc k + 1 ≡ k + 1 + 1 = omega arith in rw next (omega arith)

-- One group carries everything.
whole-Fits : (ws : List ℕ) (k c : ℕ) (m : ℕ) → c + sum ws ≤ m → Fits m k c ws
whole-Fits [] k c m h = stop k c
whole-Fits (w ∷ ws) k c m h = join k c w ws (omega arith) (whole-Fits ws k (c + w) m (omega arith))

-- A load that the workers can share is at least the rounded-up average.
average-le :
    (total workers m : ℕ)
    → 0 < workers
    → total ≤ workers * m
    → total / workers + (if not (total % workers == 0) then 1 else 0) ≤ m
average-le total workers m positive h =
    let q : ℕ = total / workers in
    let split : workers * q + total % workers ≡ total = div-add-mod total workers in
    elim (Bool-cases (total % workers == 0)) [
      | inl even ↦ elim (Bool-cases (leb q m)) [
        | inl le ↦ rw even (omega tests)
        | inr gt ↦
            let more : workers * (m + 1) ≤ workers * q = mul-le-mul (omega arith) (omega tests) in
            absurd (omega arith)
      ]
      | inr uneven ↦ elim (Bool-cases (ltb q m)) [
        | inl lt ↦ rw uneven (omega tests)
        | inr ge ↦
            let more : workers * m ≤ workers * q = mul-le-mul (omega arith) (omega tests) in
            absurd (ground arith)
      ]
    ]

-- For weights whose sum fits in 64 bits and a positive count of workers below the largest
-- `std::size_t`, the loop over the weights returns totals, and the load that the search finds from
-- them is feasible for the workers, and the least feasible load: no cut of the tasks into that many
-- contiguous ranges has a smaller greatest load. 64 rounds are enough.
pub optimal_maximum_load-IsLeast :
    (ws : List ℕ) (workers : ℕ)
    → 0 < workers
    → workers < size_max
    → sum ws < 2 ^ 64
    → (r : ℕ × ℕ) × (totals_loop ws 0 0 ≡ some r)
      × IsLeast ws workers (optimal_maximum_load ws workers r.0 r.1)
unfolding optimal_maximum_load
optimal_maximum_load-IsLeast ws workers positive few fits =
    let (r, e) = totals_loop-some ws 0 0 (omega arith) in
    let (total, small) = totals_loop-sum ws 0 0 r (omega arith) e in
    let top : Feasible ws workers r.0 = whole-Fits ws (workers - 1) 0 r.0 (omega arith) in
    let count : workers - 1 + 1 ≡ workers = omega arith in
    let average : ℕ = r.0 / workers + (if not (r.0 % workers == 0) then 1 else 0) in
    let bottom : (n : ℕ) → Feasible ws workers n → max r.1 average ≤ n = λ n f.
      let largest = totals_loop-largest ws 0 0 n (workers - 1) 0 r (omega arith) f e in
      let shared = Fits-sum n (workers - 1) 0 ws (omega arith) f in
      let bound : r.0 ≤ workers * n = subst (λ (k : ℕ). r.0 ≤ k * n) count (omega arith) in
      let mean : average ≤ n = average-le r.0 workers n positive bound in omega arith in
    let least =
      search_loop-IsLeast ws workers positive few 64 (max r.1 average) r.0 (omega arith)
        (bottom r.0 top) top bottom in
    (r, e, least)
