-- ===== src/Math/MpiExactUint64Sum/Exact.antt =====
-- src/math/mpi_exact_uint64_sum.cpp: the result on every rank.
use native.Mathlib.Nat.{mod-eq_of_lt, mul-le-mul_right}
use hyowon.Common.{
  ℕ, zero, suc, ◌+◌, ◌-◌, ◌*◌, ◌/◌, ◌%◌, ◌^◌, ◌<◌, ◌≤◌, ◌≡◌, refl, subst, false, ltb, ◌==◌,
  bit_or-disjoint, Option, none, some, List, [], ◌∷◌, length, get_or, All, ◌⊎◌, inl, inr, arith,
  tests, Bool-cases, ==→eq,
}
use hyowon.Math.MpiExactUint64Sum.{
  Error, communicator_too_large, sum_overflows, local_limbs, combined, mpi_exact_uint64_sum,
}

abbrev pub sum_of : List ℕ → ℕ
sum_of [] = 0
sum_of (v ∷ vs) = v + sum_of vs

abbrev pub highs : List ℕ → List ℕ
highs [] = []
highs (v ∷ vs) = (local_limbs v).0 ∷ highs vs

abbrev pub lows : List ℕ → List ℕ
lows [] = []
lows (v ∷ vs) = (local_limbs v).1 ∷ lows vs

-- What MPI_SUM gives for the words of all ranks: their sum in the words' arithmetic.
abbrev pub IsReduction : (List ℕ → Option ℕ) → Type 0
IsReduction allreduce = (ws : List ℕ) → allreduce ws ≡ some (sum_of ws % 2 ^ 64)

-- The result for the sum of all words: the same on every rank.
pub data Summed (ranks total : ℕ) : Error ⊎ ℕ → Type 0 where
  exact : total < 2 ^ 64 → Summed ranks total (inr total)
  overflows : 2 ^ 64 ≤ total → Summed ranks total (inl sum_overflows)
  too_many : 2 ^ 32 + 1 < ranks → Summed ranks total (inl communicator_too_large)

limbs_total : (vs : List ℕ) → sum_of (highs vs) * 2 ^ 32 + sum_of (lows vs) ≡ sum_of vs
unfolding local_limbs
limbs_total [] = refl
limbs_total (v ∷ vs) = omega (arith, limbs_total vs)

highs-le : (vs : List ℕ) → All (λ v. v < 2 ^ 64) vs → sum_of (highs vs) ≤ length vs * (2 ^ 32 - 1)
unfolding local_limbs
highs-le [] h = omega arith
highs-le (v ∷ vs) h = omega (arith, highs-le vs h.1, h.0)

lows-le : (vs : List ℕ) → sum_of (lows vs) ≤ length vs * (2 ^ 32 - 1)
unfolding local_limbs
lows-le [] = omega arith
lows-le (v ∷ vs) = omega (arith, lows-le vs)

combined-Summed :
    (ranks high low : ℕ)
    → high < 2 ^ 64
    → low < 2 ^ 64
    → Summed ranks (high * 2 ^ 32 + low) (combined (high, low))
unfolding combined
combined-Summed ranks high low h l =
    let c : ℕ = low / 2 ^ 32 in
    elim (Bool-cases (ltb (2 ^ 64 - 1 - c) high)) [
      | inl wraps ↦ rw wraps (overflows (omega tests))
      | inr fits ↦
          let sum : (high + c) % 2 ^ 64 ≡ high + c = mod-eq_of_lt (omega tests) in
          elim (Bool-cases (ltb (2 ^ 32 - 1) (high + c))) [
            | inl large ↦ rw (fits, sum, large) (overflows (omega tests))
            | inr small ↦
                let shifted : (high + c) * 2 ^ 32 % 2 ^ 64 ≡ (high + c) * 2 ^ 32 =
                  mod-eq_of_lt (omega tests) in
                let joined = bit_or-disjoint 32 (high + c) (low % 2 ^ 32) (omega arith) in
                let total : (high + c) * 2 ^ 32 + low % 2 ^ 32 ≡ high * 2 ^ 32 + low =
                  omega arith in
                rw (fits, sum, small, shifted, joined, total) (exact (omega tests))
          ]
    ]

-- The reduction of the ranks' two limbs, each for itself.
abbrev pub both_reduced : Option ℕ → Option ℕ → Option (ℕ × ℕ)
both_reduced none low = none
both_reduced (some high) none = none
both_reduced (some high) (some low) = some (high, low)

abbrev pub reduced : (List ℕ → Option ℕ) → List ℕ → Option (ℕ × ℕ)
reduced allreduce values = both_reduced (allreduce (highs values)) (allreduce (lows values))

only_one : (values : List ℕ) (i : ℕ) → length values ≡ 1 → i < 1 → get_or values i 0 ≡ sum_of values
only_one (v ∷ []) zero e h = omega arith
only_one (v ∷ []) (suc i) e h = absurd (omega arith)
only_one (v ∷ w ∷ vs) i e h = absurd (omega arith)
only_one [] i e h = absurd (omega arith)

word-lt : (values : List ℕ) (i : ℕ) → All (λ v. v < 2 ^ 64) values → get_or values i 0 < 2 ^ 64
word-lt [] i h = omega arith
word-lt (v ∷ vs) zero h = h.0
word-lt (v ∷ vs) (suc i) h = word-lt vs i h.1

-- On every rank of a communicator whose reduction sums words, the result is the exact sum of the words
-- of all ranks, or the exception of a sum that is no word, or that of more ranks than 32-bit limbs allow.
pub mpi_exact_uint64_sum-Summed :
    (allreduce : List ℕ → Option ℕ) (values : List ℕ) (rank : ℕ)
    → IsReduction allreduce
    → All (λ v. v < 2 ^ 64) values
    → rank < length values
    → Summed (length values) (sum_of values) (
        mpi_exact_uint64_sum
          (some (length values))
          (reduced allreduce values)
          (get_or values rank 0))
unfolding mpi_exact_uint64_sum
mpi_exact_uint64_sum-Summed allreduce values rank law words h =
    let n : ℕ = length values in
    let some_ranks : ltb n 1 ≡ false = ground arith in
    elim (Bool-cases (n == 1)) [
      | inl single ↦
          let one : n ≡ 1 = ==→eq n 1 single in
          let own = only_one values rank one (omega arith) in
          let word = word-lt values rank words in rw (some_ranks, single, own) (exact (omega arith))
      | inr several ↦ elim (Bool-cases (ltb (2 ^ 32 + 1) n)) [
        | inl many ↦ rw (some_ranks, several, many) (too_many (omega tests))
        | inr fits ↦
            let most : n * (2 ^ 32 - 1) ≤ (2 ^ 32 + 1) * (2 ^ 32 - 1) =
              mul-le-mul_right {n = 2 ^ 32 + 1} (2 ^ 32 - 1) (omega tests) in
            let high_fits : sum_of (highs values) < 2 ^ 64 = omega (arith, highs-le values words) in
            let low_fits : sum_of (lows values) < 2 ^ 64 = omega (arith, lows-le values) in
            let high : sum_of (highs values) % 2 ^ 64 ≡ sum_of (highs values) =
              mod-eq_of_lt high_fits in
            let low : sum_of (lows values) % 2 ^ 64 ≡ sum_of (lows values) =
              mod-eq_of_lt low_fits in
            rw (some_ranks, several, fits, law (highs values), law (lows values), high, low)
              (subst (λ t. Summed n t (combined (sum_of (highs values), sum_of (lows values))))
                (limbs_total values)
                (combined-Summed n (sum_of (highs values)) (sum_of (lows values)) high_fits
                  low_fits))
      ]
    ]
