-- ===== src/Math/MpiExactUint64Sum/Examples.antt =====
-- Runs of the sum over ranks, and its theorem at a concrete input.
use hyowon.Common.{ℕ, ◌%◌, ◌^◌, ◌≡◌, refl, some, Option, List, [], ◌∷◌, get_or, inl, inr, arith}
use hyowon.Math.MpiExactUint64Sum.{local_limbs, combined, mpi_exact_uint64_sum, sum_overflows}
use hyowon.Math.MpiExactUint64Sum.Exact.{sum_of, reduced, Summed, mpi_exact_uint64_sum-Summed}

program : Unit {0}
unfolding local_limbs combined mpi_exact_uint64_sum
program = tt

-- A reduction that sums.
abbrev summing : List ℕ → Option ℕ
summing ws = some (sum_of ws % 2 ^ 64)

abbrev three_values : List ℕ
three_values = 0xffff_ffff ∷ 5 ∷ 2 ^ 63 ∷ []

mpi_exact_uint64_sum-run :
    mpi_exact_uint64_sum (some 3) (reduced summing three_values) 5 ≡ inr 0x8000_0001_0000_0004
unfolding program
mpi_exact_uint64_sum-run = refl

overflowing-run :
    mpi_exact_uint64_sum (some 2) (reduced summing (2 ^ 63 ∷ 2 ^ 63 ∷ [])) (2 ^ 63)
    ≡ inl sum_overflows
unfolding program
overflowing-run = refl

mpi_exact_uint64_sum-Summed_example :
    Summed 3
      (sum_of three_values)
      (mpi_exact_uint64_sum (some 3) (reduced summing three_values) (get_or three_values 1 0))
mpi_exact_uint64_sum-Summed_example =
    mpi_exact_uint64_sum-Summed summing three_values 1 (λ ws. refl)
      (omega arith, (omega arith, (omega arith, tt))) (omega arith)
