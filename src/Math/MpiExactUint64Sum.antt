-- ===== src/Math/MpiExactUint64Sum.antt =====
-- src/math/mpi_exact_uint64_sum.cpp, in a build with MPI: the sum of one word of each rank. The answers
-- of MPI_Comm_size and MPI_Allreduce are parameters, `none` where a call fails.
pub mod Exact
mod Examples
use hyowon.Common.{
  ℕ, zero, suc, ◌+◌, ◌-◌, ◌*◌, ◌/◌, ◌%◌, ◌^◌, ltb, leb, ◌==◌, if◌then◌else◌, bit_or, Option, none,
  some, ◌⊎◌, inl, inr,
}

pub data Error : Type 0 where
  size_query_failed no_ranks communicator_too_large reduction_failed sum_overflows : Error

-- The largest `std::uint64_t`.
abbrev pub uint64_max : ℕ
uint64_max = 2 ^ 64 - 1

abbrev pub limb_mask : ℕ
limb_mask = 2 ^ 32 - 1

-- The upper and the lower limb that a rank gives to the reduction.
unfoldable pub local_limbs : ℕ → ℕ × ℕ
local_limbs local_value = (local_value / 2 ^ 32, local_value % 2 ^ 32)

-- The limbs' sums put together.
unfoldable pub combined : ℕ × ℕ → Error ⊎ ℕ
combined global_limbs =
    let carry = global_limbs.1 / 2 ^ 32 in
    let high = (global_limbs.0 + carry) % 2 ^ 64 in
    if ltb (uint64_max - carry) global_limbs.0
    then inl sum_overflows
    else if ltb limb_mask high
    then inl sum_overflows
    else inr (bit_or (high * 2 ^ 32 % 2 ^ 64) (global_limbs.1 % 2 ^ 32))

abbrev pub with_reduction : Option (ℕ × ℕ) → Error ⊎ ℕ
with_reduction none = inl reduction_failed
with_reduction (some global_limbs) = combined global_limbs

abbrev pub with_size : ℕ → Option (ℕ × ℕ) → ℕ → Error ⊎ ℕ
with_size size reduction local_value =
    if ltb size 1
    then inl no_ranks
    else if size == 1
    then inr local_value
    else if ltb (uint64_max / limb_mask) size
    then inl communicator_too_large
    else with_reduction reduction

unfoldable pub mpi_exact_uint64_sum : Option ℕ → Option (ℕ × ℕ) → ℕ → Error ⊎ ℕ
mpi_exact_uint64_sum none reduction local_value = inl size_query_failed
mpi_exact_uint64_sum (some size) reduction local_value = with_size size reduction local_value
