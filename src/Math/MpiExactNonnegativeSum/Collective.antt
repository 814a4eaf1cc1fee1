-- ===== src/Math/MpiExactNonnegativeSum/Collective.antt =====
-- src/math/mpi_exact_nonnegative_sum.cpp: what one rank does. The answers of its MPI calls are a
-- parameter, `none` where a call fails.
use hyowon.Common.{
  ℕ, zero, suc, ◌+◌, ◌*◌, ◌/◌, Option, none, some, List, not, ◌&&◌, ltb, leb, ◌==◌, if◌then◌else◌,
  get_or, take, drop, ℤ, pos,
}
use hyowon.Common.Fallible.{Result, ok, err, ◌>>=◌}
use hyowon.Math.ExactPositiveSum.{
  Sum, limb_count, empty_sum, is_finite, combine_serialized, result_not_finite,
}
use hyowon.Math.ExactPositiveSum.Rounding.{value}
use hyowon.Math.MpiExactNonnegativeSum.{
  Error, Stage, local_accumulation, gather_allocation, global_combination, of_sum,
  mpi_not_initialized, mpi_finalized, not_main_thread, world_query_failed, synchronization_failed,
  failed_on_another_rank, gathered_limbs_overflow, gather_limbs_failed, gather_counts_failed,
  total_not_finite, broadcast_failed, size_max, returned, exact_nonnegative_double_accumulator,
  exact_nonnegative_segment_accumulator,
}

pub record Answers : Type 0 where
  pub initialized : Option ℕ
  pub finalized : Option ℕ
  pub is_main_thread : Option ℕ
  pub comm_rank : Option ℤ
  pub comm_size : Option ℤ
  -- MPI_Allreduce of a flag
  pub any_failed : Stage → ℕ → Option ℕ
  -- The rank's buffers behind the two calls of MPI_Gather, for what it sends
  pub gathered_limbs : List ℕ → Option (List ℕ)
  pub gathered_counts : ℕ → Option (List ℕ)
  -- MPI_Bcast of a buffer
  pub broadcast : ℕ → Option ℕ

abbrev pub answered {ℓ} : {A : Type ℓ} → Error → Option A → Result Error A
answered e none = err e
answered e (some a) = ok a

abbrev pub exception_of {ℓ} : {A : Type ℓ} → Result Error A → Option Error
exception_of (ok a) = none
exception_of (err e) = some e

-- What a variable holds behind an assignment that may throw.
abbrev pub value_or {ℓ} : {A : Type ℓ} → A → Result Error A → A
value_or a (ok b) = b
value_or a (err e) = a

abbrev pub failed_flag : Option Error → ℕ
failed_flag none = 0
failed_flag (some e) = 1

abbrev pub rethrown : Stage → Option Error → Error
rethrown stage none = failed_on_another_rank stage
rethrown stage (some e) = e

unfoldable pub synchronize_exception : Answers → Stage → Option Error → Result Error (Unit {0})
synchronize_exception answers stage local_exception =
    answered (synchronization_failed stage) (answers.any_failed stage (failed_flag local_exception))
    >>= (λ any_failed. if any_failed == 0 then ok tt else err (rethrown stage local_exception))

-- `call(&flag) != MPI_SUCCESS || flag == 0`
abbrev pub require_set : Error → Option ℕ → Result Error (Unit {0})
require_set e none = err e
require_set e (some flag) = if flag == 0 then err e else ok tt

-- `call(&flag) != MPI_SUCCESS || flag != 0`
abbrev pub require_clear : Error → Option ℕ → Result Error (Unit {0})
require_clear e none = err e
require_clear e (some flag) = if flag == 0 then ok tt else err e

abbrev pub world_of : Option ℤ → Option ℤ → Result Error (ℕ × ℕ)
world_of (some (pos rank)) (some (pos size)) =
    if ltb size 1
    then err world_query_failed
    else if leb size rank
    then err world_query_failed
    else ok (rank, size)
world_of rank size = err world_query_failed

-- The rank and the size of MPI_COMM_WORLD.
unfoldable pub require_active_mpi : Answers → Result Error (ℕ × ℕ)
require_active_mpi answers = require_set mpi_not_initialized answers.initialized >>= (λ _.
    require_clear mpi_finalized answers.finalized >>= (λ _.
      require_set not_main_thread answers.is_main_thread
      >>= (λ _. world_of answers.comm_rank answers.comm_size)))

-- `total = global.value()`
abbrev pub of_value : Option ℕ → Result Error ℕ
of_value none = err (of_sum result_not_finite)
of_value (some v) = ok v

-- The exception of the stage that allocates the buffers.
abbrev pub allocation_exception : ℕ → ℕ → Option Error
allocation_exception rank size =
    if (rank == 0) && ltb (size_max / limb_count) size then some gathered_limbs_overflow else none

-- The loop over the sources, `left` of them from `source` on.
unfoldable pub combine_gathered : ℕ → ℕ → List ℕ → List ℕ → Sum → Result Error Sum
combine_gathered zero source gathered_limbs gathered_counts global = ok global
combine_gathered (suc left) source gathered_limbs gathered_counts global =
    returned (
      combine_serialized global (take limb_count (drop (source * limb_count) gathered_limbs))
        (get_or gathered_counts source 0))
    >>= (λ t. combine_gathered left (source + 1) gathered_limbs gathered_counts t)

abbrev pub finite_total : ℕ → Result Error ℕ
finite_total total = if not (is_finite total) then err total_not_finite else ok total

-- The total of the root, or its exception; the other ranks keep 0.0.
unfoldable pub combination : (ℕ → ℤ → ℕ) → ℕ → ℕ → List ℕ → List ℕ → Result Error ℕ
combination ldexp rank size gathered_limbs gathered_counts =
    let total =
      combine_gathered size 0 gathered_limbs gathered_counts empty_sum
      >>= (λ global. of_value (value ldexp global.limbs) >>= finite_total) in
    if rank == 0 then total else ok 0

unfoldable pub combine_exact_accumulator_collective :
    (ℕ → ℤ → ℕ) → Answers → Sum → ℕ → ℕ → Result Error ℕ
combine_exact_accumulator_collective ldexp answers local rank size =
    let together =
      synchronize_exception answers gather_allocation (allocation_exception rank size) >>= (λ _.
        answered gather_limbs_failed (answers.gathered_limbs local.limbs) >>= (λ gathered_limbs.
          answered gather_counts_failed (answers.gathered_counts local.term_count)
          >>= (λ gathered_counts.
              let total = combination ldexp rank size gathered_limbs gathered_counts in
              synchronize_exception answers global_combination (exception_of total)
              >>= (λ _. answered broadcast_failed (answers.broadcast (value_or 0 total)))))) in
    if size == 1 then of_value (value ldexp local.limbs) else together

-- The two functions behind their local accumulation, which ended in `local`.
unfoldable pub over_ranks : (ℕ → ℤ → ℕ) → Answers → Result Error Sum → Result Error ℕ
over_ranks ldexp answers local = require_active_mpi answers >>= (λ (rank, size).
    synchronize_exception answers local_accumulation (exception_of local) >>= (λ _.
      combine_exact_accumulator_collective ldexp answers (value_or empty_sum local) rank size))

unfoldable pub mpi_exact_nonnegative_sum :
    (ℕ → ℤ → ℕ) → Answers → ℕ → List ℕ → Option ℕ → Result Error ℕ
mpi_exact_nonnegative_sum ldexp answers local_count explicit_values uniform_value =
    over_ranks ldexp answers
      (exact_nonnegative_double_accumulator local_count explicit_values uniform_value)

unfoldable pub mpi_exact_nonnegative_sum_segments :
    (ℕ → ℤ → ℕ) → Answers → ℤ → List (List ℕ) → Result Error ℕ
mpi_exact_nonnegative_sum_segments ldexp answers max_threads local_segments =
    over_ranks ldexp answers (exact_nonnegative_segment_accumulator max_threads local_segments)
