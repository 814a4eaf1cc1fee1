-- ===== src/Math/MpiExactNonnegativeSum.antt =====
-- src/math/mpi_exact_nonnegative_sum.cpp, in a build with MPI: the local accumulation, also of segments by
-- several workers, and the collective combination of one rank. The answers of the MPI calls of a rank are
-- a parameter, `none` where a call fails.
pub mod Values
pub mod Shares
pub mod Segments
pub mod Collective
pub mod Gathered
pub mod Ranks
pub mod Agreement
pub mod Reductions
mod Examples
use hyowon.Common.{
  ℕ, zero, suc, ◌+◌, ◌-◌, ◌*◌, ◌/◌, ◌%◌, ◌^◌, min, Bool, true, false, not, ◌&&◌, ◌||◌, Option, none,
  some, List, [], ◌∷◌, ltb, leb, ◌==◌, if◌then◌else◌, length, take, drop, Outcome, done, thrown, ℤ,
  pos, negsuc,
}
use hyowon.Common.Fallible.{Result, ok, err, ◌>>=◌, throw_if}
use hyowon.Math.ExactPositiveSum.{
  Limbs, Sum, limb_count, empty_sum, is_finite, is_negative, add, add_repeated, combine,
  combine_serialized,
}
use hyowon.Math.ExactPositiveSum
use hyowon.Math.ExactPositiveSum.Rounding.{value}
use hyowon.Runtime.ThreadPolicy.{host_parallel_worker_capacity}

pub data Stage : Type 0 where
  local_accumulation gather_allocation global_combination : Stage

pub data Error : Type 0 where
  uniform_with_explicit uniform_not_non_negative explicit_count_mismatch : Error
  explicit_not_non_negative segment_not_non_negative : Error
  of_sum : ExactPositiveSum.Error → Error
  mpi_not_initialized mpi_finalized not_main_thread world_query_failed : Error
  synchronization_failed failed_on_another_rank : Stage → Error
  gathered_limbs_overflow gather_limbs_failed gather_counts_failed total_not_finite : Error
  broadcast_failed : Error

abbrev pub size_max : ℕ
size_max = 2 ^ 64 - 1

-- The new state, or the exception; the object is a local variable of its caller.
unfoldable pub returned : Outcome ExactPositiveSum.Error Sum → Result Error Sum
returned (done s) = ok s
returned (thrown e s) = err (of_sum e)

-- `!std::isfinite(value) || value < 0.0`
unfoldable pub is_bad_value : ℕ → Bool
is_bad_value bits = not (is_finite bits) || is_negative bits

-- The loop over values, where `bad` is thrown for one that is no term.
unfoldable pub add_values : Error → Sum → List ℕ → Result Error Sum
add_values bad s [] = ok s
add_values bad s (v ∷ vs) =
    let rest = returned (add s v) >>= (λ t. add_values bad t vs) in
    if is_bad_value v then err bad else rest

unfoldable pub exact_nonnegative_double_accumulator : ℕ → List ℕ → Option ℕ → Result Error Sum
exact_nonnegative_double_accumulator term_count explicit_values (some v) =
    if not (length explicit_values == 0)
    then err uniform_with_explicit
    else if is_bad_value v
    then err uniform_not_non_negative
    else returned (add_repeated empty_sum v term_count)
exact_nonnegative_double_accumulator term_count explicit_values none =
    if not (length explicit_values == term_count)
    then err explicit_count_mismatch
    else add_values explicit_not_non_negative empty_sum explicit_values

-- The sum of the sizes, which stops at the largest `std::size_t`.
unfoldable pub work_loop : ℕ → List (List ℕ) → ℕ
work_loop work_items [] = work_items
work_loop work_items (segment ∷ segments) =
    work_loop (work_items + min (length segment) (size_max - work_items)) segments

-- The part of a segment that one of the workers reads.
unfoldable pub share : ℕ → ℕ → List ℕ → List ℕ
share worker_count worker segment =
    let block = length segment / worker_count in
    let remainder = length segment % worker_count in
    let begin = worker * block + min worker remainder in
    let end = begin + block + (if ltb worker remainder then 1 else 0) in
    take (end - begin) (drop begin segment)

-- The body of one worker.
unfoldable pub worker_loop : ℕ → ℕ → Sum → List (List ℕ) → Result Error Sum
worker_loop worker_count worker s [] = ok s
worker_loop worker_count worker s (segment ∷ segments) =
    add_values segment_not_non_negative s (share worker_count worker segment)
    >>= (λ t. worker_loop worker_count worker t segments)

-- What the workers leave in `partial_sums` and `partial_exceptions`, `left` of them from `worker` on.
unfoldable pub partial_results : ℕ → ℕ → ℕ → List (List ℕ) → List (Result Error Sum)
partial_results zero worker worker_count segments = []
partial_results (suc left) worker worker_count segments =
    worker_loop worker_count worker empty_sum segments
    ∷ partial_results left (worker + 1) worker_count segments

-- The first exception in the order of the workers.
unfoldable pub rethrow_first : List (Result Error Sum) → Result Error (List Sum)
rethrow_first [] = ok []
rethrow_first (r ∷ rs) = r >>= (λ s. rethrow_first rs >>= (λ partials. ok (s ∷ partials)))

unfoldable pub combine_all : Sum → List Sum → Result Error Sum
combine_all result [] = ok result
combine_all result (partial ∷ partials) =
    returned (combine result partial) >>= (λ t. combine_all t partials)

-- The path with no allocation.
unfoldable pub add_segments : Sum → List (List ℕ) → Result Error Sum
add_segments s [] = ok s
add_segments s (segment ∷ segments) =
    add_values segment_not_non_negative s segment >>= (λ t. add_segments t segments)

-- `max_threads` is what OpenMP answers.
unfoldable pub exact_nonnegative_segment_accumulator : ℤ → List (List ℕ) → Result Error Sum
exact_nonnegative_segment_accumulator max_threads segments =
    let worker_count = host_parallel_worker_capacity max_threads (work_loop 0 segments) in
    if ltb 1 worker_count
    then rethrow_first (partial_results worker_count 0 worker_count segments)
      >>= combine_all empty_sum
    else add_segments empty_sum segments
