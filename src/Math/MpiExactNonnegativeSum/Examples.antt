-- ===== src/Math/MpiExactNonnegativeSum/Examples.antt =====
-- Runs of the sums over ranks, and their theorems at concrete inputs.
use hyowon.Common.{ℕ, ◌*◌, ◌^◌, ◌≡◌, refl, List, [], ◌∷◌, length, none, some, arith, ℤ, pos}
use hyowon.Common.Fallible.{ok, err}
use hyowon.Math.ExactPositiveSum.{
  empty_sum, exponent_field, fraction_field, is_finite, is_negative, decode, lacks_capacity,
  carry_loop, add_word, add_shifted_word, counted, add, repeat_loop, add_repeated, combine_loop,
  adopted, combine_serialized, combine,
}
use hyowon.Math.ExactPositiveSum.Rounding.{
  bit_width, countl_zero, highest_loop, highest_set_bit, bit, any_loop, any_bits_below, extract_u64,
  round_up, rounded_binary64_components, value,
}
use hyowon.Runtime.ThreadPolicy.{at_least_one, host_parallel_worker_capacity}
use hyowon.Math.MpiExactNonnegativeSum.{
  explicit_not_non_negative, segment_not_non_negative, uniform_with_explicit, returned,
  is_bad_value, add_values, exact_nonnegative_double_accumulator, work_loop, share, worker_loop,
  partial_results, rethrow_first, combine_all, add_segments, exact_nonnegative_segment_accumulator,
}
use hyowon.Math.MpiExactNonnegativeSum.Collective.{
  Answers, synchronize_exception, require_active_mpi, combine_gathered, combination,
  combine_exact_accumulator_collective, over_ranks, mpi_exact_nonnegative_sum,
  mpi_exact_nonnegative_sum_segments, value_or,
}
use hyowon.Math.MpiExactNonnegativeSum.Gathered.{all_limbs, all_counts}
use hyowon.Math.MpiExactNonnegativeSum.Ranks.{
  Locals, Communicates, Agrees, sums_of, at_root, total_at,
}
use hyowon.Math.MpiExactNonnegativeSum.Segments.{exact_nonnegative_segment_accumulator-eq}
use hyowon.Math.MpiExactNonnegativeSum.Reductions.{
  explicit_locals, segment_locals, all_segments, mpi_exact_nonnegative_sum-Agrees,
  mpi_exact_nonnegative_sum_segments-Agrees,
}
use hyowon.Math.MpiExactNonnegativeSum.Shares.{concat}

summing : Unit {0}
unfolding empty_sum exponent_field fraction_field is_finite is_negative decode lacks_capacity
    carry_loop add_word add_shifted_word counted add repeat_loop add_repeated combine_loop adopted
    combine_serialized combine bit_width countl_zero highest_loop highest_set_bit bit any_loop
    any_bits_below extract_u64 round_up rounded_binary64_components value
summing = tt

-- All that a run computes with.
program : Unit {0}
unfolding summing at_least_one host_parallel_worker_capacity returned is_bad_value add_values
    exact_nonnegative_double_accumulator work_loop share worker_loop partial_results rethrow_first
    combine_all add_segments exact_nonnegative_segment_accumulator synchronize_exception
    require_active_mpi combine_gathered combination combine_exact_accumulator_collective over_ranks
    mpi_exact_nonnegative_sum mpi_exact_nonnegative_sum_segments
program = tt

-- The bit patterns of 1.0 and 2.0.
abbrev one : ℕ
one = 0x3ff * 2 ^ 52

abbrev two : ℕ
two = 0x400 * 2 ^ 52

abbrev pattern_of : ℕ → ℤ → ℕ
pattern_of significand exponent = significand

-- The answers of a run where nothing fails.
abbrev answers_at : Locals → ℕ → Answers
answers_at locals rank = record {
  initialized = some 1;
  finalized = some 0;
  is_main_thread = some 1;
  comm_rank = some (pos rank);
  comm_size = some (pos (length locals));
  any_failed = λ stage flag. some 0;
  gathered_limbs = λ limbs. some (at_root rank (all_limbs (sums_of locals)));
  gathered_counts = λ terms. some (at_root rank (all_counts (sums_of locals)));
  broadcast = λ total. some (value_or 0 (total_at pattern_of locals 0));
}

abbrev two_inputs : List (List ℕ)
two_inputs = (one ∷ two ∷ []) ∷ (one ∷ []) ∷ []

abbrev two_segment_inputs : List (ℤ × List (List ℕ))
two_segment_inputs =
    (pos 2, (one ∷ two ∷ one ∷ []) ∷ (two ∷ []) ∷ []) ∷ (pos 1, (one ∷ []) ∷ []) ∷ []

explicit-run :
    mpi_exact_nonnegative_sum pattern_of
      (answers_at (explicit_locals two_inputs) 1)
      1
      (one ∷ [])
      none
    ≡ ok (2 ^ 52)
unfolding program
explicit-run = refl

uniform-run :
    exact_nonnegative_double_accumulator 3 [] (some one)
    ≡ add_values explicit_not_non_negative empty_sum (one ∷ one ∷ one ∷ [])
unfolding program
uniform-run = refl

mixed-run : exact_nonnegative_double_accumulator 1 (one ∷ []) (some one) ≡ err uniform_with_explicit
unfolding program
mixed-run = refl

bad_segment-run :
    exact_nonnegative_segment_accumulator (pos 3) ((one ∷ two ∷ 0x7ff * 2 ^ 52 ∷ []) ∷ [])
    ≡ err segment_not_non_negative
unfolding program
bad_segment-run = refl

talks :
    Communicates pattern_of
      (explicit_locals two_inputs)
      (answers_at (explicit_locals two_inputs) 1)
      1
unfolding program
talks = record {
  initialized = (1, refl, omega arith);
  not_finalized = refl;
  on_main_thread = (1, refl, omega arith);
  has_rank = refl;
  has_size = refl;
  rank-lt = omega arith;
  reduces_local = refl;
  reduces_allocation = refl;
  gathers_limbs = refl;
  gathers_counts = refl;
  reduces_combination = refl;
  broadcasts = refl;
}

segments_talk :
    Communicates pattern_of
      (segment_locals two_segment_inputs)
      (answers_at (segment_locals two_segment_inputs) 0)
      0
unfolding program
segments_talk = record {
  initialized = (1, refl, omega arith);
  not_finalized = refl;
  on_main_thread = (1, refl, omega arith);
  has_rank = refl;
  has_size = refl;
  rank-lt = omega arith;
  reduces_local = refl;
  reduces_allocation = refl;
  gathers_limbs = refl;
  gathers_counts = refl;
  reduces_combination = refl;
  broadcasts = refl;
}

mpi_exact_nonnegative_sum-Agrees_example :
    Agrees pattern_of (add_values explicit_not_non_negative empty_sum (concat two_inputs)) (
      mpi_exact_nonnegative_sum pattern_of
        (answers_at (explicit_locals two_inputs) 1)
        1
        (one ∷ [])
        none)
mpi_exact_nonnegative_sum-Agrees_example =
    mpi_exact_nonnegative_sum-Agrees pattern_of two_inputs
      (answers_at (explicit_locals two_inputs) 1) 1 refl (omega arith) (omega arith) (omega arith)
      talks

mpi_exact_nonnegative_sum_segments-Agrees_example :
    Agrees pattern_of (add_segments empty_sum (all_segments two_segment_inputs)) (
      mpi_exact_nonnegative_sum_segments pattern_of
        (answers_at (segment_locals two_segment_inputs) 0)
        (pos 2)
        ((one ∷ two ∷ one ∷ []) ∷ (two ∷ []) ∷ []))
mpi_exact_nonnegative_sum_segments-Agrees_example =
    mpi_exact_nonnegative_sum_segments-Agrees pattern_of two_segment_inputs
      (answers_at (segment_locals two_segment_inputs) 0) 0 (pos 1, []) refl (omega arith)
      (omega arith) (omega arith) segments_talk

exact_nonnegative_segment_accumulator-eq_example :
    exact_nonnegative_segment_accumulator (pos 4) ((one ∷ two ∷ one ∷ []) ∷ [] ∷ (two ∷ []) ∷ [])
    ≡ add_segments empty_sum ((one ∷ two ∷ one ∷ []) ∷ [] ∷ (two ∷ []) ∷ [])
exact_nonnegative_segment_accumulator-eq_example =
    exact_nonnegative_segment_accumulator-eq (pos 4) ((one ∷ two ∷ one ∷ []) ∷ [] ∷ (two ∷ []) ∷ [])
      refl (omega arith)
