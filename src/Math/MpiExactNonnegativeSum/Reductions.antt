-- ===== src/Math/MpiExactNonnegativeSum/Reductions.antt =====
-- src/math/mpi_exact_nonnegative_sum.cpp: the two functions of the header, on all ranks.
use hyowon.Common.{
  ℕ, zero, suc, ◌^◌, ◌<◌, ◌≡◌, refl, sym, ap, subst, ◌∙◌, List, [], ◌∷◌, ◌++◌, length, get_or, none,
  true, ◌==◌, arith, ℤ, append_assoc,
}
use hyowon.Math.ExactPositiveSum.{word, empty_sum}
use hyowon.Math.ExactPositiveSum.Adding.{empty_sum-IsValid}
use hyowon.Math.MpiExactNonnegativeSum.{
  explicit_not_non_negative, segment_not_non_negative, add_values, add_segments,
  exact_nonnegative_double_accumulator, exact_nonnegative_segment_accumulator,
}
use hyowon.Math.MpiExactNonnegativeSum.Collective.{
  Answers, mpi_exact_nonnegative_sum, mpi_exact_nonnegative_sum_segments,
}
use hyowon.Math.MpiExactNonnegativeSum.Values.{
  count, count-IsAdditive, length-IsAdditive, is_wide, SumsOf, add_values-Sums,
}
use hyowon.Math.MpiExactNonnegativeSum.Shares.{concat}
use hyowon.Math.MpiExactNonnegativeSum.Segments.{accumulator-Sums, segments-Sums}
use hyowon.Math.MpiExactNonnegativeSum.Ranks.{Locals, Communicates, Agrees, AllSums, own}
use hyowon.Math.MpiExactNonnegativeSum.Agreement.{over_ranks-Agrees}

-- The local accumulations of ranks that give explicit values.
abbrev pub explicit_locals : List (List ℕ) → Locals
explicit_locals [] = []
explicit_locals (xs ∷ xss) =
    exact_nonnegative_double_accumulator (length xs) xs none ∷ explicit_locals xss

-- Those of ranks that give segments, each rank with its count of threads.
abbrev pub segment_locals : List (ℤ × List (List ℕ)) → Locals
segment_locals [] = []
segment_locals ((max_threads, segments) ∷ inputs) =
    exact_nonnegative_segment_accumulator max_threads segments ∷ segment_locals inputs

-- The values of the ranks' segments.
abbrev pub segment_values : List (ℤ × List (List ℕ)) → List (List ℕ)
segment_values [] = []
segment_values ((max_threads, segments) ∷ inputs) = concat segments ∷ segment_values inputs

-- The segments of all ranks.
abbrev pub all_segments : List (ℤ × List (List ℕ)) → List (List ℕ)
all_segments [] = []
all_segments ((max_threads, segments) ∷ inputs) = segments ++ all_segments inputs

from_empty :
    (xs : List ℕ)
    → count is_wide xs ≡ 0
    → length xs < word
    → SumsOf explicit_not_non_negative empty_sum xs
        (add_values explicit_not_non_negative empty_sum xs)
from_empty xs narrow few =
    add_values-Sums explicit_not_non_negative empty_sum xs empty_sum-IsValid narrow
      (unfold empty_sum in omega arith)

explicit-AllSums :
    (inputs : List (List ℕ))
    → count is_wide (concat inputs) ≡ 0
    → length (concat inputs) < word
    → AllSums explicit_not_non_negative inputs (explicit_locals inputs)
unfolding exact_nonnegative_double_accumulator
explicit-AllSums [] narrow few = tt
explicit-AllSums (xs ∷ xss) narrow few =
    let apart = (count-IsAdditive is_wide).of_append xs (concat xss) in
    let total = length-IsAdditive.of_append xs (concat xss) in
    let same : (length xs == length xs) ≡ true = ground arith in
    (
      rw same (from_empty xs (omega arith) (omega arith)),
      explicit-AllSums xss (omega arith) (omega arith),
    )

explicit-length : (inputs : List (List ℕ)) → length (explicit_locals inputs) ≡ length inputs
explicit-length [] = refl
explicit-length (xs ∷ xss) = ap suc (explicit-length xss)

explicit-own :
    (inputs : List (List ℕ)) (rank : ℕ)
    → rank < length inputs
    → own (explicit_locals inputs) rank
      ≡ exact_nonnegative_double_accumulator
          (length (get_or inputs rank []))
          (get_or inputs rank [])
          none
explicit-own [] rank h = absurd (omega arith)
explicit-own (xs ∷ xss) zero h = refl
explicit-own (xs ∷ xss) (suc rank) h = explicit-own xss rank (omega arith)

-- Where the calls of MPI succeed and reduce, gather and broadcast as specified, each of fewer than 2 ^ 31
-- ranks, which give explicit words, fewer than 2 ^ 64 in all, returns the value of the one sum to which the
-- values of all ranks are added in the order of the ranks, and each throws where a value is no term or that
-- value is not finite.
pub mpi_exact_nonnegative_sum-Agrees :
    (ldexp : ℕ → ℤ → ℕ) (inputs : List (List ℕ)) (answers : Answers) (rank : ℕ)
    → count is_wide (concat inputs) ≡ 0
    → length (concat inputs) < word
    → rank < length inputs
    → length inputs < 2 ^ 31
    → Communicates ldexp (explicit_locals inputs) answers rank
    → Agrees ldexp (add_values explicit_not_non_negative empty_sum (concat inputs)) (
        mpi_exact_nonnegative_sum ldexp answers
          (length (get_or inputs rank []))
          (get_or inputs rank [])
          none)
unfolding mpi_exact_nonnegative_sum
mpi_exact_nonnegative_sum-Agrees ldexp inputs answers rank narrow few h ranks talks =
    let len = explicit-length inputs in
    rw (← explicit-own inputs rank h) (
      over_ranks-Agrees ldexp (explicit_locals inputs) answers rank talks (omega arith)
        (omega arith) explicit_not_non_negative inputs _ (explicit-AllSums inputs narrow few) few
        (from_empty (concat inputs) narrow few))

segment-AllSums :
    (inputs : List (ℤ × List (List ℕ)))
    → count is_wide (concat (segment_values inputs)) ≡ 0
    → length (concat (segment_values inputs)) < word
    → AllSums segment_not_non_negative (segment_values inputs) (segment_locals inputs)
segment-AllSums [] narrow few = tt
segment-AllSums ((max_threads, segments) ∷ inputs) narrow few =
    let rest = concat (segment_values inputs) in
    let apart = (count-IsAdditive is_wide).of_append (concat segments) rest in
    let total = length-IsAdditive.of_append (concat segments) rest in
    (
      accumulator-Sums max_threads segments (omega arith) (omega arith),
      segment-AllSums inputs (omega arith) (omega arith),
    )

segment-length :
    (inputs : List (ℤ × List (List ℕ))) → length (segment_locals inputs) ≡ length inputs
segment-length [] = refl
segment-length ((max_threads, segments) ∷ inputs) = ap suc (segment-length inputs)

segment-own :
    (inputs : List (ℤ × List (List ℕ))) (rank : ℕ) (d : ℤ × List (List ℕ))
    → rank < length inputs
    → own (segment_locals inputs) rank
      ≡ exact_nonnegative_segment_accumulator (get_or inputs rank d).0 (get_or inputs rank d).1
segment-own [] rank d h = absurd (omega arith)
segment-own ((max_threads, segments) ∷ inputs) zero d h = refl
segment-own ((max_threads, segments) ∷ inputs) (suc rank) d h =
    segment-own inputs rank d (omega arith)

concat-append : (xss yss : List (List ℕ)) → concat (xss ++ yss) ≡ concat xss ++ concat yss
concat-append [] yss = refl
concat-append (xs ∷ xss) yss =
    ap (λ (zs : List ℕ). xs ++ zs) (concat-append xss yss)
    ∙ sym (append_assoc xs (concat xss) (concat yss))

values_of_segments :
    (inputs : List (ℤ × List (List ℕ)))
    → concat (all_segments inputs) ≡ concat (segment_values inputs)
values_of_segments [] = refl
values_of_segments ((max_threads, segments) ∷ inputs) =
    concat-append segments (all_segments inputs)
    ∙ ap (λ (zs : List ℕ). concat segments ++ zs) (values_of_segments inputs)

-- Where the calls of MPI succeed and reduce, gather and broadcast as specified, each of fewer than 2 ^ 31
-- ranks, which give segments of words, fewer than 2 ^ 64 in all, returns the value of the one sum to which
-- the values of all segments are added in the order of the ranks, whatever counts of threads OpenMP
-- answers, and each throws where a value is no term or that value is not finite.
pub mpi_exact_nonnegative_sum_segments-Agrees :
    (ldexp : ℕ → ℤ → ℕ) (inputs : List (ℤ × List (List ℕ))) (answers : Answers) (rank : ℕ)
    (d : ℤ × List (List ℕ))
    → count is_wide (concat (all_segments inputs)) ≡ 0
    → length (concat (all_segments inputs)) < word
    → rank < length inputs
    → length inputs < 2 ^ 31
    → Communicates ldexp (segment_locals inputs) answers rank
    → Agrees ldexp (add_segments empty_sum (all_segments inputs)) (
        mpi_exact_nonnegative_sum_segments ldexp answers
          (get_or inputs rank d).0
          (get_or inputs rank d).1)
unfolding mpi_exact_nonnegative_sum_segments
mpi_exact_nonnegative_sum_segments-Agrees ldexp inputs answers rank d narrow few h ranks talks =
    let len = segment-length inputs in
    let same = values_of_segments inputs in
    rw (← segment-own inputs rank d h) (
      over_ranks-Agrees ldexp (segment_locals inputs) answers rank talks (omega arith) (omega arith)
        segment_not_non_negative (segment_values inputs) _
        (segment-AllSums inputs (ap (count is_wide) (sym same) ∙ narrow)
          (subst (λ (xs : List ℕ). length xs < word) same few))
        (subst (λ (xs : List ℕ). length xs < word) same few)
        (subst
          (λ (xs : List ℕ).
            SumsOf segment_not_non_negative empty_sum xs
              (add_segments empty_sum (all_segments inputs)))
          same (segments-Sums (all_segments inputs) narrow few)))
