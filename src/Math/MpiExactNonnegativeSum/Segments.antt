-- ===== src/Math/MpiExactNonnegativeSum/Segments.antt =====
-- src/math/mpi_exact_nonnegative_sum.cpp: segments summed by several workers, and in turn.
use hyowon.Common.{
  ℕ, zero, suc, ◌+◌, ◌<◌, ◌≡◌, refl, sym, ap, subst, ◌∙◌, inl, inr, ltb, List, [], ◌∷◌, ◌++◌,
  length, arith, tests, Bool-cases, ℤ,
}
use hyowon.Common.Fallible.{Result, ok, err, ◌>>=◌}
use hyowon.Math.ExactPositiveSum.{Sum, word, empty_sum, combine}
use hyowon.Math.ExactPositiveSum.Limbs.{number}
use hyowon.Math.ExactPositiveSum.Adding.{IsValid, empty_sum-IsValid}
use hyowon.Math.ExactPositiveSum.Combine.{combine-Gains}
use hyowon.Math.ExactPositiveSum.Order.{total_units}
use hyowon.Runtime.ThreadPolicy.{host_parallel_worker_capacity}
use hyowon.Math.MpiExactNonnegativeSum.{
  Error, segment_not_non_negative, returned, is_bad_value, share, worker_loop, partial_results,
  rethrow_first, combine_all, add_segments, work_loop, exact_nonnegative_segment_accumulator,
}
use hyowon.Math.MpiExactNonnegativeSum.Values.{
  count, count-IsAdditive, IsAdditive, length-IsAdditive, total_units-IsAdditive, is_wide, SumsOf,
  exact, refused, Sums-bind, Sums-unique, Sums-transfer, add_values-Sums,
}
use hyowon.Math.MpiExactNonnegativeSum.Shares.{concat, shares_of, all_shares, all_shares-concat}

abbrev pub bad : Error
bad = segment_not_non_negative

-- Words with room in the count of the sum.
record Fits (s : Sum) (xs : List ℕ) : Type 0 where
  narrow : count is_wide xs ≡ 0
  few : s.term_count + length xs < word

Fits-append :
    (s : Sum) (xs ys : List ℕ)
    → Fits s (xs ++ ys)
    → Fits s xs × ((t : Sum) → t.term_count ≡ s.term_count + length xs → Fits t ys)
Fits-append s xs ys h =
    let apart = (count-IsAdditive is_wide).of_append xs ys in
    let total = length-IsAdditive.of_append xs ys in
    let narrow = h.narrow in
    let few = h.few in
    (
      record { narrow = omega arith; few = omega arith },
      λ t e. record { narrow = omega arith; few = omega arith },
    )

-- Two lists of values in turn.
append-Sums :
    (s : Sum) (xs ys : List ℕ) {r : Result Error Sum} (f : Sum → Result Error Sum)
    → Fits s (xs ++ ys)
    → (Fits s xs → SumsOf bad s xs r)
    → ((t : Sum) → IsValid t → Fits t ys → SumsOf bad t ys (f t))
    → SumsOf bad s (xs ++ ys) (r >>= f)
append-Sums s xs ys f fits first next =
    let (here, rest) = Fits-append s xs ys fits in
    Sums-bind bad s (total_units xs) (length xs) (count is_bad_value xs) (total_units ys)
      (length ys) (count is_bad_value ys) _ _ _ f (sym (total_units-IsAdditive.of_append xs ys))
      (sym (length-IsAdditive.of_append xs ys))
      (sym ((count-IsAdditive is_bad_value).of_append xs ys)) (first here)
      (λ t w e. next t w (rest t e))

add_segments-Sums :
    (s : Sum) (segments : List (List ℕ))
    → IsValid s
    → Fits s (concat segments)
    → SumsOf bad s (concat segments) (add_segments s segments)
unfolding add_segments total_units
add_segments-Sums s [] v fits = exact s refl v (omega arith) (omega arith)
add_segments-Sums s (segment ∷ segments) v fits =
    append-Sums s segment (concat segments) (λ t. add_segments t segments) fits
      (λ h. add_values-Sums bad s segment v h.narrow h.few)
      (λ t w h. add_segments-Sums t segments w h)

worker_loop-Sums :
    (worker_count worker : ℕ) (s : Sum) (segments : List (List ℕ))
    → IsValid s
    → Fits s (shares_of worker_count worker segments)
    → SumsOf bad s
        (shares_of worker_count worker segments)
        (worker_loop worker_count worker s segments)
unfolding worker_loop total_units
worker_loop-Sums worker_count worker s [] v fits = exact s refl v (omega arith) (omega arith)
worker_loop-Sums worker_count worker s (segment ∷ segments) v fits =
    append-Sums s (share worker_count worker segment) (shares_of worker_count worker segments)
      (λ t. worker_loop worker_count worker t segments) fits
      (λ h. add_values-Sums bad s (share worker_count worker segment) v h.narrow h.few)
      (λ t w h. worker_loop-Sums worker_count worker t segments w h)

-- The rest of the partial sums, behind one of them.
rest_combined :
    (s p : Sum) (rs : Result Error (List Sum))
    → ((rs >>= (λ ps. ok (p ∷ ps))) >>= combine_all s)
      ≡ (rs >>= (λ ps. returned (combine s p) >>= (λ t. combine_all t ps)))
unfolding combine_all
rest_combined s p (ok ps) = refl
rest_combined s p (err e) = refl

swap_binds :
    (r : Result Error Sum) (rs : Result Error (List Sum))
    → (t : Sum) → r ≡ ok t
    → (rs >>= (λ ps. r >>= (λ u. combine_all u ps))) ≡ (rs >>= combine_all t)
swap_binds r (ok ps) t e = ap (λ x. x >>= (λ u. combine_all u ps)) e
swap_binds r (err e') t e = refl

empty-Fits : (s : Sum) (xs : List ℕ) → Fits s xs → Fits empty_sum xs
unfolding empty_sum
empty-Fits s xs h = let few = h.few in record { narrow = h.narrow; few = omega arith }

-- A partial sum of a list is combined as the list would be added.
combined-Sums :
    (s p : Sum) (xs : List ℕ)
    → IsValid s
    → Fits s xs
    → SumsOf bad empty_sum xs (ok p)
    → (t : Sum) × (returned (combine s p) ≡ ok t) × SumsOf bad s xs (ok t)
unfolding empty_sum returned
combined-Sums s p xs v fits (exact _ none w sum terms) =
    let few = fits.few in
    let total : number p.limbs ≡ total_units xs = omega arith in
    let (t, e, v', sum', terms') = combine-Gains s p v w (omega arith) in
    (t, ap returned e, exact t none v' (omega arith) (omega arith))

partial_results-Sums :
    (left worker worker_count : ℕ) (s : Sum) (segments : List (List ℕ))
    → IsValid s
    → Fits s (all_shares left worker worker_count segments)
    → SumsOf bad s
        (all_shares left worker worker_count segments)
        (rethrow_first (partial_results left worker worker_count segments) >>= combine_all s)
unfolding partial_results rethrow_first combine_all total_units
partial_results-Sums zero worker worker_count s segments v fits =
    exact s refl v (omega arith) (omega arith)
partial_results-Sums (suc left) worker worker_count s segments v fits =
    let xs = shares_of worker_count worker segments in
    let ys = all_shares left (worker + 1) worker_count segments in
    by_worker (λ t w h. partial_results-Sums left (worker + 1) worker_count t segments w h)
      (worker_loop-Sums worker_count worker empty_sum segments empty_sum-IsValid
        (empty-Fits s xs (Fits-append s xs ys fits).0))
  where
    by_worker :
        {r : Result Error Sum}
        → ((t : Sum)
            → IsValid t
            → Fits t (all_shares left (worker + 1) worker_count segments)
            → SumsOf bad t (all_shares left (worker + 1) worker_count segments) (
                rethrow_first (partial_results left (worker + 1) worker_count segments)
                >>= combine_all t))
        → SumsOf bad empty_sum (shares_of worker_count worker segments) r
        → SumsOf bad s (all_shares (suc left) worker worker_count segments) (
            rethrow_first (r ∷ partial_results left (worker + 1) worker_count segments)
            >>= combine_all s)
    by_worker ih (refused h) = refused (
        omega (
          arith,
          (count-IsAdditive is_bad_value).of_append (shares_of worker_count worker segments)
              (all_shares left (worker + 1) worker_count segments),
        ))
    by_worker ih (exact p none w sum terms) =
        let xs = shares_of worker_count worker segments in
        let ys = all_shares left (worker + 1) worker_count segments in
        let rs = rethrow_first (partial_results left (worker + 1) worker_count segments) in
        let (t, called, gained) =
          combined-Sums s p xs v (Fits-append s xs ys fits).0 (exact p none w sum terms) in
        subst (SumsOf bad s (xs ++ ys)) (sym (rest_combined s p rs ∙ swap_binds _ rs t called))
          (append-Sums s xs ys (λ u. rs >>= combine_all u) fits (λ h. gained) ih)

-- The sums over the workers' shares, seen as sums over the segments.
shares-Sums :
    (worker_count : ℕ) (segments : List (List ℕ)) (r : Result Error Sum)
    → 0 < worker_count
    → SumsOf bad empty_sum (all_shares worker_count 0 worker_count segments) r
    → SumsOf bad empty_sum (concat segments) r
shares-Sums worker_count segments r h =
    let same =
      λ (f : List ℕ → ℕ) (law : IsAdditive f). all_shares-concat f law worker_count segments h in
    Sums-transfer bad empty_sum (same total_units total_units-IsAdditive)
      (same length length-IsAdditive) (same (count is_bad_value) (count-IsAdditive is_bad_value))

shares-Fits :
    (worker_count : ℕ) (segments : List (List ℕ))
    → 0 < worker_count
    → Fits empty_sum (concat segments)
    → Fits empty_sum (all_shares worker_count 0 worker_count segments)
shares-Fits worker_count segments h fits =
    let narrow =
      all_shares-concat (count is_wide) (count-IsAdditive is_wide) worker_count segments h in
    let total = all_shares-concat length length-IsAdditive worker_count segments h in
    let few = fits.few in record { narrow = narrow ∙ fits.narrow; few = omega arith }

concat-Fits :
    (segments : List (List ℕ))
    → count is_wide (concat segments) ≡ 0
    → length (concat segments) < word
    → Fits empty_sum (concat segments)
unfolding empty_sum
concat-Fits segments narrow few = record { narrow = narrow; few = omega arith }

-- The values of the segments in turn.
pub segments-Sums :
    (segments : List (List ℕ))
    → count is_wide (concat segments) ≡ 0
    → length (concat segments) < word
    → SumsOf bad empty_sum (concat segments) (add_segments empty_sum segments)
segments-Sums segments narrow few =
    add_segments-Sums empty_sum segments empty_sum-IsValid (concat-Fits segments narrow few)

pub accumulator-Sums :
    (max_threads : ℤ) (segments : List (List ℕ))
    → count is_wide (concat segments) ≡ 0
    → length (concat segments) < word
    → SumsOf bad empty_sum
        (concat segments)
        (exact_nonnegative_segment_accumulator max_threads segments)
unfolding exact_nonnegative_segment_accumulator
accumulator-Sums max_threads segments narrow few =
    let k : ℕ = host_parallel_worker_capacity max_threads (work_loop 0 segments) in
    let fits = concat-Fits segments narrow few in
    elim (Bool-cases (ltb 1 k)) [
      | inr serial ↦ rw serial (segments-Sums segments narrow few)
      | inl parallel ↦
          let some_workers : 0 < k = omega tests in
          rw parallel (
            shares-Sums k segments _ some_workers (
              partial_results-Sums k 0 k empty_sum segments empty_sum-IsValid
                (shares-Fits k segments some_workers fits)))
    ]

-- For segments of fewer than 2 ^ 64 words in all, the outcome is that of adding the values of all segments
-- in turn, the exception for a value that is no term included, whatever count of threads OpenMP answers.
pub exact_nonnegative_segment_accumulator-eq :
    (max_threads : ℤ) (segments : List (List ℕ))
    → count is_wide (concat segments) ≡ 0
    → length (concat segments) < word
    → exact_nonnegative_segment_accumulator max_threads segments ≡ add_segments empty_sum segments
exact_nonnegative_segment_accumulator-eq max_threads segments narrow few =
    Sums-unique bad empty_sum (total_units (concat segments)) (length (concat segments))
      (count is_bad_value (concat segments)) _ _ (accumulator-Sums max_threads segments narrow few)
      (segments-Sums segments narrow few)
