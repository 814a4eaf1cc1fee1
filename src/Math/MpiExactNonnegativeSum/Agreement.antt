-- ===== src/Math/MpiExactNonnegativeSum/Agreement.antt =====
-- src/math/mpi_exact_nonnegative_sum.cpp: all ranks end with the value of one sum over all ranks' values.
use hyowon.Common.{
  ℕ, zero, suc, ◌+◌, ◌/◌, ◌^◌, ◌<◌, ◌≡◌, refl, sym, ap, subst, ◌∙◌, ltb, ◌==◌, false, List, [], ◌∷◌,
  length, get_or, some, Option-cases, Bool-cases, inl, inr, arith, ℤ, ==→eq, append-nil,
}
use hyowon.Common.Fallible.{Result, ok, err, ◌>>=◌}
use hyowon.Math.ExactPositiveSum.{Sum, word, limb_count, empty_sum}
use hyowon.Math.ExactPositiveSum.Rounding.{value}
use hyowon.Math.ExactPositiveSum.Adding.{empty_sum-IsValid}
use hyowon.Math.ExactPositiveSum.Order.{total_units}
use hyowon.Math.MpiExactNonnegativeSum.{
  broadcast_failed, Error, local_accumulation, gather_allocation, global_combination, is_bad_value,
  size_max,
}
use hyowon.Math.MpiExactNonnegativeSum.Collective.{
  Answers, exception_of, value_or, failed_flag, of_value, allocation_exception, combine_gathered,
  answered, synchronize_exception, finite_total, combination, combine_exact_accumulator_collective,
  over_ranks,
}
use hyowon.Math.MpiExactNonnegativeSum.Values.{count, SumsOf, exact, refused, Sums-unique}
use hyowon.Math.MpiExactNonnegativeSum.Shares.{concat}
use hyowon.Math.MpiExactNonnegativeSum.Gathered.{
  all_limbs, all_counts, Holds, AllHold, combine_gathered-Holds,
}
use hyowon.Math.MpiExactNonnegativeSum.Ranks.{
  Locals, sums_of, own, flag_of, total_at, Communicates, Agrees, summed, not_finite, no_sum, active,
  max_below-zero, le-max_below, synchronize-clear, synchronize-set, finite_value, AllSums, all_held,
  some_failed,
}

sums_of-length : (rs : Locals) → length (sums_of rs) ≡ length rs
sums_of-length [] = refl
sums_of-length (r ∷ rs) = ap suc (sums_of-length rs)

-- The value of a sum of all terms, as every rank has it.
of_value-Agrees :
    (ldexp : ℕ → ℤ → ℕ) (sum : Result Error Sum) (s : Sum)
    → sum ≡ ok s
    → Agrees ldexp sum (of_value (value ldexp s.limbs))
of_value-Agrees ldexp sum s e = elim (Option-cases (value ldexp s.limbs)) [
  | inl nothing ↦ rw nothing (not_finite s _ e nothing)
  | inr (v, some_v) ↦ rw some_v (summed s v e some_v)
]

-- The sum that a valid sum of all terms equals.
Holds-sum :
    (bad : Error) (xs : List ℕ) (t : Sum) {sum : Result Error Sum}
    → count is_bad_value xs ≡ 0
    → Holds empty_sum t xs
    → SumsOf bad empty_sum xs sum
    → sum ≡ ok t
Holds-sum bad xs t {sum} none_bad held sums =
    Sums-unique bad empty_sum (total_units xs) (length xs) (count is_bad_value xs) sum (ok t) sums
      (exact t none_bad held.valid held.total held.terms)

-- The allocation fails on no rank of a communicator whose size is an `int`.
no_allocation_exception : (i n : ℕ) → n < 2 ^ 31 → failed_flag (allocation_exception i n) ≡ 0
no_allocation_exception i n h =
    let fits : ltb (size_max / limb_count) n ≡ false = ground arith in
    elim (Bool-cases (i == 0)) [ inl root ↦ rw (fits, root) | inr other ↦ rw (fits, other) ]

other_total :
    (ldexp : ℕ → ℤ → ℕ) (locals : Locals) (i : ℕ)
    → (i == 0) ≡ false
    → total_at ldexp locals i ≡ ok 0
unfolding combination
other_total ldexp locals i other = rw other

totals_clear :
    (ldexp : ℕ → ℤ → ℕ) (locals : Locals) (v i : ℕ)
    → total_at ldexp locals 0 ≡ ok v
    → flag_of (total_at ldexp locals i) ≡ 0
totals_clear ldexp locals v i root = elim (Bool-cases (i == 0)) [
  | inl same ↦
      let zero_rank : i ≡ 0 = ==→eq i 0 same in
      subst (λ k. flag_of (total_at ldexp locals k) ≡ 0) (sym zero_rank) (ap flag_of root)
  | inr other ↦ ap flag_of (other_total ldexp locals i other)
]

failed_sum :
    (bad : Error) (xs : List ℕ) {sum : Result Error Sum}
    → 0 < count is_bad_value xs
    → SumsOf bad empty_sum xs sum
    → sum ≡ err bad
failed_sum bad xs h (refused k) = refl
failed_sum bad xs h (exact t e v sum terms) = absurd (omega arith)

own-sums : (rs : Locals) (i : ℕ) → value_or empty_sum (own rs i) ≡ get_or (sums_of rs) i empty_sum
own-sums [] i = refl
own-sums (r ∷ rs) zero = refl
own-sums (r ∷ rs) (suc i) = own-sums rs i

single_held :
    (xss : List (List ℕ)) (ss : List Sum) (i : ℕ)
    → AllHold xss ss
    → length ss ≡ 1
    → i < 1
    → Holds empty_sum (get_or ss i empty_sum) (concat xss)
single_held [] [] i h one lt = absurd (omega arith)
single_held [] (s ∷ ss) i h one lt = absurd h
single_held (xs ∷ xss) [] i h one lt = absurd h
single_held (xs ∷ []) (s ∷ []) zero h one lt = subst (Holds empty_sum s) (sym (append-nil xs)) h.0
single_held (xs ∷ []) (s ∷ []) (suc i) h one lt = absurd (omega arith)
single_held (xs ∷ ys ∷ xss) (s ∷ []) i h one lt = absurd h.1
single_held (xs ∷ xss) (s ∷ t ∷ ss) i h one lt = absurd (omega arith)

-- The total of the root is that of the sum of all terms.
root_total-Holds :
    (ldexp : ℕ → ℤ → ℕ) (locals : Locals) (xss : List (List ℕ))
    → AllHold xss (sums_of locals)
    → length (concat xss) < word
    → (t : Sum) × (total_at ldexp locals 0 ≡ of_value (value ldexp t.limbs))
      × Holds empty_sum t (concat xss)
unfolding combination
root_total-Holds ldexp locals xss held few =
    let (t, e, h) =
      combine_gathered-Holds xss (sums_of locals) 0 (all_limbs (sums_of locals))
        (all_counts (sums_of locals)) empty_sum empty_sum-IsValid held (no_terms few) refl refl in
    (
      t,
      ap
            (λ (k : ℕ).
              combine_gathered k 0 (all_limbs (sums_of locals)) (all_counts (sums_of locals))
                empty_sum
              >>= (λ global. of_value (value ldexp global.limbs) >>= finite_total))
            (sym (sums_of-length locals))
          ∙ ap (λ r. r >>= (λ global. of_value (value ldexp global.limbs) >>= finite_total)) e
          ∙ finite_value ldexp t.limbs,
      h,
    )
  where
    no_terms : length (concat xss) < word → empty_sum.term_count + length (concat xss) < word
    no_terms h = unfold empty_sum in omega arith

module _ (ldexp : ℕ → ℤ → ℕ) (locals : Locals) (answers : Answers) (rank : ℕ)
    (talks : Communicates ldexp locals answers rank) (rank-lt : rank < length locals)
    (few_ranks : length locals < 2 ^ 31) where
  -- The last two calls: the flags of the totals, and the broadcast.
  last_stage :
      (sum : Result Error Sum) (t : Sum)
      → sum ≡ ok t
      → total_at ldexp locals 0 ≡ of_value (value ldexp t.limbs)
      → Agrees ldexp sum (
          synchronize_exception answers global_combination
            (exception_of (total_at ldexp locals rank))
          >>= (λ _.
              answered broadcast_failed
                (answers.broadcast (value_or 0 (total_at ldexp locals rank)))))
  last_stage sum t e root = elim (Option-cases (value ldexp t.limbs)) [
    | inl nothing ↦
        let root_fails = root ∙ ap of_value nothing in
        let set =
          le-max_below (length locals) 0 (λ i. flag_of (total_at ldexp locals i)) (omega arith) in
        let flag : flag_of (total_at ldexp locals 0) ≡ 1 = ap flag_of root_fails in
        rw (synchronize-set answers global_combination _ _ talks.reduces_combination (omega arith))
          (not_finite t _ e nothing)
    | inr (v, some_v) ↦
        let root_total = root ∙ ap of_value some_v in
        rw
          (
            synchronize-clear answers global_combination _ (
                talks.reduces_combination
                ∙ ap some (
                    max_below-zero (length locals) _
                      (λ i. totals_clear ldexp locals v i root_total))),
            talks.broadcasts,
            root_total,
          )
          (summed t v e some_v)
  ]

  -- Where the total of the root is that of a sum, every rank has it.
  together :
      (sum : Result Error Sum) (t : Sum)
      → sum ≡ ok t
      → total_at ldexp locals 0 ≡ of_value (value ldexp t.limbs)
      → (length locals == 1) ≡ false
      → Agrees ldexp sum (
          combine_exact_accumulator_collective ldexp answers
            (value_or empty_sum (own locals rank))
            rank
            (length locals))
  unfolding combine_exact_accumulator_collective
  together sum t e root several =
      rw
        (
          several,
          synchronize-clear answers gather_allocation (allocation_exception rank (length locals)) (
              talks.reduces_allocation
              ∙ ap some (
                  max_below-zero (length locals) _
                    (λ i. no_allocation_exception i (length locals) few_ranks))),
          talks.gathers_limbs,
          talks.gathers_counts,
        )
        (last_stage sum t e root)

  single :
      (bad : Error) (xss : List (List ℕ)) (sum : Result Error Sum)
      → AllHold xss (sums_of locals)
      → SumsOf bad empty_sum (concat xss) sum
      → count is_bad_value (concat xss) ≡ 0
      → length (concat xss) < word
      → length locals ≡ 1
      → Agrees ldexp sum (
          combine_exact_accumulator_collective ldexp answers
            (value_or empty_sum (own locals rank))
            rank
            (length locals))
  unfolding combine_exact_accumulator_collective
  single bad xss sum held sums clean few one =
      let same = own-sums locals rank in
      let h =
        single_held xss (sums_of locals) rank held (sums_of-length locals ∙ one) (omega arith) in
      rw (one, same)
        (of_value-Agrees ldexp sum (get_or (sums_of locals) rank empty_sum)
          (Holds-sum bad (concat xss) _ clean h sums))

  -- Every rank has the value of the sum of all ranks' terms, or throws where there is none.
  pub over_ranks-Agrees :
      (bad : Error) (xss : List (List ℕ)) (sum : Result Error Sum)
      → AllSums bad xss locals
      → length (concat xss) < word
      → SumsOf bad empty_sum (concat xss) sum
      → Agrees ldexp sum (over_ranks ldexp answers (own locals rank))
  unfolding over_ranks
  over_ranks-Agrees bad xss sum all few sums =
      elim (Bool-cases (count is_bad_value (concat xss) == 0)) [
        | inr some_bad ↦
            let (i, lt, set) = some_failed bad xss locals (ground arith) all in
            let reached = le-max_below (length locals) i (λ j. flag_of (own locals j)) lt in
            rw
              (
                active ldexp locals answers rank talks,
                synchronize-set answers local_accumulation _ _ talks.reduces_local (omega arith),
              )
              (no_sum bad _ (failed_sum bad (concat xss) (ground arith) sums))
        | inl none_bad ↦
            let clean = ==→eq _ _ none_bad in
            let (held, clear) = all_held bad xss locals clean all in
            rw
              (
                active ldexp locals answers rank talks,
                synchronize-clear answers local_accumulation _
                    (talks.reduces_local ∙ ap some (max_below-zero (length locals) _ clear)),
              )
              (elim (Bool-cases (length locals == 1)) [
                | inl one ↦ single bad xss sum held sums clean few (==→eq _ _ one)
                | inr several ↦
                    (let (t, root, h) = root_total-Holds ldexp locals xss held few in
                      together sum t (Holds-sum bad (concat xss) t clean h sums) root several)
              ])
      ]
