-- ===== src/Math/MpiExactNonnegativeSum/Ranks.antt =====
-- src/math/mpi_exact_nonnegative_sum.cpp: the result on every rank.
use hyowon.Common.{
  ℕ, zero, suc, ◌<◌, ◌≤◌, ◌≡◌, refl, subst, max, true, false, ◌==◌, if◌then◌else◌, List, [], ◌∷◌,
  ltb, leb, length, get_or, Option, none, some, Option-cases, Bool-cases, ◌⊎◌, inl, inr, arith, ℤ,
  pos, ==→eq,
}
use hyowon.Common.Fallible.{Result, ok, err, ◌>>=◌}
use hyowon.Math.ExactPositiveSum.{Sum, empty_sum, is_finite}
use hyowon.Math.ExactPositiveSum.Rounding.{value, rounded_binary64_components}
use hyowon.Math.MpiExactNonnegativeSum.{
  Error, Stage, local_accumulation, gather_allocation, global_combination, is_bad_value,
}
use hyowon.Math.MpiExactNonnegativeSum.Collective.{
  Answers, exception_of, value_or, failed_flag, rethrown, synchronize_exception, require_active_mpi,
  of_value, allocation_exception, finite_total, combination,
}
use hyowon.Math.MpiExactNonnegativeSum.Values.{count, count-IsAdditive, SumsOf, exact, refused}
use hyowon.Math.MpiExactNonnegativeSum.Shares.{concat}
use hyowon.Math.MpiExactNonnegativeSum.Gathered.{all_limbs, all_counts, Holds, AllHold}

abbrev pub Locals : Type 0
Locals = List (Result Error Sum)

-- The sums that the ranks go on with.
abbrev pub sums_of : Locals → List Sum
sums_of [] = []
sums_of (r ∷ rs) = value_or empty_sum r ∷ sums_of rs

abbrev pub own : Locals → ℕ → Result Error Sum
own locals rank = get_or locals rank (ok empty_sum)

abbrev pub flag_of {ℓ} : {A : Type ℓ} → Result Error A → ℕ
flag_of r = failed_flag (exception_of r)

-- The largest of the first values of a function.
abbrev pub max_below : ℕ → (ℕ → ℕ) → ℕ
max_below zero f = 0
max_below (suc n) f = max (f n) (max_below n f)

abbrev pub at_root : ℕ → List ℕ → List ℕ
at_root rank xs = if rank == 0 then xs else []

-- What a rank ends its combination with.
abbrev pub total_at : (ℕ → ℤ → ℕ) → Locals → ℕ → Result Error ℕ
total_at ldexp locals rank =
    combination ldexp rank (length locals) (at_root rank (all_limbs (sums_of locals)))
      (at_root rank (all_counts (sums_of locals)))

-- The answers of MPI to a rank where all calls succeed: MPI_MAX reduces the flags of all ranks, the root
-- gathers what the ranks send, in their order, and has its total broadcast.
pub record Communicates (ldexp : ℕ → ℤ → ℕ) (locals : Locals) (answers : Answers) (rank : ℕ)
    : Type 0 where
  pub initialized : (flag : ℕ) × (answers.initialized ≡ some flag) × (0 < flag)
  pub not_finalized : answers.finalized ≡ some 0
  pub on_main_thread : (flag : ℕ) × (answers.is_main_thread ≡ some flag) × (0 < flag)
  pub has_rank : answers.comm_rank ≡ some (pos rank)
  pub has_size : answers.comm_size ≡ some (pos (length locals))
  pub rank-lt : rank < length locals
  pub reduces_local :
      answers.any_failed local_accumulation (flag_of (own locals rank))
      ≡ some (max_below (length locals) (λ i. flag_of (own locals i)))
  pub reduces_allocation :
      answers.any_failed gather_allocation (failed_flag (allocation_exception rank (length locals)))
      ≡ some (max_below (length locals) (λ i. failed_flag (allocation_exception i (length locals))))
  pub gathers_limbs :
      answers.gathered_limbs (value_or empty_sum (own locals rank)).limbs
      ≡ some (at_root rank (all_limbs (sums_of locals)))
  pub gathers_counts :
      answers.gathered_counts (value_or empty_sum (own locals rank)).term_count
      ≡ some (at_root rank (all_counts (sums_of locals)))
  pub reduces_combination :
      answers.any_failed global_combination (flag_of (total_at ldexp locals rank))
      ≡ some (max_below (length locals) (λ i. flag_of (total_at ldexp locals i)))
  pub broadcasts :
      answers.broadcast (value_or 0 (total_at ldexp locals rank))
      ≡ some (value_or 0 (total_at ldexp locals 0))

-- A rank of a communicator finds MPI active.
pub active :
    (ldexp : ℕ → ℤ → ℕ) (locals : Locals) (answers : Answers) (rank : ℕ)
    → Communicates ldexp locals answers rank
    → require_active_mpi answers ≡ ok (rank, length locals)
unfolding require_active_mpi
active ldexp locals answers rank talks =
    let (flag, called, set) = talks.initialized in
    let (main_flag, main_called, main_set) = talks.on_main_thread in
    let started : (flag == 0) ≡ false = ground arith in
    let on_main : (main_flag == 0) ≡ false = ground arith in
    let below = talks.rank-lt in
    let some_rank : ltb (length locals) 1 ≡ false = ground arith in
    let inside : leb (length locals) rank ≡ false = ground arith in
    rw
      (
        called, started, talks.not_finalized, main_called, on_main, talks.has_rank, talks.has_size,
        some_rank, inside,
      )
      refl

-- A rank returns the value of the sum, or throws where there is no sum or no finite value.
pub data Agrees (ldexp : ℕ → ℤ → ℕ) (sum : Result Error Sum) : Result Error ℕ → Type 0 where
  summed : (s : Sum) (v : ℕ) → sum ≡ ok s → value ldexp s.limbs ≡ some v → Agrees ldexp sum (ok v)
  not_finite :
      (s : Sum) (e : Error) → sum ≡ ok s → value ldexp s.limbs ≡ none → Agrees ldexp sum (err e)
  no_sum : (d e : Error) → sum ≡ err d → Agrees ldexp sum (err e)

pub max_below-zero : (n : ℕ) (f : ℕ → ℕ) → ((i : ℕ) → f i ≡ 0) → max_below n f ≡ 0
max_below-zero zero f h = refl
max_below-zero (suc n) f h = omega (arith, h n, max_below-zero n f h)

pub le-max_below : (n i : ℕ) (f : ℕ → ℕ) → i < n → f i ≤ max_below n f
le-max_below zero i f h = absurd (omega arith)
le-max_below (suc n) i f h = elim (Bool-cases (i == n)) [
  | inl last ↦ rw (==→eq i n last) (omega arith)
  | inr other ↦ omega (arith, le-max_below n i f (ground arith))
]

-- Behind a reduction of flags that are not set a rank goes on, and else it throws.
pub synchronize-clear :
    (answers : Answers) (stage : Stage) (e : Option Error)
    → answers.any_failed stage (failed_flag e) ≡ some 0
    → synchronize_exception answers stage e ≡ ok tt
unfolding synchronize_exception
synchronize-clear answers stage e h = rw h

pub synchronize-set :
    (answers : Answers) (stage : Stage) (e : Option Error) (n : ℕ)
    → answers.any_failed stage (failed_flag e) ≡ some n
    → 0 < n
    → synchronize_exception answers stage e ≡ err (rethrown stage e)
unfolding synchronize_exception
synchronize-set answers stage e n h set =
    let nonzero : (n == 0) ≡ false = ground arith in rw (h, nonzero)

value-finite :
    (ldexp : ℕ → ℤ → ℕ) (limbs : List ℕ) (v : ℕ) → value ldexp limbs ≡ some v → is_finite v ≡ true
unfolding value
value-finite ldexp limbs v h = elim (Option-cases (rounded_binary64_components limbs)) [
  | inl nothing ↦
      let zero_value : some 0 ≡ some v = rw (nothing, value) at h in of_zero (cc zero_value)
  | inr ((sig, e), rounded) ↦ of_rounded sig e rounded (Bool-cases (is_finite (ldexp sig e)))
]
  where
    of_zero : 0 ≡ v → is_finite v ≡ true
    of_zero e = rw (← e) (unfold is_finite in refl)

    of_rounded :
        (sig : ℕ) (e : ℤ)
        → rounded_binary64_components limbs ≡ some (sig, e)
        → (is_finite (ldexp sig e) ≡ true) ⊎ (is_finite (ldexp sig e) ≡ false)
        → is_finite v ≡ true
    of_rounded sig e rounded (inl finite) =
        let same : some (ldexp sig e) ≡ some v = rw (rounded, finite, value) at h in
        subst (λ x. is_finite x ≡ true) (cc same) finite
    of_rounded sig e rounded (inr infinite) =
        let same : none ≡ some v = rw (rounded, infinite, value) at h in cc same

pub finite_value :
    (ldexp : ℕ → ℤ → ℕ) (limbs : List ℕ)
    → (of_value (value ldexp limbs) >>= finite_total) ≡ of_value (value ldexp limbs)
finite_value ldexp limbs = elim (Option-cases (value ldexp limbs)) [
  | inl nothing ↦ rw nothing
  | inr (v, e) ↦ rw (e, value-finite ldexp limbs v e)
]

-- The local sums of terms.
abbrev pub AllSums : Error → List (List ℕ) → Locals → Type 0
AllSums bad [] [] = Unit
AllSums bad [] (r ∷ rs) = ⊥
AllSums bad (xs ∷ xss) [] = ⊥
AllSums bad (xs ∷ xss) (r ∷ rs) = SumsOf bad empty_sum xs r × AllSums bad xss rs

one_held :
    (bad : Error) (xs : List ℕ) {r : Result Error Sum}
    → count is_bad_value xs ≡ 0
    → SumsOf bad empty_sum xs r
    → Holds empty_sum (value_or empty_sum r) xs × (flag_of r ≡ 0)
one_held bad xs none_bad (refused h) = absurd (omega arith)
one_held bad xs none_bad (exact t e v sum terms) =
    (record { valid = v; total = sum; terms = terms }, refl)

pub all_held :
    (bad : Error) (xss : List (List ℕ)) (rs : Locals)
    → count is_bad_value (concat xss) ≡ 0
    → AllSums bad xss rs
    → AllHold xss (sums_of rs) × ((i : ℕ) → flag_of (own rs i) ≡ 0)
all_held bad [] [] none_bad h = (tt, λ i. refl)
all_held bad [] (r ∷ rs) none_bad h = absurd h
all_held bad (xs ∷ xss) [] none_bad h = absurd h
all_held bad (xs ∷ xss) (r ∷ rs) none_bad h =
    let apart = (count-IsAdditive is_bad_value).of_append xs (concat xss) in
    let (held, clear) = one_held bad xs (omega arith) h.0 in
    let (rest, clear') = all_held bad xss rs (omega arith) h.1 in ((held, rest), flags clear clear')
  where
    flags :
        flag_of r ≡ 0 → ((i : ℕ) → flag_of (own rs i) ≡ 0) → (i : ℕ) → flag_of (own (r ∷ rs) i) ≡ 0
    flags c c' zero = c
    flags c c' (suc i) = c' i

pub some_failed :
    (bad : Error) (xss : List (List ℕ)) (rs : Locals)
    → 0 < count is_bad_value (concat xss)
    → AllSums bad xss rs
    → (i : ℕ) × (i < length rs) × (flag_of (own rs i) ≡ 1)
some_failed bad [] [] some_bad h = absurd (omega arith)
some_failed bad [] (r ∷ rs) some_bad h = absurd h
some_failed bad (xs ∷ xss) [] some_bad h = absurd h
some_failed bad (xs ∷ xss) (r ∷ rs) some_bad h =
    let apart = (count-IsAdditive is_bad_value).of_append xs (concat xss) in
    elim (Bool-cases (count is_bad_value xs == 0)) [
      | inl none_bad ↦
          let (i, lt, set) = some_failed bad xss rs (omega (arith, ==→eq _ _ none_bad)) h.1 in
          (suc i, omega arith, set)
      | inr bad_here ↦ (0, omega arith, set_here (ground arith) h.0)
    ]
  where
    set_here :
        {q : Result Error Sum}
        → 0 < count is_bad_value xs
        → SumsOf bad empty_sum xs q
        → flag_of q ≡ 1
    set_here p (refused k) = refl
    set_here p (exact t e v sum terms) = absurd (omega arith)
