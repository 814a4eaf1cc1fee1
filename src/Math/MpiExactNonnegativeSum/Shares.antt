-- ===== src/Math/MpiExactNonnegativeSum/Shares.antt =====
-- src/math/mpi_exact_nonnegative_sum.cpp: the workers' shares of the segments make up the segments.
use hyowon.Common.{
  ℕ, zero, suc, ◌+◌, ◌-◌, ◌*◌, ◌/◌, ◌%◌, ◌<◌, ◌≤◌, min, ◌≡◌, refl, sym, ap, ◌∙◌, ltb, if◌then◌else◌,
  List, [], ◌∷◌, ◌++◌, length, drop, arith, take-append-drop, drop-drop, drop_all,
}
use native.Mathlib.Nat.{mod-lt, div-add-mod}
use hyowon.Math.MpiExactNonnegativeSum.{share}
use hyowon.Math.MpiExactNonnegativeSum.Values.{IsAdditive}

abbrev pub concat : List (List ℕ) → List ℕ
concat [] = []
concat (xs ∷ xss) = xs ++ concat xss

-- What one worker reads.
abbrev pub shares_of : ℕ → ℕ → List (List ℕ) → List ℕ
shares_of worker_count worker [] = []
shares_of worker_count worker (segment ∷ segments) =
    share worker_count worker segment ++ shares_of worker_count worker segments

-- What the workers from `worker` on read, `left` of them.
abbrev pub all_shares : ℕ → ℕ → ℕ → List (List ℕ) → List ℕ
all_shares zero worker worker_count segments = []
all_shares (suc left) worker worker_count segments =
    shares_of worker_count worker segments ++ all_shares left (worker + 1) worker_count segments

-- Where a worker begins.
begins : ℕ → ℕ → ℕ → ℕ
begins worker_count worker size = worker * (size / worker_count) + min worker (size % worker_count)

share-step :
    (worker_count worker : ℕ) (segment : List ℕ)
    → share worker_count worker segment
        ++ drop (begins worker_count (worker + 1) (length segment)) segment
      ≡ drop (begins worker_count worker (length segment)) segment
unfolding share begins
share-step worker_count worker segment =
    let block : ℕ = length segment / worker_count in
    let remainder : ℕ = length segment % worker_count in
    let begin : ℕ = worker * block + min worker remainder in
    let n : ℕ = begin + block + (if ltb worker remainder then 1 else 0) - begin in
    let next : (worker + 1) * block + min (worker + 1) remainder ≡ begin + n = ground arith in
    rw (next, ← drop-drop n begin segment) (take-append-drop n (drop begin segment))

begins_first : (worker_count size : ℕ) → begins worker_count 0 size ≡ 0
unfolding begins
begins_first worker_count size = omega arith

begins_last :
    (worker_count size : ℕ) → 0 < worker_count → size ≤ begins worker_count worker_count size
unfolding begins
begins_last worker_count size h =
    let quotient = div-add-mod size worker_count in
    let small : size % worker_count < worker_count = mod-lt size h in omega arith

module _ (f : List ℕ → ℕ) (law : IsAdditive f) where
  -- What the workers from `worker` on read of all segments.
  rest_of : ℕ → ℕ → List (List ℕ) → ℕ
  rest_of worker_count worker [] = 0
  rest_of worker_count worker (segment ∷ segments) =
      f (drop (begins worker_count worker (length segment)) segment)
      + rest_of worker_count worker segments

  rest_of-step :
      (worker_count worker : ℕ) (segments : List (List ℕ))
      → f (shares_of worker_count worker segments) + rest_of worker_count (worker + 1) segments
        ≡ rest_of worker_count worker segments
  unfolding rest_of
  rest_of-step worker_count worker [] = omega (arith, law.of_nil)
  rest_of-step worker_count worker (segment ∷ segments) = omega (
    arith,
    law.of_append (share worker_count worker segment) (shares_of worker_count worker segments),
    law.of_append (share worker_count worker segment)
        (drop (begins worker_count (worker + 1) (length segment)) segment),
    ap f (share-step worker_count worker segment),
    rest_of-step worker_count worker segments,
  )

  rest_of_last :
      (worker_count : ℕ) (segments : List (List ℕ))
      → 0 < worker_count
      → rest_of worker_count worker_count segments ≡ 0
  unfolding rest_of
  rest_of_last worker_count [] h = refl
  rest_of_last worker_count (segment ∷ segments) h = omega (
    arith,
    rest_of_last worker_count segments h,
    law.of_nil,
    ap f (drop_all _ segment (begins_last worker_count (length segment) h)),
  )

  rest_of_first :
      (worker_count : ℕ) (segments : List (List ℕ))
      → rest_of worker_count 0 segments ≡ f (concat segments)
  unfolding rest_of
  rest_of_first worker_count [] = sym law.of_nil
  rest_of_first worker_count (segment ∷ segments) =
      rw (begins_first worker_count (length segment)) (
        omega (arith, law.of_append segment (concat segments), rest_of_first worker_count segments))

  all_shares-rest :
      (left worker worker_count : ℕ) (segments : List (List ℕ))
      → 0 < worker_count
      → worker + left ≡ worker_count
      → f (all_shares left worker worker_count segments) ≡ rest_of worker_count worker segments
  all_shares-rest zero worker worker_count segments h e =
      rw (let same : worker ≡ worker_count = omega arith in same)
        (law.of_nil ∙ sym (rest_of_last worker_count segments h))
  all_shares-rest (suc left) worker worker_count segments h e = omega (
    arith,
    law.of_append (shares_of worker_count worker segments)
        (all_shares left (worker + 1) worker_count segments),
    all_shares-rest left (worker + 1) worker_count segments h (omega arith),
    rest_of-step worker_count worker segments,
  )

  -- The shares of all workers add up to the segments.
  pub all_shares-concat :
      (worker_count : ℕ) (segments : List (List ℕ))
      → 0 < worker_count
      → f (all_shares worker_count 0 worker_count segments) ≡ f (concat segments)
  all_shares-concat worker_count segments h =
      all_shares-rest worker_count 0 worker_count segments h (omega arith)
      ∙ rest_of_first worker_count segments
