-- ===== src/Math/MpiExactNonnegativeSum/Values.antt =====
-- src/math/mpi_exact_nonnegative_sum.cpp: the loops over values, on the integer of a sum.
use hyowon.Common.{
  ℕ, ◌+◌, ◌^◌, ◌<◌, ◌≡◌, refl, ap, inl, inr, Bool, false, ltb, leb, if◌then◌else◌, List, [], ◌∷◌,
  ◌++◌, length, arith, Bool-cases, Outcome, done, length-append,
}
use hyowon.Common.Fallible.{Result, ok, err, ◌>>=◌}
use hyowon.Math.ExactPositiveSum
use hyowon.Math.ExactPositiveSum.{Sum, word, is_finite, is_negative, exponent_field, add}
use hyowon.Math.ExactPositiveSum.Limbs.{number}
use hyowon.Math.ExactPositiveSum.Terms.{IsTerm, units}
use hyowon.Math.ExactPositiveSum.Adding.{IsValid, Gains, add-Gains}
use hyowon.Math.ExactPositiveSum.Order.{total_units, Gains-unique}
use hyowon.Math.MpiExactNonnegativeSum.{Error, returned, is_bad_value, add_values}

-- How many of the values have the property.
abbrev pub count : (ℕ → Bool) → List ℕ → ℕ
count p [] = 0
count p (v ∷ vs) = (if p v then 1 else 0) + count p vs

-- A function that adds up over lists.
pub record IsAdditive (f : List ℕ → ℕ) : Type 0 where
  pub of_nil : f [] ≡ 0
  pub of_append : (xs ys : List ℕ) → f (xs ++ ys) ≡ f xs + f ys

pub count-IsAdditive : (p : ℕ → Bool) → IsAdditive (count p)
count-IsAdditive p = record { of_nil = refl; of_append = count-append }
  where
    count-append : (xs ys : List ℕ) → count p (xs ++ ys) ≡ count p xs + count p ys
    count-append [] ys = omega arith
    count-append (x ∷ xs) ys = omega (arith, count-append xs ys)

pub length-IsAdditive : IsAdditive length
length-IsAdditive = record { of_nil = refl; of_append = length-append }

pub total_units-IsAdditive : IsAdditive total_units
unfolding total_units
total_units-IsAdditive = record { of_nil = refl; of_append = units-append }
  where
    units-append : (xs ys : List ℕ) → total_units (xs ++ ys) ≡ total_units xs + total_units ys
    units-append [] ys = omega arith
    units-append (x ∷ xs) ys = omega (arith, units-append xs ys)

abbrev pub is_wide : ℕ → Bool
is_wide v = leb word v

-- A value that is no word or no term.
pub good-IsTerm : (v : ℕ) → is_wide v ≡ false → is_bad_value v ≡ false → IsTerm v
unfolding is_bad_value is_finite is_negative exponent_field
good-IsTerm v narrow good = elim (Bool-cases (ltb v (2 ^ 63))) [
  | inl low ↦ inl (ground arith)
  | inr high ↦ inr (ground arith)
]

-- What adding values to a sum leaves: the exact sum if all are terms, and else the exception.
pub data Sums (bad : Error) (s : Sum) (units count failures : ℕ) : Result Error Sum → Type 0 where
  exact :
      (t : Sum)
      → failures ≡ 0
      → IsValid t
      → number t.limbs ≡ number s.limbs + units
      → t.term_count ≡ s.term_count + count
      → Sums bad s units count failures (ok t)
  refused : 0 < failures → Sums bad s units count failures (err bad)

abbrev pub SumsOf : Error → Sum → List ℕ → Result Error Sum → Type 0
SumsOf bad s xs = Sums bad s (total_units xs) (length xs) (count is_bad_value xs)

pub Sums-bind :
    (bad : Error) (s : Sum) (a n c b m d x y z : ℕ) {r : Result Error Sum}
    (f : Sum → Result Error Sum)
    → a + b ≡ x
    → n + m ≡ y
    → c + d ≡ z
    → Sums bad s a n c r
    → ((t : Sum) → IsValid t → t.term_count ≡ s.term_count + n → Sums bad t b m d (f t))
    → Sums bad s x y z (r >>= f)
Sums-bind bad s a n c b m d x y z f ex ey ez (refused h) next = refused (omega arith)
Sums-bind bad s a n c b m d x y z f ex ey ez (exact t none v sum terms) next =
    after (next t v terms)
  where
    after : {r : Result Error Sum} → Sums bad t b m d r → Sums bad s x y z r
    after (refused h) = refused (omega arith)
    after (exact u none' w sum' terms') = exact u (omega arith) w (omega arith) (omega arith)

pub Sums-transfer :
    (bad : Error) (s : Sum) {a n c a' n' c' : ℕ} {r : Result Error Sum}
    → a ≡ a'
    → n ≡ n'
    → c ≡ c'
    → Sums bad s a n c r
    → Sums bad s a' n' c' r
Sums-transfer bad s ea en ec (refused h) = refused (omega arith)
Sums-transfer bad s ea en ec (exact t none v sum terms) =
    exact t (omega arith) v (omega arith) (omega arith)

-- The same amounts have the same outcome.
pub Sums-unique :
    (bad : Error) (s : Sum) (a n c : ℕ) (p q : Result Error Sum)
    → Sums bad s a n c p
    → Sums bad s a n c q
    → p ≡ q
Sums-unique bad s a n c p q (refused h) (refused k) = refl
Sums-unique bad s a n c p q (refused h) (exact t e v sum terms) = absurd (omega arith)
Sums-unique bad s a n c p q (exact t e v sum terms) (refused k) = absurd (omega arith)
Sums-unique bad s a n c p q (exact t e v sum terms) (exact u e' w sum' terms') =
    let same =
      Gains-unique s n a (done t) (done u) (t, refl, v, sum, terms) (u, refl, w, sum', terms') in
    ap ok (cc same)

pub Gains-Sums :
    (bad : Error) (s : Sum) (n a : ℕ) (r : Outcome ExactPositiveSum.Error Sum)
    → Gains s n a r
    → Sums bad s a n 0 (returned r)
unfolding returned
Gains-Sums bad s n a r (t, e, v, sum, terms) = rw e (exact t refl v sum terms)

pub add_values-Sums :
    (bad : Error) (s : Sum) (xs : List ℕ)
    → IsValid s
    → count is_wide xs ≡ 0
    → s.term_count + length xs < word
    → SumsOf bad s xs (add_values bad s xs)
unfolding add_values total_units
add_values-Sums bad s [] v narrow few = exact s refl v (omega arith) (omega arith)
add_values-Sums bad s (x ∷ xs) v narrow few = elim (Bool-cases (is_bad_value x)) [
  | inl refused_value ↦ rw refused_value (refused (omega arith))
  | inr good ↦
      let small : is_wide x ≡ false = ground arith in
      let others : count is_wide xs ≡ 0 = ground arith in
      rw good (
        Sums-bind bad s (units x) 1 0 (total_units xs) (length xs) (count is_bad_value xs) _ _ _
          (λ t. add_values bad t xs) refl (omega arith) (omega arith)
          (Gains-Sums bad s 1 (units x) (add s x)
            (add-Gains s x v (good-IsTerm x small good) (omega arith)))
          (λ t w terms. add_values-Sums bad t xs w others (omega arith)))
]
