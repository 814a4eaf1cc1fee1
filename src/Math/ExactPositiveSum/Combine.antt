-- ===== src/Math/ExactPositiveSum/Combine.antt =====
-- `combine_serialized` and `combine` on the integers of valid sums.
use mathlib.Core.Path.{subst₂}
use hyowon.Common.{
  ℕ, ◌+◌, ◌*◌, ◌^◌, ◌<◌, ◌≤◌, ◌≡◌, ◌≢◌, refl, subst, ◌∙◌, ◌⊎◌, inl, inr, List, [], ◌∷◌, ◌++◌, arith,
  Bool-cases, ==→eq, ◌==◌, length-append, length, All, Outcome, done, thrown,
}
use hyowon.Math.ExactPositiveSum.{
  Limbs, limb_count, word, Sum, Error, empty_sum, combine_loop, adopted, combine_serialized,
  combine, lacks_capacity,
}
use hyowon.Math.ExactPositiveSum.Limbs.{
  number, AreWords, word_pow_suc, Added, Added-transfer, Added-bind, add_word-Added, exact,
  overflow,
}
use hyowon.Math.ExactPositiveSum.Terms.{IsTerm, max_term, room}
use hyowon.Math.ExactPositiveSum.Adding.{IsValid, Gains, empty_sum-IsValid, has_capacity}
use hyowon.Math.ExactPositiveSum.Order.{
  add_each, add_each-Gains, total_units, Gains-unique, Gains-bind,
}

combine_loop-Added :
    (xs ws : Limbs) (i : ℕ)
    → i + length ws ≤ limb_count
    → length xs ≡ limb_count
    → AreWords xs
    → AreWords ws
    → Added xs (number ws * word ^ i) (combine_loop xs i ws)
unfolding combine_loop
combine_loop-Added xs [] i h len words more = exact xs words refl (omega arith)
combine_loop-Added xs (w ∷ ws) i h len words more =
    Added-transfer refl (rw (word_pow_suc i) (omega arith)) (
      Added-bind (number ws * word ^ (i + 1)) (λ c. combine_loop c (i + 1) ws)
        (add_word-Added xs i w len (omega arith) words more.0)
        (λ ys h' l. combine_loop-Added ys ws (i + 1) (omega arith) (l ∙ len) h' more.1))

adopted-Gains :
    (s : Sum) (terms a : ℕ) {r : Outcome Error Limbs}
    → IsValid s
    → s.term_count + terms < word
    → a ≤ terms * max_term
    → Added s.limbs a r
    → Gains s terms a (adopted s terms r)
unfolding adopted
adopted-Gains s terms a v few le (exact ys words len sum) = (
  record { limbs = ys; term_count = s.term_count + terms },
  refl,
  record { width = len ∙ v.width; words = words; count-lt = few; total-le = omega arith },
  sum,
  refl,
)
adopted-Gains s terms a v few le (overflow e ys h) =
    absurd (omega (arith, room (s.term_count + terms) (length s.limbs) few v.width))

adopted_thrown :
    (s : Sum) (terms a : ℕ) {r : Outcome Error Limbs} (e : Error) (t : Sum)
    → Added s.limbs a r
    → adopted s terms r ≡ thrown e t
    → (t ≡ s) × (word ^ length s.limbs ≤ number s.limbs + a)
unfolding adopted
adopted_thrown s terms a e t (exact ys words len sum) h = cc
adopted_thrown s terms a e t (overflow d ys full) h = (cc, full)

module _ (s : Sum) (limbs : Limbs) (terms : ℕ) (v : IsValid s) where
  all_limbs-Added :
      length limbs ≡ limb_count
      → AreWords limbs
      → Added s.limbs (number limbs) (combine_loop s.limbs 0 limbs)
  all_limbs-Added len words =
      Added-transfer refl (omega arith)
        (combine_loop-Added s.limbs limbs 0 (omega arith) v.width v.words words)

  -- `combine_serialized` is exact where the limbs are those of a valid sum of as many terms.
  pub combine_serialized-Gains :
      length limbs ≡ limb_count
      → AreWords limbs
      → number limbs ≤ terms * max_term
      → s.term_count + terms < word
      → Gains s terms (number limbs) (combine_serialized s limbs terms)
  unfolding combine_serialized adopted
  combine_serialized-Gains len words le few =
      rw (len, has_capacity s terms v few)
        (adopted-Gains s terms (number limbs) v few le (all_limbs-Added len words))

  -- On a valid sum, whatever words the limbs are and however many, a call that throws leaves the object
  -- as it was, and it throws only where the limbs are not 34, the counts together are no 64-bit
  -- number, or the sum has no room in 34 limbs.
  pub combine_serialized_thrown :
      AreWords limbs
      → (e : Error) (t : Sum) → combine_serialized s limbs terms ≡ thrown e t
      → (t ≡ s)
        × ((length limbs ≢ limb_count)
            ⊎ (word ≤ s.term_count + terms)
            ⊎ (word ^ limb_count ≤ number s.limbs + number limbs))
  unfolding combine_serialized adopted
  combine_serialized_thrown words e t h = elim (Bool-cases (length limbs == limb_count)) [
    | inr other ↦ (ground arith, inl (ground arith))
    | inl len ↦ elim (Bool-cases (lacks_capacity s terms)) [
      | inl full ↦ (ground arith, inr (inl (unfold lacks_capacity in ground arith)))
      | inr few ↦
          let called : adopted s terms (combine_loop s.limbs 0 limbs) ≡ thrown e t = ground arith in
          let (same, full) =
            adopted_thrown s terms (number limbs) e t (all_limbs-Added (==→eq _ _ len) words)
              called in
          (same, inr (inr (subst (λ n. word ^ n ≤ number s.limbs + number limbs) v.width full)))
    ]
  ]

-- `combine` with a valid sum is exact.
pub combine-Gains :
    (s other : Sum)
    → IsValid s
    → IsValid other
    → s.term_count + other.term_count < word
    → Gains s other.term_count (number other.limbs) (combine s other)
unfolding combine
combine-Gains s other v w few =
    combine_serialized-Gains s other.limbs other.term_count v w.width w.words w.total-le few

-- What a call gained is known of the state that it left.
pub done-Gains :
    (s t : Sum) (n a : ℕ) (r : Outcome Error Sum)
    → Gains s n a r
    → r ≡ done t
    → Gains s n a (done t)
done-Gains s t n a r g e = subst (Gains s n a) e g

pub Gains-state :
    (s t : Sum) (n a : ℕ)
    → Gains s n a (done t)
    → IsValid t × (number t.limbs ≡ number s.limbs + a) × (t.term_count ≡ s.term_count + n)
Gains-state s t n a (u, e, v, total, count) =
    let same : u ≡ t = cc in
    subst
      (λ x. IsValid x × (number x.limbs ≡ number s.limbs + a) × (x.term_count ≡ s.term_count + n))
      same (v, total, count)

total_units-append : (xs ys : List ℕ) → total_units (xs ++ ys) ≡ total_units xs + total_units ys
unfolding total_units
total_units-append [] ys = omega arith
total_units-append (x ∷ xs) ys = omega (arith, total_units-append xs ys)

All-append : (xs ys : List ℕ) → All IsTerm xs → All IsTerm ys → All IsTerm (xs ++ ys)
All-append [] ys p q = q
All-append (x ∷ xs) ys p q = (p.0, All-append xs ys p.1 q)

-- Where two lists of finite non-negative terms, with room in the count for all of them, are added to
-- two empty sums, combining the two gives the outcome of adding all terms to one empty sum.
pub combine-add_each :
    (xs ys : List ℕ)
    → All IsTerm xs
    → All IsTerm ys
    → length xs + length ys < word
    → (a b : Sum) → add_each empty_sum xs ≡ done a
    → add_each empty_sum ys ≡ done b
    → combine a b ≡ add_each empty_sum (xs ++ ys)
unfolding empty_sum
combine-add_each xs ys tx ty few a b ea eb =
    let nx : ℕ = length xs in
    let ny : ℕ = length ys in
    let start = empty_sum-IsValid in
    let left = add_each-Gains empty_sum xs start tx (omega arith) in
    let right = add_each-Gains empty_sum ys start ty (omega arith) in
    let (vb, total, count) =
      Gains-state empty_sum b ny (total_units ys) (done-Gains empty_sum b ny _ _ right eb) in
    let total' : number b.limbs ≡ total_units ys = omega arith in
    let count' : b.term_count ≡ ny = omega arith in
    Gains-unique empty_sum (nx + ny) (total_units xs + total_units ys) _ _
      (Gains-bind empty_sum nx _ ny _ _ _ (λ s. combine s b) refl refl
        (done-Gains empty_sum a nx _ _ left ea)
        (λ t w c.
          subst₂ (λ n m. Gains t n m (combine t b)) count' total'
            (combine-Gains t b w vb (omega arith))))
      (subst₂ (λ n m. Gains empty_sum n m (add_each empty_sum (xs ++ ys))) (length-append xs ys)
        (total_units-append xs ys)
        (add_each-Gains empty_sum (xs ++ ys) start (All-append xs ys tx ty)
          (omega (arith, length-append xs ys))))
