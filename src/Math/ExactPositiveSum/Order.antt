-- ===== src/Math/ExactPositiveSum/Order.antt =====
-- Sequences of calls on one sum: terms in another order, repeated terms, and partial sums.
use mathlib.Core.Logic.{∥∥₁_elim}
use mathlib.Core.List.{Perm, Permᴰ}
use mathlib.Core.List.Permᴰ.{nil, cons, swap, trans}
use hyowon.Common.{
  ℕ, zero, suc, ◌+◌, ◌*◌, ◌<◌, ◌≡◌, refl, sym, ap, ap₂, subst, ◌∙◌, List, [], ◌∷◌, arith, length,
  All, Outcome, done, ◌>>=◌,
}
use hyowon.Math.ExactPositiveSum.{Limbs, word, Sum, add, add_repeated, Error}
use hyowon.Math.ExactPositiveSum.Limbs.{number, AreWords}
use hyowon.Math.ExactPositiveSum.Terms.{IsTerm, units}
use hyowon.Math.ExactPositiveSum.Adding.{IsValid, Gains, add-Gains, add_repeated-Gains}

-- A number has one list of limbs of a given length.
number_inj :
    (xs ys : Limbs)
    → AreWords xs
    → AreWords ys
    → length xs ≡ length ys
    → number xs ≡ number ys
    → xs ≡ ys
number_inj [] [] p q l e = refl
number_inj [] (y ∷ ys) p q l e = absurd (omega arith)
number_inj (x ∷ xs) [] p q l e = absurd (omega arith)
number_inj (x ∷ xs) (y ∷ ys) p q l e =
    ap₂ ◌∷◌ (omega arith) (number_inj xs ys p.1 q.1 (omega arith) (omega arith))

-- A valid sum is determined by its integer and its count.
IsValid-ext :
    (s t : Sum)
    → IsValid s
    → IsValid t
    → number s.limbs ≡ number t.limbs
    → s.term_count ≡ t.term_count
    → s ≡ t
IsValid-ext s t v w e c =
    let limbs = number_inj s.limbs t.limbs v.words w.words (v.width ∙ sym w.width) e in
    λ i. record { limbs = limbs i; term_count = c i }

-- Two calls that gain the same end in the same state.
pub Gains-unique :
    (s : Sum) (n a : ℕ) (p q : Outcome Error Sum) → Gains s n a p → Gains s n a q → p ≡ q
Gains-unique s n a p q (t, e, v, total, count) (u, f, w, total', count') =
    e ∙ ap done (IsValid-ext t u v w (total ∙ sym total') (count ∙ sym count')) ∙ sym f

-- Calls in a row gain what they gain together.
pub Gains-bind :
    (s : Sum) (n a m b k c : ℕ) {r : Outcome Error Sum} (f : Sum → Outcome Error Sum)
    → n + m ≡ k
    → a + b ≡ c
    → Gains s n a r
    → ((t : Sum) → IsValid t → t.term_count ≡ s.term_count + n → Gains t m b (f t))
    → Gains s k c (r >>= f)
Gains-bind s n a m b k c f terms amount (t, e, v, total, count) next =
    let (u, e', v', total', count') = next t v count in
    (u, ap (λ x. x >>= f) e ∙ e', v', omega arith, omega arith)

-- The calls of `add` in turn.
unfoldable pub add_each : Sum → List ℕ → Outcome Error Sum
add_each s [] = done s
add_each s (v ∷ vs) = add s v >>= (λ t. add_each t vs)

unfoldable pub add_times : ℕ → Sum → ℕ → Outcome Error Sum
add_times zero s v = done s
add_times (suc n) s v = add s v >>= (λ t. add_times n t v)

unfoldable pub total_units : List ℕ → ℕ
total_units [] = 0
total_units (v ∷ vs) = units v + total_units vs

-- Any list of terms that the count has room for is added exactly.
pub add_each-Gains :
    (s : Sum) (vs : List ℕ)
    → IsValid s
    → All IsTerm vs
    → s.term_count + length vs < word
    → Gains s (length vs) (total_units vs) (add_each s vs)
unfolding add_each total_units
add_each-Gains s [] v t few = (s, refl, v, omega arith, omega arith)
add_each-Gains s (x ∷ xs) v t few =
    Gains-bind s 1 (units x) (length xs) (total_units xs) _ _ (λ t'. add_each t' xs) (omega arith)
      refl (add-Gains s x v t.0 (omega arith)) (λ u w c. add_each-Gains u xs w t.1 (omega arith))

add_times-Gains :
    (n : ℕ) (s : Sum) (value : ℕ)
    → IsValid s
    → IsTerm value
    → s.term_count + n < word
    → Gains s n (n * units value) (add_times n s value)
unfolding add_times
add_times-Gains zero s value v t few = (s, refl, v, omega arith, omega arith)
add_times-Gains (suc n) s value v t few =
    Gains-bind s 1 (units value) n (n * units value) _ _ (λ u. add_times n u value) (omega arith)
      (omega arith) (add-Gains s value v t (omega arith))
      (λ u w c. add_times-Gains n u value w t (omega arith))

-- `add_repeated` of a finite non-negative term to a valid sum, with room in its count, gives the
-- outcome of as many calls of `add`.
pub add_repeated-eq-add_times :
    (s : Sum) (value n : ℕ)
    → IsValid s
    → IsTerm value
    → s.term_count + n < word
    → add_repeated s value n ≡ add_times n s value
add_repeated-eq-add_times s value n v t few =
    Gains-unique s n (n * units value) _ _ (add_repeated-Gains s value n v t few)
      (add_times-Gains n s value v t few)

total_units-Permᴰ :
    {xs ys : List ℕ} → Permᴰ xs ys → (total_units xs ≡ total_units ys) × (length xs ≡ length ys)
unfolding total_units
total_units-Permᴰ nil = (refl, refl)
total_units-Permᴰ (cons e p) =
    let (total, len) = total_units-Permᴰ p in (ap₂ ◌+◌ (ap units e) total, ap suc len)
total_units-Permᴰ (swap {a} {b} {a'} {b'} {l} e f) = (omega (arith, ap units e, ap units f), refl)
total_units-Permᴰ (trans p q) =
    let (total, len) = total_units-Permᴰ p in
    let (total', len') = total_units-Permᴰ q in (total ∙ total', len ∙ len')

All-Permᴰ : {xs ys : List ℕ} → Permᴰ xs ys → All IsTerm xs → All IsTerm ys
All-Permᴰ nil h = tt
All-Permᴰ (cons e p) h = (subst IsTerm e h.0, All-Permᴰ p h.1)
All-Permᴰ (swap e f) h = (subst IsTerm f h.1.0, (subst IsTerm e h.0, h.1.1))
All-Permᴰ (trans p q) h = All-Permᴰ q (All-Permᴰ p h)

Outcome-set : IsSet (Outcome Error Sum)
Outcome-set = hlevel

-- Adding finite non-negative terms to a valid sum, with room in its count for all of them, gives the
-- same outcome in every order.
pub add_each-perm :
    (s : Sum) (xs ys : List ℕ)
    → IsValid s
    → All IsTerm xs
    → s.term_count + length xs < word
    → Perm xs ys
    → add_each s xs ≡ add_each s ys
add_each-perm s xs ys v t few perm = ∥∥₁_elim perm (Outcome-set _ _) λ p.
    let (total, len) = total_units-Permᴰ p in
    Gains-unique s (length xs) (total_units xs) _ _ (add_each-Gains s xs v t few)
      (rw (total, len) (add_each-Gains s ys v (All-Permᴰ p t) (rw (← len) few)))
