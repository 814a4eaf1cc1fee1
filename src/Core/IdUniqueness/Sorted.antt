-- ===== src/Core/IdUniqueness/Sorted.antt =====
-- include/cosmo_nbody/core/id_uniqueness.hpp: the sorted copy, and strictly increasing ids.
use hyowon.Common.{
  ℕ, ◌<◌, ◌≤◌, ◌≡◌, ◌≢◌, ◌↔◌, leb→le, sym, inl, inr, true, false, leb, ◌==◌, List, [], ◌∷◌, All,
  AreDistinct, arith, tests, Bool-cases, ==→eq,
}
use hyowon.Core.IdUniqueness.{strictly_increasing, insert, sorted_copy, has_adjacent}

-- In ascending order.
pub AreAscending : List ℕ → Type 0
AreAscending [] = Unit
AreAscending (x ∷ xs) = All (λ y. x ≤ y) xs × AreAscending xs

insert_at_least :
    (a x : ℕ) (ys : List ℕ) → a ≤ x → All (λ y. a ≤ y) ys → All (λ y. a ≤ y) (insert x ys)
unfolding insert
insert_at_least a x [] h all = (h, tt)
insert_at_least a x (y ∷ ys) h all = elim (Bool-cases (leb x y)) [
  | inl here ↦ rw here (h, all)
  | inr later ↦ rw later (all.0, insert_at_least a x ys h all.1)
]

weaken_at_least : (a b : ℕ) (ys : List ℕ) → a ≤ b → All (λ y. b ≤ y) ys → All (λ y. a ≤ y) ys
weaken_at_least a b [] h all = tt
weaken_at_least a b (y ∷ ys) h all = (omega (arith, all.0), weaken_at_least a b ys h all.1)

insert-AreAscending : (x : ℕ) (ys : List ℕ) → AreAscending ys → AreAscending (insert x ys)
unfolding insert AreAscending
insert-AreAscending x [] h = (tt, tt)
insert-AreAscending x (y ∷ ys) h = elim (Bool-cases (leb x y)) [
  | inl here ↦ rw here ((leb→le _ _ here, weaken_at_least x y ys (leb→le _ _ here) h.0), h)
  | inr later ↦
      let le : y ≤ x = omega tests in
      rw later (insert_at_least y x ys le h.0, insert-AreAscending x ys h.1)
]

pub sorted_copy-AreAscending : (xs : List ℕ) → AreAscending (sorted_copy xs)
unfolding sorted_copy AreAscending
sorted_copy-AreAscending [] = tt
sorted_copy-AreAscending (x ∷ xs) =
    insert-AreAscending x (sorted_copy xs) (sorted_copy-AreAscending xs)

-- What is apart from an element and a list is apart from the list with the element in its place.
insert_apart :
    (a x : ℕ) (ys : List ℕ) → (All (λ y. a ≢ y) (insert x ys)) ↔ ((a ≢ x) × All (λ y. a ≢ y) ys)
unfolding insert
insert_apart a x [] = (λ h. h, λ h. h)
insert_apart a x (y ∷ ys) = elim (Bool-cases (leb x y)) [
  | inl here ↦ rw here (λ h. h, λ h. h)
  | inr later ↦
      let (from, to) = insert_apart a x ys in
      rw later (λ h. ((from h.1).0, (h.0, (from h.1).1)), λ h. (h.1.0, to (h.0, h.1.1)))
]

insert-AreDistinct :
    (x : ℕ) (ys : List ℕ) → (AreDistinct (insert x ys)) ↔ (All (λ y. x ≢ y) ys × AreDistinct ys)
unfolding insert
insert-AreDistinct x [] = (λ h. h, λ h. h)
insert-AreDistinct x (y ∷ ys) = elim (Bool-cases (leb x y)) [
  | inl here ↦ rw here (λ h. h, λ h. h)
  | inr later ↦
      let (from, to) = insert-AreDistinct x ys in
      let (apart, joined) = insert_apart y x ys in
      rw later (
        λ h. (((λ e. (apart h.0).0 (sym e)), (from h.1).0), ((apart h.0).1, (from h.1).1)),
        λ h. (joined ((λ e. h.0.0 (sym e)), h.1.0), to (h.0.1, h.1.1)),
      )
]

sorted_copy_apart :
    (a : ℕ) (xs : List ℕ) → (All (λ y. a ≢ y) (sorted_copy xs)) ↔ (All (λ y. a ≢ y) xs)
unfolding sorted_copy
sorted_copy_apart a [] = (λ h. h, λ h. h)
sorted_copy_apart a (x ∷ xs) =
    let (from, to) = insert_apart a x (sorted_copy xs) in
    let (from', to') = sorted_copy_apart a xs in
    (λ h. ((from h).0, from' (from h).1), λ h. to (h.0, to' h.1))

-- Sorting keeps ids distinct, and makes none so.
pub sorted_copy-AreDistinct : (xs : List ℕ) → (AreDistinct (sorted_copy xs)) ↔ (AreDistinct xs)
unfolding sorted_copy
sorted_copy-AreDistinct [] = (λ h. h, λ h. h)
sorted_copy-AreDistinct (x ∷ xs) =
    let (from, to) = insert-AreDistinct x (sorted_copy xs) in
    let (from', to') = sorted_copy-AreDistinct xs in
    let (apart, joined) = sorted_copy_apart x xs in
    (λ h. (apart (from h).0, from' (from h).1), λ h. to (joined h.0, to' h.1))

above_apart : (x : ℕ) (ys : List ℕ) → All (λ y. x < y) ys → All (λ y. x ≢ y) ys
above_apart x [] h = tt
above_apart x (y ∷ ys) h = ((λ e. omega (arith, h.0)), above_apart x ys h.1)

from_above : (x y : ℕ) (ys : List ℕ) → x < y → All (λ z. y ≤ z) ys → All (λ z. x < z) ys
from_above x y [] h all = tt
from_above x y (z ∷ ys) h all = (omega (arith, all.0), from_above x y ys h all.1)

-- Ascending numbers with no equal neighbours are distinct.
pub ascending-AreDistinct :
    (xs : List ℕ) → AreAscending xs → has_adjacent xs ≡ false → AreDistinct xs
unfolding AreAscending has_adjacent
ascending-AreDistinct [] h e = tt
ascending-AreDistinct (x ∷ []) h e = (tt, tt)
ascending-AreDistinct (x ∷ y ∷ ys) h e =
    let apart : (x ≢ y) × (has_adjacent (y ∷ ys) ≡ false) = (λ same. ground arith, ground arith) in
    let le = h.0.0 in
    let strict : x < y = ground (arith, apart.0) in
    (
      above_apart x (y ∷ ys) (strict, from_above x y ys strict h.1.0),
      ascending-AreDistinct (y ∷ ys) h.1 apart.1,
    )

-- Equal neighbours are not distinct.
pub adjacent_not_distinct : (xs : List ℕ) → has_adjacent xs ≡ true → AreDistinct xs → ⊥
unfolding has_adjacent
adjacent_not_distinct [] e d = cc
adjacent_not_distinct (x ∷ []) e d = cc
adjacent_not_distinct (x ∷ y ∷ ys) e d = elim (Bool-cases (x == y)) [
  | inl same ↦ d.0.0 (==→eq x y same)
  | inr other ↦
      let rest : has_adjacent (y ∷ ys) ≡ true = rw (other, has_adjacent) at e in
      adjacent_not_distinct (y ∷ ys) rest d.1
]

-- Strictly increasing numbers are all above the first, and distinct.
increasing_above :
    (x y : ℕ) (ys : List ℕ) → x < y → strictly_increasing (y ∷ ys) ≡ true → All (λ z. x < z) ys
unfolding strictly_increasing
increasing_above x y [] h e = tt
increasing_above x y (z ∷ ys) h e =
    let parts : (y < z) × (strictly_increasing (z ∷ ys) ≡ true) = (ground arith, ground arith) in
    let lt = parts.0 in (omega arith, increasing_above x z ys (omega arith) parts.1)

pub increasing-AreDistinct : (xs : List ℕ) → strictly_increasing xs ≡ true → AreDistinct xs
unfolding strictly_increasing
increasing-AreDistinct [] e = tt
increasing-AreDistinct (x ∷ []) e = (tt, tt)
increasing-AreDistinct (x ∷ y ∷ ys) e =
    let parts : (x < y) × (strictly_increasing (y ∷ ys) ≡ true) = (ground arith, ground arith) in
    (
      above_apart x (y ∷ ys) (parts.0, increasing_above x y ys parts.0 parts.1),
      increasing-AreDistinct (y ∷ ys) parts.1,
    )
