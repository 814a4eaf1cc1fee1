-- ===== src/Core/IdUniqueness/Bitmap.antt =====
-- include/cosmo_nbody/core/id_uniqueness.hpp: the loop over the bitmap.
use native.Mathlib.Nat.{pow-suc, div-div-eq-div-mul, mul_comm, div-eq_of_lt}
use hyowon.Common.{
  ℕ, zero, suc, ◌*◌, ◌/◌, ◌%◌, ◌^◌, ◌<◌, max, ◌≡◌, ◌≢◌, refl, sym, ap, subst, ap₂, ◌∙◌, inl, inr,
  true, false, not, ◌==◌, if◌then◌else◌, List, [], ◌∷◌, length, get_or, set, replicate,
  length-replicate, length-set, get_or-replicate, get_or-set_self, get_or-set_ne, All, AreDistinct,
  bit_and, bit_or, bit_or-halves, bit_and-single, two_pow_pos, arith, Bool-cases, ==→eq,
}
use hyowon.Common.Fallible.{Result, ok, err}
use hyowon.Core.IdUniqueness.{Error, duplicate_ids, bitmap_loop, bitmap_words, dense_range}

-- The digit of a word at a place.
abbrev digit : ℕ → ℕ → ℕ
digit w j = w / 2 ^ j % 2

digit-suc : (w j : ℕ) → digit w (suc j) ≡ digit (w / 2) j
digit-suc w j =
    ap (λ (t : ℕ). t % 2)
      (ap (λ (t : ℕ). w / t) (pow-suc 2 j ∙ mul_comm (2 ^ j) 2)
        ∙ sym (div-div-eq-div-mul w 2 (2 ^ j)))

digit-bit_or : (a b j : ℕ) → digit (bit_or a b) j ≡ max (digit a j) (digit b j)
digit-bit_or a b zero = omega (arith, bit_or-halves a b)
digit-bit_or a b (suc j) =
    let half : bit_or a b / 2 ≡ bit_or (a / 2) (b / 2) = omega (arith, bit_or-halves a b) in
    digit-suc (bit_or a b) j
    ∙ ap (λ (t : ℕ). digit t j) half
    ∙ digit-bit_or (a / 2) (b / 2) j
    ∙ ap₂ max (sym (digit-suc a j)) (sym (digit-suc b j))

digit-power : (k j : ℕ) → digit (2 ^ k) j ≡ (if k == j then 1 else 0)
digit-power zero zero = refl
digit-power zero (suc j) =
    let nothing : digit 0 j ≡ 0 = ap (λ (t : ℕ). t % 2) (div-eq_of_lt (two_pow_pos j)) in
    digit-suc 1 j ∙ nothing ∙ ground arith
digit-power (suc k) zero = let double = pow-suc 2 k in ground arith
digit-power (suc k) (suc j) =
    let half : 2 ^ suc k / 2 ≡ 2 ^ k = omega (arith, pow-suc 2 k) in
    digit-suc (2 ^ suc k) j ∙ ap (λ (t : ℕ). digit t j) half ∙ digit-power k j ∙ ground arith

-- Whether the bit of an id is set.
pub marked : List ℕ → ℕ → ℕ
marked seen id = digit (get_or seen (id / 64) 0) (id % 64)

-- The bitmap with the bit of an id set.
abbrev marking : List ℕ → ℕ → List ℕ
marking seen id = set seen (id / 64) (bit_or (get_or seen (id / 64) 0) (1 * 2 ^ (id % 64)))

marked-marking :
    (seen : List ℕ) (id other : ℕ)
    → id / 64 < length seen
    → marked (marking seen id) other ≡ (if id == other then 1 else marked seen other)
unfolding marked
marked-marking seen id other h = elim (Bool-cases (id / 64 == other / 64)) [
  | inr apart ↦
      let differ : (id == other) ≡ false = ground arith in
      rw (
        differ,
        get_or-set_ne seen (id / 64) (other / 64)
            (bit_or (get_or seen (id / 64) 0) (1 * 2 ^ (id % 64))) 0 (λ e. ground arith),
      )
  | inl together ↦
      let word = ==→eq (id / 64) (other / 64) together in
      let old : ℕ = get_or seen (id / 64) 0 in
      let j : ℕ = other % 64 in
      let joined = digit-bit_or old (1 * 2 ^ (id % 64)) j in
      let one : 1 * 2 ^ (id % 64) ≡ 2 ^ (id % 64) = omega arith in
      let power = ap (λ (t : ℕ). digit t j) one ∙ digit-power (id % 64) j in
      rw
        (← word, get_or-set_self seen (id / 64) (bit_or old (1 * 2 ^ (id % 64))) 0 h, joined, power)
        (ground arith)
]

-- The test of a bit.
test_bit : (w k : ℕ) → not (bit_and w (1 * 2 ^ k) == 0) ≡ not (digit w k == 0)
test_bit w k =
    let one : 1 * 2 ^ k ≡ 2 ^ k = omega arith in
    let single = bit_and-single k w in
    let some_bit = two_pow_pos k in
    elim (Bool-cases (digit w k == 0)) [
      | inl clear ↦
          let none_left : bit_and w (2 ^ k) ≡ 0 =
            single ∙ ap (λ (t : ℕ). t * 2 ^ k) (==→eq _ _ clear) ∙ omega arith in
          rw (one, none_left, clear)
      | inr set_bit ↦
          let digit_one : digit w k ≡ 1 = ground arith in
          let all_of_it : bit_and w (2 ^ k) ≡ 2 ^ k =
            single ∙ ap (λ (t : ℕ). t * 2 ^ k) digit_one ∙ omega arith in
          let nonzero : (2 ^ k == 0) ≡ false = ground arith in rw (one, all_of_it, set_bit, nonzero)
    ]

-- What the loop says of the ids from here on.
data Marks (seen ids : List ℕ) : Result Error (Unit {0}) → Type 0 where
  fresh : AreDistinct ids → All (λ x. marked seen x ≡ 0) ids → Marks seen ids (ok tt)
  repeated :
      (AreDistinct ids → All (λ x. marked seen x ≡ 0) ids → ⊥) → Marks seen ids (err duplicate_ids)

marked_before :
    (seen : List ℕ) (id : ℕ) (xs : List ℕ)
    → id / 64 < length seen
    → All (λ x. marked (marking seen id) x ≡ 0) xs
    → All (λ y. id ≢ y) xs × All (λ x. marked seen x ≡ 0) xs
marked_before seen id [] h all = (tt, tt)
marked_before seen id (x ∷ xs) h all =
    let (apart, new) = marked_before seen id xs h all.1 in
    let law = marked-marking seen id x h in
    elim (Bool-cases (id == x)) [
      | inl same ↦ absurd (ground (arith, law, all.0))
      | inr other ↦ (((λ e. ground arith), apart), (ground (arith, law, all.0), new))
    ]

marked_after :
    (seen : List ℕ) (id : ℕ) (xs : List ℕ)
    → id / 64 < length seen
    → All (λ y. id ≢ y) xs
    → All (λ x. marked seen x ≡ 0) xs
    → All (λ x. marked (marking seen id) x ≡ 0) xs
marked_after seen id [] h apart new = tt
marked_after seen id (x ∷ xs) h apart new =
    let differ : (id == x) ≡ false = ground (arith, apart.0) in
    (marked-marking seen id x h ∙ rw differ new.0, marked_after seen id xs h apart.1 new.1)

test_marked :
    (seen : List ℕ) (id : ℕ)
    → not (bit_and (get_or seen (id / 64) 0) (1 * 2 ^ (id % 64)) == 0) ≡ not (marked seen id == 0)
unfolding marked
test_marked seen id = test_bit (get_or seen (id / 64) 0) (id % 64)

bitmap_loop-Marks :
    (seen ids : List ℕ)
    → All (λ x. x / 64 < length seen) ids
    → Marks seen ids (bitmap_loop seen ids)
unfolding bitmap_loop
bitmap_loop-Marks seen [] inside = fresh tt tt
bitmap_loop-Marks seen (id ∷ ids) inside = elim (Bool-cases (marked seen id == 0)) [
  | inl new ↦
      let inside' =
        subst (λ (n : ℕ). All (λ x. x / 64 < n) ids) (sym (length-set seen (id / 64) _)) inside.1 in
      rw (test_marked seen id, new)
        (by_rest (==→eq _ _ new) (bitmap_loop-Marks (marking seen id) ids inside'))
  | inr old ↦ rw (test_marked seen id, old) (repeated (λ d all. ground (arith, all.0)))
]
  where
    by_rest :
        {r : Result Error (Unit {0})}
        → marked seen id ≡ 0
        → Marks (marking seen id) ids r
        → Marks seen (id ∷ ids) r
    by_rest zero_bit (fresh d all) =
        let (apart, new) = marked_before seen id ids inside.0 all in
        fresh (apart, d) (zero_bit, new)
    by_rest zero_bit (repeated clash) =
        repeated (λ d all. clash d.1 (marked_after seen id ids inside.0 d.0 all.1))

marked_nothing : (n id : ℕ) → id / 64 < n → marked (replicate n 0) id ≡ 0
unfolding marked
marked_nothing n id h =
    rw (get_or-replicate {A = ℕ} n (id / 64) 0 0 h)
      (ap (λ (t : ℕ). t % 2) (div-eq_of_lt (two_pow_pos (id % 64))))

pub dense_inside :
    (n : ℕ) (ids : List ℕ) → dense_range n ids ≡ true → All (λ x. x / 64 < bitmap_words n) ids
unfolding dense_range bitmap_words
dense_inside n [] h = tt
dense_inside n (id ∷ ids) h =
    let below : (id < n) × (dense_range n ids ≡ true) = ground arith in
    let small = below.0 in (ground arith, dense_inside n ids below.1)

none_marked :
    (n : ℕ) (ids : List ℕ) → All (λ x. x / 64 < n) ids → All (λ x. marked (replicate n 0) x ≡ 0) ids
none_marked n [] h = tt
none_marked n (id ∷ ids) h = (marked_nothing n id h.0, none_marked n ids h.1)

-- The result of a check by the ids.
pub data Checks (ids : List ℕ) : Result Error (Unit {0}) → Type 0 where
  accepted : AreDistinct ids → Checks ids (ok tt)
  refused : (AreDistinct ids → ⊥) → Checks ids (err duplicate_ids)

-- The bitmap accepts exactly distinct ids, where each is below their count.
pub bitmap-Checks :
    (n : ℕ) (ids : List ℕ)
    → dense_range n ids ≡ true
    → Checks ids (bitmap_loop (replicate (bitmap_words n) 0) ids)
bitmap-Checks n ids h =
    let inside = dense_inside n ids h in
    let inside' =
      subst (λ (k : ℕ). All (λ x. x / 64 < k) ids)
        (sym (length-replicate {A = ℕ} (bitmap_words n) 0)) inside in
    by_marks (none_marked (bitmap_words n) ids inside) (bitmap_loop-Marks _ ids inside')
  where
    by_marks :
        {r : Result Error (Unit {0})}
        → All (λ x. marked (replicate (bitmap_words n) 0) x ≡ 0) ids
        → Marks (replicate (bitmap_words n) 0) ids r
        → Checks ids r
    by_marks clear (fresh d all) = accepted d
    by_marks clear (repeated clash) = refused (λ d. clash d clear)
