-- ===== src/Math/MpiExactNonnegativeSum/Gathered.antt =====
-- src/math/mpi_exact_nonnegative_sum.cpp: the sum of what the root gathered.
use hyowon.Common.{
  done, ℕ, zero, suc, ◌+◌, ◌*◌, ◌<◌, ◌≡◌, refl, sym, ap, ◌∙◌, List, [], ◌∷◌, ◌++◌, length, take,
  drop, get_or, arith, take-append, take_all, drop-append, drop_all, drop-drop,
}
use hyowon.Common.Fallible.{ok}
use hyowon.Math.ExactPositiveSum.{Sum, word, limb_count, empty_sum, combine_serialized}
use hyowon.Math.ExactPositiveSum.Limbs.{number}
use hyowon.Math.ExactPositiveSum.Adding.{IsValid}
use hyowon.Math.ExactPositiveSum.Combine.{combine_serialized-Gains}
use hyowon.Math.ExactPositiveSum.Order.{total_units}
use hyowon.Math.MpiExactNonnegativeSum.{returned}
use hyowon.Math.MpiExactNonnegativeSum.Collective.{combine_gathered}
use hyowon.Math.MpiExactNonnegativeSum.Values.{length-IsAdditive, total_units-IsAdditive}
use hyowon.Math.MpiExactNonnegativeSum.Shares.{concat}

-- The limbs of the ranks one behind another, and their counts.
abbrev pub all_limbs : List Sum → List ℕ
all_limbs [] = []
all_limbs (s ∷ ss) = s.limbs ++ all_limbs ss

abbrev pub all_counts : List Sum → List ℕ
all_counts [] = []
all_counts (s ∷ ss) = s.term_count ∷ all_counts ss

-- A valid sum of these terms on top of another.
pub record Holds (start t : Sum) (xs : List ℕ) : Type 0 where
  pub valid : IsValid t
  pub total : number t.limbs ≡ number start.limbs + total_units xs
  pub terms : t.term_count ≡ start.term_count + length xs

-- The sums of the ranks hold the terms of the ranks.
abbrev pub AllHold : List (List ℕ) → List Sum → Type 0
AllHold [] [] = Unit
AllHold [] (s ∷ ss) = ⊥
AllHold (xs ∷ xss) [] = ⊥
AllHold (xs ∷ xss) (s ∷ ss) = Holds empty_sum s xs × AllHold xss ss

pub AllHold-length : (xss : List (List ℕ)) (ss : List Sum) → AllHold xss ss → length xss ≡ length ss
AllHold-length [] [] h = refl
AllHold-length [] (s ∷ ss) h = absurd h
AllHold-length (xs ∷ xss) [] h = absurd h
AllHold-length (xs ∷ xss) (s ∷ ss) h = ap suc (AllHold-length xss ss h.1)

first_block : (n : ℕ) (xs ys : List ℕ) → length xs ≡ n → take n (xs ++ ys) ≡ xs
first_block n xs ys h = take-append n xs ys (omega arith) ∙ take_all n xs (omega arith)

next_block : (n : ℕ) (xs ys : List ℕ) → length xs ≡ n → drop n (xs ++ ys) ≡ ys
next_block n xs ys h =
    drop-append n xs ys (omega arith) ∙ ap (λ (zs : List ℕ). zs ++ ys) (drop_all n xs (omega arith))

get_or-drop : (n : ℕ) (xs : List ℕ) (y : ℕ) (ys : List ℕ) → drop n xs ≡ y ∷ ys → get_or xs n 0 ≡ y
get_or-drop n [] y ys e =
    let none_left : drop {A = ℕ} n [] ≡ [] = drop_all n [] (omega arith) in
    absurd (omega (arith, ap (λ (zs : List ℕ). length zs) (sym e ∙ none_left)))
get_or-drop zero (x ∷ xs) y ys e = ap (λ (zs : List ℕ). get_or zs 0 0) e
get_or-drop (suc n) (x ∷ xs) y ys e = get_or-drop n xs y ys e

-- One valid sum of some terms combined.
one_combined :
    (global s : Sum) (xs : List ℕ)
    → IsValid global
    → Holds empty_sum s xs
    → global.term_count + length xs < word
    → (t : Sum) × (combine_serialized global s.limbs s.term_count ≡ done t) × Holds global t xs
unfolding empty_sum
one_combined global s xs v h few =
    let w = h.valid in
    let total = h.total in
    let terms = h.terms in
    let (t, e, v', sum, count) =
      combine_serialized-Gains global s.limbs s.term_count v w.width w.words w.total-le
        (omega arith) in
    (t, e, record { valid = v'; total = omega arith; terms = omega arith })

-- From the source on, the buffers hold the limbs and counts of valid sums, for whose terms the count has room:
-- the loop adds all their terms.
pub combine_gathered-Holds :
    (xss : List (List ℕ)) (ss : List Sum) (source : ℕ) (limbs counts : List ℕ) (global : Sum)
    → IsValid global
    → AllHold xss ss
    → global.term_count + length (concat xss) < word
    → drop (source * limb_count) limbs ≡ all_limbs ss
    → drop source counts ≡ all_counts ss
    → (t : Sum) × (combine_gathered (length ss) source limbs counts global ≡ ok t)
      × Holds global t (concat xss)
unfolding combine_gathered total_units returned
combine_gathered-Holds [] [] source limbs counts global v h few el ec =
    (global, refl, record { valid = v; total = omega arith; terms = omega arith })
combine_gathered-Holds [] (s ∷ ss) source limbs counts global v h few el ec = absurd h
combine_gathered-Holds (xs ∷ xss) [] source limbs counts global v h few el ec = absurd h
combine_gathered-Holds (xs ∷ xss) (s ∷ ss) source limbs counts global v h few el ec =
    let width = h.0.valid.width in
    let more = length-IsAdditive.of_append xs (concat xss) in
    let all = total_units-IsAdditive.of_append xs (concat xss) in
    let (t, called, held) = one_combined global s xs v h.0 (omega arith) in
    let place : (source + 1) * limb_count ≡ source * limb_count + limb_count = omega arith in
    let el' =
      ap (λ (n : ℕ). drop n limbs) place
      ∙ sym (drop-drop limb_count (source * limb_count) limbs)
      ∙ ap (drop limb_count) el
      ∙ next_block limb_count s.limbs (all_limbs ss) width in
    let ec' = sym (drop-drop 1 source counts) ∙ ap (drop 1) ec in
    let counted = held.terms in
    let summed = held.total in
    let (u, returned_u, held') =
      combine_gathered-Holds xss ss (source + 1) limbs counts t held.valid h.1 (omega arith) el'
        ec' in
    let block = ap (take limb_count) el ∙ first_block limb_count s.limbs (all_limbs ss) width in
    let own = get_or-drop source counts s.term_count (all_counts ss) ec in
    let counted' = held'.terms in
    let summed' = held'.total in
    (
      u,
      rw (block, own, called, returned) returned_u,
      record { valid = held'.valid; total = omega arith; terms = omega arith },
    )
