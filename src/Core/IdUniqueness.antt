-- ===== src/Core/IdUniqueness.antt =====
-- include/cosmo_nbody/core/id_uniqueness.hpp: the check that no id stands in a list twice, by order, by a
-- bitmap, or by a sorted copy. `std::sort` of numbers has one result, which an insertion sort computes.
pub mod Bitmap
pub mod Sorted
pub mod Decision
mod Examples
use hyowon.Common.{
  ℕ, ◌+◌, ◌*◌, ◌/◌, ◌%◌, ◌^◌, Bool, true, false, not, ltb, leb, ◌==◌, if◌then◌else◌, List, [], ◌∷◌,
  length, get_or, set, replicate, bit_and, bit_or,
}
use hyowon.Common.Fallible.{Result, ok, err}

pub data Error : Type 0 where
  duplicate_ids : Error

-- The loop that compares each id with the next.
unfoldable pub strictly_increasing : List ℕ → Bool
strictly_increasing [] = true
strictly_increasing (x ∷ []) = true
strictly_increasing (x ∷ y ∷ ids) =
    let rest = strictly_increasing (y ∷ ids) in if leb y x then false else rest

unfoldable pub dense_range : ℕ → List ℕ → Bool
dense_range n [] = true
dense_range n (id ∷ ids) = let rest = dense_range n ids in if leb n id then false else rest

-- The loop over the bitmap.
unfoldable pub bitmap_loop : List ℕ → List ℕ → Result Error (Unit {0})
bitmap_loop seen [] = ok tt
bitmap_loop seen (id ∷ ids) =
    let word = id / 64 in
    let mask = 1 * 2 ^ (id % 64) in
    let rest = bitmap_loop (set seen word (bit_or (get_or seen word 0) mask)) ids in
    if not (bit_and (get_or seen word 0) mask == 0) then err duplicate_ids else rest

unfoldable pub bitmap_words : ℕ → ℕ
bitmap_words n = n / 64 + (if not (n % 64 == 0) then 1 else 0)

unfoldable pub insert : ℕ → List ℕ → List ℕ
insert x [] = x ∷ []
insert x (y ∷ ys) = if leb x y then x ∷ y ∷ ys else y ∷ insert x ys

unfoldable pub sorted_copy : List ℕ → List ℕ
sorted_copy [] = []
sorted_copy (x ∷ xs) = insert x (sorted_copy xs)

-- `std::adjacent_find(begin, end) != end`
unfoldable pub has_adjacent : List ℕ → Bool
has_adjacent [] = false
has_adjacent (x ∷ []) = false
has_adjacent (x ∷ y ∷ ids) = let rest = has_adjacent (y ∷ ids) in if x == y then true else rest

unfoldable pub require_unique_particle_ids_bounded : List ℕ → Result Error (Unit {0})
require_unique_particle_ids_bounded ids =
    let n = length ids in
    let by_bitmap = bitmap_loop (replicate (bitmap_words n) 0) ids in
    if strictly_increasing ids
    then ok tt
    else if dense_range n ids
    then by_bitmap
    else if has_adjacent (sorted_copy ids)
    then err duplicate_ids
    else ok tt
