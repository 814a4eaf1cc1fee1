-- ===== src/Core/IdUniqueness/Decision.antt =====
-- include/cosmo_nbody/core/id_uniqueness.hpp: which lists of ids are accepted, on each of the three paths.
use hyowon.Common.{List, ℕ, length, Bool-cases, inl, inr}
use hyowon.Core.IdUniqueness.{
  strictly_increasing, dense_range, sorted_copy, has_adjacent, require_unique_particle_ids_bounded,
}
use hyowon.Core.IdUniqueness.Bitmap.{Checks, accepted, refused, bitmap-Checks}
use hyowon.Core.IdUniqueness.Sorted.{
  sorted_copy-AreAscending, sorted_copy-AreDistinct, ascending-AreDistinct, adjacent_not_distinct,
  increasing-AreDistinct,
}

-- On each of the three paths, ids are accepted exactly if no id stands in them twice.
pub require_unique_particle_ids_bounded-Checks :
    (ids : List ℕ) → Checks ids (require_unique_particle_ids_bounded ids)
unfolding require_unique_particle_ids_bounded
require_unique_particle_ids_bounded-Checks ids = elim (Bool-cases (strictly_increasing ids)) [
  | inl rising ↦ rw rising (accepted (increasing-AreDistinct ids rising))
  | inr mixed ↦ elim (Bool-cases (dense_range (length ids) ids)) [
    | inl dense ↦ rw (mixed, dense) (bitmap-Checks (length ids) ids dense)
    | inr sparse ↦ elim (Bool-cases (has_adjacent (sorted_copy ids))) [
      | inl twice ↦
          rw (mixed, sparse, twice)
            (refused (λ d. adjacent_not_distinct _ twice ((sorted_copy-AreDistinct ids).1 d)))
      | inr once ↦
          rw (mixed, sparse, once)
            (accepted (
              (sorted_copy-AreDistinct ids).0
                (ascending-AreDistinct _ (sorted_copy-AreAscending ids) once)))
    ]
  ]
]
