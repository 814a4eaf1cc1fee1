-- ===== src/Core/IdUniqueness/Examples.antt =====
-- Runs of the check of ids, and its theorem at concrete ids.
use hyowon.Common.{◌≡◌, refl, [], ◌∷◌}
use hyowon.Common.Fallible.{ok, err}
use hyowon.Core.IdUniqueness.{
  duplicate_ids, strictly_increasing, dense_range, bitmap_loop, bitmap_words, insert, sorted_copy,
  has_adjacent, require_unique_particle_ids_bounded,
}
use hyowon.Core.IdUniqueness.Bitmap.{Checks}
use hyowon.Core.IdUniqueness.Decision.{require_unique_particle_ids_bounded-Checks}

program : Unit {0}
unfolding strictly_increasing dense_range bitmap_loop bitmap_words insert sorted_copy has_adjacent
    require_unique_particle_ids_bounded
program = tt

increasing-run : require_unique_particle_ids_bounded (1 ∷ 5 ∷ 900 ∷ []) ≡ ok tt
unfolding program
increasing-run = refl

dense-run : require_unique_particle_ids_bounded (2 ∷ 0 ∷ 3 ∷ 1 ∷ []) ≡ ok tt
unfolding program
dense-run = refl

dense_twice-run : require_unique_particle_ids_bounded (2 ∷ 0 ∷ 2 ∷ 1 ∷ []) ≡ err duplicate_ids
unfolding program
dense_twice-run = refl

sparse-run : require_unique_particle_ids_bounded (70 ∷ 9 ∷ 70 ∷ []) ≡ err duplicate_ids
unfolding program
sparse-run = refl

require_unique_particle_ids_bounded-Checks_example :
    Checks (2 ∷ 0 ∷ 2 ∷ 1 ∷ []) (require_unique_particle_ids_bounded (2 ∷ 0 ∷ 2 ∷ 1 ∷ []))
require_unique_particle_ids_bounded-Checks_example =
    require_unique_particle_ids_bounded-Checks (2 ∷ 0 ∷ 2 ∷ 1 ∷ [])
