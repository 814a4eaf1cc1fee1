-- ===== src/Mesh/PlanePartition/Examples.antt =====
-- Runs of the partition, and its theorems at concrete inputs.
use hyowon.Common.{ℕ, ◌≡◌, ◌↔◌, refl, true, leb, [], ◌∷◌, List, arith, inr, some}
use hyowon.Mesh.PlanePartition.{
  groups_loop, contiguous_groups_required, totals_loop, search_loop, optimal_maximum_load,
  even_loop, assign_loop, ranges_loop, partition_with, weighted_contiguous_plane_boundaries,
}
use hyowon.Mesh.PlanePartition.Greedy.{Fits, contiguous_groups_required_iff}
use hyowon.Mesh.PlanePartition.Search.{IsLeast, optimal_maximum_load-IsLeast}

-- All that a run computes with.
program : Unit {0}
unfolding groups_loop contiguous_groups_required totals_loop search_loop optimal_maximum_load
    even_loop assign_loop ranges_loop partition_with weighted_contiguous_plane_boundaries
program = tt

abbrev weights : List ℕ
weights = 3 ∷ 1 ∷ 4 ∷ 1 ∷ 5 ∷ 9 ∷ 2 ∷ []

-- The loads are 9, 5 and 11.
weights-run : weighted_contiguous_plane_boundaries weights 3 ≡ inr (0 ∷ 4 ∷ 5 ∷ 7 ∷ [])
unfolding program
weights-run = refl

-- Without weights the tasks are spread evenly.
zeros-run : weighted_contiguous_plane_boundaries (0 ∷ 0 ∷ 0 ∷ 0 ∷ 0 ∷ []) 2 ≡ inr (0 ∷ 3 ∷ 5 ∷ [])
unfolding program
zeros-run = refl

contiguous_groups_required_iff_example :
    (leb (contiguous_groups_required weights 11) 3 ≡ true) ↔ Fits 11 2 0 weights
contiguous_groups_required_iff_example =
    contiguous_groups_required_iff weights 11 3 (omega arith) (omega arith)

optimal_maximum_load-IsLeast_example :
    (r : ℕ × ℕ) × (totals_loop weights 0 0 ≡ some r)
    × IsLeast weights 3 (optimal_maximum_load weights 3 r.0 r.1)
optimal_maximum_load-IsLeast_example =
    optimal_maximum_load-IsLeast weights 3 (omega arith) (omega arith) (omega arith)
