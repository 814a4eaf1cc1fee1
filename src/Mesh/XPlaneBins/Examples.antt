-- ===== src/Mesh/XPlaneBins/Examples.antt =====
-- A run of the stable order, and its theorem at concrete planes.
use hyowon.Common.{ℕ, zero, suc, ◌<◌, ◌≡◌, refl, List, [], ◌∷◌, length, get_or, arith}
use hyowon.Common.Fallible.{ok}
use hyowon.Mesh.XPlaneBins.{
  XPlaneBins, is_compact, set_particle, first_particle, count_loop, thread_counts, bin_count,
  offsets_loop, owners_loop, thread_offsets, scatter_loop, scatter_threads, filled_bins,
  build_x_plane_bins,
}
use hyowon.Mesh.XPlaneBins.Stable.{IsStableOrder, build_x_plane_bins-IsStableOrder}

program : Unit {0}
unfolding is_compact set_particle first_particle count_loop thread_counts bin_count offsets_loop
    owners_loop thread_offsets scatter_loop scatter_threads filled_bins build_x_plane_bins
program = tt

-- The planes of seven particles, in a mesh of four.
abbrev planes : List ℕ
planes = 2 ∷ 0 ∷ 2 ∷ 3 ∷ 0 ∷ 2 ∷ 0 ∷ []

abbrev memory : List ℕ
memory = 9 ∷ 9 ∷ 9 ∷ 9 ∷ 9 ∷ 9 ∷ 9 ∷ []

three_threads-run :
    build_x_plane_bins planes 4 3 memory
    ≡ ok (record { offsets = 0 ∷ 3 ∷ 3 ∷ 6 ∷ 7 ∷ []; particles = 1 ∷ 4 ∷ 6 ∷ 0 ∷ 2 ∷ 5 ∷ 3 ∷ [] })
unfolding program
three_threads-run = refl

one_thread-run : build_x_plane_bins planes 4 1 memory ≡ build_x_plane_bins planes 4 5 memory
unfolding program
one_thread-run = refl

planes_inside : (p : ℕ) → p < length planes → get_or planes p 0 < 4
planes_inside zero h = omega arith
planes_inside (suc zero) h = omega arith
planes_inside (suc (suc zero)) h = omega arith
planes_inside (suc (suc (suc zero))) h = omega arith
planes_inside (suc (suc (suc (suc zero)))) h = omega arith
planes_inside (suc (suc (suc (suc (suc zero))))) h = omega arith
planes_inside (suc (suc (suc (suc (suc (suc zero)))))) h = omega arith
planes_inside (suc (suc (suc (suc (suc (suc (suc p))))))) h = absurd (omega arith)

build_x_plane_bins-IsStableOrder_example :
    (bins : XPlaneBins) × (build_x_plane_bins planes 4 3 memory ≡ ok bins)
    × IsStableOrder planes 4 bins
build_x_plane_bins-IsStableOrder_example =
    build_x_plane_bins-IsStableOrder planes 4 3 memory (omega arith) (omega arith) (omega arith)
      (omega arith) planes_inside refl
