-- ===== src/Halo/Grid/Examples.antt =====
-- Runs of the grid's checks, and their theorems at concrete inputs.
use hyowon.Common.{ℕ, ◌+◌, ◌*◌, ◌^◌, ◌≤◌, ◌<◌, ◌≡◌, refl, inl, inr, List, [], ◌∷◌, arith}
use hyowon.Halo.Grid.{
  cube_fits_within, checked_cube, checked_multiply, narrow_link_index_bytes,
  narrow_disjoint_set_index_bytes, has_cell, add_unique, lower_cap, raise_cap, memory_cap_1d,
  multiply_overflows, grid_overflows,
}
use hyowon.Halo.Grid.Cubes.{memory_cap_1d-root}
use hyowon.Halo.Grid.Cells.{IsCellList}

program : Unit {0}
unfolding cube_fits_within checked_cube checked_multiply narrow_link_index_bytes
    narrow_disjoint_set_index_bytes has_cell add_unique lower_cap raise_cap memory_cap_1d
program = tt

-- The estimate may be off on either side.
memory_cap-run : (memory_cap_1d 9 1000 ≡ 10) × (memory_cap_1d 12 1000 ≡ 10)
unfolding program
memory_cap-run = (refl, refl)

checked_multiply-run : checked_multiply (2 ^ 33) (2 ^ 31) ≡ inl multiply_overflows
unfolding program
checked_multiply-run = refl

index_bytes-run :
    (narrow_link_index_bytes (2 ^ 31 + 1) ≡ inr 8)
    × (narrow_disjoint_set_index_bytes (2 ^ 31 + 1) ≡ inr 4)
unfolding program
index_bytes-run = (refl, refl)

-- The first cube past 64 bits.
checked_cube-run : checked_cube 2642246 ≡ inl grid_overflows
unfolding program
checked_cube-run = refl

memory_cap_1d-root_example :
    (memory_cap_1d 9 1000 * memory_cap_1d 9 1000 * memory_cap_1d 9 1000 ≤ 1000)
    × (1000 < (memory_cap_1d 9 1000 + 1) * (memory_cap_1d 9 1000 + 1) * (memory_cap_1d 9 1000 + 1))
memory_cap_1d-root_example = memory_cap_1d-root 9 1000 (omega arith) (omega arith)

abbrev two_cells : List ℕ
two_cells = 4 ∷ 7 ∷ []

two_cells-IsCellList : IsCellList two_cells
unfolding program
two_cells-IsCellList = record { few = omega arith; distinct = (refl, (refl, tt)) }
