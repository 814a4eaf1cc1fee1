-- ===== src/Mesh/Examples.antt =====
-- The slab layout's theorems at concrete inputs.
use hyowon.Common.{◌+◌, ◌≤◌, ◌≡◌, arith, inr, pos}
use hyowon.Mesh.SlabLayout.{slab, mpi_slab_layout, planes_below, mpi_slab_layout-tiles}

-- Ten planes on four ranks: 3, 3, 2 and 2.
mpi_slab_layout-tiles_example :
    (mpi_slab_layout 10 (pos 1) (pos 4) ≡ inr (slab 10 1 4))
    × ((slab 10 1 4).start ≡ planes_below 1 10 4)
    × (planes_below 4 10 4 ≡ 10)
    × ((slab 10 1 4).count ≤ (slab 10 3 4).count + 1)
mpi_slab_layout-tiles_example =
    mpi_slab_layout-tiles 10 1 3 4 (omega arith) (omega arith) (omega arith)
