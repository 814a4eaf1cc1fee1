-- ===== src/Mesh/SlabLayout.antt =====
-- src/mesh/mpi_slab_layout.cpp: the slabs of the ranks, in a build without the FFTW MPI library. The
-- counts `rank` and `size` are `int`s, so they can be below zero.
use hyowon.Common.{
  ℕ, zero, suc, ◌+◌, ◌*◌, ◌/◌, ◌%◌, ◌≤◌, ◌<◌, ◌≡◌, ◌⊎◌, inl, inr, refl, ap, sym, ◌∙◌, min, Bool,
  false, ◌||◌, arith, tests, ltb, leb, ◌==◌, if◌then◌else◌, Bool-cases, ℤ, pos, negsuc,
}
use native.Mathlib.Nat.{div-add-mod, mod-lt, mul-le-mul}

pub data Error : Type 0 where
  extent_not_positive topology_invalid size_not_positive : Error

pub record MpiSlabLayout : Type 0 where
  pub start : ℕ
  pub count : ℕ

-- The layout of a rank of a valid topology.
unfoldable pub slab : ℕ → ℕ → ℕ → MpiSlabLayout
slab n0 rank size =
    let base = n0 / size in
    let remainder = n0 % size in
    record {
      start = rank * base + min rank remainder;
      count = base + (if ltb rank remainder then 1 else 0);
    }

unfoldable pub checked_slab : ℕ → ℤ → ℤ → Error ⊎ MpiSlabLayout
checked_slab n0 (pos rank) (pos size) =
    if size == 0 || leb size rank then inl topology_invalid else inr (slab n0 rank size)
checked_slab n0 (pos rank) (negsuc n) = inl topology_invalid
checked_slab n0 (negsuc n) size = inl topology_invalid

unfoldable pub deterministic_fallback_layout : ℕ → ℤ → ℤ → Error ⊎ MpiSlabLayout
deterministic_fallback_layout n0 rank size =
    if n0 == 0 then inl extent_not_positive else checked_slab n0 rank size

unfoldable pub mpi_slab_layout : ℕ → ℤ → ℤ → Error ⊎ MpiSlabLayout
mpi_slab_layout n0 rank size = deterministic_fallback_layout n0 rank size

unfoldable pub has_no_planes : Error ⊎ MpiSlabLayout → Error ⊎ Bool
has_no_planes (inl e) = inl e
has_no_planes (inr layout) = inr (layout.count == 0)

-- The last rank of the topology is asked.
unfoldable pub mpi_slab_layout_has_empty_rank : ℕ → ℤ → Error ⊎ Bool
mpi_slab_layout_has_empty_rank n0 (pos zero) = inl size_not_positive
mpi_slab_layout_has_empty_rank n0 (pos (suc last)) =
    has_no_planes (deterministic_fallback_layout n0 (pos last) (pos (suc last)))
mpi_slab_layout_has_empty_rank n0 (negsuc n) = inl size_not_positive

-- The planes of the ranks below `rank`.
unfoldable pub planes_below : ℕ → ℕ → ℕ → ℕ
planes_below zero n0 size = 0
planes_below (suc rank) n0 size = planes_below rank n0 size + (slab n0 rank size).count

planes_below-eq :
    (rank n0 size : ℕ) → planes_below rank n0 size ≡ rank * (n0 / size) + min rank (n0 % size)
unfolding planes_below slab
planes_below-eq zero n0 size = omega arith
planes_below-eq (suc rank) n0 size = let before = planes_below-eq rank n0 size in ground arith

-- In every valid topology the slab of a rank starts where the slabs of the ranks before it end, the
-- slabs of all ranks together are the planes of the mesh, and no rank has more than one plane more
-- than another.
pub mpi_slab_layout-tiles :
    (n0 rank other size : ℕ)
    → 0 < n0
    → rank < size
    → other < size
    → (mpi_slab_layout n0 (pos rank) (pos size) ≡ inr (slab n0 rank size))
      × ((slab n0 rank size).start ≡ planes_below rank n0 size)
      × (planes_below size n0 size ≡ n0)
      × ((slab n0 rank size).count ≤ (slab n0 other size).count + 1)
unfolding mpi_slab_layout deterministic_fallback_layout checked_slab
mpi_slab_layout-tiles n0 rank other size positive valid also =
    let extent : (n0 == 0) ≡ false = ground arith in
    let topology : (size == 0 || leb size rank) ≡ false = ground arith in
    let short : n0 % size < size = mod-lt n0 (omega arith) in
    (
      rw (extent, topology) refl,
      unfold slab in sym (planes_below-eq rank n0 size),
      planes_below-eq size n0 size ∙ omega (arith, div-add-mod n0 size),
      unfold slab in ground arith,
    )

last_count : (n0 last : ℕ) → ((slab n0 last (suc last)).count == 0) ≡ ltb n0 (suc last)
unfolding slab
last_count n0 last =
    let size : ℕ = suc last in
    let q : ℕ = n0 / size in
    let split : size * q + n0 % size ≡ n0 = div-add-mod n0 size in
    let short : n0 % size < size = mod-lt n0 (omega arith) in
    elim (Bool-cases (leb 1 q)) [
      | inl some_each ↦
          let product : size * 1 ≤ size * q = mul-le-mul (omega arith) (omega tests) in ground arith
      | inr none_each ↦
          let nothing : q ≡ 0 = omega tests in
          let product : size * q ≡ 0 = rw nothing (omega arith) in ground arith
    ]

-- Some rank has no planes exactly where there are fewer planes than ranks, and then the test says so.
pub has_empty_rank-eq :
    (n0 last : ℕ)
    → 0 < n0
    → mpi_slab_layout_has_empty_rank n0 (pos (suc last)) ≡ inr (ltb n0 (suc last))
unfolding mpi_slab_layout_has_empty_rank has_no_planes deterministic_fallback_layout checked_slab
    slab
has_empty_rank-eq n0 last positive =
    let extent : (n0 == 0) ≡ false = ground arith in
    let topology : (suc last == 0 || leb (suc last) last) ≡ false = ground arith in
    rw (has_no_planes, deterministic_fallback_layout, extent, topology)
      (ap (λ (b : Bool). inr b) (last_count n0 last))
