-- ===== src/Mesh/XPlaneBins/Stable.antt =====
-- src/mesh/mass_assignment_workspace.inc: the order is stable, for a team of any size.
use native.Mathlib.Nat.{div-lt_iff_lt-mul}
use hyowon.Common.{
  ℕ, ◌+◌, ◌-◌, ◌*◌, ◌/◌, ◌^◌, ◌<◌, ◌≤◌, ◌≡◌, refl, ap, ltb, false, ◌==◌, List, get_or, length,
  replicate, arith, Bool-cases, ==→eq, inl, inr, length-replicate, get_or-replicate,
}
use hyowon.Common.Fallible.{ok}
use hyowon.Mesh.XPlaneBins.{
  XPlaneBins, size_max, thread_counts, offsets_loop, thread_offsets, filled_bins,
  build_x_plane_bins,
}
use hyowon.Mesh.XPlaneBins.Occurrences.{before, before-zero, before-le, slot}
use hyowon.Mesh.XPlaneBins.Counting.{thread_counts-AreCounts}
use hyowon.Mesh.XPlaneBins.Offsets.{offsets_loop-before, thread_offsets-ArePlaced}
use hyowon.Mesh.XPlaneBins.Scatter.{scatter-Written}

-- The offset of each bin counts the particles of the bins before it, and each particle stands at its slot,
-- behind those particles and behind the particles of its own bin with smaller numbers.
pub record IsStableOrder (bases : List ℕ) (mesh_size : ℕ) (bins : XPlaneBins) : Type 0 where
  pub offsets_exact :
      (bin : ℕ) → bin ≤ mesh_size → get_or bins.offsets bin 0 ≡ before bases bin (length bases) 0
  pub extent : length bins.particles ≡ length bases
  pub placed : (p : ℕ) → p < length bases → get_or bins.particles (slot bases p) 0 ≡ p

first_offset :
    (bases : List ℕ) (mesh_size bin : ℕ)
    → bin ≤ 0
    → get_or (replicate {A = ℕ} (mesh_size + 1) 0) bin 0 ≡ before bases bin (length bases) 0
first_offset bases mesh_size bin h =
    let first : bin ≡ 0 = omega arith in
    let start = get_or-replicate {A = ℕ} (mesh_size + 1) bin 0 0 (omega arith) in
    let none_before = before-zero bases (length bases) 0 in
    omega (arith, ap (λ (t : ℕ). before bases t (length bases) 0) first)

-- No particle has no order to keep.
empty_bins-IsStableOrder :
    (bases : List ℕ) (mesh_size : ℕ) (memory : List ℕ)
    → length bases ≡ 0
    → length memory ≡ length bases
    → IsStableOrder bases mesh_size
        (record { offsets = replicate (mesh_size + 1) 0; particles = memory })
empty_bins-IsStableOrder bases mesh_size memory h len = record {
  offsets_exact = λ bin le. omega (
    arith,
    get_or-replicate {A = ℕ} (mesh_size + 1) bin 0 0 (omega arith),
    before-le bases bin (length bases) 0,
  );
  extent = len;
  placed = λ p lt. absurd (omega arith);
}

filled_bins-IsStableOrder :
    (bases : List ℕ) (mesh_size thread_count : ℕ) (memory : List ℕ)
    → 0 < thread_count
    → length bases * thread_count < 2 ^ 64
    → ((p : ℕ) → p < length bases → get_or bases p 0 < mesh_size)
    → length memory ≡ length bases
    → (bins : XPlaneBins) × (filled_bins bases mesh_size thread_count memory ≡ ok bins)
      × IsStableOrder bases mesh_size bins
unfolding filled_bins
filled_bins-IsStableOrder bases mesh_size thread_count memory some_threads small inside len =
    let rows = thread_counts thread_count 0 thread_count mesh_size bases in
    let offsets = offsets_loop mesh_size 0 rows (replicate (mesh_size + 1) 0) in
    let counts =
      thread_counts-AreCounts bases mesh_size thread_count some_threads small inside thread_count 0
        (omega arith) in
    let filled =
      offsets_loop-before bases mesh_size thread_count some_threads small inside mesh_size 0 rows
        (replicate (mesh_size + 1) 0) (omega arith) (length-replicate {A = ℕ} (mesh_size + 1) 0)
        counts (λ b le. first_offset bases mesh_size b le) in
    let rows' =
      thread_offsets mesh_size 0 offsets rows (replicate thread_count (replicate mesh_size 0)) in
    let placed =
      thread_offsets-ArePlaced bases mesh_size thread_count some_threads small inside offsets rows
        filled counts in
    let (order, e, written) =
      scatter-Written bases mesh_size thread_count some_threads small inside rows' memory placed
        len in
    (
      record { offsets = offsets; particles = order },
      rw e refl,
      record { offsets_exact = filled; extent = written.extent; placed = written.placed },
    )

-- For particles whose planes lie in the mesh, with a count of threads that is a positive int and whose
-- products with the mesh size and with the count of particles have 64 bits, the bins are built without an
-- exception, and they hold the particles in the order of their planes, those of one plane in their own
-- order, with the offset of each plane, whatever that count and the memory of the order are.
pub build_x_plane_bins-IsStableOrder :
    (bases : List ℕ) (mesh_size thread_count : ℕ) (memory : List ℕ)
    → 0 < thread_count
    → thread_count < 2 ^ 31
    → mesh_size * thread_count < 2 ^ 64
    → length bases * thread_count < 2 ^ 64
    → ((p : ℕ) → p < length bases → get_or bases p 0 < mesh_size)
    → length memory ≡ length bases
    → (bins : XPlaneBins) × (build_x_plane_bins bases mesh_size thread_count memory ≡ ok bins)
      × IsStableOrder bases mesh_size bins
unfolding build_x_plane_bins
build_x_plane_bins-IsStableOrder bases mesh_size thread_count memory some_threads is_int mesh small
      inside len =
    elim (Bool-cases (length bases == 0)) [
      | inl none ↦
          rw none (_, refl, empty_bins-IsStableOrder bases mesh_size memory (==→eq _ _ none) len)
      | inr some_particles ↦
          let int_size : ltb (2 ^ 31 - 1) thread_count ≡ false = ground arith in
          let positive : (thread_count == 0) ≡ false = ground arith in
          let le : (size_max / thread_count < mesh_size) → ⊥ =
            λ lt. let over = (div-lt_iff_lt-mul some_threads).0 lt in omega arith in
          let fits : ltb (size_max / thread_count) mesh_size ≡ false = ground (arith, le) in
          rw (some_particles, int_size, positive, fits)
            (filled_bins-IsStableOrder bases mesh_size thread_count memory some_threads small inside
              len)
    ]
