-- ===== src/Mesh/XPlaneBins.antt =====
-- src/mesh/mass_assignment_workspace.inc: the stable order of particles by planes of cells. The plane of
-- each particle, which floating-point arithmetic gives, is an argument, and so is what the memory of the
-- order holds before. A row is the part of a thread in the arrays of all threads; the team has the planned
-- size, and its threads, which write to different places between two barriers, run in turn.
pub mod Occurrences
pub mod Counting
pub mod Offsets
pub mod Scatter
pub mod Stable
mod Examples
use hyowon.Common.{
  ℕ, zero, suc, ◌+◌, ◌-◌, ◌*◌, ◌/◌, ◌%◌, ◌^◌, Bool, ◌&&◌, List, [], ◌∷◌, ltb, leb, ◌==◌,
  if◌then◌else◌, length, get_or, set, replicate,
}
use hyowon.Common.Fallible.{Result, ok, err, ◌>>=◌}

pub data Error : Type 0 where
  threads_outside_int no_threads counts_overflow index_exceeds_uint32 : Error

abbrev pub size_max : ℕ
size_max = 2 ^ 64 - 1

abbrev pub uint32_max : ℕ
uint32_max = 2 ^ 32 - 1

-- `compact`
unfoldable pub is_compact : ℕ → Bool
is_compact particle_count = leb particle_count (uint32_max + 1)

-- `StableParticleOrder::set`
unfoldable pub set_particle : Bool → List ℕ → ℕ → ℕ → Result Error (List ℕ)
set_particle compact order cursor particle =
    if compact && ltb uint32_max particle
    then err index_exceeds_uint32
    else ok (set order cursor particle)

-- The first particle of a thread, and the end of those of the thread before.
unfoldable pub first_particle : ℕ → ℕ → ℕ → ℕ
first_particle particle_count team thread = particle_count * thread % 2 ^ 64 / team

-- `++row[base]`
abbrev pub bump : List ℕ → ℕ → List ℕ
bump row base = set row base (get_or row base 0 + 1)

-- The first loop of a thread, with `left` particles from `particle` on.
unfoldable pub count_loop : ℕ → ℕ → List ℕ → List ℕ → List ℕ
count_loop zero particle bases local_counts = local_counts
count_loop (suc left) particle bases local_counts =
    count_loop left (particle + 1) bases (bump local_counts (get_or bases particle 0))

-- The counts of the threads from `thread` on, `left` of them.
unfoldable pub thread_counts : ℕ → ℕ → ℕ → ℕ → List ℕ → List (List ℕ)
thread_counts zero thread team mesh_size bases = []
thread_counts (suc left) thread team mesh_size bases =
    let begin = first_particle (length bases) team thread in
    let end = first_particle (length bases) team (thread + 1) in
    count_loop (end - begin) begin bases (replicate mesh_size 0)
    ∷ thread_counts left (thread + 1) team mesh_size bases

-- The count of one bin over all threads.
unfoldable pub bin_count : List (List ℕ) → ℕ → ℕ
bin_count [] bin = 0
bin_count (row ∷ rows) bin = get_or row bin 0 + bin_count rows bin

-- The loop over the bins that sums their counts, `left` bins from `bin` on.
unfoldable pub offsets_loop : ℕ → ℕ → List (List ℕ) → List ℕ → List ℕ
offsets_loop zero bin rows offsets = offsets
offsets_loop (suc left) bin rows offsets =
    offsets_loop left (bin + 1) rows
      (set offsets (bin + 1) (get_or offsets bin 0 + bin_count rows bin))

-- The loop over the owners of one bin.
unfoldable pub owners_loop : ℕ → ℕ → List (List ℕ) → List (List ℕ) → List (List ℕ)
owners_loop cursor bin [] offset_rows = offset_rows
owners_loop cursor bin (counts ∷ rows) [] = []
owners_loop cursor bin (counts ∷ rows) (offset_row ∷ offset_rows) =
    set offset_row bin cursor ∷ owners_loop (cursor + get_or counts bin 0) bin rows offset_rows

-- The second loop over the bins.
unfoldable pub thread_offsets : ℕ → ℕ → List ℕ → List (List ℕ) → List (List ℕ) → List (List ℕ)
thread_offsets zero bin offsets rows offset_rows = offset_rows
thread_offsets (suc left) bin offsets rows offset_rows =
    thread_offsets left (bin + 1) offsets rows
      (owners_loop (get_or offsets bin 0) bin rows offset_rows)

-- The second loop of a thread.
unfoldable pub scatter_loop : Bool → ℕ → ℕ → List ℕ → List ℕ → List ℕ → Result Error (List ℕ)
scatter_loop compact zero particle bases local_offsets order = ok order
scatter_loop compact (suc left) particle bases local_offsets order =
    let base = get_or bases particle 0 in
    set_particle compact order (get_or local_offsets base 0) particle
    >>= (λ order'. scatter_loop compact left (particle + 1) bases (bump local_offsets base) order')

-- The second loops of the threads from `thread` on.
unfoldable pub scatter_threads :
    Bool → ℕ → ℕ → List ℕ → List (List ℕ) → List ℕ → Result Error (List ℕ)
scatter_threads compact thread team bases [] order = ok order
scatter_threads compact thread team bases (local_offsets ∷ rows) order =
    let begin = first_particle (length bases) team thread in
    let end = first_particle (length bases) team (thread + 1) in
    scatter_loop compact (end - begin) begin bases local_offsets order
    >>= (λ order'. scatter_threads compact (thread + 1) team bases rows order')

pub record XPlaneBins : Type 0 where
  pub offsets : List ℕ
  pub particles : List ℕ

-- The bins of some particles, with a team of `thread_count` threads.
unfoldable pub filled_bins : List ℕ → ℕ → ℕ → List ℕ → Result Error XPlaneBins
filled_bins bases mesh_size thread_count memory =
    let rows = thread_counts thread_count 0 thread_count mesh_size bases in
    let offsets = offsets_loop mesh_size 0 rows (replicate (mesh_size + 1) 0) in
    let offset_rows =
      thread_offsets mesh_size 0 offsets rows (replicate thread_count (replicate mesh_size 0)) in
    scatter_threads (is_compact (length bases)) 0 thread_count bases offset_rows memory
    >>= (λ order. ok (record { offsets = offsets; particles = order }))

unfoldable pub build_x_plane_bins : List ℕ → ℕ → ℕ → List ℕ → Result Error XPlaneBins
build_x_plane_bins bases mesh_size binning_thread_count memory =
    if length bases == 0
    then ok (record { offsets = replicate (mesh_size + 1) 0; particles = memory })
    else if ltb (2 ^ 31 - 1) binning_thread_count
    then err threads_outside_int
    else if binning_thread_count == 0
    then err no_threads
    else if ltb (size_max / binning_thread_count) mesh_size
    then err counts_overflow
    else filled_bins bases mesh_size binning_thread_count memory
