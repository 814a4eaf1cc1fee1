-- ===== src/Mesh/CicWorkspacePlan.antt =====
-- src/mesh/cic_workspace_plan.cpp, and `cic_stable_index_bytes` of src/mesh/mass_assignment_workspace.inc,
-- where `std::size_t` and `std::uint64_t` have eight bytes.
pub mod Exact
mod Examples
use hyowon.Common.{
  ℕ, ◌+◌, ◌-◌, ◌*◌, ◌/◌, ◌^◌, min, max, not, ◌&&◌, ◌||◌, ltb, leb, ◌==◌, if◌then◌else◌,
}
use hyowon.Common.Fallible.{Result, ok, err, ◌>>=◌}

pub data Error : Type 0 where
  no_mesh plane_tasks_outside no_thread overflow : Error

abbrev pub uint64_max : ℕ
uint64_max = 2 ^ 64 - 1

abbrev pub int_limit : ℕ
int_limit = 2 ^ 31 - 1

unfoldable pub checked_add : ℕ → ℕ → Result Error ℕ
checked_add lhs rhs = if ltb (uint64_max - lhs) rhs then err overflow else ok (lhs + rhs)

unfoldable pub checked_multiply : ℕ → ℕ → Result Error ℕ
checked_multiply lhs rhs =
    if not (lhs == 0) && ltb (uint64_max / lhs) rhs then err overflow else ok (lhs * rhs)

-- The bytes of one index.
unfoldable pub element_bytes : ℕ → ℕ
element_bytes particle_count = if leb particle_count (2 ^ 32) then 4 else 8

unfoldable pub cic_stable_index_bytes : ℕ → Result Error ℕ
cic_stable_index_bytes particle_count =
    if not (particle_count == 0) && ltb (uint64_max / particle_count) (element_bytes particle_count)
    then err overflow
    else ok (particle_count * element_bytes particle_count)

pub record CicDepositMemoryPlan : Type 0 where
  pub binning_thread_count : ℕ
  pub requested_plane_worker_count : ℕ
  pub active_plane_worker_count : ℕ
  pub stable_index_bytes : ℕ
  pub bin_offset_bytes : ℕ
  pub bin_thread_metadata_bytes : ℕ
  pub retained_bin_bytes : ℕ
  pub task_particle_visit_bytes : ℕ
  pub worker_boundary_bytes : ℕ
  pub call_local_bytes : ℕ
  pub peak_bytes : ℕ

unfoldable pub empty_plan : CicDepositMemoryPlan
empty_plan = record {
  binning_thread_count = 0;
  requested_plane_worker_count = 0;
  active_plane_worker_count = 0;
  stable_index_bytes = 0;
  bin_offset_bytes = 0;
  bin_thread_metadata_bytes = 0;
  retained_bin_bytes = 0;
  task_particle_visit_bytes = 0;
  worker_boundary_bytes = 0;
  call_local_bytes = 0;
  peak_bytes = 0;
}

unfoldable pub binning_threads : ℕ → ℕ → ℕ → ℕ
binning_threads particle_count mesh_size maximum_threads =
    let available_threads = min maximum_threads int_limit in
    let metadata_amortized_workers = max 1 (particle_count / mesh_size) in
    max (min (min available_threads particle_count) metadata_amortized_workers) 1

unfoldable pub active_plane_workers : ℕ → ℕ → ℕ → ℕ
active_plane_workers particle_count plane_tasks maximum_threads =
    let available_threads = min maximum_threads int_limit in
    let maximum_nonempty_plane_tasks =
      if ltb (uint64_max / 2) particle_count then uint64_max else 2 * particle_count in
    max (min (min available_threads plane_tasks) maximum_nonempty_plane_tasks) 1

-- The plan of a deposit of some particles.
unfoldable pub planned : ℕ → ℕ → ℕ → ℕ → Result Error CicDepositMemoryPlan
planned particle_count mesh_size plane_tasks maximum_threads =
    let binning = binning_threads particle_count mesh_size maximum_threads in
    let active = active_plane_workers particle_count plane_tasks maximum_threads in
    cic_stable_index_bytes particle_count >>= (λ stable_index_bytes.
      checked_add mesh_size 1 >>= (λ bin_offset_count.
        checked_multiply bin_offset_count 8 >>= (λ bin_offset_bytes.
          checked_multiply binning mesh_size >>= (λ thread_bin_count.
            checked_multiply thread_bin_count 2 >>= (λ array_count.
              checked_multiply array_count 8 >>= (λ bin_thread_metadata_bytes.
                checked_add stable_index_bytes bin_offset_bytes >>= (λ indices_and_offsets.
                  checked_add indices_and_offsets bin_thread_metadata_bytes
                  >>= (λ retained_bin_bytes.
                      checked_multiply plane_tasks 8 >>= (λ task_particle_visit_bytes.
                        checked_add active 1 >>= (λ worker_boundary_count.
                          checked_multiply worker_boundary_count 8 >>= (λ worker_boundary_bytes.
                            checked_add task_particle_visit_bytes worker_boundary_bytes
                            >>= (λ call_local_bytes.
                                checked_add retained_bin_bytes call_local_bytes >>= (λ peak_bytes.
                                  ok (record {
                                    binning_thread_count = binning;
                                    requested_plane_worker_count =
                                        min (min maximum_threads int_limit) plane_tasks;
                                    active_plane_worker_count = active;
                                    stable_index_bytes = stable_index_bytes;
                                    bin_offset_bytes = bin_offset_bytes;
                                    bin_thread_metadata_bytes = bin_thread_metadata_bytes;
                                    retained_bin_bytes = retained_bin_bytes;
                                    task_particle_visit_bytes = task_particle_visit_bytes;
                                    worker_boundary_bytes = worker_boundary_bytes;
                                    call_local_bytes = call_local_bytes;
                                    peak_bytes = peak_bytes;
                                  }))))))))))))))

unfoldable pub cic_deposit_memory_plan : ℕ → ℕ → ℕ → ℕ → Result Error CicDepositMemoryPlan
cic_deposit_memory_plan particle_count mesh_size plane_tasks maximum_threads =
    if mesh_size == 0
    then err no_mesh
    else if plane_tasks == 0 || ltb mesh_size plane_tasks
    then err plane_tasks_outside
    else if maximum_threads == 0
    then err no_thread
    else if particle_count == 0
    then ok empty_plan
    else planned particle_count mesh_size plane_tasks maximum_threads
