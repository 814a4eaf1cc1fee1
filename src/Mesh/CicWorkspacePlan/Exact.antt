-- ===== src/Mesh/CicWorkspacePlan/Exact.antt =====
-- src/mesh/cic_workspace_plan.cpp: the plan's sizes are exact, or too large for 64 bits.
use hyowon.Common.{ℕ, ◌+◌, ◌*◌, ◌^◌, ◌<◌, ◌≤◌, ◌≡◌, ◌⊎◌, max}
use hyowon.Common.Fallible.{Result, ok, err}
use hyowon.Mesh.CicWorkspacePlan.{
  Error, no_mesh, plane_tasks_outside, no_thread, overflow, element_bytes, CicDepositMemoryPlan,
  empty_plan, binning_threads, active_plane_workers,
}

-- A checked result: the exact number, or the exception if that is no word.
data IsChecked (x : ℕ) : Result Error ℕ → Type 0 where
  fits : x < 2 ^ 64 → IsChecked x (ok x)
  over : 2 ^ 64 ≤ x → IsChecked x (err overflow)

-- A plan with this exact peak, or the exception if that is no word.
data HasPeak (total binning active : ℕ) : Result Error CicDepositMemoryPlan → Type 0 where
  at_peak :
      (p : CicDepositMemoryPlan)
      → total < 2 ^ 64
      → p.peak_bytes ≡ total
      → p.binning_thread_count ≡ binning
      → p.active_plane_worker_count ≡ active
      → HasPeak total binning active (ok p)
  past_peak : 2 ^ 64 ≤ total → HasPeak total binning active (err overflow)

-- The bytes of all arrays together.
abbrev pub exact_peak : ℕ → ℕ → ℕ → ℕ → ℕ
exact_peak n mesh_size plane_tasks maximum_threads =
    n * element_bytes n
    + (mesh_size + 1) * 8
    + binning_threads n mesh_size maximum_threads * mesh_size * 2 * 8
    + (plane_tasks * 8 + (active_plane_workers n plane_tasks maximum_threads + 1) * 8)

-- The arguments for which a plan is made.
abbrev pub IsPlannable : ℕ → ℕ → ℕ → Type 0
IsPlannable mesh_size plane_tasks maximum_threads =
    (0 < mesh_size) × (0 < plane_tasks) × (plane_tasks ≤ mesh_size) × (0 < maximum_threads)

-- The plan, or the exception, by the arguments: the constructors exclude each other.
pub data Plans (n mesh_size plane_tasks maximum_threads : ℕ)
    : Result Error CicDepositMemoryPlan → Type 0 where
  without_mesh : mesh_size ≡ 0 → Plans n mesh_size plane_tasks maximum_threads (err no_mesh)
  wrong_tasks :
      0 < mesh_size
      → (plane_tasks ≡ 0) ⊎ (mesh_size < plane_tasks)
      → Plans n mesh_size plane_tasks maximum_threads (err plane_tasks_outside)
  without_thread :
      0 < mesh_size
      → (0 < plane_tasks) × (plane_tasks ≤ mesh_size)
      → maximum_threads ≡ 0
      → Plans n mesh_size plane_tasks maximum_threads (err no_thread)
  empty :
      IsPlannable mesh_size plane_tasks maximum_threads
      → n ≡ 0
      → Plans n mesh_size plane_tasks maximum_threads (ok empty_plan)
  exact :
      (p : CicDepositMemoryPlan)
      → IsPlannable mesh_size plane_tasks maximum_threads
      → 0 < n
      → p.peak_bytes ≡ exact_peak n mesh_size plane_tasks maximum_threads
      → p.peak_bytes < 2 ^ 64
      → (1 ≤ p.binning_thread_count) × (p.binning_thread_count ≤ maximum_threads)
      → p.binning_thread_count * mesh_size ≤ max mesh_size n
      → (1 ≤ p.active_plane_worker_count) × (p.active_plane_worker_count ≤ plane_tasks)
      → p.active_plane_worker_count ≤ maximum_threads
      → Plans n mesh_size plane_tasks maximum_threads (ok p)
  too_large :
      IsPlannable mesh_size plane_tasks maximum_threads
      → 0 < n
      → 2 ^ 64 ≤ exact_peak n mesh_size plane_tasks maximum_threads
      → Plans n mesh_size plane_tasks maximum_threads (err overflow)
