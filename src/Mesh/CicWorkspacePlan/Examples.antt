-- ===== src/Mesh/CicWorkspacePlan/Examples.antt =====
-- Runs of the plan of a deposit, and its theorem at a concrete input.
use hyowon.Common.{◌+◌, ◌≡◌, refl}
use hyowon.Common.Fallible.{ok, err, ◌>>=◌}
use hyowon.Mesh.CicWorkspacePlan.{
  overflow, plane_tasks_outside, checked_add, checked_multiply, element_bytes,
  cic_stable_index_bytes, empty_plan, binning_threads, active_plane_workers, planned,
  cic_deposit_memory_plan,
}

program : Unit {0}
unfolding checked_add checked_multiply element_bytes cic_stable_index_bytes empty_plan
    binning_threads active_plane_workers planned cic_deposit_memory_plan
program = tt

plan-run :
    (cic_deposit_memory_plan 1000 16 8 4 >>= (λ plan. ok plan.peak_bytes))
    ≡ ok (4000 + 136 + 1024 + 64 + 40)
unfolding program
plan-run = refl

too_large-run : cic_deposit_memory_plan (0x2000_0000_0000_0000) 16 8 4 ≡ err overflow
unfolding program
too_large-run = refl

tasks-run : cic_deposit_memory_plan 1000 16 17 4 ≡ err plane_tasks_outside
unfolding program
tasks-run = refl
