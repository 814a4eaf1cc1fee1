-- ===== src/Mesh/PlanePartition.antt =====
-- include/cosmo_nbody/mesh/detail/weighted_plane_partition.hpp: contiguous ranges of plane tasks for
-- the workers, with a search for the greatest load.
pub mod Greedy
pub mod Search
mod Examples
use hyowon.Common.{
  ℕ, zero, suc, ◌+◌, ◌-◌, ◌*◌, ◌/◌, ◌%◌, ◌^◌, min, max, Bool, true, false, not, ◌&&◌, Option, none,
  some, List, [], ◌∷◌, ltb, leb, ◌==◌, if◌then◌else◌, get_or, set, length, replicate, ◌⊎◌, inl, inr,
}

pub data Error : Type 0 where
  no_plane_task no_worker work_overflow empty_range : Error

-- The largest `std::size_t`, and the largest `std::uint64_t`.
abbrev pub size_max : ℕ
size_max = 2 ^ 64 - 1

-- The loop over the weights: a weight opens a group where the current one has no room.
unfoldable pub groups_loop : List ℕ → ℕ → ℕ → ℕ → ℕ
groups_loop [] maximum_group_load groups current = groups
groups_loop (weight ∷ weights) maximum_group_load groups current =
    let opens = ltb (maximum_group_load - weight) current in
    let rest =
      groups_loop weights maximum_group_load (if opens then groups + 1 else groups)
        (if opens then weight else current + weight) in
    if ltb maximum_group_load weight
    then size_max
    else if opens && groups == size_max
    then groups
    else rest

unfoldable pub contiguous_groups_required : List ℕ → ℕ → ℕ
contiguous_groups_required weights maximum_group_load = groups_loop weights maximum_group_load 1 0

-- The total and the largest weight, or `none` where the total overflows.
unfoldable pub totals_loop : List ℕ → ℕ → ℕ → Option (ℕ × ℕ)
totals_loop [] total largest = some (total, largest)
totals_loop (weight ∷ weights) total largest =
    let rest = totals_loop weights (total + weight) (max largest weight) in
    if ltb (size_max - total) weight then none else rest

-- `while (lower < upper)`
unfoldable pub search_loop : ℕ → List ℕ → ℕ → ℕ → ℕ → ℕ
search_loop zero weights worker_count lower upper = lower
search_loop (suc fuel) weights worker_count lower upper =
    let midpoint = lower + (upper - lower) / 2 in
    let fits = leb (contiguous_groups_required weights midpoint) worker_count in
    let rest =
      search_loop fuel weights worker_count (if fits then lower else midpoint + 1)
        (if fits then midpoint else upper) in
    if ltb lower upper then rest else lower

-- The search's bounds: no range can carry less than the largest weight or the rounded-up average.
unfoldable pub optimal_maximum_load : List ℕ → ℕ → ℕ → ℕ → ℕ
optimal_maximum_load weights worker_count total largest =
    let average_floor = total / worker_count in
    let lower = max largest (average_floor + (if not (total % worker_count == 0) then 1 else 0)) in
    search_loop 64 weights worker_count lower total

-- The boundaries behind `start` where all weights are zero, for `left` workers from `worker` on.
unfoldable pub even_loop : ℕ → ℕ → ℕ → ℕ → ℕ → List ℕ
even_loop zero worker base remainder start = []
even_loop (suc left) worker base remainder start =
    let next = start + base + (if ltb worker remainder then 1 else 0) in
    next ∷ even_loop left (worker + 1) base remainder next

-- `while (task < maximum_end)`, with `left` tasks up to that end.
unfoldable pub assign_loop : ℕ → List ℕ → ℕ → ℕ → ℕ → ℕ
assign_loop zero weights optimal load task = task
assign_loop (suc left) weights optimal load task =
    let weight = get_or weights task 0 in
    let rest = assign_loop left weights optimal (load + weight) (task + 1) in
    if ltb (optimal - weight) load then task else rest

-- The boundaries behind `start`, for `left` workers that are not the last.
unfoldable pub ranges_loop : ℕ → List ℕ → ℕ → ℕ → Error ⊎ List ℕ
ranges_loop zero weights optimal start = inr (length weights ∷ [])
ranges_loop (suc left) weights optimal start =
    let maximum_end = length weights - suc left in
    let task = assign_loop (maximum_end - start) weights optimal 0 start in
    let rest : Error ⊎ List ℕ = elim (ranges_loop left weights optimal task) [
      | inl e ↦ inl e
      | inr boundaries ↦ inr (task ∷ boundaries)
    ] in
    if task == start then inl empty_range else rest

unfoldable pub partition_with : List ℕ → ℕ → ℕ × ℕ → Error ⊎ List ℕ
partition_with weights worker_count (total, largest) =
    let ranges : Error ⊎ List ℕ =
      elim (ranges_loop (worker_count - 1) weights
        (optimal_maximum_load weights worker_count total largest) 0) [
          | inl e ↦ inl e
          | inr boundaries ↦ inr (0 ∷ boundaries)
        ] in
    if total == 0
    then inr (
        0
        ∷ even_loop worker_count 0 (length weights / worker_count) (length weights % worker_count)
            0)
    else ranges

unfoldable pub weighted_contiguous_plane_boundaries : List ℕ → ℕ → Error ⊎ List ℕ
weighted_contiguous_plane_boundaries weights requested_workers =
    let worker_count = min (length weights) requested_workers in
    let partition : Error ⊎ List ℕ = elim (totals_loop weights 0 0) [
      | none ↦ inl work_overflow
      | some totals ↦ partition_with weights worker_count totals
    ] in
    if length weights == 0
    then inl no_plane_task
    else if requested_workers == 0
    then inl no_worker
    else partition
