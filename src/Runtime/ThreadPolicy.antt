-- ===== src/Runtime/ThreadPolicy.antt =====
-- src/runtime/thread_policy.cpp and its header, in a build with OpenMP or without. What the OpenMP
-- library keeps is a parameter: its state, with the calls that read and write it.

pub mod Resolve
pub mod Context
mod Examples
use hyowon.Common.{
  ℕ, ◌+◌, ◌-◌, ◌^◌, min, max, Bool, true, false, not, ltb, leb, ◌==◌, if◌then◌else◌, ◌&&◌, ℤ, pos,
  pos_part,
}
use hyowon.Common.Fallible.{Result, ok, err, ◌>>=◌}

pub data Reason : Type 0 where
  auto_serial_no_openmp explicit_serial_no_openmp : Reason
  auto_openmp_capacity_with_execution_topology_ceiling auto_openmp_runtime_capacity : Reason
  explicit_runtime_num_threads : Reason

pub data Error : Type 0 where
  requires_openmp outside_int_range exceeds_thread_limit team_of_other_size : Error

pub record HostThreadPolicyInput : Type 0 where
  pub requested_threads : ℕ
  pub openmp_available : Bool
  pub runtime_max_threads : ℕ
  pub available_processors : ℕ
  pub thread_limit : ℕ
  pub automatic_capacity_ceiling : ℕ

pub record HostThreadPolicy : Type 0 where
  pub requested_threads : ℕ
  pub effective_threads : ℕ
  pub automatic_capacity : ℕ
  pub automatic : Bool
  pub reason : Reason

abbrev pub int_max : ℕ
int_max = 2 ^ 31 - 1

unfoldable pub positive_or_one : ℕ → ℕ
positive_or_one value = max value 1

-- `std::max(1, value)` of an `int`, as a `std::size_t`.
unfoldable pub at_least_one : ℤ → ℕ
at_least_one value = max 1 (pos_part value)

-- The policy of a build with no OpenMP.
unfoldable pub serial_policy : ℕ → Result Error HostThreadPolicy
serial_policy requested =
    if ltb 1 requested
    then err requires_openmp
    else ok (record {
      requested_threads = requested;
      effective_threads = 1;
      automatic_capacity = 1;
      automatic = requested == 0;
      reason = if requested == 0 then auto_serial_no_openmp else explicit_serial_no_openmp;
    })

-- `policy.automatic_capacity`
unfoldable pub capacity : HostThreadPolicyInput → ℕ
capacity input =
    let shared =
      min
        (min (positive_or_one input.runtime_max_threads)
          (positive_or_one input.available_processors))
        (positive_or_one input.thread_limit) in
    if ltb 0 input.automatic_capacity_ceiling
    then min shared input.automatic_capacity_ceiling
    else shared

unfoldable pub resolve_host_thread_policy : HostThreadPolicyInput → Result Error HostThreadPolicy
resolve_host_thread_policy input =
    let automatic_reason =
      if ltb 0 input.automatic_capacity_ceiling
      then auto_openmp_capacity_with_execution_topology_ceiling
      else auto_openmp_runtime_capacity in
    if not input.openmp_available
    then serial_policy input.requested_threads
    else if input.requested_threads == 0
    then ok (record {
      requested_threads = input.requested_threads;
      effective_threads = capacity input;
      automatic_capacity = capacity input;
      automatic = true;
      reason = automatic_reason;
    })
    else if ltb int_max input.requested_threads
    then err outside_int_range
    else if ltb (positive_or_one input.thread_limit) input.requested_threads
    then err exceeds_thread_limit
    else ok (record {
      requested_threads = input.requested_threads;
      effective_threads = input.requested_threads;
      automatic_capacity = capacity input;
      automatic = false;
      reason = explicit_runtime_num_threads;
    })

-- `omp_get_max_threads()` is the first argument.
unfoldable pub host_parallel_worker_capacity : ℤ → ℕ → ℕ
unfolding at_least_one
host_parallel_worker_capacity max_threads independent_items =
    if independent_items == 0 then 1 else max 1 (min (at_least_one max_threads) independent_items)

unfoldable pub should_use_host_parallel_team : ℤ → ℕ → Bool
unfolding at_least_one
should_use_host_parallel_team max_threads independent_items =
    ltb 1 (at_least_one max_threads) && leb (at_least_one max_threads) independent_items

-- The OpenMP library: its control variables, and the size of the team that it forms.
pub record OpenMp : Type 1 where
  pub State : Type 0
  pub get_dynamic : State → ℤ
  pub get_max_active_levels : State → ℤ
  pub get_max_threads : State → ℤ
  pub get_num_procs : State → ℤ
  pub get_thread_limit : State → ℤ
  pub set_dynamic : ℤ → State → State
  pub set_max_active_levels : ℤ → State → State
  pub set_num_threads : ℤ → State → State
  pub team_size : State → ℤ → ℤ

pub record HostThreadContext : Type 0 where
  pub thread_count : ℕ
  pub requested_thread_count : ℕ
  pub automatic_thread_capacity : ℕ
  pub automatic_thread_count : Bool
  pub thread_selection_reason : Reason
  pub previous_dynamic : ℤ
  pub previous_max_active_levels : ℤ
  pub previous_max_threads : ℤ
  pub changed : Bool

module _ (omp : OpenMp) where
  open omp use {
    State, get_dynamic, get_max_active_levels, get_max_threads, get_num_procs, get_thread_limit,
    set_dynamic, set_max_active_levels, set_num_threads, team_size,
  }

  unfoldable pub capture_host_thread_policy_input : ℕ → ℕ → State → HostThreadPolicyInput
  unfolding at_least_one
  capture_host_thread_policy_input requested_threads automatic_capacity_ceiling s = record {
    requested_threads = requested_threads;
    openmp_available = true;
    runtime_max_threads = at_least_one (get_max_threads s);
    available_processors = at_least_one (get_num_procs s);
    thread_limit = at_least_one (get_thread_limit s);
    automatic_capacity_ceiling = automatic_capacity_ceiling;
  }

  -- The control variables for a team of `requested` threads.
  unfoldable pub configured : ℤ → State → State
  configured requested s =
      set_num_threads requested (set_max_active_levels (pos 1) (set_dynamic (pos 0) s))

  -- The three variables given back.
  unfoldable pub given_back : ℤ → ℤ → ℤ → State → State
  given_back previous_dynamic previous_max_active_levels previous_max_threads s =
      set_num_threads previous_max_threads
        (set_max_active_levels previous_max_active_levels (set_dynamic previous_dynamic s))

  -- `observed != requested`
  abbrev pub same_size : ℤ → ℕ → Bool
  same_size (pos observed) requested = observed == requested
  same_size other requested = false

  -- The rest of the constructor, behind the policy.
  unfoldable pub entered : HostThreadPolicy → State → Result Error HostThreadContext × State
  entered policy s =
      let requested = policy.effective_threads in
      let t = configured (pos requested) s in
      if same_size (team_size t (pos requested)) requested
      then (
        ok (record {
          thread_count = requested;
          requested_thread_count = policy.requested_threads;
          automatic_thread_capacity = policy.automatic_capacity;
          automatic_thread_count = policy.automatic;
          thread_selection_reason = policy.reason;
          previous_dynamic = get_dynamic s;
          previous_max_active_levels = get_max_active_levels s;
          previous_max_threads = get_max_threads s;
          changed = true;
        }),
        t,
      )
      else (
        err team_of_other_size,
        given_back (get_dynamic s) (get_max_active_levels s) (get_max_threads s) t,
      )

  abbrev pub with_policy :
      Result Error HostThreadPolicy → State → Result Error HostThreadContext × State
  with_policy (err e) s = (err e, s)
  with_policy (ok policy) s = entered policy s

  unfoldable pub host_thread_context : ℕ → ℕ → State → Result Error HostThreadContext × State
  host_thread_context requested_threads automatic_capacity_ceiling s =
      with_policy
        (resolve_host_thread_policy
          (capture_host_thread_policy_input requested_threads automatic_capacity_ceiling s))
        s

  unfoldable pub restore : HostThreadContext → State → HostThreadContext × State
  restore c s =
      if c.changed
      then (
        record c { changed = false },
        given_back c.previous_dynamic c.previous_max_active_levels c.previous_max_threads s,
      )
      else (c, s)
