-- ===== src/Runtime/ThreadPolicy/Examples.antt =====
-- Runs of the thread policy, and its theorems at concrete inputs.
use hyowon.Common.{◌≡◌, refl, true, ℤ, pos}
use hyowon.Common.Fallible.{err}
use hyowon.Runtime.ThreadPolicy.{
  HostThreadPolicyInput, OpenMp, exceeds_thread_limit, positive_or_one, at_least_one, serial_policy,
  capacity, resolve_host_thread_policy, host_parallel_worker_capacity,
  should_use_host_parallel_team, capture_host_thread_policy_input, configured, given_back, entered,
  host_thread_context, restore,
}
use hyowon.Runtime.ThreadPolicy.Resolve.{Resolves, resolve_host_thread_policy-Resolves}
use hyowon.Runtime.ThreadPolicy.Context.{IsOpenMp, Restores, host_thread_context-Restores}

program : Unit {0}
unfolding positive_or_one at_least_one serial_policy capacity resolve_host_thread_policy
    host_parallel_worker_capacity should_use_host_parallel_team capture_host_thread_policy_input
    configured given_back entered host_thread_context restore
program = tt

-- The three control variables.
abbrev controls : OpenMp
controls = record {
  State = ℤ × ℤ × ℤ;
  get_dynamic = λ s. s.0;
  get_max_active_levels = λ s. s.1;
  get_max_threads = λ s. s.2;
  get_num_procs = λ s. pos 8;
  get_thread_limit = λ s. pos 16;
  set_dynamic = λ v s. (v, s.1, s.2);
  set_max_active_levels = λ v s. (s.0, v, s.2);
  set_num_threads = λ v s. (s.0, s.1, v);
  team_size = λ s n. n;
}

controls-IsOpenMp : IsOpenMp controls
controls-IsOpenMp = record {
  dynamic_set = λ s t. refl;
  levels_set = λ s t. refl;
  threads_set = λ s t. refl;
  dynamic-levels = λ v s. refl;
  dynamic-threads = λ v s. refl;
  levels-threads = λ v s. refl;
}

abbrev start : ℤ × ℤ × ℤ
start = (pos 1, pos 3, pos 4)

host_thread_context-run : (host_thread_context controls 6 0 start).1 ≡ (pos 0, pos 1, pos 6)
unfolding program
host_thread_context-run = refl

too_many-run : (host_thread_context controls 17 0 start).0 ≡ err exceeds_thread_limit
unfolding program
too_many-run = refl

worker_capacity-run : host_parallel_worker_capacity (pos 4) 3 ≡ 3
unfolding program
worker_capacity-run = refl

host_thread_context-Restores_example :
    Restores controls start (host_thread_context controls 0 2 start)
host_thread_context-Restores_example =
    host_thread_context-Restores controls 0 2 start controls-IsOpenMp

abbrev six_of_eight : HostThreadPolicyInput
six_of_eight = record {
  requested_threads = 0;
  openmp_available = true;
  runtime_max_threads = 6;
  available_processors = 8;
  thread_limit = 16;
  automatic_capacity_ceiling = 0;
}

resolve_host_thread_policy-Resolves_example :
    Resolves six_of_eight (resolve_host_thread_policy six_of_eight)
resolve_host_thread_policy-Resolves_example = resolve_host_thread_policy-Resolves six_of_eight
