-- ===== src/Runtime/ThreadPolicy/Resolve.antt =====
-- src/runtime/thread_policy.cpp: which policies are resolved, and how many workers a loop gets.
use hyowon.Common.{
  ltb→lt, ==→eq, ℕ, ◌≤◌, ◌<◌, ◌≡◌, refl, max, true, false, ltb, ◌==◌, arith, tests, ◌⊎◌, inl, inr,
  Bool-cases, ℤ,
}
use hyowon.Common.Fallible.{Result, ok, err}
use hyowon.Runtime.ThreadPolicy.{
  HostThreadPolicyInput, HostThreadPolicy, Error, int_max, positive_or_one, at_least_one, capacity,
  serial_policy, resolve_host_thread_policy, host_parallel_worker_capacity,
  should_use_host_parallel_team,
}

-- No bound of the input is below `k`.
pub record Admits (input : HostThreadPolicyInput) (k : ℕ) : Type 0 where
  pub by_runtime : k ≤ max input.runtime_max_threads 1
  pub by_processors : k ≤ max input.available_processors 1
  pub by_limit : k ≤ max input.thread_limit 1
  pub by_ceiling : 0 < input.automatic_capacity_ceiling → k ≤ input.automatic_capacity_ceiling

capacity-Admits : (input : HostThreadPolicyInput) → Admits input (capacity input)
unfolding capacity positive_or_one
capacity-Admits input = record {
  by_runtime = ground arith;
  by_processors = ground arith;
  by_limit = ground arith;
  by_ceiling = λ h. ground arith;
}

capacity_greatest : (input : HostThreadPolicyInput) (k : ℕ) → Admits input k → k ≤ capacity input
unfolding capacity positive_or_one
capacity_greatest input k h = elim (Bool-cases (ltb 0 input.automatic_capacity_ceiling)) [
  | inl bounded ↦
      let top = h.by_ceiling (ltb→lt _ _ bounded) in
      ground (arith, h.by_runtime, h.by_processors, h.by_limit)
  | inr free ↦ ground (arith, h.by_runtime, h.by_processors, h.by_limit)
]

capacity_positive : (input : HostThreadPolicyInput) → 1 ≤ capacity input
unfolding capacity positive_or_one
capacity_positive input = ground arith

-- The policy or the exception, by the request and the bounds.
pub data Resolves (input : HostThreadPolicyInput) : Result Error HostThreadPolicy → Type 0 where
  automatic :
      (p : HostThreadPolicy)
      → input.openmp_available ≡ true
      → input.requested_threads ≡ 0
      → 1 ≤ p.effective_threads
      → Admits input p.effective_threads
      → ((k : ℕ) → Admits input k → k ≤ p.effective_threads)
      → Resolves input (ok p)
  requested :
      (p : HostThreadPolicy)
      → input.openmp_available ≡ true
      → 1 ≤ input.requested_threads
      → p.effective_threads ≡ input.requested_threads
      → p.effective_threads ≤ max input.thread_limit 1
      → p.effective_threads ≤ int_max
      → Resolves input (ok p)
  serial :
      (p : HostThreadPolicy)
      → input.openmp_available ≡ false
      → input.requested_threads ≤ 1
      → p.effective_threads ≡ 1
      → Resolves input (ok p)
  refused_serial :
      (e : Error)
      → input.openmp_available ≡ false
      → 1 < input.requested_threads
      → Resolves input (err e)
  refused :
      (e : Error)
      → input.openmp_available ≡ true
      → (int_max < input.requested_threads) ⊎ (max input.thread_limit 1 < input.requested_threads)
      → Resolves input (err e)

-- Without OpenMP one thread is resolved, and a request of more is refused. With OpenMP an automatic
-- request gets the greatest count within all bounds, at least one, and any other request gets exactly
-- its count, or is refused where that exceeds the thread limit or an `int`.
pub resolve_host_thread_policy-Resolves :
    (input : HostThreadPolicyInput) → Resolves input (resolve_host_thread_policy input)
unfolding resolve_host_thread_policy serial_policy positive_or_one
resolve_host_thread_policy-Resolves input = elim (Bool-cases input.openmp_available) [
  | inr absent ↦ elim (Bool-cases (ltb 1 input.requested_threads)) [
    | inl many ↦ simp (absent, many) (refused_serial _ absent (omega tests))
    | inr few ↦ simp (absent, few) (serial _ absent (omega tests) refl)
  ]
  | inl present ↦ elim (Bool-cases (input.requested_threads == 0)) [
    | inl any ↦
        simp (present, any)
          (automatic _ present (==→eq _ _ any) (capacity_positive input) (capacity-Admits input)
            (capacity_greatest input))
    | inr given ↦ elim (Bool-cases (ltb int_max input.requested_threads)) [
      | inl large ↦ simp (present, given, large) (refused _ present (inl (omega tests)))
      | inr fits ↦ elim (Bool-cases (ltb (max input.thread_limit 1) input.requested_threads)) [
        | inl over ↦ simp (present, given, fits, over) (refused _ present (inr (omega tests)))
        | inr within ↦
            simp (present, given, fits, within)
              (requested _ present (ground arith) refl (omega tests) (omega tests))
      ]
    ]
  ]
]

-- A loop over some items gets at least one worker, and no more than there are items or threads; a team is
-- formed only where each thread of several has an item.
pub host_parallel_worker_capacity_bounds :
    (max_threads : ℤ) (items : ℕ)
    → (1 ≤ host_parallel_worker_capacity max_threads items)
      × (1 ≤ items → host_parallel_worker_capacity max_threads items ≤ items)
      × (host_parallel_worker_capacity max_threads items ≤ at_least_one max_threads)
      × (should_use_host_parallel_team max_threads items ≡ true
          → (1 < host_parallel_worker_capacity max_threads items))
unfolding host_parallel_worker_capacity should_use_host_parallel_team
host_parallel_worker_capacity_bounds max_threads items =
    (ground arith, λ h. ground arith, ground arith, λ h. ground arith)
