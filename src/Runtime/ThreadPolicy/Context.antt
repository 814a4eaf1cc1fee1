-- ===== src/Runtime/ThreadPolicy/Context.antt =====
-- src/runtime/thread_policy.cpp: the OpenMP state around a context.
use hyowon.Common.{ℕ, ◌≡◌, refl, ◌∙◌, false, ℤ, pos, Bool-cases, inl, inr}
use hyowon.Common.Fallible.{Result, ok, err}
use hyowon.Runtime.ThreadPolicy.{
  OpenMp, HostThreadContext, HostThreadPolicy, Error, configured, given_back, same_size, entered,
  with_policy, host_thread_context, restore,
}

-- Setting a control variable to a value that it once had gives it that value, and a call sets no variable
-- but its own.
pub record IsOpenMp (omp : OpenMp) : Type 0 where
  pub dynamic_set :
      (s t : omp.State)
      → omp.get_dynamic (omp.set_dynamic (omp.get_dynamic t) s) ≡ omp.get_dynamic t
  pub levels_set :
      (s t : omp.State)
      → omp.get_max_active_levels (omp.set_max_active_levels (omp.get_max_active_levels t) s)
        ≡ omp.get_max_active_levels t
  pub threads_set :
      (s t : omp.State)
      → omp.get_max_threads (omp.set_num_threads (omp.get_max_threads t) s) ≡ omp.get_max_threads t
  pub dynamic-levels :
      (v : ℤ) (s : omp.State) → omp.get_dynamic (omp.set_max_active_levels v s) ≡ omp.get_dynamic s
  pub dynamic-threads :
      (v : ℤ) (s : omp.State) → omp.get_dynamic (omp.set_num_threads v s) ≡ omp.get_dynamic s
  pub levels-threads :
      (v : ℤ) (s : omp.State)
      → omp.get_max_active_levels (omp.set_num_threads v s) ≡ omp.get_max_active_levels s

-- The control variables that the two states agree on.
pub record SameControls (omp : OpenMp) (s t : omp.State) : Type 0 where
  pub same_dynamic : omp.get_dynamic t ≡ omp.get_dynamic s
  pub same_levels : omp.get_max_active_levels t ≡ omp.get_max_active_levels s
  pub same_threads : omp.get_max_threads t ≡ omp.get_max_threads s

-- A context that was made gives the variables back from whatever state it is destroyed in, once; an
-- exception leaves them as they were.
pub data Restores (omp : OpenMp) (s : omp.State)
    : Result Error HostThreadContext × omp.State → Type 0 where
  made :
      (c : HostThreadContext) (t : omp.State)
      → ((u : omp.State) → SameControls omp s (restore omp c u).1)
      → ((u : omp.State) → (restore omp c u).0.changed ≡ false)
      → Restores omp s (ok c, t)
  refused : (e : Error) (t : omp.State) → SameControls omp s t → Restores omp s (err e, t)

given_back-SameControls :
    (omp : OpenMp) (s u : omp.State)
    → IsOpenMp omp
    → SameControls omp s
        (given_back omp (omp.get_dynamic s) (omp.get_max_active_levels s) (omp.get_max_threads s) u)
unfolding given_back
given_back-SameControls omp s u law = record {
  same_dynamic = law.dynamic-threads _ _ ∙ law.dynamic-levels _ _ ∙ law.dynamic_set u s;
  same_levels = law.levels-threads _ _ ∙ law.levels_set _ s;
  same_threads = law.threads_set _ s;
}

entered-Restores :
    (omp : OpenMp) (policy : HostThreadPolicy) (s : omp.State)
    → IsOpenMp omp
    → Restores omp s (entered omp policy s)
unfolding entered restore
entered-Restores omp policy s law =
    let t = configured omp (pos policy.effective_threads) s in
    elim (Bool-cases
      (same_size omp (omp.team_size t (pos policy.effective_threads)) policy.effective_threads)) [
        | inl formed ↦ rw formed (made _ t (λ u. given_back-SameControls omp s u law) (λ u. refl))
        | inr other ↦ rw other (refused _ _ (given_back-SameControls omp s t law))
      ]

with_policy-Restores :
    (omp : OpenMp) (r : Result Error HostThreadPolicy) (s : omp.State)
    → IsOpenMp omp
    → Restores omp s (with_policy omp r s)
with_policy-Restores omp (ok policy) s law = entered-Restores omp policy s law
with_policy-Restores omp (err e) s law =
    refused e s (record { same_dynamic = refl; same_levels = refl; same_threads = refl })

-- Where the setters of OpenMP set their own variable alone, the constructor either throws and leaves the
-- three control variables as they were, or makes a context whose destructor gives them back, from
-- whatever state it is called in.
pub host_thread_context-Restores :
    (omp : OpenMp) (requested_threads ceiling : ℕ) (s : omp.State)
    → IsOpenMp omp
    → Restores omp s (host_thread_context omp requested_threads ceiling s)
unfolding host_thread_context
host_thread_context-Restores omp requested_threads ceiling s law = with_policy-Restores omp _ s law
