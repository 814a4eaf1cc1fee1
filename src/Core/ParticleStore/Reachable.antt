-- ===== src/Core/ParticleStore/Reachable.antt =====
-- include/cosmo_nbody/core/particle_store.hpp: sequences of calls on a store.
use hyowon.Common.{
  ◌≡◌, ◌≢◌, refl, Bool, true, false, not, none, List, [], ◌∷◌, arith, done, thrown, left_by, inl,
}
use hyowon.Core.ParticleStore.{
  ParticleStore, FieldValidity, valid, stale, invalid, empty_store, is_valid, layout_error,
  refusing, no_acceleration_storage, accelerations_not_valid, require_valid_acceleration_storage,
}
use hyowon.Core.ParticleStore.Population
use hyowon.Core.ParticleStore.Population.{
  after, on_masses, on_accelerations, staled, push_source, push_owned, append_owned_fields,
  append_owned_particle, append_ghost_particle, overwrite, remove_particle, shrink_all,
  resize_internal, is_finite_vec, is_other_mass, Call, run,
}
use hyowon.Core.ParticleStore.Layout.{IsValid, layout_error_iff}
use hyowon.Core.ParticleStore.Invariant.{
  set_acceleration_validity-Keeps, set_ghost_validity-Keeps, set_verified_snapshot_ic_sha256-Keeps,
  set_uniform_mass-Keeps, ensure_acceleration_storage-Keeps, release_accelerations-Keeps,
}
use hyowon.Core.ParticleStore.Resizing.{
  resize_store-Keeps, clear_ghosts-Keeps, mark_ghost_start-Keeps, reserve_ghost_capacity-Keeps,
  resize_owned-Keeps, invalid-valid,
}
use hyowon.Core.ParticleStore.Appending.{
  append_ghost_particle-Keeps, append_owned_particle-Keeps, remove_particle-Keeps,
}

-- Every call leaves a valid store valid, also where it throws.
pub run-IsValid : (c : Call) (s : ParticleStore) → IsValid s → IsValid (left_by (run c s))
unfolding run
run-IsValid (Population.call_set_acceleration_validity x) s v =
    set_acceleration_validity-Keeps x s v
run-IsValid (Population.call_set_ghost_validity x) s v = set_ghost_validity-Keeps x s v
run-IsValid (Population.call_set_verified_snapshot_ic_sha256 x) s v =
    set_verified_snapshot_ic_sha256-Keeps x s v
run-IsValid (Population.call_set_uniform_mass x) s v = set_uniform_mass-Keeps x s v
run-IsValid Population.call_ensure_acceleration_storage s v = ensure_acceleration_storage-Keeps s v
run-IsValid Population.call_release_accelerations s v = release_accelerations-Keeps s v
run-IsValid (Population.call_resize n) s v = resize_store-Keeps n s v
run-IsValid (Population.call_resize_owned x y z n) s v = resize_owned-Keeps x y z n s v
run-IsValid Population.call_mark_ghost_start s v = mark_ghost_start-Keeps s v
run-IsValid Population.call_clear_ghosts s v = clear_ghosts-Keeps s v
run-IsValid (Population.call_reserve_ghost_capacity n) s v = reserve_ghost_capacity-Keeps n s v
run-IsValid (Population.call_append_owned_particle p m a mass id) s v =
    append_owned_particle-Keeps p m a mass id s v
run-IsValid (Population.call_append_ghost_particle p mass id) s v =
    append_ghost_particle-Keeps p mass id s v
run-IsValid (Population.call_remove_particle i) s v = remove_particle-Keeps i s v

-- The store behind a sequence of calls on a new one, whose exceptions the client catches.
unfoldable pub run_all : List Call → ParticleStore → ParticleStore
run_all [] s = s
run_all (c ∷ cs) s = run_all cs (left_by (run c s))

pub empty_store-IsValid : IsValid empty_store
unfolding empty_store
empty_store-IsValid = record {
  layout = record {
    position_y = refl;
    position_z = refl;
    id = refl;
    mass = refl;
    owned = omega arith;
    momentum = (refl, refl, refl);
    acceleration = (refl, refl, refl);
  };
  mass = tt;
  digest = inl refl;
  stored = invalid-valid true;
}

pub run_all-IsValid : (cs : List Call) (s : ParticleStore) → IsValid s → IsValid (run_all cs s)
unfolding run_all
run_all-IsValid [] s v = v
run_all-IsValid (c ∷ cs) s v = run_all-IsValid cs (left_by (run c s)) (run-IsValid c s v)

available :
    (accel : FieldValidity) (enabled : Bool) (s : ParticleStore)
    → (accel ≡ valid → enabled ≡ true)
    → refusing
        (not (is_valid accel))
        accelerations_not_valid
        s
        (refusing (not enabled) no_acceleration_storage s (done s))
      ≢ thrown no_acceleration_storage s
available valid true s h e = cc
available valid false s h e = cc (h refl)
available stale b s h e = cc
available invalid b s h e = cc

-- Behind every sequence of calls on a new store, thrown exceptions included, the layout validates,
-- and reading the accelerations never finds a valid field without storage.
pub run_all-layout :
    (cs : List Call)
    → (layout_error (run_all cs empty_store) ≡ none)
      × (require_valid_acceleration_storage (run_all cs empty_store)
          ≢ thrown no_acceleration_storage (run_all cs empty_store))
unfolding require_valid_acceleration_storage
run_all-layout cs =
    let v = run_all-IsValid cs empty_store empty_store-IsValid in
    let fine = (layout_error_iff (run_all cs empty_store)).1 v.layout in
    (fine, rw fine (available _ _ (run_all cs empty_store) v.stored))
