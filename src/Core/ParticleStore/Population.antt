-- ===== src/Core/ParticleStore/Population.antt =====
-- include/cosmo_nbody/core/particle_store.hpp: the calls that change how many particles there are.
use hyowon.Common.{
  ℕ, ◌+◌, ◌-◌, Bool, false, not, ◌&&◌, ◌||◌, Option, none, some, List, ltb, leb, ◌==◌,
  if◌then◌else◌, Outcome, done, thrown,
}
use hyowon.Math.ExactPositiveSum.{is_finite, is_bad_term}
use hyowon.Core.Columns.{Vec3, Columns, resize, push_back, copy, each, push_each, no_columns}
use hyowon.Core.ParticleStore.{
  ParticleStore, FieldValidity, valid, stale, invalid, Error, ghosts_present, accelerations_valid,
  index_out_of_range, size_overflow, not_an_owned_prefix, bad_fields, bad_acceleration, other_mass,
  size, size_max, is_some, is_valid, validated, refusing, set_acceleration_validity,
  set_ghost_validity, set_verified_snapshot_ic_sha256, set_uniform_mass,
  ensure_acceleration_storage, release_accelerations,
}

-- `if (!uniform_mass.has_value()) f(masses)`
abbrev pub on_masses : ParticleStore → (List ℕ → List ℕ) → List ℕ
on_masses s f = if is_some s.uniform_mass then s.masses else f s.masses

-- `if (enabled) f(each acceleration)`
abbrev pub on_accelerations : Bool → ParticleStore → (List ℕ → List ℕ) → Columns
on_accelerations enabled s f = if enabled then each f s.accelerations else s.accelerations

-- A valid field that no longer stands for the current sources.
abbrev pub staled : FieldValidity → FieldValidity
staled valid = stale
staled stale = stale
staled invalid = invalid

-- `resize(n)` once its guards have passed.
unfoldable pub resize_all : ℕ → ParticleStore → ParticleStore
resize_all n s = record s {
  positions = each (resize n) s.positions;
  momenta = each (resize n) s.momenta;
  masses = on_masses s (resize n);
  ids = resize n s.ids;
  accelerations = no_columns;
  acceleration_storage_enabled = false;
  num_owned_particles = n;
  accel_validity = invalid;
  ghost_validity = invalid;
}

unfoldable pub resize_store : ℕ → ParticleStore → Outcome Error ParticleStore
resize_store n s =
    validated s
      (refusing (not (s.num_owned_particles == size s)) ghosts_present s (done (resize_all n s)))

-- The capacities of the three acceleration vectors are those of the library's vectors.
unfoldable pub reuses : ℕ → ℕ → ℕ → ℕ → ParticleStore → Bool
reuses capacity_x capacity_y capacity_z n s =
    s.acceleration_storage_enabled && leb n capacity_x && leb n capacity_y && leb n capacity_z

unfoldable pub resize_reusing : Bool → ℕ → ParticleStore → ParticleStore
resize_reusing reuse n s = record s {
  positions = each (resize n) s.positions;
  momenta = each (resize n) s.momenta;
  accelerations =
      if reuse
      then each (resize n) s.accelerations
      else if s.acceleration_storage_enabled
      then no_columns
      else s.accelerations;
  acceleration_storage_enabled = reuse;
  masses = on_masses s (resize n);
  ids = resize n s.ids;
  num_owned_particles = n;
  accel_validity = invalid;
  ghost_validity = invalid;
}

unfoldable pub resize_owned_reusing_acceleration_storage :
    ℕ → ℕ → ℕ → ℕ → ParticleStore → Outcome Error ParticleStore
resize_owned_reusing_acceleration_storage capacity_x capacity_y capacity_z n s = validated s (
    refusing (not (s.num_owned_particles == size s)) ghosts_present s (
      refusing (is_valid s.accel_validity) accelerations_valid s
        (done (resize_reusing (reuses capacity_x capacity_y capacity_z n s) n s))))

unfoldable pub mark_ghost_start : ParticleStore → Outcome Error ParticleStore
mark_ghost_start s = validated s (
    refusing (not (s.num_owned_particles == size s)) ghosts_present s
      (done (record s { num_owned_particles = size s; ghost_validity = invalid })))

unfoldable pub shrink_all : ℕ → ParticleStore → ParticleStore
shrink_all n s = record s {
  positions = each (resize n) s.positions;
  momenta = each (resize n) s.momenta;
  accelerations = on_accelerations s.acceleration_storage_enabled s (resize n);
  masses = on_masses s (resize n);
  ids = resize n s.ids;
}

unfoldable pub resize_internal : ℕ → ParticleStore → Outcome Error ParticleStore
resize_internal n s = validated s (
    refusing (ltb (size s) n || ltb s.num_owned_particles n) not_an_owned_prefix s
      (done (shrink_all n s)))

-- What a call does after `resize_internal`, where that threw nothing.
abbrev pub after :
    Outcome Error ParticleStore → (ParticleStore → ParticleStore) → Outcome Error ParticleStore
after (done t) f = done (f t)
after (thrown e t) f = thrown e t

unfoldable pub clear_ghosts : ParticleStore → Outcome Error ParticleStore
clear_ghosts s = validated s (
    if ltb s.num_owned_particles (size s)
    then after (resize_internal s.num_owned_particles s)
        (λ t. record t { accel_validity = staled t.accel_validity; ghost_validity = invalid })
    else done (record s { ghost_validity = invalid }))

unfoldable pub reserve_ghost_capacity : ℕ → ParticleStore → Outcome Error ParticleStore
reserve_ghost_capacity ghost_count s =
    validated s
      (refusing (ltb (size_max - s.num_owned_particles) ghost_count) size_overflow s (done s))

abbrev pub is_finite_vec : Vec3 → Bool
is_finite_vec v = is_finite v.x && is_finite v.y && is_finite v.z

-- `uniform_mass.has_value() && mass != *uniform_mass`, both masses being finite and positive.
abbrev pub is_other_mass : Option ℕ → ℕ → Bool
is_other_mass none mass = false
is_other_mass (some m) mass = not (mass == m)

unfoldable pub push_source : Vec3 → ℕ → ℕ → ParticleStore → ParticleStore
push_source pos mass id s = record s {
  positions = push_each s.positions pos;
  ids = push_back s.ids id;
  masses = on_masses s (λ v. push_back v mass);
}

unfoldable pub push_owned : Vec3 → Vec3 → Vec3 → ℕ → ℕ → ParticleStore → ParticleStore
unfolding push_source
push_owned pos mom acc mass id s = record (push_source pos mass id s) {
  momenta = push_each s.momenta mom;
  accelerations =
      if s.acceleration_storage_enabled then push_each s.accelerations acc else s.accelerations;
}

unfoldable pub append_owned_fields :
    Vec3 → Vec3 → Vec3 → ℕ → ℕ → ParticleStore → Outcome Error ParticleStore
append_owned_fields pos mom acc mass id s = validated s (
    refusing (not (is_finite_vec pos) || not (is_finite_vec mom) || is_bad_term mass) bad_fields s (
      refusing (s.acceleration_storage_enabled && not (is_finite_vec acc)) bad_acceleration s (
        refusing (is_other_mass s.uniform_mass mass) other_mass s (
          refusing (size s == size_max) size_overflow s
            (done (push_owned pos mom acc mass id s))))))

unfoldable pub append_owned_particle :
    Vec3 → Vec3 → Vec3 → ℕ → ℕ → ParticleStore → Outcome Error ParticleStore
append_owned_particle pos mom acc mass id s = validated s (
    refusing (not (s.num_owned_particles == size s)) ghosts_present s (
      after (append_owned_fields pos mom acc mass id s) (λ t. record t {
        num_owned_particles = t.num_owned_particles + 1;
        ghost_validity = invalid;
      })))

unfoldable pub append_ghost_particle : Vec3 → ℕ → ℕ → ParticleStore → Outcome Error ParticleStore
unfolding push_source
append_ghost_particle pos mass id s = validated s (
    refusing (ltb (size s) s.num_owned_particles) not_an_owned_prefix s (
      refusing (not (is_finite_vec pos) || is_bad_term mass) bad_fields s (
        refusing (is_other_mass s.uniform_mass mass) other_mass s (
          refusing (size s == size_max) size_overflow s (
            done (record (push_source pos mass id s) {
              accel_validity = staled s.accel_validity;
              ghost_validity = valid;
            }))))))

unfoldable pub overwrite : ℕ → ℕ → ParticleStore → ParticleStore
overwrite i last s = record s {
  positions = each (copy i last) s.positions;
  momenta = each (copy i last) s.momenta;
  accelerations = on_accelerations s.acceleration_storage_enabled s (copy i last);
  masses = on_masses s (copy i last);
  ids = copy i last s.ids;
}

unfoldable pub remove_particle : ℕ → ParticleStore → Outcome Error ParticleStore
remove_particle i s =
    let last = size s - 1 in
    refusing (leb (size s) i) index_out_of_range s (
      refusing (not (s.num_owned_particles == size s)) ghosts_present s (
        validated s (
          after (resize_internal last (if i == last then s else overwrite i last s)) (λ t.
            record t {
              num_owned_particles = last;
              accel_validity = invalid;
              ghost_validity = invalid;
            }))))

-- The calls that change a store.
pub data Call : Type 0 where
  call_set_acceleration_validity : FieldValidity → Call
  call_set_ghost_validity : FieldValidity → Call
  call_set_verified_snapshot_ic_sha256 : List ℕ → Call
  call_set_uniform_mass : Option ℕ → Call
  call_ensure_acceleration_storage : Call
  call_release_accelerations : Call
  call_resize : ℕ → Call
  call_resize_owned : ℕ → ℕ → ℕ → ℕ → Call
  call_mark_ghost_start : Call
  call_clear_ghosts : Call
  call_reserve_ghost_capacity : ℕ → Call
  call_append_owned_particle : Vec3 → Vec3 → Vec3 → ℕ → ℕ → Call
  call_append_ghost_particle : Vec3 → ℕ → ℕ → Call
  call_remove_particle : ℕ → Call

unfoldable pub run : Call → ParticleStore → Outcome Error ParticleStore
run (call_set_acceleration_validity v) = set_acceleration_validity v
run (call_set_ghost_validity v) = set_ghost_validity v
run (call_set_verified_snapshot_ic_sha256 v) = set_verified_snapshot_ic_sha256 v
run (call_set_uniform_mass v) = set_uniform_mass v
run call_ensure_acceleration_storage = ensure_acceleration_storage
run call_release_accelerations = release_accelerations
run (call_resize n) = resize_store n
run (call_resize_owned x y z n) = resize_owned_reusing_acceleration_storage x y z n
run call_mark_ghost_start = mark_ghost_start
run call_clear_ghosts = clear_ghosts
run (call_reserve_ghost_capacity n) = reserve_ghost_capacity n
run (call_append_owned_particle p m a mass id) = append_owned_particle p m a mass id
run (call_append_ghost_particle p mass id) = append_ghost_particle p mass id
run (call_remove_particle i) = remove_particle i
