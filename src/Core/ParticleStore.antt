-- ===== src/Core/ParticleStore.antt =====
-- include/cosmo_nbody/core/particle_store.hpp: the structure-of-arrays particle storage, an owned
-- prefix and a ghost suffix of sources. A real number is its bit pattern. Allocation succeeds: a
-- `reserve` has no effect on the elements.
use hyowon.Common.{
  ℕ, zero, suc, ◌+◌, ◌-◌, ◌^◌, Bool, true, false, not, ◌&&◌, ◌||◌, Option, none, some, List, [],
  ◌∷◌, ltb, leb, ◌==◌, if◌then◌else◌, length, replicate, get_or, Outcome, done, thrown, ◌⊎◌, inl,
  inr,
}
pub mod Population
pub mod Layout
pub mod Invariant
pub mod Resizing
pub mod Appending
pub mod Reachable
pub mod Contents
mod Examples
use hyowon.Math.ExactPositiveSum.{is_finite, is_bad_term}
use hyowon.Core.Columns.{
  Vec3, Columns, Axis, column, resize, push_back, copy, each, push_each, no_columns, have_size,
}

pub data FieldValidity : Type 0 where
  valid stale invalid : FieldValidity

pub data Error : Type 0 where
  inconsistent_sources inconsistent_momenta inconsistent_accelerations retained_storage : Error
  masses_are_uniform no_acceleration_storage accelerations_not_valid accelerations_valid : Error
  bad_digest bad_mass bad_fields bad_acceleration other_mass : Error
  ghosts_present index_out_of_range size_overflow not_an_owned_prefix : Error

pub record ParticleStore : Type 0 where
  pub positions : Columns
  pub masses : List ℕ
  pub ids : List ℕ
  pub momenta : Columns
  pub accelerations : Columns
  pub accel_validity : FieldValidity
  pub ghost_validity : FieldValidity
  pub uniform_mass : Option ℕ
  pub verified_snapshot_ic_sha256 : List ℕ
  pub num_owned_particles : ℕ
  pub acceleration_storage_enabled : Bool

unfoldable pub empty_store : ParticleStore
empty_store = record {
  positions = no_columns;
  masses = [];
  ids = [];
  momenta = no_columns;
  accelerations = no_columns;
  accel_validity = invalid;
  ghost_validity = invalid;
  uniform_mass = none;
  verified_snapshot_ic_sha256 = [];
  num_owned_particles = 0;
  acceleration_storage_enabled = true;
}

-- The largest `std::size_t`.
abbrev pub size_max : ℕ
size_max = 2 ^ 64 - 1

abbrev pub size : ParticleStore → ℕ
size s = length s.positions.x

abbrev pub num_ghost_particles : ParticleStore → ℕ
num_ghost_particles s = size s - s.num_owned_particles

abbrev pub is_some : Option ℕ → Bool
is_some none = false
is_some (some m) = true

abbrev pub is_valid : FieldValidity → Bool
is_valid valid = true
is_valid stale = false
is_valid invalid = false

unfoldable pub source_layout_valid : ParticleStore → Bool
source_layout_valid s =
    length s.positions.y == size s
    && length s.positions.z == size s
    && length s.ids == size s
    && (is_some s.uniform_mass || length s.masses == size s)

-- `validate_storage_layout`: the exception that it throws.
unfoldable pub layout_error : ParticleStore → Option Error
layout_error s =
    if not (source_layout_valid s) || ltb (size s) s.num_owned_particles
    then some inconsistent_sources
    else if not (have_size s.num_owned_particles s.momenta)
    then some inconsistent_momenta
    else if s.acceleration_storage_enabled
    then (if have_size s.num_owned_particles s.accelerations
        then none
        else some inconsistent_accelerations)
    else if have_size 0 s.accelerations
    then none
    else some retained_storage

-- A call that throws `e` and leaves the object, or goes on.
abbrev pub unless :
    Option Error → ParticleStore → Outcome Error ParticleStore → Outcome Error ParticleStore
unless (some e) s rest = thrown e s
unless none s rest = rest

-- `validate_storage_layout();` and what follows it.
abbrev pub validated : ParticleStore → Outcome Error ParticleStore → Outcome Error ParticleStore
validated s rest = unless (layout_error s) s rest

-- `if (test) throw e;` and what follows it.
abbrev pub refusing :
    Bool → Error → ParticleStore → Outcome Error ParticleStore → Outcome Error ParticleStore
refusing test e s rest = if test then thrown e s else rest

unfoldable pub require_valid_acceleration_storage : ParticleStore → Outcome Error ParticleStore
require_valid_acceleration_storage s = validated s (
    refusing (not (is_valid s.accel_validity)) accelerations_not_valid s
      (refusing (not s.acceleration_storage_enabled) no_acceleration_storage s (done s)))

unfoldable pub get_accelerations : Axis → ParticleStore → Error ⊎ List ℕ
get_accelerations axis s = elim (require_valid_acceleration_storage s) [
  | thrown e t ↦ inl e
  | done t ↦ inr (column axis t.accelerations)
]

unfoldable pub get_masses : ParticleStore → Error ⊎ List ℕ
get_masses s = if is_some s.uniform_mass then inl masses_are_uniform else inr s.masses

-- `uniform_mass.has_value() ? *uniform_mass : masses[index]`
abbrev pub mass_of : Option ℕ → List ℕ → ℕ → ℕ
mass_of none masses index = get_or masses index 0
mass_of (some m) masses index = m

unfoldable pub mass_at : ParticleStore → ℕ → Error ⊎ ℕ
mass_at s index =
    if leb (size s) index
    then inl index_out_of_range
    else inr (mass_of s.uniform_mass s.masses index)

unfoldable pub set_acceleration_validity :
    FieldValidity → ParticleStore → Outcome Error ParticleStore
set_acceleration_validity value s = validated s (
    refusing (is_valid value && not s.acceleration_storage_enabled) no_acceleration_storage s
      (done (record s { accel_validity = value })))

unfoldable pub set_ghost_validity : FieldValidity → ParticleStore → Outcome Error ParticleStore
set_ghost_validity value s = done (record s { ghost_validity = value })

-- A character of `[0-9a-f]`, by its code.
unfoldable pub is_lowercase_hex : ℕ → Bool
is_lowercase_hex c = (leb 48 c && leb c 57) || (leb 97 c && leb c 102)

unfoldable pub all_lowercase_hex : List ℕ → Bool
all_lowercase_hex [] = true
all_lowercase_hex (c ∷ cs) =
    let rest = all_lowercase_hex cs in if is_lowercase_hex c then rest else false

unfoldable pub set_verified_snapshot_ic_sha256 :
    List ℕ → ParticleStore → Outcome Error ParticleStore
set_verified_snapshot_ic_sha256 value s =
    refusing
      (not (length value == 0) && (not (length value == 64) || not (all_lowercase_hex value)))
      bad_digest s (done (record s { verified_snapshot_ic_sha256 = value }))

-- The masses that replace a uniform one.
unfoldable pub expanded : Option ℕ → ParticleStore → ParticleStore
expanded (some m) s = record s { masses = replicate (size s) m; uniform_mass = none }
expanded none s = record s { masses = resize (size s) s.masses }

unfoldable pub with_uniform_mass : Option ℕ → ParticleStore → Outcome Error ParticleStore
with_uniform_mass (some m) s =
    refusing (is_bad_term m) bad_mass s (done (record s { uniform_mass = some m; masses = [] }))
with_uniform_mass none s = done (expanded s.uniform_mass s)

unfoldable pub set_uniform_mass : Option ℕ → ParticleStore → Outcome Error ParticleStore
set_uniform_mass value s = validated s (with_uniform_mass value s)

unfoldable pub ensure_acceleration_storage : ParticleStore → Outcome Error ParticleStore
ensure_acceleration_storage s =
    let zeros = replicate s.num_owned_particles 0 in
    validated s (
      if s.acceleration_storage_enabled
      then done s
      else done (record s {
        accelerations = record { x = zeros; y = zeros; z = zeros };
        acceleration_storage_enabled = true;
      }))

unfoldable pub release_accelerations : ParticleStore → Outcome Error ParticleStore
release_accelerations s = validated s (
    refusing (is_valid s.accel_validity) accelerations_valid s (
      done (record s {
        accelerations = no_columns;
        acceleration_storage_enabled = false;
        accel_validity = invalid;
      })))

-- `mutable_accelerations_x` and its fellows: the storage is made on the first use.
unfoldable pub mutable_accelerations : Axis → ParticleStore → Error ⊎ List ℕ
mutable_accelerations axis s = elim (ensure_acceleration_storage s) [
  | thrown e t ↦ inl e
  | done t ↦ inr (column axis t.accelerations)
]
