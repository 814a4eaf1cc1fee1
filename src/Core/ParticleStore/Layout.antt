-- ===== src/Core/ParticleStore/Layout.antt =====
-- include/cosmo_nbody/core/particle_store.hpp: the invariant of a store, and the validation of its
-- layout.
use hyowon.Common.{
  ℕ, ◌≤◌, ◌≡◌, ◌↔◌, Bool, true, false, not, ◌&&◌, ◌||◌, Option, none, some, List, [], arith, ltb,
  ◌==◌, if◌then◌else◌, length, ◌⊎◌,
}
use hyowon.Math.ExactPositiveSum.{is_bad_term}
use hyowon.Core.Columns.{Columns, have_size, AreLong}
use hyowon.Core.ParticleStore.{
  ParticleStore, valid, Error, size, is_some, source_layout_valid, layout_error, all_lowercase_hex,
}

-- How long the masses are: a uniform mass stands for all of them.
abbrev pub HasMasses : Option ℕ → List ℕ → ℕ → Type 0
HasMasses none masses n = length masses ≡ n
HasMasses (some m) masses n = Unit

-- Stored accelerations belong to the owned particles; omitted ones are empty.
abbrev pub stored_count : Bool → ℕ → ℕ
stored_count true owned = owned
stored_count false owned = 0

-- The layout that `validate_storage_layout` accepts.
pub record HasLayout (s : ParticleStore) : Type 0 where
  pub position_y : length s.positions.y ≡ size s
  pub position_z : length s.positions.z ≡ size s
  pub id : length s.ids ≡ size s
  pub mass : HasMasses s.uniform_mass s.masses (size s)
  pub owned : s.num_owned_particles ≤ size s
  pub momentum : AreLong s.num_owned_particles s.momenta
  pub acceleration :
      AreLong (stored_count s.acceleration_storage_enabled s.num_owned_particles) s.accelerations

have_size-AreLong : (n : ℕ) (c : Columns) → AreLong n c → have_size n c ≡ true
have_size-AreLong n c h = ground arith

AreLong-have_size : (n : ℕ) (c : Columns) → have_size n c ≡ true → AreLong n c
AreLong-have_size n c h = ground arith

masses_fit :
    (o : Option ℕ) (masses : List ℕ) (n : ℕ)
    → ((is_some o || length masses == n) ≡ true) ↔ HasMasses o masses n
masses_fit none masses n = ground arith
masses_fit (some m) masses n = ground arith

-- Which tests decide the exception, for any four exceptions.
stages_iff :
    (bad fits_momenta enabled fits_owned fits_none : Bool) (e1 e2 e3 e4 : Error)
    → ((if bad
          then some e1
          else if not fits_momenta
          then some e2
          else if enabled
          then (if fits_owned then none else some e3)
          else if fits_none
          then none
          else some e4)
        ≡ none)
      ↔ ((bad ≡ false)
          × (fits_momenta ≡ true)
          × ((if enabled then fits_owned else fits_none) ≡ true))
stages_iff true m r u v e1 e2 e3 e4 = ground arith
stages_iff false false r u v e1 e2 e3 e4 = ground arith
stages_iff false true true u v e1 e2 e3 e4 = ground arith
stages_iff false true false u v e1 e2 e3 e4 = ground arith

-- The sources' test.
sources_iff :
    (y z id owned total : ℕ) (masses : Bool)
    → ((not (y == total && z == total && id == total && masses) || ltb total owned) ≡ false)
      ↔ ((y ≡ total) × (z ≡ total) × (id ≡ total) × (masses ≡ true) × (owned ≤ total))
sources_iff y z id owned total true = ground arith
sources_iff y z id owned total false = ground arith

accelerations_iff :
    (enabled : Bool) (n : ℕ) (c : Columns)
    → ((if enabled then have_size n c else have_size 0 c) ≡ true)
      ↔ AreLong (stored_count enabled n) c
accelerations_iff true n c = (AreLong-have_size n c, have_size-AreLong n c)
accelerations_iff false n c = (AreLong-have_size 0 c, have_size-AreLong 0 c)

-- `validate_storage_layout` throws nothing exactly on the stores that have the layout.
pub layout_error_iff : (s : ParticleStore) → (layout_error s ≡ none) ↔ HasLayout s
unfolding layout_error source_layout_valid
layout_error_iff s =
    let stages = stages_iff _ _ s.acceleration_storage_enabled _ _ _ _ _ _ in
    let sources =
      sources_iff (length s.positions.y) (length s.positions.z) (length s.ids) s.num_owned_particles
        (size s) _ in
    let masses = masses_fit s.uniform_mass s.masses (size s) in
    let stored =
      accelerations_iff s.acceleration_storage_enabled s.num_owned_particles s.accelerations in
    (
      (λ h.
          let (source, momenta, acc) = stages.0 h in
          let (y, z, id, m, owned) = sources.0 source in
          record {
            position_y = y;
            position_z = z;
            id = id;
            mass = masses.0 m;
            owned = owned;
            momentum = AreLong-have_size _ _ momenta;
            acceleration = stored.0 acc;
          }),
      (λ h. stages.1 (
        sources.1 (h.position_y, h.position_z, h.id, masses.1 h.mass, h.owned),
        have_size-AreLong _ _ h.momentum,
        stored.1 h.acceleration,
      )),
    )

-- The digest that a snapshot was verified by: none, or 64 hexadecimal characters.
abbrev pub IsDigest : List ℕ → Type 0
IsDigest value = (value ≡ []) ⊎ ((length value ≡ 64) × (all_lowercase_hex value ≡ true))

-- A uniform mass is finite and positive.
abbrev pub IsMass : Option ℕ → Type 0
IsMass none = Unit
IsMass (some m) = is_bad_term m ≡ false

-- What every reachable store satisfies.
pub record IsValid (s : ParticleStore) : Type 0 where
  pub layout : HasLayout s
  pub mass : IsMass s.uniform_mass
  pub digest : IsDigest s.verified_snapshot_ic_sha256
  pub stored : s.accel_validity ≡ valid → s.acceleration_storage_enabled ≡ true
