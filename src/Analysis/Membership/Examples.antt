-- ===== src/Analysis/Membership/Examples.antt =====
-- Runs of the membership check, and its theorem at a concrete input.
use hyowon.Common.{◌≡◌, refl, inl, inr, none, true, [], ◌∷◌, arith}
use hyowon.Core.Columns.{no_columns}
use hyowon.Core.ParticleStore.{ParticleStore, invalid}
use hyowon.Analysis.Membership.{
  order_loop, has_id, insert_loop, require_unique_owned_members, general_unique,
  strict_particle_id_order, duplicate_member, member_out_of_range,
}
use hyowon.Analysis.Membership.Unique.{ids_of, Decides, require_unique_owned_members-Decides}

program : Unit {0}
unfolding order_loop has_id insert_loop require_unique_owned_members
program = tt

abbrev store : ParticleStore
store = record {
  positions = no_columns;
  masses = [];
  ids = 30 ∷ 10 ∷ 20 ∷ [];
  momenta = no_columns;
  accelerations = no_columns;
  accel_validity = invalid;
  ghost_validity = invalid;
  uniform_mass = none;
  verified_snapshot_ic_sha256 = [];
  num_owned_particles = 3;
  acceleration_storage_enabled = true;
}

ordered-run : require_unique_owned_members store (1 ∷ 2 ∷ 0 ∷ []) ≡ inr strict_particle_id_order
unfolding program
ordered-run = refl

general-run : require_unique_owned_members store (0 ∷ 1 ∷ []) ≡ inr general_unique
unfolding program
general-run = refl

repeated-run : require_unique_owned_members store (0 ∷ 1 ∷ 0 ∷ []) ≡ inl duplicate_member
unfolding program
repeated-run = refl

outside-run : require_unique_owned_members store (0 ∷ 3 ∷ 0 ∷ []) ≡ inl member_out_of_range
unfolding program
outside-run = refl

require_unique_owned_members-Decides_example :
    Decides 3
      (0 ∷ 1 ∷ [])
      (ids_of store.ids (0 ∷ 1 ∷ []))
      (require_unique_owned_members store (0 ∷ 1 ∷ []))
require_unique_owned_members-Decides_example =
    require_unique_owned_members-Decides store (0 ∷ 1 ∷ []) (omega arith)
