-- ===== src/Core/ParticleStore/Appending.antt =====
-- include/cosmo_nbody/core/particle_store.hpp: the invariant under appending and removal, and under
-- every sequence of calls.
use hyowon.Common.{
  ℕ, ◌+◌, ◌-◌, ◌≡◌, refl, sym, ap, subst, ◌∙◌, Bool, true, false, not, ◌&&◌, ◌||◌, List, arith, ltb,
  leb, ◌==◌, if◌then◌else◌, length, length-append, length-set, done,
}
use hyowon.Math.ExactPositiveSum.{is_bad_term}
use hyowon.Core.Columns.{Vec3, push_back, copy, push_each, AreLong}
use hyowon.Core.ParticleStore.{
  ParticleStore, valid, invalid, size, refusing, ghosts_present, not_an_owned_prefix, size_overflow,
  index_out_of_range, bad_fields, bad_acceleration, other_mass, size_max,
}
use hyowon.Core.ParticleStore.Population.{
  after, on_masses, on_accelerations, staled, push_source, push_owned, append_owned_fields,
  append_owned_particle, append_ghost_particle, overwrite, remove_particle, shrink_all,
  resize_internal, is_finite_vec, is_other_mass,
}
use hyowon.Core.ParticleStore.Layout.{HasMasses, stored_count, HasLayout, IsValid, layout_error_iff}
use hyowon.Core.ParticleStore.Invariant.{
  Keeps, validated-Keeps, AreLong-copy, AreLong-push, HasMasses-on, flags-HasLayout,
}
use hyowon.Core.ParticleStore.Resizing.{
  resize_internal-Keeps, shrink_all-HasLayout, staled-valid, invalid-valid,
}

-- Vectors that were as long as another stay so when both grow by one.
grown :
    (xs ys : List ℕ) (a b : ℕ)
    → length xs ≡ length ys
    → length (push_back xs a) ≡ length (push_back ys b)
grown xs ys a b h = rw (length-append, length-append, h) refl

push_source-HasLayout :
    (pos : Vec3) (mass id : ℕ) (s : ParticleStore)
    → HasLayout s
    → HasLayout (push_source pos mass id s)
unfolding push_source
push_source-HasLayout pos mass id s h =
    let more : length (push_back s.positions.x pos.x) ≡ size s + 1 =
      length-append s.positions.x _ in
    record {
      position_y = grown s.positions.y s.positions.x pos.y pos.x h.position_y;
      position_z = grown s.positions.z s.positions.x pos.z pos.x h.position_z;
      id = grown s.ids s.positions.x id pos.x h.id;
      mass = subst (HasMasses s.uniform_mass (on_masses s (λ v. push_back v mass))) (sym more) (
          HasMasses-on s (λ v. push_back v mass) _ (size s + 1) h.mass
            (λ e. length-append s.masses _ ∙ ap (λ (n : ℕ). n + 1) e));
      owned = omega (arith, h.owned);
      momentum = h.momentum;
      acceleration = h.acceleration;
    }

pub append_ghost_particle-Keeps :
    (pos : Vec3) (mass id : ℕ) (s : ParticleStore)
    → IsValid s
    → Keeps (append_ghost_particle pos mass id s)
unfolding append_ghost_particle
append_ghost_particle-Keeps pos mass id s v =
    let pushed : ParticleStore = record (push_source pos mass id s) {
      accel_validity = staled s.accel_validity;
      ghost_validity = valid;
    } in
    let kept : IsValid pushed = record {
      layout =
          flags-HasLayout (staled s.accel_validity) valid s.verified_snapshot_ic_sha256 _
            (push_source-HasLayout pos mass id s v.layout);
      mass = v.mass;
      digest = v.digest;
      stored = staled-valid s.accel_validity s.acceleration_storage_enabled;
    } in
    validated-Keeps s _ v (
      by_tests (ltb (size s) s.num_owned_particles) (not (is_finite_vec pos) || is_bad_term mass)
        (is_other_mass s.uniform_mass mass) (size s == size_max) kept)
  where
    by_tests :
        (a b c d : Bool) {t : ParticleStore}
        → IsValid t
        → Keeps (
            refusing a not_an_owned_prefix s (
              refusing b bad_fields s
                (refusing c other_mass s (refusing d size_overflow s (done t)))))
    by_tests true b c d w = v
    by_tests false true c d w = v
    by_tests false false true d w = v
    by_tests false false false true w = v
    by_tests false false false false w = w

-- The new particle is an owned one.
push_owned-IsValid :
    (pos mom acc : Vec3) (mass id : ℕ) (s : ParticleStore)
    → IsValid s
    → IsValid (record (push_owned pos mom acc mass id s) {
      num_owned_particles = s.num_owned_particles + 1;
      ghost_validity = invalid;
    })
unfolding push_owned push_source
push_owned-IsValid pos mom acc mass id s v =
    let source = push_source-HasLayout pos mass id s v.layout in
    record {
      layout = record {
        position_y = source.position_y;
        position_z = source.position_z;
        id = source.id;
        mass = source.mass;
        owned = rw length-append (omega (arith, v.layout.owned));
        momentum = AreLong-push s.num_owned_particles s.momenta mom v.layout.momentum;
        acceleration = by_enabled s.acceleration_storage_enabled v.layout.acceleration;
      };
      mass = v.mass;
      digest = v.digest;
      stored = v.stored;
    }
  where
    by_enabled :
        (b : Bool)
        → AreLong (stored_count b s.num_owned_particles) s.accelerations
        → AreLong
            (stored_count b (s.num_owned_particles + 1))
            (if b then push_each s.accelerations acc else s.accelerations)
    by_enabled true a = AreLong-push s.num_owned_particles s.accelerations acc a
    by_enabled false a = a

pub append_owned_particle-Keeps :
    (pos mom acc : Vec3) (mass id : ℕ) (s : ParticleStore)
    → IsValid s
    → Keeps (append_owned_particle pos mom acc mass id s)
unfolding append_owned_particle append_owned_fields
append_owned_particle-Keeps pos mom acc mass id s v = validated-Keeps s _ v (
    rw ((layout_error_iff s).1 v.layout) (
      by_tests (not (s.num_owned_particles == size s))
        (not (is_finite_vec pos) || not (is_finite_vec mom) || is_bad_term mass)
        (s.acceleration_storage_enabled && not (is_finite_vec acc))
        (is_other_mass s.uniform_mass mass) (size s == size_max)))
  where
    by_tests :
        (a b c d e : Bool)
        → Keeps (
            refusing a ghosts_present s (
              after
                (refusing b bad_fields s (
                  refusing c bad_acceleration s (
                    refusing d other_mass s
                      (refusing e size_overflow s (done (push_owned pos mom acc mass id s))))))
                (λ t. record t {
                  num_owned_particles = t.num_owned_particles + 1;
                  ghost_validity = invalid;
                })))
    by_tests true b c d e = v
    by_tests false true c d e = v
    by_tests false false true d e = v
    by_tests false false false true e = v
    by_tests false false false false true = v
    by_tests false false false false false =
        unfold push_owned push_source in push_owned-IsValid pos mom acc mass id s v

pub overwrite-IsValid : (i last : ℕ) (s : ParticleStore) → IsValid s → IsValid (overwrite i last s)
unfolding overwrite
overwrite-IsValid i last s v =
    let same : length (copy i last s.positions.x) ≡ size s = length-set s.positions.x i _ in
    record {
      layout = record {
        position_y = length-set s.positions.y i _ ∙ v.layout.position_y ∙ sym same;
        position_z = length-set s.positions.z i _ ∙ v.layout.position_z ∙ sym same;
        id = length-set s.ids i _ ∙ v.layout.id ∙ sym same;
        mass = subst (HasMasses s.uniform_mass (on_masses s (copy i last))) (sym same) (
            HasMasses-on s (copy i last) _ (size s) v.layout.mass
              (λ e. length-set s.masses i _ ∙ e));
        owned = rw same v.layout.owned;
        momentum = AreLong-copy _ i last s.momenta v.layout.momentum;
        acceleration = by_enabled s.acceleration_storage_enabled v.layout.acceleration;
      };
      mass = v.mass;
      digest = v.digest;
      stored = v.stored;
    }
  where
    by_enabled :
        (b : Bool)
        → AreLong (stored_count b s.num_owned_particles) s.accelerations
        → AreLong (stored_count b s.num_owned_particles) (on_accelerations b s (copy i last))
    by_enabled true a = AreLong-copy _ i last s.accelerations a
    by_enabled false a = a

-- Shrinking a valid store, with the count of owned particles that `remove_particle` sets.
removed-Keeps :
    (last : ℕ) (s : ParticleStore)
    → IsValid s
    → Keeps (
        after (resize_internal last s) (λ t. record t {
          num_owned_particles = last;
          accel_validity = invalid;
          ghost_validity = invalid;
        }))
unfolding shrink_all
removed-Keeps last s v = resize_internal-Keeps last s _ v (record {
  layout =
      flags-HasLayout invalid invalid s.verified_snapshot_ic_sha256 _
        (shrink_all-HasLayout last s v.layout);
  mass = v.mass;
  digest = v.digest;
  stored = invalid-valid s.acceleration_storage_enabled;
})

pub remove_particle-Keeps : (i : ℕ) (s : ParticleStore) → IsValid s → Keeps (remove_particle i s)
unfolding remove_particle
remove_particle-Keeps i s v =
    rw ((layout_error_iff s).1 v.layout)
      (by_tests (leb (size s) i) (not (s.num_owned_particles == size s)) (i == size s - 1))
  where
    by_tests :
        (a b c : Bool)
        → Keeps (
            refusing a index_out_of_range s (
              refusing b ghosts_present s (
                after
                  (resize_internal (size s - 1) (if c then s else overwrite i (size s - 1) s))
                  (λ t. record t {
                    num_owned_particles = size s - 1;
                    accel_validity = invalid;
                    ghost_validity = invalid;
                  }))))
    by_tests true b c = v
    by_tests false true c = v
    by_tests false false true = removed-Keeps (size s - 1) s v
    by_tests false false false = removed-Keeps (size s - 1) _ (overwrite-IsValid i (size s - 1) s v)
