-- ===== src/Core/ParticleStore/Resizing.antt =====
-- include/cosmo_nbody/core/particle_store.hpp: the invariant under the calls that change how many
-- particles there are.
use hyowon.Common.{
  ℕ, ◌≡◌, refl, sym, subst, ◌∙◌, Bool, true, false, not, ◌||◌, arith, ltb, ◌==◌, if◌then◌else◌,
  done,
}
use hyowon.Core.Columns.{resize, each, no_columns, AreLong}
use hyowon.Core.ParticleStore.{
  ParticleStore, FieldValidity, valid, stale, invalid, size, is_valid, refusing, ghosts_present,
  not_an_owned_prefix, size_overflow, accelerations_valid,
}
use hyowon.Core.ParticleStore.Population.{
  resize_all, resize_store, resize_reusing, reuses, resize_owned_reusing_acceleration_storage,
  mark_ghost_start, shrink_all, resize_internal, after, clear_ghosts, reserve_ghost_capacity,
  on_masses, on_accelerations, staled,
}
use hyowon.Core.ParticleStore.Layout.{HasMasses, stored_count, HasLayout, IsValid, layout_error_iff}
use hyowon.Core.ParticleStore.Invariant.{
  Keeps, validated-Keeps, refusing-Keeps, length-resize, AreLong-resize, HasMasses-on,
  flags-HasLayout, not_valid,
}

pub invalid-valid : (b : Bool) → invalid ≡ valid → b ≡ true
invalid-valid b e = not_valid invalid b refl e

resize_all-IsValid : (n : ℕ) (s : ParticleStore) → IsValid s → IsValid (resize_all n s)
unfolding resize_all
resize_all-IsValid n s v = record {
  layout = record {
    position_y = length-resize n _ ∙ sym (length-resize n _);
    position_z = length-resize n _ ∙ sym (length-resize n _);
    id = length-resize n _ ∙ sym (length-resize n _);
    mass =
        subst (HasMasses s.uniform_mass (on_masses s (resize n))) (sym (length-resize n _))
          (HasMasses-on s (resize n) _ n v.layout.mass (λ h. length-resize n _));
    owned = rw length-resize (omega arith);
    momentum = AreLong-resize n s.momenta;
    acceleration = (refl, refl, refl);
  };
  mass = v.mass;
  digest = v.digest;
  stored = invalid-valid false;
}

pub resize_store-Keeps : (n : ℕ) (s : ParticleStore) → IsValid s → Keeps (resize_store n s)
unfolding resize_store
resize_store-Keeps n s v = validated-Keeps s _ v (
    refusing-Keeps (not (s.num_owned_particles == size s)) ghosts_present s (done (resize_all n s))
      v (λ h. resize_all-IsValid n s v))

resize_reusing-IsValid :
    (reuse : Bool) (n : ℕ) (s : ParticleStore) → IsValid s → IsValid (resize_reusing reuse n s)
unfolding resize_reusing
resize_reusing-IsValid reuse n s v = record {
  layout = record {
    position_y = length-resize n _ ∙ sym (length-resize n _);
    position_z = length-resize n _ ∙ sym (length-resize n _);
    id = length-resize n _ ∙ sym (length-resize n _);
    mass =
        subst (HasMasses s.uniform_mass (on_masses s (resize n))) (sym (length-resize n _))
          (HasMasses-on s (resize n) _ n v.layout.mass (λ h. length-resize n _));
    owned = rw length-resize (omega arith);
    momentum = AreLong-resize n s.momenta;
    acceleration = by_reuse reuse s.acceleration_storage_enabled v.layout.acceleration;
  };
  mass = v.mass;
  digest = v.digest;
  stored = invalid-valid reuse;
}
  where
    by_reuse :
        (b enabled : Bool)
        → AreLong (stored_count enabled s.num_owned_particles) s.accelerations
        → AreLong (stored_count b n) (
            if b
            then each (resize n) s.accelerations
            else if enabled
            then no_columns
            else s.accelerations)
    by_reuse true enabled a = AreLong-resize n s.accelerations
    by_reuse false true a = (refl, refl, refl)
    by_reuse false false a = a

-- What `resize_internal` leaves of a valid store: all, or the prefix.
pub resize_internal-Keeps :
    (n : ℕ) (s : ParticleStore) (f : ParticleStore → ParticleStore)
    → IsValid s
    → IsValid (f (shrink_all n s))
    → Keeps (after (resize_internal n s) f)
unfolding resize_internal
resize_internal-Keeps n s f v k =
    rw ((layout_error_iff s).1 v.layout) (by_test (ltb (size s) n || ltb s.num_owned_particles n))
  where
    by_test :
        (b : Bool) → Keeps (after (refusing b not_an_owned_prefix s (done (shrink_all n s))) f)
    by_test true = v
    by_test false = k

-- A shrunk store with its own count of owned particles.
pub shrink_all-HasLayout :
    (n : ℕ) (s : ParticleStore)
    → HasLayout s
    → HasLayout (record (shrink_all n s) { num_owned_particles = n })
unfolding shrink_all
shrink_all-HasLayout n s h = record {
  position_y = length-resize n _ ∙ sym (length-resize n _);
  position_z = length-resize n _ ∙ sym (length-resize n _);
  id = length-resize n _ ∙ sym (length-resize n _);
  mass =
      subst (HasMasses s.uniform_mass (on_masses s (resize n))) (sym (length-resize n _))
        (HasMasses-on s (resize n) _ n h.mass (λ e. length-resize n _));
  owned = rw length-resize (omega arith);
  momentum = AreLong-resize n s.momenta;
  acceleration = by_enabled s.acceleration_storage_enabled h.acceleration;
}
  where
    by_enabled :
        (b : Bool)
        → AreLong (stored_count b s.num_owned_particles) s.accelerations
        → AreLong (stored_count b n) (on_accelerations b s (resize n))
    by_enabled true a = AreLong-resize n s.accelerations
    by_enabled false a = a

pub staled-valid : (value : FieldValidity) (b : Bool) → staled value ≡ valid → b ≡ true
staled-valid valid b e = cc
staled-valid stale b e = cc
staled-valid invalid b e = cc

pub clear_ghosts-Keeps : (s : ParticleStore) → IsValid s → Keeps (clear_ghosts s)
unfolding clear_ghosts shrink_all
clear_ghosts-Keeps s v = validated-Keeps s _ v (by_test (ltb s.num_owned_particles (size s)))
  where
    by_test :
        (b : Bool)
        → Keeps (
            if b
            then after (resize_internal s.num_owned_particles s) (λ t. record t {
              accel_validity = staled t.accel_validity;
              ghost_validity = invalid;
            })
            else done (record s { ghost_validity = invalid }))
    by_test false = record {
      layout = flags-HasLayout s.accel_validity invalid s.verified_snapshot_ic_sha256 s v.layout;
      mass = v.mass;
      digest = v.digest;
      stored = v.stored;
    }
    by_test true = resize_internal-Keeps s.num_owned_particles s _ v (record {
      layout =
          flags-HasLayout (staled s.accel_validity) invalid s.verified_snapshot_ic_sha256 _
            (shrink_all-HasLayout s.num_owned_particles s v.layout);
      mass = v.mass;
      digest = v.digest;
      stored = staled-valid s.accel_validity s.acceleration_storage_enabled;
    })

pub mark_ghost_start-Keeps : (s : ParticleStore) → IsValid s → Keeps (mark_ghost_start s)
unfolding mark_ghost_start
mark_ghost_start-Keeps s v = validated-Keeps s _ v (by_test _ refl)
  where
    by_test :
        (b : Bool)
        → b ≡ not (s.num_owned_particles == size s)
        → Keeps (
            refusing b ghosts_present s
              (done (record s { num_owned_particles = size s; ghost_validity = invalid })))
    by_test true e = v
    by_test false e =
        let same : size s ≡ s.num_owned_particles = ground arith in
        rw same (record {
          layout =
              flags-HasLayout s.accel_validity invalid s.verified_snapshot_ic_sha256 s v.layout;
          mass = v.mass;
          digest = v.digest;
          stored = v.stored;
        })

pub reserve_ghost_capacity-Keeps :
    (n : ℕ) (s : ParticleStore) → IsValid s → Keeps (reserve_ghost_capacity n s)
unfolding reserve_ghost_capacity
reserve_ghost_capacity-Keeps n s v =
    validated-Keeps s _ v (refusing-Keeps _ size_overflow s (done s) v (λ h. v))

pub resize_owned-Keeps :
    (x y z n : ℕ) (s : ParticleStore)
    → IsValid s
    → Keeps (resize_owned_reusing_acceleration_storage x y z n s)
unfolding resize_owned_reusing_acceleration_storage
resize_owned-Keeps x y z n s v =
    let resized : ParticleStore = resize_reusing (reuses x y z n s) n s in
    validated-Keeps s _ v (
      refusing-Keeps (not (s.num_owned_particles == size s)) ghosts_present s
        (refusing (is_valid s.accel_validity) accelerations_valid s (done resized)) v
        (λ h.
          refusing-Keeps (is_valid s.accel_validity) accelerations_valid s (done resized) v
            (λ k. resize_reusing-IsValid _ n s v)))
