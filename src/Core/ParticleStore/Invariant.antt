-- ===== src/Core/ParticleStore/Invariant.antt =====
-- include/cosmo_nbody/core/particle_store.hpp: the invariant under every call, sequences of calls
-- included.
use hyowon.Common.{
  ℕ, ◌+◌, ◌≡◌, refl, sym, subst, ◌∙◌, Bool, true, false, not, ◌&&◌, ◌||◌, Option, none, some, List,
  [], arith, ◌==◌, if◌then◌else◌, length, replicate, length-append, length-take, length-replicate,
  length-set, length-zero, Outcome, done, left_by, Bool-cases, inl, inr, ==→eq,
}
use hyowon.Core.Columns.{Vec3, Columns, resize, copy, each, push_each, no_columns, AreLong}
use hyowon.Core.ParticleStore.{
  ParticleStore, FieldValidity, valid, stale, invalid, Error, size, is_some, is_valid, validated,
  refusing, set_acceleration_validity, set_ghost_validity, set_verified_snapshot_ic_sha256,
  with_uniform_mass, set_uniform_mass, ensure_acceleration_storage, release_accelerations,
  all_lowercase_hex, accelerations_valid, expanded,
}
use hyowon.Core.ParticleStore.Population.{on_masses}
use hyowon.Core.ParticleStore.Layout.{
  HasMasses, stored_count, HasLayout, IsDigest, IsMass, IsValid, layout_error_iff,
}

-- What a call leaves is valid.
abbrev pub Keeps : Outcome Error ParticleStore → Type 0
Keeps r = IsValid (left_by r)

pub validated-Keeps :
    (s : ParticleStore) (r : Outcome Error ParticleStore)
    → IsValid s
    → Keeps r
    → Keeps (validated s r)
validated-Keeps s r v k = rw ((layout_error_iff s).1 v.layout) k

pub refusing-Keeps :
    (test : Bool) (e : Error) (s : ParticleStore) (r : Outcome Error ParticleStore)
    → IsValid s
    → (test ≡ false → Keeps r)
    → Keeps (refusing test e s r)
refusing-Keeps true e s r v k = v
refusing-Keeps false e s r v k = k refl

pub length-resize : (n : ℕ) (v : List ℕ) → length (resize n v) ≡ n
unfolding resize
length-resize n v = rw (length-append, length-take, length-replicate) (omega arith)

pub AreLong-resize : (n : ℕ) (c : Columns) → AreLong n (each (resize n) c)
AreLong-resize n c = (length-resize n c.x, length-resize n c.y, length-resize n c.z)

pub AreLong-copy : (n i j : ℕ) (c : Columns) → AreLong n c → AreLong n (each (copy i j) c)
AreLong-copy n i j c h =
    (length-set c.x i _ ∙ h.0, length-set c.y i _ ∙ h.1, length-set c.z i _ ∙ h.2)

pub AreLong-push : (n : ℕ) (c : Columns) (v : Vec3) → AreLong n c → AreLong (n + 1) (push_each c v)
AreLong-push n c v h =
    (rw (length-append, h.0) refl, rw (length-append, h.1) refl, rw (length-append, h.2) refl)

pub HasMasses-on :
    (s : ParticleStore) (f : List ℕ → List ℕ) (n m : ℕ)
    → HasMasses s.uniform_mass s.masses n
    → (length s.masses ≡ n → length (f s.masses) ≡ m)
    → HasMasses s.uniform_mass (on_masses s f) m
HasMasses-on s f n m h k = by_mass s.uniform_mass h
  where
    by_mass :
        (o : Option ℕ)
        → HasMasses o s.masses n
        → HasMasses o (if is_some o then s.masses else f s.masses) m
    by_mass none h = k h
    by_mass (some u) h = tt

-- The layout does not depend on the flags and the digest.
pub flags-HasLayout :
    (a g : FieldValidity) (d : List ℕ) (s : ParticleStore)
    → HasLayout s
    → HasLayout
        (record s { accel_validity = a; ghost_validity = g; verified_snapshot_ic_sha256 = d })
flags-HasLayout a g d s h = record {
  position_y = h.position_y;
  position_z = h.position_z;
  id = h.id;
  mass = h.mass;
  owned = h.owned;
  momentum = h.momentum;
  acceleration = h.acceleration;
}

-- Other accelerations may take the place of the store's.
pub accelerations-HasLayout :
    (c : Columns) (b : Bool) (s : ParticleStore)
    → HasLayout s
    → AreLong (stored_count b s.num_owned_particles) c
    → HasLayout (record s { accelerations = c; acceleration_storage_enabled = b })
accelerations-HasLayout c b s h long = record {
  position_y = h.position_y;
  position_z = h.position_z;
  id = h.id;
  mass = h.mass;
  owned = h.owned;
  momentum = h.momentum;
  acceleration = long;
}

enabled_where_valid :
    (value : FieldValidity) (b : Bool)
    → (is_valid value && not b) ≡ false
    → value ≡ valid
    → b ≡ true
enabled_where_valid valid true h e = refl
enabled_where_valid valid false h e = cc
enabled_where_valid stale b h e = cc
enabled_where_valid invalid b h e = cc

pub not_valid :
    (value : FieldValidity) (b : Bool) → is_valid value ≡ false → value ≡ valid → b ≡ true
not_valid valid b h e = cc
not_valid stale b h e = cc
not_valid invalid b h e = cc

pub set_acceleration_validity-Keeps :
    (value : FieldValidity) (s : ParticleStore)
    → IsValid s
    → Keeps (set_acceleration_validity value s)
unfolding set_acceleration_validity
set_acceleration_validity-Keeps value s v = validated-Keeps s _ v (
    refusing-Keeps _ _ s _ v λ h. record {
      layout = flags-HasLayout value s.ghost_validity s.verified_snapshot_ic_sha256 s v.layout;
      mass = v.mass;
      digest = v.digest;
      stored = enabled_where_valid value s.acceleration_storage_enabled h;
    })

pub set_ghost_validity-Keeps :
    (value : FieldValidity) (s : ParticleStore) → IsValid s → Keeps (set_ghost_validity value s)
unfolding set_ghost_validity
set_ghost_validity-Keeps value s v = record {
  layout = flags-HasLayout s.accel_validity value s.verified_snapshot_ic_sha256 s v.layout;
  mass = v.mass;
  digest = v.digest;
  stored = v.stored;
}

digest_of :
    (n : ℕ) (b : Bool) (value : List ℕ)
    → n ≡ length value
    → b ≡ all_lowercase_hex value
    → (not (n == 0) && (not (n == 64) || not b)) ≡ false
    → IsDigest value
digest_of n b value hn hb h = elim (Bool-cases (n == 0)) [
  | inl empty ↦ inl (length-zero value (sym hn ∙ ==→eq n 0 empty))
  | inr some_left ↦ inr (ground arith, ground arith)
]

pub set_verified_snapshot_ic_sha256-Keeps :
    (value : List ℕ) (s : ParticleStore)
    → IsValid s
    → Keeps (set_verified_snapshot_ic_sha256 value s)
unfolding set_verified_snapshot_ic_sha256
set_verified_snapshot_ic_sha256-Keeps value s v = refusing-Keeps _ _ s _ v λ h. record {
  layout = flags-HasLayout s.accel_validity s.ghost_validity value s v.layout;
  mass = v.mass;
  digest = digest_of _ _ value refl refl h;
  stored = v.stored;
}

-- Other masses may take the place of the store's.
masses-IsValid :
    (o : Option ℕ) (masses : List ℕ) (s : ParticleStore)
    → IsValid s
    → IsMass o
    → HasMasses o masses (size s)
    → IsValid (record s { uniform_mass = o; masses = masses })
masses-IsValid o masses s v m long = record {
  layout = record {
    position_y = v.layout.position_y;
    position_z = v.layout.position_z;
    id = v.layout.id;
    mass = long;
    owned = v.layout.owned;
    momentum = v.layout.momentum;
    acceleration = v.layout.acceleration;
  };
  mass = m;
  digest = v.digest;
  stored = v.stored;
}

expanded-IsValid :
    (o : Option ℕ) (s : ParticleStore) → s.uniform_mass ≡ o → IsValid s → IsValid (expanded o s)
unfolding expanded
expanded-IsValid (some m) s e v =
    masses-IsValid none (replicate (size s) m) s v tt (length-replicate (size s) m)
expanded-IsValid none s e v =
    let masses : List ℕ = resize (size s) s.masses in
    masses-IsValid s.uniform_mass masses s v v.mass
      (subst (λ o. HasMasses o masses (size s)) (sym e) (length-resize (size s) s.masses))

with_uniform_mass-Keeps :
    (value : Option ℕ) (s : ParticleStore) → IsValid s → Keeps (with_uniform_mass value s)
unfolding with_uniform_mass
with_uniform_mass-Keeps (some m) s v =
    refusing-Keeps _ _ s _ v λ h. masses-IsValid (some m) [] s v h tt
with_uniform_mass-Keeps none s v = expanded-IsValid s.uniform_mass s refl v

pub set_uniform_mass-Keeps :
    (value : Option ℕ) (s : ParticleStore) → IsValid s → Keeps (set_uniform_mass value s)
unfolding set_uniform_mass
set_uniform_mass-Keeps value s v = validated-Keeps s _ v (with_uniform_mass-Keeps value s v)

pub ensure_acceleration_storage-Keeps :
    (s : ParticleStore) → IsValid s → Keeps (ensure_acceleration_storage s)
unfolding ensure_acceleration_storage
ensure_acceleration_storage-Keeps s v =
    let zeros = length-replicate s.num_owned_particles 0 in
    validated-Keeps s _ v (
      by_enabled s.acceleration_storage_enabled (record {
        layout = accelerations-HasLayout _ true s v.layout (zeros, zeros, zeros);
        mass = v.mass;
        digest = v.digest;
        stored = λ e. refl;
      }))
  where
    by_enabled : (b : Bool) {t : ParticleStore} → IsValid t → Keeps (if b then done s else done t)
    by_enabled true w = v
    by_enabled false w = w

pub release_accelerations-Keeps : (s : ParticleStore) → IsValid s → Keeps (release_accelerations s)
unfolding release_accelerations
release_accelerations-Keeps s v =
    let released : ParticleStore = record s {
      accelerations = no_columns;
      acceleration_storage_enabled = false;
      accel_validity = invalid;
    } in
    let kept : IsValid released = record {
      layout =
          flags-HasLayout invalid s.ghost_validity s.verified_snapshot_ic_sha256 _
            (accelerations-HasLayout no_columns false s v.layout (refl, refl, refl));
      mass = v.mass;
      digest = v.digest;
      stored = not_valid invalid false refl;
    } in
    validated-Keeps s _ v (
      refusing-Keeps (is_valid s.accel_validity) accelerations_valid s (done released) v
        (λ h. kept))
