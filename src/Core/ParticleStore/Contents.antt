-- ===== src/Core/ParticleStore/Contents.antt =====
-- include/cosmo_nbody/core/particle_store.hpp: the particles that a store holds, as rows of its
-- columns.
use hyowon.Common.{
  ℕ, zero, suc, ◌+◌, ◌-◌, ◌≤◌, ◌<◌, ◌≡◌, refl, sym, ap, subst, ◌∙◌, Bool, true, false, not, ◌||◌,
  Option, none, some, List, [], ◌∷◌, ◌++◌, arith, ltb, leb, ◌==◌, if◌then◌else◌, length, take,
  get_or, get_or-set_self, get_or-replicate, get_or-set_ne, length-set, done, Bool-cases, inl, inr,
  ==→eq, ◌⊎◌, tests,
}
use hyowon.Core.Columns.{Vec3, Columns, resize, copy, each}
use hyowon.Core.ParticleStore.{
  ParticleStore, invalid, size, is_some, index_out_of_range, expanded, set_uniform_mass,
  with_uniform_mass, mass_at, mass_of,
}
use hyowon.Core.ParticleStore.Population.{
  after, overwrite, remove_particle, shrink_all, resize_internal,
}
use hyowon.Core.ParticleStore.Layout.{HasMasses, IsValid, layout_error_iff}
use hyowon.Core.ParticleStore.Invariant.{length-resize}
use hyowon.Core.ParticleStore.Appending.{overwrite-IsValid}

-- One particle: its name and its phase-space point.
pub record Row : Type 0 where
  pub id : ℕ
  pub position : Vec3
  pub momentum : Vec3
  pub mass : ℕ

abbrev pub vec_at : Columns → ℕ → Vec3
vec_at c j = record { x = get_or c.x j 0; y = get_or c.y j 0; z = get_or c.z j 0 }

abbrev pub row : ParticleStore → ℕ → Row
row s j = record {
  id = get_or s.ids j 0;
  position = vec_at s.positions j;
  momentum = vec_at s.momenta j;
  mass = mass_of s.uniform_mass s.masses j;
}

get_or-take :
    (n j : ℕ) (v rest : List ℕ)
    → j < n
    → n ≤ length v
    → get_or (take n v ++ rest) j 0 ≡ get_or v j 0
get_or-take zero j v rest h k = absurd (omega arith)
get_or-take (suc n) j [] rest h k = absurd (omega arith)
get_or-take (suc n) zero (x ∷ v) rest h k = refl
get_or-take (suc n) (suc j) (x ∷ v) rest h k = get_or-take n j v rest (omega arith) (omega arith)

-- The element behind swap-and-pop at `i`.
get_or-swapped :
    (v : List ℕ) (i last j : ℕ)
    → length v ≡ suc last
    → j < last
    → get_or (resize last (if i == last then v else copy i last v)) j 0
      ≡ get_or v (if j == i then last else j) 0
unfolding resize
get_or-swapped v i last j len h = elim (Bool-cases (i == last)) [
  | inl at_end ↦
      let other : (j == i) ≡ false = ground arith in
      rw (at_end, other) (get_or-take last j v _ h (omega arith))
  | inr inside ↦ rw inside (
      get_or-take last j (copy i last v) _ h (rw length-set (omega arith))
      ∙ elim (Bool-cases (j == i)) [
        | inl here ↦
            let same : j ≡ i = ==→eq j i here in
            rw here (
              ap (λ (k : ℕ). get_or (copy i last v) k 0) same
              ∙ get_or-set_self v i _ 0 (omega arith))
        | inr there ↦ rw there (get_or-set_ne v i j _ 0 (λ e. ground arith))
      ])
]

-- The same with the test put by.
swapped_at :
    (b : Bool) (v : List ℕ) (i last j : ℕ)
    → b ≡ (i == last)
    → length v ≡ suc last
    → j < last
    → get_or (resize last (if b then v else copy i last v)) j 0
      ≡ get_or v (if j == i then last else j) 0
swapped_at b v i last j e len h =
    ap (λ (c : Bool). get_or (resize last (if c then v else copy i last v)) j 0) e
    ∙ get_or-swapped v i last j len h

swapped_mass :
    (o : Option ℕ) (b : Bool) (v : List ℕ) (i last j : ℕ)
    → b ≡ (i == last)
    → HasMasses o v (suc last)
    → j < last
    → mass_of o
        (if is_some o then (if b then v else v) else resize last (if b then v else copy i last v))
        j
      ≡ mass_of o v (if j == i then last else j)
swapped_mass none b v i last j e len h = swapped_at b v i last j e len h
swapped_mass (some m) b v i last j e len h = refl

twice_if :
    (b : Bool) (last : ℕ) (x y : List ℕ)
    → (if b then (if b then x else y) else resize last (if b then x else y))
      ≡ (if b then x else resize last y)
twice_if true last x y = refl
twice_if false last x y = refl

-- Shrinking to an owned prefix of a valid store throws nothing.
pub resize_internal-done :
    (n : ℕ) (s : ParticleStore)
    → IsValid s
    → n ≤ s.num_owned_particles
    → resize_internal n s ≡ done (shrink_all n s)
unfolding resize_internal
resize_internal-done n s v h =
    let inside : (ltb (size s) n || ltb s.num_owned_particles n) ≡ false =
      ground (arith, v.layout.owned) in
    rw ((layout_error_iff s).1 v.layout, inside) refl

module _ (i j last : ℕ) (s : ParticleStore) (v : IsValid s) where
  -- The store behind the shrinking.
  shrunk : Bool → ParticleStore
  shrunk b = record (shrink_all last (if b then s else overwrite i last s)) {
    num_owned_particles = last;
    accel_validity = invalid;
    ghost_validity = invalid;
  }

  -- The columns of such a store, with the test inside.
  same_row :
      (b : Bool)
      → b ≡ (i == last)
      → size s ≡ suc last
      → s.num_owned_particles ≡ suc last
      → j < last
      → (t : ParticleStore) → t.ids ≡ resize last (if b then s.ids else copy i last s.ids)
      → t.positions ≡ each (λ w. resize last (if b then w else copy i last w)) s.positions
      → t.momenta ≡ each (λ w. resize last (if b then w else copy i last w)) s.momenta
      → mass_of t.uniform_mass t.masses j
        ≡ mass_of s.uniform_mass
            (if is_some s.uniform_mass
              then (if b then s.masses else s.masses)
              else resize last (if b then s.masses else copy i last s.masses))
            j
      → row t j ≡ row s (if j == i then last else j)
  same_row b e len owned h t ids positions momenta masses =
      let at = λ (w : List ℕ) (k : length w ≡ suc last). swapped_at b w i last j e k h in
      let fits = subst (HasMasses s.uniform_mass s.masses) len v.layout.mass in
      let m = masses ∙ swapped_mass s.uniform_mass b s.masses i last j e fits h in
      let id = ap (λ (w : List ℕ). get_or w j 0) ids ∙ at s.ids (v.layout.id ∙ len) in
      let px = at s.positions.x len in
      let py = at s.positions.y (v.layout.position_y ∙ len) in
      let pz = at s.positions.z (v.layout.position_z ∙ len) in
      let mx = at s.momenta.x (v.layout.momentum.0 ∙ owned) in
      let my = at s.momenta.y (v.layout.momentum.1 ∙ owned) in
      let mz = at s.momenta.z (v.layout.momentum.2 ∙ owned) in
      let p =
        ap (λ (c : Columns). vec_at c j) positions ∙ λ n. record { x = px n; y = py n; z = pz n } in
      let q =
        ap (λ (c : Columns). vec_at c j) momenta ∙ λ n. record { x = mx n; y = my n; z = mz n } in
      λ n. record { id = id n; position = p n; momentum = q n; mass = m n }

  shrunk-row :
      (b : Bool)
      → b ≡ (i == last)
      → size s ≡ suc last
      → s.num_owned_particles ≡ suc last
      → j < last
      → row (shrunk b) j ≡ row s (if j == i then last else j)
  unfolding shrunk shrink_all overwrite
  shrunk-row true e len owned h = same_row true e len owned h (shrunk true) refl refl refl refl
  shrunk-row false e len owned h =
      let same = twice_if (is_some s.uniform_mass) last s.masses (copy i last s.masses) in
      same_row false e len owned h (shrunk false) refl refl refl
        (ap (λ (w : List ℕ). mass_of s.uniform_mass w j) same)

  removed_done :
      (b : Bool)
      → last ≤ s.num_owned_particles
      → after (resize_internal last (if b then s else overwrite i last s)) (λ t. record t {
        num_owned_particles = last;
        accel_validity = invalid;
        ghost_validity = invalid;
      })
        ≡ done (shrunk b)
  unfolding shrunk
  removed_done true h = rw (resize_internal-done last s v h) refl
  removed_done false h =
      let w = overwrite-IsValid i last s v in
      rw (resize_internal-done last (overwrite i last s) w (unfold overwrite in h)) refl

  owned_count : (b : Bool) → (shrunk b).num_owned_particles ≡ last
  unfolding shrunk
  owned_count b = refl

  shrunk-size : (b : Bool) → size (shrunk b) ≡ last
  unfolding shrunk shrink_all overwrite
  shrunk-size true = length-resize last _
  shrunk-size false = length-resize last _

-- Removing an owned particle from a valid store without ghosts throws nothing, the only particle
-- included, and takes out its row alone: the last row takes its place and all other places that are
-- left keep theirs.
pub remove_particle-rows :
    (i j : ℕ) (s : ParticleStore)
    → IsValid s
    → s.num_owned_particles ≡ size s
    → i < size s
    → (t : ParticleStore) × (remove_particle i s ≡ done t)
      × (size t + 1 ≡ size s)
      × (t.num_owned_particles ≡ size t)
      × ((size s ≤ j + 1) ⊎ (row t j ≡ row s (if j == i then size s - 1 else j)))
unfolding remove_particle shrunk
remove_particle-rows i j s v all inside =
    let last : ℕ = size s - 1 in
    let len : size s ≡ suc last = omega arith in
    let present : leb (size s) i ≡ false = ground arith in
    let no_ghosts : not (s.num_owned_particles == size s) ≡ false = ground arith in
    (
      shrunk i j last s v (i == last),
      rw (remove_particle, present, no_ghosts, (layout_error_iff s).1 v.layout)
          (removed_done i j last s v (i == last) (omega arith)),
      rw (shrunk-size i j last s v (i == last)) (omega arith),
      owned_count i j last s v (i == last) ∙ sym (shrunk-size i j last s v (i == last)),
      elim (Bool-cases (ltb j last)) [
        | inl below ↦ inr (shrunk-row i j last s v (i == last) refl len (all ∙ len) (omega tests))
        | inr past ↦ inl (omega tests)
      ],
    )

expanded-size : (o : Option ℕ) (s : ParticleStore) → size (expanded o s) ≡ size s
unfolding expanded
expanded-size none s = refl
expanded-size (some m) s = refl

expanded-mass :
    (o : Option ℕ) (j : ℕ) (s : ParticleStore)
    → s.uniform_mass ≡ o
    → HasMasses o s.masses (size s)
    → j < size s
    → mass_of (expanded o s).uniform_mass (expanded o s).masses j ≡ mass_of o s.masses j
unfolding expanded resize
expanded-mass (some m) j s e long h = get_or-replicate (size s) j m 0 h
expanded-mass none j s e long h = rw e (get_or-take (size s) j s.masses _ h (omega arith))

expanded-none :
    (o : Option ℕ) (s : ParticleStore) → s.uniform_mass ≡ o → (expanded o s).uniform_mass ≡ none
unfolding expanded
expanded-none none s e = e
expanded-none (some m) s e = refl

-- Giving up the uniform mass of a valid store throws nothing, leaves a store without one, an empty
-- store included, and `mass_at` answers as before at every index, inside and outside the store.
pub set_uniform_mass-none :
    (j : ℕ) (s : ParticleStore)
    → IsValid s
    → (t : ParticleStore) × (set_uniform_mass none s ≡ done t)
      × (t.uniform_mass ≡ none)
      × (size t ≡ size s)
      × (mass_at t j ≡ mass_at s j)
unfolding set_uniform_mass with_uniform_mass mass_at
set_uniform_mass-none j s v = (
  expanded s.uniform_mass s,
  rw ((layout_error_iff s).1 v.layout) refl,
  expanded-none s.uniform_mass s refl,
  expanded-size s.uniform_mass s,
  same_mass,
)
  where
    same_mass : mass_at (expanded s.uniform_mass s) j ≡ mass_at s j
    same_mass = elim (Bool-cases (leb (size s) j)) [
      | inl outside ↦ rw (expanded-size s.uniform_mass s, outside) refl
      | inr inside ↦
          rw (expanded-size s.uniform_mass s, inside)
            (ap (λ (m : ℕ). if false then inl index_out_of_range else inr m)
              (expanded-mass s.uniform_mass j s refl v.layout.mass (omega tests)))
    ]
