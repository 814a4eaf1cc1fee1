-- ===== src/Mesh/XPlaneBins/Scatter.antt =====
-- src/mesh/mass_assignment_workspace.inc: the particles written at their slots.
use hyowon.Common.{
  ℕ, zero, suc, ◌+◌, ◌-◌, ◌*◌, ◌^◌, ◌<◌, ◌≤◌, ◌≡◌, refl, sym, ap, subst, ◌∙◌, ◌&&◌, ltb, leb, ◌==◌,
  if◌then◌else◌, List, [], ◌∷◌, get_or, set, length, arith, false, Bool-cases, ==→eq, inl, inr,
  get_or-set_self, get_or-set_ne, length-set,
}
use hyowon.Common.Fallible.{ok}
use hyowon.Mesh.XPlaneBins.{
  bump, is_compact, uint32_max, set_particle, first_particle, scatter_loop, scatter_threads,
}
use hyowon.Mesh.XPlaneBins.Occurrences.{
  occurrences, occurrences-add, before, slot, slot-lt, slot-ne,
}
use hyowon.Mesh.XPlaneBins.Counting.{
  get_or-bump, first_mono, first-le_all, first_particle_last, first_particle-zero,
}
use hyowon.Mesh.XPlaneBins.Offsets.{ArePlaced, begins}

module _ (bases : List ℕ) (mesh_size team : ℕ) (some_threads : 0 < team)
    (small : length bases * team < 2 ^ 64)
    (inside : (p : ℕ) → p < length bases → get_or bases p 0 < mesh_size) where
  -- The row of a thread before it writes a particle.
  record AtParticle (particle : ℕ) (row : List ℕ) : Type 0 where
    width : length row ≡ mesh_size
    cursors :
        (bin : ℕ)
        → bin < mesh_size
        → get_or row bin 0 ≡ before bases bin (length bases) 0 + occurrences bases bin particle 0

  -- The particles below one are written at their slots.
  pub record Written (particle : ℕ) (order : List ℕ) : Type 0 where
    pub extent : length order ≡ length bases
    pub placed : (p : ℕ) → p < particle → get_or order (slot bases p) 0 ≡ p

  set_particle-ok :
      (order : List ℕ) (cursor particle : ℕ)
      → particle < length bases
      → set_particle (is_compact (length bases)) order cursor particle
        ≡ ok (set order cursor particle)
  unfolding set_particle is_compact
  set_particle-ok order cursor particle h =
      let fits : (leb (length bases) (uint32_max + 1) && ltb uint32_max particle) ≡ false =
        ground arith in
      rw fits

  cursor-slot :
      (particle : ℕ) (row : List ℕ)
      → particle < length bases
      → AtParticle particle row
      → get_or row (get_or bases particle 0) 0 ≡ slot bases particle
  unfolding slot
  cursor-slot particle row h at_row = at_row.cursors (get_or bases particle 0) (inside particle h)

  occurrences_next :
      (bin particle : ℕ)
      → occurrences bases bin (particle + 1) 0
        ≡ occurrences bases bin particle 0 + (if get_or bases particle 0 == bin then 1 else 0)
  unfolding occurrences
  occurrences_next bin particle =
      let split = occurrences-add bases bin particle 1 0 in
      let place : 0 + particle ≡ particle = omega arith in
      let one = ap (λ (t : ℕ). occurrences bases bin 1 t) place in omega arith

  bump-AtParticle :
      (particle : ℕ) (row : List ℕ)
      → particle < length bases
      → AtParticle particle row
      → AtParticle (particle + 1) (bump row (get_or bases particle 0))
  bump-AtParticle particle row h at_row =
      let base : ℕ = get_or bases particle 0 in
      let base-lt = inside particle h in
      let width = at_row.width in
      record {
        width = length-set row base (get_or row base 0 + 1) ∙ at_row.width;
        cursors = λ bin lt. omega (
          arith,
          get_or-bump row base bin (omega arith),
          at_row.cursors bin lt,
          occurrences_next bin particle,
        );
      }

  set-Written :
      (particle : ℕ) (order : List ℕ)
      → particle < length bases
      → Written particle order
      → Written (particle + 1) (set order (slot bases particle) particle)
  set-Written particle order h written =
      let extent = written.extent in
      record {
        extent = length-set order (slot bases particle) particle ∙ written.extent;
        placed = λ p lt. elim (Bool-cases (p == particle)) [
          | inl same ↦
              let e = ==→eq p particle same in
              rw e (
                get_or-set_self order (slot bases particle) particle 0
                  (omega (arith, slot-lt bases particle h)))
          | inr other ↦
              get_or-set_ne order (slot bases particle) (slot bases p) particle 0
                (λ e. slot-ne bases p particle (ground arith) h (sym e))
              ∙ written.placed p (ground arith)
        ];
      }

  scatter_loop-Written :
      (left particle : ℕ) (row order : List ℕ)
      → particle + left ≤ length bases
      → AtParticle particle row
      → Written particle order
      → (order' : List ℕ) × (scatter_loop (is_compact (length bases)) left particle bases row order
          ≡ ok order')
        × Written (particle + left) order'
  unfolding scatter_loop
  scatter_loop-Written zero particle row order h at_row written =
      (order, refl, subst (λ (t : ℕ). Written t order) (omega arith) written)
  scatter_loop-Written (suc left) particle row order h at_row written =
      let here : particle < length bases = omega arith in
      let stored =
        ap (λ (c : ℕ). set_particle (is_compact (length bases)) order c particle)
          (cursor-slot particle row here at_row)
        ∙ set_particle-ok order (slot bases particle) particle here in
      let (order', e, written') =
        scatter_loop-Written left (particle + 1) (bump row (get_or bases particle 0))
          (set order (slot bases particle) particle) (omega arith)
          (bump-AtParticle particle row here at_row) (set-Written particle order here written) in
      (order', rw stored e, subst (λ (t : ℕ). Written t order') (omega arith) written')

  -- The threads from `thread` on, whose rows are placed, write all particles from theirs on.
  scatter_threads-Written :
      (thread : ℕ) (rows : List (List ℕ)) (order : List ℕ)
      → ArePlaced bases mesh_size team some_threads small inside mesh_size thread rows
      → Written (begins bases mesh_size team some_threads small inside thread) order
      → (order' : List ℕ) × (scatter_threads
            (is_compact (length bases))
            thread
            team
            bases
            rows
            order
          ≡ ok order')
        × Written (length bases) order'
  unfolding scatter_threads ArePlaced
  scatter_threads-Written thread [] order placed written =
      let last : begins bases mesh_size team some_threads small inside thread ≡ length bases =
        ap (λ (t : ℕ). first_particle (length bases) team t) placed
        ∙ first_particle_last (length bases) team some_threads small in
      (order, refl, subst (λ (t : ℕ). Written t order) last written)
  scatter_threads-Written thread (row ∷ rows) order placed written =
      let begin : ℕ = begins bases mesh_size team some_threads small inside thread in
      let end : ℕ = begins bases mesh_size team some_threads small inside (thread + 1) in
      let le = first_mono bases mesh_size team some_threads small inside thread placed.0 in
      let whole : begin + (end - begin) ≡ end = omega arith in
      let end-le =
        first-le_all bases mesh_size team some_threads small inside (thread + 1)
          (omega (arith, placed.0)) in
      let (order', e, written') =
        scatter_loop-Written (end - begin) begin row order (omega arith)
          (record { width = placed.1; cursors = placed.2 }) written in
      let (order'', e', written'') =
        scatter_threads-Written (thread + 1) rows order' placed.3
          (subst (λ (t : ℕ). Written t order') whole written') in
      (order'', rw e e', written'')

  -- All threads together write each particle at its slot, and throw nothing.
  pub scatter-Written :
      (rows : List (List ℕ)) (order : List ℕ)
      → ArePlaced bases mesh_size team some_threads small inside mesh_size 0 rows
      → length order ≡ length bases
      → (order' : List ℕ) × (scatter_threads (is_compact (length bases)) 0 team bases rows order
          ≡ ok order')
        × Written (length bases) order'
  scatter-Written rows order placed len = scatter_threads-Written 0 rows order placed (record {
    extent = len;
    placed =
        λ p lt. absurd (omega (arith, first_particle-zero (length bases) team some_threads small));
  })
