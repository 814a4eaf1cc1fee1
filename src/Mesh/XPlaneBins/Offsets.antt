-- ===== src/Mesh/XPlaneBins/Offsets.antt =====
-- src/mesh/mass_assignment_workspace.inc: the offsets of the bins, and where each thread begins in them.
use hyowon.Common.{
  ℕ, zero, suc, ◌+◌, ◌*◌, ◌^◌, ◌<◌, ◌≤◌, ◌≡◌, ap, subst, ◌∙◌, ◌==◌, List, [], ◌∷◌, get_or, set,
  length, replicate, arith, Bool-cases, ==→eq, inl, inr, get_or-set_self, get_or-set_ne, length-set,
  length-replicate,
}
use hyowon.Mesh.XPlaneBins.{bin_count, offsets_loop, owners_loop, thread_offsets}
use hyowon.Mesh.XPlaneBins.Occurrences.{occurrences, before, before-suc}
use hyowon.Mesh.XPlaneBins.Counting.{
  first, first_particle-zero, first_step, AreCounts, bin_count-occurrences,
}

module _ (bases : List ℕ) (mesh_size team : ℕ) (some_threads : 0 < team)
    (small : length bases * team < 2 ^ 64)
    (inside : (p : ℕ) → p < length bases → get_or bases p 0 < mesh_size) where
  abbrev pub Counts : ℕ → List (List ℕ) → Type 0
  Counts thread rows = AreCounts bases mesh_size team some_threads small inside thread rows

  abbrev pub begins : ℕ → ℕ
  begins thread = first bases mesh_size team some_threads small inside thread

  none_before : (bin : ℕ) → occurrences bases bin (begins 0) 0 ≡ 0
  unfolding occurrences
  none_before bin =
      ap (λ (t : ℕ). occurrences bases bin t 0)
        (first_particle-zero (length bases) team some_threads small)

  pub offsets_loop-before :
      (left bin : ℕ) (rows : List (List ℕ)) (offsets : List ℕ)
      → bin + left ≡ mesh_size
      → length offsets ≡ mesh_size + 1
      → Counts 0 rows
      → ((b : ℕ) → b ≤ bin → get_or offsets b 0 ≡ before bases b (length bases) 0)
      → (b : ℕ) → b ≤ mesh_size
      → get_or (offsets_loop left bin rows offsets) b 0 ≡ before bases b (length bases) 0
  unfolding offsets_loop
  offsets_loop-before zero bin rows offsets h len counts filled b le = filled b (omega arith)
  offsets_loop-before (suc left) bin rows offsets h len counts filled b le =
      let v : ℕ = get_or offsets bin 0 + bin_count rows bin in
      offsets_loop-before left (bin + 1) rows (set offsets (bin + 1) v) (omega arith)
        (length-set offsets (bin + 1) v ∙ len) counts
        (λ c c-le. elim (Bool-cases (bin + 1 == c)) [
          | inl same ↦
              let e = ==→eq (bin + 1) c same in
              let written = get_or-set_self offsets (bin + 1) v 0 (omega arith) in
              let all =
                bin_count-occurrences bases mesh_size team some_threads small inside 0 rows bin
                  (omega arith) counts in
              let start = none_before bin in
              let own = filled bin (omega arith) in
              subst
                (λ (t : ℕ). get_or (set offsets (bin + 1) v) t 0 ≡ before bases t (length bases) 0)
                e (omega (arith, written, all, start, own, before-suc bases bin (length bases) 0))
          | inr other ↦
              get_or-set_ne offsets (bin + 1) c v 0 (λ e. ground arith) ∙ filled c (ground arith)
        ])
        b le

  -- The rows of the threads from `thread` on, written for the first bins.
  unfoldable pub ArePlaced : ℕ → ℕ → List (List ℕ) → Type 0
  ArePlaced bins thread [] = thread ≡ team
  ArePlaced bins thread (row ∷ rows) =
      (thread < team)
      × (length row ≡ mesh_size)
      × ((bin : ℕ)
          → bin < bins
          → get_or row bin 0
            ≡ before bases bin (length bases) 0 + occurrences bases bin (begins thread) 0)
      × ArePlaced bins (thread + 1) rows

  none-ArePlaced :
      (left thread : ℕ)
      → thread + left ≡ team
      → ArePlaced 0 thread (replicate left (replicate mesh_size 0))
  unfolding ArePlaced
  none-ArePlaced zero thread h = omega arith
  none-ArePlaced (suc left) thread h = (
    omega arith,
    length-replicate {A = ℕ} mesh_size 0,
    λ bin lt. absurd (omega arith),
    none-ArePlaced left (thread + 1) (omega arith),
  )

  owners_loop-ArePlaced :
      (cursor bin thread : ℕ) (rows offset_rows : List (List ℕ))
      → bin < mesh_size
      → cursor ≡ before bases bin (length bases) 0 + occurrences bases bin (begins thread) 0
      → Counts thread rows
      → ArePlaced bin thread offset_rows
      → ArePlaced (bin + 1) thread (owners_loop cursor bin rows offset_rows)
  unfolding owners_loop ArePlaced AreCounts
  owners_loop-ArePlaced cursor bin thread [] [] lt e counts placed = placed
  owners_loop-ArePlaced cursor bin thread [] (o ∷ os) lt e counts placed =
      absurd (omega (arith, counts, placed.0))
  owners_loop-ArePlaced cursor bin thread (c ∷ cs) [] lt e counts placed =
      absurd (omega (arith, counts.0, placed))
  owners_loop-ArePlaced cursor bin thread (c ∷ cs) (o ∷ os) lt e counts placed = (
    counts.0,
    length-set o bin cursor ∙ placed.1,
    λ b b-lt. elim (Bool-cases (bin == b)) [
      | inl same ↦
          subst
            (λ (t : ℕ).
              get_or (set o bin cursor) t 0
              ≡ before bases t (length bases) 0 + occurrences bases t (begins thread) 0)
            (==→eq bin b same) (get_or-set_self o bin cursor 0 (omega (arith, placed.1)) ∙ e)
      | inr other ↦ get_or-set_ne o bin b cursor 0 (λ q. ground arith) ∙ placed.2 b (ground arith)
    ],
    owners_loop-ArePlaced (cursor + get_or c bin 0) bin (thread + 1) cs os lt
        (omega (
          arith,
          counts.1 bin lt,
          first_step bases mesh_size team some_threads small inside bin thread counts.0,
        ))
        counts.2 placed.3,
  )

  thread_offsets_loop :
      (left bin : ℕ) (offsets : List ℕ) (rows offset_rows : List (List ℕ))
      → bin + left ≡ mesh_size
      → ((b : ℕ) → b ≤ mesh_size → get_or offsets b 0 ≡ before bases b (length bases) 0)
      → Counts 0 rows
      → ArePlaced bin 0 offset_rows
      → ArePlaced mesh_size 0 (thread_offsets left bin offsets rows offset_rows)
  unfolding thread_offsets
  thread_offsets_loop zero bin offsets rows offset_rows h filled counts placed =
      subst (λ (t : ℕ). ArePlaced t 0 offset_rows) (omega arith) placed
  thread_offsets_loop (suc left) bin offsets rows offset_rows h filled counts placed =
      thread_offsets_loop left (bin + 1) offsets rows _ (omega arith) filled counts (
        owners_loop-ArePlaced (get_or offsets bin 0) bin 0 rows offset_rows (omega arith)
          (omega (arith, filled bin (omega arith), none_before bin)) counts placed)

  -- Each thread begins in a bin behind the particles of the threads before it.
  pub thread_offsets-ArePlaced :
      (offsets : List ℕ) (rows : List (List ℕ))
      → ((b : ℕ) → b ≤ mesh_size → get_or offsets b 0 ≡ before bases b (length bases) 0)
      → Counts 0 rows
      → ArePlaced mesh_size 0
          (thread_offsets mesh_size 0 offsets rows (replicate team (replicate mesh_size 0)))
  thread_offsets-ArePlaced offsets rows filled counts =
      thread_offsets_loop mesh_size 0 offsets rows _ (omega arith) filled counts
        (none-ArePlaced team 0 (omega arith))
