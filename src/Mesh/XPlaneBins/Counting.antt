-- ===== src/Mesh/XPlaneBins/Counting.antt =====
-- src/mesh/mass_assignment_workspace.inc: the counts of the threads, and the offsets of the bins.
use native.Mathlib.Nat.{
  mul-div_cancel, le-div_iff_mul-le, zero-div, div-mul-le_self, le_trans, mod-eq_of_lt,
  mul-le-mul_left,
}
use hyowon.Common.{
  ℕ, zero, suc, ◌+◌, ◌-◌, ◌*◌, ◌/◌, ◌^◌, ◌<◌, ◌≤◌, ◌≡◌, sym, ap, ◌∙◌, ◌==◌, if◌then◌else◌, List, [],
  ◌∷◌, get_or, length, replicate, arith, Bool-cases, ==→eq, inl, inr, get_or-set_self,
  get_or-set_ne, length-set, length-replicate, get_or-replicate,
}
use hyowon.Mesh.XPlaneBins.{bump, first_particle, count_loop, thread_counts, bin_count}
use hyowon.Mesh.XPlaneBins.Occurrences.{occurrences, occurrences-add}

-- A row with one of its entries raised.
pub get_or-bump :
    (row : List ℕ) (base bin : ℕ)
    → base < length row
    → get_or (bump row base) bin 0 ≡ get_or row bin 0 + (if base == bin then 1 else 0)
get_or-bump row base bin h = elim (Bool-cases (base == bin)) [
  | inl same ↦
      let e = ==→eq base bin same in
      rw (same, ← e) (get_or-set_self row base (get_or row base 0 + 1) 0 h)
  | inr other ↦
      rw other
        (get_or-set_ne row base bin (get_or row base 0 + 1) 0 (λ e. ground arith) ∙ omega arith)
]

-- Where each of the particles is in some bin of a row.
module _ (bases : List ℕ) (mesh_size : ℕ)
    (inside : (p : ℕ) → p < length bases → get_or bases p 0 < mesh_size) where
  -- The loop raises each entry by the occurrences of its bin.
  pub count_loop-occurrences :
      (left particle bin : ℕ) (row : List ℕ)
      → length row ≡ mesh_size
      → particle + left ≤ length bases
      → (get_or (count_loop left particle bases row) bin 0
          ≡ get_or row bin 0 + occurrences bases bin left particle)
        × (length (count_loop left particle bases row) ≡ mesh_size)
  unfolding count_loop occurrences
  count_loop-occurrences zero particle bin row len h = (omega arith, len)
  count_loop-occurrences (suc left) particle bin row len h =
      let base : ℕ = get_or bases particle 0 in
      let base-lt : base < length row = omega (arith, inside particle (omega arith)) in
      let (total, len') =
        count_loop-occurrences left (particle + 1) bin (bump row base)
          (length-set row base (get_or row base 0 + 1) ∙ len) (omega arith) in
      (omega (arith, total, get_or-bump row base bin base-lt), len')

-- The parts of the threads are in order, and end with the last particle.
module _ (n team : ℕ) (some_threads : 0 < team) (small : n * team < 2 ^ 64) where
  pub first_particle-plain :
      (thread : ℕ) → thread ≤ team → first_particle n team thread ≡ n * thread / team
  unfolding first_particle
  first_particle-plain thread h =
      let le : n * thread ≤ n * team = mul-le-mul_left n h in
      ap (λ (t : ℕ). t / team) (mod-eq_of_lt (omega arith))

  pub first_particle-zero : first_particle n team 0 ≡ 0
  unfolding first_particle
  first_particle-zero = ap (λ (t : ℕ). t / team) (omega arith) ∙ zero-div team

  pub first_particle_last : first_particle n team team ≡ n
  first_particle_last = first_particle-plain team (omega arith) ∙ mul-div_cancel n some_threads

  pub first_particle_mono :
      (thread : ℕ)
      → thread < team
      → first_particle n team thread ≤ first_particle n team (thread + 1)
  first_particle_mono thread h =
      rw
        (first_particle-plain thread (omega arith), first_particle-plain (thread + 1) (omega arith))
        ((le-div_iff_mul-le some_threads).1
          (le_trans (div-mul-le_self (n * thread) team) (mul-le-mul_left n (omega arith))))

-- What the rows of the threads from `thread` on hold: the occurrences in their parts.
module _ (bases : List ℕ) (mesh_size team : ℕ) (some_threads : 0 < team)
    (small : length bases * team < 2 ^ 64)
    (inside : (p : ℕ) → p < length bases → get_or bases p 0 < mesh_size) where
  abbrev pub first : ℕ → ℕ
  first thread = first_particle (length bases) team thread

  pub first_mono : (thread : ℕ) → thread < team → first thread ≤ first (thread + 1)
  first_mono thread h = first_particle_mono (length bases) team some_threads small thread h

  first-le : (left thread : ℕ) → thread + left ≡ team → first thread ≤ length bases
  first-le zero thread h =
      let last : thread ≡ team = omega arith in
      rw last (omega (arith, first_particle_last (length bases) team some_threads small))
  first-le (suc left) thread h =
      omega (arith, first_mono thread (omega arith), first-le left (thread + 1) (omega arith))

  pub first-le_all : (thread : ℕ) → thread ≤ team → first thread ≤ length bases
  first-le_all thread h = first-le (team - thread) thread (omega arith)

  -- The part of a thread and the parts before it.
  pub first_step :
      (bin thread : ℕ)
      → thread < team
      → occurrences bases bin (first (thread + 1)) 0
        ≡ occurrences bases bin (first thread) 0
          + occurrences bases bin (first (thread + 1) - first thread) (first thread)
  first_step bin thread h =
      let le = first_mono thread h in
      let whole : first thread + (first (thread + 1) - first thread) ≡ first (thread + 1) =
        omega arith in
      let split = occurrences-add bases bin (first thread) (first (thread + 1) - first thread) 0 in
      let place : 0 + first thread ≡ first thread = omega arith in
      ap (λ (t : ℕ). occurrences bases bin t 0) (sym whole)
      ∙ split
      ∙ ap
          (λ (t : ℕ).
            occurrences bases bin (first thread) 0
            + occurrences bases bin (first (thread + 1) - first thread) t)
          place

  -- The rows of the threads from `thread` on.
  unfoldable pub AreCounts : ℕ → List (List ℕ) → Type 0
  AreCounts thread [] = thread ≡ team
  AreCounts thread (row ∷ rows) =
      (thread < team)
      × ((bin : ℕ)
          → bin < mesh_size
          → get_or row bin 0
            ≡ occurrences bases bin (first (thread + 1) - first thread) (first thread))
      × AreCounts (thread + 1) rows

  pub thread_counts-AreCounts :
      (left thread : ℕ)
      → thread + left ≡ team
      → AreCounts thread (thread_counts left thread team mesh_size bases)
  unfolding thread_counts AreCounts
  thread_counts-AreCounts zero thread h = omega arith
  thread_counts-AreCounts (suc left) thread h = (
    omega arith,
    λ bin lt.
        let le = first_mono thread (omega arith) in
        let end-le = first-le left (thread + 1) (omega arith) in
        let start = get_or-replicate {A = ℕ} mesh_size bin 0 0 lt in
        let (total, _) =
          count_loop-occurrences bases mesh_size inside
            (first_particle (length bases) team (thread + 1)
              - first_particle (length bases) team thread)
            (first_particle (length bases) team thread) bin (replicate mesh_size 0)
            (length-replicate {A = ℕ} mesh_size 0) (omega arith) in
        omega arith,
    thread_counts-AreCounts left (thread + 1) (omega arith),
  )

  -- The counts of a bin add up to its occurrences behind the threads before.
  pub bin_count-occurrences :
      (thread : ℕ) (rows : List (List ℕ)) (bin : ℕ)
      → bin < mesh_size
      → AreCounts thread rows
      → occurrences bases bin (first thread) 0 + bin_count rows bin
        ≡ occurrences bases bin (length bases) 0
  unfolding bin_count AreCounts
  bin_count-occurrences thread [] bin lt h = rw h (
      omega (
        arith,
        ap (λ (t : ℕ). occurrences bases bin t 0)
            (first_particle_last (length bases) team some_threads small),
      ))
  bin_count-occurrences thread (row ∷ rows) bin lt h = omega (
    arith,
    h.1 bin lt,
    first_step bin thread h.0,
    bin_count-occurrences (thread + 1) rows bin lt h.2,
  )
