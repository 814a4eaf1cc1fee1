-- ===== src/Mesh/XPlaneBins/Occurrences.antt =====
-- src/mesh/mass_assignment_workspace.inc: how often a bin occurs, and the place of each particle.
use hyowon.Common.{
  ℕ, zero, suc, ◌+◌, ◌-◌, ◌<◌, ◌≤◌, ◌≡◌, ◌≢◌, refl, sym, ap, ltb, ◌==◌, if◌then◌else◌, List, get_or,
  length, arith, Bool-cases, ==→eq, inl, inr, tests,
}

module _ (bases : List ℕ) where
  -- Of `left` particles from `particle` on, how many are in the bin, and how many in a bin before it.
  unfoldable pub occurrences : ℕ → ℕ → ℕ → ℕ
  occurrences bin zero particle = 0
  occurrences bin (suc left) particle =
      (if get_or bases particle 0 == bin then 1 else 0) + occurrences bin left (particle + 1)

  unfoldable pub before : ℕ → ℕ → ℕ → ℕ
  before bin zero particle = 0
  before bin (suc left) particle =
      (if ltb (get_or bases particle 0) bin then 1 else 0) + before bin left (particle + 1)

  -- Where a particle belongs: behind all particles of the bins before its own, and behind the particles of
  -- its own bin that come before it.
  unfoldable pub slot : ℕ → ℕ
  slot particle =
      before (get_or bases particle 0) (length bases) 0
      + occurrences (get_or bases particle 0) particle 0

  pub occurrences-add :
      (bin m k particle : ℕ)
      → occurrences bin (m + k) particle
        ≡ occurrences bin m particle + occurrences bin k (particle + m)
  unfolding occurrences
  occurrences-add bin zero k particle =
      let start : 0 + k ≡ k = omega arith in
      let place : particle + 0 ≡ particle = omega arith in rw (start, place) (omega arith)
  occurrences-add bin (suc m) k particle =
      let start : suc m + k ≡ suc (m + k) = omega arith in
      let place : particle + 1 + m ≡ particle + suc m = omega arith in
      let rest = occurrences-add bin m k (particle + 1) in
      rw start (omega (arith, rest, ap (occurrences bin k) place))

  pub before-suc :
      (bin left particle : ℕ)
      → before (bin + 1) left particle ≡ before bin left particle + occurrences bin left particle
  unfolding before occurrences
  before-suc bin zero particle = omega arith
  before-suc bin (suc left) particle = ground (arith, before-suc bin left (particle + 1))

  pub before-zero : (left particle : ℕ) → before 0 left particle ≡ 0
  unfolding before
  before-zero zero particle = refl
  before-zero (suc left) particle = ground (arith, before-zero left (particle + 1))

  before_mono_add :
      (d bin left particle : ℕ) → before bin left particle ≤ before (bin + d) left particle
  before_mono_add zero bin left particle =
      let same : bin + 0 ≡ bin = omega arith in rw same (omega arith)
  before_mono_add (suc d) bin left particle =
      let next : bin + suc d ≡ bin + d + 1 = omega arith in
      rw next
        (omega (arith, before_mono_add d bin left particle, before-suc (bin + d) left particle))

  pub before_mono :
      (a b left particle : ℕ) → a ≤ b → before a left particle ≤ before b left particle
  before_mono a b left particle h =
      let whole : a + (b - a) ≡ b = omega arith in
      omega (
        arith,
        before_mono_add (b - a) a left particle,
        ap (λ (t : ℕ). before t left particle) whole,
      )

  pub before-le : (bin left particle : ℕ) → before bin left particle ≤ left
  unfolding before
  before-le bin zero particle = omega arith
  before-le bin (suc left) particle = ground (arith, before-le bin left (particle + 1))

  occurrences_here :
      (bin k particle : ℕ) → get_or bases particle 0 ≡ bin → 1 ≤ occurrences bin (suc k) particle
  unfolding occurrences
  occurrences_here bin k particle e = ground arith

  -- Of the particles up to `p`, which is in the bin, fewer come before it than there are up to a later one.
  occurrences_lt :
      (p q : ℕ) → p < q → occurrences (get_or bases p 0) p 0 < occurrences (get_or bases p 0) q 0
  occurrences_lt p q h =
      let bin : ℕ = get_or bases p 0 in
      let whole : p + suc (q - p - 1) ≡ q = omega arith in
      let split = occurrences-add bin p (suc (q - p - 1)) 0 in
      let own : 1 ≤ occurrences bin (suc (q - p - 1)) (0 + p) =
        occurrences_here bin (q - p - 1) (0 + p) (ap (λ (t : ℕ). get_or bases t 0) (omega arith)) in
      omega (arith, ap (λ (t : ℕ). occurrences bin t 0) whole)

  -- A slot lies in the range of its bin.
  pub slot_range :
      (p : ℕ)
      → p < length bases
      → (before (get_or bases p 0) (length bases) 0 ≤ slot p)
        × (slot p < before (get_or bases p 0 + 1) (length bases) 0)
  unfolding slot
  slot_range p h = (
    omega arith,
    omega
        (arith, before-suc (get_or bases p 0) (length bases) 0, occurrences_lt p (length bases) h),
  )

  pub slot-lt : (p : ℕ) → p < length bases → slot p < length bases
  slot-lt p h = omega (arith, (slot_range p h).1, before-le (get_or bases p 0 + 1) (length bases) 0)

  slot_as :
      (a q : ℕ) → get_or bases q 0 ≡ a → slot q ≡ before a (length bases) 0 + occurrences a q 0
  unfolding slot
  slot_as a q e = ap (λ (t : ℕ). before t (length bases) 0 + occurrences t q 0) e

  -- Different particles have different slots.
  pub slot-ne : (p q : ℕ) → p < q → q < length bases → slot p ≢ slot q
  slot-ne p q h k e =
      let a : ℕ = get_or bases p 0 in
      let b : ℕ = get_or bases q 0 in
      let n : ℕ = length bases in
      let (p1, p2) = slot_range p (omega arith) in
      let (q1, q2) = slot_range q k in
      elim (Bool-cases (a == b)) [
        | inl same ↦
            omega
              (arith, occurrences_lt p q h, slot_as a p refl, slot_as a q (sym (==→eq a b same)))
        | inr other ↦ elim (Bool-cases (ltb a b)) [
          | inl less ↦ omega (arith, before_mono (a + 1) b n 0 (omega tests))
          | inr more ↦ omega (arith, before_mono (b + 1) a n 0 (ground arith))
        ]
      ]
