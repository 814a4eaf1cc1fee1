-- ===== src/Halo/DisjointSet/Sizes.antt =====
-- src/halo/fof_membership.cpp: the sizes of a disjoint-set forest.
use hyowon.Common.{
  ℕ, zero, suc, ◌+◌, ◌≤◌, ◌<◌, ◌≡◌, ◌≢◌, ap, ◌==◌, if◌then◌else◌, List, [], ◌∷◌, length, get_or,
  set, arith,
}

-- The sizes of the roots from index `i` on, summed.
abbrev pub root_total : ℕ → List ℕ → List ℕ → ℕ
root_total i [] sizes = 0
root_total i (p ∷ ps) [] = 0
root_total i (p ∷ ps) (s ∷ ss) = (if p == i then s else 0) + root_total (i + 1) ps ss

-- A root's size is a part of the total.
pub root-le :
    (ps ss : List ℕ) (i j : ℕ)
    → j < length ps
    → length ss ≡ length ps
    → get_or ps j 0 ≡ i + j
    → get_or ss j 0 ≤ root_total i ps ss
root-le [] ss i j h len root = absurd (omega arith)
root-le (p ∷ ps) [] i j h len root = absurd (omega arith)
root-le (p ∷ ps) (s ∷ ss) i zero h len root = ground arith
root-le (p ∷ ps) (s ∷ ss) i (suc j) h len root =
    omega (arith, root-le ps ss (i + 1) j (omega arith) (omega arith) (omega arith))

-- A root that loses its place takes its size out of the total.
pub unrooted-total :
    (ps ss : List ℕ) (i j v : ℕ)
    → j < length ps
    → length ss ≡ length ps
    → get_or ps j 0 ≡ i + j
    → v ≢ i + j
    → root_total i (set ps j v) ss + get_or ss j 0 ≡ root_total i ps ss
unrooted-total [] ss i j v h len root other = absurd (omega arith)
unrooted-total (p ∷ ps) [] i j v h len root other = absurd (omega arith)
unrooted-total (p ∷ ps) (s ∷ ss) i zero v h len root other = ground arith
unrooted-total (p ∷ ps) (s ∷ ss) i (suc j) v h len root other = omega (
  arith,
  unrooted-total ps ss (i + 1) j v (omega arith) (omega arith) (omega arith)
      (λ e. other (omega arith)),
)

-- The parent of another member may change.
pub moved-total :
    (ps ss : List ℕ) (i j v : ℕ)
    → j < length ps
    → length ss ≡ length ps
    → get_or ps j 0 ≢ i + j
    → v ≢ i + j
    → root_total i (set ps j v) ss ≡ root_total i ps ss
moved-total [] ss i j v h len below other = absurd (omega arith)
moved-total (p ∷ ps) [] i j v h len below other = absurd (omega arith)
moved-total (p ∷ ps) (s ∷ ss) i zero v h len below other = ground arith
moved-total (p ∷ ps) (s ∷ ss) i (suc j) v h len below other =
    ap (λ (n : ℕ). (if p == i then s else 0) + n)
      (moved-total ps ss (i + 1) j v (omega arith) (omega arith) (λ e. below (omega arith))
        (λ e. other (omega arith)))

-- A root's size changes the total by as much.
pub resized-total :
    (ps ss : List ℕ) (i j v : ℕ)
    → j < length ps
    → length ss ≡ length ps
    → get_or ps j 0 ≡ i + j
    → root_total i ps (set ss j v) + get_or ss j 0 ≡ root_total i ps ss + v
resized-total [] ss i j v h len root = absurd (omega arith)
resized-total (p ∷ ps) [] i j v h len root = absurd (omega arith)
resized-total (p ∷ ps) (s ∷ ss) i zero v h len root = ground arith
resized-total (p ∷ ps) (s ∷ ss) i (suc j) v h len root =
    omega (arith, resized-total ps ss (i + 1) j v (omega arith) (omega arith) (omega arith))
