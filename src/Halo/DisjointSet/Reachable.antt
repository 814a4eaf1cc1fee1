-- ===== src/Halo/DisjointSet/Reachable.antt =====
-- src/halo/fof_membership.cpp: a new disjoint set, and sequences of `unite` on it.
use hyowon.Common.{
  ℕ, zero, suc, ◌+◌, ◌≤◌, ◌<◌, ◌≡◌, refl, ap, ◌∙◌, false, ltb, List, [], ◌∷◌, length, get_or,
  replicate, length-replicate, get_or-replicate, some, arith, All,
}
use hyowon.Halo.DisjointSet.{DisjointSet, numbers_from, disjoint_set, unite}
use hyowon.Halo.DisjointSet.Sizes.{root_total}
use hyowon.Halo.DisjointSet.Forest.{IsForest}
use hyowon.Halo.DisjointSet.Uniting.{unite-Joins}

length-numbers_from : (n i : ℕ) → length (numbers_from n i) ≡ n
unfolding numbers_from
length-numbers_from zero i = refl
length-numbers_from (suc n) i = ap suc (length-numbers_from n (i + 1))

get_or-numbers_from : (n i x : ℕ) → x < n → get_or (numbers_from n i) x 0 ≡ i + x
unfolding numbers_from
get_or-numbers_from zero i x h = absurd (omega arith)
get_or-numbers_from (suc n) i zero h = omega arith
get_or-numbers_from (suc n) i (suc x) h =
    get_or-numbers_from n (i + 1) x (omega arith) ∙ omega arith

total-ones : (n i : ℕ) → root_total i (numbers_from n i) (replicate n 1) ≡ n
unfolding numbers_from
total-ones zero i = refl
total-ones (suc n) i = ground (arith, total-ones n (i + 1))

-- A new set of `n` members is a forest of roots.
pub new-IsForest : (n : ℕ) → IsForest n (numbers_from n 0) (replicate n 1)
new-IsForest n = record {
  parents = length-numbers_from n 0;
  sizes = length-replicate n 1;
  inside = λ x h. omega (arith, get_or-numbers_from n 0 x h);
  grows = λ x h other. absurd (other (get_or-numbers_from n 0 x h ∙ omega arith));
  positive = λ x h. omega (arith, get_or-replicate {A = ℕ} n x 1 0 h);
  bounded = λ x h. omega (arith, get_or-replicate {A = ℕ} n x 1 0 h);
  total = total-ones n 0;
}

-- The pairs that are linked, in their order.
unfoldable pub unite_all : ℕ → List (ℕ × ℕ) → DisjointSet → DisjointSet
unite_all index_max [] s = s
unite_all index_max (p ∷ ps) s = unite_all index_max ps (unite index_max p.0 p.1 s)

abbrev pub Within : ℕ → ℕ × ℕ → Type 0
Within n p = (p.0 < n) × (p.1 < n)

unite_all-IsForest :
    (index_max n : ℕ) (ps : List (ℕ × ℕ)) (s : DisjointSet)
    → n ≤ index_max
    → All (Within n) ps
    → IsForest n s.parent s.component_sizes
    → let u = unite_all index_max ps s in IsForest n u.parent u.component_sizes
unfolding unite_all
unite_all-IsForest index_max n [] s fits all f = f
unite_all-IsForest index_max n (p ∷ ps) s fits all f =
    unite_all-IsForest index_max n ps (unite index_max p.0 p.1 s) fits all.1
      (unite-Joins n index_max p.0 p.1 s fits f all.0.0 all.0.1).forest

-- Behind every sequence of links of members of a new set that the index type counts, the set is a
-- forest in which the sizes of the roots add up to the count of the members.
pub reachable-IsForest :
    (index_max n : ℕ) (ps : List (ℕ × ℕ))
    → n ≤ index_max
    → All (Within n) ps
    → (s : DisjointSet) × (disjoint_set index_max n ≡ some s)
      × (let u = unite_all index_max ps s in IsForest n u.parent u.component_sizes)
unfolding disjoint_set
reachable-IsForest index_max n ps fits all =
    let room : ltb index_max n ≡ false = ground arith in
    let s : DisjointSet = record { parent = numbers_from n 0; component_sizes = replicate n 1 } in
    (s, rw room refl, unite_all-IsForest index_max n ps s fits all (new-IsForest n))
