-- ===== src/Halo/DisjointSet/Examples.antt =====
-- Runs of a disjoint set, and its theorems at concrete inputs.
use hyowon.Common.{ℕ, ◌≡◌, refl, some, List, [], ◌∷◌, replicate, arith}
use hyowon.Halo.DisjointSet.{
  DisjointSet, numbers_from, disjoint_set, find_loop, find, link, unite, component_size,
}
use hyowon.Halo.DisjointSet.Forest.{IsForest}
use hyowon.Halo.DisjointSet.Uniting.{Joins, unite-Joins}
use hyowon.Halo.DisjointSet.Reachable.{new-IsForest, unite_all, reachable-IsForest}

program : Unit {0}
unfolding numbers_from disjoint_set find_loop find link unite component_size unite_all
program = tt

abbrev four : DisjointSet
four = record { parent = numbers_from 4 0; component_sizes = replicate 4 1 }

abbrev three_pairs : List (ℕ × ℕ)
three_pairs = (0, 1) ∷ (3, 2) ∷ (2, 1) ∷ []

-- All four members are below the root 3.
unite_all-run : (unite_all 255 three_pairs four).parent ≡ 3 ∷ 0 ∷ 3 ∷ 3 ∷ []
unfolding program
unite_all-run = refl

component_size-run : component_size (unite_all 255 three_pairs four) 3 ≡ 4
unfolding program
component_size-run = refl

unite-Joins_example : Joins 4 1 3 four (unite 255 1 3 four)
unite-Joins_example =
    unite-Joins 4 255 1 3 four (omega arith) (new-IsForest 4) (omega arith) (omega arith)

reachable-IsForest_example :
    (s : DisjointSet) × (disjoint_set 255 4 ≡ some s)
    × IsForest 4 (unite_all 255 three_pairs s).parent (unite_all 255 three_pairs s).component_sizes
reachable-IsForest_example =
    reachable-IsForest 255 4 three_pairs (omega arith)
      ((omega arith, omega arith), ((omega arith, omega arith), ((omega arith, omega arith), tt)))
