-- ===== src/Halo/DisjointSet.antt =====
-- src/halo/fof_membership.cpp: the disjoint-set forest of the friends-of-friends finder, for an index
-- type of any width.
pub mod Sizes
pub mod Forest
pub mod Uniting
pub mod Reachable
mod Examples
use hyowon.Common.{
  ℕ, zero, suc, ◌+◌, ◌%◌, Bool, ltb, leb, ◌==◌, if◌then◌else◌, List, [], ◌∷◌, length, get_or, set,
  replicate, ◌⊎◌, inl, inr, Option, none, some,
}

pub record DisjointSet : Type 0 where
  pub parent : List ℕ
  pub component_sizes : List ℕ

-- The first `count` numbers from `first` on.
unfoldable pub numbers_from : ℕ → ℕ → List ℕ
numbers_from zero first = []
numbers_from (suc count) first = first ∷ numbers_from count (first + 1)

-- `none` is the exception on a count that the index type, up to `index_max`, cannot represent.
unfoldable pub disjoint_set : ℕ → ℕ → Option DisjointSet
disjoint_set index_max count =
    if ltb index_max count
    then none
    else some (record { parent = numbers_from count 0; component_sizes = replicate count 1 })

-- `find` on the parents, in so many steps at most: the parents behind it, and the root.
unfoldable pub find_loop : ℕ → List ℕ → ℕ → List ℕ × ℕ
find_loop zero parent particle = (parent, particle)
find_loop (suc fuel) parent particle =
    let (compressed, root) = find_loop fuel parent (get_or parent particle 0) in
    if get_or parent particle 0 == particle
    then (parent, particle)
    else (set compressed particle root, root)

-- A path of parents has no more than `length parent` members.
unfoldable pub find : List ℕ → ℕ → List ℕ × ℕ
find parent particle = find_loop (length parent) parent particle

-- The smaller root of two is put below the other; `index_max + 1` values wrap round.
unfoldable pub link : ℕ → ℕ → ℕ → DisjointSet → DisjointSet
link index_max lhs_root rhs_root s =
    let lhs_size = get_or s.component_sizes lhs_root 0 in
    let rhs_size = get_or s.component_sizes rhs_root 0 in
    let total = (lhs_size + rhs_size) % (index_max + 1) in
    if lhs_root == rhs_root
    then s
    else if ltb lhs_size rhs_size
    then record {
      parent = set s.parent lhs_root rhs_root;
      component_sizes = set s.component_sizes rhs_root total;
    }
    else record {
      parent = set s.parent rhs_root lhs_root;
      component_sizes = set s.component_sizes lhs_root total;
    }

unfoldable pub unite : ℕ → ℕ → ℕ → DisjointSet → DisjointSet
unite index_max lhs rhs s =
    let (lhs_found, lhs_root) = find s.parent lhs in
    let (rhs_found, rhs_root) = find lhs_found rhs in
    link index_max lhs_root rhs_root (record s { parent = rhs_found })

unfoldable pub component_size : DisjointSet → ℕ → ℕ
component_size s root = get_or s.component_sizes root 0
