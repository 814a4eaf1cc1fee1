-- ===== src/Halo/DisjointSet/Forest.antt =====
-- src/halo/fof_membership.cpp: the forest of a disjoint set, the root of a member, and the search for it.
use hyowon.Common.{
  ℕ, zero, suc, ◌+◌, ◌≤◌, ◌<◌, ◌≡◌, ◌≢◌, refl, sym, ap, subst, ◌∙◌, ◌==◌, List, length, get_or, set,
  length-set, get_or-set_self, get_or-set_ne, arith, Bool-cases, inl, inr, ◌⊎◌, ==→eq,
}
use hyowon.Halo.DisjointSet.{find_loop, find}
use hyowon.Halo.DisjointSet.Sizes.{root_total, moved-total}

-- Sizes grow along the parents, and the roots' sizes count the members.
pub record IsForest (n : ℕ) (ps ss : List ℕ) : Type 0 where
  pub parents : length ps ≡ n
  pub sizes : length ss ≡ n
  pub inside : (x : ℕ) → x < n → get_or ps x 0 < n
  pub grows : (x : ℕ) → x < n → get_or ps x 0 ≢ x → get_or ss x 0 < get_or ss (get_or ps x 0) 0
  pub positive : (x : ℕ) → x < n → 0 < get_or ss x 0
  pub bounded : (x : ℕ) → x < n → get_or ss x 0 ≤ n
  pub total : root_total 0 ps ss ≡ n

-- The member at the end of the path of parents.
pub data RootOf (ps : List ℕ) : ℕ → ℕ → Type 0 where
  at : (r : ℕ) → get_or ps r 0 ≡ r → RootOf ps r r
  up : (x r : ℕ) → get_or ps x 0 ≢ x → RootOf ps (get_or ps x 0) r → RootOf ps x r

pub RootOf-unique : (ps : List ℕ) (x r t : ℕ) → RootOf ps x r → RootOf ps x t → r ≡ t
RootOf-unique ps x r t (at _ e) (at _ f) = refl
RootOf-unique ps x r t (at _ e) (up _ _ other rest) = absurd (other e)
RootOf-unique ps x r t (up _ _ other rest) (at _ f) = absurd (other f)
RootOf-unique ps x r t (up _ _ other rest) (up _ _ other' rest') =
    RootOf-unique ps (get_or ps x 0) r t rest rest'

pub RootOf-root : (ps : List ℕ) (x r : ℕ) → RootOf ps x r → get_or ps r 0 ≡ r
RootOf-root ps x r (at _ e) = e
RootOf-root ps x r (up _ _ other rest) = RootOf-root ps (get_or ps x 0) r rest

-- The root of a member is a member, and has the greatest size on the path.
pub RootOf-size :
    (n : ℕ) (ps ss : List ℕ) (x r : ℕ)
    → IsForest n ps ss
    → x < n
    → RootOf ps x r
    → (r < n) × (get_or ss x 0 ≤ get_or ss r 0)
RootOf-size n ps ss x r f h (at _ e) = (h, omega arith)
RootOf-size n ps ss x r f h (up _ _ other rest) =
    let (inside, le) = RootOf-size n ps ss (get_or ps x 0) r f (f.inside x h) rest in
    (inside, omega (arith, f.grows x h other))

-- What a written list holds at a member.
pub written :
    (ps : List ℕ) (x v y : ℕ)
    → x < length ps
    → ((y ≡ x) × (get_or (set ps x v) y 0 ≡ v))
      ⊎ ((x ≢ y) × (get_or (set ps x v) y 0 ≡ get_or ps y 0))
written ps x v y h = elim (Bool-cases (y == x)) [
  | inl same ↦
      let e : y ≡ x = ==→eq y x same in
      inl (e, ap (λ (z : ℕ). get_or (set ps x v) z 0) e ∙ get_or-set_self ps x v 0 h)
  | inr other ↦ let apart : x ≢ y = λ e. ground arith in inr (apart, get_or-set_ne ps x y v 0 apart)
]

-- The root of a member that is no root.
pub above_member :
    (n : ℕ) (ps ss : List ℕ) (x r : ℕ)
    → IsForest n ps ss
    → x < n
    → get_or ps x 0 ≢ x
    → RootOf ps x r
    → (r < n) × (get_or ss x 0 < get_or ss r 0)
above_member n ps ss x r f h other (at _ e) = absurd (other e)
above_member n ps ss x r f h other (up _ _ _ rest) =
    let (inside, le) = RootOf-size n ps ss (get_or ps x 0) r f (f.inside x h) rest in
    (inside, omega (arith, f.grows x h other))

module _ (n : ℕ) (ps ss : List ℕ) (x r : ℕ) (f : IsForest n ps ss) (h : x < n)
    (other : get_or ps x 0 ≢ x) (root : RootOf ps x r) where
  apart_from_root : x ≢ r
  apart_from_root e = other (ap (λ (z : ℕ). get_or ps z 0) e ∙ RootOf-root ps x r root ∙ sym e)

  member : x < length ps
  member = omega (arith, f.parents)

  still_root : get_or (set ps x r) r 0 ≡ r
  still_root = get_or-set_ne ps x r r 0 apart_from_root ∙ RootOf-root ps x r root

  -- Paths in the compressed forest.
  pub compressed-RootOf : (y t : ℕ) → RootOf ps y t → RootOf (set ps x r) y t
  compressed-RootOf y t (at _ e) = elim (written ps x r y member) [
    | inl (same, value) ↦ absurd (other (ap (λ (z : ℕ). get_or ps z 0) (sym same) ∙ e ∙ same))
    | inr (apart, value) ↦ at y (value ∙ e)
  ]
  compressed-RootOf y t (up _ _ below rest) = elim (written ps x r y member) [
    | inl (same, value) ↦
        let path : RootOf ps x t = subst (λ z. RootOf ps z t) same (up y t below rest) in
        let e : t ≡ r = RootOf-unique ps x t r path root in
        subst (RootOf (set ps x r) y) (sym e) (
          up y r (λ q. apart_from_root (sym same ∙ sym q ∙ value))
            (subst (λ z. RootOf (set ps x r) z r) (sym value) (at r still_root)))
    | inr (apart, value) ↦
        up y t (λ q. below (sym value ∙ q))
          (subst (λ z. RootOf (set ps x r) z t) (sym value)
            (compressed-RootOf (get_or ps y 0) t rest))
  ]

  pub compressed-IsForest : IsForest n (set ps x r) ss
  compressed-IsForest =
      let (r_in, lt) = above_member n ps ss x r f h other root in
      record {
        parents = length-set ps x r ∙ f.parents;
        sizes = f.sizes;
        inside = λ y k. elim (written ps x r y member) [
          | inl (same, value) ↦ rw value r_in
          | inr (apart, value) ↦ rw value (f.inside y k)
        ];
        grows = λ y k m. elim (written ps x r y member) [
          | inl (same, value) ↦ rw (value, same) lt
          | inr (apart, value) ↦ rw value (f.grows y k (λ q. m (value ∙ q)))
        ];
        positive = f.positive;
        bounded = f.bounded;
        total =
            moved-total ps ss 0 x r member (omega (arith, f.parents, f.sizes))
              (λ e. other (omega arith)) (λ e. apart_from_root (omega arith))
            ∙ f.total;
      }

-- What a search leaves: a forest on the same sizes in which every member has the root that it had.
pub record Keeps (n : ℕ) (ps ss qs : List ℕ) : Type 0 where
  pub forest : IsForest n qs ss
  pub roots : (y t : ℕ) → RootOf ps y t → RootOf qs y t

-- The search for the root of `x`: it ends, in at most as many steps as the forest has members.
pub data Finds (n : ℕ) (ps ss : List ℕ) (x : ℕ) : List ℕ × ℕ → Type 0 where
  finds : (qs : List ℕ) (r : ℕ) → r < n → RootOf ps x r → Keeps n ps ss qs → Finds n ps ss x (qs, r)

find_loop-Finds :
    (fuel n : ℕ) (ps ss : List ℕ) (x : ℕ)
    → IsForest n ps ss
    → x < n
    → n < get_or ss x 0 + fuel
    → Finds n ps ss x (find_loop fuel ps x)
unfolding find_loop
find_loop-Finds zero n ps ss x f h enough = absurd (omega (arith, f.bounded x h))
find_loop-Finds (suc fuel) n ps ss x f h enough = elim (Bool-cases (get_or ps x 0 == x)) [
  | inl end ↦
      let e : get_or ps x 0 ≡ x = ==→eq _ x end in
      rw end (finds ps x h (at x e) (record { forest = f; roots = λ y t path. path }))
  | inr below ↦
      let other : get_or ps x 0 ≢ x = λ e. ground arith in
      let higher = f.grows x h other in
      rw below (
        compressed other (find_loop fuel ps (get_or ps x 0))
          (find_loop-Finds fuel n ps ss (get_or ps x 0) f (f.inside x h) (omega arith)))
]
  where
    compressed :
        get_or ps x 0 ≢ x
        → (found : List ℕ × ℕ) → Finds n ps ss (get_or ps x 0) found
        → Finds n ps ss x (set found.0 x found.1, found.1)
    compressed other found (finds qs r r_in root k) =
        let path : RootOf ps x r = up x r other root in
        let path' = k.roots x r path in
        let still : get_or qs x 0 ≢ x = λ e. other (
          ap (λ (z : ℕ). get_or ps z 0) (RootOf-unique qs x x r (at x e) path')
          ∙ RootOf-root ps x r path
          ∙ sym (RootOf-unique qs x x r (at x e) path')) in
        finds (set qs x r) r r_in path (record {
          forest = compressed-IsForest n qs ss x r k.forest h still path';
          roots = λ y t walk.
              compressed-RootOf n qs ss x r k.forest h still path' y t (k.roots y t walk);
        })

pub find-Finds :
    (n : ℕ) (ps ss : List ℕ) (x : ℕ) → IsForest n ps ss → x < n → Finds n ps ss x (find ps x)
unfolding find
find-Finds n ps ss x f h =
    find_loop-Finds (length ps) n ps ss x f h (omega (arith, f.parents, f.positive x h))
