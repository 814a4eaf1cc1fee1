-- ===== src/Halo/DisjointSet/Uniting.antt =====
-- src/halo/fof_membership.cpp: `unite`, on the roots of the members.
use native.Mathlib.Nat.{mod-eq_of_lt}
use hyowon.Common.{
  ℕ, ◌+◌, ◌%◌, ◌≤◌, ◌<◌, ◌≡◌, ◌≢◌, refl, sym, ap, subst, ◌∙◌, true, false, ltb, ◌==◌, ◌||◌,
  if◌then◌else◌, List, length, get_or, set, length-set, get_or-set_self, get_or-set_ne, arith,
  Bool-cases, inl, inr, ◌⊎◌, ==→eq,
}
use hyowon.Halo.DisjointSet.{DisjointSet, find, link, unite}
use hyowon.Halo.DisjointSet.Sizes.{root_total, root-le, unrooted-total, resized-total}
use hyowon.Halo.DisjointSet.Forest.{
  IsForest, RootOf, at, up, RootOf-unique, RootOf-root, written, Keeps, Finds, finds, find-Finds,
}

module _ (n : ℕ) (ps ss : List ℕ) (l w v : ℕ) (f : IsForest n ps ss) (l_in : l < n) (w_in : w < n)
    (l_root : get_or ps l 0 ≡ l) (w_root : get_or ps w 0 ≡ w) (apart : l ≢ w)
    (sum : v ≡ get_or ss l 0 + get_or ss w 0) where
  l_member : l < length ps
  l_member = omega (arith, f.parents)

  w_size : w < length ss
  w_size = omega (arith, f.sizes)

  w_still : get_or (set ps l w) w 0 ≡ w
  w_still = get_or-set_ne ps l w w 0 apart ∙ w_root

  fewer_roots : root_total 0 (set ps l w) ss + get_or ss l 0 ≡ n
  fewer_roots =
      unrooted-total ps ss 0 l w l_member (omega (arith, f.parents, f.sizes)) (omega arith)
        (λ e. apart (omega arith))
      ∙ f.total

  -- The sizes of two roots are parts of the whole.
  pub two_roots-le : v ≤ n
  two_roots-le =
      let winner : get_or ss w 0 ≤ root_total 0 (set ps l w) ss =
        root-le (set ps l w) ss 0 w (rw length-set (omega (arith, f.parents)))
          (rw length-set (omega (arith, f.parents, f.sizes))) (omega (arith, w_still)) in
      omega (arith, fewer_roots)

  -- No size falls.
  raised : (p : ℕ) → get_or ss p 0 ≤ get_or (set ss w v) p 0
  raised p = elim (written ss w v p w_size) [
    | inl (same, value) ↦ rw (value, same) (omega arith)
    | inr (other, value) ↦ rw value (omega arith)
  ]

  joined_grows :
      (y : ℕ)
      → y < n
      → get_or (set ps l w) y 0 ≢ y
      → get_or (set ss w v) y 0 < get_or (set ss w v) (get_or (set ps l w) y 0) 0
  joined_grows y k m =
      let keep : get_or (set ss w v) y 0 ≡ get_or ss y 0 =
        get_or-set_ne ss w y v 0 (λ e. m (subst (λ z. get_or (set ps l w) z 0 ≡ z) e w_still)) in
      elim (written ps l w y l_member) [
        | inl (same, value) ↦
            rw (keep, value, get_or-set_self ss w v 0 w_size, same, sum)
              (omega (arith, f.positive w w_in))
        | inr (other, value) ↦
            rw (keep, value)
              (omega (arith, raised (get_or ps y 0), f.grows y k (λ q. m (value ∙ q))))
      ]

  pub joined-IsForest : IsForest n (set ps l w) (set ss w v)
  joined-IsForest = record {
    parents = length-set ps l w ∙ f.parents;
    sizes = length-set ss w v ∙ f.sizes;
    inside = λ y k. elim (written ps l w y l_member) [
      | inl (same, value) ↦ rw value w_in
      | inr (other, value) ↦ rw value (f.inside y k)
    ];
    grows = joined_grows;
    positive = λ y k. elim (written ss w v y w_size) [
      | inl (same, value) ↦ rw value (omega (arith, f.positive l l_in))
      | inr (other, value) ↦ rw value (f.positive y k)
    ];
    bounded = λ y k. elim (written ss w v y w_size) [
      | inl (same, value) ↦ rw value two_roots-le
      | inr (other, value) ↦ rw value (f.bounded y k)
    ];
    total =
        let more =
          resized-total (set ps l w) ss 0 w v (rw length-set (omega (arith, f.parents)))
            (rw length-set (omega (arith, f.parents, f.sizes))) (omega (arith, w_still)) in
        omega (arith, fewer_roots);
  }

  -- The members below `l` are now below `w`.
  pub joined-RootOf : (y t : ℕ) → RootOf ps y t → RootOf (set ps l w) y (if t == l then w else t)
  joined-RootOf y t (at _ e) = elim (written ps l w y l_member) [
    | inl (same, value) ↦
        let here : (y == l) ≡ true = ground arith in
        rw here (
          up y w (λ q. apart (sym same ∙ sym q ∙ value))
            (subst (λ z. RootOf (set ps l w) z w) (sym value) (at w w_still)))
    | inr (other, value) ↦
        let there : (y == l) ≡ false = ground arith in rw there (at y (value ∙ e))
  ]
  joined-RootOf y t (up _ _ below rest) = elim (written ps l w y l_member) [
    | inl (same, value) ↦ absurd (below (ap (λ (z : ℕ). get_or ps z 0) same ∙ l_root ∙ sym same))
    | inr (other, value) ↦
        up y _ (λ q. below (sym value ∙ q))
          (subst (λ z. RootOf (set ps l w) z (if t == l then w else t)) (sym value)
            (joined-RootOf (get_or ps y 0) t rest))
  ]

-- Every member of a forest has a root.
has_root : (n : ℕ) (ps ss : List ℕ) (x : ℕ) → IsForest n ps ss → x < n → (r : ℕ) × RootOf ps x r
has_root n ps ss x f h = of_search (find ps x) (find-Finds n ps ss x f h)
  where
    of_search : (found : List ℕ × ℕ) → Finds n ps ss x found → (r : ℕ) × RootOf ps x r
    of_search found (finds qs r r_in root k) = (r, root)

-- What `unite` does to the members: those below either root are below the winner, and all others keep
-- their root.
pub record Joins (n a b : ℕ) (s u : DisjointSet) : Type 0 where
  pub forest : IsForest n u.parent u.component_sizes
  pub left : ℕ
  pub right : ℕ
  pub winner : ℕ
  pub left_root : RootOf s.parent a left
  pub right_root : RootOf s.parent b right
  pub chosen : (winner ≡ left) ⊎ (winner ≡ right)
  pub roots :
      (y t : ℕ)
      → RootOf s.parent y t
      → RootOf u.parent y (if t == left || t == right then winner else t)

module _ (n index_max a b : ℕ) (s : DisjointSet) (fits : n ≤ index_max)
    (f : IsForest n s.parent s.component_sizes) where
  -- Linking two roots in a forest with the members' old roots.
  linked-Joins :
      (ps : List ℕ) (l r : ℕ)
      → Keeps n s.parent s.component_sizes ps
      → RootOf s.parent a l
      → RootOf s.parent b r
      → l < n
      → r < n
      → Joins n a b s (link index_max l r (record s { parent = ps }))
  unfolding link
  linked-Joins ps l r k left right l_in r_in = elim (Bool-cases (l == r)) [
    | inl same ↦
        let e : l ≡ r = ==→eq l r same in
        rw same (record {
          forest = k.forest;
          left = l;
          right = r;
          winner = l;
          left_root = left;
          right_root = right;
          chosen = inl refl;
          roots = λ y t path.
              let own : t ≡ (if t == l || t == r then l else t) = ground arith in
              subst (RootOf ps y) own (k.roots y t path);
        })
    | inr apart ↦
        let other : l ≢ r = λ e. ground arith in
        let l_root = RootOf-root ps a l (k.roots a l left) in
        let r_root = RootOf-root ps b r (k.roots b r right) in
        elim (Bool-cases (ltb (get_or ss l 0) (get_or ss r 0))) [
          | inl smaller ↦
              let most = two_roots-le n ps ss l r _ k.forest l_in r_in l_root r_root other refl in
              let sum : (get_or ss l 0 + get_or ss r 0) % (index_max + 1)
                  ≡ get_or ss l 0 + get_or ss r 0 =
                mod-eq_of_lt (omega arith) in
              rw (apart, smaller)
                (record {
                  forest = joined-IsForest n ps ss l r _ k.forest l_in r_in l_root r_root other sum;
                  left = l;
                  right = r;
                  winner = r;
                  left_root = left;
                  right_root = right;
                  chosen = inr refl;
                  roots = λ y t path.
                      let own : (if t == l then r else t) ≡ (if t == l || t == r then r else t) =
                        ground arith in
                      subst (RootOf (set ps l r) y) own (
                        joined-RootOf n ps ss l r _ k.forest l_in r_in l_root r_root other sum y t
                          (k.roots y t path));
                })
          | inr larger ↦
              let other' : r ≢ l = λ e. other (sym e) in
              let most = two_roots-le n ps ss r l _ k.forest r_in l_in r_root l_root other' refl in
              let sum : (get_or ss l 0 + get_or ss r 0) % (index_max + 1)
                  ≡ get_or ss r 0 + get_or ss l 0 =
                mod-eq_of_lt (omega arith) ∙ omega arith in
              rw (apart, larger)
                (record {
                  forest =
                      joined-IsForest n ps ss r l _ k.forest r_in l_in r_root l_root other' sum;
                  left = l;
                  right = r;
                  winner = l;
                  left_root = left;
                  right_root = right;
                  chosen = inl refl;
                  roots = λ y t path.
                      let own : (if t == r then l else t) ≡ (if t == l || t == r then l else t) =
                        ground arith in
                      subst (RootOf (set ps r l) y) own (
                        joined-RootOf n ps ss r l _ k.forest r_in l_in r_root l_root other' sum y t
                          (k.roots y t path));
                })
        ]
  ]
    where
      ss : List ℕ
      ss = s.component_sizes

  -- In a forest of no more members than the index type counts, `unite` of two members puts the members
  -- of their two components, and no others, below one root of the two, and the sizes of the roots still
  -- add up to the count of the members.
  pub unite-Joins : a < n → b < n → Joins n a b s (unite index_max a b s)
  unfolding unite
  unite-Joins a_in b_in =
      by_first (find s.parent a) (find-Finds n s.parent s.component_sizes a f a_in)
    where
      by_second :
          (ps : List ℕ) (l : ℕ) (second : List ℕ × ℕ)
          → RootOf s.parent a l
          → l < n
          → Keeps n s.parent s.component_sizes ps
          → Finds n ps s.component_sizes b second
          → Joins n a b s (link index_max l second.1 (record s { parent = second.0 }))
      by_second ps l second left l_in k (finds qs r r_in root k') =
          let (r', right) = has_root n s.parent s.component_sizes b f b_in in
          let same : r' ≡ r = RootOf-unique ps b r' r (k.roots b r' right) root in
          linked-Joins qs l r
            (record { forest = k'.forest; roots = λ y t path. k'.roots y t (k.roots y t path) })
            left (subst (RootOf s.parent b) same right) l_in r_in

      by_first :
          (first : List ℕ × ℕ)
          → Finds n s.parent s.component_sizes a first
          → Joins n a b s
              (link index_max first.1 (find first.0 b).1 (record s { parent = (find first.0 b).0 }))
      by_first first (finds ps l l_in root k) =
          by_second ps l (find ps b) root l_in k (find-Finds n ps s.component_sizes b k.forest b_in)
