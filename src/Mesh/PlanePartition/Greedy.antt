-- ===== src/Mesh/PlanePartition/Greedy.antt =====
-- include/cosmo_nbody/mesh/detail/weighted_plane_partition.hpp: cuts into contiguous groups, and the
-- greedy count of them.
use hyowon.Common.{
  ℕ, zero, suc, ◌+◌, ◌-◌, ◌≤◌, ◌<◌, ◌≡◌, ◌↔◌, refl, inl, inr, true, false, List, [], ◌∷◌, ltb, leb,
  ◌==◌, arith, tests, Bool-cases,
}
use hyowon.Mesh.PlanePartition.{size_max, groups_loop, contiguous_groups_required}

-- The weights can be cut into contiguous groups of load at most `m`: the open one, which has the
-- load `c`, and at most `k` more.
pub data Fits (m : ℕ) : ℕ → ℕ → List ℕ → Type 0 where
  stop : (k c : ℕ) → Fits m k c []
  join : (k c w : ℕ) (ws : List ℕ) → c + w ≤ m → Fits m k (c + w) ws → Fits m k c (w ∷ ws)
  open_group : (k c w : ℕ) (ws : List ℕ) → w ≤ m → Fits m k w ws → Fits m (suc k) c (w ∷ ws)

-- A lighter open group is no worse.
Fits-lighter : (m k c d : ℕ) (ws : List ℕ) → d ≤ c → Fits m k c ws → Fits m k d ws
Fits-lighter m k c d [] h (stop _ _) = stop k d
Fits-lighter m k c d (w ∷ ws) h (join _ _ _ _ le f) =
    join k d w ws (omega arith) (Fits-lighter m k (c + w) (d + w) ws (omega arith) f)
Fits-lighter m (suc k) c d (w ∷ ws) h (open_group _ _ _ _ le f) = open_group k d w ws le f

-- With one more group, the open one may be as heavy as it is.
Fits-more : (m k c d : ℕ) (ws : List ℕ) → Fits m k c ws → Fits m (suc k) d ws
Fits-more m k c d [] (stop _ _) = stop (suc k) d
Fits-more m k c d (w ∷ ws) (join _ _ _ _ le f) =
    open_group k d w ws (omega arith) (Fits-lighter m k (c + w) w ws (omega arith) f)
Fits-more m (suc k) c d (w ∷ ws) (open_group _ _ _ _ le f) =
    open_group (suc k) d w ws le (Fits-more m k w w ws f)

-- A greater load allows as much.
pub Fits-mono : (m n k c : ℕ) (ws : List ℕ) → m ≤ n → Fits m k c ws → Fits n k c ws
Fits-mono m n k c [] h (stop _ _) = stop k c
Fits-mono m n k c (w ∷ ws) h (join _ _ _ _ le f) =
    join k c w ws (omega arith) (Fits-mono m n k (c + w) ws h f)
Fits-mono m n (suc k) c (w ∷ ws) h (open_group _ _ _ _ le f) =
    open_group k c w ws (omega arith) (Fits-mono m n k w ws h f)

groups_loop-le : (ws : List ℕ) (m g c : ℕ) → g ≤ size_max → g ≤ groups_loop ws m g c
unfolding groups_loop
groups_loop-le [] m g c h = omega arith
groups_loop-le (w ∷ ws) m g c h = elim (Bool-cases (ltb m w)) [
  | inl heavy ↦ rw heavy h
  | inr light ↦ elim (Bool-cases (ltb (m - w) c)) [
    | inr room ↦ rw (light, room) (groups_loop-le ws m g (c + w) h)
    | inl full ↦ elim (Bool-cases (g == size_max)) [
      | inl most ↦ rw (light, full, most) (omega arith)
      | inr below ↦
          let more = groups_loop-le ws m (g + 1) w (ground arith) in
          rw (light, full, below) (omega arith)
    ]
  ]
]

-- The new group is one of those that are left.
opened :
    (w : ℕ) (ws : List ℕ) (m g c k : ℕ)
    → g + k < size_max
    → groups_loop ws m (g + 1) w ≤ g + k
    → g + 1 ≤ groups_loop ws m (g + 1) w
    → w ≤ m
    → ((j : ℕ) → k ≡ suc j → Fits m j w ws)
    → Fits m k c (w ∷ ws)
opened w ws m g c zero small rest more light next = absurd (omega arith)
opened w ws m g c (suc j) small rest more light next = open_group j c w ws light (next j refl)

-- A count that is small enough comes from a cut.
groups_loop-Fits :
    (ws : List ℕ) (m g c k : ℕ)
    → c ≤ m
    → g + k < size_max
    → groups_loop ws m g c ≤ g + k
    → Fits m k c ws
unfolding groups_loop
groups_loop-Fits [] m g c k hc small h = stop k c
groups_loop-Fits (w ∷ ws) m g c k hc small h = elim (Bool-cases (ltb m w)) [
  | inl heavy ↦ absurd (let less : size_max ≤ g + k = rw heavy at h in omega arith)
  | inr light ↦ elim (Bool-cases (ltb (m - w) c)) [
    | inr room ↦
        let rest : groups_loop ws m g (c + w) ≤ g + k = rw (light, room) at h in
        join k c w ws (omega tests) (groups_loop-Fits ws m g (c + w) k (omega tests) small rest)
    | inl full ↦
        let below : (g == size_max) ≡ false = ground arith in
        let rest : groups_loop ws m (g + 1) w ≤ g + k = rw (light, full, below) at h in
        let more = groups_loop-le ws m (g + 1) w (ground arith) in
        opened w ws m g c k small rest more (omega tests)
          (λ j e. groups_loop-Fits ws m (g + 1) w j (omega tests) (omega arith) (omega arith))
  ]
]

-- A cut bounds the count.
Fits-groups_loop :
    (ws : List ℕ) (m g c k : ℕ)
    → c ≤ m
    → g + k < size_max
    → Fits m k c ws
    → groups_loop ws m g c ≤ g + k
unfolding groups_loop
Fits-groups_loop [] m g c k hc small f = omega arith
Fits-groups_loop (w ∷ ws) m g c k hc small (join _ _ _ _ le f) =
    let light : ltb m w ≡ false = omega tests in
    let room : ltb (m - w) c ≡ false = omega tests in
    rw (light, room) (Fits-groups_loop ws m g (c + w) k le small f)
Fits-groups_loop (w ∷ ws) m g c (suc k) hc small (open_group _ _ _ _ le f) =
    let light : ltb m w ≡ false = omega tests in
    elim (Bool-cases (ltb (m - w) c)) [
      | inr room ↦
          rw (light, room)
            (Fits-groups_loop ws m g (c + w) (suc k) (omega tests) small
              (Fits-more m k w (c + w) ws f))
      | inl full ↦
          let below : (g == size_max) ≡ false = ground arith in
          let more = Fits-groups_loop ws m (g + 1) w k le (omega arith) f in
          rw (light, full, below) (omega arith)
    ]

-- For a positive count of workers below the largest `std::size_t`, the count of groups is at most
-- `workers` exactly where some cut into that many contiguous groups keeps every load at most `m`.
pub contiguous_groups_required_iff :
    (ws : List ℕ) (m workers : ℕ)
    → 0 < workers
    → workers < size_max
    → (leb (contiguous_groups_required ws m) workers ≡ true) ↔ Fits m (workers - 1) 0 ws
unfolding contiguous_groups_required
contiguous_groups_required_iff ws m workers some_worker few = (
  (λ h. groups_loop-Fits ws m 1 0 (workers - 1) (omega arith) (omega arith) (omega tests)),
  (λ f.
      let le = Fits-groups_loop ws m 1 0 (workers - 1) (omega arith) (omega arith) f in
      omega tests),
)
