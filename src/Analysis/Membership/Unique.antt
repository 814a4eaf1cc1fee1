-- ===== src/Analysis/Membership/Unique.antt =====
-- src/analysis/membership_validation.hpp: which members are accepted.
use hyowon.Common.{
  ℕ, ◌≤◌, ◌<◌, ◌≡◌, ◌≢◌, refl, Bool, true, false, ltb, leb, ◌==◌, if◌then◌else◌, List, [], ◌∷◌,
  length, get_or, Option, none, some, ◌⊎◌, inl, inr, All, AreDistinct, arith, tests, Bool-cases,
}
use hyowon.Core.ParticleStore.{ParticleStore}
use hyowon.Analysis.Membership.{
  MembershipValidationPath, strict_particle_id_order, general_unique, Error, member_out_of_range,
  duplicate_member, follows, order_loop, has_id, insert_loop, after_order,
  require_unique_owned_members,
}

-- The ids of the members.
abbrev pub ids_of : List ℕ → List ℕ → List ℕ
ids_of ids [] = []
ids_of ids (index ∷ members) = get_or ids index 0 ∷ ids_of ids members

-- An index past the owned particles.
pub data HasOutside (owned : ℕ) : List ℕ → Type 0 where
  outside : (i : ℕ) (is : List ℕ) → owned ≤ i → HasOutside owned (i ∷ is)
  beyond : (i : ℕ) (is : List ℕ) → HasOutside owned is → HasOutside owned (i ∷ is)

abbrev pub AreIncreasing : Option ℕ → List ℕ → Type 0
AreIncreasing previous [] = Unit
AreIncreasing previous (x ∷ xs) = (follows previous x ≡ true) × AreIncreasing (some x) xs

smallest_apart : (p : ℕ) (xs : List ℕ) → AreIncreasing (some p) xs → All (λ y. p ≢ y) xs
smallest_apart p xs h = apart p p xs (omega arith) h
  where
    apart : (p q : ℕ) (xs : List ℕ) → p ≤ q → AreIncreasing (some q) xs → All (λ y. p ≢ y) xs
    apart p q [] le h = tt
    apart p q (x ∷ xs) le h =
        let lt : q < x = omega (tests, h.0) in ((λ e. omega arith), apart p x xs (omega arith) h.1)

increasing-AreDistinct :
    (previous : Option ℕ) (xs : List ℕ) → AreIncreasing previous xs → AreDistinct xs
increasing-AreDistinct previous [] h = tt
increasing-AreDistinct previous (x ∷ xs) h =
    (smallest_apart x xs h.1, increasing-AreDistinct (some x) xs h.1)

-- What the first loop says of the members.
data Orders (owned : ℕ) (members xs : List ℕ) (previous : Option ℕ) (increasing : Bool)
    : Error ⊎ Bool → Type 0 where
  in_order :
      All (λ i. i < owned) members
      → increasing ≡ true
      → AreIncreasing previous xs
      → Orders owned members xs previous increasing (inr true)
  unordered : All (λ i. i < owned) members → Orders owned members xs previous increasing (inr false)
  out_of_range :
      HasOutside owned members
      → Orders owned members xs previous increasing (inl member_out_of_range)

both_hold : (a b : Bool) → (if a then b else false) ≡ true → (a ≡ true) × (b ≡ true)
both_hold a b h = ground arith

one_more :
    (owned index id : ℕ) (members xs : List ℕ) (previous : Option ℕ) (increasing : Bool)
    (r : Error ⊎ Bool)
    → index < owned
    → Orders owned members xs (some id) (if follows previous id then increasing else false) r
    → Orders owned (index ∷ members) (id ∷ xs) previous increasing r
one_more owned index id members xs previous increasing r h (in_order all e inc) =
    let (next, still) = both_hold (follows previous id) increasing e in
    in_order (h, all) still (next, inc)
one_more owned index id members xs previous increasing r h (unordered all) = unordered (h, all)
one_more owned index id members xs previous increasing r h (out_of_range out) =
    out_of_range (beyond index members out)

order_loop-Orders :
    (ids : List ℕ) (owned : ℕ) (previous : Option ℕ) (increasing : Bool) (members : List ℕ)
    → Orders owned members
        (ids_of ids members)
        previous
        increasing
        (order_loop ids owned previous increasing members)
unfolding order_loop
order_loop-Orders ids owned previous true [] = in_order tt refl tt
order_loop-Orders ids owned previous false [] = unordered tt
order_loop-Orders ids owned previous increasing (index ∷ members) =
    let id : ℕ = get_or ids index 0 in
    let still : Bool = if follows previous id then increasing else false in
    elim (Bool-cases (leb owned index)) [
      | inl out ↦ rw out (out_of_range (outside index members (omega tests)))
      | inr inside ↦ rw inside (
          one_more owned index id members (ids_of ids members) previous increasing _ (omega tests)
            (order_loop-Orders ids owned (some id) still members))
    ]

-- What the second loop says, where `seen` are the ids in the set.
data Inserts (seen xs : List ℕ) : Error ⊎ MembershipValidationPath → Type 0 where
  unique :
      AreDistinct xs → All (λ x. has_id x seen ≡ false) xs → Inserts seen xs (inr general_unique)
  repeated :
      (AreDistinct xs → All (λ x. has_id x seen ≡ false) xs → ⊥)
      → Inserts seen xs (inl duplicate_member)

not_added :
    (id : ℕ) (seen xs : List ℕ)
    → All (λ x. has_id x (id ∷ seen) ≡ false) xs
    → All (λ y. id ≢ y) xs × All (λ x. has_id x seen ≡ false) xs
unfolding has_id
not_added id seen [] h = (tt, tt)
not_added id seen (x ∷ xs) h =
    let (apart, new) = not_added id seen xs h.1 in
    (((λ e. ground arith), apart), (ground arith, new))

added :
    (id : ℕ) (seen xs : List ℕ)
    → All (λ y. id ≢ y) xs
    → All (λ x. has_id x seen ≡ false) xs
    → All (λ x. has_id x (id ∷ seen) ≡ false) xs
unfolding has_id
added id seen [] h k = tt
added id seen (x ∷ xs) h k = (
  let differ : (id == x) ≡ false = ground (arith, h.0) in rw differ k.0,
  added id seen xs h.1 k.1,
)

insert_loop-Inserts :
    (ids seen members : List ℕ) → Inserts seen (ids_of ids members) (insert_loop ids seen members)
unfolding insert_loop
insert_loop-Inserts ids seen [] = unique tt tt
insert_loop-Inserts ids seen (index ∷ members) =
    let id : ℕ = get_or ids index 0 in
    elim (Bool-cases (has_id id seen)) [
      | inl present ↦ rw present (repeated (λ d new. ground (arith, present, new.0)))
      | inr new ↦ rw new (by_rest id new (insert_loop-Inserts ids (id ∷ seen) members))
    ]
  where
    by_rest :
        (id : ℕ)
        → has_id id seen ≡ false
        → {r : Error ⊎ MembershipValidationPath} → Inserts (id ∷ seen) (ids_of ids members) r
        → Inserts seen (id ∷ ids_of ids members) r
    by_rest id fresh (unique d new) =
        let (apart, old) = not_added id seen (ids_of ids members) new in
        unique (apart, d) (fresh, old)
    by_rest id fresh (repeated clash) = repeated (λ d new. clash d.1 (added id seen _ d.0 new.1))

-- The result by the members' indices and ids.
pub data Decides (owned : ℕ) (members xs : List ℕ) : Error ⊎ MembershipValidationPath → Type 0 where
  accepted :
      (path : MembershipValidationPath)
      → All (λ i. i < owned) members
      → AreDistinct xs
      → Decides owned members xs (inr path)
  refused_index : HasOutside owned members → Decides owned members xs (inl member_out_of_range)
  refused_id :
      All (λ i. i < owned) members
      → (AreDistinct xs → ⊥)
      → Decides owned members xs (inl duplicate_member)

no_ids : (xs : List ℕ) → All (λ x. has_id x [] ≡ false) xs
unfolding has_id
no_ids [] = tt
no_ids (x ∷ xs) = (refl, no_ids xs)

-- In a store with an id for each owned particle, members are accepted on either path exactly where all
-- indices are owned and all ids distinct, and the exception says which of the two fails first.
pub require_unique_owned_members-Decides :
    (particles : ParticleStore) (members : List ℕ)
    → particles.num_owned_particles ≤ length particles.ids
    → Decides particles.num_owned_particles members
        (ids_of particles.ids members)
        (require_unique_owned_members particles members)
unfolding require_unique_owned_members
require_unique_owned_members-Decides particles members h =
    let long : ltb (length particles.ids) particles.num_owned_particles ≡ false = ground arith in
    rw long
      (by_order (order_loop-Orders particles.ids particles.num_owned_particles none true members))
  where
    by_insertion :
        {r : Error ⊎ MembershipValidationPath}
        → All (λ i. i < particles.num_owned_particles) members
        → Inserts [] (ids_of particles.ids members) r
        → Decides particles.num_owned_particles members (ids_of particles.ids members) r
    by_insertion all (unique d new) = accepted general_unique all d
    by_insertion all (repeated clash) = refused_id all (λ d. clash d (no_ids _))

    by_order :
        {r : Error ⊎ Bool}
        → Orders particles.num_owned_particles members (ids_of particles.ids members) none true r
        → Decides particles.num_owned_particles members
            (ids_of particles.ids members)
            (after_order particles.ids members r)
    by_order (in_order all e inc) =
        accepted strict_particle_id_order all (increasing-AreDistinct none _ inc)
    by_order (unordered all) = by_insertion all (insert_loop-Inserts particles.ids [] members)
    by_order (out_of_range out) = refused_index out
