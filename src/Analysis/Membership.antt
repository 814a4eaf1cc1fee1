-- ===== src/Analysis/Membership.antt =====
-- src/analysis/membership_validation.hpp: the members of a group, by their indices in a particle store.
pub mod Unique
mod Examples
use hyowon.Common.{
  ℕ, zero, suc, Bool, true, false, ltb, leb, ◌==◌, if◌then◌else◌, List, [], ◌∷◌, length, get_or,
  Option, none, some, ◌⊎◌, inl, inr,
}
use hyowon.Core.ParticleStore.{ParticleStore}

pub data MembershipValidationPath : Type 0 where
  strict_particle_id_order general_unique : MembershipValidationPath

pub data Error : Type 0 where
  ids_too_short member_out_of_range duplicate_member : Error

-- `!have_previous || previous_id < id`
abbrev pub follows : Option ℕ → ℕ → Bool
follows none id = true
follows (some previous_id) id = ltb previous_id id

-- The loop over the members: whether their ids are strictly increasing.
unfoldable pub order_loop : List ℕ → ℕ → Option ℕ → Bool → List ℕ → Error ⊎ Bool
order_loop ids owned previous increasing [] = inr increasing
order_loop ids owned previous increasing (index ∷ members) =
    let id = get_or ids index 0 in
    let still = if follows previous id then increasing else false in
    let rest = order_loop ids owned (some id) still members in
    if leb owned index then inl member_out_of_range else rest

-- Whether the set of the ids so far has this one.
unfoldable pub has_id : ℕ → List ℕ → Bool
has_id id [] = false
has_id id (x ∷ xs) = let rest = has_id id xs in if x == id then true else rest

-- The loop that inserts the ids in the set.
unfoldable pub insert_loop : List ℕ → List ℕ → List ℕ → Error ⊎ MembershipValidationPath
insert_loop ids unique_ids [] = inr general_unique
insert_loop ids unique_ids (index ∷ members) =
    let id = get_or ids index 0 in
    let rest = insert_loop ids (id ∷ unique_ids) members in
    if has_id id unique_ids then inl duplicate_member else rest

abbrev pub after_order : List ℕ → List ℕ → Error ⊎ Bool → Error ⊎ MembershipValidationPath
after_order ids members (inl e) = inl e
after_order ids members (inr true) = inr strict_particle_id_order
after_order ids members (inr false) = insert_loop ids [] members

unfoldable pub require_unique_owned_members :
    ParticleStore → List ℕ → Error ⊎ MembershipValidationPath
require_unique_owned_members particles members =
    let owned = particles.num_owned_particles in
    if ltb (length particles.ids) owned
    then inl ids_too_short
    else after_order particles.ids members (order_loop particles.ids owned none true members)
