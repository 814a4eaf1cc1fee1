-- ===== src/Halo/Grid.antt =====
-- src/halo/fof_membership.cpp: the checked sizes of the friends-of-friends grid, and the list of the
-- cells of one axis. `std::size_t` is a 64-bit integer.
pub mod Cubes
pub mod Cells
mod Examples
use hyowon.Common.{
  ℕ, zero, suc, ◌+◌, ◌-◌, ◌*◌, ◌/◌, ◌%◌, ◌^◌, max, ◌≤◌, ◌<◌, ◌≡◌, ◌≢◌, ◌↔◌, refl, sym, ap, ◌∙◌,
  Bool, true, false, not, ◌&&◌, ltb, leb, ◌==◌, if◌then◌else◌, List, [], ◌∷◌, ◌++◌, length, Option,
  none, some, ◌⊎◌, inl, inr, arith, tests, Bool-cases, All, length-append, ==→eq,
}

-- The largest `std::size_t`.
abbrev size_limit : ℕ
size_limit = 2 ^ 64 - 1

pub data GridError : Type 0 where
  grid_overflows multiply_overflows no_particles index_exceeded too_many_cells : GridError

unfoldable pub cube_fits_within : ℕ → ℕ → Bool
cube_fits_within value limit =
    if value == 0
    then true
    else if ltb (limit / value) value
    then false
    else leb value (limit / (value * value % 2 ^ 64))

unfoldable pub checked_cube : ℕ → GridError ⊎ ℕ
checked_cube value =
    if not (cube_fits_within value size_limit)
    then inl grid_overflows
    else inr (value * value % 2 ^ 64 * value % 2 ^ 64)

unfoldable pub checked_multiply : ℕ → ℕ → GridError ⊎ ℕ
checked_multiply lhs rhs =
    if not (lhs == 0) && ltb (size_limit / lhs) rhs
    then inl multiply_overflows
    else inr (lhs * rhs % 2 ^ 64)

unfoldable pub narrow_link_index_bytes : ℕ → GridError ⊎ ℕ
narrow_link_index_bytes particle_count =
    if particle_count == 0
    then inl no_particles
    else if leb particle_count (2 ^ 31)
    then inr 4
    else if leb particle_count (2 ^ 63)
    then inr 8
    else inl index_exceeded

unfoldable pub narrow_disjoint_set_index_bytes : ℕ → GridError ⊎ ℕ
narrow_disjoint_set_index_bytes particle_count =
    if particle_count == 0
    then inl no_particles
    else if leb particle_count (2 ^ 32 - 1)
    then inr 4
    else inr 8

-- The cells that are in use, of an array of three.
unfoldable pub has_cell : ℕ → List ℕ → Bool
has_cell cell [] = false
has_cell cell (c ∷ cs) = let rest = has_cell cell cs in if c == cell then true else rest

unfoldable pub add_unique : List ℕ → ℕ → GridError ⊎ List ℕ
add_unique cells cell =
    if has_cell cell cells
    then inr cells
    else if leb 3 (length cells)
    then inl too_many_cells
    else inr (cells ++ cell ∷ [])

-- `while (cap > 1 && !cube_fits_within(cap, particle_count)) --cap;`
unfoldable pub lower_cap : ℕ → ℕ → ℕ
lower_cap zero particle_count = zero
lower_cap (suc cap) particle_count =
    let rest = lower_cap cap particle_count in
    if leb 1 cap && not (cube_fits_within (suc cap) particle_count) then rest else suc cap

-- `while (cap < particle_count && cube_fits_within(cap + 1, particle_count)) ++cap;`, where `left`
-- rounds lead to the count.
unfoldable pub raise_cap : ℕ → ℕ → ℕ → ℕ
raise_cap zero cap particle_count = cap
raise_cap (suc left) cap particle_count =
    let rest = raise_cap left (cap + 1) particle_count in
    if ltb cap particle_count && cube_fits_within (cap + 1) particle_count then rest else cap

-- The cells of one axis that the memory allows. The floor of `std::cbrt` of the count is a parameter.
unfoldable pub memory_cap_1d : ℕ → ℕ → ℕ
memory_cap_1d floor_cbrt particle_count =
    let lowered = lower_cap (max 1 floor_cbrt) particle_count in
    raise_cap (particle_count - lowered) lowered particle_count
