-- ===== src/Core/Columns.antt =====
-- include/cosmo_nbody/core/particle_store.hpp: the three component vectors of one quantity. A vector
-- is the list of its elements; its capacity is no part of the list.
use hyowon.Common.{
  ℕ, ◌-◌, ◌≡◌, Bool, ◌&&◌, List, [], ◌∷◌, ◌++◌, ◌==◌, take, length, replicate, get_or, set,
}

pub record Vec3 : Type 0 where
  pub x : ℕ
  pub y : ℕ
  pub z : ℕ

pub record Columns : Type 0 where
  pub x : List ℕ
  pub y : List ℕ
  pub z : List ℕ

pub data Axis : Type 0 where
  axis_x axis_y axis_z : Axis

abbrev pub column : Axis → Columns → List ℕ
column axis_x c = c.x
column axis_y c = c.y
column axis_z c = c.z

-- `v.resize(n)`: new elements are zero.
unfoldable pub resize : ℕ → List ℕ → List ℕ
resize n v = take n v ++ replicate (n - length v) 0

-- `v.push_back(a)`
abbrev pub push_back : List ℕ → ℕ → List ℕ
push_back v a = v ++ a ∷ []

-- `v[i] = v[j]`
abbrev pub copy : ℕ → ℕ → List ℕ → List ℕ
copy i j v = set v i (get_or v j 0)

abbrev pub each : (List ℕ → List ℕ) → Columns → Columns
each f c = record { x = f c.x; y = f c.y; z = f c.z }

abbrev pub push_each : Columns → Vec3 → Columns
push_each c v = record { x = push_back c.x v.x; y = push_back c.y v.y; z = push_back c.z v.z }

abbrev pub no_columns : Columns
no_columns = record { x = []; y = []; z = [] }

abbrev pub have_size : ℕ → Columns → Bool
have_size n c = length c.x == n && length c.y == n && length c.z == n

-- All three have the length `n`.
abbrev pub AreLong : ℕ → Columns → Type 0
AreLong n c = (length c.x ≡ n) × (length c.y ≡ n) × (length c.z ≡ n)
