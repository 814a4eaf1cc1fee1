-- ===== src/Core/ParticleStore/Examples.antt =====
-- Runs of a store, and its theorems at concrete inputs. 1.0 is 0x3ff0_0000_0000_0000.
use hyowon.Common.{
  ℕ, ◌+◌, ◌-◌, ◌≡◌, ◌≢◌, ◌≤◌, ◌⊎◌, refl, none, List, [], ◌∷◌, arith, ◌==◌, if◌then◌else◌, done,
  thrown, left_by,
}
use hyowon.Math.ExactPositiveSum.{is_finite, exponent_field, is_bad_term}
use hyowon.Core.Columns.{Vec3, resize}
use hyowon.Core.ParticleStore.{
  ParticleStore, empty_store, source_layout_valid, layout_error, require_valid_acceleration_storage,
  no_acceleration_storage, mass_at, set_uniform_mass, with_uniform_mass, expanded, size,
}
use hyowon.Core.ParticleStore.Population.{
  Call, call_append_owned_particle, call_append_ghost_particle, call_remove_particle,
  call_clear_ghosts, run, append_owned_fields, append_owned_particle, append_ghost_particle,
  push_source, push_owned, remove_particle, overwrite, resize_internal, shrink_all, clear_ghosts,
}
use hyowon.Core.ParticleStore.Layout.{IsValid}
use hyowon.Core.ParticleStore.Reachable.{
  run_all, run-IsValid, run_all-layout, run_all-IsValid, empty_store-IsValid,
}
use hyowon.Core.ParticleStore.Contents.{row, remove_particle-rows, set_uniform_mass-none}

program : Unit {0}
unfolding is_finite exponent_field is_bad_term resize empty_store source_layout_valid layout_error
    mass_at set_uniform_mass with_uniform_mass expanded run append_owned_fields
    append_owned_particle append_ghost_particle push_source push_owned remove_particle overwrite
    resize_internal shrink_all clear_ghosts run_all
program = tt

abbrev one : ℕ
one = 0x3ff0_0000_0000_0000

abbrev origin : Vec3
origin = record { x = 0; y = 0; z = 0 }

abbrev three_calls : List Call
three_calls =
    call_append_owned_particle origin origin origin one 7
    ∷ call_append_owned_particle origin origin origin one 8
    ∷ call_append_owned_particle origin origin origin one 9
    ∷ []

unfoldable three : ParticleStore
three = run_all three_calls empty_store

three-IsValid : IsValid three
unfolding three
three-IsValid = run_all-IsValid three_calls empty_store empty_store-IsValid

-- The last particle takes the place of the first.
removal-run : (run_all (call_remove_particle 0 ∷ []) three).ids ≡ 9 ∷ 8 ∷ []
unfolding program three
removal-run = refl

-- A ghost comes and goes.
ghost-run :
    (run_all (call_append_ghost_particle origin one 5 ∷ call_clear_ghosts ∷ []) three).ids
    ≡ 7 ∷ 8 ∷ 9 ∷ []
unfolding program three
ghost-run = refl

run_all-layout_example :
    (layout_error (run_all three_calls empty_store) ≡ none)
    × (require_valid_acceleration_storage (run_all three_calls empty_store)
        ≢ thrown no_acceleration_storage (run_all three_calls empty_store))
run_all-layout_example = run_all-layout three_calls

remove_particle-rows_example :
    (t : ParticleStore) × (remove_particle 0 three ≡ done t)
    × (size t + 1 ≡ size three)
    × (t.num_owned_particles ≡ size t)
    × ((size three ≤ 1 + 1) ⊎ (row t 1 ≡ row three (if 1 == 0 then size three - 1 else 1)))
remove_particle-rows_example =
    remove_particle-rows 0 1 three three-IsValid (unfold program three in refl)
      (unfold program three in omega arith)

set_uniform_mass-none_example :
    (t : ParticleStore) × (set_uniform_mass none three ≡ done t)
    × (t.uniform_mass ≡ none)
    × (size t ≡ size three)
    × (mass_at t 2 ≡ mass_at three 2)
set_uniform_mass-none_example = set_uniform_mass-none 2 three three-IsValid

run-IsValid_example : IsValid (left_by (run (call_remove_particle 0) three))
run-IsValid_example = run-IsValid (call_remove_particle 0) three three-IsValid
