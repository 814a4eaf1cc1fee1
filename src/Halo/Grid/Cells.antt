-- ===== src/Halo/Grid/Cells.antt =====
-- src/halo/fof_membership.cpp: the list of the cells of one axis.
use hyowon.Common.{
  ℕ, ◌≤◌, ◌≡◌, ◌≢◌, refl, ◌∙◌, Bool, true, false, leb, ◌==◌, if◌then◌else◌, List, [], ◌∷◌, ◌++◌,
  length, ◌⊎◌, inl, inr, arith, tests, Bool-cases, length-append,
}
use hyowon.Halo.Grid.{GridError, too_many_cells, has_cell, add_unique}

-- No cell stands in the list twice.
abbrev pub AreDistinct : List ℕ → Type 0
AreDistinct [] = Unit
AreDistinct (c ∷ cs) = (has_cell c cs ≡ false) × AreDistinct cs

-- Three distinct cells at most.
pub record IsCellList (cells : List ℕ) : Type 0 where
  pub few : length cells ≤ 3
  pub distinct : AreDistinct cells

-- What adding a cell may leave: a list with the cells that it had and the new one, or an exception
-- for a fourth cell.
pub data Adds (cells : List ℕ) (cell : ℕ) : GridError ⊎ List ℕ → Type 0 where
  added :
      (after : List ℕ)
      → IsCellList after
      → has_cell cell after ≡ true
      → ((c : ℕ) → c ≢ cell → has_cell c after ≡ has_cell c cells)
      → Adds cells cell (inr after)
  full : length cells ≡ 3 → has_cell cell cells ≡ false → Adds cells cell (inl too_many_cells)

has_cell-append :
    (c cell : ℕ) (cells : List ℕ)
    → has_cell c (cells ++ cell ∷ []) ≡ (if has_cell c cells then true else cell == c)
unfolding has_cell
has_cell-append c cell [] = ground arith
has_cell-append c cell (d ∷ ds) = ground (arith, has_cell-append c cell ds)

AreDistinct-append :
    (cell : ℕ) (cells : List ℕ)
    → AreDistinct cells
    → has_cell cell cells ≡ false
    → AreDistinct (cells ++ cell ∷ [])
unfolding has_cell
AreDistinct-append cell [] h new = (refl, tt)
AreDistinct-append cell (d ∷ ds) h new = (
  has_cell-append d cell ds ∙ rw h.0 (ground arith),
  AreDistinct-append cell ds h.1 (ground arith),
)

-- Adding a cell to three distinct cells at most keeps them so and adds that cell alone, and throws
-- only for a fourth one.
pub add_unique-Adds :
    (cells : List ℕ) (cell : ℕ) → IsCellList cells → Adds cells cell (add_unique cells cell)
unfolding add_unique
add_unique-Adds cells cell h = elim (Bool-cases (has_cell cell cells)) [
  | inl present ↦ rw present (added cells h present (λ c other. refl))
  | inr new ↦ elim (Bool-cases (leb 3 (length cells))) [
    | inl three ↦ rw (new, three) (full (omega (tests, h.few)) new)
    | inr room ↦
        rw (new, room)
          (added (cells ++ cell ∷ [])
            (record {
              few = rw length-append (omega tests);
              distinct = AreDistinct-append cell cells h.distinct new;
            })
            (has_cell-append cell cell cells ∙ rw new (ground arith))
            (λ c other. has_cell-append c cell cells ∙ no_more (has_cell c cells) _ (ground arith)))
  ]
]
  where
    no_more : (b e : Bool) → e ≡ false → (if b then true else e) ≡ b
    no_more b e h = ground arith
