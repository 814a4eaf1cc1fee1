-- ===== src/Io/ContentHash/Streaming.antt =====
-- src/io/content_hash.cpp: the stages of `update`, and the bytes that an object has read.
use hyowon.Common.{
  ℕ, zero, suc, ◌+◌, ◌-◌, ◌≤◌, ◌<◌, ◌≡◌, refl, sym, ap, subst, ◌∙◌, ◌⊎◌, inl, inr, min, false, List,
  [], ◌++◌, arith, tests, take, drop, length, length-append, length-take, length-drop, append_assoc,
  append-nil, length-zero, take-append-drop, leb, ltb, ◌==◌, Bool-cases, done, ==→eq,
}
use hyowon.Io.ContentHash.{
  Impl, initial, transform, flushed, stage_leading, blocks_loop, stage_trailing, absorb_input,
  update, uint64, transform_buffer,
}
use hyowon.Io.ContentHash.Staging.{
  Reaches, memcpy-Reaches, transform-Reaches, transform_buffer-Reaches, absorb,
}

-- The bytes are read, the count of them is kept, and the buffer has room.
abbrev pub Holds : Impl → List ℕ → Type 0
Holds s m = Reaches s m × (s.buffer_size < 64) × (s.total_bytes ≡ length m) × (s.finalized ≡ false)

pub initial-Holds : Holds initial []
unfolding initial absorb
initial-Holds = (
  record {
    blocks = 0;
    absorbed = [];
    tail = [];
    message = refl;
    aligned = refl;
    chained = refl;
    room = refl;
    size = refl;
    staged = refl;
  },
  omega arith,
  refl,
  refl,
)

-- The two fields that moving bytes leaves alone.
abbrev Counts : Impl → Impl → Type 0
Counts s t = (t.total_bytes ≡ s.total_bytes) × (t.finalized ≡ s.finalized)

-- A stage has read some bytes of its input and leaves the rest.
data Moved (s : Impl) (m input : List ℕ) : Impl × List ℕ → Type 0 where
  moved :
      (t : Impl) (taken rest : List ℕ)
      → Reaches t (m ++ taken)
      → taken ++ rest ≡ input
      → Counts s t
      → (t.buffer_size ≡ 0) ⊎ ((t.buffer_size < 64) × (rest ≡ []))
      → Moved s m input (t, rest)

-- A block taken at once comes before what a later stage takes.
further :
    (s : Impl) (m input : List ℕ) (r : Impl × List ℕ)
    → Moved (transform s (take 64 input)) (m ++ take 64 input) (drop 64 input) r
    → Moved s m input r
unfolding transform
further s m input r (moved t taken rest reaches all counts empty) =
    moved t (take 64 input ++ taken) rest
      (subst (Reaches t) (append_assoc m (take 64 input) taken) reaches)
      (append_assoc (take 64 input) taken rest
        ∙ ap (λ (z : List ℕ). take 64 input ++ z) all
        ∙ take-append-drop 64 input)
      counts empty

blocks_loop-Moved :
    (fuel : ℕ) (s : Impl) (m input : List ℕ)
    → length input ≤ fuel
    → Reaches s m
    → (s.buffer_size ≡ 0) ⊎ ((s.buffer_size < 64) × (input ≡ []))
    → Moved s m input (blocks_loop fuel s input) × (length (blocks_loop fuel s input).1 < 64)
unfolding blocks_loop
blocks_loop-Moved zero s m input h r empty =
    (moved s [] input (rw append-nil r) refl (refl, refl) empty, omega arith)
blocks_loop-Moved (suc fuel) s m input h r (inr (short, nothing)) =
    rw nothing (moved s [] [] (rw append-nil r) refl (refl, refl) (inr (short, refl)), omega arith)
blocks_loop-Moved (suc fuel) s m input h r (inl empty) = elim (Bool-cases (leb 64 (length input))) [
  | inr out ↦ rw out (moved s [] input (rw append-nil r) refl (refl, refl) (inl empty), omega tests)
  | inl more ↦
      let whole : length (take 64 input) ≡ 64 = rw length-take (omega tests) in
      let next =
        blocks_loop-Moved fuel (transform s (take 64 input)) (m ++ take 64 input) (drop 64 input)
          (rw length-drop (omega tests)) (transform-Reaches s m (take 64 input) r empty whole)
          (inl (unfold transform in empty)) in
      rw more (further s m input _ next.0, next.1)
]

flushed-Moved :
    (s t : Impl) (m taken rest input : List ℕ)
    → Reaches t (m ++ taken)
    → taken ++ rest ≡ input
    → Counts s t
    → t.buffer_size ≤ 64
    → (t.buffer_size ≡ 64) ⊎ (rest ≡ [])
    → Moved s m input (flushed t, rest)
unfolding flushed
flushed-Moved s t m taken rest input r all counts fits done_with =
    elim (Bool-cases (t.buffer_size == 64)) [
      | inl full ↦ rw full (
          moved (transform_buffer t) taken rest
            (transform_buffer-Reaches t (m ++ taken) r (==→eq _ _ full)) all
            (unfold transform_buffer transform in counts) (inl (unfold transform_buffer in refl)))
      | inr part ↦ rw part (
          moved t taken rest r all counts (
            inr (elim done_with [
              | inl full ↦ absurd (ground arith)
              | inr nothing ↦ (ground arith, nothing)
            ])))
    ]

full_or_all :
    (size : ℕ) (input : List ℕ)
    → size < 64
    → let copy = min (64 - size) (length input) in (size + copy ≡ 64) ⊎ (drop copy input ≡ [])
full_or_all size input room = elim (Bool-cases (leb (64 - size) (length input))) [
  | inl enough ↦ inl (omega tests)
  | inr less ↦ inr (length-zero _ (rw length-drop (omega tests)))
]

-- The leading bytes are staged behind the bytes that are there.
stage_leading-Moved :
    (s : Impl) (m input : List ℕ)
    → Reaches s m
    → s.buffer_size < 64
    → Moved s m input (stage_leading s input)
unfolding stage_leading
stage_leading-Moved s m input r room = elim (Bool-cases (s.buffer_size == 0)) [
  | inl empty ↦
      rw empty (moved s [] input (rw append-nil r) refl (refl, refl) (inl (==→eq _ _ empty)))
  | inr staged ↦ elim (Bool-cases (length input == 0)) [
    | inl nothing ↦
        rw (staged, nothing)
          (moved s [] input (rw append-nil r) refl (refl, refl)
            (inr (room, length-zero input (==→eq _ _ nothing))))
    | inr more ↦
        let copy : ℕ = min (64 - s.buffer_size) (length input) in
        let copied : length (take copy input) ≡ copy = rw length-take (omega arith) in
        rw (staged, more)
          (flushed-Moved s _ m (take copy input) (drop copy input) input
            (memcpy-Reaches s m (take copy input) s.buffer_size _ r refl
              (ap (λ (n : ℕ). s.buffer_size + n) (sym copied)) (omega arith))
            (take-append-drop copy input) (refl, refl) (omega arith)
            (full_or_all s.buffer_size input room))
  ]
]

-- What is left when no whole block is left is staged.
stage_trailing-Reaches :
    (s : Impl) (m input : List ℕ) (r : Impl × List ℕ)
    → Moved s m input r
    → length r.1 < 64
    → Reaches (stage_trailing r) (m ++ input)
      × ((stage_trailing r).buffer_size < 64)
      × Counts s (stage_trailing r)
unfolding stage_trailing
stage_trailing-Reaches s m input r (moved t taken rest reaches all counts stage) short =
    elim (Bool-cases (length rest == 0)) [
      | inl nothing ↦
          let whole : taken ≡ input =
            sym (append-nil taken)
            ∙ ap (λ (z : List ℕ). taken ++ z) (sym (length-zero rest (==→eq _ _ nothing)))
            ∙ all in
          rw nothing
            (subst (λ (z : List ℕ). Reaches t (m ++ z)) whole reaches, ground arith, counts)
      | inr some_left ↦ elim stage [
        | inr (room, none_left) ↦ absurd (ground (arith, ap (λ (z : List ℕ). length z) none_left))
        | inl empty ↦ rw some_left (
          subst (Reaches _) (append_assoc m taken rest ∙ ap (λ (z : List ℕ). m ++ z) all) (
              memcpy-Reaches t (m ++ taken) rest 0 (length rest) reaches empty (omega arith)
                (omega arith)),
          short,
          counts,
        )
      ]
    ]

counted-Reaches :
    (s : Impl) (m : List ℕ) (n : ℕ) → Reaches s m → Reaches (record s { total_bytes = n }) m
counted-Reaches s m n r = record {
  blocks = r.blocks;
  absorbed = r.absorbed;
  tail = r.tail;
  message = r.message;
  aligned = r.aligned;
  chained = r.chained;
  room = r.room;
  size = r.size;
  staged = r.staged;
}

absorb_input-Reaches :
    (s : Impl) (m input : List ℕ)
    → Reaches s m
    → s.buffer_size < 64
    → Reaches (absorb_input s input) (m ++ input)
      × ((absorb_input s input).buffer_size < 64)
      × Counts s (absorb_input s input)
unfolding absorb_input
absorb_input-Reaches s m input r room =
    let first = stage_leading-Moved s m input r room in through (stage_leading s input) first
  where
    through :
        (p : Impl × List ℕ)
        → Moved s m input p
        → Reaches (stage_trailing (blocks_loop (length input) p.0 p.1)) (m ++ input)
          × ((stage_trailing (blocks_loop (length input) p.0 p.1)).buffer_size < 64)
          × Counts s (stage_trailing (blocks_loop (length input) p.0 p.1))
    through p (moved t taken rest reaches all counts stage) =
        let fuel : length rest ≤ length input = rw (← all, length-append) (omega arith) in
        let (blocks, short) =
          blocks_loop-Moved (length input) t (m ++ taken) rest fuel reaches stage in
        let (reads, room, (total, live)) =
          stage_trailing-Reaches t (m ++ taken) rest _ blocks short in
        (
          subst (Reaches _) (append_assoc m taken rest ∙ ap (λ (z : List ℕ). m ++ z) all) reads,
          room,
          (total ∙ counts.0, live ∙ counts.1),
        )

-- `update` of an object in use reads all its bytes, while their count fits in 64 bits.
pub update-Holds :
    (s : Impl) (m bytes : List ℕ)
    → Holds s m
    → length m + length bytes < uint64
    → (t : Impl) × (update s bytes ≡ done t) × Holds t (m ++ bytes)
unfolding update
update-Holds s m bytes (r, room, total, live) fits =
    let counted : Impl = record s { total_bytes = s.total_bytes + length bytes } in
    let enough : ltb (uint64 - 1 - s.total_bytes) (length bytes) ≡ false = ground arith in
    let (reads, short, (same, open_still)) =
      absorb_input-Reaches counted m bytes (counted-Reaches s m _ r) room in
    (
      absorb_input counted bytes,
      rw (live, enough) refl,
      (reads, short, rw (same, length-append, total) refl, open_still ∙ live),
    )
