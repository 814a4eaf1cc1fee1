-- ===== src/Io/ContentHash/Closing.antt =====
-- src/io/content_hash.cpp: the padding of `finalize`, and the hash of a whole message that the
-- streamed digest is compared with.
use hyowon.Common.{
  ℕ, zero, suc, ◌+◌, ◌-◌, ◌*◌, ◌/◌, ◌%◌, ◌^◌, ◌≤◌, ◌<◌, ◌≡◌, refl, sym, ap, subst, ◌∙◌, ◌⊎◌, inl,
  inr, true, false, if◌then◌else◌, List, [], ◌∷◌, ◌++◌, arith, tests, length, replicate,
  length-append, append_assoc, append-nil, length-zero, ltb, Bool-cases, done, thrown,
}
use hyowon.Io.ContentHash.{
  Impl, Error, initial, initial_state, update, uint64, push, zero_fill, push_length,
  transform_buffer, close, finalize, digest, hex_digest, finish_hex, sha256_bytes, word_bytes,
}
use hyowon.Io.ContentHash.Staging.{Reaches, absorb, push-Reaches, transform_buffer-Reaches}
use hyowon.Io.ContentHash.Streaming.{Holds, initial-Holds, update-Holds}

-- The `n` low bytes of a number, the highest first.
unfoldable pub big_endian : ℕ → ℕ → List ℕ
big_endian zero value = []
big_endian (suc n) value = value / 2 ^ (8 * n) % 256 ∷ big_endian n value

-- The standard's padded message, and the hash of a whole message.
unfoldable pub padded : List ℕ → List ℕ
padded m = m ++ (0x80 ∷ (replicate ((119 - length m % 64) % 64) 0 ++ big_endian 8 (length m * 8)))

unfoldable pub reference : List ℕ → List ℕ
reference m = word_bytes (absorb (length (padded m) / 64) initial_state (padded m))

zero_fill-Reaches :
    (n : ℕ) (s : Impl) (m : List ℕ)
    → Reaches s m
    → s.buffer_size + n ≤ 64
    → Reaches (zero_fill n s) (m ++ replicate n 0)
      × ((zero_fill n s).buffer_size ≡ s.buffer_size + n)
unfolding zero_fill
zero_fill-Reaches zero s m r h = (rw append-nil r, omega arith)
zero_fill-Reaches (suc n) s m r h =
    let (reads, size) =
      zero_fill-Reaches n (push s 0) (m ++ 0 ∷ []) (push-Reaches s m 0 r (omega arith))
        (unfold push in omega arith) in
    (
      subst (Reaches _) (append_assoc m (0 ∷ []) (replicate n 0)) reads,
      size ∙ unfold push in omega arith,
    )

push_length-Reaches :
    (n value : ℕ) (s : Impl) (m : List ℕ)
    → Reaches s m
    → s.buffer_size + n ≤ 64
    → Reaches (push_length n value s) (m ++ big_endian n value)
      × ((push_length n value s).buffer_size ≡ s.buffer_size + n)
unfolding push_length big_endian
push_length-Reaches zero value s m r h = (rw append-nil r, omega arith)
push_length-Reaches (suc n) value s m r h =
    let byte : ℕ = value / 2 ^ (8 * n) % 256 in
    let (reads, size) =
      push_length-Reaches n value (push s byte) (m ++ byte ∷ [])
        (push-Reaches s m byte r (omega arith)) (unfold push in omega arith) in
    (
      subst (Reaches _) (append_assoc m (byte ∷ []) (big_endian n value)) reads,
      size ∙ unfold push in omega arith,
    )

replicate-add : (a b v : ℕ) → replicate a v ++ replicate b v ≡ replicate (a + b) v
replicate-add zero b v = ap (λ (n : ℕ). replicate n v) (omega arith)
replicate-add (suc a) b v =
    let count : suc a + b ≡ suc (a + b) = omega arith in rw (count, ← replicate-add a b v) refl

-- An object with an empty buffer holds the whole message in its state.
emptied-state :
    (s : Impl) (m : List ℕ)
    → Reaches s m
    → s.buffer_size ≡ 0
    → s.state ≡ absorb (length m / 64) initial_state m
emptied-state s m r empty =
    let whole : m ≡ r.absorbed =
      r.message
      ∙ ap (λ (t : List ℕ). r.absorbed ++ t) (length-zero r.tail (sym r.size ∙ empty))
      ∙ append-nil r.absorbed in
    let count : length m / 64 ≡ r.blocks = rw (whole, r.aligned) (omega arith) in
    rw (count, r.chained) (ap (absorb r.blocks initial_state) (sym whole))

size_mod :
    (s : Impl) (m : List ℕ) → Reaches s m → s.buffer_size < 64 → s.buffer_size ≡ length m % 64
size_mod s m r short =
    let total : length m ≡ length r.absorbed + length r.tail =
      rw (r.message) (length-append r.absorbed r.tail) in
    omega (arith, r.aligned, r.size)

-- The length ends the last block.
last_block-state :
    (s : Impl) (m : List ℕ) (value : ℕ)
    → Reaches s m
    → s.buffer_size ≡ 56
    → (transform_buffer (push_length 8 value s)).state
      ≡ absorb (length (m ++ big_endian 8 value) / 64) initial_state (m ++ big_endian 8 value)
last_block-state s m value r h =
    let (reads, size) = push_length-Reaches 8 value s m r (omega arith) in
    emptied-state _ (m ++ big_endian 8 value) (transform_buffer-Reaches _ _ reads (omega arith))
      (unfold transform_buffer in refl)

module _ (s : Impl) (m : List ℕ) (r : Reaches s m) (short : s.buffer_size < 64) where
  -- The zeros behind the mark, in this block and where it is full in the next.
  zeros-Reaches :
      let marked = push s 0x80 in
      let wrapped =
        if ltb 56 marked.buffer_size
        then transform_buffer (zero_fill (64 - marked.buffer_size) marked)
        else marked in
      let filled = zero_fill (56 - wrapped.buffer_size) wrapped in
      Reaches filled (m ++ 0x80 ∷ [] ++ replicate ((119 - length m % 64) % 64) 0)
      × (filled.buffer_size ≡ 56)
  zeros-Reaches =
      let marked : Impl = push s 0x80 in
      let grown : marked.buffer_size ≡ s.buffer_size + 1 = unfold push in refl in
      let reads = push-Reaches s m 0x80 r short in
      let place = size_mod s m r short in
      elim (Bool-cases (ltb 56 marked.buffer_size)) [
        | inr fits ↦
            let (filled, size) =
              zero_fill-Reaches (56 - marked.buffer_size) marked _ reads (omega tests) in
            let count : 56 - marked.buffer_size ≡ (119 - length m % 64) % 64 = omega tests in
            rw fits (
              subst
                  (λ (n : ℕ).
                    Reaches (zero_fill (56 - marked.buffer_size) marked)
                      (m ++ 0x80 ∷ [] ++ replicate n 0))
                  count filled,
              omega tests,
            )
        | inl over ↦
            let n : ℕ = 64 - marked.buffer_size in
            let (first, full) = zero_fill-Reaches n marked _ reads (omega tests) in
            let turned : Impl = transform_buffer (zero_fill n marked) in
            let empty : turned.buffer_size ≡ 0 = unfold transform_buffer in refl in
            let again = transform_buffer-Reaches _ _ first (omega tests) in
            let (filled, size) =
              zero_fill-Reaches (56 - turned.buffer_size) turned _ again (omega arith) in
            let count : n + (56 - turned.buffer_size) ≡ (119 - length m % 64) % 64 = omega tests in
            rw over (
              subst (Reaches (zero_fill (56 - turned.buffer_size) turned))
                  (append_assoc (m ++ 0x80 ∷ []) (replicate n 0)
                      (replicate (56 - turned.buffer_size) 0)
                    ∙ ap (λ (z : List ℕ). m ++ 0x80 ∷ [] ++ z) (replicate-add n _ 0)
                    ∙ ap (λ (k : ℕ). m ++ 0x80 ∷ [] ++ replicate k 0) count)
                  filled,
              omega tests,
            )
      ]

  close-state :
      s.total_bytes ≡ length m
      → (close s).state ≡ absorb (length (padded m) / 64) initial_state (padded m)
  unfolding close padded
  close-state total =
      let (reads, size) = zeros-Reaches in
      let zeros : List ℕ = replicate ((119 - length m % 64) % 64) 0 in
      let same : m ++ 0x80 ∷ [] ++ zeros ++ big_endian 8 (s.total_bytes * 8)
          ≡ m ++ (0x80 ∷ (zeros ++ big_endian 8 (length m * 8))) =
        rw total (
          ap (λ (z : List ℕ). z ++ big_endian 8 (length m * 8)) (append_assoc m (0x80 ∷ []) zeros)
          ∙ append_assoc m (0x80 ∷ zeros) (big_endian 8 (length m * 8))) in
      last_block-state _ _ (s.total_bytes * 8) reads size
      ∙ ap (λ (z : List ℕ). absorb (length z / 64) initial_state z) same

-- `finalize` of an object in use leaves the hash of its message, while the bit length fits.
pub finish_hex-eq :
    (s : Impl) (m : List ℕ)
    → Holds s m
    → length m * 8 < uint64
    → finish_hex s ≡ inr (hex_digest (reference m))
unfolding finish_hex finalize digest reference
finish_hex-eq s m (r, short, total, live) fits =
    let enough : ltb ((uint64 - 1) / 8) s.total_bytes ≡ false = ground arith in
    let ended : Impl = record s { finalized = true } in
    rw (finish_hex, finalize, live, enough)
      (ap (λ (state : List ℕ). inr (hex_digest (word_bytes state)))
        (close-state ended m (finalized-Reaches s m r) short total))
  where
    finalized-Reaches :
        (s : Impl) (m : List ℕ) → Reaches s m → Reaches (record s { finalized = true }) m
    finalized-Reaches s m r = record {
      blocks = r.blocks;
      absorbed = r.absorbed;
      tail = r.tail;
      message = r.message;
      aligned = r.aligned;
      chained = r.chained;
      room = r.room;
      size = r.size;
      staged = r.staged;
    }

-- The calls of a client: one `update` for each chunk, and `finish_hex`.
unfoldable pub hash_chunks : Impl → List (List ℕ) → Error ⊎ List ℕ
hash_chunks s [] = finish_hex s
hash_chunks s (chunk ∷ chunks) = elim (update s chunk) [
  | thrown e t ↦ inl e
  | done t ↦ hash_chunks t chunks
]

abbrev pub join : List (List ℕ) → List ℕ
join [] = []
join (chunk ∷ chunks) = chunk ++ join chunks

hash_chunks-Holds :
    (s : Impl) (m : List ℕ) (chunks : List (List ℕ))
    → Holds s m
    → (length m + length (join chunks)) * 8 < uint64
    → hash_chunks s chunks ≡ inr (hex_digest (reference (m ++ join chunks)))
unfolding hash_chunks
hash_chunks-Holds s m [] holds fits = rw append-nil (finish_hex-eq s m holds (omega arith))
hash_chunks-Holds s m (chunk ∷ chunks) holds fits =
    let total = length-append chunk (join chunks) in
    let (t, updated, next) = update-Holds s m chunk holds (omega arith) in
    rw (hash_chunks, updated)
      (hash_chunks-Holds t (m ++ chunk) chunks next (rw length-append (omega arith))
        ∙ ap (λ (z : List ℕ). inr (hex_digest (reference z))) (append_assoc m chunk (join chunks)))

-- The digest of a stream of chunks, for every message whose bit length fits in 64 bits, is that of
-- the joined message under the standard's padding, block by block: it does not depend on how the
-- message is cut, and no call throws.
pub hash_chunks-eq :
    (chunks : List (List ℕ))
    → length (join chunks) * 8 < uint64
    → hash_chunks initial chunks ≡ inr (hex_digest (reference (join chunks)))
hash_chunks-eq chunks fits = hash_chunks-Holds initial [] chunks initial-Holds (omega arith)

-- The one chunk of `sha256_bytes`: the block-by-block hash of the message under the standard's padding,
-- where its bit length fits in 64 bits.
pub sha256_bytes-eq :
    (bytes : List ℕ)
    → length bytes * 8 < uint64
    → sha256_bytes bytes ≡ inr (hex_digest (reference bytes))
unfolding sha256_bytes
sha256_bytes-eq bytes fits =
    let (t, updated, holds) = update-Holds initial [] bytes initial-Holds (omega arith) in
    rw (sha256_bytes, updated) (finish_hex-eq t bytes holds fits)
