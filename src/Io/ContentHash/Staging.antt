-- ===== src/Io/ContentHash/Staging.antt =====
-- src/io/content_hash.cpp: what the state, the buffer and its size say of the bytes read so far,
-- and the steps that `update` and `finalize` are made of. The compression function stays shut.
use hyowon.Common.{
  ℕ, zero, suc, ◌+◌, ◌*◌, ◌≤◌, ◌<◌, ◌≡◌, refl, sym, ap, ap₂, ◌∙◌, List, [], ◌∷◌, ◌++◌, arith, take,
  drop, length, length-append, length-take, length-drop, length-set, take-append, drop-append,
  take_all, take-set, append_assoc, append-nil, length-zero,
}
use hyowon.Io.ContentHash.Compression.{compress}
use hyowon.Io.ContentHash.{Impl, initial_state, transform, memcpy, push, transform_buffer}

-- The chaining state after `n` blocks.
unfoldable pub absorb : ℕ → List ℕ → List ℕ → List ℕ
absorb zero state bytes = state
absorb (suc n) state bytes = absorb n (compress state (take 64 bytes)) (drop 64 bytes)

pub absorb-append :
    (j k : ℕ) (state p q : List ℕ)
    → length p ≡ 64 * j
    → absorb (j + k) state (p ++ q) ≡ absorb k (absorb j state p) q
unfolding absorb
absorb-append zero k state p q h =
    let count : 0 + k ≡ k = omega arith in rw (count, length-zero p (omega arith)) refl
absorb-append (suc j) k state p q h =
    let enough : 64 ≤ length p = omega arith in
    let count : suc j + k ≡ suc (j + k) = omega arith in
    ap (λ (n : ℕ). absorb n state (p ++ q)) count
    ∙ ap₂ (λ (a b : List ℕ). absorb (j + k) (compress state a) b) (take-append 64 p q enough)
        (drop-append 64 p q enough)
    ∙ absorb-append j k (compress state (take 64 p)) (drop 64 p) q (rw length-drop (omega arith))

-- The object has read the bytes `m`: whole blocks are in the state, the rest is in the buffer.
pub record Reaches (s : Impl) (m : List ℕ) : Type 0 where
  pub blocks : ℕ
  pub absorbed : List ℕ
  pub tail : List ℕ
  pub message : m ≡ absorbed ++ tail
  pub aligned : length absorbed ≡ 64 * blocks
  pub chained : s.state ≡ absorb blocks initial_state absorbed
  pub room : length s.buffer ≡ 64
  pub size : s.buffer_size ≡ length tail
  pub staged : take (length tail) s.buffer ≡ tail

take-memcpy :
    (to tail from : List ℕ)
    → take (length tail) to ≡ tail
    → take (length (tail ++ from)) (memcpy to (length tail) from) ≡ tail ++ from
take-memcpy to tail from h = rw h (
    take-append (length (tail ++ from)) (tail ++ from) _ (omega arith)
    ∙ take_all _ (tail ++ from) refl)

length-memcpy :
    (to : List ℕ) (at : ℕ) (from : List ℕ)
    → at + length from ≤ length to
    → length (memcpy to at from) ≡ length to
length-memcpy to at from h =
    rw (length-append, length-append, length-take, length-drop) (omega arith)

-- Bytes copied behind the staged ones are read.
pub memcpy-Reaches :
    (s : Impl) (m from : List ℕ) (at after : ℕ)
    → Reaches s m
    → s.buffer_size ≡ at
    → after ≡ at + length from
    → after ≤ 64
    → Reaches (record s { buffer = memcpy s.buffer at from; buffer_size = after }) (m ++ from)
memcpy-Reaches s m from at after r here there h =
    let behind : at ≡ length r.tail = sym here ∙ r.size in
    record {
      blocks = r.blocks;
      absorbed = r.absorbed;
      tail = r.tail ++ from;
      message = ap (λ (t : List ℕ). t ++ from) r.message ∙ append_assoc r.absorbed r.tail from;
      aligned = r.aligned;
      chained = r.chained;
      room = length-memcpy s.buffer at from (rw (r.room) (omega arith)) ∙ r.room;
      size = rw length-append (omega arith);
      staged = rw behind (take-memcpy s.buffer r.tail from r.staged);
    }

pub push-Reaches :
    (s : Impl) (m : List ℕ) (byte : ℕ)
    → Reaches s m
    → s.buffer_size < 64
    → Reaches (push s byte) (m ++ byte ∷ [])
unfolding push
push-Reaches s m byte r h =
    let longer : length (r.tail ++ byte ∷ []) ≡ suc (length r.tail) =
      rw length-append (omega arith) in
    let inside : length r.tail < length s.buffer = rw (← r.size, r.room) h in
    record {
      blocks = r.blocks;
      absorbed = r.absorbed;
      tail = r.tail ++ byte ∷ [];
      message =
          ap (λ (t : List ℕ). t ++ byte ∷ []) r.message
          ∙ append_assoc r.absorbed r.tail (byte ∷ []);
      aligned = r.aligned;
      chained = r.chained;
      room = length-set s.buffer s.buffer_size byte ∙ r.room;
      size = rw (longer, r.size) (omega arith);
      staged =
          rw (longer, r.size)
            (take-set (length r.tail) s.buffer byte inside
              ∙ ap (λ (t : List ℕ). t ++ byte ∷ []) r.staged);
    }

-- A block that is taken at once is read, where nothing is staged.
pub transform-Reaches :
    (s : Impl) (m block : List ℕ)
    → Reaches s m
    → s.buffer_size ≡ 0
    → length block ≡ 64
    → Reaches (transform s block) (m ++ block)
unfolding transform
transform-Reaches s m block r empty whole =
    let nothing : r.tail ≡ [] = length-zero r.tail (sym r.size ∙ empty) in
    record {
      blocks = r.blocks + 1;
      absorbed = r.absorbed ++ block;
      tail = [];
      message =
          ap (λ (t : List ℕ). t ++ block) r.message ∙ rw (nothing, append-nil, append-nil) refl;
      aligned = rw (length-append, r.aligned, whole) (omega arith);
      chained = rw (r.chained) (
          sym (
            absorb-append r.blocks 1 initial_state r.absorbed block r.aligned
            ∙ unfold absorb in ap (compress _) (take_all 64 block (sym whole))));
      room = r.room;
      size = empty;
      staged = refl;
    }

-- A full buffer is moved into the state.
pub transform_buffer-Reaches :
    (s : Impl) (m : List ℕ) → Reaches s m → s.buffer_size ≡ 64 → Reaches (transform_buffer s) m
unfolding transform_buffer transform
transform_buffer-Reaches s m r full =
    let whole : length r.tail ≡ 64 = sym r.size ∙ full in
    let all : s.buffer ≡ r.tail =
      sym (take_all (length r.tail) s.buffer (whole ∙ sym r.room)) ∙ r.staged in
    record {
      blocks = r.blocks + 1;
      absorbed = r.absorbed ++ r.tail;
      tail = [];
      message = r.message ∙ sym (append-nil _);
      aligned = rw (length-append, r.aligned, whole) (omega arith);
      chained =
          rw (r.chained, all)
            (sym (
              absorb-append r.blocks 1 initial_state r.absorbed r.tail r.aligned
              ∙ unfold absorb in ap (compress _) (take_all 64 r.tail (sym whole))));
      room = r.room;
      size = refl;
      staged = refl;
    }
