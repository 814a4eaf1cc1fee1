-- ===== src/Io/ContentHash.antt =====
-- src/io/content_hash.cpp: the streaming SHA-256. Bytes and 32-bit words are numbers, the arrays
-- are lists of fixed length.
pub mod Compression
pub mod Canonical
pub mod Staging
pub mod Streaming
pub mod Closing
pub mod Misuse
mod Examples
use hyowon.Common.{
  ℕ, zero, suc, ◌+◌, ◌-◌, ◌*◌, ◌/◌, ◌%◌, ◌^◌, min, Bool, true, false, not, ◌&&◌, Option, none, some,
  List, [], ◌∷◌, ◌++◌, ltb, leb, ◌==◌, if◌then◌else◌, get_or, set, take, drop, length, replicate,
  bit_and, ◌⊎◌, inl, inr, Outcome, done, thrown, ◌>>=◌, map,
}
use hyowon.Io.ContentHash.Compression.{compress}

pub data Error : Type 0 where
  update_after_finalization input_length_exceeds_range : Error
  finalized_more_than_once bit_length_exceeds_range : Error
  not_finite : Error

-- One more than the largest `std::uint64_t`.
abbrev pub uint64 : ℕ
uint64 = 2 ^ 64

pub record Impl : Type 0 where
  pub state : List ℕ
  pub buffer : List ℕ
  pub buffer_size : ℕ
  pub total_bytes : ℕ
  pub finalized : Bool

unfoldable pub initial_state : List ℕ
initial_state =
    0x6a09e667 ∷ 0xbb67ae85 ∷ 0x3c6ef372 ∷ 0xa54ff53a ∷ 0x510e527f ∷ 0x9b05688c ∷ 0x1f83d9ab
    ∷ 0x5be0cd19 ∷ []

unfoldable pub initial : Impl
initial = record {
  state = initial_state;
  buffer = replicate 64 0;
  buffer_size = 0;
  total_bytes = 0;
  finalized = false;
}

-- `transform(block)`
unfoldable pub transform : Impl → List ℕ → Impl
transform s block = record s { state = compress s.state block }

-- `transform(buffer_.data()); buffer_size_ = 0;`
unfoldable pub transform_buffer : Impl → Impl
transform_buffer s = record (transform s s.buffer) { buffer_size = 0 }

-- `std::memcpy(to + at, from, from.size())`
abbrev pub memcpy : List ℕ → ℕ → List ℕ → List ℕ
memcpy to at from = take at to ++ from ++ drop (at + length from) to

-- `if (buffer_size_ == buffer_.size()) { transform(buffer_.data()); buffer_size_ = 0; }`
unfoldable pub flushed : Impl → Impl
flushed s = if s.buffer_size == 64 then transform_buffer s else s

-- The partial leading block: the object, and the input that remains.
unfoldable pub stage_leading : Impl → List ℕ → Impl × List ℕ
stage_leading s input =
    let copy = min (64 - s.buffer_size) (length input) in
    let filled = record s {
      buffer = memcpy s.buffer s.buffer_size (take copy input);
      buffer_size = s.buffer_size + copy;
    } in
    if not (s.buffer_size == 0) && not (length input == 0)
    then (flushed filled, drop copy input)
    else (s, input)

-- `while (remaining >= buffer_.size())`
unfoldable pub blocks_loop : ℕ → Impl → List ℕ → Impl × List ℕ
blocks_loop zero s input = (s, input)
blocks_loop (suc fuel) s input =
    let rest = blocks_loop fuel (transform s (take 64 input)) (drop 64 input) in
    if leb 64 (length input) then rest else (s, input)

unfoldable pub stage_trailing : Impl × List ℕ → Impl
stage_trailing (s, input) =
    if not (length input == 0)
    then record s { buffer = memcpy s.buffer 0 input; buffer_size = length input }
    else s

unfoldable pub absorb_input : Impl → List ℕ → Impl
absorb_input s input =
    let (staged, rest) = stage_leading s input in
    stage_trailing (blocks_loop (length input) staged rest)

unfoldable pub update : Impl → List ℕ → Outcome Error Impl
update s bytes =
    if s.finalized
    then thrown update_after_finalization s
    else if ltb (uint64 - 1 - s.total_bytes) (length bytes)
    then thrown input_length_exceeds_range s
    else done (absorb_input (record s { total_bytes = s.total_bytes + length bytes }) bytes)

-- `buffer_[buffer_size_++] = byte`
unfoldable pub push : Impl → ℕ → Impl
push s byte = record s { buffer = set s.buffer s.buffer_size byte; buffer_size = s.buffer_size + 1 }

-- `while (buffer_size_ < limit) buffer_[buffer_size_++] = 0U`, with `left` rounds to go.
unfoldable pub zero_fill : ℕ → Impl → Impl
zero_fill zero s = s
zero_fill (suc left) s = zero_fill left (push s 0)

-- `for (int shift = 56; shift >= 0; shift -= 8)`, with `left` bytes to write.
unfoldable pub push_length : ℕ → ℕ → Impl → Impl
push_length zero bit_length s = s
push_length (suc left) bit_length s =
    push_length left bit_length (push s (bit_length / 2 ^ (8 * left) % 256))

-- The padding, and the last blocks.
unfoldable pub close : Impl → Impl
close s =
    let marked = push s 0x80 in
    let wrapped =
      if ltb 56 marked.buffer_size
      then transform_buffer (zero_fill (64 - marked.buffer_size) marked)
      else marked in
    let filled = zero_fill (56 - wrapped.buffer_size) wrapped in
    transform_buffer (push_length 8 (s.total_bytes * 8) filled)

-- The bytes of the words, each with its highest byte first.
unfoldable pub word_bytes : List ℕ → List ℕ
word_bytes [] = []
word_bytes (w ∷ ws) =
    w / 2 ^ 24 % 256 ∷ w / 2 ^ 16 % 256 ∷ w / 2 ^ 8 % 256 ∷ w % 256 ∷ word_bytes ws

-- The object that `finalize` leaves is the one in the outcome; the digest is read from it.
unfoldable pub finalize : Impl → Outcome Error Impl
finalize s =
    if s.finalized
    then thrown finalized_more_than_once s
    else if ltb ((uint64 - 1) / 8) s.total_bytes
    then thrown bit_length_exceeds_range (record s { finalized = true })
    else done (close (record s { finalized = true }))

unfoldable pub digest : Impl → List ℕ
digest s = word_bytes s.state

-- The character code of `digits[value]`.
unfoldable pub hex_digit : ℕ → ℕ
hex_digit value = if ltb value 10 then 48 + value else 87 + value

unfoldable pub hex_digest : List ℕ → List ℕ
hex_digest [] = []
hex_digest (byte ∷ bytes) =
    hex_digit (byte / 2 ^ 4) ∷ hex_digit (bit_and byte 0x0f) ∷ hex_digest bytes

-- The digest as characters, or the exception.
unfoldable pub finish_hex : Impl → Error ⊎ List ℕ
finish_hex s = elim (finalize s) [ thrown e t ↦ inl e | done t ↦ inr (hex_digest (digest t)) ]

unfoldable pub sha256_bytes : List ℕ → Error ⊎ List ℕ
sha256_bytes bytes = elim (update initial bytes) [ thrown e t ↦ inl e | done t ↦ finish_hex t ]
