-- ===== src/Io/ContentHash/Compression.antt =====
-- src/io/content_hash.cpp: the compression function of SHA-256 on one block of 64 bytes. Unsigned
-- 32-bit arithmetic keeps its wrap-around written out.
use hyowon.Common.{
  ℕ, zero, suc, ◌+◌, ◌-◌, ◌*◌, ◌/◌, ◌%◌, ◌^◌, List, [], ◌∷◌, get_or, set, replicate, bit_and,
  bit_or, bit_xor,
}

-- One more than the largest `std::uint32_t`.
abbrev pub uint32 : ℕ
uint32 = 2 ^ 32

unfoldable pub k_round_constants : List ℕ
k_round_constants =
    0x428a2f98 ∷ 0x71374491 ∷ 0xb5c0fbcf ∷ 0xe9b5dba5 ∷ 0x3956c25b ∷ 0x59f111f1 ∷ 0x923f82a4
    ∷ 0xab1c5ed5 ∷ 0xd807aa98 ∷ 0x12835b01 ∷ 0x243185be ∷ 0x550c7dc3 ∷ 0x72be5d74 ∷ 0x80deb1fe
    ∷ 0x9bdc06a7 ∷ 0xc19bf174 ∷ 0xe49b69c1 ∷ 0xefbe4786 ∷ 0x0fc19dc6 ∷ 0x240ca1cc ∷ 0x2de92c6f
    ∷ 0x4a7484aa ∷ 0x5cb0a9dc ∷ 0x76f988da ∷ 0x983e5152 ∷ 0xa831c66d ∷ 0xb00327c8 ∷ 0xbf597fc7
    ∷ 0xc6e00bf3 ∷ 0xd5a79147 ∷ 0x06ca6351 ∷ 0x14292967 ∷ 0x27b70a85 ∷ 0x2e1b2138 ∷ 0x4d2c6dfc
    ∷ 0x53380d13 ∷ 0x650a7354 ∷ 0x766a0abb ∷ 0x81c2c92e ∷ 0x92722c85 ∷ 0xa2bfe8a1 ∷ 0xa81a664b
    ∷ 0xc24b8b70 ∷ 0xc76c51a3 ∷ 0xd192e819 ∷ 0xd6990624 ∷ 0xf40e3585 ∷ 0x106aa070 ∷ 0x19a4c116
    ∷ 0x1e376c08 ∷ 0x2748774c ∷ 0x34b0bcb5 ∷ 0x391c0cb3 ∷ 0x4ed8aa4a ∷ 0x5b9cca4f ∷ 0x682e6ff3
    ∷ 0x748f82ee ∷ 0x78a5636f ∷ 0x84c87814 ∷ 0x8cc70208 ∷ 0x90befffa ∷ 0xa4506ceb ∷ 0xbef9a3f7
    ∷ 0xc67178f2 ∷ []

-- `std::rotr` on 32 bits.
unfoldable pub rotr : ℕ → ℕ → ℕ
rotr value count = bit_or (value / 2 ^ count) (value * 2 ^ (32 - count) % uint32)

unfoldable pub choose : ℕ → ℕ → ℕ → ℕ
choose x y z = bit_xor (bit_and x y) (bit_and (uint32 - 1 - x) z)

unfoldable pub majority : ℕ → ℕ → ℕ → ℕ
majority x y z = bit_xor (bit_xor (bit_and x y) (bit_and x z)) (bit_and y z)

unfoldable pub big_sigma0 : ℕ → ℕ
unfolding rotr
big_sigma0 value = bit_xor (bit_xor (rotr value 2) (rotr value 13)) (rotr value 22)

unfoldable pub big_sigma1 : ℕ → ℕ
unfolding rotr
big_sigma1 value = bit_xor (bit_xor (rotr value 6) (rotr value 11)) (rotr value 25)

unfoldable pub small_sigma0 : ℕ → ℕ
unfolding rotr
small_sigma0 value = bit_xor (bit_xor (rotr value 7) (rotr value 18)) (value / 2 ^ 3)

unfoldable pub small_sigma1 : ℕ → ℕ
unfolding rotr
small_sigma1 value = bit_xor (bit_xor (rotr value 17) (rotr value 19)) (value / 2 ^ 10)

-- The first sixteen words, with the highest byte of each first.
unfoldable pub load_loop : ℕ → ℕ → List ℕ → List ℕ → List ℕ
load_loop zero index block schedule = schedule
load_loop (suc left) index block schedule =
    let offset = 4 * index in
    let high = bit_or (get_or block offset 0 * 2 ^ 24) (get_or block (offset + 1) 0 * 2 ^ 16) in
    let low = get_or block (offset + 2) 0 * 2 ^ 8 in
    let word = bit_or (bit_or high low) (get_or block (offset + 3) 0) in
    load_loop left (index + 1) block (set schedule index word)

unfoldable pub expand_loop : ℕ → ℕ → List ℕ → List ℕ
unfolding small_sigma0 small_sigma1
expand_loop zero index schedule = schedule
expand_loop (suc left) index schedule =
    let word =
      small_sigma1 (get_or schedule (index - 2) 0)
      + get_or schedule (index - 7) 0
      + small_sigma0 (get_or schedule (index - 15) 0)
      + get_or schedule (index - 16) 0 in
    expand_loop left (index + 1) (set schedule index (word % uint32))

unfoldable pub schedule : List ℕ → List ℕ
schedule block = expand_loop 48 16 (load_loop 16 0 block (replicate 64 0))

pub record Registers : Type 0 where
  pub a : ℕ
  pub b : ℕ
  pub c : ℕ
  pub d : ℕ
  pub e : ℕ
  pub f : ℕ
  pub g : ℕ
  pub h : ℕ

unfoldable pub round : Registers → ℕ → ℕ → Registers
unfolding big_sigma0 big_sigma1 choose majority
round r constant word =
    let temp1 = (r.h + big_sigma1 r.e + choose r.e r.f r.g + constant + word) % uint32 in
    let temp2 = (big_sigma0 r.a + majority r.a r.b r.c) % uint32 in
    record {
      a = (temp1 + temp2) % uint32;
      b = r.a;
      c = r.b;
      d = r.c;
      e = (r.d + temp1) % uint32;
      f = r.e;
      g = r.f;
      h = r.g;
    }

-- The loop over the constants and the schedule, which are equally long.
unfoldable pub rounds : List ℕ → List ℕ → Registers → Registers
rounds [] words r = r
rounds (k ∷ ks) [] r = r
rounds (k ∷ ks) (w ∷ ws) r = rounds ks ws (round r k w)

-- `transform`, on the chaining state alone.
unfoldable pub compress : List ℕ → List ℕ → List ℕ
compress state block =
    let start : Registers = record {
      a = get_or state 0 0;
      b = get_or state 1 0;
      c = get_or state 2 0;
      d = get_or state 3 0;
      e = get_or state 4 0;
      f = get_or state 5 0;
      g = get_or state 6 0;
      h = get_or state 7 0;
    } in
    let r = rounds k_round_constants (schedule block) start in
    (start.a + r.a) % uint32
    ∷ (start.b + r.b) % uint32
    ∷ (start.c + r.c) % uint32
    ∷ (start.d + r.d) % uint32
    ∷ (start.e + r.e) % uint32
    ∷ (start.f + r.f) % uint32
    ∷ (start.g + r.g) % uint32
    ∷ (start.h + r.h) % uint32
    ∷ []
