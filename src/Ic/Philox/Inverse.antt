-- ===== src/Ic/Philox/Inverse.antt =====
-- src/ic/philox_rng.cpp: the rounds of the generator taken back.
use hyowon.Common.{
  ℕ, zero, suc, ◌*◌, ◌/◌, ◌%◌, ◌<◌, ◌≡◌, refl, ap, sym, ◌∙◌, ◌==◌, if◌then◌else◌, arith, bit_xor,
  bit_xor-cancel, bit_xor_comm, bit_xor-lt, suc-ne_zero,
}
use hyowon.Ic.Philox.{
  uint32, philox_m0, philox_m1, Counter, Key, multiply_high_low, mix, next_key, rounds,
  philox4x32_10,
}

-- The inverses of the two odd multipliers.
abbrev inverse_m0 : ℕ
inverse_m0 = 0x991a7cdb

abbrev inverse_m1 : ℕ
inverse_m1 = 0x6d7cae67

pub record AreWords (c : Counter) : Type 0 where
  pub c0-lt : c.c0 < uint32
  pub c1-lt : c.c1 < uint32
  pub c2-lt : c.c2 < uint32
  pub c3-lt : c.c3 < uint32

-- One round taken back.
unfoldable pub unmix : Counter → Key → Counter
unmix counter key =
    let c0 = counter.c3 * inverse_m0 % uint32 in
    let c2 = counter.c1 * inverse_m1 % uint32 in
    record {
      c0 = c0;
      c1 = bit_xor (bit_xor counter.c0 key.k0) (philox_m1 * c2 / uint32);
      c2 = c2;
      c3 = bit_xor (bit_xor counter.c2 key.k1) (philox_m0 * c0 / uint32);
    }

unfoldable pub unrounds : ℕ → Counter → Key → Counter
unrounds zero counter key = counter
unrounds (suc left) counter key =
    unmix (unrounds left counter (if left == 0 then key else next_key key)) key

product_inverse0 : (c : ℕ) → c < uint32 → philox_m0 * c % uint32 * inverse_m0 % uint32 ≡ c
product_inverse0 c h = omega arith

product_inverse1 : (c : ℕ) → c < uint32 → philox_m1 * c % uint32 * inverse_m1 % uint32 ≡ c
product_inverse1 c h = omega arith

-- A round is taken back.
unmix-mix : (c : Counter) (k : Key) → AreWords c → unmix (mix c k) k ≡ c
unfolding unmix mix multiply_high_low
unmix-mix c k w =
    let p0 = product_inverse0 c.c0 w.c0-lt in
    let p2 = product_inverse1 c.c2 w.c2-lt in
    rw
      (
        p0,
        p2,
        bit_xor-cancel,
        bit_xor-cancel,
        bit_xor_comm (philox_m1 * c.c2 / uint32) c.c1,
        bit_xor_comm (philox_m0 * c.c0 / uint32) c.c3,
        bit_xor-cancel,
        bit_xor-cancel,
      )
      refl

abbrev pub IsKey : Key → Type 0
IsKey k = (k.k0 < uint32) × (k.k1 < uint32)

next_key-IsKey : (k : Key) → IsKey (next_key k)
unfolding next_key
next_key-IsKey k = (omega arith, omega arith)

mix-AreWords : (c : Counter) (k : Key) → AreWords c → IsKey k → AreWords (mix c k)
unfolding mix multiply_high_low
mix-AreWords c k w key =
    let high1 : philox_m1 * c.c2 / uint32 < uint32 = omega (arith, w.c2-lt) in
    let high0 : philox_m0 * c.c0 / uint32 < uint32 = omega (arith, w.c0-lt) in
    record {
      c0-lt = bit_xor-lt 32 _ _ (bit_xor-lt 32 _ _ high1 w.c1-lt) key.0;
      c1-lt = omega arith;
      c2-lt = bit_xor-lt 32 _ _ (bit_xor-lt 32 _ _ high0 w.c3-lt) key.1;
      c3-lt = omega arith;
    }

-- The key of the next round.
raised-IsKey : (left : ℕ) (k : Key) → IsKey k → IsKey (if left == 0 then k else next_key k)
raised-IsKey zero k h = h
raised-IsKey (suc left) k h = rw (suc-ne_zero left) (next_key-IsKey k)

unrounds-rounds :
    (left : ℕ) (c : Counter) (k : Key)
    → AreWords c
    → IsKey k
    → unrounds left (rounds left c k) k ≡ c
unfolding unrounds rounds
unrounds-rounds zero c k w key = refl
unrounds-rounds (suc left) c k w key =
    let next : Key = if left == 0 then k else next_key k in
    ap (λ (d : Counter). unmix d k)
      (unrounds-rounds left (mix c k) next (mix-AreWords c k w key) (raised-IsKey left k key))
    ∙ unmix-mix c k w

-- Under one key, two counters of 32-bit words that give the same block are the same counter.
pub philox4x32_10-injective :
    (c d : Counter) (k : Key)
    → AreWords c
    → AreWords d
    → IsKey k
    → philox4x32_10 c k ≡ philox4x32_10 d k
    → c ≡ d
unfolding philox4x32_10
philox4x32_10-injective c d k wc wd key same =
    sym (unrounds-rounds 10 c k wc key)
    ∙ ap (λ (b : Counter). unrounds 10 b k) same
    ∙ unrounds-rounds 10 d k wd key
