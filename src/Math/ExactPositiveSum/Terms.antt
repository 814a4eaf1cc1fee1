-- ===== src/Math/ExactPositiveSum/Terms.antt =====
-- What a bit pattern stands for, in units of the smallest subnormal, and how `decode` reads it.
use native.Mathlib.Nat.{pow-le-pow_right, mul-le-mul}
use hyowon.Common.{
  ℕ, zero, suc, ◌+◌, ◌-◌, ◌*◌, ◌/◌, ◌%◌, ◌^◌, ◌<◌, ◌≤◌, ◌≡◌, refl, sym, ap, ap₂, ◌⊎◌, inl, inr,
  none, some, ltb, ◌==◌, arith, tests, Bool-cases, ==→eq, bit_or-disjoint, two_pow_pos,
}
use hyowon.Math.ExactPositiveSum.{word, limb_count, Decoded, decode}

-- A finite value that is not below zero: a positive pattern below infinity's, or -0.
abbrev pub IsTerm : ℕ → Type 0
IsTerm v = (v < 0x7ff * 2 ^ 52) ⊎ (v ≡ 2 ^ 63)

-- The integer multiple of 2 ^ -1074 that a pattern with no sign stands for.
pub units_of : ℕ → ℕ → ℕ
units_of zero fraction = fraction
units_of (suc e) fraction = (2 ^ 52 + fraction) * 2 ^ e

pub units : ℕ → ℕ
units v = units_of (v % 2 ^ 63 / 2 ^ 52) (v % 2 ^ 52)

pub units-zero : units 0 ≡ 0
unfolding units units_of
units-zero = refl

-- A pattern's sign is no part of its magnitude.
pub units_no_sign : (v : ℕ) → units (v % 2 ^ 63) ≡ units v
unfolding units
units_no_sign v = ap₂ units_of (ground arith) (ground arith)

-- The largest finite value, in the same units.
pub max_term : ℕ
max_term = (2 ^ 53 - 1) * 2 ^ 2045

-- The mantissa and shift of a decoded term, with the bounds that the accumulator relies on.
pub record Reads (v : ℕ) (d : Decoded) : Type 0 where
  pub value : d.mantissa * 2 ^ d.shift ≡ units v
  pub mantissa-lt : d.mantissa < 2 ^ 53
  pub shift-le : d.shift ≤ 2045

decode_zero_exponent :
    (v : ℕ) → v < 2 ^ 52 → decode v ≡ some (record { mantissa = v % 2 ^ 52; shift = 0 })
unfolding decode
decode_zero_exponent v h = ground arith

decode_normal :
    (v : ℕ)
    → 2 ^ 52 ≤ v
    → v < 0x7ff * 2 ^ 52
    → decode v ≡ some (record { mantissa = 2 ^ 52 + v % 2 ^ 52; shift = v / 2 ^ 52 - 1 })
unfolding decode
decode_normal v lo hi = ground (arith, bit_or-disjoint 52 1 (v % 2 ^ 52) (omega arith))

units_of_pred : (e f : ℕ) → 0 < e → units_of e f ≡ (2 ^ 52 + f) * 2 ^ (e - 1)
unfolding units_of
units_of_pred zero f h = absurd (omega arith)
units_of_pred (suc e) f h = ap (λ (n : ℕ). (2 ^ 52 + f) * 2 ^ n) (omega arith)

abbrev pub ReadsTerm : ℕ → Type 0
ReadsTerm v = (d : Decoded) × (decode v ≡ some d) × Reads v d

positive_term : (v : ℕ) → v < 0x7ff * 2 ^ 52 → ReadsTerm v
unfolding units units_of
positive_term v h = elim (Bool-cases (ltb v (2 ^ 52))) [
  | inl subnormal ↦
      let small : v < 2 ^ 52 = omega tests in
      let e : v % 2 ^ 63 / 2 ^ 52 ≡ 0 = omega arith in
      (
        record { mantissa = v % 2 ^ 52; shift = 0 },
        decode_zero_exponent v small,
        record { value = rw e (omega arith); mantissa-lt = omega arith; shift-le = omega arith },
      )
  | inr normal ↦
      let large : 2 ^ 52 ≤ v = omega tests in
      let e : v % 2 ^ 63 / 2 ^ 52 ≡ v / 2 ^ 52 = omega arith in
      (
        record { mantissa = 2 ^ 52 + v % 2 ^ 52; shift = v / 2 ^ 52 - 1 },
        decode_normal v large h,
        record {
          value = rw e (sym (units_of_pred (v / 2 ^ 52) (v % 2 ^ 52) (omega arith)));
          mantissa-lt = omega arith;
          shift-le = omega arith;
        },
      )
]

-- A term is decoded to its exact value.
pub decode-term : (v : ℕ) → IsTerm v → ReadsTerm v
unfolding units units_of decode
decode-term v (inl h) = positive_term v h
decode-term v (inr e) = rw e (
  record { mantissa = 0; shift = 0 },
  refl,
  record { value = refl; mantissa-lt = omega arith; shift-le = omega arith },
)

-- Anything else is rejected.
pub decode-other : (v : ℕ) → v < word → (IsTerm v → ⊥) → decode v ≡ none
unfolding decode
decode-other v h other = let finite : 0x7ff * 2 ^ 52 ≤ v = omega (arith, not_lt) in ground arith
  where
    not_lt : v < 0x7ff * 2 ^ 52 → ⊥
    not_lt lt = other (inl lt)

pub IsTerm-cases : (v : ℕ) → IsTerm v ⊎ (IsTerm v → ⊥)
IsTerm-cases v = elim (Bool-cases (ltb v (0x7ff * 2 ^ 52))) [
  | inl small ↦ inl (inl (omega tests))
  | inr large ↦ elim (Bool-cases (v == 2 ^ 63)) [
    | inl zero_sign ↦ inl (inr (==→eq _ _ zero_sign))
    | inr other ↦ inr (ground arith)
  ]
]

-- No decoded value exceeds the largest term.
pub Reads-le : {v : ℕ} {d : Decoded} → Reads v d → units v ≤ max_term
unfolding max_term
Reads-le {v} {d} r =
    rw (← r.value) (
      mul-le-mul {n₂ = 2 ^ 53 - 1} (omega arith)
        (pow-le-pow_right {n = 2} (omega arith) r.shift-le))

-- As many terms as a `std::uint64_t` counts leave room in the limbs.
pub room : (n k : ℕ) → n < word → k ≡ limb_count → n * max_term < word ^ k
unfolding max_term
room n k h e = rw e (omega arith)

-- Only +0 is worth nothing among the patterns with no sign.
pub units-eq-zero : (v : ℕ) → v < 0x7ff * 2 ^ 52 → units v ≡ 0 → v ≡ 0
unfolding units units_of
units-eq-zero v h e = by_exponent (v % 2 ^ 63 / 2 ^ 52) refl e
  where
    by_exponent : (x : ℕ) → v % 2 ^ 63 / 2 ^ 52 ≡ x → units_of x (v % 2 ^ 52) ≡ 0 → v ≡ 0
    by_exponent zero p q = let f : v % 2 ^ 52 ≡ 0 = q in omega arith
    by_exponent (suc x) p q = absurd (grind (arith, two_pow_pos x))

-- The two shapes of a positive finite pattern.
pub units_subnormal : (v : ℕ) → v < 2 ^ 52 → units v ≡ v
unfolding units units_of
units_subnormal v h = let e : v % 2 ^ 63 / 2 ^ 52 ≡ 0 = omega arith in rw e (omega arith)

pub units_normal :
    (v : ℕ)
    → 2 ^ 52 ≤ v
    → v < 0x7ff * 2 ^ 52
    → units v ≡ (2 ^ 52 + v % 2 ^ 52) * 2 ^ (v / 2 ^ 52 - 1)
unfolding units
units_normal v lo hi =
    let e : v % 2 ^ 63 / 2 ^ 52 ≡ v / 2 ^ 52 = omega arith in
    rw e (units_of_pred (v / 2 ^ 52) (v % 2 ^ 52) (omega arith))
