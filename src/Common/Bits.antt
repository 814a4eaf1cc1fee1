-- ===== src/Common/Bits.antt =====
-- `|` of disjoint fields as a sum, `&` with one bit as a digit, and the cancellation of `^`, at every
-- width.
use Prim.Native.Nat.{ℕ, zero, suc, ◌+◌, ◌-◌, ◌*◌, ◌/◌, ◌%◌, ◌^◌, ◌≤◌, ◌<◌, min, max}
use Prim.Native.Nat.{
  bit_and, bit_or, bit_xor, digits, differ, bit_and-bitwise, bit_or-bitwise, bit_xor-bitwise,
}
use mathlib.Core.Path.{◌≡◌, refl, ap, sym, ◌∙◌}
use native.Mathlib.Nat.{pow-suc, div-div-eq-div-mul, mul_comm, le_trans, pow-le-pow_right}
use native.Mathlib.Omega.{arith}

-- `j` more than `n`, counted up.
raise : ℕ → ℕ → ℕ
raise zero n = n
raise (suc j) n = suc (raise j n)

raise-add : (j n : ℕ) → raise j n ≡ j + n
unfolding raise
raise-add zero n = omega arith
raise-add (suc j) n = omega (arith, raise-add j n)

module _ (last : ℕ → ℕ) (join : ℕ → ℕ → ℕ) where
  -- Once the first number has run out, a further round changes nothing.
  idle_round : (a n b : ℕ) → a ≤ n → digits last join (suc n) a b ≡ digits last join n a b
  idle_round (suc a) (suc n) b h =
      ap (λ (rest : ℕ). rest * 2 + join (suc a % 2) (b % 2))
        (idle_round (suc a / 2) n (b / 2) (omega arith))
  idle_round zero (suc n) b h = refl
  idle_round zero zero b h = refl
  idle_round (suc a) zero b h = absurd (omega arith)

  idle_rounds : (j a n b : ℕ) → a ≤ n → digits last join (raise j n) a b ≡ digits last join n a b
  unfolding raise
  idle_rounds zero a n b h = refl
  idle_rounds (suc j) a n b h =
      idle_round a (raise j n) b (omega (arith, raise-add j n)) ∙ idle_rounds j a n b h

  halve :
      (a b : ℕ)
      → digits last join (suc a) (suc a) b
        ≡ digits last join (suc a / 2) (suc a / 2) (b / 2) * 2 + join (suc a % 2) (b % 2)
  halve a b =
      let h : ℕ = suc a / 2 in
      let count : raise (a - h) h ≡ a = omega (arith, raise-add (a - h) h) in
      ap (λ (n : ℕ). digits last join n h (b / 2) * 2 + join (suc a % 2) (b % 2)) (sym count)
      ∙ ap (λ (rest : ℕ). rest * 2 + join (suc a % 2) (b % 2))
          (idle_rounds (a - h) h h (b / 2) (omega arith))

-- The lowest digit of `a | b`, and the rest.
pub bit_or-halves : (a b : ℕ) → bit_or a b ≡ bit_or (a / 2) (b / 2) * 2 + max (a % 2) (b % 2)
bit_or-halves zero b = omega (arith, bit_or-bitwise 0 b, bit_or-bitwise 0 (b / 2))
bit_or-halves (suc a) b =
    omega
      (arith, halve (λ y. y) max a b, bit_or-bitwise (suc a) b, bit_or-bitwise (suc a / 2) (b / 2))

-- The lowest digit of `a & b`, and the rest.
pub bit_and-halves : (a b : ℕ) → bit_and a b ≡ bit_and (a / 2) (b / 2) * 2 + min (a % 2) (b % 2)
bit_and-halves zero b = omega (arith, bit_and-bitwise 0 b, bit_and-bitwise 0 (b / 2))
bit_and-halves (suc a) b =
    omega (
      arith,
      halve (λ y. 0) min a b,
      bit_and-bitwise (suc a) b,
      bit_and-bitwise (suc a / 2) (b / 2),
    )

-- Every number has as many digits as some power allows.
below_power : (a : ℕ) → a < 2 ^ a
below_power zero = omega arith
below_power (suc a) = omega (arith, below_power a, pow-suc 2 a)

bit_or_nothing : (width a : ℕ) → a < 2 ^ width → bit_or a 0 ≡ a
bit_or_nothing zero a h = let none_left : a ≡ 0 = omega arith in rw none_left
bit_or_nothing (suc width) a h =
    omega (arith, bit_or-halves a 0, bit_or_nothing width (a / 2) (omega (arith, pow-suc 2 width)))

bit_and_nothing : (width a : ℕ) → a < 2 ^ width → bit_and a 0 ≡ 0
bit_and_nothing zero a h = let none_left : a ≡ 0 = omega arith in rw none_left
bit_and_nothing (suc width) a h =
    omega
      (arith, bit_and-halves a 0, bit_and_nothing width (a / 2) (omega (arith, pow-suc 2 width)))

scaled_double : (q k : ℕ) → q * 2 ^ suc k ≡ q * 2 ^ k * 2
scaled_double q k = omega (arith, ap (λ (t : ℕ). q * t) (pow-suc 2 k))

-- `(q << k) | r` is the sum where `r` has at most `k` digits.
pub bit_or-disjoint : (k q r : ℕ) → r < 2 ^ k → bit_or (q * 2 ^ k) r ≡ q * 2 ^ k + r
bit_or-disjoint zero q r h = ground (arith, bit_or_nothing q q (below_power q))
bit_or-disjoint (suc k) q r h = ground (
  arith,
  scaled_double q k,
  bit_or-halves (q * 2 ^ suc k) r,
  bit_or-disjoint k q (r / 2) (omega (arith, pow-suc 2 k)),
)

-- `a & (1 << k)` is the digit at place `k`, in its place.
pub bit_and-single : (k a : ℕ) → bit_and a (2 ^ k) ≡ a / 2 ^ k % 2 * 2 ^ k
bit_and-single zero a =
    ground (arith, bit_and-halves a 1, bit_and_nothing (a / 2) (a / 2) (below_power (a / 2)))
bit_and-single (suc k) a =
    let double : 2 ^ suc k ≡ 2 ^ k * 2 = pow-suc 2 k in
    let half : 2 ^ k * 2 / 2 ≡ 2 ^ k = omega arith in
    let place : a / 2 ^ suc k ≡ a / 2 / 2 ^ k = omega (
      arith,
      div-div-eq-div-mul a 2 (2 ^ k),
      ap (λ (t : ℕ). a / t) (double ∙ mul_comm (2 ^ k) 2),
    ) in
    let step : bit_and a (2 ^ suc k) ≡ bit_and (a / 2) (2 ^ k) * 2 =
      rw double (omega (arith, bit_and-halves a (2 ^ k * 2), ap (bit_and (a / 2)) half)) in
    rw (step, place, bit_and-single k (a / 2), double) (omega arith)

pub bit_and-zero : (a : ℕ) → bit_and a 0 ≡ 0
bit_and-zero a = bit_and_nothing a a (below_power a)

-- The lowest digit of `a ^ b`, and the rest. The two digits differ where their sum is odd.
differ-parity : (x y : ℕ) → x < 2 → y < 2 → differ x y ≡ (x + y) % 2
differ-parity zero zero h k = refl
differ-parity zero (suc zero) h k = refl
differ-parity zero (suc (suc y)) h k = absurd (omega arith)
differ-parity (suc zero) zero h k = refl
differ-parity (suc zero) (suc zero) h k = refl
differ-parity (suc zero) (suc (suc y)) h k = absurd (omega arith)
differ-parity (suc (suc x)) y h k = absurd (omega arith)

pub bit_xor-halves : (a b : ℕ) → bit_xor a b ≡ bit_xor (a / 2) (b / 2) * 2 + (a % 2 + b % 2) % 2
bit_xor-halves zero b = omega (arith, bit_xor-bitwise 0 b, bit_xor-bitwise 0 (b / 2))
bit_xor-halves (suc a) b = omega (
  arith,
  halve (λ y. y) differ a b,
  bit_xor-bitwise (suc a) b,
  bit_xor-bitwise (suc a / 2) (b / 2),
  differ-parity (suc a % 2) (b % 2) (omega arith) (omega arith),
)

xor_cancel_within : (width a b : ℕ) → a < 2 ^ width → b < 2 ^ width → bit_xor (bit_xor a b) b ≡ a
xor_cancel_within zero a b h k =
    let none_left : a ≡ 0 = omega arith in
    let none_right : b ≡ 0 = omega arith in rw (none_left, none_right) refl
xor_cancel_within (suc width) a b h k =
    let double = pow-suc 2 width in
    let x : ℕ = bit_xor a b in
    let halves = bit_xor-halves a b in
    let upper : x / 2 ≡ bit_xor (a / 2) (b / 2) = omega arith in
    omega (
      arith,
      bit_xor-halves x b,
      ap (λ (n : ℕ). bit_xor n (b / 2)) upper,
      xor_cancel_within width (a / 2) (b / 2) (omega arith) (omega arith),
    )

-- Two exclusive ors with the same number cancel.
pub bit_xor-cancel : (a b : ℕ) → bit_xor (bit_xor a b) b ≡ a
bit_xor-cancel a b =
    let wide = below_power (a + b) in
    xor_cancel_within (a + b) a b
      (le_trans (below_power a) (pow-le-pow_right {n = 2} (omega arith) {j = a + b} (omega arith)))
      (le_trans (below_power b) (pow-le-pow_right {n = 2} (omega arith) {j = a + b} (omega arith)))

xor_comm_within : (width a b : ℕ) → a < 2 ^ width → b < 2 ^ width → bit_xor a b ≡ bit_xor b a
xor_comm_within zero a b h k =
    let none_left : a ≡ 0 = omega arith in
    let none_right : b ≡ 0 = omega arith in rw (none_left, none_right) refl
xor_comm_within (suc width) a b h k =
    let double = pow-suc 2 width in
    omega (
      arith,
      bit_xor-halves a b,
      bit_xor-halves b a,
      xor_comm_within width (a / 2) (b / 2) (omega arith) (omega arith),
    )

pub bit_xor_comm : (a b : ℕ) → bit_xor a b ≡ bit_xor b a
bit_xor_comm a b =
    xor_comm_within (a + b) a b
      (le_trans (below_power a) (pow-le-pow_right {n = 2} (omega arith) {j = a + b} (omega arith)))
      (le_trans (below_power b) (pow-le-pow_right {n = 2} (omega arith) {j = a + b} (omega arith)))

-- The exclusive or of two words is a word.
pub bit_xor-lt : (width a b : ℕ) → a < 2 ^ width → b < 2 ^ width → bit_xor a b < 2 ^ width
bit_xor-lt zero a b h k =
    let none_left : a ≡ 0 = omega arith in
    let none_right : b ≡ 0 = omega arith in rw (none_left, none_right) (omega arith)
bit_xor-lt (suc width) a b h k =
    let double = pow-suc 2 width in
    omega (arith, bit_xor-halves a b, bit_xor-lt width (a / 2) (b / 2) (omega arith) (omega arith))
