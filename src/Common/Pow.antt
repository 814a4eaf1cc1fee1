-- ===== src/Common/Pow.antt =====
-- Powers over the native numbers, and division of a shifted word.
use Prim.Native.Nat.{ℕ, zero, suc, ◌+◌, ◌*◌, ◌/◌, ◌%◌, ◌^◌, ◌<◌}
use mathlib.Core.Path.{◌≡◌, ap, sym, ◌∙◌}
use native.Mathlib.Nat.{
  pow-suc, pow-zero, one-le-pow, mul-div-mul_right, mul_assoc, mul-one, add-zero, add-suc, mul-zero,
  mul-suc, mod-add-div, mod-lt, div-div-eq-div-mul, add-mul-div_left, div-eq_of_lt,
}
use native.Mathlib.Omega.{arith}

pub pow-add : (b m n : ℕ) → b ^ (m + n) ≡ b ^ m * b ^ n
pow-add b m zero = rw (add-zero, pow-zero b, mul-one)
pow-add b m (suc n) = rw (add-suc, pow-suc b (m + n), pow-suc b n, pow-add b m n, mul_assoc)

pub pow-mul : (b m n : ℕ) → b ^ (m * n) ≡ (b ^ m) ^ n
pow-mul b m zero = rw (mul-zero, pow-zero b, pow-zero (b ^ m))
pow-mul b m (suc n) = rw (mul-suc, pow-add, pow-mul b m n, pow-suc)

pub two_pow_pos : (n : ℕ) → 0 < 2 ^ n
two_pow_pos n = one-le-pow n 2 (omega arith)

-- `w << o` in a word of `o + k` bits, with the part that falls out of it.
pub shifted_word : (w o k : ℕ) → w * 2 ^ o ≡ w * 2 ^ o % 2 ^ (k + o) + 2 ^ (k + o) * (w / 2 ^ k)
shifted_word w o k =
    let e : w * 2 ^ o / 2 ^ (k + o) ≡ w / 2 ^ k =
      rw (pow-add 2 k o) (mul-div-mul_right w (2 ^ k) (two_pow_pos o)) in
    let split = mod-add-div (w * 2 ^ o) (2 ^ (k + o)) in
    sym split ∙ ap (λ (t : ℕ). w * 2 ^ o % 2 ^ (k + o) + 2 ^ (k + o) * t) e

-- The remainder by a product: the low part, and the digit above it.
pub mod_split : (n a b : ℕ) → n % (a * b) ≡ n % a + a * (n / a % b)
mod_split n a b = omega (
  arith,
  mod-add-div n (a * b),
  mod-add-div n a,
  ap (λ (t : ℕ). a * t) (mod-add-div (n / a) b),
  ap (λ (t : ℕ). a * b * t) (div-div-eq-div-mul n a b),
)

pub mod-div : (n a b : ℕ) → 0 < a → n % (a * b) / a ≡ n / a % b
mod-div n a b h =
    rw (mod_split n a b, add-mul-div_left (n % a) (n / a % b) h, div-eq_of_lt (mod-lt n h))
      (omega arith)
