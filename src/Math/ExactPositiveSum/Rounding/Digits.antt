-- ===== src/Math/ExactPositiveSum/Rounding/Digits.antt =====
-- What the bit operations on the limbs say of the integer: its digits, its quotients and remainders by
-- powers of two, and the place of its highest digit.
use native.Mathlib.Nat.{
  pow-succ', pow-le-pow_right, div-one, zero-div, div-div-eq-div-mul, mul_comm, div-eq_of_lt,
  le_trans, zero-mod, mod-lt, add-mul-mod_self_left, mod-mod, mul-mod_left, mul-div_cancel,
}
use hyowon.Common.{
  ℕ, zero, suc, ◌+◌, ◌-◌, ◌*◌, ◌/◌, ◌%◌, ◌^◌, ◌<◌, ◌≤◌, ◌≡◌, refl, sym, ap, ◌∙◌, inl, inr, not, [],
  ◌∷◌, ltb, leb, ◌==◌, get_or, length, arith, tests, Bool-cases, ==→eq, two_pow_pos, pow-add,
  mod_split, mod-div, bit_or, bit_or-disjoint,
}
use hyowon.Math.ExactPositiveSum.{Limbs, limb_count, word}
use hyowon.Math.ExactPositiveSum.Limbs.{
  number, AreWords, number-lt, two_pow_shift, weight_above, word_pow_suc,
}
use hyowon.Math.ExactPositiveSum.Rounding.{bit, extract_u64}

-- A limb is a digit of the integer, also past the end.
pub digit : (xs : Limbs) (i : ℕ) → AreWords xs → get_or xs i 0 ≡ number xs / word ^ i % word
digit [] i h = rw (zero-div (word ^ i)) refl
digit (x ∷ xs) zero h = rw (div-one (x + word * number xs)) (omega arith)
digit (x ∷ xs) (suc i) h =
    let rest : (x + word * number xs) / word ≡ number xs = omega arith in
    rw (pow-succ' word i, ← div-div-eq-div-mul (x + word * number xs) word (word ^ i), rest)
      (digit xs i h.1)

div_two_pow : (n shift : ℕ) → n / 2 ^ shift ≡ n / word ^ (shift / 64) / 2 ^ (shift % 64)
div_two_pow n shift =
    rw (two_pow_shift shift) (sym (div-div-eq-div-mul n (word ^ (shift / 64)) (2 ^ (shift % 64))))

word_parts : (o : ℕ) → o ≤ 64 → 2 ^ o * 2 ^ (64 - o) ≡ word
word_parts o h =
    sym (pow-add 2 o (64 - o))
    ∙ ap (λ (n : ℕ). 2 ^ n) (let e : o + (64 - o) ≡ 64 = omega arith in e)

-- A limb shifted right is the quotient's low part.
pub shifted_limb :
    (xs : Limbs) (shift : ℕ)
    → AreWords xs
    → get_or xs (shift / 64) 0 / 2 ^ (shift % 64) ≡ number xs / 2 ^ shift % 2 ^ (64 - shift % 64)
shifted_limb xs shift h =
    let o : ℕ = shift % 64 in
    let q : ℕ = number xs / word ^ (shift / 64) in
    rw (digit xs (shift / 64) h, div_two_pow (number xs) shift)
      (ap (λ (n : ℕ). q % n / 2 ^ o) (sym (word_parts o (omega arith)))
        ∙ mod-div q (2 ^ o) (2 ^ (64 - o)) (two_pow_pos o))

pub parity : (k n : ℕ) → 0 < k → n % 2 ^ k % 2 ≡ n % 2
parity zero n h = absurd (omega arith)
parity (suc k) n h = rw (pow-succ' 2 k, mod_split n 2 (2 ^ k)) (omega arith)

-- A word's low part, the part that a shift to the left keeps, and the two halves of a shifted word.
module _ (o : ℕ) (h : o ≤ 64) where
  parts_word : 2 ^ (64 - o) * 2 ^ o ≡ word
  parts_word = mul_comm (2 ^ (64 - o)) (2 ^ o) ∙ word_parts o h

  pub low_of_word : (k : ℕ) → k % word % 2 ^ o ≡ k % 2 ^ o
  low_of_word k =
      ap (λ (n : ℕ). k % n % 2 ^ o) (sym (word_parts o h))
      ∙ rw (mod_split k (2 ^ o) (2 ^ (64 - o)), add-mul-mod_self_left) (mod-mod k (2 ^ o))

  top_part : (l : ℕ) → l * 2 ^ (64 - o) % word ≡ l % 2 ^ o * 2 ^ (64 - o)
  top_part l =
      let c : ℕ = 2 ^ (64 - o) in
      let split = mod_split (l * c) c (2 ^ o) in
      ap (λ (n : ℕ). l * c % n) (sym parts_word)
      ∙ split
      ∙ rw (mul-mod_left l c, mul-div_cancel l (two_pow_pos (64 - o))) (omega arith)

  joined : (m : ℕ) → m % word ≡ m / 2 ^ (64 - o) % 2 ^ o * 2 ^ (64 - o) + m % 2 ^ (64 - o)
  joined m =
      ap (λ (n : ℕ). m % n) (sym parts_word) ∙ mod_split m (2 ^ (64 - o)) (2 ^ o) ∙ omega arith

next_limb : (n shift : ℕ) → n / 2 ^ shift / 2 ^ (64 - shift % 64) ≡ n / word ^ (shift / 64 + 1)
next_limb n shift =
    let o : ℕ = shift % 64 in
    let i : ℕ = shift / 64 in
    rw (div_two_pow n shift, div-div-eq-div-mul (n / word ^ i) (2 ^ o) (2 ^ (64 - o)))
      (ap (λ (m : ℕ). n / word ^ i / m) (word_parts o (omega arith))
        ∙ rw (div-div-eq-div-mul n (word ^ i) word, word_pow_suc i))

-- Past the last limb nothing is left.
pub above :
    (xs : Limbs) (shift : ℕ) → length xs ≤ shift / 64 → AreWords xs → number xs / 2 ^ shift ≡ 0
above xs shift h words =
    div-eq_of_lt (le_trans (number-lt xs words) (weight_above (length xs) shift h))

pub above_limb : (xs : Limbs) (i : ℕ) → length xs ≤ i → AreWords xs → number xs / word ^ i ≡ 0
above_limb xs i h words =
    div-eq_of_lt (le_trans (number-lt xs words) (pow-le-pow_right {n = word} (omega arith) h))

module _ (xs : Limbs) (words : AreWords xs) where
  -- The word that straddles two limbs.
  pub straddle :
      (shift : ℕ)
      → bit_or
          (get_or xs (shift / 64 + 1) 0 * 2 ^ (64 - shift % 64) % word)
          (get_or xs (shift / 64) 0 / 2 ^ (shift % 64))
        ≡ number xs / 2 ^ shift % word
  straddle shift =
      let o : ℕ = shift % 64 in
      let c : ℕ = 64 - o in
      let fits : o ≤ 64 = omega arith in
      let next : ℕ = number xs / word ^ (shift / 64 + 1) in
      rw
        (
          shifted_limb xs shift words,
          digit xs (shift / 64 + 1) words,
          top_part o fits (next % word),
          low_of_word o fits next,
          joined o fits (number xs / 2 ^ shift),
          next_limb (number xs) shift,
        )
        (bit_or-disjoint c (next % 2 ^ o) (number xs / 2 ^ shift % 2 ^ c)
          (mod-lt _ (two_pow_pos c)))

  pub last_limb :
      (shift : ℕ)
      → length xs ≤ shift / 64 + 1
      → get_or xs (shift / 64) 0 / 2 ^ (shift % 64) ≡ number xs / 2 ^ shift % word
  last_limb shift h =
      let o : ℕ = shift % 64 in
      let fits : o ≤ 64 = omega arith in
      let nothing : number xs / word ^ (shift / 64 + 1) ≡ 0 =
        above_limb xs (shift / 64 + 1) h words in
      rw
        (
          shifted_limb xs shift words,
          joined o fits (number xs / 2 ^ shift),
          next_limb (number xs) shift,
          nothing,
        )
        (rw (zero-mod (2 ^ o)) (omega arith))

  pub whole_limb :
      (shift : ℕ)
      → shift % 64 ≡ 0
      → get_or xs (shift / 64) 0 / 2 ^ (shift % 64) ≡ number xs / 2 ^ shift % word
  whole_limb shift h =
      rw (shifted_limb xs shift words) (ap (λ (o : ℕ). number xs / 2 ^ shift % 2 ^ (64 - o)) h)

module _ (xs : Limbs) (len : length xs ≡ limb_count) (words : AreWords xs) where
  pub bit_lem : (p : ℕ) → bit xs p ≡ not (number xs / 2 ^ p % 2 == 0)
  unfolding bit
  bit_lem p = elim (Bool-cases (ltb (p / 64) limb_count)) [
    | inl inside ↦
        rw (inside, shifted_limb xs p words, parity (64 - p % 64) (number xs / 2 ^ p) (omega arith))
    | inr outside ↦ rw (outside, above xs p (omega tests) words)
  ]

  pub extract_u64_lem : (shift : ℕ) → extract_u64 xs shift ≡ number xs / 2 ^ shift % word
  unfolding extract_u64
  extract_u64_lem shift = elim (Bool-cases (leb limb_count (shift / 64))) [
    | inl outside ↦ rw (outside, above xs shift (omega tests) words)
    | inr inside ↦ rw inside (elim (Bool-cases (shift % 64 == 0)) [
      | inl whole ↦ rw whole (whole_limb xs words shift (==→eq _ _ whole))
      | inr part ↦ elim (Bool-cases (ltb (shift / 64 + 1) limb_count)) [
        | inl next ↦ rw (part, next) (straddle xs words shift)
        | inr last ↦ rw (part, last) (last_limb xs words shift (omega tests))
      ]
    ])
  ]
