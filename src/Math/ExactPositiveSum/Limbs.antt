-- ===== src/Math/ExactPositiveSum/Limbs.antt =====
-- The integer that a limb list stands for, and what `add_word` and `add_shifted_word` do to it.
use native.Mathlib.Nat.{
  pow-suc, pow-le-pow_right, div-add-mod, mod-lt, le_trans, mul-one, div-le_self,
}
use native.Mathlib.Numerals.{add-one}
use hyowon.Common.{
  ℕ, zero, suc, ◌+◌, ◌-◌, ◌*◌, ◌/◌, ◌%◌, ◌^◌, ◌<◌, ◌≤◌, ◌≡◌, refl, sym, ap, subst, ◌∙◌, inl, inr,
  [], ◌∷◌, ltb, leb, ◌==◌, if◌then◌else◌, get_or, set, length, All, arith, tests, suc-ne_zero,
  ==→eq, Bool-cases, length-set, All-set, All-get_or, pow-add, pow-mul, two_pow_pos, shifted_word,
  Outcome, done, thrown, ◌>>=◌,
}
use hyowon.Math.ExactPositiveSum.{
  Error, Limbs, limb_count, word, carry_loop, add_word, add_shifted_word, accumulator_overflow,
  shift_exceeds_accumulator,
}

-- The integer with these limbs as its digits.
abbrev pub number : Limbs → ℕ
number [] = 0
number (x ∷ xs) = x + word * number xs

-- A limb is a `std::uint64_t`.
abbrev pub AreWords : Limbs → Type 0
AreWords = All (λ x. x < word)

pub number-lt : (xs : Limbs) → AreWords xs → number xs < word ^ length xs
number-lt [] h = omega arith
number-lt (x ∷ xs) h = omega (arith, number-lt xs h.1, pow-suc word (length xs), h.0)

-- Writing a limb changes the integer by that limb's weight.
number-set :
    (xs : Limbs) (i v : ℕ)
    → i < length xs
    → number (set xs i v) + get_or xs i 0 * word ^ i ≡ number xs + v * word ^ i
number-set [] i v h = absurd (omega arith)
number-set (x ∷ xs) zero v h = omega arith
number-set (x ∷ xs) (suc i) v h = omega (
  arith,
  number-set xs i v (omega arith),
  ap (λ (t : ℕ). get_or xs i 0 * t) (pow-suc word i),
  ap (λ (t : ℕ). v * t) (pow-suc word i),
)

-- What a call that adds `amount` may leave: the exact sum, or an overflow that the amount causes.
pub data Added (xs : Limbs) (amount : ℕ) : Outcome Error Limbs → Type 0 where
  exact :
      (ys : Limbs)
      → AreWords ys
      → length ys ≡ length xs
      → number ys ≡ number xs + amount
      → Added xs amount (done ys)
  overflow :
      (e : Error) (ys : Limbs)
      → word ^ length xs ≤ number xs + amount
      → Added xs amount (thrown e ys)

-- The same sum, seen from another start.
pub Added-transfer :
    {xs ys : Limbs} {a b : ℕ} {r : Outcome Error Limbs}
    → length ys ≡ length xs
    → number ys + b ≡ number xs + a
    → Added ys b r
    → Added xs a r
Added-transfer len eq (exact zs words l n) = exact zs words (l ∙ len) (n ∙ eq)
Added-transfer {xs} {ys} {a} {b} len eq (overflow e zs h) =
    overflow e zs
      (subst (λ n. word ^ n ≤ number xs + a) len (subst (λ n. word ^ length ys ≤ n) eq h))

-- One round: the limb's new value and the carry hold the two numbers' sum.
carry_split :
    (p w : ℕ)
    → p < word
    → w < word
    → let c = (p + w) % word in c + (if ltb c p then 1 else 0) * word ≡ p + w
carry_split p w hp hw = ground arith

carry_lt : (c p : ℕ) → (if ltb c p then 1 else 0) < word
carry_lt c p = ground arith

pub word_pow_suc : (i : ℕ) → word ^ (i + 1) ≡ word ^ i * word
word_pow_suc i = rw add-one (pow-suc word i)

carry_total :
    (before after p w c k t : ℕ)
    → after + p * t ≡ before + c * t
    → c + k * word ≡ p + w
    → after + k * (t * word) ≡ before + w * t
carry_total before after p w c k t written split = omega (arith, ap (λ (n : ℕ). n * t) split)

-- The loop adds its word at the index where it starts, and throws only where the sum has no room.
pub carry_loop-Added :
    (left : ℕ) (xs : Limbs) (i w : ℕ)
    → left + i ≡ length xs
    → AreWords xs
    → w < word
    → Added xs (w * word ^ i) (carry_loop left xs i w)
unfolding carry_loop
carry_loop-Added zero xs i zero e h lt = exact xs h refl (omega arith)
carry_loop-Added (suc left) xs i zero e h lt = exact xs h refl (omega arith)
carry_loop-Added zero xs i (suc w) e h lt =
    let here : i ≡ length xs = omega arith in
    rw (suc-ne_zero w) (overflow accumulator_overflow xs (rw (← here) (omega arith)))
carry_loop-Added (suc left) xs i (suc w) e h lt =
    let p : ℕ = get_or xs i 0 in
    let c : ℕ = (p + suc w) % word in
    let carry : ℕ = if ltb c p then 1 else 0 in
    let fits : p < word = All-get_or (λ x. x < word) xs i 0 h (omega arith) in
    let split = carry_split p (suc w) fits lt in
    let total : number (set xs i c) + carry * word ^ (i + 1) ≡ number xs + suc w * word ^ i =
      rw (word_pow_suc i)
        (carry_total _ _ p (suc w) c carry _ (number-set xs i c (omega arith)) split) in
    let small : c < word = mod-lt _ (omega arith) in
    rw (suc-ne_zero w) (
      Added-transfer (length-set xs i c) total (
        carry_loop-Added left (set xs i c) (i + 1) carry (rw length-set (omega arith))
          (All-set (λ x. x < word) xs i c h small) (carry_lt c p)))

-- Two additions in a row add both amounts.
pub Added-bind :
    {xs : Limbs} {a : ℕ} (b : ℕ) {r : Outcome Error Limbs} (f : Limbs → Outcome Error Limbs)
    → Added xs a r
    → ((ys : Limbs) → AreWords ys → length ys ≡ length xs → Added ys b (f ys))
    → Added xs (a + b) (r >>= f)
Added-bind {xs} {a} b f (exact ys words len sum) next =
    Added-transfer len (omega arith) (next ys words len)
Added-bind {xs} {a} b f (overflow e ys h) next = overflow e ys (omega arith)

pub add_word-Added :
    (xs : Limbs) (i w : ℕ)
    → length xs ≡ limb_count
    → i ≤ limb_count
    → AreWords xs
    → w < word
    → Added xs (w * word ^ i) (add_word xs i w)
unfolding add_word
add_word-Added xs i w len h words lt =
    carry_loop-Added (limb_count - i) xs i w (omega arith) words lt

-- The weight of a shift by whole limbs and bits.
pub two_pow_shift : (shift : ℕ) → 2 ^ shift ≡ word ^ (shift / 64) * 2 ^ (shift % 64)
two_pow_shift shift =
    ap (λ (n : ℕ). 2 ^ n) (sym (div-add-mod shift 64))
    ∙ pow-add 2 (64 * (shift / 64)) (shift % 64)
    ∙ ap (λ (n : ℕ). n * 2 ^ (shift % 64)) (pow-mul 2 64 (shift / 64))

-- A word shifted within two limbs is its low part and its high part.
two_parts : (w o : ℕ) → o ≤ 64 → w * 2 ^ o ≡ w * 2 ^ o % word + word * (w / 2 ^ (64 - o))
two_parts w o h =
    let sum : 64 - o + o ≡ 64 = omega arith in
    shifted_word w o (64 - o) ∙ ap (λ (n : ℕ). w * 2 ^ o % 2 ^ n + 2 ^ n * (w / 2 ^ (64 - o))) sum

pub parts_total :
    (w o t : ℕ) → o ≤ 64 → w * 2 ^ o % word * t + w / 2 ^ (64 - o) * (t * word) ≡ w * (t * 2 ^ o)
parts_total w o t h = omega (arith, ap (λ (n : ℕ). n * t) (two_parts w o h))

pub weight_above : (n shift : ℕ) → n ≤ shift / 64 → word ^ n ≤ 2 ^ shift
weight_above n shift h =
    rw (two_pow_shift shift)
      (le_trans (pow-le-pow_right (omega arith) h) (grind (arith, two_pow_pos (shift % 64))))

module _ (xs : Limbs) (w shift : ℕ) (len : length xs ≡ limb_count) (words : AreWords xs) where
  low_part-Added :
      shift / 64 < limb_count
      → Added xs
          (w * 2 ^ (shift % 64) % word * word ^ (shift / 64))
          (add_word xs (shift / 64) (w * 2 ^ (shift % 64) % word))
  low_part-Added room =
      add_word-Added xs (shift / 64) _ len (omega arith) words (mod-lt _ (omega arith))

  whole_limbs-Added :
      w < word
      → shift / 64 < limb_count
      → shift % 64 ≡ 0
      → Added xs (w * 2 ^ shift) (add_word xs (shift / 64) (w * 2 ^ (shift % 64) % word))
  whole_limbs-Added lt room whole =
      let one : 2 ^ (shift % 64) ≡ 1 = ap (λ (n : ℕ). 2 ^ n) whole in
      let same : w * 2 ^ (shift % 64) % word ≡ w = rw one (omega arith) in
      let weight : 2 ^ shift ≡ word ^ (shift / 64) = two_pow_shift shift ∙ rw one (mul-one _) in
      Added-transfer refl (rw (same, weight)) (low_part-Added room)

  both_parts-Added :
      w < word
      → shift / 64 < limb_count
      → Added xs (w * 2 ^ shift) (
          add_word xs (shift / 64) (w * 2 ^ (shift % 64) % word)
          >>= (λ ls. add_word ls (shift / 64 + 1) (w / 2 ^ (64 - shift % 64))))
  both_parts-Added lt room =
      let o = shift % 64 in
      let i = shift / 64 in
      let small : w / 2 ^ (64 - o) < word =
        le_trans (omega (arith, div-le_self w (2 ^ (64 - o)))) lt in
      let total : w * 2 ^ o % word * word ^ i + w / 2 ^ (64 - o) * word ^ (i + 1) ≡ w * 2 ^ shift =
        rw (word_pow_suc i, two_pow_shift shift) (parts_total w o (word ^ i) (omega arith)) in
      Added-transfer refl (ap (λ (n : ℕ). number xs + n) total) (
        Added-bind _ (λ ls. add_word ls (i + 1) (w / 2 ^ (64 - o))) (low_part-Added room)
          (λ ys h l. add_word-Added ys (i + 1) _ (l ∙ len) (omega arith) h small))

-- A limb-shifted word is added exactly, or the sum has no room.
pub add_shifted_word-Added :
    (xs : Limbs) (w shift : ℕ)
    → length xs ≡ limb_count
    → AreWords xs
    → w < word
    → Added xs (w * 2 ^ shift) (add_shifted_word xs w shift)
unfolding add_shifted_word
add_shifted_word-Added xs zero shift len words lt = exact xs words refl (omega arith)
add_shifted_word-Added xs (suc w) shift len words lt =
    let nonzero = suc-ne_zero w in
    elim (Bool-cases (leb limb_count (shift / 64))) [
      | inl out ↦
          let weight = weight_above (length xs) shift (omega tests) in
          rw (nonzero, out) (overflow shift_exceeds_accumulator xs (grind arith))
      | inr room ↦ elim (Bool-cases (shift % 64 == 0)) [
        | inl whole ↦
            rw (nonzero, room, whole)
              (whole_limbs-Added xs (suc w) shift len words lt (omega tests) (==→eq _ _ whole))
        | inr part ↦
            rw (nonzero, room, part) (both_parts-Added xs (suc w) shift len words lt (omega tests))
      ]
    ]
