-- ===== src/Math/ExactPositiveSum/Adding.antt =====
-- `add` and `add_repeated` on the integer of a sum: the invariant, and the room that it leaves.
use native.Mathlib.Nat.{pow-suc, add_assoc, add-zero, mul-le-mul_left, div-add-mod}
use native.Mathlib.Numerals.{add-one}
use hyowon.Common.{
  ℕ, zero, suc, ◌+◌, ◌*◌, ◌/◌, ◌%◌, ◌^◌, ◌<◌, ◌≤◌, ◌≡◌, refl, sym, ap, ◌∙◌, ◌⊎◌, inl, inr, true,
  false, ◌==◌, if◌then◌else◌, arith, Bool-cases, ==→eq, suc-ne_zero, subst, length, Outcome, done,
  thrown,
}
use hyowon.Math.ExactPositiveSum.{
  Error, Limbs, limb_count, word, Sum, Decoded, lacks_capacity, counted, add, add_shifted_word,
  repeat_loop, add_repeated, empty_sum, term_count_overflow, not_finite_non_negative,
}
use hyowon.Math.ExactPositiveSum.Limbs.{
  number, AreWords, Added, Added-transfer, Added-bind, exact, overflow, add_shifted_word-Added,
}
use hyowon.Math.ExactPositiveSum.Terms.{
  IsTerm, units, max_term, Reads, decode-term, decode-other, IsTerm-cases, Reads-le, room,
}

-- The limbs are words, and the sum is at most that of as many largest terms.
pub record IsValid (s : Sum) : Type 0 where
  pub width : length s.limbs ≡ limb_count
  pub words : AreWords s.limbs
  pub count-lt : s.term_count < word
  pub total-le : number s.limbs ≤ s.term_count * max_term

-- `r` is `s` with `terms` more terms, which add up to `a`, and nothing was thrown.
abbrev pub Gains : Sum → ℕ → ℕ → Outcome Error Sum → Type 0
Gains s terms a r =
    (t : Sum) × (r ≡ done t)
    × IsValid t
    × (number t.limbs ≡ number s.limbs + a)
    × (t.term_count ≡ s.term_count + terms)

pub counted-Gains :
    (s : Sum) (terms a : ℕ) {r : Outcome Error Limbs}
    → IsValid s
    → s.term_count + terms < word
    → a ≤ terms * max_term
    → Added s.limbs a r
    → Gains s terms a (counted s terms r)
unfolding counted
counted-Gains s terms a v few le (exact ys words len sum) = (
  record { limbs = ys; term_count = s.term_count + terms },
  refl,
  record { width = len ∙ v.width; words = words; count-lt = few; total-le = omega arith },
  sum,
  refl,
)
counted-Gains s terms a v few le (overflow e ys h) =
    absurd (omega (arith, room (s.term_count + terms) (length s.limbs) few v.width))

pub empty_sum-IsValid : IsValid empty_sum
unfolding empty_sum
empty_sum-IsValid = record {
  width = refl;
  words = omega arith;
  count-lt = omega arith;
  total-le = omega arith;
}

pub has_capacity :
    (s : Sum) (terms : ℕ) → IsValid s → s.term_count + terms < word → lacks_capacity s terms ≡ false
unfolding lacks_capacity
has_capacity s terms v h = ground arith

Reads-zero : {v : ℕ} {d : Decoded} → Reads v d → (d.mantissa == 0) ≡ true → units v ≡ 0
Reads-zero {v} {d} r e = omega (arith, r.value, ap (λ (n : ℕ). n * 2 ^ d.shift) (==→eq _ _ e))

-- What `add` does to the limbs of a valid sum with a decoded term.
term-Added :
    (s : Sum) {value : ℕ} {d : Decoded}
    → IsValid s
    → Reads value d
    → Added s.limbs (units value) (add_shifted_word s.limbs d.mantissa d.shift)
term-Added s {d = d} v r =
    subst (λ n. Added s.limbs n (add_shifted_word s.limbs d.mantissa d.shift)) r.value
      (add_shifted_word-Added s.limbs d.mantissa d.shift v.width v.words
        (omega (arith, r.mantissa-lt)))

-- A valid sum with room in its count takes any term, exactly, and stays valid: no carry is lost and
-- the fixed number of limbs never overflows.
pub add-Gains :
    (s : Sum) (value : ℕ)
    → IsValid s
    → IsTerm value
    → s.term_count + 1 < word
    → Gains s 1 (units value) (add s value)
unfolding add
add-Gains s value v t few =
    let (d, e, r) = decode-term value t in
    let le : units value ≤ 1 * max_term = omega (arith, Reads-le r) in
    rw (has_capacity s 1 v few, e, add)
      (elim (Bool-cases (d.mantissa == 0)) [
        | inl nothing ↦ rw nothing (
            counted-Gains s 1 (units value) v few le
              (exact s.limbs v.words refl (omega (arith, Reads-zero r nothing))))
        | inr some_bits ↦ rw some_bits (counted-Gains s 1 (units value) v few le (term-Added s v r))
      ])

-- On a valid sum `add` throws only where the count is full or the value is no term, and leaves the
-- object as it was.
pub add_thrown :
    (s : Sum) (value : ℕ) (e : Error) (t : Sum)
    → IsValid s
    → value < word
    → add s value ≡ thrown e t
    → (t ≡ s)
      × (((e ≡ term_count_overflow) × (s.term_count + 1 ≡ word))
          ⊎ ((e ≡ not_finite_non_negative) × (IsTerm value → ⊥)))
unfolding add
add_thrown s value e t v h thrown_e = elim (Bool-cases (lacks_capacity s 1)) [
  | inl full ↦
      let same : thrown term_count_overflow s ≡ thrown e t = rw (full, add) at thrown_e in
      (cc same, inl (cc same, unfold lacks_capacity in ground arith))
  | inr few ↦ elim (IsTerm-cases value) [
    | inr other ↦
        let same : thrown not_finite_non_negative s ≡ thrown e t =
          rw (few, decode-other value h other, add) at thrown_e in
        (cc same, inr (cc same, other))
    | inl term ↦
        let (u, returned, _, _, _) =
          add-Gains s value v term (unfold lacks_capacity in ground arith) in
        cc (returned)
  ]
]

distribute : (m q b t : ℕ) → m * (2 * q + b) * t ≡ m * b * t + m * q * (t * 2)
distribute m q b t = omega arith

digit_split : (m r k : ℕ) → m * r * 2 ^ k ≡ m * (r % 2) * 2 ^ k + m * (r / 2) * 2 ^ (k + 1)
digit_split m r k =
    ap (λ (n : ℕ). m * n * 2 ^ k) (sym (div-add-mod r 2))
    ∙ distribute m (r / 2) (r % 2) (2 ^ k)
    ∙ ap (λ (n : ℕ). m * (r % 2) * 2 ^ k + m * (r / 2) * n) (sym (rw add-one (pow-suc 2 k)))

-- One round of the loop: the lowest digit of the count decides whether the term is added.
digit-Added :
    (d : Decoded) (xs : Limbs) (r k : ℕ)
    → d.mantissa < word
    → length xs ≡ limb_count
    → AreWords xs
    → Added xs
        (d.mantissa * (r % 2) * 2 ^ k)
        (if r % 2 == 0 then done xs else add_shifted_word xs d.mantissa k)
digit-Added d xs r k lt len words = elim (Bool-cases (r % 2 == 0)) [
  | inl even ↦ rw even (exact xs words refl (rw (==→eq _ _ even) (omega arith)))
  | inr odd ↦
      let one : r % 2 ≡ 1 = ground arith in
      rw odd (
        rw one
          (Added-transfer refl (omega arith) (add_shifted_word-Added xs d.mantissa k len words lt)))
]

-- The loop of `add_repeated` adds the decoded term `remaining` times, with fuel for its digits.
repeat_loop-Added :
    (fuel : ℕ) (d : Decoded) (xs : Limbs) (remaining k : ℕ)
    → remaining < 2 ^ fuel
    → d.mantissa < word
    → length xs ≡ limb_count
    → AreWords xs
    → Added xs (d.mantissa * remaining * 2 ^ (d.shift + k)) (repeat_loop fuel d xs remaining k)
unfolding repeat_loop
repeat_loop-Added zero d xs zero k h lt len words = exact xs words refl (omega arith)
repeat_loop-Added zero d xs (suc r) k h lt len words = absurd (omega arith)
repeat_loop-Added (suc fuel) d xs zero k h lt len words = exact xs words refl (omega arith)
repeat_loop-Added (suc fuel) d xs (suc r) k h lt len words =
    let half : suc r / 2 < 2 ^ fuel = omega (arith, pow-suc 2 fuel) in
    let amounts = digit_split d.mantissa (suc r) (d.shift + k) in
    rw (suc-ne_zero r) (
      Added-transfer refl (ap (λ (n : ℕ). number xs + n) (sym amounts)) (
        Added-bind (d.mantissa * (suc r / 2) * 2 ^ (d.shift + k + 1)) _
          (digit-Added d xs (suc r) (d.shift + k) lt len words)
          (λ ys h' l.
            rw (add_assoc d.shift k 1)
              (repeat_loop-Added fuel d ys (suc r / 2) (k + 1) half lt (l ∙ len) h'))))

-- `add_repeated` is exact: a valid sum takes any term any number of times that its count has room for.
pub add_repeated-Gains :
    (s : Sum) (value terms : ℕ)
    → IsValid s
    → IsTerm value
    → s.term_count + terms < word
    → Gains s terms (terms * units value) (add_repeated s value terms)
unfolding add_repeated
add_repeated-Gains s value zero v t few = (s, refl, v, omega arith, omega arith)
add_repeated-Gains s value (suc n) v t few =
    let (d, e, r) = decode-term value t in
    let le : suc n * units value ≤ suc n * max_term = mul-le-mul_left (suc n) (Reads-le r) in
    let total : suc n * units value ≡ d.mantissa * suc n * 2 ^ (d.shift + 0) =
      rw (← r.value, add-zero) (omega arith) in
    rw (suc-ne_zero n, has_capacity s (suc n) v few, e, add_repeated)
      (elim (Bool-cases (d.mantissa == 0)) [
        | inl nothing ↦
            let none_added : suc n * units value ≡ 0 = rw (Reads-zero r nothing) (omega arith) in
            rw nothing
              (counted-Gains s (suc n) _ v few le (exact s.limbs v.words refl (omega arith)))
        | inr some_bits ↦ rw some_bits (
            counted-Gains s (suc n) _ v few le (
              rw total (
                repeat_loop-Added 64 d s.limbs (suc n) 0 (omega arith)
                  (omega (arith, r.mantissa-lt)) v.width v.words)))
      ])
