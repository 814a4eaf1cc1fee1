-- ===== src/Math/ExactPositiveSum.antt =====
-- include/cosmo_nbody/math/exact_positive_sum.hpp: the accumulator for non-negative binary64 terms.
-- A `double` is its bit pattern, a number below 2 ^ 64, as `decode` reads it; the limbs are a list,
-- the least significant first.
pub mod Limbs
pub mod Terms
pub mod Adding
pub mod Order
pub mod Combine
pub mod Rounding
mod Examples
use hyowon.Common.{
  ℕ, zero, suc, ◌+◌, ◌-◌, ◌*◌, ◌/◌, ◌%◌, ◌^◌, Bool, not, ◌&&◌, ◌||◌, Option, none, some, List, [],
  ◌∷◌, ltb, leb, ◌==◌, if◌then◌else◌, get_or, set, length, replicate, bit_or, Outcome, done, thrown,
  ◌>>=◌,
}

pub data Error : Type 0 where
  not_finite_non_negative term_count_overflow accumulator_overflow : Error
  shift_exceeds_accumulator limb_count_mismatch result_not_finite : Error
  uniform_with_explicit uniform_not_positive : Error
  explicit_count_mismatch explicit_not_positive : Error

abbrev pub limb_count : ℕ
limb_count = 34

-- One more than the largest `std::uint64_t`.
abbrev pub word : ℕ
word = 2 ^ 64

abbrev pub Limbs : Type 0
Limbs = List ℕ

pub record Sum : Type 0 where
  pub limbs : Limbs
  pub term_count : ℕ

unfoldable pub empty_sum : Sum
empty_sum = record { limbs = replicate limb_count 0; term_count = 0 }

-- The fields of a bit pattern.
unfoldable pub exponent_field : ℕ → ℕ
exponent_field bits = bits / 2 ^ 52 % 2 ^ 11

unfoldable pub fraction_field : ℕ → ℕ
fraction_field bits = bits % 2 ^ 52

-- `std::isfinite(value)`
unfoldable pub is_finite : ℕ → Bool
unfolding exponent_field
is_finite bits = not (exponent_field bits == 0x7ff)

-- `value < 0.0`, for a value that is no NaN: the sign is set, and it is not -0.
unfoldable pub is_negative : ℕ → Bool
is_negative bits = leb (2 ^ 63) bits && not (bits % 2 ^ 63 == 0)

pub record Decoded : Type 0 where
  pub mantissa : ℕ
  pub shift : ℕ

unfoldable pub decode : ℕ → Option Decoded
unfolding is_finite is_negative exponent_field fraction_field
decode bits =
    if not (is_finite bits) || is_negative bits
    then none
    else if exponent_field bits == 0
    then some (record { mantissa = fraction_field bits; shift = 0 })
    else some (record {
      mantissa = bit_or (2 ^ 52) (fraction_field bits);
      shift = exponent_field bits - 1;
    })

-- `additional > max - term_count_`
unfoldable pub lacks_capacity : Sum → ℕ → Bool
lacks_capacity s additional = ltb (word - 1 - s.term_count) additional

-- The loop of `add_word` at `index`, with `left` limbs from there to the end.
unfoldable pub carry_loop : ℕ → Limbs → ℕ → ℕ → Outcome Error Limbs
carry_loop zero target index w = if w == 0 then done target else thrown accumulator_overflow target
carry_loop (suc left) target index w =
    let previous = get_or target index 0 in
    let current = (previous + w) % word in
    let carry = if ltb current previous then 1 else 0 in
    let rest = carry_loop left (set target index current) (index + 1) carry in
    if w == 0 then done target else rest

unfoldable pub add_word : Limbs → ℕ → ℕ → Outcome Error Limbs
add_word target index w = carry_loop (limb_count - index) target index w

unfoldable pub add_shifted_word : Limbs → ℕ → ℕ → Outcome Error Limbs
add_shifted_word limbs w shift =
    let index = shift / 64 in
    let offset = shift % 64 in
    let low = add_word limbs index (w * 2 ^ offset % word) in
    let both = low >>= (λ ls. add_word ls (index + 1) (w / 2 ^ (64 - offset))) in
    if w == 0
    then done limbs
    else if leb limb_count index
    then thrown shift_exceeds_accumulator limbs
    else if offset == 0
    then low
    else both

-- The changed limbs in their object, and the count of terms raised if nothing was thrown.
unfoldable pub counted : Sum → ℕ → Outcome Error Limbs → Outcome Error Sum
counted s terms (done ls) = done (record { limbs = ls; term_count = s.term_count + terms })
counted s terms (thrown e ls) = thrown e (record s { limbs = ls })

unfoldable pub add : Sum → ℕ → Outcome Error Sum
add s value = if lacks_capacity s 1 then thrown term_count_overflow s else elim (decode value) [
  | none ↦ thrown not_finite_non_negative s
  | some d ↦
      if d.mantissa == 0
      then counted s 1 (done s.limbs)
      else counted s 1 (add_shifted_word s.limbs d.mantissa d.shift)
]

-- `while (remaining != 0)`, one round for each binary digit of the count.
unfoldable pub repeat_loop : ℕ → Decoded → Limbs → ℕ → ℕ → Outcome Error Limbs
repeat_loop zero d limbs remaining count_bit = done limbs
repeat_loop (suc fuel) d limbs remaining count_bit =
    let step =
      if remaining % 2 == 0
      then done limbs
      else add_shifted_word limbs d.mantissa (d.shift + count_bit) in
    let rest = step >>= (λ ls. repeat_loop fuel d ls (remaining / 2) (count_bit + 1)) in
    if remaining == 0 then done limbs else rest

unfoldable pub add_repeated : Sum → ℕ → ℕ → Outcome Error Sum
add_repeated s value repetitions =
    if repetitions == 0
    then done s
    else if lacks_capacity s repetitions
    then thrown term_count_overflow s
    else elim (decode value) [
      | none ↦ thrown not_finite_non_negative s
      | some d ↦
          if d.mantissa == 0
          then counted s repetitions (done s.limbs)
          else counted s repetitions (repeat_loop 64 d s.limbs repetitions 0)
    ]

-- `for (index = 0; index < limb_count; ++index) add_word(candidate, index, limbs[index])`
unfoldable pub combine_loop : Limbs → ℕ → Limbs → Outcome Error Limbs
combine_loop candidate index [] = done candidate
combine_loop candidate index (w ∷ ws) =
    add_word candidate index w >>= (λ c. combine_loop c (index + 1) ws)

-- The candidate is dropped where a word cannot be added.
unfoldable pub adopted : Sum → ℕ → Outcome Error Limbs → Outcome Error Sum
adopted s terms (done candidate) =
    done (record { limbs = candidate; term_count = s.term_count + terms })
adopted s terms (thrown e candidate) = thrown e s

unfoldable pub combine_serialized : Sum → Limbs → ℕ → Outcome Error Sum
combine_serialized s limbs terms =
    if not (length limbs == limb_count)
    then thrown limb_count_mismatch s
    else if lacks_capacity s terms
    then thrown term_count_overflow s
    else adopted s terms (combine_loop s.limbs 0 limbs)

unfoldable pub combine : Sum → Sum → Outcome Error Sum
combine s other = combine_serialized s other.limbs other.term_count

-- `!std::isfinite(value) || value <= 0.0`
unfoldable pub is_bad_term : ℕ → Bool
unfolding is_finite
is_bad_term bits = not (is_finite bits) || leb (2 ^ 63) bits || bits == 0

-- The loop over the explicit values.
unfoldable pub add_values : Sum → List ℕ → Outcome Error Sum
add_values s [] = done s
add_values s (v ∷ vs) =
    let rest = add s v >>= (λ t. add_values t vs) in
    if is_bad_term v then thrown explicit_not_positive s else rest

unfoldable pub exact_positive_double_accumulator : ℕ → List ℕ → Option ℕ → Outcome Error Sum
exact_positive_double_accumulator term_count explicit_values uniform_value = elim uniform_value [
  | some v ↦
      if not (length explicit_values == 0)
      then thrown uniform_with_explicit empty_sum
      else if is_bad_term v
      then thrown uniform_not_positive empty_sum
      else add_repeated empty_sum v term_count
  | none ↦
      if not (length explicit_values == term_count)
      then thrown explicit_count_mismatch empty_sum
      else add_values empty_sum explicit_values
]
