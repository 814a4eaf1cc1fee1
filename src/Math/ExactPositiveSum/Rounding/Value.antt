-- ===== src/Math/ExactPositiveSum/Rounding/Value.antt =====
-- `value` of an accumulator that holds one binary64 number.
use hyowon.Common.{
  ℕ, ◌+◌, ◌*◌, ◌^◌, ◌<◌, ◌≡◌, refl, sym, ap, ◌∙◌, inl, true, Option, none, some, arith, ℤ, sub_ℕ,
  done,
}
use hyowon.Math.ExactPositiveSum.{Limbs, word, is_finite, Sum, add, empty_sum}
use hyowon.Math.ExactPositiveSum.Limbs.{number}
use hyowon.Math.ExactPositiveSum.Terms.{units, decode-term, units-eq-zero}
use hyowon.Math.ExactPositiveSum.Adding.{add-Gains, empty_sum-IsValid}
use hyowon.Math.ExactPositiveSum.Rounding.{rounded_binary64_components, value}
use hyowon.Math.ExactPositiveSum.Rounding.Components.{Rounds, rounded_binary64_components-Rounds}
use hyowon.Math.ExactPositiveSum.Rounding.Nearest.{Nearest}

-- `std::ldexp` is exact where a finite binary64 number is the product.
abbrev pub LdexpIsExact : (ℕ → ℤ → ℕ) → Type 0
LdexpIsExact ldexp =
    (v sig e : ℕ) → v < 0x7ff * 2 ^ 52 → units v ≡ sig * 2 ^ e → ldexp sig (sub_ℕ e 1074) ≡ v

-- The result for a significand without a sign has none.
abbrev pub LdexpIsUnsigned : (ℕ → ℤ → ℕ) → Type 0
LdexpIsUnsigned ldexp = (sig : ℕ) (exp : ℤ) → ldexp sig exp < 2 ^ 63

pub finite_pattern : (v : ℕ) → v < 0x7ff * 2 ^ 52 → is_finite v ≡ true
unfolding is_finite
finite_pattern v h = ground arith

-- A number with 53 bits is at no distance from its nearest.
hit : (n sig e m k : ℕ) → Nearest n sig e → m < 2 ^ 53 → m * 2 ^ k ≡ n → n ≡ sig * 2 ^ e
hit n sig e m k near lt same = let near' = near.closest m k lt in omega arith

module _ (ldexp : ℕ → ℤ → ℕ) (law : LdexpIsExact ldexp) where
  value_of_components :
      (xs : Limbs) (v : ℕ) (c : Option (ℕ × ℤ))
      → v < 0x7ff * 2 ^ 52
      → number xs ≡ units v
      → rounded_binary64_components xs ≡ c
      → Rounds (number xs) c
      → value ldexp xs ≡ some v
  unfolding value
  value_of_components xs v none finite same e r =
      rw (e, value) (ap some (sym (units-eq-zero v finite (sym same ∙ r))))
  value_of_components xs v (some (sig, exp)) finite same e (k, place, near) =
      let (d, _, reads) = decode-term v (inl finite) in
      let whole : units v ≡ sig * 2 ^ k =
        sym same
        ∙ hit (number xs) sig k d.mantissa d.shift near reads.mantissa-lt
            (reads.value ∙ sym same) in
      let back : ldexp sig exp ≡ v = rw place (law v sig k finite whole) in
      rw (e, value, back, finite_pattern v finite)

  -- Adding one finite number whose sign bit is clear to the empty sum throws nothing, and reading the
  -- sum gives its bits back, where `ldexp` is exact.
  pub value-add :
      (v : ℕ)
      → v < 0x7ff * 2 ^ 52
      → (t : Sum) × (add empty_sum v ≡ done t) × (value ldexp t.limbs ≡ some v)
  unfolding empty_sum
  value-add v finite =
      let (t, e, valid, total, _) = add-Gains empty_sum v empty_sum-IsValid (inl finite) few in
      let back =
        value_of_components t.limbs v _ finite (start t total) refl
          (rounded_binary64_components-Rounds t.limbs valid.width valid.words) in
      (t, e, back)
    where
      few : empty_sum.term_count + 1 < word
      few = omega arith

      start :
          (t : Sum) → number t.limbs ≡ number empty_sum.limbs + units v → number t.limbs ≡ units v
      start t h = omega arith
