-- ===== src/Math/ExactProductSum/Misuse.antt =====
-- include/cosmo_nbody/math/exact_binary64_product_sum.hpp: terms with a factor that is not finite.
use hyowon.Common.{
  ℕ, ◌+◌, ◌*◌, ◌%◌, ◌^◌, ◌<◌, ◌≤◌, ◌≡◌, refl, inl, inr, false, ◌||◌, none, List, [], ◌∷◌, ltb, ◌==◌,
  length, arith, tests, Bool-cases, length-take,
}
use hyowon.Math.ExactPositiveSum.{exponent_field}
use hyowon.Math.ExactPositiveSum.Terms.{units}
use hyowon.Math.ExactProductSum.{
  factor_not_finite, ExactBinary64ProductTerm, decode_binary64, Product, one_product, factors_loop,
  Totals, add_term,
}
use hyowon.Math.ExactProductSum.Factors.{decode_binary64-reads}
use hyowon.Math.ExactProductSum.Products.{Holds, with_factor-Holds, one_product-Holds}
use hyowon.Math.ExactProductSum.Terms.{factors_of}

-- A list with an infinity or a NaN in it.
pub data HasNonFinite : List ℕ → Type 0 where
  here : (f : ℕ) (fs : List ℕ) → 0x7ff * 2 ^ 52 ≤ f % 2 ^ 63 → HasNonFinite (f ∷ fs)
  there : (f : ℕ) (fs : List ℕ) → HasNonFinite fs → HasNonFinite (f ∷ fs)

decode_not_finite : (f : ℕ) → 0x7ff * 2 ^ 52 ≤ f % 2 ^ 63 → decode_binary64 f ≡ none
unfolding decode_binary64
decode_not_finite f h =
    let field : exponent_field f ≡ 0x7ff = unfold exponent_field in omega arith in
    rw (field, decode_binary64) refl

factors_loop-not_finite :
    (fs : List ℕ) (p : Product) (m n : ℕ)
    → n + length fs ≤ 5
    → Holds p m n
    → HasNonFinite fs
    → factors_loop p fs ≡ inl factor_not_finite
unfolding factors_loop
factors_loop-not_finite [] p m n few h bad = elim bad [ ]
factors_loop-not_finite (f ∷ fs) p m n few h (here _ _ bad) =
    rw (factors_loop, decode_not_finite f bad) refl
factors_loop-not_finite (f ∷ fs) p m n few h (there _ _ later) =
    elim (Bool-cases (ltb (f % 2 ^ 63) (0x7ff * 2 ^ 52))) [
      | inr bad ↦ rw (factors_loop, decode_not_finite f (omega tests)) refl
      | inl fine ↦
          let (d, decoded, reads) = decode_binary64-reads f (omega tests) in
          let (q, stepped, _, held) = with_factor-Holds p d f m n reads (omega arith) h in
          rw (factors_loop, decoded, stepped)
            (factors_loop-not_finite fs q (m * units f) (n + 1) (omega arith) held later)
    ]

-- A term of one to five factors with an infinity or a NaN among them is refused, also behind a factor
-- that is zero.
pub add_term-not_finite :
    (t : Totals) (term : ExactBinary64ProductTerm)
    → length term.factors ≡ 5
    → 0 < term.factor_count
    → term.factor_count ≤ 5
    → HasNonFinite (factors_of term)
    → add_term t term ≡ inl factor_not_finite
unfolding add_term
add_term-not_finite t term five some_factors few bad =
    let count = length-take term.factor_count term.factors in
    let guard : (term.factor_count == 0 || ltb (length term.factors) term.factor_count) ≡ false =
      ground arith in
    let thrown =
      factors_loop-not_finite (factors_of term) one_product 1 0 (omega arith) one_product-Holds
        bad in
    rw (add_term, guard, thrown) refl
