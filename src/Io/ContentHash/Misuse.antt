-- ===== src/Io/ContentHash/Misuse.antt =====
-- src/io/content_hash.cpp: calls on a finished object, and the spelling of the digest.
use hyowon.Common.{
  ℕ, zero, suc, ◌+◌, ◌-◌, ◌*◌, ◌/◌, ◌%◌, ◌^◌, ◌<◌, ◌≡◌, refl, ap, ap₂, ◌∙◌, inl, inr, Bool, true,
  false, List, [], ◌∷◌, arith, ltb, if◌then◌else◌, bit_and, bit_and-halves, bit_and-zero,
  Bool-cases, All, Outcome, thrown, left_by,
}
use hyowon.Io.ContentHash.{
  Impl, Error, update_after_finalization, finalized_more_than_once, uint64, update, finalize, push,
  zero_fill, push_length, transform, transform_buffer, close, hex_digit, hex_digest,
}

zero_fill-finalized : (n : ℕ) (s : Impl) → (zero_fill n s).finalized ≡ s.finalized
unfolding zero_fill
zero_fill-finalized zero s = refl
zero_fill-finalized (suc n) s = zero_fill-finalized n (push s 0) ∙ unfold push in refl

push_length-finalized : (n value : ℕ) (s : Impl) → (push_length n value s).finalized ≡ s.finalized
unfolding push_length
push_length-finalized zero value s = refl
push_length-finalized (suc n) value s =
    push_length-finalized n value (push s _) ∙ unfold push in refl

transform_buffer-finalized : (s : Impl) → (transform_buffer s).finalized ≡ s.finalized
unfolding transform_buffer transform
transform_buffer-finalized s = refl

close-finalized : (s : Impl) → (close s).finalized ≡ s.finalized
unfolding close
close-finalized s =
    let marked : Impl = push s 0x80 in
    transform_buffer-finalized _
    ∙ push_length-finalized 8 _ _
    ∙ zero_fill-finalized _ _
    ∙ elim (Bool-cases (ltb 56 marked.buffer_size)) [
      | inl over ↦
          rw over
            (transform_buffer-finalized _ ∙ zero_fill-finalized _ marked ∙ unfold push in refl)
      | inr fits ↦ rw fits (unfold push in refl)
    ]

-- Both branches of a test leave a finished object.
if-finalized :
    (b : Bool) (p q : Outcome Error Impl)
    → (b ≡ true → (left_by p).finalized ≡ true)
    → (left_by q).finalized ≡ true
    → (left_by (if b then p else q)).finalized ≡ true
if-finalized true p q h k = h refl
if-finalized false p q h k = k

finalize-finalized : (s : Impl) → (left_by (finalize s)).finalized ≡ true
unfolding finalize
finalize-finalized s =
    if-finalized s.finalized _ _ (λ over. over)
      (if-finalized (ltb ((uint64 - 1) / 8) s.total_bytes) _ _ (λ long. refl) (close-finalized _))

if-true {ℓ} : {A : Type ℓ} (b : Bool) (x y : A) → b ≡ true → (if b then x else y) ≡ x
if-true b x y h = rw h refl

refused :
    (t : Impl) (bytes : List ℕ)
    → t.finalized ≡ true
    → (update t bytes ≡ thrown update_after_finalization t)
      × (finalize t ≡ thrown finalized_more_than_once t)
unfolding update finalize
refused t bytes over = (if-true t.finalized _ _ over, if-true t.finalized _ _ over)

-- Whatever `finalize` did, on success and on both exceptions, no later call of `update` or
-- `finalize` on that object does anything but throw its exception.
pub after_finalize :
    (s : Impl) (bytes : List ℕ)
    → (update (left_by (finalize s)) bytes
        ≡ thrown update_after_finalization (left_by (finalize s)))
      × (finalize (left_by (finalize s)) ≡ thrown finalized_more_than_once (left_by (finalize s)))
after_finalize s bytes = refused (left_by (finalize s)) bytes (finalize-finalized s)

-- The values of the characters, and the bytes of their pairs.
unfoldable pub digit_value : ℕ → ℕ
digit_value c = if ltb c 58 then c - 48 else c - 87

unfoldable pub unhex : List ℕ → List ℕ
unhex [] = []
unhex (c ∷ []) = []
unhex (c ∷ d ∷ cs) = (digit_value c * 16 + digit_value d) ∷ unhex cs

digit_value-hex_digit : (v : ℕ) → v < 16 → digit_value (hex_digit v) ≡ v
unfolding digit_value hex_digit
digit_value-hex_digit v h = ground arith

low_digit : (b : ℕ) → bit_and b 0x0f ≡ b % 16
low_digit b = omega (
  arith,
  bit_and-halves b 15,
  bit_and-halves (b / 2) 7,
  bit_and-halves (b / 2 / 2) 3,
  bit_and-halves (b / 2 / 2 / 2) 1,
  bit_and-zero (b / 2 / 2 / 2 / 2),
)

-- Every list of bytes is read back from its hexadecimal digest.
pub unhex-hex_digest :
    (bytes : List ℕ) → All (λ b. b < 256) bytes → unhex (hex_digest bytes) ≡ bytes
unfolding unhex hex_digest
unhex-hex_digest [] h = refl
unhex-hex_digest (b ∷ bytes) h =
    let high = digit_value-hex_digit (b / 2 ^ 4) (omega (arith, h.0)) in
    let low =
      ap (λ (n : ℕ). digit_value (hex_digit n)) (low_digit b)
      ∙ digit_value-hex_digit (b % 16) (omega arith) in
    ap₂ (λ (x : ℕ) (xs : List ℕ). x ∷ xs) (rw (high, low) (omega arith))
      (unhex-hex_digest bytes h.1)
