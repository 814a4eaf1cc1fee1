-- ===== src/Common/Throwing.antt =====
-- Calls that may throw, and the state that they leave in their object.

-- What a call leaves: the new state, or an exception and the state that the object is left in.
pub data Outcome {ℓ} (E : Type 0) (S : Type ℓ) : Type ℓ where
  done : S → Outcome E S
  thrown : E → S → Outcome E S

infixl 5 ◌>>=◌
abbrev pub ◌>>=◌ {ℓ} : {E : Type 0} {S : Type ℓ} → Outcome E S → (S → Outcome E S) → Outcome E S
done s >>= f = f s
thrown e s >>= f = thrown e s

-- The state that a call leaves its object in.
abbrev pub left_by {ℓ} : {E : Type 0} {S : Type ℓ} → Outcome E S → S
left_by (done s) = s
left_by (thrown e s) = s
