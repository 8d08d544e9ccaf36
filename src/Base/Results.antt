-- ===== src/Base/Results.antt =====
-- Go's (value, error) pair, where the error is nil exactly when the value counts.
pub data Result {ℓ κ} (E : Type κ) (A : Type ℓ) : Type (ℓ ⊔ κ) where
  ok : A → Result E A
  err : E → Result E A
