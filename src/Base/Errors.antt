-- ===== src/Base/Errors.antt =====
-- Results of calls that may fail with an error of the caller's choice of type.
pub data Result {ℓ κ} (E : Type ℓ) (A : Type κ) : Type (ℓ ⊔ κ) where
  ok : A → Result E A
  err : E → Result E A
