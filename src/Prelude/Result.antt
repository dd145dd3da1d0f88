-- ===== src/Prelude/Result.antt =====
-- A Go result `(A, error)` whose value is used only when the error is nil.
use kovern.Prelude.Text.{Text}

pub data Result {ℓ} (A : Type ℓ) : Type ℓ where
  ok : A → Result A
  err : Text → Result A
