-- ===== src/Base/Result.antt =====
-- What a call into a package outside this repository gives back.
use ztxbas.Base.Text.{Text}

-- A value, or an error with its text.
pub data Outcome {ℓ} (A : Type ℓ) : Type ℓ where
  done : A → Outcome A
  fault : Text → Outcome A
