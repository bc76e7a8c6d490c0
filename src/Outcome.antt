-- ===== src/Outcome.antt =====
-- How a call of the library ends: with a value, with `false` after a logged error, or by an exception
-- (`std::vector::at`, the one that the modelled code can raise) that no caller catches.
use origin_ccl.Prelude.{Option, none, some}

pub data Outcome {ℓ} (A : Type ℓ) : Type ℓ where
  ok : A → Outcome A
  failed thrown : Outcome A

infixl 5 ◌>>=◌
abbrev pub ◌>>=◌ {ℓ κ} : {A : Type ℓ} {B : Type κ} → Outcome A → (A → Outcome B) → Outcome B
ok a >>= f = f a
failed >>= f = failed
thrown >>= f = thrown

-- `vector::at`
abbrev pub at {ℓ} : {A : Type ℓ} → Option A → Outcome A
at none = thrown
at (some a) = ok a
