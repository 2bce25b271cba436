-- ===== src/Base/Results.antt =====
-- Options as the results of code that may fail.
use mathlib.Core.Option.{Option, none, some}

infixl 5 ◌>>=◌
unfoldable pub ◌>>=◌ {ℓ κ} : {A : Type ℓ} {B : Type κ} → Option A → (A → Option B) → Option B
none >>= f = none
some a >>= f = f a
