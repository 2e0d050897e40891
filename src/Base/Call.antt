-- ===== src/Base/Call.antt =====
-- `do` blocks over `Outcome`, for functions that may panic and keep no state.
use pay_gas_x.Base.Monad.{Outcome, and_then}

infixl 5 ◌>>=◌
abbrev pub ◌>>=◌ {ℓ κ} : {A : Type ℓ} {B : Type κ} → Outcome A → (A → Outcome B) → Outcome B
o >>= f = and_then o f
