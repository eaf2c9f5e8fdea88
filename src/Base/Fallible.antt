-- ===== src/Base/Fallible.antt =====
-- `do` blocks on results.
use virt_ue_sensing.Base.Exec.{Result, then_result}

infixl 5 ◌>>=◌ ◌>>◌
abbrev pub ◌>>=◌ {ℓ κ} : {A : Type ℓ} {B : Type κ} → Result A → (A → Result B) → Result B
m >>= f = then_result m f

abbrev pub ◌>>◌ {ℓ κ} : {A : Type ℓ} {B : Type κ} → Result A → Result B → Result B
m >> k = then_result m λ _. k
