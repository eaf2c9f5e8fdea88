-- ===== src/Base/Number.antt =====
-- `str(n)` of a number: its decimal digits.
use virt_ue_sensing.Base.Tests.{ltb, if◌then◌else◌}
use virt_ue_sensing.Base.Text.{Text}
use Prim.Native.Nat.{ℕ, zero, suc, ◌+◌, ◌/◌, ◌%◌}
use mathlib.Core.List.{[], ◌∷◌}

-- The digits of `n` in front of `rest`; `f` is fuel, and `n` rounds are enough.
digits_onto : ℕ → ℕ → Text → Text
digits_onto zero n rest = rest
digits_onto (suc f) n rest =
    let more = digits_onto f (n / 10) ((n % 10 + b'0') ∷ rest) in
    if ltb n 10 then (n + b'0') ∷ rest else more

unfoldable pub to_decimal : ℕ → Text
unfolding digits_onto
to_decimal n = digits_onto (suc n) n []
