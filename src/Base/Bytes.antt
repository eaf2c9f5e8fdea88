-- ===== src/Base/Bytes.antt =====
-- Numbers as little-endian bytes, and hexadecimal text.
use Prim.Native.Nat.{ℕ, zero, suc, ◌+◌, ◌-◌, ◌*◌, ◌/◌, ◌%◌, ◌^◌}
use mathlib.Core.Path.{◌≡◌, refl}
use mathlib.Core.List.{[], ◌∷◌, ◌++◌}
use native.Mathlib.Omega.{arith}
use virt_ue_sensing.Base.Tests.{ltb, if◌then◌else◌}
use virt_ue_sensing.Base.Lists.{length}
use virt_ue_sensing.Base.Text.{Text, codes}

-- The number that the bytes stand for, the lowest byte first.
abbrev pub le : Text → ℕ
le [] = 0
le (b ∷ bs) = b + 256 * le bs

-- The k lowest bytes of a number.
abbrev pub to_le : ℕ → ℕ → Text
to_le zero n = []
to_le (suc k) n = n % 256 ∷ to_le k (n / 256)

-- The number has at most k bytes.
abbrev pub Fits : ℕ → ℕ → Type 0
Fits zero n = n ≡ 0
Fits (suc k) n = Fits k (n / 256)

pub le-to_le : (k n : ℕ) → Fits k n → le (to_le k n) ≡ n
le-to_le zero n h = omega arith
le-to_le (suc k) n h = omega (arith, le-to_le k (n / 256) h)

pub length-to_le : (k n : ℕ) → length (to_le k n) ≡ k
length-to_le zero n = refl
length-to_le (suc k) n = ground (arith, length-to_le k (n / 256))

abbrev hex_digit : ℕ → ℕ
hex_digit d = if ltb d 10 then d + b'0' else d - 10 + b'a'

-- The digits of `n` in front of `rest`; `f` is fuel, and `n` rounds are enough.
hex_onto : ℕ → ℕ → Text → Text
hex_onto zero n rest = rest
hex_onto (suc f) n rest =
    let more = hex_onto f (n / 16) (hex_digit (n % 16) ∷ rest) in
    if ltb n 16 then hex_digit n ∷ rest else more

-- `hex(n)` of a number that is not negative.
unfoldable pub hex : ℕ → Text
unfolding hex_onto
hex n = codes "0x" ++ hex_onto (suc n) n []

-- Two digits for each byte.
abbrev pub hex_bytes : Text → Text
hex_bytes [] = []
hex_bytes (b ∷ bs) = hex_digit (b / 16) ∷ hex_digit (b % 16) ∷ hex_bytes bs

-- A signed number; `negsuc n` is -(n + 1).
pub data ℤ : Type 0 where
  pos negsuc : ℕ → ℤ

-- A number of `bits` bits as a signed one.
unfoldable pub signed : ℕ → ℕ → ℤ
signed bits u = if ltb u (2 ^ (bits - 1)) then pos u else negsuc (2 ^ bits - u - 1)

-- `abs(n)`
abbrev pub abs : ℤ → ℕ
abs (pos n) = n
abs (negsuc n) = suc n
