-- ===== src/Flt/Decode/Addresses.antt =====
-- Which addresses `LongLongToHex` shows.
use virt_ue_sensing.Base.{ℕ, ◌-◌, ◌^◌, ◌≡◌, ◌≤◌, ◌<◌, arith, ap}
use virt_ue_sensing.Base.Bytes.{hex, signed, abs}
use virt_ue_sensing.Flt.Decode.{long_long_to_hex}

high_address : (u : ℕ) → u < 2 ^ 64 → 2 ^ 63 ≤ u → 0x10000000000000000 - abs (signed 64 u) ≡ u
unfolding signed
high_address u h high = ground (arith)

low_address : (u : ℕ) → u < 2 ^ 63 → 0x10000000000000000 - abs (signed 64 u) ≡ 2 ^ 64 - u
unfolding signed
low_address u low = ground (arith)

-- An address in the upper half of the 64-bit range, which a `LONGLONG` field gives as a negative
-- number, is shown as it is; any other is shown as what it lacks to 2 ^ 64.
pub long_long_to_hex_lem :
    (u : ℕ)
    → u < 2 ^ 64
    → (2 ^ 63 ≤ u → long_long_to_hex (signed 64 u) ≡ hex u)
      × (u < 2 ^ 63 → long_long_to_hex (signed 64 u) ≡ hex (2 ^ 64 - u))
unfolding long_long_to_hex signed
long_long_to_hex_lem u h = (
  λ high. let e : 0x10000000000000000 - abs (signed 64 u) ≡ u = high_address u h high in ap hex e,
  λ low.
      let e : 0x10000000000000000 - abs (signed 64 u) ≡ 2 ^ 64 - u = low_address u low in ap hex e,
)
