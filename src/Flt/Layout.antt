-- ===== src/Flt/Layout.antt =====
-- The layout of a ctypes `Structure`: each field stands at the next multiple of its alignment, and
-- the size is a multiple of the largest alignment.
pub mod Packing
use virt_ue_sensing.Base.{
  ℕ, ◌+◌, ◌-◌, ◌*◌, ◌/◌, Option, none, some, List, [], ◌∷◌, ltb, if◌then◌else◌, take, drop,
}
use virt_ue_sensing.Base.Text.{Text, text_eq}
use virt_ue_sensing.Base.Bytes.{le}

pub record Field : Type 0 where
  pub name : Text
  pub size : ℕ
  pub align : ℕ

abbrev pub Struct : Type 0
Struct = List Field

-- The first multiple of `a` that is not below `o`.
abbrev pub align_up : ℕ → ℕ → ℕ
align_up a o = (o + (a - 1)) / a * a

-- Where the last field of a structure that begins at `o` ends.
unfoldable pub end_of : ℕ → Struct → ℕ
end_of o [] = o
end_of o (f ∷ fs) = end_of (align_up f.align o + f.size) fs

abbrev max : ℕ → ℕ → ℕ
max a b = if ltb a b then b else a

abbrev pub alignment : Struct → ℕ
alignment [] = 1
alignment (f ∷ fs) = max f.align (alignment fs)

-- `sizeof(cls)`
unfoldable pub sizeof : Struct → ℕ
unfolding end_of
sizeof s = align_up (alignment s) (end_of 0 s)

unfoldable pub offset_from : ℕ → Text → Struct → ℕ
unfolding text_eq
offset_from o name [] = o
offset_from o name (f ∷ fs) =
    let p = align_up f.align o in
    let rest = offset_from (p + f.size) name fs in if text_eq f.name name then p else rest

-- `cls.name.offset`
abbrev pub offset_of : Struct → Text → ℕ
offset_of s name = offset_from 0 name s

-- The k bytes at an offset, or those of them that there are.
abbrev pub bytes_at : ℕ → ℕ → Text → Text
bytes_at o k buffer = take k (drop o buffer)

unfoldable pub field_from : ℕ → Text → Struct → Text → Text
unfolding text_eq
field_from o name [] buffer = []
field_from o name (f ∷ fs) buffer =
    let p = align_up f.align o in
    let rest = field_from (p + f.size) name fs buffer in
    if text_eq f.name name then bytes_at p f.size buffer else rest

-- `info.contents.name`, as bytes; what stands beyond the buffer is not modelled and read as 0.
abbrev pub field : Struct → Text → Text → Text
field s name buffer = field_from 0 name s buffer

-- The same as an unsigned number.
abbrev pub number : Struct → Text → Text → ℕ
number s name buffer = le (field s name buffer)
