-- ===== src/Wrapper/Properties.antt =====
-- `read_properties` of sensors/wrapper/sensor_wrapper.py, on the text of the file.
use virt_ue_sensing.Base.{
  inl, inr, Bool-cases, Option-cases, refl, Bool-cases, false, Option-cases, ◌++◌, arith, ◌≡◌, not,
  ◌||◌, Option, none, some, List, [], ◌∷◌, if◌then◌else◌,
}
use virt_ue_sensing.Base.Text.{Text, codes, starts_with, text_eq, text_Eq}
use virt_ue_sensing.Base.Split.{
  join_with-two, join_with-split_on, split_on-first, split_on, join_with, has_char, strip,
}
use virt_ue_sensing.Base.Dict.{get-put, get, Dict, put}

-- The key is the first piece, the value the others joined again.
abbrev key_and_value : List Text → Option (Text × Text)
key_and_value [] = none
key_and_value (key ∷ bits) = some (key, join_with (b'=' ∷ []) bits)

-- A line that is blank, a comment or without '=' has no property.
unfoldable pub property_line : Text → Option (Text × Text)
unfolding starts_with strip split_on text_eq
property_line raw =
    let line = strip raw in
    if text_eq line [] || starts_with (codes "#") line || not (has_char b'=' line)
    then none
    else key_and_value (split_on b'=' line)

abbrev set_property : Option (Text × Text) → Dict Text Text → Dict Text Text
set_property none d = d
set_property (some (key, val)) d = put key val d

unfoldable pub read_lines : List Text → Dict Text Text → Dict Text Text
unfolding property_line
read_lines [] d = d
read_lines (line ∷ lines) d = read_lines lines (set_property (property_line line) d)

unfoldable pub read_properties : Text → Dict Text Text
unfolding read_lines split_on
read_properties raw = read_lines (split_on b'\n' raw) []

-- A property's line, without the space around it, is its key, '=' and its value, and the key has no
-- '=': the first '=' is the one that counts.
pub property_line-rejoins :
    (raw key val : Text)
    → property_line raw ≡ some (key, val)
    → (strip raw ≡ key ++ (b'=' ∷ val)) × (has_char b'=' key ≡ false)
unfolding property_line
property_line-rejoins raw key val e = elim (Bool-cases (has_char b'=' (strip raw))) [
  | inr without ↦ absurd (ground arith)
  | inl within ↦
      let (w, v, ws, pieces, first) = split_on-first b'=' (strip raw) within in
      ground (arith, join_with-split_on b'=' (strip raw), join_with-two b'=' w v ws)
]

-- The value of the last line that sets the key.
unfoldable pub last_value : Text → List Text → Option Text
unfolding property_line
last_value key [] = none
last_value key (line ∷ lines) = elim (last_value key lines) [
  | some val ↦ some val
  | none ↦ elim (property_line line) [
    | none ↦ none
    | some (k, val) ↦ if text_eq k key then some val else none
  ]
]

read_lines-last :
    (key : Text) (lines : List Text) (d : Dict Text Text)
    → get key (read_lines lines d)
      ≡ elim (last_value key lines) [ some val ↦ some val | none ↦ get key d ]
unfolding read_lines last_value
read_lines-last key [] d = refl
read_lines-last key (line ∷ lines) d = elim (Option-cases (property_line line)) [
  | inl skip ↦ ground (arith, read_lines-last key lines d)
  | inr (p, e) ↦ ground (arith, read_lines-last key lines (put p.0 p.1 d), get-put p.0 key p.1 d)
]

-- A key has the value of the last line of the file that sets it, and no value when none does.
pub read_properties-last :
    (raw key : Text) → get key (read_properties raw) ≡ last_value key (split_on b'\n' raw)
unfolding read_properties get
read_properties-last raw key = ground (arith, read_lines-last key (split_on b'\n' raw) [])
