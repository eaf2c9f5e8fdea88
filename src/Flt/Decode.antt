-- ===== src/Flt/Decode.antt =====
-- The messages of the driver as named tuples (the `build` methods of sensors/ntfltmgr/ntfltmgr.py).
pub mod Addresses
use virt_ue_sensing.Base.{
  ℕ, ◌+◌, ◌-◌, ◌*◌, ◌^◌, ◌++◌, Bool, true, false, Option, none, some, List, [], ◌∷◌, ltb,
  if◌then◌else◌, length, take, drop, ◌==◌,
}
use virt_ue_sensing.Base.Text.{Text, codes}
use virt_ue_sensing.Base.Bytes.{le, hex, hex_bytes, ℤ, pos, negsuc, signed, abs}
use virt_ue_sensing.Base.Dict.{Dict, get}
use virt_ue_sensing.Base.Exec.{Exc, Result, ok, err, then_result, value_error}
use virt_ue_sensing.Base.Fallible.{◌>>=◌, ◌>>◌}
use virt_ue_sensing.Flt.Layout.{Struct, offset_of, bytes_at, field, number, field_from, offset_from}
use virt_ue_sensing.Flt.Structs.{
  sensor_data_header, reg_create_key_info, reg_query_value_key_info, reg_rename_key_info,
  reg_post_operation_info, reg_delete_value_key_info, reg_set_value_key_info,
  process_list_validation_failed, image_load_info, thread_create_info, thread_destroy_info,
  client_id, process_create_info, process_destroy_info,
}
use virt_ue_sensing.Flt.Enums.{
  sensor_type_names, key_value_information_class_names, reg_notify_class_names,
  kprocessor_mode_names, reg_object_type_names, name_of,
}
use Prim.Native.String.{String}

pub data Value : Type 0 where
  text : Text → Value
  int : ℤ → Value

-- `_asdict()` of a named tuple
abbrev pub Tuple : Type 0
Tuple = Dict Text Value

abbrev pub str_at : String → Text → Text × Value
str_at name t = (codes name, text t)

abbrev pub nat_at : String → ℕ → Text × Value
nat_at name n = (codes name, int (pos n))

abbrev pub int_at : String → ℤ → Text × Value
int_at name n = (codes name, int n)

-- A `LONGLONG` field
abbrev pub long_long : Struct → Text → Text → ℤ
long_long s name buffer = signed 64 (number s name buffer)

-- `SaviorStruct.LongLongToHex`
unfoldable pub long_long_to_hex : ℤ → Text
unfolding hex
long_long_to_hex num = hex (0x10000000000000000 - abs num)

abbrev pub address_at : String → Struct → Text → Text × Value
address_at name s buffer = (codes name, text (long_long_to_hex (long_long s (codes name) buffer)))

-- `str(uuid.UUID(bytes=b))`
abbrev pub str_uuid : Text → Text
str_uuid b =
    hex_bytes (bytes_at 0 4 b)
    ++ codes "-"
    ++ hex_bytes (bytes_at 4 2 b)
    ++ codes "-"
    ++ hex_bytes (bytes_at 6 2 b)
    ++ codes "-"
    ++ hex_bytes (bytes_at 8 2 b)
    ++ codes "-"
    ++ hex_bytes (bytes_at 10 6 b)

-- The slice of the buffer as a ctypes array of that length; `from_buffer` refuses a shorter one.
unfoldable pub from_buffer : ℕ → ℕ → Text → Result Text
from_buffer offset size sb =
    if ltb (length (bytes_at offset size sb)) size
    then err value_error
    else ok (bytes_at offset size sb)

-- `create_string_buffer(packet)`
abbrev pub string_buffer : Text → Text
string_buffer packet = packet ++ (0 ∷ [])

-- `xs[::2]`
abbrev pub every_other : Text → Text
every_other [] = []
every_other (a ∷ []) = a ∷ []
every_other (a ∷ b ∷ s) = a ∷ every_other s

-- `"".join(map(chr, ...))` over `c_byte`: a byte of 128 and more is negative there.
unfoldable pub chars : Text → Result Text
chars [] = ok []
chars (b ∷ bs) =
    let rest = chars bs in if ltb b 128 then then_result rest (λ s. ok (b ∷ s)) else err value_error

abbrev pub header_of : Text → Text
header_of packet = bytes_at 0 48 packet

-- The part of a tuple that comes from the header.
unfoldable pub origin : Text → Result Tuple
unfolding field_from get
origin packet = do
  name ←
      name_of sensor_type_names (number sensor_data_header (codes "sensor_type") (header_of packet))
  ok (
      str_at "sensor_id"
        (str_uuid (field sensor_data_header (codes "sensor_id") (header_of packet)))
      ∷ str_at "sensor_type" name
      ∷ int_at "CurrentGMT" (long_long sensor_data_header (codes "CurrentGMT") (header_of packet))
      ∷ [])

-- `utf_16` and `utf_8` are Python's decoders; `none` is a `UnicodeDecodeError`.
module _ (utf_16 utf_8 : Text → Option Text) where
  -- `SaviorStruct.DecodeString`: bytes are never out of the range of `chr`.
  unfoldable pub decode_string : Text → Text
  decode_string slc = elim (utf_16 slc) [
    | some t ↦ t
    | none ↦ elim (utf_8 slc) [ some t ↦ t | none ↦ every_other slc ]
  ]

  -- The text behind a structure, whose size a field gives.
  abbrev pub trailing : Struct → String → String → Text → Text → Result Text
  trailing s size_field name packet sb =
      then_result (from_buffer (offset_of s (codes name)) (number s (codes size_field) packet) sb)
        λ slc. ok (decode_string slc)
