-- ===== src/Flt/Build/Registry.antt =====
-- The messages on the registry (the `build` methods of sensors/ntfltmgr/ntfltmgr.py).
use virt_ue_sensing.Base.{ℕ, ◌++◌, Option, [], ◌∷◌}
use virt_ue_sensing.Base.Text.{Text, codes}
use virt_ue_sensing.Base.Bytes.{hex, pos}
use virt_ue_sensing.Base.Dict.{get}
use virt_ue_sensing.Base.Exec.{Result, ok, err}
use virt_ue_sensing.Base.Fallible.{◌>>=◌}
use virt_ue_sensing.Flt.Layout.{number}
use virt_ue_sensing.Flt.Structs.{
  reg_create_key_info, reg_query_value_key_info, reg_rename_key_info, reg_post_operation_info,
  reg_delete_value_key_info, reg_set_value_key_info,
}
use virt_ue_sensing.Flt.Enums.{
  key_value_information_class_names, reg_notify_class_names, kprocessor_mode_names,
  reg_object_type_names, name_of,
}
use virt_ue_sensing.Flt.Decode.{
  Value, text, int, Tuple, str_at, nat_at, int_at, long_long, long_long_to_hex, address_at,
  from_buffer, string_buffer, origin, decode_string, trailing,
}

-- `utf_16` and `utf_8` are Python's decoders; `none` is a `UnicodeDecodeError`.
module _ (utf_16 utf_8 : Text → Option Text) where
  unfoldable pub build_reg_create_key : Text → Result Tuple
  unfolding origin from_buffer decode_string long_long_to_hex
  build_reg_create_key packet = do
    let s = reg_create_key_info
    complete_name ← trailing utf_16 utf_8 s "CompleteNameSz" "CompleteName" packet packet
    head ← origin packet
    mode ← name_of kprocessor_mode_names (number s (codes "CheckAccessMode") packet)
    ok (
        head
        ++ (int_at "ProcessId" (long_long s (codes "ProcessId") packet)
            ∷ address_at "EProcess" s packet
            ∷ address_at "RootObject" s packet
            ∷ nat_at "Options" (number s (codes "Options") packet)
            ∷ address_at "SecurityDescriptor" s packet
            ∷ address_at "SecurityQualityOfService" s packet
            ∷ nat_at "DesiredAccess" (number s (codes "DesiredAccess") packet)
            ∷ nat_at "GrantedAccess" (number s (codes "GrantedAccess") packet)
            ∷ address_at "Version" s packet
            ∷ nat_at "Wow64Flags" (number s (codes "Wow64Flags") packet)
            ∷ nat_at "Attributes" (number s (codes "Attributes") packet)
            ∷ str_at "CheckAccessMode" mode
            ∷ str_at "CompleteName" complete_name
            ∷ []))

  unfoldable pub build_reg_query_value_key : Text → Result Tuple
  unfolding origin from_buffer decode_string long_long_to_hex
  build_reg_query_value_key packet = do
    let s = reg_query_value_key_info
    value_name ← trailing utf_16 utf_8 s "ValueNameLength" "ValueName" packet (string_buffer packet)
    head ← origin packet
    notify ← name_of reg_notify_class_names (number s (codes "Class") packet)
    information ←
        name_of key_value_information_class_names
          (number s (codes "KeyValueInformationClass") packet)
    ok (
        head
        ++ (int_at "ProcessId" (long_long s (codes "ProcessId") packet)
            ∷ address_at "EProcess" s packet
            ∷ str_at "Class" notify
            ∷ address_at "Object" s packet
            ∷ str_at "KeyValueInformationClass" information
            ∷ str_at "ValueName" value_name
            ∷ []))

  unfoldable pub build_reg_rename_key : Text → Result Tuple
  unfolding origin from_buffer decode_string long_long_to_hex
  build_reg_rename_key packet = do
    let s = reg_rename_key_info
    new_name ← trailing utf_16 utf_8 s "NewNameLength" "NewName" packet (string_buffer packet)
    head ← origin packet
    ok (
        head
        ++ (int_at "ProcessId" (long_long s (codes "ProcessId") packet)
            ∷ address_at "EProcess" s packet
            ∷ address_at "Object" s packet
            ∷ str_at "NewName" new_name
            ∷ []))

  unfoldable pub build_reg_delete_value_key : Text → Result Tuple
  unfolding origin from_buffer decode_string long_long_to_hex
  build_reg_delete_value_key packet = do
    let s = reg_delete_value_key_info
    value_name ← trailing utf_16 utf_8 s "ValueNameLength" "ValueName" packet (string_buffer packet)
    head ← origin packet
    ok (
        head
        ++ (int_at "ProcessId" (long_long s (codes "ProcessId") packet)
            ∷ address_at "EProcess" s packet
            ∷ address_at "Object" s packet
            ∷ str_at "ValueName" value_name
            ∷ []))

  -- A type without a name is given as its number.
  abbrev object_type : ℕ → Value
  object_type v = elim (name_of reg_object_type_names v) [
    | ok name ↦ text name
    | err x ↦ int (pos v)
  ]

  unfoldable pub build_reg_set_value_key : Text → Result Tuple
  unfolding origin from_buffer decode_string long_long_to_hex get
  build_reg_set_value_key packet = do
    let s = reg_set_value_key_info
    value_name ← trailing utf_16 utf_8 s "ValueNameLength" "ValueName" packet (string_buffer packet)
    head ← origin packet
    ok (
        head
        ++ (int_at "ProcessId" (long_long s (codes "ProcessId") packet)
            ∷ address_at "EProcess" s packet
            ∷ address_at "Object" s packet
            ∷ (codes "Type", object_type (number s (codes "Type") packet))
            ∷ str_at "ValueName" value_name
            ∷ []))

unfoldable pub build_reg_post_operation : Text → Result Tuple
unfolding origin long_long_to_hex
build_reg_post_operation packet = do
  let s = reg_post_operation_info
  head ← origin packet
  ok (
      head
      ++ (int_at "ProcessId" (long_long s (codes "ProcessId") packet)
          ∷ address_at "EProcess" s packet
          ∷ address_at "Object" s packet
          ∷ str_at "Status" (hex (number s (codes "Status") packet))
          ∷ address_at "PreInformation" s packet
          ∷ str_at "ReturnStatus" (hex (number s (codes "ReturnStatus") packet))
          ∷ []))
