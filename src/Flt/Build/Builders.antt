-- ===== src/Flt/Build/Builders.antt =====
-- Each `build` method gives a tuple with its sensor type, or a `ValueError`.
use virt_ue_sensing.Base.{nat_Eq, ℕ, ◌-◌, ◌≡◌, Option, [], ◌∷◌, ltb}
use virt_ue_sensing.Base.Text.{Text, codes, text_Eq}
use virt_ue_sensing.Base.Dict.{Dict, get}
use virt_ue_sensing.Base.Exec.{ok, then_result}
use virt_ue_sensing.Flt.Enums.{
  sensor_type_names, name_of, kprocessor_mode_names, reg_notify_class_names,
  key_value_information_class_names,
}
use virt_ue_sensing.Flt.Decode.{
  from_buffer, chars, trailing, string_buffer, every_other, decode_string,
}
use virt_ue_sensing.Flt.Build.{sensor_type_of}
use virt_ue_sensing.Flt.Build.Labels.{
  Refuses, Labelled, Refuses-then, Labelled-then, Labelled-origin, Labelled-append,
  Refuses-or_raise, Refuses-guard, Refuses-ok,
}
use virt_ue_sensing.Flt.Build.Registry.{
  build_reg_create_key, build_reg_query_value_key, build_reg_rename_key, build_reg_delete_value_key,
  build_reg_set_value_key, build_reg_post_operation,
}
use virt_ue_sensing.Flt.Build.Process.{
  build_process_create, build_process_list_validation_failed, build_image_load, build_thread_create,
  build_thread_destroy, build_process_destroy, command_line,
}
use virt_ue_sensing.Flt.Layout.{Struct, bytes_at, offset_of, number}
use virt_ue_sensing.Flt.Structs.{
  process_create_info, image_load_info, reg_create_key_info, reg_query_value_key_info,
  reg_rename_key_info, reg_delete_value_key_info, reg_set_value_key_info,
}
use Prim.Native.String.{String}

from_buffer-Refuses : (o k : ℕ) (sb : Text) → Refuses (from_buffer o k sb)
unfolding from_buffer
from_buffer-Refuses o k sb = (Refuses-guard _ (ok (bytes_at o k sb)) (Refuses-ok _)).0

pub name_of-Refuses : (names : Dict ℕ Text) (v : ℕ) → Refuses (name_of names v)
name_of-Refuses names v = Refuses-or_raise (get v names)

chars-Refuses : (s : Text) → Refuses (chars s)
unfolding chars
chars-Refuses [] = Refuses-ok []
chars-Refuses (b ∷ bs) =
    (Refuses-guard (ltb b 128) (then_result (chars bs) λ s. ok (b ∷ s))
      (Refuses-then (chars bs) _ (chars-Refuses bs) (λ s. Refuses-ok (b ∷ s)))).1

-- The name of the sensor type is `name`.
module _ (name packet : Text)
    (h : name_of sensor_type_names (sensor_type_of packet) ≡ ok name) where
  pub reg_post_operation-Labelled : Labelled name (build_reg_post_operation packet)
  unfolding build_reg_post_operation
  reg_post_operation-Labelled =
      Labelled-origin name packet _ h λ head l. Labelled-append name head _ l

  pub process_list_validation_failed-Labelled :
      Labelled name (build_process_list_validation_failed packet)
  unfolding build_process_list_validation_failed
  process_list_validation_failed-Labelled =
      Labelled-origin name packet _ h λ head l. Labelled-append name head _ l

  pub thread_create-Labelled : Labelled name (build_thread_create packet)
  unfolding build_thread_create
  thread_create-Labelled = Labelled-origin name packet _ h λ head l. Labelled-append name head _ l

  pub thread_destroy-Labelled : Labelled name (build_thread_destroy packet)
  unfolding build_thread_destroy
  thread_destroy-Labelled = Labelled-origin name packet _ h λ head l. Labelled-append name head _ l

  pub process_destroy-Labelled : Labelled name (build_process_destroy packet)
  unfolding build_process_destroy
  process_destroy-Labelled = Labelled-origin name packet _ h λ head l. Labelled-append name head _ l

  pub image_load-Labelled : Labelled name (build_image_load packet)
  unfolding build_image_load
  image_load-Labelled =
      let s = image_load_info in
      Labelled-then name _ _
        (from_buffer-Refuses (offset_of s (codes "FullImageName"))
          (number s (codes "FullImageNameSz") packet) (string_buffer packet))
        λ slc.
          Labelled-then name _ _ (chars-Refuses (every_other slc))
            λ chs. Labelled-origin name packet _ h λ head l. Labelled-append name head _ l

  -- `utf_16` and `utf_8` are Python's decoders; `none` is a `UnicodeDecodeError`.
  module _ (utf_16 utf_8 : Text → Option Text) where
    trailing-Refuses :
        (s : Struct) (size field_name : String) (p sb : Text)
        → Refuses (trailing utf_16 utf_8 s size field_name p sb)
    trailing-Refuses s size field_name p sb =
        Refuses-then _ _ (from_buffer-Refuses _ _ sb) λ slc. Refuses-ok _

    command_line-Refuses : (data_size : ℕ) → Refuses (command_line utf_16 utf_8 data_size packet)
    command_line-Refuses data_size =
        (Refuses-guard _
          (then_result
            (from_buffer (offset_of process_create_info (codes "CommandLine"))
              (data_size - offset_of process_create_info (codes "CommandLine"))
              (string_buffer packet))
            λ slc. ok (decode_string utf_16 utf_8 slc))
          (Refuses-then _ _ (from_buffer-Refuses _ _ _) λ slc. Refuses-ok _)).0

    pub process_create-Labelled :
        (data_size : ℕ) → Labelled name (build_process_create utf_16 utf_8 data_size packet)
    unfolding build_process_create
    process_create-Labelled data_size =
        Labelled-then name _ _ (command_line-Refuses data_size)
          λ str. Labelled-origin name packet _ h λ head l. Labelled-append name head _ l

    pub reg_create_key-Labelled : Labelled name (build_reg_create_key utf_16 utf_8 packet)
    unfolding build_reg_create_key
    reg_create_key-Labelled =
        Labelled-then name _ _
          (trailing-Refuses reg_create_key_info "CompleteNameSz" "CompleteName" packet packet)
          λ str. Labelled-origin name packet _ h λ head l.
            Labelled-then name _ _
              (name_of-Refuses kprocessor_mode_names
                (number reg_create_key_info (codes "CheckAccessMode") packet))
              λ mode. Labelled-append name head _ l

    pub reg_query_value_key-Labelled : Labelled name (build_reg_query_value_key utf_16 utf_8 packet)
    unfolding build_reg_query_value_key
    reg_query_value_key-Labelled =
        Labelled-then name _ _
          (trailing-Refuses reg_query_value_key_info "ValueNameLength" "ValueName" packet
            (string_buffer packet))
          λ str. Labelled-origin name packet _ h λ head l.
            let s = reg_query_value_key_info in
            Labelled-then name _ _
              (name_of-Refuses reg_notify_class_names (number s (codes "Class") packet))
              λ notify.
                Labelled-then name _ _
                  (name_of-Refuses key_value_information_class_names
                    (number s (codes "KeyValueInformationClass") packet))
                  λ information. Labelled-append name head _ l

    pub reg_rename_key-Labelled : Labelled name (build_reg_rename_key utf_16 utf_8 packet)
    unfolding build_reg_rename_key
    reg_rename_key-Labelled =
        Labelled-then name _ _
          (trailing-Refuses reg_rename_key_info "NewNameLength" "NewName" packet
            (string_buffer packet))
          λ str. Labelled-origin name packet _ h λ head l. Labelled-append name head _ l

    pub reg_delete_value_key-Labelled :
        Labelled name (build_reg_delete_value_key utf_16 utf_8 packet)
    unfolding build_reg_delete_value_key
    reg_delete_value_key-Labelled =
        Labelled-then name _ _
          (trailing-Refuses reg_delete_value_key_info "ValueNameLength" "ValueName" packet
            (string_buffer packet))
          λ str. Labelled-origin name packet _ h λ head l. Labelled-append name head _ l

    pub reg_set_value_key-Labelled : Labelled name (build_reg_set_value_key utf_16 utf_8 packet)
    unfolding build_reg_set_value_key
    reg_set_value_key-Labelled =
        Labelled-then name _ _
          (trailing-Refuses reg_set_value_key_info "ValueNameLength" "ValueName" packet
            (string_buffer packet))
          λ str. Labelled-origin name packet _ h λ head l. Labelled-append name head _ l
