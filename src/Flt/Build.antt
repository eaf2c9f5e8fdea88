-- ===== src/Flt/Build.antt =====
-- The decoding of a message by its sensor type (`_packet_decode_header` of
-- sensors/ntfltmgr/ntfltmgr.py).
pub mod Registry
pub mod Process
pub mod Labels
pub mod Builders
pub mod Outcome
pub mod Header
pub mod Thread
use virt_ue_sensing.Base.{◌||◌, ℕ, Option, none, some, if◌then◌else◌, ◌==◌}
use virt_ue_sensing.Base.Text.{Text, codes}
use virt_ue_sensing.Base.Exec.{Result, ok, err, then_result}
use virt_ue_sensing.Base.Fallible.{◌>>=◌}
use virt_ue_sensing.Flt.Layout.{number}
use virt_ue_sensing.Flt.Structs.{sensor_data_header}
use virt_ue_sensing.Flt.Enums.{sensor_type_names, name_of}
use virt_ue_sensing.Flt.Decode.{Tuple, header_of}
use Registry.{
  build_reg_create_key, build_reg_query_value_key, build_reg_rename_key, build_reg_delete_value_key,
  build_reg_set_value_key, build_reg_post_operation,
}
use Process.{
  build_process_create, build_process_list_validation_failed, build_image_load, build_thread_create,
  build_thread_destroy, build_process_destroy,
}

abbrev pub sensor_type_of : Text → ℕ
sensor_type_of packet = number sensor_data_header (codes "sensor_type") (header_of packet)

abbrev pub data_size_of : Text → ℕ
data_size_of packet = number sensor_data_header (codes "DataSz") (header_of packet)

-- The `build` of the message's class.
abbrev pub built : Result Tuple → Result (Option Tuple)
built r = then_result r λ m. ok (some m)

module _ (utf_16 utf_8 : Text → Option Text) where
  unfoldable pub build_message : ℕ → Text → Result (Option Tuple)
  unfolding build_reg_create_key build_reg_query_value_key build_reg_rename_key
      build_reg_delete_value_key build_reg_set_value_key build_reg_post_operation
      build_process_create build_process_list_validation_failed build_image_load build_thread_create
      build_thread_destroy build_process_destroy
  build_message t packet =
      if t == 1
      then built (build_image_load packet)
      else if t == 2
      then built (build_process_create utf_16 utf_8 (data_size_of packet) packet)
      else if t == 3
      then built (build_process_destroy packet)
      else if t == 6
      then built (build_process_list_validation_failed packet)
      else if t == 7
      then built (build_reg_query_value_key utf_16 utf_8 packet)
      else if (t == 8) || (t == 10)
      then built (build_reg_create_key utf_16 utf_8 packet)
      else if t == 9
      then built (build_reg_set_value_key utf_16 utf_8 packet)
      else if t == 11
      then built (build_reg_delete_value_key utf_16 utf_8 packet)
      else if t == 12
      then built (build_reg_rename_key utf_16 utf_8 packet)
      else if t == 0x1001
      then built (build_reg_post_operation packet)
      else if t == 4
      then built (build_thread_create packet)
      else if t == 5
      then built (build_thread_destroy packet)
      else ok none

  -- `_packet_decode_header`; a sensor type without a name is a `ValueError`.
  unfoldable pub packet_decode_header : Text → Result (Option Tuple)
  packet_decode_header packet =
      then_result (name_of sensor_type_names (sensor_type_of packet))
        λ name. build_message (sensor_type_of packet) packet
