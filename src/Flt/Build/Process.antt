-- ===== src/Flt/Build/Process.antt =====
-- The messages on processes, threads and images (the `build` methods of
-- sensors/ntfltmgr/ntfltmgr.py).
use virt_ue_sensing.Base.{ℕ, ◌-◌, ◌++◌, Option, [], ◌∷◌, ltb, if◌then◌else◌}
use virt_ue_sensing.Base.Text.{Text, codes}
use virt_ue_sensing.Base.Bytes.{signed, pos}
use virt_ue_sensing.Base.Exec.{Result, ok, err, then_result, value_error}
use virt_ue_sensing.Base.Fallible.{◌>>=◌}
use Prim.Native.String.{String}
use virt_ue_sensing.Flt.Layout.{Struct, offset_of, field, number}
use virt_ue_sensing.Flt.Structs.{
  process_list_validation_failed, image_load_info, thread_create_info, thread_destroy_info,
  client_id, process_create_info, process_destroy_info,
}
use virt_ue_sensing.Flt.Decode.{
  Value, Tuple, str_at, nat_at, int_at, long_long, long_long_to_hex, address_at, from_buffer,
  string_buffer, every_other, chars, origin, decode_string,
}

-- An address in a `ULONGLONG` field
abbrev unsigned_at : String → Struct → Text → Text × Value
unsigned_at name s buffer = str_at name (long_long_to_hex (pos (number s (codes name) buffer)))

-- `utf_16` and `utf_8` are Python's decoders; `none` is a `UnicodeDecodeError`.
module _ (utf_16 utf_8 : Text → Option Text) where
  -- The length of the command line is what the message has behind the other fields.
  abbrev pub command_line : ℕ → Text → Result Text
  command_line data_size packet =
      let offset = offset_of process_create_info (codes "CommandLine") in
      if ltb data_size offset
      then err value_error
      else then_result (from_buffer offset (data_size - offset) (string_buffer packet))
          λ slc. ok (decode_string utf_16 utf_8 slc)

  unfoldable pub build_process_create : ℕ → Text → Result Tuple
  unfolding origin from_buffer decode_string long_long_to_hex
  build_process_create data_size packet = do
    let s = process_create_info
    command ← command_line data_size packet
    head ← origin packet
    let creator = field s (codes "CreatingThreadId") packet
    ok (
        head
        ++ (int_at "ParentProcessId" (long_long s (codes "ParentProcessId") packet)
            ∷ int_at "ProcessId" (long_long s (codes "ProcessId") packet)
            ∷ address_at "EProcess" s packet
            ∷ unsigned_at "UniqueProcess" client_id creator
            ∷ unsigned_at "UniqueThread" client_id creator
            ∷ address_at "FileObject" s packet
            ∷ nat_at "CreationStatus" (number s (codes "CreationStatus") packet)
            ∷ nat_at "CommandLineSz" (number s (codes "CommandLineSz") packet)
            ∷ str_at "CommandLine" command
            ∷ []))

unfoldable pub build_process_list_validation_failed : Text → Result Tuple
unfolding origin long_long_to_hex
build_process_list_validation_failed packet = do
  let s = process_list_validation_failed
  head ← origin packet
  ok (
      head
      ++ (nat_at "Status" (number s (codes "Status") packet)
          ∷ int_at "ProcessId" (long_long s (codes "ProcessId") packet)
          ∷ address_at "EProcess" s packet
          ∷ []))

unfoldable pub build_image_load : Text → Result Tuple
unfolding origin from_buffer chars long_long_to_hex
build_image_load packet = do
  let s = image_load_info
  slc ←
      from_buffer (offset_of s (codes "FullImageName")) (number s (codes "FullImageNameSz") packet)
        (string_buffer packet)
  module_name ← chars (every_other slc)
  head ← origin packet
  ok (
      head
      ++ (int_at "ProcessId" (long_long s (codes "ProcessId") packet)
          ∷ address_at "EProcess" s packet
          ∷ address_at "ImageBase" s packet
          ∷ int_at "ImageSize" (long_long s (codes "ImageSize") packet)
          ∷ str_at "FullImageName" module_name
          ∷ []))

unfoldable pub build_thread_create : Text → Result Tuple
unfolding origin long_long_to_hex
build_thread_create packet = do
  let s = thread_create_info
  head ← origin packet
  ok (
      head
      ++ (int_at "ProcessId" (long_long s (codes "ProcessId") packet)
          ∷ int_at "ThreadId" (long_long s (codes "ThreadId") packet)
          ∷ address_at "Win32StartAddress" s packet
          ∷ address_at "StartAddress" s packet
          ∷ int_at "IsStartAddressValid" (signed 8 (number s (codes "IsStartAddressValid") packet))
          ∷ []))

unfoldable pub build_thread_destroy : Text → Result Tuple
unfolding origin
build_thread_destroy packet = do
  let s = thread_destroy_info
  head ← origin packet
  ok (
      head
      ++ (int_at "ProcessId" (long_long s (codes "ProcessId") packet)
          ∷ int_at "ThreadId" (long_long s (codes "ThreadId") packet)
          ∷ []))

unfoldable pub build_process_destroy : Text → Result Tuple
unfolding origin long_long_to_hex
build_process_destroy packet = do
  let s = process_destroy_info
  head ← origin packet
  ok (
      head
      ++ (int_at "ProcessId" (long_long s (codes "ProcessId") packet)
          ∷ address_at "EProcess" s packet
          ∷ []))
