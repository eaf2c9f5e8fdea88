-- ===== src/Flt/Tests.antt =====
-- Runs of the Windows filter manager client's theorems on concrete data.
use virt_ue_sensing.Base.{◌≡◌, ◌≤◌, ◌++◌, refl, arith, Option, none, some, [], ◌∷◌, length, drop}
use virt_ue_sensing.Base.Text.{Text, codes, text_eq, text_Eq}
use virt_ue_sensing.Base.Dict.{get}
use virt_ue_sensing.Base.Bytes.{signed, to_le}
use virt_ue_sensing.Base.Exec.{ok}
use virt_ue_sensing.Flt.Layout.{sizeof, number, field, field_from, offset_of, bytes_at}
use virt_ue_sensing.Flt.Layout.Packing.{zeros, pack, value_of, field-pack}
use virt_ue_sensing.Flt.Structs.{client_id, command_message, filter_reply_header}
use virt_ue_sensing.Flt.Enums.{sensor_type_names, name_of}
use virt_ue_sensing.Flt.Decode.{Tuple, text, str_at, int_at, long_long_to_hex}
use virt_ue_sensing.Flt.Build.{build_message, sensor_type_of, packet_decode_header}
use virt_ue_sensing.Flt.Build.Header.{DriverHeader, IsDriverHeader, origin_of}
use virt_ue_sensing.Flt.Build.Thread.{
  NewThread, IsNewThread, thread_message, build_thread_create-thread_message,
}
use virt_ue_sensing.Flt.Build.Outcome.{packet_decode_header_lem}
use virt_ue_sensing.Flt.Build.Process.{build_thread_create}
use virt_ue_sensing.Flt.Command.{
  result, configure_sensor, Driver, SensorId, send_configure_sensor, filter_send_message,
  command_buffer, enumerate_sensors, response_of,
}
use virt_ue_sensing.Flt.Command.Layout.{IsCommand, send_configure_sensor_lem}
use virt_ue_sensing.Flt.Message.{
  arrived, failed, packet_of, filter_get_message, reply_buffer, apacket_decode,
}
use virt_ue_sensing.Flt.Message.Reply.{reply_buffer_lem}
use virt_ue_sensing.Flt.Message.Wait.{filter_get_message-poll}
use virt_ue_sensing.Flt.Message.Loop.{IsRun, apacket_decode-IsRun}
use virt_ue_sensing.Flt.Sensors.{enumerate}
use virt_ue_sensing.Flt.Sensors.Bound.{enumerate-bound, entries_number}

-- Decoders that know no text, so that every other byte is taken.
abbrev no_text : Text → Option Text
no_text b = none

abbrev an_id : Text
an_id = 1 ∷ 2 ∷ 3 ∷ 4 ∷ 5 ∷ 6 ∷ 7 ∷ 8 ∷ 9 ∷ 10 ∷ 11 ∷ 12 ∷ 13 ∷ 14 ∷ 15 ∷ 16 ∷ []

abbrev a_header : DriverHeader
a_header = record { id = an_id; sensor_type = 4; size = 88; gmt = 1000; list_entry = zeros 16 }

a_header-IsDriverHeader : IsDriverHeader a_header
a_header-IsDriverHeader = record {
  id = refl;
  sensor_type = omega arith;
  size = omega arith;
  gmt = omega arith;
  list_entry = refl;
}

abbrev a_thread : NewThread
a_thread = record {
  pid = 4;
  tid = 8;
  win32_start = 0xffff800000001000;
  start = 0x1000;
  is_start_valid = 1;
}

a_thread-IsNewThread : IsNewThread a_thread
a_thread-IsNewThread = record {
  pid = omega arith;
  tid = omega arith;
  win32_start = omega arith;
  start = omega arith;
  is_start_valid = omega arith;
}

abbrev thread_tuple : Tuple
thread_tuple =
    origin_of a_header (codes "ThreadCreate")
    ++ (int_at "ProcessId" (signed 64 4)
        ∷ int_at "ThreadId" (signed 64 8)
        ∷ str_at "Win32StartAddress" (long_long_to_hex (signed 64 0xffff800000001000))
        ∷ str_at "StartAddress" (long_long_to_hex (signed 64 0x1000))
        ∷ int_at "IsStartAddressValid" (signed 8 1)
        ∷ [])

build_thread_create-thread_message_example :
    build_thread_create (thread_message a_header a_thread (codes "rest")) ≡ ok thread_tuple
build_thread_create-thread_message_example =
    build_thread_create-thread_message (codes "rest") a_header a_thread a_header-IsDriverHeader refl
      a_thread-IsNewThread

packet_decode_header_lem_example :
    (name : Text) × (name_of sensor_type_names
        (sensor_type_of (thread_message a_header a_thread []))
      ≡ ok name)
    × (get (codes "sensor_type") thread_tuple ≡ some (text name))
unfolding packet_decode_header get field_from sizeof pack build_message
packet_decode_header_lem_example =
    (packet_decode_header_lem no_text no_text (thread_message a_header a_thread [])).0 thread_tuple
      refl

field-pack_example :
    field client_id
      (codes "UniqueThread")
      (pack 0 client_id (to_le 8 4 ∷ to_le 8 300 ∷ []) ++ codes "more")
    ≡ to_le 8 300
unfolding value_of text_eq
field-pack_example =
    field-pack (codes "UniqueThread") (codes "more") client_id (to_le 8 4 ∷ to_le 8 300 ∷ [])
      (refl, omega arith, (refl, omega arith, tt))

send_configure_sensor_lem_example :
    (b : Text) × ((driver : Driver)
      → send_configure_sensor some driver (some (codes "{}")) (SensorId.uuid an_id)
        ≡ filter_send_message driver b)
    × IsCommand configure_sensor 2 b
    × (field command_message (codes "sensor_id") b ≡ an_id)
    × (bytes_at (offset_of command_message (codes "Data")) 2 b ≡ codes "{}")
send_configure_sensor_lem_example =
    send_configure_sensor_lem some (codes "{}") (codes "{}") (SensorId.uuid an_id) an_id refl refl
      refl (omega arith) (omega arith) (omega arith)

reply_buffer_lem_example :
    (length (reply_buffer 0 7 (codes "Response to Message Id 7\n") 30) ≡ 30)
    × (number filter_reply_header
          (codes "Status")
          (reply_buffer 0 7 (codes "Response to Message Id 7\n") 30)
        ≡ 0)
    × (number filter_reply_header
          (codes "MessageId")
          (reply_buffer 0 7 (codes "Response to Message Id 7\n") 30)
        ≡ 7)
    × (drop (sizeof filter_reply_header) (reply_buffer 0 7 (codes "Response to Message Id 7\n") 30)
        ≡ codes "age Id 7\n" ++ zeros 5)
unfolding sizeof
reply_buffer_lem_example =
    reply_buffer_lem 0 7 30 (codes "Response to Message Id 7\n") (omega arith) (omega arith)
      (omega arith) (omega arith)

abbrev looked : Text
looked = to_le 4 50 ++ zeros 4 ++ to_le 8 3 ++ codes "packet"

filter_get_message-poll_example :
    filter_get_message (failed 0x800703e5 (zeros 16 ∷ zeros 16 ∷ looked ∷ []))
    ≡ some (ok (packet_of looked))
unfolding field_from sizeof text_eq
filter_get_message-poll_example =
    filter_get_message-poll 0x800703e5 (zeros 16 ∷ zeros 16 ∷ []) [] looked refl (refl, (refl, tt))
      (λ e. ground (arith, e))

apacket_decode-IsRun_example :
    IsRun (apacket_decode no_text no_text (λ b. result 0) (arrived 0 looked ∷ []))
apacket_decode-IsRun_example =
    apacket_decode-IsRun no_text no_text (λ b. result 0) (arrived 0 looked ∷ [])

abbrev no_answer : Driver
no_answer cmd = record { res = result 0; bytes_returned = 4; written = to_le 4 2 }

enumerate-bound_example :
    (length (enumerate (λ n. ok []) no_answer).sensors ≤ 39)
    × ((enumerate (λ n. ok []) no_answer).raised ≡ none
        → length (enumerate (λ n. ok []) no_answer).sensors
          ≡ entries_number (response_of (no_answer (command_buffer enumerate_sensors 0))))
enumerate-bound_example = enumerate-bound (λ n. ok []) no_answer
