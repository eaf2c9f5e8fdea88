-- ===== src/Flt/Command.antt =====
-- The commands that the sensor sends to the driver (`FilterSendMessage` and the functions behind it
-- in sensors/ntfltmgr/ntfltmgr.py). A driver is a parameter: what it answers to a message.
pub mod Layout
use virt_ue_sensing.Base.{ℕ, ◌+◌, ◌%◌, Option, none, some, ltb, ◌==◌, if◌then◌else◌, length, take}
use virt_ue_sensing.Base.Text.{Text, codes}
use virt_ue_sensing.Base.Number.{to_decimal}
use virt_ue_sensing.Base.Bytes.{to_le}
use virt_ue_sensing.Base.Exec.{
  Result, ok, err, or_raise, value_error, attribute_error, unicode_error,
}
use virt_ue_sensing.Base.Fallible.{◌>>=◌}
use virt_ue_sensing.Flt.Layout.{sizeof}
use virt_ue_sensing.Flt.Layout.Packing.{zeros}
use virt_ue_sensing.Flt.Structs.{command_message}
use virt_ue_sensing.Flt.Buffer.{overwrite, assign}

-- `MAXRSPSZ`
abbrev pub max_rsp_sz : ℕ
max_rsp_sz = 0x1000

-- `WVU_COMMAND`
pub data WvuCommand : Type 0 where
  echo enable_probe disable_probe enable_unload disable_unload : WvuCommand
  enumerate_sensors configure_sensor one_shot_kill : WvuCommand

abbrev pub command_number : WvuCommand → ℕ
command_number echo = 0
command_number enable_probe = 1
command_number disable_probe = 2
command_number enable_unload = 3
command_number disable_unload = 4
command_number enumerate_sensors = 5
command_number configure_sensor = 6
command_number one_shot_kill = 7

-- What a call of the driver comes to: the result, or the `winerror` of an `OSError`.
pub data Hresult : Type 0 where
  result : ℕ → Hresult
  winerror : ℕ → Hresult

-- The code that the callers go on with.
abbrev pub code_of : Hresult → ℕ
code_of (result n) = n
code_of (winerror n) = n % 0x10000

-- The answer to a command, with `bytes_returned` and what was written into the response buffer.
pub record Answer : Type 0 where
  pub res : Hresult
  pub bytes_returned : ℕ
  pub written : Text

abbrev pub Driver : Type 0
Driver = Text → Answer

-- The response buffer has room for `max_rsp_sz` bytes.
abbrev pub rsp_buf : Answer → Text
rsp_buf a = overwrite 0 (take max_rsp_sz a.written) (zeros max_rsp_sz)

abbrev pub bufsz : Answer → ℕ
bufsz a = if ltb a.bytes_returned max_rsp_sz then a.bytes_returned else max_rsp_sz

abbrev pub response_of : Answer → Text
response_of a = take (bufsz a) (rsp_buf a)

-- `FilterSendMessage`
unfoldable pub filter_send_message : Driver → Text → Result (ℕ × Text)
filter_send_message driver cmd_buf =
    if length cmd_buf == 0
    then err value_error
    else ok (code_of (driver cmd_buf).res, response_of (driver cmd_buf))

-- A command with room for `extra` bytes of data, its number and the size of its data filled in.
unfoldable pub command_buffer : WvuCommand → ℕ → Text
unfolding sizeof
command_buffer cmd extra = assign command_message (codes "DataSz") (to_le 8 extra) (
    assign command_message (codes "Command") (to_le 4 (command_number cmd))
      (zeros (sizeof command_message + extra)))

-- A sensor's id: a `uuid.UUID` with its bytes, or a number, such as the default 0.
pub data SensorId : Type 0 where
  uuid : Text → SensorId
  number : ℕ → SensorId

-- `sensor_id.bytes`
abbrev pub bytes_of : SensorId → Result Text
bytes_of (uuid b) = ok b
bytes_of (number n) = err attribute_error

-- `Echo`, `EnableUnload` and `DisableUnload`
abbrev plain_command : WvuCommand → Driver → Result (ℕ × Text)
plain_command cmd driver = filter_send_message driver (command_buffer cmd 0)

unfoldable pub send_echo : Driver → Result (ℕ × Text)
send_echo = plain_command echo

unfoldable pub send_enable_unload : Driver → Result (ℕ × Text)
send_enable_unload = plain_command enable_unload

unfoldable pub send_disable_unload : Driver → Result (ℕ × Text)
send_disable_unload = plain_command disable_unload

unfoldable pub probe_buffer : WvuCommand → Text → Text
probe_buffer cmd id = assign command_message (codes "sensor_id") id (command_buffer cmd 0)

abbrev probe_command : WvuCommand → Driver → SensorId → Result (ℕ × Text)
probe_command cmd driver sensor_id = do
  id ← bytes_of sensor_id
  filter_send_message driver (probe_buffer cmd id)

unfoldable pub send_enable_probe : Driver → SensorId → Result (ℕ × Text)
send_enable_probe = probe_command enable_probe

unfoldable pub send_disable_probe : Driver → SensorId → Result (ℕ × Text)
send_disable_probe = probe_command disable_probe

unfoldable pub kill_buffer : ℕ → Text
kill_buffer pid =
    let pid_str = to_decimal pid in
    assign command_message (codes "Data") pid_str (command_buffer one_shot_kill (length pid_str))

-- `OneShotKill`
unfoldable pub send_one_shot_kill : Driver → ℕ → Result (ℕ × Text)
send_one_shot_kill driver pid = filter_send_message driver (kill_buffer pid)

-- The size of the data is that of the text in characters.
unfoldable pub configure_buffer : ℕ → Text → Text → Text
configure_buffer size id data_bytes =
    assign command_message (codes "Data") (take size data_bytes)
      (assign command_message (codes "sensor_id") id (command_buffer configure_sensor size))

-- `encode` is `str.encode('utf-8')`; `none` is a `UnicodeEncodeError`.
module _ (encode : Text → Option Text) where
  -- `ConfigureSensor`; `none` stands for `None`.
  unfoldable pub send_configure_sensor : Driver → Option Text → SensorId → Result (ℕ × Text)
  send_configure_sensor driver none sensor_id = err value_error
  send_configure_sensor driver (some cfgdata) sensor_id =
      if length cfgdata == 0 then err value_error else do
        id ← bytes_of sensor_id
        bytes ← or_raise unicode_error (encode cfgdata)
        filter_send_message driver (configure_buffer (length cfgdata) id bytes)
