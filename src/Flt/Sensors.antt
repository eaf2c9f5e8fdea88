-- ===== src/Flt/Sensors.antt =====
-- The list of the driver's sensors (`SensorStatus` and `EnumerateSensors` of
-- sensors/ntfltmgr/ntfltmgr.py).
pub mod Bound
use virt_ue_sensing.Base.{
  ℕ, suc, zero, ◌*◌, not, Option, none, some, List, [], ◌∷◌, ◌==◌, if◌then◌else◌, length, drop,
  keep_if,
}
use virt_ue_sensing.Base.Text.{Text, codes, starts_with}
use virt_ue_sensing.Base.Bytes.{ℤ, signed}
use virt_ue_sensing.Base.Exec.{Exc, Result, ok, err, then_result}
use virt_ue_sensing.Base.Fallible.{◌>>=◌}
use virt_ue_sensing.Flt.Layout.{sizeof, number, field, offset_of}
use virt_ue_sensing.Flt.Structs.{sensor_status_header, sensor_status}
use virt_ue_sensing.Flt.Decode.{from_buffer, string_buffer, chars, long_long}
use virt_ue_sensing.Flt.Command.{Driver, filter_send_message, command_buffer, enumerate_sensors}

-- `GetSensorStatus`; the id by its bytes.
pub record Sensor : Type 0 where
  pub sensor_id : Text
  pub last_run_time : ℤ
  pub run_interval : ℤ
  pub operation_count : ℤ
  pub attributes : Text
  pub enabled : Text
  pub sensor_name : Text

-- What a generator yields, and what it raises at the end.
pub record Yields : Type 0 where
  pub sensors : List Sensor
  pub raised : Option Exc

-- The text behind a prefix that it starts with.
abbrev without_prefix : Text → Text → Text
without_prefix p s = if starts_with p s then drop (length p) s else s

abbrev enabled_text : ℕ → Text
enabled_text b = if b == 0 then codes "False" else codes "True"

-- `str_flags` is `str(SensorAttributeFlags(n))`, which raises for a number with unknown flags.
module _ (str_flags : ℕ → Result Text) where
  -- `SensorStatus.build`
  unfoldable pub build_sensor_status : Text → Result Sensor
  unfolding from_buffer chars starts_with
  build_sensor_status msg_pkt = do
    let s = sensor_status
    slc ← from_buffer (offset_of s (codes "SensorName")) 64 (string_buffer msg_pkt)
    name ← chars (keep_if (λ ch. not (ch == 0)) slc)
    flags ← str_flags (number s (codes "Attributes") msg_pkt)
    ok (record {
      sensor_id = field s (codes "sensor_id") msg_pkt;
      last_run_time = long_long s (codes "LastRunTime") msg_pkt;
      run_interval = long_long s (codes "RunInterval") msg_pkt;
      operation_count = signed 32 (number s (codes "OperationCount") msg_pkt);
      attributes = without_prefix (codes "SensorAttributeFlags.") flags;
      enabled = enabled_text (number s (codes "Enabled") msg_pkt);
      sensor_name = name;
    })

  -- The entry at index `ndx` of the buffer behind the header.
  unfoldable pub entry_at : Text → ℕ → Result Sensor
  unfolding from_buffer sizeof
  entry_at sb ndx =
      then_result (from_buffer (ndx * sizeof sensor_status) (sizeof sensor_status) sb)
        build_sensor_status

  -- `cnt` rounds of the loop, the next with index `ndx`.
  unfoldable pub entries_from : Text → ℕ → ℕ → Yields
  entries_from sb ndx zero = record { sensors = []; raised = none }
  entries_from sb ndx (suc cnt) =
      let rest = entries_from sb (suc ndx) cnt in
      elim (entry_at sb ndx) [
        | err x ↦ record { sensors = []; raised = some x }
        | ok s ↦ record { sensors = s ∷ rest.sensors; raised = rest.raised }
      ]

  -- The loop over a response.
  unfoldable pub sensors_of : Text → Yields
  unfolding sizeof
  sensors_of rsp_buf =
      entries_from (string_buffer (drop (sizeof sensor_status_header) rsp_buf)) 0
        (number sensor_status_header (codes "NumberOfEntries") rsp_buf)

  -- `EnumerateSensors`
  unfoldable pub enumerate : Driver → Yields
  enumerate driver = elim (filter_send_message driver (command_buffer enumerate_sensors 0)) [
    | err x ↦ record { sensors = []; raised = some x }
    | ok (res, rsp_buf) ↦ sensors_of rsp_buf
  ]
