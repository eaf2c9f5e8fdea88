-- ===== src/Flt/Command/Layout.antt =====
-- What the driver finds in a command.
use virt_ue_sensing.Base.{
  some, Option, ℕ, zero, suc, [], ◌∷◌, ◌+◌, ◌^◌, ◌≡◌, ◌≤◌, ◌<◌, refl, ap, ◌∙◌, arith, length, take,
}
use virt_ue_sensing.Base.Text.{Text, codes, text_eq}
use virt_ue_sensing.Base.Number.{to_decimal}
use virt_ue_sensing.Base.Bytes.{le, to_le, Fits, le-to_le, length-to_le}
use virt_ue_sensing.Flt.Layout.{offset_of, sizeof, number, field, bytes_at, offset_from, field_from}
use virt_ue_sensing.Flt.Layout.Packing.{zeros, length-zeros}
use virt_ue_sensing.Flt.Structs.{command_message}
use virt_ue_sensing.Flt.Buffer.{
  overwrite, length-overwrite, bytes_at-overwrite, drop-overwrite, bytes_at-overwrite_before,
}
use virt_ue_sensing.Flt.Command.{
  filter_send_message, Driver, ok, bytes_of, SensorId, send_configure_sensor, WvuCommand,
  command_number, command_buffer, kill_buffer, configure_buffer, probe_buffer, one_shot_kill,
  configure_sensor,
}
use virt_ue_sensing.Flt.Build.Header.{Fits-bound_8}

-- The buffer with only its first field.
abbrev first_field : ℕ → ℕ → Text
first_field n extra = overwrite 0 (to_le 4 n) (zeros (40 + extra))

length-first_field : (n extra : ℕ) → length (first_field n extra) ≡ 40 + extra
length-first_field n extra =
    let z = length-zeros (40 + extra) in
    length-overwrite 0 (to_le 4 n) (zeros (40 + extra)) (omega (arith, z, length-to_le 4 n)) ∙ z

Fits-command_number : (cmd : WvuCommand) → Fits 4 (command_number cmd)
Fits-command_number cmd = ground arith

-- The bytes of the two fields that every command has.
record IsRaw (cmd : WvuCommand) (size : ℕ) (b : Text) : Type 0 where
  command : bytes_at 0 4 b ≡ to_le 4 (command_number cmd)
  data_size : bytes_at 24 8 b ≡ to_le 8 size
  all : length b ≡ 40 + size

command_buffer-IsRaw : (cmd : WvuCommand) (size : ℕ) → IsRaw cmd size (command_buffer cmd size)
unfolding command_buffer sizeof offset_from text_eq
command_buffer-IsRaw cmd size =
    let b = first_field (command_number cmd) size in
    let l = length-first_field (command_number cmd) size in
    record {
      command = bytes_at-overwrite_before 0 4 24 (to_le 8 size) b (omega arith);
      data_size = bytes_at-overwrite 24 (to_le 8 size) b (omega (arith, l));
      all = length-overwrite 24 (to_le 8 size) b (omega (arith, l, length-to_le 8 size)) ∙ l;
    }

pub length-command_buffer :
    (cmd : WvuCommand) (size : ℕ) → length (command_buffer cmd size) ≡ 40 + size
length-command_buffer cmd size = (command_buffer-IsRaw cmd size).all

-- A buffer with the number of a command and the size of its data.
pub record IsCommand (cmd : WvuCommand) (size : ℕ) (b : Text) : Type 0 where
  pub command : number command_message (codes "Command") b ≡ command_number cmd
  pub data_size : number command_message (codes "DataSz") b ≡ size
  pub all : length b ≡ sizeof command_message + size

IsRaw-IsCommand :
    (cmd : WvuCommand) (size : ℕ) (b : Text)
    → size < 2 ^ 64
    → IsRaw cmd size b
    → IsCommand cmd size b
unfolding field_from text_eq sizeof
IsRaw-IsCommand cmd size b h r = record {
  command = ap le r.command ∙ le-to_le 4 (command_number cmd) (Fits-command_number cmd);
  data_size = ap le r.data_size ∙ le-to_le 8 size (Fits-bound_8 size h);
  all = r.all;
}

-- A write to the id, or behind the size, keeps them.
overwrite_id-IsRaw :
    (cmd : WvuCommand) (size : ℕ) (id b : Text)
    → length id ≡ 16
    → IsRaw cmd size b
    → IsRaw cmd size (overwrite 4 id b)
overwrite_id-IsRaw cmd size id b h r = record {
  command = bytes_at-overwrite_before 0 4 4 id b (omega arith) ∙ r.command;
  data_size = ap (λ t. take 8 t) (drop-overwrite 24 4 id b (omega (arith, h))) ∙ r.data_size;
  all = length-overwrite 4 id b (omega (arith, h, r.all)) ∙ r.all;
}

overwrite_data-IsRaw :
    (cmd : WvuCommand) (size : ℕ) (v b : Text)
    → length v ≤ size
    → IsRaw cmd size b
    → IsRaw cmd size (overwrite 32 v b)
overwrite_data-IsRaw cmd size v b h r = record {
  command = bytes_at-overwrite_before 0 4 32 v b (omega arith) ∙ r.command;
  data_size = bytes_at-overwrite_before 24 8 32 v b (omega arith) ∙ r.data_size;
  all = length-overwrite 32 v b (omega (arith, h, r.all)) ∙ r.all;
}

bytes_at-overwrite_whole :
    (p k : ℕ) (v b : Text) → length v ≡ k → p + k ≤ length b → bytes_at p k (overwrite p v b) ≡ v
bytes_at-overwrite_whole p k v b e h = rw (← e) (bytes_at-overwrite p v b (omega (arith, e, h)))

-- The driver reads from the buffer of `EnableProbe` and `DisableProbe` the number of the command, no
-- data and the sensor's id.
pub probe_buffer_lem :
    (cmd : WvuCommand) (id : Text)
    → length id ≡ 16
    → IsCommand cmd 0 (probe_buffer cmd id)
      × (field command_message (codes "sensor_id") (probe_buffer cmd id) ≡ id)
unfolding probe_buffer field_from offset_from text_eq sizeof
probe_buffer_lem cmd id h =
    let r = command_buffer-IsRaw cmd 0 in
    (
      IsRaw-IsCommand cmd 0 _ (omega arith)
          (overwrite_id-IsRaw cmd 0 id (command_buffer cmd 0) h r),
      bytes_at-overwrite_whole 4 16 id (command_buffer cmd 0) h (omega (arith, r.all)),
    )

-- The driver reads from the buffer of `OneShotKill` the digits of the process id as the data, and
-- their number as its size.
pub kill_buffer_lem :
    (pid : ℕ)
    → length (to_decimal pid) < 2 ^ 64
    → IsCommand one_shot_kill (length (to_decimal pid)) (kill_buffer pid)
      × (bytes_at
            (offset_of command_message (codes "Data"))
            (length (to_decimal pid))
            (kill_buffer pid)
          ≡ to_decimal pid)
unfolding kill_buffer offset_from text_eq sizeof
kill_buffer_lem pid h =
    let digits = to_decimal pid in
    let size = length digits in
    let b = command_buffer one_shot_kill size in
    let r = command_buffer-IsRaw one_shot_kill size in
    (
      IsRaw-IsCommand one_shot_kill size (overwrite 32 digits b) h
          (overwrite_data-IsRaw one_shot_kill size digits b (omega arith) r),
      bytes_at-overwrite 32 digits b (omega (arith, r.all)),
    )

length-take : (n : ℕ) (s : Text) → n ≤ length s → length (take n s) ≡ n
length-take zero s h = refl
length-take (suc n) [] h = absurd (omega arith)
length-take (suc n) (x ∷ s) h = omega (arith, length-take n s)

-- What the driver reads from the buffer of `ConfigureSensor`.
configure_buffer_lem :
    (size : ℕ) (id encoded : Text)
    → size < 2 ^ 64
    → length id ≡ 16
    → size ≤ length encoded
    → IsCommand configure_sensor size (configure_buffer size id encoded)
      × (field command_message (codes "sensor_id") (configure_buffer size id encoded) ≡ id)
      × (bytes_at (offset_of command_message (codes "Data")) size (configure_buffer size id encoded)
          ≡ take size encoded)
unfolding configure_buffer field_from offset_from text_eq sizeof
configure_buffer_lem size id encoded h i f =
    let v = take size encoded in
    let l = length-take size encoded f in
    let b = command_buffer configure_sensor size in
    let r = command_buffer-IsRaw configure_sensor size in
    let s = overwrite_id-IsRaw configure_sensor size id b i r in
    (
      IsRaw-IsCommand configure_sensor size (overwrite 32 v (overwrite 4 id b)) h
          (overwrite_data-IsRaw configure_sensor size v (overwrite 4 id b) (omega (arith, l)) s),
      bytes_at-overwrite_before 4 16 32 v (overwrite 4 id b) (omega arith)
          ∙ bytes_at-overwrite_whole 4 16 id b i (omega (arith, r.all)),
      bytes_at-overwrite_whole 32 size v (overwrite 4 id b) l (omega (arith, s.all)),
    )

-- `ConfigureSensor` with a text that encodes, has at least one character and at most as many as its encoding has
-- bytes, sends the driver one buffer. The driver reads from it the command and the sensor's id, as the size of the data
-- the number of characters of the text, and as the data so many of the encoded bytes, the first ones.
pub send_configure_sensor_lem :
    (encode : Text → Option Text) (cfgdata encoded : Text) (sensor_id : SensorId) (id : Text)
    → bytes_of sensor_id ≡ ok id
    → length id ≡ 16
    → encode cfgdata ≡ some encoded
    → 0 < length cfgdata
    → length cfgdata < 2 ^ 64
    → length cfgdata ≤ length encoded
    → (b : Text) × ((driver : Driver)
        → send_configure_sensor encode driver (some cfgdata) sensor_id
          ≡ filter_send_message driver b)
      × IsCommand configure_sensor (length cfgdata) b
      × (field command_message (codes "sensor_id") b ≡ id)
      × (bytes_at (offset_of command_message (codes "Data")) (length cfgdata) b
          ≡ take (length cfgdata) encoded)
unfolding send_configure_sensor
send_configure_sensor_lem encode cfgdata encoded sensor_id id i sixteen e some_text short fits =
    let (command, its_id, its_data) =
      configure_buffer_lem (length cfgdata) id encoded short sixteen fits in
    (
      configure_buffer (length cfgdata) id encoded,
      (λ driver. ground (arith, i, e, some_text)),
      command,
      its_id,
      its_data,
    )
