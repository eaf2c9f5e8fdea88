-- ===== src/Nfs/Report.antt =====
-- The events that the handlers return (targets/nfs-sensor-target/sensor/nfs_packet_handler.py): a
-- level and a dictionary, here the values of its keys in the order of the source.
use virt_ue_sensing.Base.{ℕ}
use virt_ue_sensing.Base.Text.{Text}

-- `debug_level` and `info_level`
pub data Level : Type 0 where
  debug info : Level

pub data Value : Type 0 where
  none_value : Value
  text : Text → Value
  num : ℕ → Value

-- The keys that some events have besides the common ones.
pub data Extra : Type 0 where
  no_extra : Extra
  new_attr : Text → Extra
  access : Value → Extra
  target : Value → Extra

pub record Report : Type 0 where
  pub level : Level
  pub proto : Text
  pub command : Text
  pub path : Value
  pub who : Value
  pub status : Value
  pub extra : Extra
