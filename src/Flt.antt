-- ===== src/Flt.antt =====
-- The Windows filter manager client (sensors/ntfltmgr/ntfltmgr.py): the messages of the driver are
-- decoded, and commands are sent to it.
pub mod Layout
pub mod Structs
pub mod Enums
pub mod Decode
pub mod Buffer
pub mod Command
pub mod Message
pub mod Sensors
pub mod Find
pub mod Build
mod Tests
