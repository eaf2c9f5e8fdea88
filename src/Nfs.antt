-- ===== src/Nfs.antt =====
-- The NFS sensor of targets/nfs-sensor-target/sensor: constants, packets, the state monitor and
-- the packet handlers.
pub mod Const
pub mod Packet
pub mod Key
pub mod Rpc
pub mod Classes
pub mod State
pub mod Report
pub mod Handler
mod Tests
