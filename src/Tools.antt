-- ===== src/Tools.antt =====
-- The sensors that send what the tools of the operating system print (sensors/sensor_ps, sensor_netstat,
-- sensor_lsof, sensor_tasklist, sensor_handlelist, sensor_kernel_ps and sensor_processlist).
pub mod Columns
pub mod Ps
pub mod Netstat
pub mod Lsof
pub mod Handles
pub mod Tasklist
pub mod Kernel
pub mod Processes
mod Tests
