-- ===== src/Wrapper.antt =====
-- The sensor wrapper (sensors/wrapper/sensor_wrapper.py), which gives a sensor its identity, its keys,
-- its registration with the Sensing API and its actuation server.
pub mod Options
pub mod Properties
pub mod Fingerprint
pub mod Identity
pub mod Api
pub mod Register
pub mod Http
pub mod Routes
pub mod Main
pub mod Files
mod Tests
