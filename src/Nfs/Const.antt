-- ===== src/Nfs/Const.antt =====
-- Numbers of RFC 1831 and RFC 1813 (targets/nfs-sensor-target/sensor/nfs_const.py). The source
-- looks most of them up by name in tables that are inverted when the module is loaded.
pub mod Nfs3
pub mod Mount3
use virt_ue_sensing.Base.{ℕ}

-- `MsgTypeValMap`
abbrev pub msg_call : ℕ
msg_call = 0

abbrev pub msg_reply : ℕ
msg_reply = 1

-- `RPC_ACCEPT_SUCCESS`
abbrev pub rpc_accept_success : ℕ
rpc_accept_success = 0

-- `AcceptStatValMap['PROG_MISMATCH']`
abbrev pub prog_mismatch : ℕ
prog_mismatch = 2

-- `AuthValMap`
abbrev pub auth_null : ℕ
auth_null = 0

abbrev pub auth_unix : ℕ
auth_unix = 1

-- `ProgramValMap`, at the programs that the sensor tests for
abbrev pub portmapper : ℕ
portmapper = 100000

abbrev pub nfs : ℕ
nfs = 100003

abbrev pub mountd : ℕ
mountd = 100005
