-- ===== src/Nfs/Handler.antt =====
-- What the sensor reports of a call and its reply
-- (targets/nfs-sensor-target/sensor/nfs_packet_handler.py).
pub mod Procs
pub mod Reports
use virt_ue_sensing.Base.{
  ℕ, Bool, true, false, Option, none, some, List, [], ◌∷◌, ◌==◌, if◌then◌else◌, Eq,
}
use virt_ue_sensing.Base.Text.{Text, codes}
use virt_ue_sensing.Base.Exec.{Result, ok, err, Exec, pure, lift, gets, ◌>>=◌, ◌>>◌, key_error}
use virt_ue_sensing.Nfs.Const.{mountd, nfs}
use virt_ue_sensing.Nfs.Const.Mount3
use virt_ue_sensing.Nfs.Const.Nfs3
use virt_ue_sensing.Nfs.Packet.{FHandle, NfsPath, RpcCall, RpcReply, RpcHeader, Pkt}
use virt_ue_sensing.Nfs.Report.{Report}
use virt_ue_sensing.Nfs.State.{State, update_state}
use Procs.{nfs3_handler, mount3_handler}

module _ ⦃fe : Eq FHandle⦄ ⦃pe : Eq NfsPath⦄ where
  -- The handler for a reply, by the program of its call; other programs are ignored.
  unfoldable pub handle_reply : RpcCall → RpcReply → State → Result (Option Report)
  handle_reply c r s =
      if c.prog == mountd
      then mount3_handler c r
      else if c.prog == nfs
      then nfs3_handler c r s
      else ok none

  -- `if parse: ...`
  abbrev pub handle_for : Option RpcCall → RpcReply → State → Result (Option Report)
  handle_for none r s = ok none
  handle_for (some c) r s = handle_reply c r s

  unfoldable pub handle_pkt : Pkt → State → Result (Option Report)
  unfolding handle_reply
  handle_pkt none s = ok none
  handle_pkt (some header) s = handle_for header.rpc_call header.reply s

  -- `_handler_core`, which `pkt_handler_standard` returns: a handler that raises leaves the state
  -- monitor as it was.
  unfoldable pub handler_core : Pkt → Exec State (Option Report)
  unfolding handle_pkt update_state
  handler_core pkt = do res ← λ s. (handle_pkt pkt s, s); update_state pkt; pure res
