-- ===== src/Nfs/Handler/Reports.antt =====
-- Which exchanges are reported, and that the rest raise.

use Prim.Native.String.{String}
use virt_ue_sensing.Base.{
  ◌≢◌, if◌then◌else◌, ℕ, ◌≡◌, refl, true, false, Option, some, none, Eq, arith, Option-cases, inl,
  inr, nat_Eq, ◌==◌, ◌||◌, Bool,
}
use virt_ue_sensing.Base.Exec.{then_result, Result, ok, err}
use virt_ue_sensing.Base.Number.{to_decimal}
use virt_ue_sensing.Base.Text.{Text, codes}
use virt_ue_sensing.Base.Dict.{get, contains, contains-eq-get}
use virt_ue_sensing.Nfs.Const.Nfs3
use virt_ue_sensing.Nfs.Classes.{IsNfsExchange, nfs3_call_fits, nfs3_reply_fits}
use virt_ue_sensing.Nfs.Packet.{
  reply_access, reply_path, str_path, FHandle, NfsPath, packet, int, RpcCall, RpcReply, CallBody,
  ReplyBody, plain_call, getattr_call, access_call, readlink_call, read_call, write_call,
  readdir_call, readdirplus_call, setattr_call, lookup_call, create_call, mkdir_call, remove_call,
  rmdir_call, symlink_call, mknod_call, rename_call, link_call, fsstat_call, fsinfo_call,
  commit_call, pathconf_call, mnt_call, umnt_call, plain_reply, status_reply, lookup_reply_ok,
  handle_reply_ok, access_reply_ok, readlink_reply_ok, link_reply, mnt_reply_ok, mnt_reply_fail,
}
use virt_ue_sensing.Nfs.Report.{
  target, num, new_attr, none_value, Extra, no_extra, Value, text, Report,
}
use virt_ue_sensing.Nfs.State.{State, get_path, dir_entry, dir_class_entry}
use virt_ue_sensing.Nfs.Handler.{handle_reply}
use virt_ue_sensing.Nfs.Handler.Procs.{if_success, nfs3_handler, nfs_event, reply_status}

-- The handlers that never return.
abbrev pub unreported : ℕ → Bool
unreported p = (p == Nfs3.mknod) || (p == Nfs3.link)

pub data Outcome : Type 0 where
  reported silent raised : Outcome

abbrev pub outcome : Result (Option Report) → Outcome
outcome (ok (some e)) = reported
outcome (ok none) = silent
outcome (err x) = raised

-- The reply's status is one that `Nfs3_ValStatMap` names, or a plain number.
abbrev pub status_known : ReplyBody → Bool
status_known (status_reply (packet v)) = contains v Nfs3.val_stat_map
status_known _ = true

-- The replies that have no field `nfs_status`.
abbrev no_status : ReplyBody → Bool
no_status plain_reply = true
no_status (link_reply post) = true
no_status (mnt_reply_ok h) = true
no_status (mnt_reply_fail v) = true
no_status _ = false

-- Where the reply has a status with a name, `str( rpc_reply.nfs_status )` returns.
reply_status-returns :
    (r : RpcReply) (b : ReplyBody)
    → r.body ≡ b
    → status_known b ≡ true
    → no_status b ≡ false
    → (t : Text) × (reply_status r ≡ ok t)
unfolding reply_status
reply_status-returns r (status_reply (packet v)) e k n =
    elim (Option-cases (get v Nfs3.val_stat_map)) [
      | inl absent ↦ absurd (ground (arith, contains-eq-get v Nfs3.val_stat_map))
      | inr (t, g) ↦ (t, ground arith)
    ]
reply_status-returns r (status_reply (int v)) e k n = (to_decimal v, ground arith)
reply_status-returns r (lookup_reply_ok h) e k n = (codes "NFS3_OK", ground arith)
reply_status-returns r (handle_reply_ok h) e k n = (codes "NFS3_OK", ground arith)
reply_status-returns r (access_reply_ok h) e k n = (codes "NFS3_OK", ground arith)
reply_status-returns r (readlink_reply_ok h) e k n = (codes "NFS3_OK", ground arith)
reply_status-returns r _ e k n = absurd (ground arith)

-- An NFS event is built exactly when the status can be printed.
nfs_event-returns :
    (cmd : String) (path : Value) (c : RpcCall) (r : RpcReply) (extra : Extra)
    → status_known r.body ≡ true
    → no_status r.body ≡ false
    → outcome (nfs_event cmd path c r extra) ≡ reported
unfolding nfs_event
nfs_event-returns cmd path c r extra k n =
    let (t, e) = reply_status-returns r r.body refl k n in ground (arith, e)

nfs_event-raises :
    (cmd : String) (path : Value) (c : RpcCall) (r : RpcReply) (extra : Extra)
    → no_status r.body ≡ true
    → outcome (nfs_event cmd path c r extra) ≡ raised
unfolding nfs_event reply_status
nfs_event-raises cmd path c r extra n = ground arith

-- The reply classes of the procedures that have a handler which returns have a status.
has_status :
    (p : ℕ) (b : ReplyBody)
    → nfs3_reply_fits p b ≡ true
    → p ≢ Nfs3.null
    → unreported p ≡ false
    → no_status b ≡ false
unfolding nfs3_reply_fits
has_status p plain_reply f n u = absurd (ground arith)
has_status p (status_reply (packet v)) f n u = refl
has_status p (status_reply (int v)) f n u = refl
has_status p _ f n u = ground arith

mknod_status :
    (p : ℕ) (b : ReplyBody) → nfs3_reply_fits p b ≡ true → p ≡ Nfs3.mknod → no_status b ≡ true
unfolding nfs3_reply_fits
mknod_status p plain_reply f e = refl
mknod_status p (status_reply (packet v)) f e = absurd (ground arith)
mknod_status p (status_reply (int v)) f e = absurd (ground arith)
mknod_status p _ f e = ground arith

event_reported :
    (cmd : String) (path : Value) (c : RpcCall) (r : RpcReply) (extra : Extra)
    → nfs3_reply_fits c.proc r.body ≡ true
    → status_known r.body ≡ true
    → c.proc ≢ Nfs3.null
    → unreported c.proc ≡ false
    → outcome (nfs_event cmd path c r extra) ≡ reported
event_reported cmd path c r extra g k z u =
    nfs_event-returns cmd path c r extra k (has_status c.proc r.body g z u)

access_value : RpcReply → Result Value
access_value r = if_success r (then_result (reply_access r.body) λ a. ok (num a))

readlink_value : RpcReply → Result Value
readlink_value r = if_success r (then_result (reply_path r.body) λ p. ok (text (str_path p)))

access_value-returns :
    (p : ℕ) (r : RpcReply) (b : ReplyBody)
    → r.body ≡ b
    → p ≡ Nfs3.access
    → nfs3_reply_fits p b ≡ true
    → (v : Value) × (access_value r ≡ ok v)
unfolding nfs3_reply_fits access_value
access_value-returns p r (status_reply (packet v)) e q f = (none_value, ground arith)
access_value-returns p r (access_reply_ok a) e q f = (num a, ground arith)
access_value-returns p r _ e q f = absurd (ground arith)

readlink_value-returns :
    (p : ℕ) (r : RpcReply) (b : ReplyBody)
    → r.body ≡ b
    → p ≡ Nfs3.readlink
    → nfs3_reply_fits p b ≡ true
    → (v : Value) × (readlink_value r ≡ ok v)
unfolding nfs3_reply_fits readlink_value
readlink_value-returns p r (status_reply (packet v)) e q f = (none_value, ground arith)
readlink_value-returns p r (readlink_reply_ok x) e q f = (text (str_path x), ground arith)
readlink_value-returns p r _ e q f = absurd (ground arith)

module _ ⦃fe : Eq FHandle⦄ ⦃pe : Eq NfsPath⦄ where
  reported_by_class :
      (c : RpcCall) (r : RpcReply) (s : State) (b : CallBody)
      → c.body ≡ b
      → nfs3_call_fits c.proc b ≡ true
      → nfs3_reply_fits c.proc r.body ≡ true
      → status_known r.body ≡ true
      → outcome (nfs3_handler c r s) ≡ (if unreported c.proc then raised else reported)
  unfolding nfs3_handler nfs3_call_fits access_value readlink_value
  reported_by_class c r s plain_call e f g k = ground arith
  reported_by_class c r s (getattr_call h) e f g k =
      ground (arith, event_reported "getattr" (text (get_path s h)) c r no_extra g k)
  reported_by_class c r s (read_call h) e f g k =
      ground (arith, event_reported "read" (text (get_path s h)) c r no_extra g k)
  reported_by_class c r s (write_call h) e f g k =
      ground (arith, event_reported "write" (text (get_path s h)) c r no_extra g k)
  reported_by_class c r s (readdir_call h) e f g k =
      ground (arith, event_reported "readdir" (text (get_path s h)) c r no_extra g k)
  reported_by_class c r s (readdirplus_call h) e f g k =
      ground (arith, event_reported "readdirplus" (text (get_path s h)) c r no_extra g k)
  reported_by_class c r s (fsstat_call h) e f g k =
      ground (arith, event_reported "fsstat" (text (get_path s h)) c r no_extra g k)
  reported_by_class c r s (fsinfo_call h) e f g k =
      ground (arith, event_reported "fsinfo" (text (get_path s h)) c r no_extra g k)
  reported_by_class c r s (pathconf_call h) e f g k =
      ground (arith, event_reported "pathconf" (text (get_path s h)) c r no_extra g k)
  reported_by_class c r s (commit_call h) e f g k =
      ground (arith, event_reported "commit" (text (get_path s h)) c r no_extra g k)
  reported_by_class c r s (setattr_call h a) e f g k =
      ground (arith, event_reported "setattr" (text (get_path s h)) c r (new_attr a) g k)
  reported_by_class c r s (lookup_call d) e f g k =
      ground (arith, event_reported "lookup" (text (dir_entry s d)) c r no_extra g k)
  reported_by_class c r s (create_call d) e f g k =
      ground (arith, event_reported "create" (text (dir_entry s d)) c r no_extra g k)
  reported_by_class c r s (mkdir_call d) e f g k =
      ground (arith, event_reported "mkdir" (text (dir_entry s d)) c r no_extra g k)
  reported_by_class c r s (remove_call d) e f g k =
      ground (arith, event_reported "remove" (text (dir_class_entry s d)) c r no_extra g k)
  reported_by_class c r s (rmdir_call d) e f g k =
      ground (arith, event_reported "rmdir" (text (dir_class_entry s d)) c r no_extra g k)
  reported_by_class c r s (symlink_call d p) e f g k =
      ground (
        arith,
        event_reported "symlink" (text (str_path p)) c r (target (text (dir_entry s d))) g k,
      )
  reported_by_class c r s (rename_call x t) e f g k = ground (
    arith,
    event_reported "rename" (text (dir_entry s x)) c r (target (text (dir_entry s t))) g k,
  )
  reported_by_class c r s (access_call h) e f g k =
      let (v, a) = access_value-returns c.proc r r.body refl (ground arith) g in
      ground (arith, a, event_reported "access" (text (get_path s h)) c r (Extra.access v) g k)
  reported_by_class c r s (readlink_call h) e f g k =
      let (v, a) = readlink_value-returns c.proc r r.body refl (ground arith) g in
      ground (arith, a, event_reported "readlink" (text (get_path s h)) c r (target v) g k)
  reported_by_class c r s mknod_call e f g k =
      let no_field = mknod_status c.proc r.body g (ground arith) in
      ground (arith, nfs_event-raises "mknod" none_value c r no_extra no_field)
  reported_by_class c r s (link_call h d) e f g k = ground arith
  reported_by_class c r s (mnt_call p) e f g k = absurd (ground arith)
  reported_by_class c r s (umnt_call p) e f g k = absurd (ground arith)

  -- Of an NFS call and reply that the dissector paired, with a status that has a name, an event is
  -- returned, except that the handlers of MKNOD and LINK always raise.
  pub handle_reply-nfs :
      (c : RpcCall) (r : RpcReply) (s : State)
      → IsNfsExchange c r
      → status_known r.body ≡ true
      → outcome (handle_reply c r s) ≡ (if unreported c.proc then raised else reported)
  unfolding handle_reply
  handle_reply-nfs c r s x k =
      ground (arith, x.prog, reported_by_class c r s c.body refl x.call x.reply k)
