-- ===== src/Nfs/Handler/Procs.antt =====
-- The handlers of the single procedures
-- (targets/nfs-sensor-target/sensor/nfs_packet_handler.py), and the tables that name them.
use Prim.Native.String.{String}
use virt_ue_sensing.Base.{nat_Eq, Option, none, some, [], ◌==◌, if◌then◌else◌, Eq}
use virt_ue_sensing.Base.Text.{Text, codes, text_eq}
use virt_ue_sensing.Base.Dict.{get}
use virt_ue_sensing.Base.Number.{to_decimal}
use virt_ue_sensing.Base.Exec.{Result, ok, err, then_result, or_raise, key_error, type_error}
use virt_ue_sensing.Nfs.Const.{mountd}
use virt_ue_sensing.Nfs.Const.Mount3
use virt_ue_sensing.Nfs.Const.Nfs3
use virt_ue_sensing.Nfs.Packet.{
  FHandle, NfsPath, NfsStatus, packet, int, RpcCall, RpcReply, str_path, call_handle, call_args,
  call_where, call_symlink_path, call_ffrom, call_fto, call_link, call_root, call_path_handle,
  call_mount_path, call_new_attr, reply_nfs_status, reply_access, reply_path, reply_mount_status,
  success,
}
use virt_ue_sensing.Nfs.Report.{
  Report, debug, info, Value, none_value, text, num, Extra, no_extra, new_attr, access, target,
}
use virt_ue_sensing.Nfs.State.{State, get_path, get_auth_str, dir_entry, dir_class_entry}

-- `str( rpc_reply.nfs_status )`: `NFS3_status.__str__` looks its value up, a number prints itself.
unfoldable pub str_status : NfsStatus → Result Text
unfolding to_decimal Nfs3.val_stat_map get
str_status (packet v) = or_raise key_error (get v Nfs3.val_stat_map)
str_status (int v) = ok (to_decimal v)

unfoldable pub reply_status : RpcReply → Result Text
unfolding str_status
reply_status r = then_result (reply_nfs_status r.body) str_status

-- The dictionary that the NFS handlers build; its `status` is read last.
unfoldable pub nfs_event : String → Value → RpcCall → RpcReply → Extra → Result (Option Report)
unfolding reply_status get_auth_str
nfs_event cmd path c r extra = then_result (reply_status r) λ status. ok (
    some (record {
      level = info;
      proto = codes "nfs";
      command = codes cmd;
      path = path;
      who = text (get_auth_str c);
      status = text status;
      extra = extra;
    }))

-- `_handle_nfs3_null`
abbrev handle_null : Result (Option Report)
handle_null = ok (
    some (record {
      level = debug;
      proto = codes "nfs";
      command = codes "NULL";
      path = none_value;
      who = none_value;
      status = none_value;
      extra = no_extra;
    }))

-- `None` if the operation failed, and else the attribute.
abbrev pub if_success : RpcReply → Result Value → Result Value
if_success r v =
    then_result (reply_nfs_status r.body)
      λ st. then_result (success st) λ done. if done then v else ok none_value

module _ ⦃fe : Eq FHandle⦄ ⦃pe : Eq NfsPath⦄ where
  -- `_handle_nfs3_getattr`
  abbrev pub handle_getattr : RpcCall → RpcReply → State → Result (Option Report)
  handle_getattr c r s =
      then_result (call_handle c.body) λ h. nfs_event "getattr" (text (get_path s h)) c r no_extra

  -- `_handle_nfs3_setattr`
  abbrev pub handle_setattr : RpcCall → RpcReply → State → Result (Option Report)
  handle_setattr c r s = then_result (call_handle c.body) λ h.
      then_result (call_new_attr c.body)
        λ a. nfs_event "setattr" (text (get_path s h)) c r (new_attr a)

  -- `_handle_nfs3_lookup`
  abbrev pub handle_lookup : RpcCall → RpcReply → State → Result (Option Report)
  handle_lookup c r s =
      then_result (call_args c.body) λ d. nfs_event "lookup" (text (dir_entry s d)) c r no_extra

  -- `_handle_nfs3_access`
  abbrev pub handle_access : RpcCall → RpcReply → State → Result (Option Report)
  handle_access c r s = then_result (call_handle c.body) λ h.
      then_result (if_success r (then_result (reply_access r.body) λ a. ok (num a)))
        λ a. nfs_event "access" (text (get_path s h)) c r (access a)

  -- `_handle_nfs3_readlink`
  abbrev pub handle_readlink : RpcCall → RpcReply → State → Result (Option Report)
  handle_readlink c r s = then_result (call_handle c.body) λ h.
      then_result (if_success r (then_result (reply_path r.body) λ p. ok (text (str_path p))))
        λ t. nfs_event "readlink" (text (get_path s h)) c r (target t)

  -- `_handle_nfs3_read`
  abbrev pub handle_read : RpcCall → RpcReply → State → Result (Option Report)
  handle_read c r s =
      then_result (call_handle c.body) λ h. nfs_event "read" (text (get_path s h)) c r no_extra

  -- `_handle_nfs3_write`
  abbrev pub handle_write : RpcCall → RpcReply → State → Result (Option Report)
  handle_write c r s =
      then_result (call_handle c.body) λ h. nfs_event "write" (text (get_path s h)) c r no_extra

  -- `_handle_nfs3_create`
  abbrev pub handle_create : RpcCall → RpcReply → State → Result (Option Report)
  handle_create c r s =
      then_result (call_args c.body) λ d. nfs_event "create" (text (dir_entry s d)) c r no_extra

  -- `_handle_nfs3_mkdir`
  abbrev pub handle_mkdir : RpcCall → RpcReply → State → Result (Option Report)
  handle_mkdir c r s =
      then_result (call_args c.body) λ d. nfs_event "mkdir" (text (dir_entry s d)) c r no_extra

  -- `_handle_nfs3_symlink`
  abbrev pub handle_symlink : RpcCall → RpcReply → State → Result (Option Report)
  handle_symlink c r s = then_result (call_where c.body) λ d.
      then_result (call_symlink_path c.body)
        λ p. nfs_event "symlink" (text (str_path p)) c r (target (text (dir_entry s d)))

  -- `_handle_nfs3_mknod`
  abbrev pub handle_mknod : RpcCall → RpcReply → Result (Option Report)
  handle_mknod c r = nfs_event "mknod" none_value c r no_extra

  -- `_handle_nfs3_remove`
  abbrev pub handle_remove : RpcCall → RpcReply → State → Result (Option Report)
  handle_remove c r s =
      then_result (call_args c.body)
        λ d. nfs_event "remove" (text (dir_class_entry s d)) c r no_extra

  -- `_handle_nfs3_rmdir`
  abbrev pub handle_rmdir : RpcCall → RpcReply → State → Result (Option Report)
  handle_rmdir c r s =
      then_result (call_args c.body)
        λ d. nfs_event "rmdir" (text (dir_class_entry s d)) c r no_extra

  -- `_handle_nfs3_rename`
  abbrev pub handle_rename : RpcCall → RpcReply → State → Result (Option Report)
  handle_rename c r s = then_result (call_ffrom c.body) λ f.
      then_result (call_fto c.body)
        λ t. nfs_event "rename" (text (dir_entry s f)) c r (target (text (dir_entry s t)))

  -- `_handle_nfs3_link`: `os.path.join` refuses the packet `link.fname`.
  abbrev pub handle_link : RpcCall → Result (Option Report)
  handle_link c =
      then_result (call_handle c.body) λ h. then_result (call_link c.body) λ d. err type_error

  -- `_handle_nfs3_readdir`
  abbrev pub handle_readdir : RpcCall → RpcReply → State → Result (Option Report)
  handle_readdir c r s =
      then_result (call_handle c.body) λ h. nfs_event "readdir" (text (get_path s h)) c r no_extra

  -- `_handle_nfs3_readdirplus`
  abbrev pub handle_readdirplus : RpcCall → RpcReply → State → Result (Option Report)
  handle_readdirplus c r s =
      then_result (call_handle c.body)
        λ h. nfs_event "readdirplus" (text (get_path s h)) c r no_extra

  -- `_handle_nfs3_fsstat`
  abbrev pub handle_fsstat : RpcCall → RpcReply → State → Result (Option Report)
  handle_fsstat c r s =
      then_result (call_root c.body) λ h. nfs_event "fsstat" (text (get_path s h)) c r no_extra

  -- `_handle_nfs3_fsinfo`
  abbrev pub handle_fsinfo : RpcCall → RpcReply → State → Result (Option Report)
  handle_fsinfo c r s =
      then_result (call_root c.body) λ h. nfs_event "fsinfo" (text (get_path s h)) c r no_extra

  -- `_handle_nfs3_pathconf`
  abbrev pub handle_pathconf : RpcCall → RpcReply → State → Result (Option Report)
  handle_pathconf c r s =
      then_result (call_path_handle c.body)
        λ h. nfs_event "pathconf" (text (get_path s h)) c r no_extra

  -- `_handle_nfs3_commit`
  abbrev pub handle_commit : RpcCall → RpcReply → State → Result (Option Report)
  handle_commit c r s =
      then_result (call_root c.body) λ h. nfs_event "commit" (text (get_path s h)) c r no_extra

  -- `nfs3_handler_lookup[ rpc_call.proc ]`, applied
  unfoldable pub nfs3_handler : RpcCall → RpcReply → State → Result (Option Report)
  nfs3_handler c r s =
      if c.proc == Nfs3.null
      then handle_null
      else if c.proc == Nfs3.getattr
      then handle_getattr c r s
      else if c.proc == Nfs3.setattr
      then handle_setattr c r s
      else if c.proc == Nfs3.lookup
      then handle_lookup c r s
      else if c.proc == Nfs3.access
      then handle_access c r s
      else if c.proc == Nfs3.readlink
      then handle_readlink c r s
      else if c.proc == Nfs3.read
      then handle_read c r s
      else if c.proc == Nfs3.write
      then handle_write c r s
      else if c.proc == Nfs3.create
      then handle_create c r s
      else if c.proc == Nfs3.mkdir
      then handle_mkdir c r s
      else if c.proc == Nfs3.symlink
      then handle_symlink c r s
      else if c.proc == Nfs3.mknod
      then handle_mknod c r
      else if c.proc == Nfs3.remove
      then handle_remove c r s
      else if c.proc == Nfs3.rmdir
      then handle_rmdir c r s
      else if c.proc == Nfs3.rename
      then handle_rename c r s
      else if c.proc == Nfs3.link
      then handle_link c
      else if c.proc == Nfs3.readdir
      then handle_readdir c r s
      else if c.proc == Nfs3.readdirplus
      then handle_readdirplus c r s
      else if c.proc == Nfs3.fsstat
      then handle_fsstat c r s
      else if c.proc == Nfs3.fsinfo
      then handle_fsinfo c r s
      else if c.proc == Nfs3.pathconf
      then handle_pathconf c r s
      else if c.proc == Nfs3.commit
      then handle_commit c r s
      else err key_error

-- `_get_rpc_status`; a status that is `None` or the empty text falls back to the accept state.
abbrev mount_status : RpcReply → Result (Option Text)
mount_status r = elim (reply_mount_status r.body) [
  | ok v ↦ then_result (or_raise key_error (get v Mount3.val_stat_map)) λ t. ok (some t)
  | err x ↦ ok none
]

abbrev or_accept_state : RpcReply → Option Text → Value
or_accept_state r none = num r.accept_state
or_accept_state r (some t) = if text_eq t [] then num r.accept_state else text t

unfoldable pub get_rpc_status : RpcCall → RpcReply → Result Value
unfolding Mount3.val_stat_map get text_eq
get_rpc_status c r =
    if c.prog == mountd
    then (then_result (mount_status r) λ o. ok (or_accept_state r o))
    else ok (num r.accept_state)

unfoldable pub mount_event : String → String → Value → RpcCall → RpcReply → Result (Option Report)
unfolding get_rpc_status get_auth_str
mount_event proto cmd path c r = then_result (get_rpc_status c r) λ status. ok (
    some (record {
      level = info;
      proto = codes proto;
      command = codes cmd;
      path = path;
      who = text (get_auth_str c);
      status = status;
      extra = no_extra;
    }))

-- `_handle_mount3_mnt`
abbrev handle_mnt : RpcCall → RpcReply → Result (Option Report)
handle_mnt c r =
    then_result (call_mount_path c.body) λ p. mount_event "mount" "mnt" (text (str_path p)) c r

-- `_handle_mount3_umnt`
abbrev handle_umnt : RpcCall → RpcReply → Result (Option Report)
handle_umnt c r =
    then_result (call_mount_path c.body) λ p. mount_event "mount" "umnt" (text (str_path p)) c r

-- `_handle_mount3_umnt_all`
abbrev handle_umnt_all : RpcCall → RpcReply → Result (Option Report)
handle_umnt_all c r = mount_event "nfs" "umnt_all" none_value c r

-- `mount3_handler_lookup[ rpc_call.proc ]`, applied; `_handle_nop` returns `None`.
unfoldable pub mount3_handler : RpcCall → RpcReply → Result (Option Report)
unfolding mount_event
mount3_handler c r =
    if c.proc == Mount3.null
    then ok none
    else if c.proc == Mount3.mnt
    then handle_mnt c r
    else if c.proc == Mount3.dump
    then ok none
    else if c.proc == Mount3.umnt
    then handle_umnt c r
    else if c.proc == Mount3.umntall
    then handle_umnt_all c r
    else if c.proc == Mount3.export
    then ok none
    else err key_error
