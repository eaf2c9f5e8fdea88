-- ===== src/Nfs/Packet.antt =====
-- The packets of targets/nfs-sensor-target/sensor/nfs.py as the sensor reads them. Which fields a
-- packet class has decides which attributes can be read: a missing one raises `AttributeError`.
-- Fields that the sensor never reads are left out.
use virt_ue_sensing.Base.{ℕ, Option, Bool, ◌==◌}
use virt_ue_sensing.Base.Text.{Text, codes}
use virt_ue_sensing.Base.Exec.{Result, ok, err, attribute_error}
use virt_ue_sensing.Nfs.Const.Nfs3.{nfs3_ok}

-- `NFS3_fhandle`
pub record FHandle : Type 0 where
  pub l : ℕ
  pub v : Text

-- `NFS3_path`; `p` is the padding.
pub record NfsPath : Type 0 where
  pub l : ℕ
  pub v : Text
  pub p : Text

-- `_bin2str`: the character of a byte is the code point with the byte's number.
abbrev pub bin2str : Text → Text
bin2str b = b

-- `NFS3_path.__str__`
abbrev pub str_path : NfsPath → Text
str_path x = bin2str x.v

-- `NFS3_fname`
pub record Fname : Type 0 where
  pub l : ℕ
  pub v : Text
  pub p : Text

-- `NFS3_fname.__str__`
abbrev pub str_fname : Fname → Text
str_fname x = bin2str x.v

-- `NFS3_dir_op_args`
pub record DirOpArgs : Type 0 where
  pub handle : FHandle
  pub fname : Fname

-- The attribute `name` of a packet is the name of its class, here that of `NFS3_dir_op_args`.
abbrev pub dir_op_args_name : Text
dir_op_args_name = codes "dir_op_args"

-- `NFS3_post_op_fh`; the handle is there if `handle_follows` is not 0.
pub record PostOpFh : Type 0 where
  pub handle_follows : ℕ
  pub handle : Option FHandle

-- The field `nfs_status` of a reply: an `NFS3_status` packet, or the plain number that
-- `IntEnumField` gives in the replies to SETATTR, REMOVE, RMDIR and RENAME.
pub data NfsStatus : Type 0 where
  packet : ℕ → NfsStatus
  int : ℕ → NfsStatus

-- The call classes, by the payload of `RPC_Call`.
pub data CallBody : Type 0 where
  plain_call : CallBody
  getattr_call access_call readlink_call read_call write_call : FHandle → CallBody
  readdir_call readdirplus_call : FHandle → CallBody
  -- the second part is `str(new_attr)`
  setattr_call : FHandle → Text → CallBody
  lookup_call create_call mkdir_call remove_call rmdir_call : DirOpArgs → CallBody
  symlink_call : DirOpArgs → NfsPath → CallBody
  mknod_call : CallBody
  rename_call : DirOpArgs → DirOpArgs → CallBody
  link_call : FHandle → DirOpArgs → CallBody
  -- the field is called `root`
  fsstat_call fsinfo_call commit_call : FHandle → CallBody
  -- the field is called `path`
  pathconf_call : FHandle → CallBody
  mnt_call umnt_call : NfsPath → CallBody

-- `RPC_Call`, with `str(auth_sys)` for the credentials.
pub record RpcCall : Type 0 where
  pub prog : ℕ
  pub proc : ℕ
  pub cred_flav : ℕ
  pub auth_sys : Text
  pub body : CallBody

-- The reply classes, by the payload of `RPC_Reply`.
pub data ReplyBody : Type 0 where
  -- no field that the sensor reads
  plain_reply : ReplyBody
  -- `nfs_status` and nothing else that the sensor reads
  status_reply : NfsStatus → ReplyBody
  lookup_reply_ok : FHandle → ReplyBody
  -- CREATE, MKDIR and SYMLINK
  handle_reply_ok : PostOpFh → ReplyBody
  access_reply_ok : ℕ → ReplyBody
  readlink_reply_ok : NfsPath → ReplyBody
  link_reply : PostOpFh → ReplyBody
  mnt_reply_ok : FHandle → ReplyBody
  -- MNT with the status that is not `MOUNT3_OK`
  mnt_reply_fail : ℕ → ReplyBody

-- `RPC_Reply`; `accept_state` is an `RPC_status`.
pub record RpcReply : Type 0 where
  pub accept_state : ℕ
  pub body : ReplyBody

-- `RPC_Header` of a reply with the call that `post_dissection` found for it.
pub record RpcHeader : Type 0 where
  pub rpc_call : Option RpcCall
  pub reply : RpcReply

-- A captured packet: `getlayer(nfs.RPC_Header)`.
abbrev pub Pkt : Type 0
Pkt = Option RpcHeader

-- Attributes of a call.
abbrev pub call_handle : CallBody → Result FHandle
call_handle (getattr_call h) = ok h
call_handle (access_call h) = ok h
call_handle (readlink_call h) = ok h
call_handle (read_call h) = ok h
call_handle (write_call h) = ok h
call_handle (readdir_call h) = ok h
call_handle (readdirplus_call h) = ok h
call_handle (setattr_call h a) = ok h
call_handle (link_call h d) = ok h
call_handle _ = err attribute_error

abbrev pub call_new_attr : CallBody → Result Text
call_new_attr (setattr_call h a) = ok a
call_new_attr _ = err attribute_error

abbrev pub call_args : CallBody → Result DirOpArgs
call_args (lookup_call d) = ok d
call_args (create_call d) = ok d
call_args (mkdir_call d) = ok d
call_args (remove_call d) = ok d
call_args (rmdir_call d) = ok d
call_args _ = err attribute_error

abbrev pub call_where : CallBody → Result DirOpArgs
call_where (symlink_call d s) = ok d
call_where _ = err attribute_error

-- `rpc_call.symlink.path`
abbrev pub call_symlink_path : CallBody → Result NfsPath
call_symlink_path (symlink_call d s) = ok s
call_symlink_path _ = err attribute_error

abbrev pub call_ffrom : CallBody → Result DirOpArgs
call_ffrom (rename_call f t) = ok f
call_ffrom _ = err attribute_error

abbrev pub call_fto : CallBody → Result DirOpArgs
call_fto (rename_call f t) = ok t
call_fto _ = err attribute_error

abbrev pub call_link : CallBody → Result DirOpArgs
call_link (link_call h d) = ok d
call_link _ = err attribute_error

abbrev pub call_root : CallBody → Result FHandle
call_root (fsstat_call h) = ok h
call_root (fsinfo_call h) = ok h
call_root (commit_call h) = ok h
call_root _ = err attribute_error

-- `rpc_call.path` where the NFS handlers read it.
abbrev pub call_path_handle : CallBody → Result FHandle
call_path_handle (pathconf_call h) = ok h
call_path_handle _ = err attribute_error

-- `rpc_call.path` where the MOUNT handlers read it.
abbrev pub call_mount_path : CallBody → Result NfsPath
call_mount_path (mnt_call p) = ok p
call_mount_path (umnt_call p) = ok p
call_mount_path _ = err attribute_error

-- Attributes of a reply. A class `…_ReplyOk` is the payload of a status packet that succeeded.
abbrev pub reply_nfs_status : ReplyBody → Result NfsStatus
reply_nfs_status (status_reply s) = ok s
reply_nfs_status (lookup_reply_ok h) = ok (packet nfs3_ok)
reply_nfs_status (handle_reply_ok h) = ok (packet nfs3_ok)
reply_nfs_status (access_reply_ok a) = ok (packet nfs3_ok)
reply_nfs_status (readlink_reply_ok p) = ok (packet nfs3_ok)
reply_nfs_status _ = err attribute_error

-- `rpc_reply.handle` where it is a file handle.
abbrev pub reply_handle : ReplyBody → Result FHandle
reply_handle (lookup_reply_ok h) = ok h
reply_handle (mnt_reply_ok h) = ok h
reply_handle _ = err attribute_error

-- `rpc_reply.handle` where it is an `NFS3_post_op_fh`.
abbrev pub reply_post_op : ReplyBody → Result PostOpFh
reply_post_op (handle_reply_ok h) = ok h
reply_post_op _ = err attribute_error

-- `rpc_reply.file`
abbrev pub reply_file : ReplyBody → Result PostOpFh
reply_file (link_reply h) = ok h
reply_file _ = err attribute_error

abbrev pub reply_access : ReplyBody → Result ℕ
reply_access (access_reply_ok a) = ok a
reply_access _ = err attribute_error

abbrev pub reply_path : ReplyBody → Result NfsPath
reply_path (readlink_reply_ok p) = ok p
reply_path _ = err attribute_error

-- The field `status` of a reply to MNT.
abbrev pub reply_mount_status : ReplyBody → Result ℕ
reply_mount_status (mnt_reply_ok h) = ok 0
reply_mount_status (mnt_reply_fail s) = ok s
reply_mount_status _ = err attribute_error

-- `rpc_reply.nfs_status.success()`: a plain number has no such method.
abbrev pub success : NfsStatus → Result Bool
success (packet v) = ok (0 == v)
success (int v) = err attribute_error
