-- ===== src/Nfs/Classes.antt =====
-- Which packet class `RPC_Call` and `RPC_Reply` dissect a procedure's call and reply as: the tables
-- `nfs3_call_lookup`, `nfs3_reply_lookup` and the `MOUNT3` tables of
-- targets/nfs-sensor-target/sensor/nfs.py, as tests on the class of a payload.
use virt_ue_sensing.Base.{
  ◌≡◌, ℕ, Bool, true, false, not, none, some, ◌==◌, ◌&&◌, ◌||◌, if◌then◌else◌,
}
use virt_ue_sensing.Nfs.Const.{mountd, nfs}
use virt_ue_sensing.Nfs.Const.Mount3
use virt_ue_sensing.Nfs.Const.Nfs3
use virt_ue_sensing.Nfs.Packet.{
  PostOpFh, CallBody, ReplyBody, packet, int, RpcCall, RpcReply, plain_call, getattr_call,
  access_call, readlink_call, read_call, write_call, readdir_call, readdirplus_call, setattr_call,
  lookup_call, create_call, mkdir_call, remove_call, rmdir_call, symlink_call, mknod_call,
  rename_call, link_call, fsstat_call, fsinfo_call, commit_call, pathconf_call, mnt_call, umnt_call,
  plain_reply, status_reply, lookup_reply_ok, handle_reply_ok, access_reply_ok, readlink_reply_ok,
  link_reply, mnt_reply_ok, mnt_reply_fail,
}

-- `nfs3_call_lookup[ proc ]` is the class of the payload.
unfoldable pub nfs3_call_fits : ℕ → CallBody → Bool
nfs3_call_fits p plain_call = p == Nfs3.null
nfs3_call_fits p (getattr_call h) = p == Nfs3.getattr
nfs3_call_fits p (setattr_call h a) = p == Nfs3.setattr
nfs3_call_fits p (lookup_call d) = p == Nfs3.lookup
nfs3_call_fits p (access_call h) = p == Nfs3.access
nfs3_call_fits p (readlink_call h) = p == Nfs3.readlink
nfs3_call_fits p (read_call h) = p == Nfs3.read
nfs3_call_fits p (write_call h) = p == Nfs3.write
nfs3_call_fits p (create_call d) = p == Nfs3.create
nfs3_call_fits p (mkdir_call d) = p == Nfs3.mkdir
nfs3_call_fits p (symlink_call d x) = p == Nfs3.symlink
nfs3_call_fits p mknod_call = p == Nfs3.mknod
nfs3_call_fits p (remove_call d) = p == Nfs3.remove
nfs3_call_fits p (rmdir_call d) = p == Nfs3.rmdir
nfs3_call_fits p (rename_call f t) = p == Nfs3.rename
nfs3_call_fits p (link_call h d) = p == Nfs3.link
nfs3_call_fits p (readdir_call h) = p == Nfs3.readdir
nfs3_call_fits p (readdirplus_call h) = p == Nfs3.readdirplus
nfs3_call_fits p (fsstat_call h) = p == Nfs3.fsstat
nfs3_call_fits p (fsinfo_call h) = p == Nfs3.fsinfo
nfs3_call_fits p (pathconf_call h) = p == Nfs3.pathconf
nfs3_call_fits p (commit_call h) = p == Nfs3.commit
nfs3_call_fits p (mnt_call x) = false
nfs3_call_fits p (umnt_call x) = false

-- Procedures whose reply has an `NFS3_status`, but nothing more that the sensor reads.
abbrev status_only : ℕ → Bool
status_only p =
    (p == Nfs3.getattr)
    || (p == Nfs3.read)
    || (p == Nfs3.write)
    || (p == Nfs3.readdir)
    || (p == Nfs3.readdirplus)
    || (p == Nfs3.fsstat)
    || (p == Nfs3.fsinfo)
    || (p == Nfs3.pathconf)
    || (p == Nfs3.commit)

-- Procedures whose `…_ReplyOk` has a field that the sensor reads.
abbrev more_if_ok : ℕ → Bool
more_if_ok p =
    (p == Nfs3.lookup)
    || (p == Nfs3.access)
    || (p == Nfs3.readlink)
    || (p == Nfs3.create)
    || (p == Nfs3.mkdir)
    || (p == Nfs3.symlink)

-- Procedures whose `nfs_status` is an `IntEnumField`.
abbrev plain_status : ℕ → Bool
plain_status p =
    (p == Nfs3.setattr) || (p == Nfs3.remove) || (p == Nfs3.rmdir) || (p == Nfs3.rename)

-- The `ConditionalField` of `NFS3_post_op_fh`.
abbrev post_op_fits : PostOpFh → Bool
post_op_fits post = elim post.handle [
  | none ↦ post.handle_follows == 0
  | some h ↦ not (post.handle_follows == 0)
]

-- `nfs3_reply_lookup[ proc ]` and the `guess_payload_class` of that class give this payload.
unfoldable pub nfs3_reply_fits : ℕ → ReplyBody → Bool
nfs3_reply_fits p plain_reply = (p == Nfs3.null) || (p == Nfs3.mknod)
nfs3_reply_fits p (status_reply (packet v)) =
    if status_only p then true else more_if_ok p && not (v == 0)
nfs3_reply_fits p (status_reply (int v)) = plain_status p
nfs3_reply_fits p (lookup_reply_ok h) = p == Nfs3.lookup
nfs3_reply_fits p (handle_reply_ok post) =
    ((p == Nfs3.create) || (p == Nfs3.mkdir) || (p == Nfs3.symlink)) && post_op_fits post
nfs3_reply_fits p (access_reply_ok a) = p == Nfs3.access
nfs3_reply_fits p (readlink_reply_ok x) = p == Nfs3.readlink
nfs3_reply_fits p (link_reply post) = (p == Nfs3.link) && post_op_fits post
nfs3_reply_fits p (mnt_reply_ok h) = false
nfs3_reply_fits p (mnt_reply_fail s) = false

-- `mount3_call_lookup[ proc ]`; where that is `None` the payload is raw.
unfoldable pub mount3_call_fits : ℕ → CallBody → Bool
mount3_call_fits p plain_call = not ((p == Mount3.mnt) || (p == Mount3.umnt))
mount3_call_fits p (mnt_call x) = p == Mount3.mnt
mount3_call_fits p (umnt_call x) = p == Mount3.umnt
mount3_call_fits p _ = false

-- `mount3_reply_lookup[ proc ]` and `MOUNT3_MNT_Reply.guess_payload_class`.
unfoldable pub mount3_reply_fits : ℕ → ReplyBody → Bool
mount3_reply_fits p plain_reply = not (p == Mount3.mnt)
mount3_reply_fits p (mnt_reply_ok h) = p == Mount3.mnt
mount3_reply_fits p (mnt_reply_fail s) = (p == Mount3.mnt) && not (s == Mount3.mount3_ok)
mount3_reply_fits p _ = false

-- A reply and the call it was paired with, as the dissector makes them.
pub record IsNfsExchange (c : RpcCall) (r : RpcReply) : Type 0 where
  pub prog : c.prog ≡ nfs
  pub call : nfs3_call_fits c.proc c.body ≡ true
  pub reply : nfs3_reply_fits c.proc r.body ≡ true

pub record IsMountExchange (c : RpcCall) (r : RpcReply) : Type 0 where
  pub prog : c.prog ≡ mountd
  pub call : mount3_call_fits c.proc c.body ≡ true
  pub reply : mount3_reply_fits c.proc r.body ≡ true
