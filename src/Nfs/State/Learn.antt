-- ===== src/Nfs/State/Learn.antt =====
-- All that an NFS exchange can teach the state monitor.
use virt_ue_sensing.Base.{◌≡◌, refl, true, Option, some, none, Eq, arith}
use virt_ue_sensing.Base.Exec.{ok}
use virt_ue_sensing.Nfs.Classes.{IsNfsExchange, nfs3_call_fits, nfs3_reply_fits}
use virt_ue_sensing.Nfs.Key.{str_key, key_Eq}
use virt_ue_sensing.Nfs.Packet.{
  FHandle, NfsPath, DirOpArgs, RpcCall, RpcReply, CallBody, ReplyBody, lookup_call, create_call,
  mkdir_call, symlink_call, status_reply, lookup_reply_ok, handle_reply_ok, packet, int,
}
use virt_ue_sensing.Nfs.State.{
  State, dir_entry, create_handle_mapping, count_pkt, update_state, update_reply, update_maps,
  is_reply_parsable,
}

-- The directory entry and the handle of the file that it is.
abbrev pub Lesson : Type 0
Lesson = Option (DirOpArgs × FHandle)

abbrev with_handle : DirOpArgs → Option FHandle → Lesson
with_handle d none = none
with_handle d (some h) = some (d, h)

-- A successful LOOKUP tells the handle of an entry, and so do CREATE, MKDIR and SYMLINK if the
-- server sends it. No other exchange does.
abbrev pub lesson : CallBody → ReplyBody → Lesson
lesson (lookup_call d) (lookup_reply_ok h) = some (d, h)
lesson (create_call d) (handle_reply_ok post) = with_handle d post.handle
lesson (mkdir_call d) (handle_reply_ok post) = with_handle d post.handle
lesson (symlink_call d p) (handle_reply_ok post) = with_handle d post.handle
lesson _ _ = none

module _ ⦃fe : Eq FHandle⦄ ⦃pe : Eq NfsPath⦄ where
  abbrev pub learn : Lesson → State → State
  learn none s = s
  learn (some (d, h)) s = create_handle_mapping (str_key (dir_entry s d)) h s

  update_reply-learn :
      (c : RpcCall) (r : RpcReply) (s : State) (b : CallBody) (a : ReplyBody)
      → c.body ≡ b
      → r.body ≡ a
      → c.prog ≡ 100003
      → nfs3_call_fits c.proc b ≡ true
      → nfs3_reply_fits c.proc a ≡ true
      → update_reply c r s ≡ (ok tt, learn (lesson b a) s)
  unfolding update_reply nfs3_call_fits nfs3_reply_fits is_reply_parsable update_maps
  update_reply-learn c r s (lookup_call d) (lookup_reply_ok h) e f p u v = ground arith
  update_reply-learn c r s (lookup_call d) (status_reply (packet x)) e f p u v = ground arith
  update_reply-learn c r s (lookup_call d) (status_reply (int x)) e f p u v = ground arith
  update_reply-learn c r s (lookup_call d) (handle_reply_ok post) e f p u v = ground arith
  update_reply-learn c r s (lookup_call d) _ e f p u v = ground arith
  update_reply-learn c r s (create_call d) (handle_reply_ok post) e f p u v = ground arith
  update_reply-learn c r s (create_call d) (status_reply (packet x)) e f p u v = ground arith
  update_reply-learn c r s (create_call d) (status_reply (int x)) e f p u v = ground arith
  update_reply-learn c r s (create_call d) _ e f p u v = ground arith
  update_reply-learn c r s (mkdir_call d) (handle_reply_ok post) e f p u v = ground arith
  update_reply-learn c r s (mkdir_call d) (status_reply (packet x)) e f p u v = ground arith
  update_reply-learn c r s (mkdir_call d) (status_reply (int x)) e f p u v = ground arith
  update_reply-learn c r s (mkdir_call d) _ e f p u v = ground arith
  update_reply-learn c r s (symlink_call d q) (handle_reply_ok post) e f p u v = ground arith
  update_reply-learn c r s (symlink_call d q) (status_reply (packet x)) e f p u v = ground arith
  update_reply-learn c r s (symlink_call d q) (status_reply (int x)) e f p u v = ground arith
  update_reply-learn c r s (symlink_call d q) _ e f p u v = ground arith
  update_reply-learn c r s _ (status_reply (packet x)) e f p u v = ground arith
  update_reply-learn c r s _ (status_reply (int x)) e f p u v = ground arith
  update_reply-learn c r s _ _ e f p u v = ground arith

  -- The reply to an NFS call, as the dissector pairs them, never makes `update_state` raise. It
  -- files the entry of a LOOKUP, CREATE, MKDIR or SYMLINK under the handle that the reply has, and
  -- changes no map for any other procedure: a REMOVE, RMDIR or RENAME leaves the old name filed.
  pub update_state-learn :
      (c : RpcCall) (r : RpcReply) (s : State)
      → IsNfsExchange c r
      → update_state (some (record { rpc_call = some c; reply = r })) s
        ≡ (ok tt, learn (lesson c.body r.body) (count_pkt s))
  unfolding update_state
  update_state-learn c r s x =
      update_reply-learn c r (count_pkt s) c.body r.body refl refl x.prog x.call x.reply
