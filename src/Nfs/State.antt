-- ===== src/Nfs/State.antt =====
-- What the sensor knows of the file system (targets/nfs-sensor-target/sensor/nfs_state_monitor.py).
-- The module's globals are a record, and each function is an action on it that may raise.
pub mod Create
pub mod Umount
pub mod Update
pub mod Learn
pub mod Refine
use virt_ue_sensing.Base.{
  ℕ, ◌+◌, Bool, true, false, ◌&&◌, ◌||◌, not, Option, none, some, List, [], ◌∷◌, ◌==◌,
  if◌then◌else◌, Eq, keep_if,
}
use virt_ue_sensing.Base.Text.{Text, codes, join_path, starts_with}
use virt_ue_sensing.Base.Dict.{Dict, get, put, remove, contains, keys}
use virt_ue_sensing.Base.Exec.{
  Exc, Result, ok, err, Exec, pure, raise, lift, gets, modify, or_raise, ◌>>=◌, ◌>>◌,
  attribute_error, type_error, key_error, runtime_error, then_result,
}
use virt_ue_sensing.Nfs.Const.{mountd, nfs, rpc_accept_success, auth_null, auth_unix}
use virt_ue_sensing.Nfs.Const.Mount3
use virt_ue_sensing.Nfs.Const.Nfs3
use virt_ue_sensing.Nfs.Packet.{
  FHandle, NfsPath, DirOpArgs, RpcCall, RpcReply, Pkt, PostOpFh, str_fname, str_path,
  dir_op_args_name, call_args, call_where, call_ffrom, call_fto, call_link, call_mount_path,
  reply_handle, reply_post_op, reply_file, reply_nfs_status, reply_mount_status, success,
}
use virt_ue_sensing.Nfs.Key.{Key, path_key, str_key, str, key_Eq, truthy}

pub record State : Type 0 where
  pub pkt_ct : ℕ
  pub handle_name_map : Dict FHandle Key
  pub name_handle_map : Dict Key FHandle
  pub active_mount_map : Dict NfsPath FHandle

-- The globals when the module is loaded.
abbrev pub init : State
init = record { pkt_ct = 1; handle_name_map = []; name_handle_map = []; active_mount_map = [] }

unfoldable pub get_auth_str : RpcCall → Text
get_auth_str c =
    if c.cred_flav == auth_unix
    then c.auth_sys
    else if c.cred_flav == auth_null
    then codes "AUTH_NULL"
    else codes "AUTH_UNKNOWN"

-- `except AttributeError: return False`
abbrev or_false : Result Bool → Result Bool
or_false (err Exc.attribute_error) = ok false
or_false r = r

abbrev mount_parsable : RpcReply → RpcCall → Result Bool
mount_parsable r c =
    if not (r.accept_state == rpc_accept_success)
    then ok false
    else if (c.proc == Mount3.umnt) || (c.proc == Mount3.umntall)
    then ok true
    else if c.proc == Mount3.mnt
    then then_result (reply_mount_status r.body) (λ s. ok (s == Mount3.mount3_ok))
    else ok false

unfoldable pub is_reply_parsable : RpcReply → RpcCall → Result Bool
is_reply_parsable r c =
    if c.prog == mountd
    then mount_parsable r c
    else if c.prog == nfs
    then or_false (then_result (reply_nfs_status r.body) success)
    else ok false

-- The functions take Python's `==` on packets, which scapy gives.
module _ ⦃fe : Eq FHandle⦄ ⦃pe : Eq NfsPath⦄ where
  unfoldable pub get_path : State → FHandle → Text
  get_path s h = elim (get h s.handle_name_map) [ none ↦ codes "{unknown}" | some name ↦ str name ]

  unfoldable pub create_handle_mapping : Key → FHandle → State → State
  create_handle_mapping path h s = record s {
    handle_name_map = put h path s.handle_name_map;
    name_handle_map = put path h s.name_handle_map;
  }

  abbrev drop_mapping : Key → FHandle → State → State
  drop_mapping path h s = record s {
    handle_name_map =
        (if contains h s.handle_name_map then remove h s.handle_name_map else s.handle_name_map);
    name_handle_map =
        (if contains path s.name_handle_map
          then remove path s.name_handle_map
          else s.name_handle_map);
  }

  abbrev given_path : Option Key → Bool
  given_path none = false
  given_path (some k) = truthy k

  abbrev given_handle : Option FHandle → Bool
  given_handle none = false
  given_handle (some h) = true

  -- `if not path: path = handle_name_map[ handle ]`
  abbrev resolve_path : Option Key → Option FHandle → State → Result Key
  resolve_path none none s = err key_error
  resolve_path none (some h) s = or_raise key_error (get h s.handle_name_map)
  resolve_path (some k) none s = if truthy k then ok k else err key_error
  resolve_path (some k) (some h) s =
      if truthy k then ok k else or_raise key_error (get h s.handle_name_map)

  -- `if not handle: handle = name_handle_map[ path ]`
  abbrev resolve_handle : Option FHandle → Key → State → Result FHandle
  resolve_handle none k s = or_raise key_error (get k s.name_handle_map)
  resolve_handle (some h) k s = ok h

  unfoldable pub destroy_handle_mapping : Option Key → Option FHandle → Exec State (Unit {0})
  destroy_handle_mapping path h s =
      if (given_path path && given_handle h) || (not (given_path path) && not (given_handle h))
      then (err runtime_error, s)
      else (do
        k ← λ t. (resolve_path path h t, t)
        j ← λ t. (resolve_handle h k t, t)
        modify (drop_mapping k j))
          s

  unfoldable pub create_mount_mapping : NfsPath → FHandle → State → State
  unfolding create_handle_mapping
  create_mount_mapping path h s =
      create_handle_mapping (path_key path) h
        (record s { active_mount_map = put path h s.active_mount_map })

  -- The keys of `name_handle_map` that the loop of `_destroy_mount_mapping` visits.
  unfoldable pub below_mount : NfsPath → State → List Key
  below_mount path s = keep_if (λ k. starts_with (str_path path) (str k)) (keys s.name_handle_map)

  -- `for k in ks: _destroy_handle_mapping( path=k )`
  unfoldable pub destroy_each : List Key → Exec State (Unit {0})
  destroy_each [] = pure tt
  destroy_each (k ∷ ks) = do destroy_handle_mapping (some k) none; destroy_each ks

  abbrev forget_mount : NfsPath → State → State
  forget_mount path s = record s {
    active_mount_map =
        (if contains path s.active_mount_map
          then remove path s.active_mount_map
          else s.active_mount_map);
  }

  unfoldable pub destroy_mount_mapping : NfsPath → Exec State (Unit {0})
  unfolding below_mount
  destroy_mount_mapping path = do
    ks ← gets (below_mount path)
    destroy_each ks
    modify (forget_mount path)

  unfoldable pub destroy_mounts : List NfsPath → Exec State (Unit {0})
  destroy_mounts [] = pure tt
  destroy_mounts (p ∷ ps) = do destroy_mount_mapping p; destroy_mounts ps

  -- `os.path.join( get_path( d.handle ), str( d.fname ) )`
  unfoldable pub dir_entry : State → DirOpArgs → Text
  unfolding get_path
  dir_entry s d = join_path (get_path s d.handle) (str_fname d.fname)

  -- `os.path.join( get_path( d.handle ), d.name )`
  unfoldable pub dir_class_entry : State → DirOpArgs → Text
  unfolding get_path
  dir_class_entry s d = join_path (get_path s d.handle) dir_op_args_name

  abbrev map_new_handle : Text → PostOpFh → Exec State (Unit {0})
  map_new_handle new post s = if post.handle_follows == 0 then (ok tt, s) else elim post.handle [
    | none ↦ (err attribute_error, s)
    | some h ↦ (ok tt, create_handle_mapping (str_key new) h s)
  ]

  abbrev update_mnt : RpcCall → RpcReply → Exec State (Unit {0})
  update_mnt c r = do
    p ← lift (call_mount_path c.body)
    h ← lift (reply_handle r.body)
    modify (create_mount_mapping p h)

  abbrev update_umnt : RpcCall → Exec State (Unit {0})
  update_umnt c = do p ← lift (call_mount_path c.body); destroy_mount_mapping p

  abbrev update_umntall : Exec State (Unit {0})
  update_umntall = do ps ← gets (λ t. keys t.active_mount_map); destroy_mounts ps

  abbrev update_mount : RpcCall → RpcReply → Exec State (Unit {0})
  update_mount c r =
      if c.proc == Mount3.mnt
      then update_mnt c r
      else if c.proc == Mount3.umnt
      then update_umnt c
      else if c.proc == Mount3.umntall
      then update_umntall
      else pure tt

  -- LOOKUP
  abbrev update_lookup : RpcCall → RpcReply → Exec State (Unit {0})
  update_lookup c r = do
    d ← lift (call_args c.body)
    new ← gets (λ t. dir_entry t d)
    h ← lift (reply_handle r.body)
    modify (create_handle_mapping (str_key new) h)

  -- CREATE and MKDIR; `where` is SYMLINK's name for `args`.
  abbrev update_create : Result DirOpArgs → RpcReply → Exec State (Unit {0})
  update_create args r = do
    post ← lift (reply_post_op r.body)
    if post.handle_follows == 0
        then pure tt
        else do d ← lift args; new ← gets (λ t. dir_entry t d); map_new_handle new post

  -- RMDIR passes the keyword `name`, which `_destroy_handle_mapping` does not have.
  abbrev update_rmdir : RpcCall → Exec State (Unit {0})
  update_rmdir c = do d ← lift (call_args c.body); raise type_error

  -- RENAME does so too, once both names are there.
  abbrev update_rename : RpcCall → Exec State (Unit {0})
  update_rename c = do f ← lift (call_ffrom c.body); t ← lift (call_fto c.body); raise type_error

  -- LINK: `os.path.join` refuses the packet `link.fname`.
  abbrev update_link : RpcCall → RpcReply → Exec State (Unit {0})
  update_link c r = do
    file ← lift (reply_file r.body)
    if file.handle_follows == 0 then pure tt else do d ← lift (call_link c.body); raise type_error

  abbrev update_remove : RpcCall → Exec State (Unit {0})
  update_remove c = do
    d ← lift (call_args c.body)
    path ← gets (λ t. dir_class_entry t d)
    destroy_handle_mapping (some (str_key path)) none

  abbrev update_nfs : RpcCall → RpcReply → Exec State (Unit {0})
  update_nfs c r =
      if c.proc == Nfs3.lookup
      then update_lookup c r
      else if c.proc == Nfs3.create
      then update_create (call_args c.body) r
      else if c.proc == Nfs3.mkdir
      then update_create (call_args c.body) r
      else if c.proc == Nfs3.symlink
      then update_create (call_where c.body) r
      else if c.proc == Nfs3.rmdir
      then update_rmdir c
      else if c.proc == Nfs3.rename
      then update_rename c
      else if c.proc == Nfs3.link
      then update_link c r
      else if c.proc == Nfs3.remove
      then update_remove c
      else pure tt

  -- `update_state` after `is_reply_parsable`
  unfoldable pub update_maps : RpcCall → RpcReply → Exec State (Unit {0})
  unfolding create_handle_mapping
  update_maps c r =
      if c.prog == mountd
      then update_mount c r
      else if c.prog == nfs
      then update_nfs c r
      else pure tt

  unfoldable pub update_reply : RpcCall → RpcReply → Exec State (Unit {0})
  unfolding is_reply_parsable update_maps
  update_reply c r = do
    parsable ← lift (is_reply_parsable r c)
    if parsable then update_maps c r else pure tt

  -- Calls have `None` as their `rpc_call`.
  abbrev update_for : Option RpcCall → RpcReply → Exec State (Unit {0})
  update_for none r = pure tt
  update_for (some c) r = update_reply c r

  abbrev pub count_pkt : State → State
  count_pkt s = record s { pkt_ct = s.pkt_ct + 1 }

  unfoldable pub update_state : Pkt → Exec State (Unit {0})
  update_state none s = (ok tt, count_pkt s)
  update_state (some header) s = update_for header.rpc_call header.reply (count_pkt s)
