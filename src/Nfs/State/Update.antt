-- ===== src/Nfs/State/Update.antt =====
-- `update_state`: it keeps the names sound, and what it does for each kind of reply.
use virt_ue_sensing.Base.{
  ◌≡◌, ◌≢◌, refl, true, false, some, none, Option, Bool, List, [], ◌∷◌, Eq, arith, if◌then◌else◌,
  ◌==◌, inl, inr, Bool-cases, Option-cases,
}
use virt_ue_sensing.Base.Text.{Text, join_path}
use virt_ue_sensing.Base.Dict.{get, put, keys, contains-eq-get}
use virt_ue_sensing.Base.Members.{mem, mem-keys, Distinct-put, contains-put, All-mem, All-of_mem}
use virt_ue_sensing.Nfs.Const.Mount3
use virt_ue_sensing.Nfs.Const.Nfs3
use virt_ue_sensing.Nfs.Const.{mountd, nfs}
use virt_ue_sensing.Base.Exec.{Exec, pure, Result, ok, Result-cases}
use virt_ue_sensing.Nfs.Packet.{
  FHandle, NfsPath, DirOpArgs, CallBody, lookup_call, create_call, mkdir_call, symlink_call,
  remove_call, rmdir_call, call_args, call_where, reply_handle, reply_post_op, RpcCall, RpcReply,
  Pkt, PostOpFh, str_fname, dir_op_args_name, call_mount_path, call_ffrom, call_fto, call_link,
  reply_file,
}
use virt_ue_sensing.Nfs.Key.{Key, path_key, str_key, truthy, key_Eq}
use virt_ue_sensing.Nfs.State.{
  is_reply_parsable, count_pkt, update_reply, update_umnt, update_for, update_nfs, update_mnt,
  update_link, update_umntall, update_maps, update_rmdir, update_state, update_rename, State,
  get_path, create_handle_mapping, create_mount_mapping, destroy_mounts, dir_entry, map_new_handle,
  update_mount, update_lookup, update_create, update_remove, dir_class_entry,
}
use virt_ue_sensing.Nfs.State.Create.{destroy_handle_mapping-path, destroy_handle_mapping-missing}
use virt_ue_sensing.Nfs.State.Umount.{
  IsSound, destroy_mount_mapping-Unmounted, drop_mapping-IsSound,
}

-- A name joined to a directory is not empty.
join_path-ne_nil : (a b : Text) → b ≢ [] → join_path a b ≢ []
unfolding join_path
join_path-ne_nil [] b h = ground arith
join_path-ne_nil (c ∷ a) b h = ground arith

truthy_str : (t : Text) → t ≢ [] → truthy (str_key t) ≡ true
unfolding truthy
truthy_str [] h = absurd (h refl)
truthy_str (c ∷ t) h = refl

-- Every directory entry that the call names has a name.
abbrev pub IsNamed : CallBody → Type 0
IsNamed (lookup_call d) = str_fname d.fname ≢ []
IsNamed (create_call d) = str_fname d.fname ≢ []
IsNamed (mkdir_call d) = str_fname d.fname ≢ []
IsNamed (remove_call d) = str_fname d.fname ≢ []
IsNamed (rmdir_call d) = str_fname d.fname ≢ []
IsNamed (symlink_call d p) = str_fname d.fname ≢ []
IsNamed _ = Unit

call_args-named :
    (b : CallBody) (d : DirOpArgs) → call_args b ≡ ok d → IsNamed b → str_fname d.fname ≢ []
call_args-named (lookup_call x) d e n = ground arith
call_args-named _ d e n = ground arith

call_where-named :
    (b : CallBody) (d : DirOpArgs) → call_where b ≡ ok d → IsNamed b → str_fname d.fname ≢ []
call_where-named (lookup_call x) d e n = ground arith
call_where-named _ d e n = ground arith

truthy_path : (p : NfsPath) → truthy (path_key p) ≡ true
unfolding truthy
truthy_path p = refl

module _ ⦃fe : Eq FHandle⦄ ⦃pe : Eq NfsPath⦄ where
  -- Filing a name that is not empty keeps the names sound.
  pub create_handle_mapping-IsSound :
      (k : Key) (h : FHandle) (s : State)
      → truthy k ≡ true
      → IsSound s
      → IsSound (create_handle_mapping k h s)
  unfolding create_handle_mapping
  create_handle_mapping-IsSound k h s t w = record {
    distinct = Distinct-put k h s.name_handle_map w.distinct;
    nonempty =
        All-of_mem (λ j. truthy j ≡ true) (keys (put k h s.name_handle_map))
          (λ j m. elim (Bool-cases (key_Eq.beq k j)) [
            | inl same ↦ ground (arith, key_Eq.beq_iff k j)
            | inr differ ↦
                All-mem (λ j. truthy j ≡ true) j (keys s.name_handle_map) w.nonempty
                  (ground (
                    arith,
                    mem-keys j (put k h s.name_handle_map),
                    mem-keys j s.name_handle_map,
                    contains-put k j h s.name_handle_map,
                  ))
          ]);
  }

  create_mount_mapping-IsSound :
      (p : NfsPath) (h : FHandle) (s : State) → IsSound s → IsSound (create_mount_mapping p h s)
  unfolding create_mount_mapping
  create_mount_mapping-IsSound p h s w =
      create_handle_mapping-IsSound (path_key p) h
        (record s { active_mount_map = put p h s.active_mount_map }) (truthy_path p)
        (record { distinct = w.distinct; nonempty = w.nonempty })

  -- Unmounting every path of a list returns, and leaves none of them mounted.
  pub destroy_mounts_lem :
      (ps : List NfsPath) (s : State)
      → IsSound s
      → (t : State) × (destroy_mounts ps s ≡ (ok tt, t))
        × IsSound t
        × ((q : NfsPath)
            → get q t.active_mount_map ≡ (if mem q ps then none else get q s.active_mount_map))
  unfolding destroy_mounts
  destroy_mounts_lem [] s w = (s, refl, w, λ q. refl)
  destroy_mounts_lem (p ∷ ps) s w =
      let (u, e, v) = destroy_mount_mapping-Unmounted p s w in
      let (t, f, x, g) = destroy_mounts_lem ps u v.sound in
      (t, ground (arith, e, f), x, λ q. ground (arith, g q, v.mounts q))

  -- UMNTALL: when every active mount is unmounted, no mount is active.
  pub destroy_mounts-all :
      (s : State)
      → IsSound s
      → (t : State) × (destroy_mounts (keys s.active_mount_map) s ≡ (ok tt, t))
        × IsSound t
        × ((q : NfsPath) → get q t.active_mount_map ≡ none)
  destroy_mounts-all s w =
      let (t, e, x, g) = destroy_mounts_lem (keys s.active_mount_map) s w in
      (
        t,
        e,
        x,
        λ q.
            ground
              (arith, g q, mem-keys q s.active_mount_map, contains-eq-get q s.active_mount_map),
      )

  dir_entry-truthy :
      (d : DirOpArgs) (s : State) → str_fname d.fname ≢ [] → truthy (str_key (dir_entry s d)) ≡ true
  unfolding dir_entry
  dir_entry-truthy d s n =
      truthy_str _ (join_path-ne_nil (get_path s d.handle) (str_fname d.fname) n)

  map_new_handle-IsSound :
      (new : Text) (post : PostOpFh) (s : State)
      → truthy (str_key new) ≡ true
      → IsSound s
      → IsSound (map_new_handle new post s).1
  map_new_handle-IsSound new post s t w = elim (Bool-cases (post.handle_follows == 0)) [
    | inl zero_follows ↦ rw zero_follows w
    | inr follows ↦ rw follows (elim (Option-cases post.handle) [
      | inl absent ↦ rw absent w
      | inr (h, e) ↦ rw e (create_handle_mapping-IsSound (str_key new) h s t w)
    ])
  ]

  update_lookup-IsSound :
      (c : RpcCall) (r : RpcReply) (s : State)
      → IsNamed c.body
      → IsSound s
      → IsSound (update_lookup c r s).1
  update_lookup-IsSound c r s n w = elim (Result-cases (call_args c.body)) [
    | inr (x, e) ↦ rw e w
    | inl (d, e) ↦ elim (Result-cases (reply_handle r.body)) [
      | inr (x, f) ↦ rw (e, f) w
      | inl (h, f) ↦
          rw (e, f)
            (create_handle_mapping-IsSound (str_key (dir_entry s d)) h s
              (dir_entry-truthy d s (call_args-named c.body d e n)) w)
    ]
  ]

  update_create-IsSound :
      (args : Result DirOpArgs) (r : RpcReply) (s : State)
      → ((d : DirOpArgs) → args ≡ ok d → str_fname d.fname ≢ [])
      → IsSound s
      → IsSound (update_create args r s).1
  update_create-IsSound args r s n w = elim (Result-cases (reply_post_op r.body)) [
    | inr (x, e) ↦ rw e w
    | inl (post, e) ↦ elim (Bool-cases (post.handle_follows == 0)) [
      | inl none_follows ↦ rw (e, none_follows) w
      | inr follows ↦ elim (Result-cases args) [
        | inr (x, f) ↦ rw (e, follows, f) w
        | inl (d, f) ↦
            rw (e, follows, f)
              (map_new_handle-IsSound (dir_entry s d) post s (dir_entry-truthy d s (n d f)) w)
      ]
    ]
  ]

  dir_class_entry-truthy :
      (d : DirOpArgs) (s : State) → truthy (str_key (dir_class_entry s d)) ≡ true
  unfolding dir_class_entry
  dir_class_entry-truthy d s =
      truthy_str _ (join_path-ne_nil (get_path s d.handle) dir_op_args_name (λ e. cc))

  update_remove-IsSound : (c : RpcCall) (s : State) → IsSound s → IsSound (update_remove c s).1
  update_remove-IsSound c s w = elim (Result-cases (call_args c.body)) [
    | inr (x, e) ↦ rw e w
    | inl (d, e) ↦
        let k = str_key (dir_class_entry s d) in
        let t = dir_class_entry-truthy d s in
        elim (Option-cases (get k s.name_handle_map)) [
          | inl absent ↦ rw (e, destroy_handle_mapping-missing k s t absent) w
          | inr (h, g) ↦
              rw (e, destroy_handle_mapping-path k s t g) (drop_mapping-IsSound k h s g w)
        ]
  ]

  update_mnt-IsSound :
      (c : RpcCall) (r : RpcReply) (s : State) → IsSound s → IsSound (update_mnt c r s).1
  update_mnt-IsSound c r s w = elim (Result-cases (call_mount_path c.body)) [
    | inr (x, e) ↦ rw e w
    | inl (p, e) ↦ elim (Result-cases (reply_handle r.body)) [
      | inr (x, f) ↦ rw (e, f) w
      | inl (h, f) ↦ rw (e, f) (create_mount_mapping-IsSound p h s w)
    ]
  ]

  update_umnt-IsSound : (c : RpcCall) (s : State) → IsSound s → IsSound (update_umnt c s).1
  update_umnt-IsSound c s w = elim (Result-cases (call_mount_path c.body)) [
    | inr (x, e) ↦ rw e w
    | inl (p, e) ↦ let (t, f, u) = destroy_mount_mapping-Unmounted p s w in rw (e, f) u.sound
  ]

  update_umntall-IsSound : (s : State) → IsSound s → IsSound (update_umntall s).1
  update_umntall-IsSound s w = let (t, e, x, g) = destroy_mounts-all s w in rw e x

  -- The action keeps the names sound, also when it raises.
  record Keeps (m : Exec State (Unit {0})) : Type 0 where
    at : (s : State) → IsSound s → IsSound (m s).1

  Keeps-if :
      (b : Bool) (m n : Exec State (Unit {0})) → Keeps m → Keeps n → Keeps (if b then m else n)
  Keeps-if true m n h k = h
  Keeps-if false m n h k = k

  Keeps-pure : Keeps (pure tt)
  Keeps-pure = record { at = λ s w. w }

  update_mount-Keeps : (c : RpcCall) (r : RpcReply) → Keeps (update_mount c r)
  update_mount-Keeps c r =
      Keeps-if (c.proc == Mount3.mnt) _ _ (record { at = update_mnt-IsSound c r })
        (Keeps-if (c.proc == Mount3.umnt) _ _ (record { at = update_umnt-IsSound c })
          (Keeps-if (c.proc == Mount3.umntall) _ _ (record { at = update_umntall-IsSound })
            Keeps-pure))

  update_rmdir-IsSound : (c : RpcCall) (s : State) → IsSound s → IsSound (update_rmdir c s).1
  update_rmdir-IsSound c s w = elim (Result-cases (call_args c.body)) [
    | inr (x, e) ↦ rw e w
    | inl (d, e) ↦ rw e w
  ]

  update_rename-IsSound : (c : RpcCall) (s : State) → IsSound s → IsSound (update_rename c s).1
  update_rename-IsSound c s w = elim (Result-cases (call_ffrom c.body)) [
    | inr (x, e) ↦ rw e w
    | inl (d, e) ↦ elim (Result-cases (call_fto c.body)) [
      | inr (x, f) ↦ rw (e, f) w
      | inl (t, f) ↦ rw (e, f) w
    ]
  ]

  update_link-IsSound :
      (c : RpcCall) (r : RpcReply) (s : State) → IsSound s → IsSound (update_link c r s).1
  update_link-IsSound c r s w = elim (Result-cases (reply_file r.body)) [
    | inr (x, e) ↦ rw e w
    | inl (post, e) ↦ elim (Bool-cases (post.handle_follows == 0)) [
      | inl none_follows ↦ rw (e, none_follows) w
      | inr follows ↦ elim (Result-cases (call_link c.body)) [
        | inr (x, f) ↦ rw (e, follows, f) w
        | inl (d, f) ↦ rw (e, follows, f) w
      ]
    ]
  ]

  create_args-Keeps :
      (c : RpcCall) (r : RpcReply) → IsNamed c.body → Keeps (update_create (call_args c.body) r)
  create_args-Keeps c r n = record {
    at = λ s. update_create-IsSound (call_args c.body) r s (λ d e. call_args-named c.body d e n);
  }

  create_where-Keeps :
      (c : RpcCall) (r : RpcReply) → IsNamed c.body → Keeps (update_create (call_where c.body) r)
  create_where-Keeps c r n = record {
    at = λ s. update_create-IsSound (call_where c.body) r s (λ d e. call_where-named c.body d e n);
  }

  update_nfs-Keeps : (c : RpcCall) (r : RpcReply) → IsNamed c.body → Keeps (update_nfs c r)
  update_nfs-Keeps c r n =
      Keeps-if (c.proc == Nfs3.lookup) _ _ (record { at = λ s. update_lookup-IsSound c r s n })
        (Keeps-if (c.proc == Nfs3.create) _ _ (create_args-Keeps c r n) (
          Keeps-if (c.proc == Nfs3.mkdir) _ _ (create_args-Keeps c r n) (
            Keeps-if (c.proc == Nfs3.symlink) _ _ (create_where-Keeps c r n) (
              Keeps-if (c.proc == Nfs3.rmdir) _ _ (record { at = update_rmdir-IsSound c })
                (Keeps-if (c.proc == Nfs3.rename) _ _ (record { at = update_rename-IsSound c })
                  (Keeps-if (c.proc == Nfs3.link) _ _ (record { at = update_link-IsSound c r })
                    (Keeps-if (c.proc == Nfs3.remove) _ _ (record { at = update_remove-IsSound c })
                      Keeps-pure)))))))

  update_maps-Keeps : (c : RpcCall) (r : RpcReply) → IsNamed c.body → Keeps (update_maps c r)
  unfolding update_maps
  update_maps-Keeps c r n =
      Keeps-if (c.prog == mountd) _ _ (update_mount-Keeps c r)
        (Keeps-if (c.prog == nfs) _ _ (update_nfs-Keeps c r n) Keeps-pure)

  update_reply-IsSound :
      (c : RpcCall) (r : RpcReply) (s : State)
      → IsNamed c.body
      → IsSound s
      → IsSound (update_reply c r s).1
  unfolding update_reply
  update_reply-IsSound c r s n w = elim (Result-cases (is_reply_parsable r c)) [
    | inr (x, e) ↦ rw e w
    | inl (b, e) ↦ rw e ((Keeps-if b _ _ (update_maps-Keeps c r n) Keeps-pure).at s w)
  ]

  abbrev pub NamedCall : Option RpcCall → Type 0
  NamedCall none = Unit
  NamedCall (some c) = IsNamed c.body

  -- Every name in the call that the packet answers is that of an entry with a name.
  abbrev pub NamedPkt : Pkt → Type 0
  NamedPkt none = Unit
  NamedPkt (some header) = NamedCall header.rpc_call

  update_for-IsSound :
      (oc : Option RpcCall) (r : RpcReply) (s : State)
      → NamedCall oc
      → IsSound s
      → IsSound (update_for oc r s).1
  update_for-IsSound none r s n w = w
  update_for-IsSound (some c) r s n w = update_reply-IsSound c r s n w

  -- Whatever packet comes, if the entries it names have names, `update_state` leaves the names
  -- sound, also when it raises.
  pub update_state-IsSound :
      (pkt : Pkt) (s : State) → NamedPkt pkt → IsSound s → IsSound (update_state pkt s).1
  unfolding update_state
  update_state-IsSound none s n w = record { distinct = w.distinct; nonempty = w.nonempty }
  update_state-IsSound (some header) s n w =
      update_for-IsSound header.rpc_call header.reply (count_pkt s) n
        (record { distinct = w.distinct; nonempty = w.nonempty })
