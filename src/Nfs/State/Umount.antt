-- ===== src/Nfs/State/Umount.antt =====
-- `_destroy_mount_mapping`: it never raises on a monitor with sound names, removes every name below
-- the mount with its handle, and leaves the rest.
use virt_ue_sensing.Base.{
  ◌≡◌, refl, true, false, some, none, Option, Bool, List, [], ◌∷◌, Eq, arith, if◌then◌else◌, ◌||◌,
  All, keep_if, ◌&&◌,
}
use virt_ue_sensing.Base.Text.{starts_with}
use virt_ue_sensing.Base.Dict.{get, contains, contains-eq-get, get-remove, keys}
use virt_ue_sensing.Base.Members.{
  mem, Distinct, mem-keep_if, Distinct-keep_if, mem-keys, Distinct-remove, All-mem, All-of_mem,
}
use virt_ue_sensing.Base.Exec.{ok}
use virt_ue_sensing.Nfs.Packet.{FHandle, NfsPath, str_path}
use virt_ue_sensing.Nfs.Key.{Key, str, truthy, key_Eq}
use virt_ue_sensing.Nfs.State.{
  State, drop_mapping, destroy_each, below_mount, destroy_mount_mapping, forget_mount,
}
use virt_ue_sensing.Nfs.State.Create.{destroy_handle_mapping-path, get-drop_names, get-drop_handles}

module _ ⦃fe : Eq FHandle⦄ ⦃pe : Eq NfsPath⦄ where
  -- No name is filed twice, and none is the empty text.
  pub record IsSound (s : State) : Type 0 where
    pub distinct : Distinct (keys s.name_handle_map)
    pub nonempty : All (λ k. truthy k ≡ true) (keys s.name_handle_map)

  abbrev pub holds : FHandle → Option FHandle → Bool
  holds h none = false
  holds h (some j) = fe.beq j h

  -- Whether one of the names is filed with the handle.
  abbrev pub filed_with : FHandle → List Key → State → Bool
  filed_with h [] s = false
  filed_with h (k ∷ ks) s = holds h (get k s.name_handle_map) || filed_with h ks s

  -- What is left when the names `ks` are gone.
  pub record Removed (ks : List Key) (s t : State) : Type 0 where
    pub names :
        (j : Key) → get j t.name_handle_map ≡ (if mem j ks then none else get j s.name_handle_map)
    pub handles :
        (h : FHandle)
        → get h t.handle_name_map ≡ (if filed_with h ks s then none else get h s.handle_name_map)
    pub mounts : t.active_mount_map ≡ s.active_mount_map
    pub count : t.pkt_ct ≡ s.pkt_ct
    pub distinct : Distinct (keys s.name_handle_map) → Distinct (keys t.name_handle_map)

  abbrev Filed : State → Key → Type 0
  Filed s k = (truthy k ≡ true) × (contains k s.name_handle_map ≡ true)

  contains-drop :
      (k j : Key) (h : FHandle) (s : State)
      → key_Eq.beq k j ≡ false
      → contains j s.name_handle_map ≡ true
      → contains j (drop_mapping k h s).name_handle_map ≡ true
  contains-drop k j h s n c = ground (
    arith,
    contains-eq-get j (drop_mapping k h s).name_handle_map,
    contains-eq-get j s.name_handle_map,
    get-drop_names k j h s,
  )

  Filed-drop :
      (k : Key) (h : FHandle) (s : State) (ks : List Key)
      → mem k ks ≡ false
      → All (Filed s) ks
      → All (Filed (drop_mapping k h s)) ks
  Filed-drop k h s [] n f = tt
  Filed-drop k h s (j ∷ ks) n f = (
    (f.0.0, contains-drop k j h s (ground (arith, key_Eq.beq_iff k j, key_Eq.beq_iff j k)) f.0.1),
    Filed-drop k h s ks (ground arith) f.1,
  )

  filed_with-drop :
      (k : Key) (h i : FHandle) (s : State) (ks : List Key)
      → mem k ks ≡ false
      → filed_with i ks (drop_mapping k h s) ≡ filed_with i ks s
  filed_with-drop k h i s [] n = refl
  filed_with-drop k h i s (j ∷ ks) n = ground (
    arith,
    filed_with-drop k h i s ks,
    get-drop_names k j h s,
    key_Eq.beq_iff k j,
    key_Eq.beq_iff j k,
  )

  get_of_filed :
      (k : Key) (s : State)
      → contains k s.name_handle_map ≡ true
      → (h : FHandle) × (get k s.name_handle_map ≡ some h)
  get_of_filed k s c = ground (arith, contains-eq-get k s.name_handle_map)

  Distinct-drop :
      (k : Key) (h : FHandle) (s : State)
      → Distinct (keys s.name_handle_map)
      → Distinct (keys (drop_mapping k h s).name_handle_map)
  Distinct-drop k h s d = ground (arith, Distinct-remove k s.name_handle_map d)

  Removed-cons :
      (k : Key) (ks : List Key) (h : FHandle) (s t : State)
      → mem k ks ≡ false
      → get k s.name_handle_map ≡ some h
      → Removed ks (drop_mapping k h s) t
      → Removed (k ∷ ks) s t
  Removed-cons k ks h s t n g r = record {
    names = λ j. ground (arith, r.names j, get-drop_names k j h s);
    handles =
        λ i. ground (arith, r.handles i, get-drop_handles k h i s, filed_with-drop k h i s ks);
    mounts = r.mounts;
    count = r.count;
    distinct = λ d. r.distinct (Distinct-drop k h s d);
  }

  -- The loop over names that are filed, each once, ends without a raise.
  destroy_each-Removed :
      (ks : List Key) (s : State)
      → Distinct ks
      → All (Filed s) ks
      → (t : State) × (destroy_each ks s ≡ (ok tt, t)) × Removed ks s t
  unfolding destroy_each
  destroy_each-Removed [] s d f = (
    s,
    refl,
    record {
      names = λ j. refl;
      handles = λ h. refl;
      mounts = refl;
      count = refl;
      distinct = λ d. d;
    },
  )
  destroy_each-Removed (k ∷ ks) s d f =
      let (h, g) = get_of_filed k s f.0.1 in
      let (t, e, r) =
        destroy_each-Removed ks (drop_mapping k h s) d.1 (Filed-drop k h s ks d.0 f.1) in
      (
        t,
        ground (arith, e, destroy_handle_mapping-path k s f.0.0 g),
        Removed-cons k ks h s t d.0 g r,
      )

  below_mount-Filed : (p : NfsPath) (s : State) → IsSound s → All (Filed s) (below_mount p s)
  unfolding below_mount
  below_mount-Filed p s w =
      let below = λ (k : Key). starts_with (str_path p) (str k) in
      let names = keys s.name_handle_map in
      All-of_mem (Filed s) (keep_if below names) (λ k m.
        let e = mem-keep_if below k names in
        (
          All-mem (λ j. truthy j ≡ true) k names w.nonempty (ground arith),
          ground (arith, mem-keys k s.name_handle_map),
        ))

  below_mount-Distinct : (p : NfsPath) (s : State) → IsSound s → Distinct (below_mount p s)
  unfolding below_mount
  below_mount-Distinct p s w =
      Distinct-keep_if (λ k. starts_with (str_path p) (str k)) (keys s.name_handle_map) w.distinct

  -- A name is visited exactly if it is filed and starts with the text of the mount's path.
  mem-below_mount :
      (p : NfsPath) (k : Key) (s : State)
      → mem k (below_mount p s) ≡ (contains k s.name_handle_map && starts_with (str_path p) (str k))
  unfolding below_mount
  mem-below_mount p k s = ground (
    arith,
    mem-keep_if (λ k. starts_with (str_path p) (str k)) k (keys s.name_handle_map),
    mem-keys k s.name_handle_map,
  )

  Removed-IsSound : (ks : List Key) (s t : State) → Removed ks s t → IsSound s → IsSound t
  Removed-IsSound ks s t r w = record {
    distinct = r.distinct w.distinct;
    nonempty =
        All-of_mem (λ k. truthy k ≡ true) (keys t.name_handle_map)
          (λ k m.
            All-mem (λ k. truthy k ≡ true) k (keys s.name_handle_map) w.nonempty
              (ground (
                arith,
                r.names k,
                mem-keys k t.name_handle_map,
                mem-keys k s.name_handle_map,
                contains-eq-get k t.name_handle_map,
                contains-eq-get k s.name_handle_map,
              )));
  }

  -- What `_destroy_mount_mapping path` leaves of `s`.
  pub record Unmounted (path : NfsPath) (s t : State) : Type 0 where
    pub names :
        (k : Key)
        → get k t.name_handle_map
          ≡ (if starts_with (str_path path) (str k) then none else get k s.name_handle_map)
    pub handles :
        (h : FHandle)
        → get h t.handle_name_map
          ≡ (if filed_with h (below_mount path s) s then none else get h s.handle_name_map)
    pub mounts :
        (q : NfsPath)
        → get q t.active_mount_map ≡ (if pe.beq path q then none else get q s.active_mount_map)
    pub count : t.pkt_ct ≡ s.pkt_ct
    pub sound : IsSound t

  -- On a monitor with sound names `_destroy_mount_mapping` returns; it removes every name that
  -- starts with the mount's path, each handle filed under such a name and the mount itself, and
  -- nothing else, and the names stay sound.
  pub destroy_mount_mapping-Unmounted :
      (path : NfsPath) (s : State)
      → IsSound s
      → (t : State) × (destroy_mount_mapping path s ≡ (ok tt, t)) × Unmounted path s t
  unfolding destroy_mount_mapping
  destroy_mount_mapping-Unmounted path s w =
      let ks = below_mount path s in
      let (t, e, r) =
        destroy_each-Removed ks s (below_mount-Distinct path s w) (below_mount-Filed path s w) in
      (
        forget_mount path t,
        ground (arith, e),
        record {
          names = λ k.
              ground
                (arith, r.names k, mem-below_mount path k s, contains-eq-get k s.name_handle_map);
          handles = r.handles;
          mounts = λ q. ground (
            arith,
            r.mounts,
            get-remove path q s.active_mount_map,
            contains-eq-get path s.active_mount_map,
            pe.beq_iff path q,
          );
          count = r.count;
          sound =
              let v = Removed-IsSound ks s t r w in
              record { distinct = v.distinct; nonempty = v.nonempty };
        },
      )

  pub drop_mapping-IsSound :
      (k : Key) (h : FHandle) (s : State)
      → get k s.name_handle_map ≡ some h
      → IsSound s
      → IsSound (drop_mapping k h s)
  drop_mapping-IsSound k h s g w =
      Removed-IsSound (k ∷ []) s (drop_mapping k h s)
        (Removed-cons k [] h s (drop_mapping k h s) refl g (record {
          names = λ j. refl;
          handles = λ i. refl;
          mounts = refl;
          count = refl;
          distinct = λ d. d;
        }))
        w
