-- ===== src/Nfs/State/Create.antt =====
-- What `_create_handle_mapping` and `_destroy_handle_mapping` do to the maps.
use virt_ue_sensing.Base.{◌≡◌, true, some, none, Eq, arith, if◌then◌else◌}
use virt_ue_sensing.Base.Dict.{get, contains, contains-eq-get, get-put, get-remove}
use virt_ue_sensing.Base.Exec.{ok, err, key_error}
use virt_ue_sensing.Nfs.Packet.{FHandle, NfsPath}
use virt_ue_sensing.Nfs.Key.{Key, str, truthy, key_Eq}
use virt_ue_sensing.Nfs.State.{
  State, get_path, create_handle_mapping, destroy_handle_mapping, drop_mapping,
}

module _ ⦃fe : Eq FHandle⦄ ⦃pe : Eq NfsPath⦄ where
  -- After a mapping is made its handle reads back as its path, and the path of every other handle
  -- is what it was.
  pub get_path-create :
      (k : Key) (h j : FHandle) (s : State)
      → get_path (create_handle_mapping k h s) j ≡ (if fe.beq h j then str k else get_path s j)
  unfolding get_path create_handle_mapping
  get_path-create k h j s = ground (arith, get-put h j k s.handle_name_map)

  pub contains_of_get :
      {h : FHandle} (k : Key) (s : State)
      → get k s.name_handle_map ≡ some h
      → contains k s.name_handle_map ≡ true
  contains_of_get k s e = ground (arith, contains-eq-get k s.name_handle_map)

  -- The call with a path that is filed removes the path and the handle that is filed under it.
  pub destroy_handle_mapping-path :
      {h : FHandle} (k : Key) (s : State)
      → truthy k ≡ true
      → get k s.name_handle_map ≡ some h
      → destroy_handle_mapping (some k) none s ≡ (ok tt, drop_mapping k h s)
  unfolding destroy_handle_mapping
  destroy_handle_mapping-path k s t e = ground arith

  -- A path that is not filed raises `KeyError` and changes nothing.
  pub destroy_handle_mapping-missing :
      (k : Key) (s : State)
      → truthy k ≡ true
      → get k s.name_handle_map ≡ none
      → destroy_handle_mapping (some k) none s ≡ (err key_error, s)
  unfolding destroy_handle_mapping
  destroy_handle_mapping-missing k s t e = ground arith

  pub get-drop_names :
      (k j : Key) (h : FHandle) (s : State)
      → get j (drop_mapping k h s).name_handle_map
        ≡ (if key_Eq.beq k j then none else get j s.name_handle_map)
  get-drop_names k j h s = ground (
    arith,
    get-remove k j s.name_handle_map,
    contains-eq-get k s.name_handle_map,
    key_Eq.beq_iff k j,
  )

  pub get-drop_handles :
      (k : Key) (h i : FHandle) (s : State)
      → get i (drop_mapping k h s).handle_name_map
        ≡ (if fe.beq h i then none else get i s.handle_name_map)
  get-drop_handles k h i s =
      ground (
        arith,
        get-remove h i s.handle_name_map,
        contains-eq-get h s.handle_name_map,
        fe.beq_iff h i,
      )
