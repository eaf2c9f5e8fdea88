-- ===== src/Nfs/State/Refine.antt =====
-- The monitor's maps as an implementation of a function from handles to paths.
use virt_ue_sensing.Base.{◌≡◌, refl, ◌∙◌, some, none, Eq, List, [], ◌∷◌, All, if◌then◌else◌}
use virt_ue_sensing.Base.Text.{Text, join_path}
use virt_ue_sensing.Base.Exec.{>>-ok, Exec, ok, pure, ◌>>◌}
use virt_ue_sensing.Nfs.Classes.{IsNfsExchange}
use virt_ue_sensing.Nfs.Key.{str_key, key_Eq}
use virt_ue_sensing.Nfs.Packet.{FHandle, NfsPath, RpcCall, RpcReply, str_fname}
use virt_ue_sensing.Nfs.State.{get_path, State, dir_entry, count_pkt, update_state}
use virt_ue_sensing.Nfs.State.Create.{get_path-create}
use virt_ue_sensing.Nfs.State.Learn.{Lesson, lesson, learn, update_state-learn}

-- What the monitor is for: the path of each handle.
abbrev pub Paths : Type 0
Paths = FHandle → Text

abbrev pub Exchange : Type 0
Exchange = RpcCall × RpcReply

abbrev pub IsExchange : Exchange → Type 0
IsExchange (c, r) = IsNfsExchange c r

module _ ⦃fe : Eq FHandle⦄ ⦃pe : Eq NfsPath⦄ where
  -- A lesson sets the path of one handle.
  abbrev pub learn_path : Lesson → Paths → Paths
  learn_path none p j = p j
  learn_path (some (d, h)) p j =
      if fe.beq h j then join_path (p d.handle) (str_fname d.fname) else p j

  abbrev pub paths_after : List Exchange → Paths → Paths
  paths_after [] p = p
  paths_after ((c, r) ∷ xs) p = paths_after xs (learn_path (lesson c.body r.body) p)

  -- `update_state` on one packet after the other
  abbrev pub update_each : List Exchange → Exec State (Unit {0})
  update_each [] = pure tt
  update_each ((c, r) ∷ xs) = do
    update_state (some (record { rpc_call = some c; reply = r }))
    update_each xs

  get_path-learn :
      (l : Lesson) (s : State) (j : FHandle) → get_path (learn l s) j ≡ learn_path l (get_path s) j
  unfolding dir_entry
  get_path-learn none s j = refl
  get_path-learn (some (d, h)) s j = get_path-create (str_key (dir_entry s d)) h j s

  learn_path-ext :
      (l : Lesson) (p q : Paths)
      → ((j : FHandle) → p j ≡ q j)
      → (j : FHandle) → learn_path l p j ≡ learn_path l q j
  learn_path-ext none p q e j = e j
  learn_path-ext (some (d, h)) p q e j = rw (e d.handle, e j) refl

  count_pkt-same :
      (s : State) (p : Paths)
      → ((j : FHandle) → get_path s j ≡ p j)
      → (j : FHandle) → get_path (count_pkt s) j ≡ p j
  unfolding get_path
  count_pkt-same s p e j = e j

  -- After any NFS exchanges, paired as the dissector does, none of which makes `update_state` raise,
  -- `get_path` gives for each handle the path that the exchanges give it in turn: the monitor's maps implement the
  -- function from handles to paths, whatever they hold at first.
  pub update_each-refines :
      (xs : List Exchange) (s : State) (p : Paths)
      → All IsExchange xs
      → ((j : FHandle) → get_path s j ≡ p j)
      → ((update_each xs s).0 ≡ ok tt)
        × ((j : FHandle) → get_path (update_each xs s).1 j ≡ paths_after xs p j)
  update_each-refines [] s p h e = (refl, e)
  update_each-refines ((c, r) ∷ xs) s p (x, h) e =
      let l = lesson c.body r.body in
      let next = update_state (some (record { rpc_call = some c; reply = r })) in
      let t = learn l (count_pkt s) in
      let same = count_pkt-same s p e in
      rw (>>-ok next (update_each xs) s t tt (update_state-learn c r s x)) (
        update_each-refines xs t (learn_path l p) h λ j.
          get_path-learn l (count_pkt s) j ∙ learn_path-ext l (get_path (count_pkt s)) p same j)
