-- ===== src/Nfs/Tests.antt =====
-- Concrete exchanges, on which the theorems on the sensor's state, handlers and RPC layer are used.
use virt_ue_sensing.Base.{
  ◌+◌, ◌/◌, ◌%◌, ◌^◌, ◌≤◌, ◌≢◌, nat_Eq, ◌≡◌, ◌↔◌, ℕ, refl, Bool, true, ◌&&◌, ◌==◌, some, none, List,
  [], ◌∷◌, Eq, All, arith,
}
use virt_ue_sensing.Base.Text.{codes, text_eq, text_eq_sound, text_eq_refl}
use virt_ue_sensing.Base.Exec.{ok}
use virt_ue_sensing.Nfs.Const.{mountd, nfs, rpc_accept_success, auth_null}
use virt_ue_sensing.Nfs.Const.Mount3
use virt_ue_sensing.Nfs.Const.Nfs3
use virt_ue_sensing.Nfs.Packet.{
  FHandle, NfsPath, DirOpArgs, RpcCall, RpcReply, Pkt, CallBody, lookup_call, lookup_reply_ok,
  mnt_call, mnt_reply_ok,
}
use virt_ue_sensing.Nfs.Key.{path_key, str_key, truthy}
use virt_ue_sensing.Nfs.State.{
  get_path, count_pkt, State, update_state, destroy_mount_mapping, destroy_mounts,
}
use virt_ue_sensing.Nfs.State.Umount.{Unmounted, IsSound, destroy_mount_mapping-Unmounted}
use virt_ue_sensing.Nfs.State.Update.{destroy_mounts-all, update_state-IsSound}
use virt_ue_sensing.Nfs.State.Refine.{update_each, paths_after, update_each-refines}
use virt_ue_sensing.Nfs.State.Learn.{learn, update_state-learn}
use virt_ue_sensing.Nfs.Classes.{IsNfsExchange, nfs3_call_fits, nfs3_reply_fits}
use virt_ue_sensing.Nfs.Handler.{handle_reply}
use virt_ue_sensing.Base.Dict.{keys, get}
use virt_ue_sensing.Nfs.Handler.Reports.{outcome, reported, handle_reply-nfs}
use virt_ue_sensing.Nfs.Rpc
use virt_ue_sensing.Nfs.Rpc.{Xids}
use virt_ue_sensing.Nfs.Rpc.Framing.{marker_fields}
use virt_ue_sensing.Nfs.Rpc.Pairing.{see_reply-pairs, see_reply-once, taken_as, still_noted}

abbrev handle_beq : FHandle → FHandle → Bool
handle_beq a b = (a.l == b.l) && text_eq a.v b.v

handle_beq_iff : (a b : FHandle) → (handle_beq a b ≡ true) ↔ (a ≡ b)
handle_beq_iff a b =
    (λ h. ground (arith, text_eq_sound a.v b.v), λ h. ground (arith, text_eq_refl a.v))

instance abbrev handle_Eq : Eq FHandle
handle_Eq = record { beq = handle_beq; beq_iff = handle_beq_iff }

abbrev path_beq : NfsPath → NfsPath → Bool
path_beq a b = (a.l == b.l) && (text_eq a.v b.v && text_eq a.p b.p)

path_beq_iff : (a b : NfsPath) → (path_beq a b ≡ true) ↔ (a ≡ b)
path_beq_iff a b = (
  λ h. ground (arith, text_eq_sound a.v b.v, text_eq_sound a.p b.p),
  λ h. ground (arith, text_eq_refl a.v, text_eq_refl a.p),
)

instance abbrev path_Eq : Eq NfsPath
path_Eq = record { beq = path_beq; beq_iff = path_beq_iff }

abbrev root_handle : FHandle
root_handle = record { l = 2; v = 7 ∷ 9 ∷ [] }

abbrev file_handle : FHandle
file_handle = record { l = 1; v = 5 ∷ [] }

abbrev export_path : NfsPath
export_path = record { l = 7; v = codes "/export"; p = 0 ∷ [] }

abbrev entry : DirOpArgs
entry = record { handle = root_handle; fname = record { l = 5; v = codes "notes"; p = [] } }

-- One mount and one file in it.
abbrev mounted : State
mounted = record {
  pkt_ct = 3;
  handle_name_map =
      (root_handle, path_key export_path) ∷ (file_handle, str_key (codes "/export/a")) ∷ [];
  name_handle_map =
      (path_key export_path, root_handle) ∷ (str_key (codes "/export/a"), file_handle) ∷ [];
  active_mount_map = (export_path, root_handle) ∷ [];
}

mounted-IsSound : IsSound mounted
unfolding truthy text_eq
mounted-IsSound = record { distinct = (refl, (refl, tt)); nonempty = (refl, (refl, tt)) }

abbrev call_of : ℕ → ℕ → CallBody → RpcCall
call_of prog proc body = record {
  prog = prog;
  proc = proc;
  cred_flav = auth_null;
  auth_sys = [];
  body = body;
}

abbrev lookup_exchange : RpcCall
lookup_exchange = call_of nfs Nfs3.lookup (lookup_call entry)

abbrev lookup_answer : RpcReply
lookup_answer = record { accept_state = rpc_accept_success; body = lookup_reply_ok file_handle }

abbrev mnt_exchange : Pkt
mnt_exchange = some (record {
  rpc_call = some (call_of mountd Mount3.mnt (mnt_call export_path));
  reply = record { accept_state = rpc_accept_success; body = mnt_reply_ok root_handle };
})

lookup-IsNfsExchange : IsNfsExchange lookup_exchange lookup_answer
unfolding nfs3_call_fits nfs3_reply_fits
lookup-IsNfsExchange = record { prog = refl; call = refl; reply = refl }

destroy_mount_mapping-Unmounted_example :
    (t : State) × (destroy_mount_mapping export_path mounted ≡ (ok tt, t))
    × Unmounted export_path mounted t
destroy_mount_mapping-Unmounted_example =
    destroy_mount_mapping-Unmounted export_path mounted mounted-IsSound

destroy_mounts-all_example :
    (t : State) × (destroy_mounts (keys mounted.active_mount_map) mounted ≡ (ok tt, t))
    × IsSound t
    × ((q : NfsPath) → get q t.active_mount_map ≡ none)
destroy_mounts-all_example = destroy_mounts-all mounted mounted-IsSound

update_state-IsSound_example : IsSound (update_state mnt_exchange mounted).1
update_state-IsSound_example = update_state-IsSound mnt_exchange mounted tt mounted-IsSound

update_state-learn_example :
    update_state (some (record { rpc_call = some lookup_exchange; reply = lookup_answer })) mounted
    ≡ (ok tt, learn (some (entry, file_handle)) (count_pkt mounted))
update_state-learn_example =
    update_state-learn lookup_exchange lookup_answer mounted lookup-IsNfsExchange

update_each-refines_example :
    ((update_each ((lookup_exchange, lookup_answer) ∷ []) mounted).0 ≡ ok tt)
    × ((j : FHandle)
        → get_path (update_each ((lookup_exchange, lookup_answer) ∷ []) mounted).1 j
          ≡ paths_after ((lookup_exchange, lookup_answer) ∷ []) (get_path mounted) j)
update_each-refines_example =
    update_each-refines ((lookup_exchange, lookup_answer) ∷ []) mounted (get_path mounted)
      (lookup-IsNfsExchange, tt) (λ j. refl)

handle_reply-nfs_example : outcome (handle_reply lookup_exchange lookup_answer mounted) ≡ reported
handle_reply-nfs_example =
    handle_reply-nfs lookup_exchange lookup_answer mounted lookup-IsNfsExchange refl

abbrev lookup_class : Rpc.ReplyClass
lookup_class = record { prog = nfs; proc = Nfs3.lookup }

abbrev other_reply : List Rpc.Segment
other_reply = Rpc.reply 8 0 none (0 ∷ []) ∷ []

lookup_class-found :
    Rpc.reply_class lookup_exchange.prog lookup_exchange.proc ≡ ok (some lookup_class)
unfolding Rpc.reply_class
lookup_class-found = refl

others : All (λ seg. Rpc.xid_of seg ≢ 7) other_reply
others = ((omega arith), tt)

abbrev after_lookup : Rpc.Xids
after_lookup = Rpc.see (Rpc.call 7 lookup_exchange) Rpc.init

see_reply-pairs_example :
    (Rpc.see_reply 7 0 none (0 ∷ []) (Rpc.see_all other_reply after_lookup)).0
    ≡ ok (record { payload = Rpc.parsed lookup_class; rpc_call = some lookup_exchange })
unfolding taken_as
see_reply-pairs_example =
    see_reply-pairs 7 0 none (0 ∷ []) lookup_exchange lookup_class Rpc.init other_reply
      (omega arith) lookup_class-found others

see_reply-once_example :
    (Rpc.see_reply 7 0 none
      (0 ∷ [])
      (Rpc.see_all other_reply (Rpc.see (Rpc.reply 7 0 none (0 ∷ [])) after_lookup))).0
    ≡ ok (record { payload = Rpc.raw; rpc_call = none })
unfolding taken_as still_noted
see_reply-once_example =
    see_reply-once 7 0 0 none none (0 ∷ []) (0 ∷ []) after_lookup other_reply (omega arith) refl
      others

abbrev marker : ℕ
marker = 2147483648 + 132

marker-passes : Rpc.check_marker marker ≡ ok tt
unfolding Rpc.check_marker
marker-passes = refl

marker_fields_example :
    ((Rpc.marker_post_dissection (Rpc.dissect_marker marker)).last ≡ marker / 2 ^ 31)
    × ((Rpc.marker_post_dissection (Rpc.dissect_marker marker)).len ≡ marker % 2 ^ 31)
    × ((Rpc.marker_post_dissection (Rpc.dissect_marker marker)).len ≤ 2 ^ 16)
marker_fields_example = marker_fields marker (omega arith) marker-passes
