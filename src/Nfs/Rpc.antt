-- ===== src/Nfs/Rpc.antt =====
-- The RPC layer of targets/nfs-sensor-target/sensor/nfs.py: which bytes are taken for an RPC header,
-- and the global maps that join a reply to its call. scapy dissects a packet's layers from the
-- outside in, and then calls `post_dissection` in the same order.
pub mod Framing
pub mod Pairing
use virt_ue_sensing.Base.{
  ℕ, ◌+◌, ◌*◌, ◌/◌, ◌%◌, ◌^◌, Bool, true, false, not, ◌&&◌, ◌||◌, Option, none, some, List, [], ◌∷◌,
  ◌==◌, if◌then◌else◌, nat_Eq, ltb, leb,
}
use virt_ue_sensing.Base.Text.{Text}
use virt_ue_sensing.Base.Dict.{Dict, get, put, remove, contains}
use virt_ue_sensing.Base.Exec.{
  Exc, Result, ok, err, then_result, Exec, pure, lift, gets, modify, ◌>>=◌, ◌>>◌, key_error,
  runtime_error, struct_error,
}
use virt_ue_sensing.Nfs.Const.{msg_call, msg_reply, prog_mismatch, rpc_accept_success}
use virt_ue_sensing.Nfs.Const.{portmapper, mountd, nfs}
use virt_ue_sensing.Nfs.Const.Mount3
use virt_ue_sensing.Nfs.Packet.{RpcCall}

-- `struct.unpack( "!I", pay[:4] )`
unfoldable pub unpack_u32 : Text → Result ℕ
unpack_u32 (a ∷ b ∷ c ∷ d ∷ rest) = ok (a * 2 ^ 24 + b * 2 ^ 16 + c * 2 ^ 8 + d)
unpack_u32 _ = err struct_error

-- `RPC_RecordMarker.pre_dissect`; a mask of the k low bits is the remainder by 2 ^ k.
unfoldable pub check_marker : ℕ → Result (Unit {0})
check_marker field =
    if not ((field / 2 ^ 20) % 2 ^ 11 == 0) || ltb (2 ^ 16) (field % 2 ^ 20)
    then err runtime_error
    else ok tt

unfoldable pub marker_pre_dissect : Text → Result Text
unfolding unpack_u32 check_marker
marker_pre_dissect pay =
    then_result (unpack_u32 pay) λ field. then_result (check_marker field) λ _. ok pay

-- `RPC_RecordMarker`: the two bit fields of 8 and 24 bits.
pub record Marker : Type 0 where
  pub last : ℕ
  pub len : ℕ

unfoldable pub dissect_marker : ℕ → Marker
dissect_marker field = record { last = field / 2 ^ 24; len = field % 2 ^ 24 }

-- `RPC_RecordMarker.post_dissection`; the two parts of `len` have no bit in common.
unfoldable pub marker_post_dissection : Marker → Marker
marker_post_dissection m = record {
  last = if m.last == 0 then 0 else 1;
  len = (m.last % 2 ^ 7) * 2 ^ 24 + m.len;
}

-- `RPC_Header.pre_dissect` on the two words of the header
unfoldable pub check_header : ℕ → ℕ → Result (Unit {0})
check_header xid direction =
    if (xid == 0) || not ((direction == msg_call) || (direction == msg_reply))
    then err runtime_error
    else ok tt

-- The class of a reply is known by its program and procedure.
pub record ReplyClass : Type 0 where
  pub prog : ℕ
  pub proc : ℕ

-- `portmap_reply_lookup`, `mount3_reply_lookup` and `nfs3_reply_lookup` in
-- `RPC_Call.post_dissection`: a procedure outside the table raises, `None` is no class.
unfoldable pub reply_class : ℕ → ℕ → Result (Option ReplyClass)
reply_class prog proc =
    if prog == portmapper
    then (if ltb 5 proc
        then err key_error
        else if (proc == 0) || (proc == 3)
        then ok (some (record { prog = prog; proc = proc }))
        else ok none)
    else if prog == mountd
    then (if ltb 5 proc
        then err key_error
        else if proc == Mount3.dump
        then ok none
        else ok (some (record { prog = prog; proc = proc })))
    else if prog == nfs
    then (if ltb 21 proc then err key_error else ok (some (record { prog = prog; proc = proc })))
    else ok none

pub record Xids : Type 0 where
  pub xid_call_map : Dict ℕ RpcCall
  pub xid_reply_map : Dict ℕ ReplyClass

abbrev pub init : Xids
init = record { xid_call_map = []; xid_reply_map = [] }

abbrev note_class : ℕ → Option ReplyClass → Xids → Xids
note_class xid none x = x
note_class xid (some cls) x = record x { xid_reply_map = put xid cls x.xid_reply_map }

-- A call: `RPC_Header.pre_dissect`, whose refusal leaves no layer to go on with,
-- `RPC_Header.post_dissection`, then `RPC_Call.post_dissection`.
unfoldable pub see_call : ℕ → RpcCall → Exec Xids (Unit {0})
unfolding reply_class check_header
see_call xid c = do
  lift (check_header xid msg_call)
  modify (λ x. record x { xid_call_map = put xid c x.xid_call_map })
  cls ← lift (reply_class c.prog c.proc)
  modify (note_class xid cls)

-- What `RPC_Reply.guess_payload_class` takes a reply's payload for; `raw` is scapy's default, and
-- `absent` the payload of a reply that has no bytes for one.
pub data Payload : Type 0 where
  parsed : ReplyClass → Payload
  mismatch raw absent : Payload

abbrev payload_of : ReplyClass → ℕ → Payload
payload_of cls accept_state =
    if accept_state == rpc_accept_success
    then parsed cls
    else if accept_state == prog_mismatch
    then mismatch
    else raw

unfoldable pub guess_payload : ℕ → ℕ → Xids → Payload × Xids
guess_payload xid accept_state x = elim (get xid x.xid_reply_map) [
  | none ↦ (raw, x)
  | some cls ↦
      (payload_of cls accept_state, record x { xid_reply_map = remove xid x.xid_reply_map })
]

-- scapy asks for the class of a payload only where bytes are left for it.
unfoldable pub dissect_payload : ℕ → ℕ → Text → Xids → Payload × Xids
unfolding guess_payload
dissect_payload xid accept_state [] x = (absent, x)
dissect_payload xid accept_state (b ∷ bytes) x = guess_payload xid accept_state x

-- A record marker in front of the header, with its `last`; UDP has none.
abbrev pub more_to_come : Option ℕ → Bool
more_to_come none = false
more_to_come (some last) = last == 0

-- `RPC_Header.post_dissection` of a reply
unfoldable pub pair_reply : ℕ → Option ℕ → Xids → Option RpcCall × Xids
pair_reply xid under x = elim (get xid x.xid_call_map) [
  | none ↦ (none, x)
  | some c ↦ (
    some c,
    (if more_to_come under then x else record x { xid_call_map = remove xid x.xid_call_map }),
  )
]

-- A reply: its header is checked, the class is guessed while it is dissected, and the call is found
-- afterwards.
pub record Paired : Type 0 where
  pub payload : Payload
  pub rpc_call : Option RpcCall

abbrev on_xids {ℓ} : {A : Type ℓ} → (Xids → A × Xids) → Exec Xids A
on_xids f x = (ok (f x).0, (f x).1)

unfoldable pub see_reply : ℕ → ℕ → Option ℕ → Text → Exec Xids Paired
unfolding check_header dissect_payload pair_reply
see_reply xid accept_state under bytes = do
  lift (check_header xid msg_reply)
  payload ← on_xids (dissect_payload xid accept_state bytes)
  caller ← on_xids (pair_reply xid under)
  pure (record { payload = payload; rpc_call = caller })

-- What the sensor sees on the wire; a reply has its accept state, the `last` of its record marker
-- and the bytes of its payload.
pub data Segment : Type 0 where
  call : ℕ → RpcCall → Segment
  reply : ℕ → ℕ → Option ℕ → Text → Segment

abbrev pub xid_of : Segment → ℕ
xid_of (call xid c) = xid
xid_of (reply xid a u b) = xid

-- A call whose procedure raises has still been noted.
unfoldable pub see : Segment → Xids → Xids
see (call xid c) x = (see_call xid c x).1
see (reply xid a u b) x = (see_reply xid a u b x).1

unfoldable pub see_all : List Segment → Xids → Xids
see_all [] x = x
see_all (seg ∷ segs) x = see_all segs (see seg x)
