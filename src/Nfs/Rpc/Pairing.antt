-- ===== src/Nfs/Rpc/Pairing.antt =====
-- Replies are joined to their calls.
use virt_ue_sensing.Base.{
  ℕ, ◌≡◌, ◌≢◌, refl, false, Option, some, none, List, [], ◌∷◌, arith, ◌∙◌, Option-cases, inl, inr,
  All, nat_Eq,
}
use virt_ue_sensing.Base.Dict.{get, get-put, get-remove}
use virt_ue_sensing.Base.Exec.{ok, Result-cases}
use virt_ue_sensing.Nfs.Packet.{RpcCall}
use virt_ue_sensing.Nfs.Rpc.{
  Text, Xids, ReplyClass, reply_class, see_call, see_reply, Segment, call, reply, xid_of, see,
  see_all, Payload, payload_of, more_to_come,
}

-- A segment with another transaction id leaves what is noted for this one.
see-get_call :
    (xid : ℕ) (seg : Segment) (x : Xids)
    → xid_of seg ≢ xid
    → get xid (see seg x).xid_call_map ≡ get xid x.xid_call_map
unfolding see see_call see_reply
see-get_call xid (call y c) x n = ground (arith, get-put y xid c x.xid_call_map)
see-get_call xid (reply y a u []) x n = ground (arith, get-remove y xid x.xid_call_map)
see-get_call xid (reply y a u (b ∷ bs)) x n = ground (arith, get-remove y xid x.xid_call_map)

see-get_class :
    (xid : ℕ) (seg : Segment) (x : Xids)
    → xid_of seg ≢ xid
    → get xid (see seg x).xid_reply_map ≡ get xid x.xid_reply_map
unfolding see see_call see_reply
see-get_class xid (call y c) x n = elim (Result-cases (reply_class c.prog c.proc)) [
  | inr (e, f) ↦ ground arith
  | inl (o, f) ↦ elim (Option-cases o) [
    | inl absent ↦ ground arith
    | inr (cls, g) ↦ ground (arith, get-put y xid cls x.xid_reply_map)
  ]
]
see-get_class xid (reply y a u []) x n = ground arith
see-get_class xid (reply y a u (b ∷ bs)) x n = ground (arith, get-remove y xid x.xid_reply_map)

see_all-get :
    (xid : ℕ) (segs : List Segment) (x : Xids)
    → All (λ seg. xid_of seg ≢ xid) segs
    → (get xid (see_all segs x).xid_call_map ≡ get xid x.xid_call_map)
      × (get xid (see_all segs x).xid_reply_map ≡ get xid x.xid_reply_map)
unfolding see_all
see_all-get xid [] x a = (refl, refl)
see_all-get xid (seg ∷ segs) x a =
    let (p, q) = see_all-get xid segs (see seg x) a.1 in
    (p ∙ see-get_call xid seg x a.0, q ∙ see-get_class xid seg x a.0)

see_call-get :
    (xid : ℕ) (c : RpcCall) (cls : ReplyClass) (x : Xids)
    → xid ≢ 0
    → reply_class c.prog c.proc ≡ ok (some cls)
    → (get xid (see (call xid c) x).xid_call_map ≡ some c)
      × (get xid (see (call xid c) x).xid_reply_map ≡ some cls)
unfolding see see_call
see_call-get xid c cls x z e = (
  ground (arith, get-put xid xid c x.xid_call_map),
  ground (arith, get-put xid xid cls x.xid_reply_map),
)

-- What a payload is taken for, by the class that is noted for it
unfoldable pub taken_as : Option ReplyClass → ℕ → Text → Payload
taken_as o accept_state [] = Payload.absent
taken_as none accept_state (b ∷ bytes) = Payload.raw
taken_as (some cls) accept_state (b ∷ bytes) = payload_of cls accept_state

-- The class that is still noted after a reply with those bytes
unfoldable pub still_noted : Text → Option ReplyClass → Option ReplyClass
still_noted [] o = o
still_noted (b ∷ bytes) o = none

see_reply_lem :
    (xid accept_state : ℕ) (under : Option ℕ) (bytes : Text) (x : Xids)
    → xid ≢ 0
    → (see_reply xid accept_state under bytes x).0
      ≡ ok (record {
        payload = taken_as (get xid x.xid_reply_map) accept_state bytes;
        rpc_call = get xid x.xid_call_map;
      })
unfolding see_reply taken_as
see_reply_lem xid accept_state under [] x z = ground arith
see_reply_lem xid accept_state under (b ∷ bytes) x z = ground arith

see_reply-noted :
    (xid accept_state : ℕ) (under : Option ℕ) (bytes : Text) (x : Xids) {c : Option RpcCall}
    {o : Option ReplyClass}
    → xid ≢ 0
    → get xid x.xid_call_map ≡ c
    → get xid x.xid_reply_map ≡ o
    → (see_reply xid accept_state under bytes x).0
      ≡ ok (record { payload = taken_as o accept_state bytes; rpc_call = c })
see_reply-noted xid accept_state under bytes x z p q =
    see_reply_lem xid accept_state under bytes x z
    ∙ (λ i. ok (record { payload = taken_as (q i) accept_state bytes; rpc_call = p i }))

-- A reply with a transaction id other than 0 is joined to the last call with that id, whatever calls
-- and replies with other ids lie between. Its payload is read as the class of that call's procedure
-- when the call was accepted with success, as a mismatch at PROG_MISMATCH, and stays raw at any other
-- accept state; a reply without bytes for a payload has none.
pub see_reply-pairs :
    (xid accept_state : ℕ) (under : Option ℕ) (bytes : Text) (c : RpcCall) (cls : ReplyClass)
    (x : Xids) (between : List Segment)
    → xid ≢ 0
    → reply_class c.prog c.proc ≡ ok (some cls)
    → All (λ seg. xid_of seg ≢ xid) between
    → (see_reply xid accept_state under bytes (see_all between (see (call xid c) x))).0
      ≡ ok (record { payload = taken_as (some cls) accept_state bytes; rpc_call = some c })
see_reply-pairs xid accept_state under bytes c cls x between z e a =
    let (p, q) = see_call-get xid c cls x z e in
    let (r, t) = see_all-get xid between (see (call xid c) x) a in
    see_reply-noted xid accept_state under bytes _ z (r ∙ p) (t ∙ q)

see_reply-forgets :
    (xid accept_state : ℕ) (under : Option ℕ) (bytes : Text) (x : Xids)
    → xid ≢ 0
    → more_to_come under ≡ false
    → (get xid (see (reply xid accept_state under bytes) x).xid_call_map ≡ none)
      × (get xid (see (reply xid accept_state under bytes) x).xid_reply_map
          ≡ still_noted bytes (get xid x.xid_reply_map))
unfolding see see_reply still_noted
see_reply-forgets xid accept_state under [] x z m =
    (ground (arith, get-remove xid xid x.xid_call_map), ground arith)
see_reply-forgets xid accept_state under (b ∷ bytes) x z m = (
  ground (arith, get-remove xid xid x.xid_call_map),
  ground (arith, get-remove xid xid x.xid_reply_map),
)

-- A reply that is no fragment with more to come uses up its call: a second reply with the same
-- transaction id (not 0), with no call of that id in between, is joined to no call. When the first
-- one had a payload, the second one's payload stays raw; when it had none, the class that was noted
-- before the first is still there and is the one that the second is read by.
pub see_reply-once :
    (xid first second : ℕ) (under next : Option ℕ) (bytes more : Text) (x : Xids)
    (between : List Segment)
    → xid ≢ 0
    → more_to_come under ≡ false
    → All (λ seg. xid_of seg ≢ xid) between
    → (see_reply xid second next more (see_all between (see (reply xid first under bytes) x))).0
      ≡ ok (record {
        payload = taken_as (still_noted bytes (get xid x.xid_reply_map)) second more;
        rpc_call = none;
      })
see_reply-once xid first second under next bytes more x between z m a =
    let (p, q) = see_reply-forgets xid first under bytes x z m in
    let (r, t) = see_all-get xid between (see (reply xid first under bytes) x) a in
    see_reply-noted xid second next more _ z (r ∙ p) (t ∙ q)
