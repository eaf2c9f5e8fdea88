-- ===== src/Flt/Message/Loop.antt =====
-- What `apacket_decode` yields, and how it ends.
use virt_ue_sensing.Base.{
  ℕ, ltb, ◌≡◌, refl, ap, ◌⊎◌, inl, inr, Option, none, some, List, [], ◌∷◌, All, arith,
}
use virt_ue_sensing.Base.Text.{Text, codes, text_Eq}
use virt_ue_sensing.Base.Dict.{get}
use virt_ue_sensing.Base.Exec.{
  then_result-ok, then_result, Exc, Result, ok, err, value_error, os_error,
}
use virt_ue_sensing.Flt.Decode.{Tuple, text}
use virt_ue_sensing.Flt.Command.{Hresult, code_of}
use virt_ue_sensing.Flt.Message.{
  after_round, after_get, Run, Arrival, Packet, arrived, failed, reply_text, reply_buffer,
  filter_get_message, filter_reply_message, ord_bytes, decode_round, apacket_decode,
}
use virt_ue_sensing.Flt.Build.Labels.{Refuses, Refuses-then, Refuses-ok, Refuses-guard}
use virt_ue_sensing.Flt.Build.Outcome.{packet_decode_header_lem}

-- The tuple has a sensor type.
abbrev pub IsLabelled : Tuple → Type 0
IsLabelled m = (name : Text) × (get (codes "sensor_type") m ≡ some (text name))

-- What a generator may raise.
pub record IsRun (r : Run) : Type 0 where
  pub yields : All IsLabelled r.yields
  pub raised : (x : Exc) → r.raised ≡ some x → (x ≡ value_error) ⊎ (x ≡ os_error)

IsRun-empty :
    (o : Option Exc)
    → ((x : Exc) → o ≡ some x → (x ≡ value_error) ⊎ (x ≡ os_error))
    → IsRun (record { yields = []; raised = o })
IsRun-empty o h = record { yields = tt; raised = h }

filter_get_message-os_error :
    (a : Arrival) (x : Exc) → filter_get_message a ≡ some (err x) → x ≡ os_error
unfolding filter_get_message
filter_get_message-os_error (arrived res sb) x h = cc
filter_get_message-os_error (failed error looks) x h = ground (arith, h)

ord_bytes-Refuses : (s : Text) → Refuses (ord_bytes s)
ord_bytes-Refuses [] = Refuses-ok []
ord_bytes-Refuses (c ∷ s) =
    (Refuses-guard (ltb c 256) (then_result (ord_bytes s) λ b. ok (c ∷ b))
      (Refuses-then (ord_bytes s) _ (ord_bytes-Refuses s) λ b. Refuses-ok (c ∷ b))).1

filter_reply_message-Refuses :
    (send : Text → Hresult) (status msg_id : ℕ) (txt : Text) (msg_len : ℕ)
    → Refuses (filter_reply_message send status msg_id (some txt) msg_len)
unfolding filter_reply_message
filter_reply_message-Refuses send status msg_id txt msg_len =
    (Refuses-guard _
      (then_result (ord_bytes txt)
        λ msg. ok (code_of (send (reply_buffer status msg_id msg msg_len))))
      (Refuses-then (ord_bytes txt) _ (ord_bytes-Refuses txt) λ msg. Refuses-ok _)).0

module _ (utf_16 utf_8 : Text → Option Text) (send : Text → Hresult) where
  abbrev replied : Packet → Result ℕ
  replied p =
      filter_reply_message send 0 p.message_id (some (reply_text p.message_id)) p.reply_length

  decode_round-label :
      (p : Packet) (m : Tuple) → decode_round utf_16 utf_8 send p ≡ ok (some m) → IsLabelled m
  unfolding decode_round
  decode_round-label p m h =
      let (_, _, e) = then_result-ok (replied p) _ (some m) h in
      let (name, _, l) = (packet_decode_header_lem utf_16 utf_8 p.remainder).0 m e in (name, l)

  decode_round-Refuses : (p : Packet) → Refuses (decode_round utf_16 utf_8 send p)
  unfolding decode_round
  decode_round-Refuses p =
      Refuses-then (replied p) _
        (filter_reply_message-Refuses send 0 p.message_id (reply_text p.message_id) p.reply_length)
        λ c. record { refused = (packet_decode_header_lem utf_16 utf_8 p.remainder).2 }

  after_round-IsRun :
      (r : Result (Option Tuple)) (rest : Run)
      → ((m : Tuple) → r ≡ ok (some m) → IsLabelled m)
      → Refuses r
      → IsRun rest
      → IsRun (after_round r rest)
  after_round-IsRun (err x) rest l v h =
      IsRun-empty (some x) λ y e. inl (v.refused y (let i : x ≡ y = cc in ap err i))
  after_round-IsRun (ok none) rest l v h = h
  after_round-IsRun (ok (some m)) rest l v h = record {
    yields = (l m refl, h.yields);
    raised = h.raised;
  }

  after_get-IsRun :
      (g : Option (Result Packet)) (rest : Run)
      → ((x : Exc) → g ≡ some (err x) → x ≡ os_error)
      → IsRun rest
      → IsRun (after_get (decode_round utf_16 utf_8 send) g rest)
  after_get-IsRun none rest o h = IsRun-empty none λ x e. absurd cc
  after_get-IsRun (some (err x)) rest o h =
      IsRun-empty (some x) λ y e. inr (o y (let i : x ≡ y = cc in ap (λ z. some (err z)) i))
  after_get-IsRun (some (ok p)) rest o h =
      after_round-IsRun (decode_round utf_16 utf_8 send p) rest (decode_round-label p)
        (decode_round-Refuses p) h

  -- Every tuple that `apacket_decode` yields has a sensor type; it ends by itself with nothing but a
  -- `ValueError` or an `OSError`.
  pub apacket_decode-IsRun :
      (arrivals : List Arrival) → IsRun (apacket_decode utf_16 utf_8 send arrivals)
  unfolding apacket_decode
  apacket_decode-IsRun [] = IsRun-empty none λ x e. cc
  apacket_decode-IsRun (a ∷ arrivals) =
      after_get-IsRun (filter_get_message a) (apacket_decode utf_16 utf_8 send arrivals)
        (filter_get_message-os_error a) (apacket_decode-IsRun arrivals)
