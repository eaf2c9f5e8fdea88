-- ===== src/Flt/Message.antt =====
-- The loop over the driver's messages: `FilterGetMessage`, `FilterReplyMessage` and `apacket_decode` of
-- sensors/ntfltmgr/ntfltmgr.py.
pub mod Loop
pub mod Reply
pub mod Wait
use virt_ue_sensing.Base.{
  ℕ, ◌-◌, ◌%◌, ◌++◌, Option, none, some, List, [], ◌∷◌, ltb, leb, ◌==◌, ◌||◌, if◌then◌else◌, length,
  drop,
}
use virt_ue_sensing.Base.Text.{Text, codes}
use virt_ue_sensing.Base.Number.{to_decimal}
use virt_ue_sensing.Base.Bytes.{to_le}
use virt_ue_sensing.Base.Exec.{Exc, Result, ok, err, then_result, value_error, os_error}
use virt_ue_sensing.Base.Fallible.{◌>>=◌, ◌>>◌}
use virt_ue_sensing.Flt.Layout.{sizeof, number}
use virt_ue_sensing.Flt.Layout.Packing.{zeros}
use virt_ue_sensing.Flt.Structs.{filter_reply_header, filter_message_header}
use virt_ue_sensing.Flt.Buffer.{assign}
use virt_ue_sensing.Flt.Command.{Hresult, code_of}
use virt_ue_sensing.Flt.Decode.{Tuple}
use virt_ue_sensing.Flt.Build.{packet_decode_header}

-- The reply: the message with zeros behind it, and then the header in its first bytes.
unfoldable pub reply_buffer : ℕ → ℕ → Text → ℕ → Text
unfolding sizeof
reply_buffer status msg_id msg msg_len =
    assign filter_reply_header (codes "MessageId") (to_le 8 msg_id) (
      assign filter_reply_header (codes "Status") (to_le 4 status)
        (msg ++ zeros (msg_len - length msg)))

-- `map(ord, txt)` into a `bytearray`
abbrev pub ord_bytes : Text → Result Text
ord_bytes [] = ok []
ord_bytes (c ∷ s) =
    let rest = ord_bytes s in
    if ltb c 256 then then_result rest (λ b. ok (c ∷ b)) else err value_error

-- `FilterReplyMessage`; `send` is `_FilterReplyMessage`, and `none` stands for `None`.
module _ (send : Text → Hresult) where
  unfoldable pub filter_reply_message : ℕ → ℕ → Option Text → ℕ → Result ℕ
  unfolding sizeof
  filter_reply_message status msg_id none msg_len = err value_error
  filter_reply_message status msg_id (some txt) msg_len =
      if (length txt == 0) || ltb msg_len (length txt) || leb msg_len (sizeof filter_reply_header)
      then err value_error
      else do msg ← ord_bytes txt; ok (code_of (send (reply_buffer status msg_id msg msg_len)))

-- What comes of `_FilterGetMessage`: the message, or an `OSError`, and then what the buffer holds at each
-- look at it.
pub data Arrival : Type 0 where
  arrived : ℕ → Text → Arrival
  failed : ℕ → List Text → Arrival

pub record Packet : Type 0 where
  pub reply_length : ℕ
  pub message_id : ℕ
  pub remainder : Text

-- The first look at which the length is there; `none` if it never is.
abbrev pub poll : List Text → Option Text
poll [] = none
poll (sb ∷ looks) =
    let later = poll looks in
    if number filter_message_header (codes "ReplyLength") sb == 0 then later else some sb

unfoldable pub packet_of : Text → Packet
unfolding sizeof
packet_of sb = record {
  reply_length = number filter_message_header (codes "ReplyLength") sb;
  message_id = number filter_message_header (codes "MessageId") sb;
  remainder = drop (sizeof filter_message_header) sb;
}

-- `FilterGetMessage`, which is only called with the fixed size `MAXPKTSZ`: `none` if it waits for ever.
unfoldable pub filter_get_message : Arrival → Option (Result Packet)
filter_get_message (arrived res sb) = some (ok (packet_of sb))
filter_get_message (failed error looks) =
    if error % 0x10000 == 0x3e5
    then elim (poll looks) [ none ↦ none | some sb ↦ some (ok (packet_of sb)) ]
    else some (err os_error)

abbrev pub reply_text : ℕ → Text
reply_text id = codes "Response to Message Id " ++ to_decimal id ++ codes "\n"

-- A generator's run: what it yields, and how it ends; `none` if it waits for ever.
pub record Run : Type 0 where
  pub yields : List Tuple
  pub raised : Option Exc

-- `if not msg_data: continue`, or `yield`, and what the rest of the loop does.
abbrev pub after_round : Result (Option Tuple) → Run → Run
after_round (err x) rest = record { yields = []; raised = some x }
after_round (ok none) rest = rest
after_round (ok (some m)) rest = record { yields = m ∷ rest.yields; raised = rest.raised }

abbrev pub after_get : (Packet → Result (Option Tuple)) → Option (Result Packet) → Run → Run
after_get round none rest = record { yields = []; raised = none }
after_get round (some (err x)) rest = record { yields = []; raised = some x }
after_get round (some (ok p)) rest = after_round (round p) rest

-- `utf_16` and `utf_8` are Python's decoders, `send` is `_FilterReplyMessage`.
module _ (utf_16 utf_8 : Text → Option Text) (send : Text → Hresult) where
  -- One round of `apacket_decode`.
  unfoldable pub decode_round : Packet → Result (Option Tuple)
  decode_round msg_pkt = do
    filter_reply_message send 0 msg_pkt.message_id (some (reply_text msg_pkt.message_id))
        msg_pkt.reply_length
    packet_decode_header utf_16 utf_8 msg_pkt.remainder

  -- `apacket_decode` over what arrives; after the last arrival it waits.
  unfoldable pub apacket_decode : List Arrival → Run
  apacket_decode [] = record { yields = []; raised = none }
  apacket_decode (a ∷ arrivals) =
      after_get decode_round (filter_get_message a) (apacket_decode arrivals)
