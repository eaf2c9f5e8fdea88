-- ===== src/Flt/Message/Reply.antt =====
-- What the driver gets as a reply.
use virt_ue_sensing.Base.{
  ℕ, ◌-◌, ◌^◌, ◌≡◌, ◌≤◌, ◌<◌, ◌++◌, ap, ◌∙◌, arith, length, length-append, drop,
}
use virt_ue_sensing.Base.Text.{Text, codes, text_eq}
use virt_ue_sensing.Base.Bytes.{le, to_le, le-to_le}
use virt_ue_sensing.Flt.Layout.{sizeof, number, offset_from, field_from}
use virt_ue_sensing.Flt.Layout.Packing.{zeros, length-zeros}
use virt_ue_sensing.Flt.Structs.{filter_reply_header}
use virt_ue_sensing.Flt.Buffer.{
  overwrite, length-overwrite, bytes_at-overwrite, drop-overwrite, bytes_at-overwrite_before,
}
use virt_ue_sensing.Flt.Message.{reply_buffer}
use virt_ue_sensing.Flt.Build.Header.{Fits-bound_8}

-- The reply has the length asked for and the header with the status and the number of the message; of
-- the text it keeps what stands behind its first 16 characters, with zeros behind that.
pub reply_buffer_lem :
    (status msg_id msg_len : ℕ) (msg : Text)
    → status < 2 ^ 32
    → msg_id < 2 ^ 64
    → length msg ≤ msg_len
    → sizeof filter_reply_header < msg_len
    → (length (reply_buffer status msg_id msg msg_len) ≡ msg_len)
      × (number filter_reply_header (codes "Status") (reply_buffer status msg_id msg msg_len)
          ≡ status)
      × (number filter_reply_header (codes "MessageId") (reply_buffer status msg_id msg msg_len)
          ≡ msg_id)
      × (drop (sizeof filter_reply_header) (reply_buffer status msg_id msg msg_len)
          ≡ drop (sizeof filter_reply_header) (msg ++ zeros (msg_len - length msg)))
unfolding reply_buffer sizeof offset_from field_from text_eq
reply_buffer_lem status msg_id msg_len msg h i fits long =
    let b = msg ++ zeros (msg_len - length msg) in
    let s = to_le 4 status in
    let m = to_le 8 msg_id in
    let c = overwrite 0 s b in
    let lb : length b ≡ msg_len = omega (
      arith,
      length-append msg (zeros (msg_len - length msg)),
      length-zeros (msg_len - length msg),
      fits,
    ) in
    let lc : length c ≡ msg_len = length-overwrite 0 s b (omega (arith, lb, long)) ∙ lb in
    (
      length-overwrite 8 m c (omega (arith, lc, long)) ∙ lc,
      ap le (
            bytes_at-overwrite_before 0 4 8 m c (omega arith)
            ∙ bytes_at-overwrite 0 s b (omega (arith, lb, long)))
          ∙ le-to_le 4 status (omega (arith, h)),
      ap le (bytes_at-overwrite 8 m c (omega (arith, lc, long)))
          ∙ le-to_le 8 msg_id (Fits-bound_8 msg_id i),
      drop-overwrite 16 8 m c (omega arith) ∙ drop-overwrite 16 0 s b (omega arith),
    )
