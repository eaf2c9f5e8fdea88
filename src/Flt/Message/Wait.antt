-- ===== src/Flt/Message/Wait.antt =====
-- Waiting for a message (`FilterGetMessage`).
use virt_ue_sensing.Base.{ℕ, ◌%◌, ◌≡◌, ◌≢◌, ◌++◌, refl, arith, some, List, [], ◌∷◌, All}
use virt_ue_sensing.Base.Text.{Text, codes}
use virt_ue_sensing.Base.Exec.{ok}
use virt_ue_sensing.Flt.Layout.{number}
use virt_ue_sensing.Flt.Structs.{filter_message_header}
use virt_ue_sensing.Flt.Message.{poll, packet_of, filter_get_message, failed}

abbrev pub reply_length_of : Text → ℕ
reply_length_of sb = number filter_message_header (codes "ReplyLength") sb

poll_lem :
    (before after : List Text) (sb : Text)
    → All (λ s. reply_length_of s ≡ 0) before
    → reply_length_of sb ≢ 0
    → poll (before ++ (sb ∷ after)) ≡ some sb
poll_lem [] after sb h k = ground (arith, k)
poll_lem (s ∷ before) after sb (e, h) k = ground (arith, e, poll_lem before after sb h k)

-- When a message is pending, the wait ends with it: the first look at the buffer that finds a reply
-- length gives the packet, however often the sensor looked in vain before.
pub filter_get_message-poll :
    (error : ℕ) (before after : List Text) (sb : Text)
    → error % 0x10000 ≡ 0x3e5
    → All (λ s. reply_length_of s ≡ 0) before
    → reply_length_of sb ≢ 0
    → filter_get_message (failed error (before ++ (sb ∷ after))) ≡ some (ok (packet_of sb))
unfolding filter_get_message
filter_get_message-poll error before after sb e h k = rw (e, poll_lem before after sb h k) refl
