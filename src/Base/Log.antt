-- ===== src/Base/Log.antt =====
-- The log messages that the sensors send.
use mathlib.Core.List.{[], ◌∷◌}
use virt_ue_sensing.Base.Text.{Text, text_Eq, codes}
use virt_ue_sensing.Base.Dict.{Dict, put}

-- A value of a log message: a text, or what is reported, of type `M`.
pub data Value {ℓ} (M : Type ℓ) : Type ℓ where
  text : Text → Value M
  report : M → Value M

-- `d.update(other)`
abbrev pub update {ℓ} : {V : Type ℓ} → Dict Text V → Dict Text V → Dict Text V
update d [] = d
update d ((k, v) ∷ other) = update (put k v d) other

abbrev pub LogMessage {ℓ} : Type ℓ → Type ℓ
LogMessage M = Dict Text (Value M)

-- The fields of every message, and then what the wrapper adds to each.
unfoldable pub log_message {ℓ} : {M : Type ℓ} → Text → Text → M → LogMessage M → LogMessage M
unfolding put
log_message now level m message_stub =
    update
      ((codes "timestamp", text now)
        ∷ (codes "level", text level)
        ∷ (codes "message", report m)
        ∷ [])
      message_stub
