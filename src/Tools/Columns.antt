-- ===== src/Tools/Columns.antt =====
-- The columns of a line.
use virt_ue_sensing.Base.{ℕ, zero, suc, not, Option, none, some, List, [], ◌∷◌, keep_if}
use virt_ue_sensing.Base.Text.{Text, text_eq}
use virt_ue_sensing.Base.Split.{split_on}
use virt_ue_sensing.Base.Exec.{Exc, Result, ok, err, index_error}

-- `[bit for bit in s.split(" ") if bit != '']`
unfoldable pub columns : Text → List Text
unfolding split_on text_eq
columns s = keep_if (λ bit. not (text_eq bit [])) (split_on b' ' s)

-- `bits[n]`
abbrev pub nth : ℕ → List Text → Result Text
nth n [] = err index_error
nth zero (w ∷ ws) = ok w
nth (suc n) (w ∷ ws) = nth n ws

-- `bits[:-1]` and `bits[-1]` of a list with a piece.
abbrev pub init_of : Text → List Text → List Text
init_of w [] = []
init_of w (v ∷ vs) = w ∷ init_of v vs

abbrev pub last_of : Text → List Text → Text
last_of w [] = w
last_of w (v ∷ vs) = last_of v vs

-- What a sensor sends for the lines, as it was before `json.dumps`, and the exception that ends it.
pub record Sent {ℓ} (M : Type ℓ) : Type ℓ where
  pub messages : List M
  pub raised : Option Exc

-- A line is reported, or skipped, or raises.
abbrev pub report_lines {ℓ} : {M : Type ℓ} → (Text → Result (Option M)) → List Text → Sent M
report_lines f [] = record { messages = []; raised = none }
report_lines f (line ∷ lines) =
    let rest = report_lines f lines in
    elim (f line) [
      | err x ↦ record { messages = []; raised = some x }
      | ok none ↦ rest
      | ok (some m) ↦ record { messages = m ∷ rest.messages; raised = rest.raised }
    ]

-- The reports on the lines as log messages.
abbrev pub logged {ℓ} : {M N : Type ℓ} → (M → N) → Result (Option M) → Result (Option N)
logged f (err x) = err x
logged f (ok none) = ok none
logged f (ok (some m)) = ok (some (f m))
