-- ===== src/Bridge/Tests.antt =====
-- A run of the bridge on a document in two lines.
use virt_ue_sensing.Base.{
  ℕ, ◌≡◌, refl, arith, true, Option, none, some, List, [], ◌∷◌, if◌then◌else◌,
}
use virt_ue_sensing.Base.Text.{Text, codes, text_eq}
use virt_ue_sensing.Base.Split.{strip}
use virt_ue_sensing.Bridge.{enqueued, closed, finished, handle_connection}
use virt_ue_sensing.Bridge.Documents.{last, more}
use virt_ue_sensing.Bridge.Stream.{done, next, handle_connection-Sends}

-- A parser that knows one document.
abbrev loads_one : Text → Option ℕ
loads_one s = if text_eq s (codes "[1]") then some 1 else none

abbrev sent : List Text
sent = codes "[1\n" ∷ codes "]\n" ∷ []

handle_connection-Sends_example :
    handle_connection some loads_one (λ n. true) 3 sent
    ≡ (enqueued (some 1) ∷ closed ∷ enqueued none ∷ [], finished)
unfolding text_eq strip
handle_connection-Sends_example =
    handle_connection-Sends some loads_one (λ n. true) sent (1 ∷ []) 3
      (next (more refl refl (omega arith) (last refl refl)) refl done) (omega arith)
