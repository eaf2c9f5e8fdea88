-- ===== src/Bridge/Documents.antt =====
-- Which lines make a document.
use virt_ue_sensing.Base.{
  ℕ, ◌≡◌, ◌<◌, ◌≤◌, ◌++◌, refl, arith, Option, none, some, List, [], ◌∷◌, ltb, if◌then◌else◌,
  length, Option-cases, inl, inr,
}
use virt_ue_sensing.Base.Text.{Text}
use virt_ue_sensing.Base.Split.{strip}
use virt_ue_sensing.Base.Exec.{ok}
use virt_ue_sensing.Bridge.{read_json_doc}

not_long : (s : Text) → length s ≤ 8192 → (if ltb 8192 (length s) then [] else s) ≡ s
not_long s h = ground (arith, h)

module _ {J : Type 0} (decode : Text → Option Text) (loads : Text → Option J) where
  -- With the body that there is, the lines bring the document, the last one just completes it, and before that the body
  -- does not grow too long.
  pub data Reads : Text → List Text → J → Type 0 where
    last :
        {body : Text} {c : ℕ} {line : Text} {t : Text} {j : J}
        → decode (c ∷ line) ≡ some t
        → loads (body ++ strip t) ≡ some j
        → Reads body ((c ∷ line) ∷ []) j
    more :
        {body : Text} {c : ℕ} {line : Text} {t : Text} {lines : List Text} {j : J}
        → decode (c ∷ line) ≡ some t
        → loads (body ++ strip t) ≡ none
        → length (body ++ strip t) ≤ 8192
        → Reads (body ++ strip t) lines j
        → Reads body ((c ∷ line) ∷ lines) j

  pub read_json_doc-Reads :
      (body : Text) (lines rest : List Text) (j : J)
      → Reads body lines j
      → read_json_doc decode loads body (lines ++ rest) ≡ ok (some j, rest)
  unfolding read_json_doc
  read_json_doc-Reads body lines rest j (last d l) = rw (d, l) refl
  read_json_doc-Reads body lines rest j (more {t = t} {lines = ls} d l short r) =
      rw (d, l, not_long (body ++ strip t) short)
        (read_json_doc-Reads (body ++ strip t) ls rest j r)

  -- A document takes at least one line.
  pub read_json_doc-shorter :
      (body : Text) (lines rest : List Text) (j : J)
      → read_json_doc decode loads body lines ≡ ok (some j, rest)
      → length rest < length lines
  unfolding read_json_doc
  read_json_doc-shorter body [] rest j e = absurd cc
  read_json_doc-shorter body ([] ∷ lines) rest j e = absurd cc
  read_json_doc-shorter body ((c ∷ line) ∷ lines) rest j e =
      elim (Option-cases (decode (c ∷ line))) [
        | inl d ↦ absurd (ground (arith, d, e))
        | inr (t, d) ↦ elim (Option-cases (loads (body ++ strip t))) [
          | inr (k, l) ↦ let i : rest ≡ lines = ground (arith, d, l, e) in rw i (omega arith)
          | inl l ↦
              let next = if ltb 8192 (length (body ++ strip t)) then [] else body ++ strip t in
              let i : read_json_doc decode loads next lines ≡ ok (some j, rest) =
                ground (arith, d, l, e) in
              omega (arith, read_json_doc-shorter next lines rest j i)
        ]
      ]
