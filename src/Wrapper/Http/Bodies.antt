-- ===== src/Wrapper/Http/Bodies.antt =====
-- When `wait_for_json` has read the whole body of a request.
use virt_ue_sensing.Base.{
  ◌≡◌, refl, ap, sym, Bool, true, false, not, Option, some, none, List, [], ◌∷◌, ◌++◌, arith, ◌⊎◌,
  inl, inr, Option-cases, Bool-cases,
}
use mathlib.Core.Path.{subst}
use virt_ue_sensing.Base.Text.{Text}
use virt_ue_sensing.Base.Exec.{Result, ok, err, unicode_error, Result-cases}
use virt_ue_sensing.Wrapper.Http.{Body, wait_for_json, is_decode_error}

-- What `json.loads` gives for a text that more text may not complete.
abbrev pub is_final : Result Body → Bool
is_final (ok json) = true
is_final (err x) = not (is_decode_error x)

module _ (decode : Text → Option Text) (loads : Text → Result Body) where
  -- The chunks decode, and add up to the whole text, and none of them completes a body.
  abbrev pub Reads : Text → List Text → Text → Type 0
  Reads body [] whole = whole ≡ body
  Reads body (chunk ∷ chunks) whole =
      (line : Text) × (decode chunk ≡ some line)
      × (is_final (loads (body ++ line)) ≡ false)
      × Reads (body ++ line) chunks whole

  -- How the loop ends behind that text: at a chunk that does not decode, at one that completes the
  -- body or makes the parser fail otherwise, or not at all when no chunk is left.
  abbrev pub Ends : Text → List Text → Option (Result Body) → List Text → Type 0
  Ends whole [] outcome left = (outcome ≡ none) × (left ≡ [])
  Ends whole (chunk ∷ after) outcome left =
      (left ≡ after)
      × (((decode chunk ≡ none) × (outcome ≡ some (err unicode_error)))
          ⊎ ((line : Text) × (decode chunk ≡ some line)
              × (is_final (loads (whole ++ line)) ≡ true)
              × (outcome ≡ some (loads (whole ++ line)))))

  -- Where what is read so far is unfinished JSON, the chunks are read one by one, and of the text of
  -- all of them no part up to a chunk before the last that is read is a body. The last one read
  -- does not decode, and `UnicodeDecodeError` is raised, or it completes the body, whose value or
  -- error is the outcome; the later chunks are left. When all are read and the text is still
  -- unfinished, the loop does not return.
  pub wait_for_json-first :
      (body : Text) (chunks : List Text)
      → is_final (loads body) ≡ false
      → (before : List Text) × (after : List Text) × (whole : Text) × (chunks ≡ before ++ after)
        × Reads body before whole
        × Ends whole after
            (wait_for_json decode loads body chunks).0
            (wait_for_json decode loads body chunks).1
  unfolding wait_for_json
  wait_for_json-first body [] u = elim (Result-cases (loads body)) [
    | inl (json, f) ↦ absurd (ground arith)
    | inr (x, f) ↦ ([], [], body, refl, refl, (ground arith, ground arith))
  ]
  wait_for_json-first body (chunk ∷ chunks) u = elim (Option-cases (decode chunk)) [
    | inl d ↦ ([], chunk ∷ chunks, body, refl, refl, (ground arith, inl (d, ground arith)))
    | inr (line, d) ↦ elim (Bool-cases (is_final (loads (body ++ line)))) [
      | inl final ↦ (
        [],
        chunk ∷ chunks,
        body,
        refl,
        refl,
        elim (Result-cases (loads (body ++ line))) [
          | inl (json, f) ↦ (ground arith, inr (line, d, final, ground arith))
          | inr (x, f) ↦ (ground arith, inr (line, d, final, ground arith))
        ],
      )
      | inr short ↦
          let goes_on : wait_for_json decode loads body (chunk ∷ chunks)
              ≡ wait_for_json decode loads (body ++ line) chunks =
            elim (Result-cases (loads (body ++ line))) [
              | inl (json, f) ↦ absurd (ground arith)
              | inr (x, f) ↦ ground arith
            ] in
          let (before, after, whole, e, r, ends) =
            wait_for_json-first (body ++ line) chunks short in
          (
            chunk ∷ before,
            after,
            whole,
            ap (λ l. chunk ∷ l) e,
            (line, d, short, r),
            subst (λ p. Ends whole after p.0 p.1)
                {x = wait_for_json decode loads (body ++ line) chunks}
                {y = wait_for_json decode loads body (chunk ∷ chunks)} (sym goes_on) ends,
          )
    ]
  ]
