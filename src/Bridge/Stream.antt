-- ===== src/Bridge/Stream.antt =====
-- What a connection puts into the queue.
use virt_ue_sensing.Base.{
  false, ℕ, zero, suc, ◌≡◌, ◌≢◌, ◌<◌, ◌++◌, refl, arith, ap, Bool, true, Option, none, some, List,
  [], ◌∷◌, length, length-append, map, Bool-cases, inl, inr,
}
use virt_ue_sensing.Base.Text.{Text}
use virt_ue_sensing.Base.Exec.{Result-cases}
use virt_ue_sensing.Bridge.{
  enqueued, closed, finished, out_of_fuel, read_json_doc, handle_connection, prepend,
}
use virt_ue_sensing.Bridge.Documents.{Reads, last, more, read_json_doc-Reads, read_json_doc-shorter}

module _ {J : Type 0} (decode : Text → Option Text) (loads : Text → Option J)
    (truthy : J → Bool) where
  -- The lines bring these documents, one after the other, up to the end of the stream or to the first
  -- document that Python takes for false, whatever is behind it.
  pub data Sends : List Text → List J → Type 0 where
    done : Sends [] []
    falsy :
        {lines : List Text} {j : J} (rest : List Text)
        → Reads decode loads [] lines j
        → truthy j ≡ false
        → Sends (lines ++ rest) []
    next :
        {lines rest : List Text} {j : J} {js : List J}
        → Reads decode loads [] lines j
        → truthy j ≡ true
        → Sends rest js
        → Sends (lines ++ rest) (j ∷ js)

  length-Reads :
      (body : Text) (lines : List Text) (j : J) → Reads decode loads body lines j → 0 < length lines
  length-Reads body lines j (last d l) = omega arith
  length-Reads body lines j (more d l short r) = omega arith

  -- Of a stream whose documents all decode and are complete before their text is longer than 8192
  -- characters, each document up to the first that Python takes for false is put into the queue, in
  -- order. At that one, which is lost with all that follows, or at the end of the stream, the socket
  -- is closed and `None` is put behind them. A round of fuel for each line and one more is enough.
  pub handle_connection-Sends :
      (lines : List Text) (js : List J) (fuel : ℕ)
      → Sends lines js
      → length lines < fuel
      → handle_connection decode loads truthy fuel lines
        ≡ (map (λ j. enqueued (some j)) js ++ (closed ∷ enqueued none ∷ []), finished)
  unfolding handle_connection read_json_doc
  handle_connection-Sends lines js zero s h = absurd (omega arith)
  handle_connection-Sends lines js (suc fuel) done h = refl
  handle_connection-Sends lines js (suc fuel) (falsy {lines = ls} {j = j} rest r t) h =
      rw (handle_connection, read_json_doc-Reads decode loads [] ls rest j r, t) refl
  handle_connection-Sends lines (j ∷ js) (suc fuel) (next {lines = ls} {rest = rest} r t s) h =
      let l = length-append ls rest in
      let ih =
        handle_connection-Sends rest js fuel s (omega (arith, l, h, length-Reads [] ls j r)) in
      rw (handle_connection, read_json_doc-Reads decode loads [] ls rest j r, t)
        (ap (prepend decode loads truthy j) ih)

  -- Whatever the lines, that much fuel is enough.
  pub handle_connection-ends :
      (lines : List Text) (fuel : ℕ)
      → length lines < fuel
      → (handle_connection decode loads truthy fuel lines).1 ≢ out_of_fuel
  unfolding handle_connection
  handle_connection-ends lines zero h = absurd (omega arith)
  handle_connection-ends lines (suc fuel) h =
      elim (Result-cases (read_json_doc decode loads [] lines)) [
        | inl ((none, rest), e) ↦ rw (handle_connection, e) (λ x. cc)
        | inl ((some j, rest), e) ↦
            let shorter = read_json_doc-shorter decode loads [] lines rest j e in
            elim (Bool-cases (truthy j)) [
              | inl t ↦
                  rw (handle_connection, e, t)
                    (handle_connection-ends rest fuel (omega (arith, shorter, h)))
              | inr t ↦ rw (handle_connection, e, t) (λ x. cc)
            ]
        | inr (x, e) ↦ rw (handle_connection, e) (λ y. cc)
      ]
