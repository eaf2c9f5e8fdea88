-- ===== src/Bridge.antt =====
-- The desktop bridge (targets/desktop-bridge-target/sensor/bridge.py): JSON documents that come in over
-- TCP are put into a queue, and from there into the queue of the sensor wrapper.
pub mod Documents
pub mod Stream
mod Tests
use virt_ue_sensing.Base.{
  ℕ, zero, suc, ◌+◌, ◌++◌, Bool, true, false, Option, none, some, List, [], ◌∷◌, ltb, if◌then◌else◌,
  length, map,
}
use virt_ue_sensing.Base.Text.{Text, codes}
use virt_ue_sensing.Base.Split.{strip}
use virt_ue_sensing.Base.Log.{LogMessage, log_message}
use virt_ue_sensing.Base.Exec.{Exc, Result, ok, err, unicode_error}

-- What a connection does: it puts a document or `None` into the queue, and it closes the socket.
pub data Event {ℓ} (J : Type ℓ) : Type ℓ where
  enqueued : Option J → Event J
  closed : Event J

pub data End : Type 0 where
  finished out_of_fuel : End
  raised : Exc → End

-- `J` is the type of JSON documents, `loads` is `json.loads`, `none` is a `JSONDecodeError`, and `decode` is
-- `bytes.decode('utf-8')`, `none` is a `UnicodeDecodeError`.
module _ {ℓ} {J : Type ℓ} (decode : Text → Option Text) (loads : Text → Option J) where
  -- `read_json_doc` with what it has of the body, over the lines that the stream has yet, and the lines that
  -- it leaves. After the last line the stream gives the empty line.
  unfoldable pub read_json_doc : Text → List Text → Result (Option J × List Text)
  unfolding strip
  read_json_doc body [] = ok (none, [])
  read_json_doc body ([] ∷ lines) = ok (none, lines)
  read_json_doc body ((c ∷ line) ∷ lines) = elim (decode (c ∷ line)) [
    | none ↦ err unicode_error
    | some t ↦
        let more = body ++ strip t in
        elim (loads more) [
          | some j ↦ ok (some j, lines)
          | none ↦ read_json_doc (if ltb 8192 (length more) then [] else more) lines
        ]
  ]

  -- `truthy` is Python's test of a document.
  module _ (truthy : J → Bool) where
    abbrev closing : List (Event J) × End
    closing = (closed ∷ enqueued none ∷ [], finished)

    abbrev pub prepend : J → List (Event J) × End → List (Event J) × End
    prepend j (es, e) = (enqueued (some j) ∷ es, e)

    -- `handle_connection_curio`; the fuel bounds the number of documents.
    unfoldable pub handle_connection : ℕ → List Text → List (Event J) × End
    handle_connection zero lines = ([], out_of_fuel)
    handle_connection (suc fuel) lines = elim (read_json_doc [] lines) [
      | err x ↦ ([], raised x)
      | ok (none, rest) ↦ closing
      | ok (some j, rest) ↦ if truthy j then prepend j (handle_connection fuel rest) else closing
    ]

-- One round of `handle_messages`: the message for a document of the queue. `no_more` is the document
-- that stands for the end of a stream.
module _ {ℓ} {J : Type ℓ} (truthy : J → Bool) (no_more : J) where
  abbrev injson : Option J → J
  injson none = no_more
  injson (some j) = if truthy j then j else no_more

  unfoldable pub out_message : Text → LogMessage J → Option J → LogMessage J
  unfolding log_message
  out_message now message_stub j = log_message now (codes "info") (injson j) message_stub

  -- `handle_messages` over what is in the queue: what it puts into the queue of the wrapper. Time stands
  -- still, and `dumps` is `json.dumps`. The count of messages is only logged.
  unfoldable pub handle_messages :
      (LogMessage J → Text) → Bool → Text → LogMessage J → List (Option J) → List Text
  handle_messages dumps standalone now message_stub [] = []
  handle_messages dumps standalone now message_stub (j ∷ js) =
      let rest = handle_messages dumps standalone now message_stub js in
      if standalone then rest else (dumps (out_message now message_stub j) ++ codes "\n") ∷ rest
