-- ===== src/Wrapper/Http.antt =====
-- The wrapper's HTTP server (sensors/wrapper/sensor_wrapper.py): requests are read to their blank
-- line, matched to a route, and answered in JSON.
pub mod Bodies
use virt_ue_sensing.Base.{
  false, true, Bool, List, drop, ◌-◌, ℕ, ◌++◌, Option, none, some, [], ◌∷◌, ◌==◌, if◌then◌else◌,
  length,
}
use virt_ue_sensing.Base.Text.{text_eq, starts_with, Text, codes, text_Eq}
use virt_ue_sensing.Base.Number.{to_decimal}
use virt_ue_sensing.Base.Exec.{
  unicode_error, then_result, value_error, type_error, ok, err, Result, Exc, Exec, lift, modify,
  or_raise, ◌>>=◌, ◌>>◌, key_error,
}
use virt_ue_sensing.Wrapper.Api.{Sensor, Json, Value, as_text}
use virt_ue_sensing.Base.Dict.{Dict}
use virt_ue_sensing.Base.Split.{split_on, strip}
use virt_ue_sensing.Base.Exec.{Exc, json_decode_error}

-- `sc_reason` in `send_json`
unfoldable pub sc_reason : ℕ → Option Text
sc_reason status_code =
    if status_code == 200
    then some (codes "ok")
    else if status_code == 500
    then some (codes "internal server error")
    else if status_code == 400
    then some (codes "bad request")
    else if status_code == 401
    then some (codes "unauthorized")
    else if status_code == 404
    then some (codes "not found")
    else none

abbrev pub crlf : Text
crlf = b'\r' ∷ b'\n' ∷ []

abbrev header_line : Text → Text → Text
header_line k v = k ++ (codes ": " ++ (v ++ crlf))

-- What a stream has been sent.
abbrev pub Stream : Type 0
Stream = Text

abbrev write : Text → Exec Stream (Unit {0})
write t = modify (λ sent. sent ++ t)

-- `raw` is the encoded JSON.
unfoldable pub send_json : Text → ℕ → Exec Stream (Unit {0})
unfolding sc_reason to_decimal
send_json raw status_code = do
  reason ← lift (or_raise key_error (sc_reason status_code))
  write (codes "HTTP/1.1 " ++ (to_decimal status_code ++ (codes " " ++ (reason ++ crlf))))
  write (header_line (codes "Content-Type") (codes "application/json"))
  write (header_line (codes "Content-Length") (to_decimal (length raw)))
  write (header_line (codes "Connection") (codes "close"))
  write crlf
  write raw

-- A connection to the server: the lines of the request, the decoded chunks of its body, and what is
-- sent back; with it the sensor.
pub record Session : Type 0 where
  pub sensor : Sensor
  pub lines : List Text
  pub chunks : List Text
  pub sent : Stream

abbrev pub answer : Text → ℕ → Exec Session (Unit {0})
answer raw status_code s =
    ((send_json raw status_code s.sent).0, record s { sent = (send_json raw status_code s.sent).1 })

pub data Handler : Type 0 where
  challenge_handler : Json → Handler
  registration_ping sensor_status sensor_actuate : Handler

pub record Route : Type 0 where
  pub path : Text
  pub name : Text
  pub handler : Handler

-- A member of an actuation's body: it is looked into one level further.
pub data Member : Type 0 where
  plain : Value → Member
  object : Json → Member

abbrev pub as_object : Member → Result Json
as_object (plain v) = err type_error
as_object (object json) = ok json

abbrev pub Body : Type 0
Body = Dict Text Member

abbrev pub is_decode_error : Exc → Bool
is_decode_error json_decode_error = true
is_decode_error _ = false

-- `buff[-4:] == b'\r\n\r\n'`
abbrev ends_in_blank : Text → Bool
ends_in_blank buff = text_eq (drop (length buff - 4) buff) (crlf ++ crlf)

-- The lines up to the blank one, or all when the stream ends first.
unfoldable pub read_request : Text → List Text → Text
read_request buff [] = buff
read_request buff (line ∷ lines) =
    let rest = read_request (buff ++ line) lines in
    if ends_in_blank (buff ++ line) then buff ++ line else rest

-- The text before the first CR LF, which has to be there.
unfoldable pub request_line : Text → Result Text
request_line [] = err value_error
request_line (c ∷ s) =
    let rest = request_line s in
    if starts_with crlf (c ∷ s) then ok [] else then_result rest λ line. ok (c ∷ line)

abbrev second_of_three : List Text → Result Text
second_of_three (m ∷ path ∷ version ∷ []) = ok path
second_of_three _ = err value_error

-- `(r_method, r_path, r_version) = path.strip().split(" ")`
unfoldable pub request_path : Text → Result Text
unfolding request_line split_on strip
request_path buff =
    then_result (request_line buff) λ line. second_of_three (split_on b' ' (strip line))

-- `decode` is `bytes.decode('utf-8')`, where `none` is a `UnicodeDecodeError`, and `loads` is
-- `json.loads` of a body, with which errors in the text are told apart from others. Behind the last
-- chunk the stream gives empty bytes for ever, so that the same body is parsed again and again: `none`
-- when that never ends.
unfoldable pub wait_for_json :
    (Text → Option Text)
    → (Text → Result Body)
    → Text
    → List Text
    → Option (Result Body) × List Text
wait_for_json decode loads body [] = elim (loads body) [
  | ok decoded ↦ (some (ok decoded), [])
  | err x ↦ ((if is_decode_error x then none else some (err x)), [])
]
wait_for_json decode loads body (chunk ∷ chunks) = elim (decode chunk) [
  | none ↦ (some (err unicode_error), chunks)
  | some line ↦
      let rest = wait_for_json decode loads (body ++ line) chunks in
      elim (loads (body ++ line)) [
        | ok decoded ↦ (some (ok decoded), chunks)
        | err x ↦ if is_decode_error x then rest else (some (err x), chunks)
      ]
]
