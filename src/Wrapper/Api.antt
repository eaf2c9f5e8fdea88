-- ===== src/Wrapper/Api.antt =====
-- The calls of the Sensing API by the sensor wrapper (sensors/wrapper/sensor_wrapper.py), and the
-- peer certificates that are taken from the connections.
pub mod Wait
pub mod Pinning
use virt_ue_sensing.Base.{
  ℕ, ◌+◌, ◌++◌, Bool, true, false, not, Option, none, some, List, [], ◌∷◌, ◌==◌, if◌then◌else◌,
}
use virt_ue_sensing.Base.Text.{Text, codes, text_eq, text_Eq, join_path}
use virt_ue_sensing.Base.Number.{to_decimal}
use virt_ue_sensing.Base.Dict.{Dict, get, put}
use virt_ue_sensing.Base.Exec.{
  Exc, Result, ok, err, Exec, pure, raise, lift, gets, modify, or_raise, then_result, ◌>>=◌, ◌>>◌,
  key_error, type_error, attribute_error, task_error,
}
use virt_ue_sensing.Wrapper.Options.{Opts, Port, construct_api_uri}

-- A JSON value as far as the wrapper looks into it.
pub data Value : Type 0 where
  null : Value
  flag : Bool → Value
  text : Text → Value
  texts : List Text → Value
  fields : Dict Text Text → Value
  port : Port → Value

abbrev pub Json : Type 0
Json = Dict Text Value

-- `bool(v)`; a number is taken as true here only when it is a port.
abbrev pub truthy : Value → Bool
truthy null = false
truthy (flag b) = b
truthy (text t) = not (text_eq t [])
truthy (texts []) = false
truthy (texts (t ∷ ts)) = true
truthy (fields []) = false
truthy (fields (f ∷ fs)) = true
truthy (port p) = true

-- `res_json[key]`
abbrev pub field : Text → Json → Result Value
field key json = or_raise key_error (get key json)

-- A value that the code uses as a string, as a list of strings and as a dictionary.
abbrev pub as_text : Value → Result Text
as_text (text t) = ok t
as_text _ = err type_error

abbrev pub as_texts : Value → Result (List Text)
as_texts (texts ts) = ok ts
as_texts _ = err type_error

abbrev pub as_fields : Value → Result (Dict Text Text)
as_fields (fields fs) = ok fs
as_fields _ = err type_error

-- `getpeercert(binary_form=True)` gives the DER bytes, `getpeercert()` a dictionary, which is never
-- equal to bytes.
pub data PeerCert : Type 0 where
  der decoded : Text → PeerCert

abbrev pub same_cert : PeerCert → PeerCert → Bool
same_cert (der a) (der b) = text_eq a b
same_cert (der a) (decoded b) = false
same_cert (decoded a) (der b) = false
same_cert (decoded a) (decoded b) = text_eq a b

-- What a server answers: the certificate of the connection is there when it is encrypted, and `json`
-- is what `.json()` returns or raises.
pub record Answer : Type 0 where
  pub status_code : ℕ
  pub json : Result Json
  pub sock_cert : Option Text

pub record Response : Type 0 where
  pub status_code : ℕ
  pub json : Result Json
  pub peercert : Option PeerCert

abbrev der_of : Option Text → Option PeerCert
der_of none = none
der_of (some c) = some (der c)

abbrev decoded_of : Option Text → Option PeerCert
decoded_of none = none
decoded_of (some c) = some (decoded c)

-- `cu_new_HTTPAdapter_build_response`
unfoldable pub cu_build_response : Answer → Response
cu_build_response a = record {
  status_code = a.status_code;
  json = a.json;
  peercert = der_of a.sock_cert;
}

-- `new_HTTPResponse__init__`, whose certificate `new_HTTPAdapter_build_response` passes on
unfoldable pub build_response : Answer → Response
build_response a = record {
  status_code = a.status_code;
  json = a.json;
  peercert = decoded_of a.sock_cert;
}

-- `verify` and `cert` are the paths that the call passes; `data=` of the deregistration is not JSON.
pub record Put : Type 0 where
  pub uri : Text
  pub payload : Json
  pub verify : Text
  pub cert : Option (Option Text × Option Text)

pub data Request : Type 0 where
  http_get : Text → Request
  http_put : Put → Request

pub data Task : Type 0 where
  challenge_server : Dict Text Text → Task
  actuation_server sync_sensor : Task
  log_drain : List Text → Text → Task
  sensing_methods : Text → Task

pub data Event : Type 0 where
  sent : Request → Event
  slept : ℕ → Event
  wrote chmod : Text → Event
  spawned cancelled : Task → Event

-- The wrapper's state; `clock` is `time.time()`, and the newest event is first.
pub record Sensor : Type 0 where
  pub sensor_name : Text
  pub operating_system : Text
  pub is_windows : Bool
  pub opts : Opts
  pub api_public_certificate : Option PeerCert
  pub clock : ℕ
  pub files : Dict Text Text
  pub log_drain_task : Option Task
  pub events : List Event

-- A server answers a request, or the connection fails; both may depend on what went before. The
-- second number is the time that this takes.
abbrev pub Server : Type 0
Server = List Event → Request → Result Answer × ℕ

abbrev pub note : Event → Sensor → Sensor
note event s = record s { events = event ∷ s.events }

unfoldable pub send : Server → (Answer → Response) → Request → Exec Sensor Response
send server build request s = (
  then_result (server s.events request).0 (λ answer. ok (build answer)),
  record s { clock = s.clock + (server s.events request).1; events = sent request ∷ s.events },
)

-- `requests.get`, `requests.put` and `curequests.put`
abbrev pub requests_get : Server → Text → Exec Sensor Response
requests_get server uri = send server build_response (http_get uri)

abbrev pub requests_put : Server → Put → Exec Sensor Response
requests_put server p = send server build_response (http_put p)

abbrev pub curequests_put : Server → Put → Exec Sensor Response
curequests_put server p = send server cu_build_response (http_put p)

abbrev pub ca_path : Sensor → Text
ca_path s = join_path s.opts.ca_key_path (codes "ca.pem")

abbrev pub write_file : Text → Text → Exec Sensor (Unit {0})
write_file path content =
    modify (λ s. record s { files = put path content s.files; events = wrote path ∷ s.events })

-- What `get_root_ca_pubkey` does with an answer of status 200; `open` empties the file.
unfoldable pub root_ca_answer : Json → Exec Sensor (Bool × Value)
unfolding get put join_path
root_ca_answer json = do
  error ← lift (field (codes "error") json)
  if truthy error
      then (do reason ← lift (field (codes "message") json); pure (false, reason))
      else (do
        path ← gets ca_path
        modify (λ s. record s { files = put path [] s.files })
        pem ← lift (then_result (field (codes "certificate") json) as_text)
        write_file path pem
        pure (true, text pem))

abbrev pub root_get : Sensor → Request
root_get s = http_get (construct_api_uri s.opts (codes "/ca/root/public") false)

unfoldable pub get_root_ca_pubkey : Server → Exec Sensor (Bool × Value)
unfolding send root_ca_answer construct_api_uri to_decimal build_response
get_root_ca_pubkey server = do
  request ← gets root_get
  res ← send server build_response request
  if res.status_code == 200
      then (do json ← lift res.json; root_ca_answer json)
      else pure (false, text (codes "HTTP(" ++ to_decimal res.status_code ++ codes ")"))

pub record Keys : Type 0 where
  pub private_key : Text
  pub certificate_request : Text
  pub challenge : Dict Text Text

-- The first answer over TLS pins the API's certificate.
unfoldable pub private_key_answer : Response → Exec Sensor (Option Keys)
unfolding get
private_key_answer res = do
  json ← lift res.json
  cert ← lift (or_raise attribute_error res.peercert)
  modify (λ s. record s { api_public_certificate = some cert })
  private_key ← lift (then_result (field (codes "private_key") json) as_text)
  csr ← lift (then_result (field (codes "certificate_request") json) as_text)
  challenge ← lift (then_result (field (codes "challenge") json) as_fields)
  pure (
      some (record { private_key = private_key; certificate_request = csr; challenge = challenge }))

abbrev pub optional_text : Option Text → Value
optional_text none = null
optional_text (some t) = text t

abbrev pub optional_port : Option Port → Value
optional_port none = null
optional_port (some p) = port p

-- `None` for `False, "", "", {}`
unfoldable pub get_private_key_and_csr : Server → Exec Sensor (Option Keys)
unfolding send private_key_answer construct_api_uri join_path cu_build_response
get_private_key_and_csr server = do
  p ← gets (λ s. record {
    uri = construct_api_uri s.opts (codes "/ca/register/private_key/new") true;
    payload =
        (codes "hostname", optional_text s.opts.sensor_advertised_hostname)
        ∷ (codes "port", optional_port s.opts.sensor_advertised_port)
        ∷ [];
    verify = ca_path s;
    cert = none;
  })
  res ← curequests_put server p
  if res.status_code == 200 then private_key_answer res else (do json ← lift res.json; pure none)

-- `response.peercert == self.api_public_certificate`
unfoldable pub is_pinned : Option PeerCert → Option PeerCert → Result Bool
is_pinned none pinned = err attribute_error
is_pinned (some c) none = ok false
is_pinned (some c) (some p) = ok (same_cert c p)

abbrev pub is_pinned_api : Response → Exec Sensor Bool
is_pinned_api res s = (is_pinned res.peercert s.api_public_certificate, s)

abbrev pub signed_key_answer : Response → Bool → Result (Option Text)
signed_key_answer res false = ok none
signed_key_answer res true = then_result res.json λ json.
    then_result (then_result (field (codes "certificate") json) as_text) λ key. ok (some key)

abbrev pub signed_put : Text → Sensor → Put
signed_put csr s = record {
  uri = construct_api_uri s.opts (codes "/ca/register/public_key/signed") true;
  payload = (codes "certificate_request", text csr) ∷ [];
  verify = ca_path s;
  cert = none;
}

-- `None` for `False, ""`
unfoldable pub get_signed_public_key : Server → Text → Exec Sensor (Option Text)
unfolding send is_pinned construct_api_uri join_path get cu_build_response
get_signed_public_key server csr = do
  p ← gets (signed_put csr)
  res ← curequests_put server p
  if res.status_code == 200
      then (do pinned ← is_pinned_api res; lift (signed_key_answer res pinned))
      else (do json ← lift res.json; pure none)
