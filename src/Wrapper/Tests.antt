-- ===== src/Wrapper/Tests.antt =====
-- A sensor, a host and a Sensing API, on which the theorems on the sensor wrapper are used.
use virt_ue_sensing.Base.{
  ltb, ◌≡◌, ◌≢◌, ◌++◌, refl, Bool, true, false, Option, some, none, List, [], ◌∷◌, arith,
  if◌then◌else◌,
}
use virt_ue_sensing.Base.Text.{join_path, join_path, Text, codes, text_Eq, text_eq}
use virt_ue_sensing.Base.Number.{to_decimal}
use virt_ue_sensing.Base.Split.{has_char, split_on}
use virt_ue_sensing.Base.Dict.{Dict, put, get}
use virt_ue_sensing.Base.Exec.{
  then_result, unicode_error, Result, ok, err, task_error, json_decode_error,
}
use virt_ue_sensing.Wrapper.Options.{Port, default_opts, construct_api_uri}
use virt_ue_sensing.Wrapper.Properties.{
  property_line, read_properties, read_properties-last, last_value,
}
use virt_ue_sensing.Wrapper.Identity.{Host, check_identification, to_int}
use virt_ue_sensing.Wrapper.Identity.Complete.{
  IsIdentified, check_identification-IsIdentified, check_identification-forwarded,
}
use virt_ue_sensing.Wrapper.Api.{
  as_text, field, signed_put, http_put, Json, Sensor, Server, Answer, Task, flag, text, texts, der,
  log_drain, ca_path, get_signed_public_key,
}
use virt_ue_sensing.Wrapper.Api.Wait.{wait_for_sensor_api, wait_for_sensor_api-returns, WayOut}
use virt_ue_sensing.Wrapper.Api.Pinning.{get_signed_public_key-pinned}
use virt_ue_sensing.Wrapper.Http.{Body, wait_for_json}
use virt_ue_sensing.Wrapper.Http.Bodies.{Ends, Reads, wait_for_json-first}
use virt_ue_sensing.Wrapper.Routes.{observe}
use virt_ue_sensing.Wrapper.Files.{
  which_file, which_file-first, FoundIn, sha512_of, sha512_of-whole,
}
use virt_ue_sensing.Base.{All, ◌⊎◌}
use virt_ue_sensing.Wrapper.Main.{Packages, request_keys}
use virt_ue_sensing.Wrapper.Main.Spares.{Spares, request_keys-Spares}

abbrev ports_file : Text
ports_file = codes "hostname=dom0" ++ (10 ∷ codes "11000=32000")

abbrev host : Host
host = record {
  is_windows = false;
  new_sensor_id = codes "s1";
  new_virtue_id = codes "v1";
  environ = (codes "VIRTUE_ID", codes "v7") ∷ [];
  pw_name = ok (some (codes "root"));
  login = ok none;
  fqdn = codes "vm";
  ip = ok (codes "10.0.0.1");
  properties = some ports_file;
}

abbrev plain_host : Host
plain_host = record host { properties = none }

check-ok : (check_identification host default_opts).0 ≡ ok tt
unfolding check_identification put
check-ok = refl

check_identification-IsIdentified_example : IsIdentified (check_identification host default_opts).1
check_identification-IsIdentified_example =
    check_identification-IsIdentified host default_opts check-ok

check_identification-forwarded_example :
    (t : Text) × (mapped : Text) × (port : Port) × (get
        (codes "hostname")
        (read_properties ports_file)
      ≡ some t)
    × (get (to_decimal default_opts.sensor_port) (read_properties ports_file) ≡ some mapped)
    × (to_int mapped ≡ ok port)
    × ((check_identification host default_opts).1.sensor_advertised_hostname ≡ some t)
    × ((check_identification host default_opts).1.sensor_advertised_port ≡ some port)
check_identification-forwarded_example =
    check_identification-forwarded host default_opts ports_file refl check-ok

abbrev line : Text
line = codes " key=a=b"

line-read : property_line line ≡ some (codes "key", codes "a=b")
unfolding property_line
line-read = refl

read_properties-last_example :
    get (codes "hostname") (read_properties ports_file)
    ≡ last_value (codes "hostname") (split_on b'\n' ports_file)
read_properties-last_example = read_properties-last ports_file (codes "hostname")

abbrev digest : Text → Result Text
digest pem_data = ok (codes "00ff17")

abbrev drain : Task
drain = log_drain [] (codes "old")

abbrev sensor : Sensor
sensor = record {
  sensor_name = codes "ps";
  operating_system = codes "linux";
  is_windows = false;
  opts = record default_opts { sensor_id = some (codes "s1") };
  api_public_certificate = some (der (codes "cert"));
  clock = 100;
  files = [];
  log_drain_task = some drain;
  events = [];
}

-- An API that answers every request alike.
abbrev good : Answer
good = record {
  status_code = 200;
  json = ok ((codes "ready", flag true) ∷ (codes "certificate", text (codes "key")) ∷ []);
  sock_cert = some (codes "cert");
}

abbrev server : Server
server events request = (ok good, 3)

wait_for_sensor_api-returns_example :
    (r : Result (Unit {0})) × (t : Sensor) × (wait_for_sensor_api server 30002 sensor ≡ (some r, t))
    × WayOut server (construct_api_uri sensor.opts (codes "/ready") false) sensor.clock r t
wait_for_sensor_api-returns_example =
    wait_for_sensor_api-returns server 30002 sensor (omega arith) (omega arith)

key-signed : (get_signed_public_key server (codes "csr") sensor).0 ≡ ok (some (codes "key"))
unfolding get_signed_public_key text_eq
key-signed = refl

get_signed_public_key-pinned_example :
    (a : Answer) × (json : Json) × ((server sensor.events
        (http_put (signed_put (codes "csr") sensor))).0
      ≡ ok a)
    × (a.status_code ≡ 200)
    × (a.sock_cert ≡ some (codes "cert"))
    × (a.json ≡ ok json)
    × (then_result (field (codes "certificate") json) as_text ≡ ok (codes "key"))
get_signed_public_key-pinned_example =
    get_signed_public_key-pinned server (codes "csr") (codes "key") (codes "cert") sensor refl
      key-signed

abbrev packages : Packages
packages = record {
  joined = λ x. task_error;
  sha1_der = digest;
  load_cert_chain = λ files public private. ok tt;
  config = λ t. ok t;
  urlsafe_b64encode = λ t. t;
  abspath = λ t. t;
}

abbrev key_file : Text
key_file = codes "key.pem"

key_file-differs : key_file ≢ ca_path sensor
unfolding join_path text_eq
key_file-differs e = ground arith

request_keys-Spares_example : Spares key_file sensor (request_keys packages server sensor).1
request_keys-Spares_example = request_keys-Spares packages server key_file sensor key_file-differs

-- A JSON text is complete when it ends in a brace.
abbrev loads : Text → Result Body
loads [] = err json_decode_error
loads (c ∷ s) = if has_char b'}' (c ∷ s) then ok [] else err json_decode_error

-- A decoder of ASCII
abbrev decode : Text → Option Text
decode [] = some []
decode (c ∷ s) = if ltb c 128 then elim (decode s) [ none ↦ none | some t ↦ some (c ∷ t) ] else none

wait_for_json-first_example :
    (before : List Text) × (after : List Text) × (whole : Text) × (codes "{"
        ∷ codes "}"
        ∷ codes "{}"
        ∷ []
      ≡ before ++ after)
    × Reads decode loads [] before whole
    × Ends decode loads whole after
        (wait_for_json decode loads [] (codes "{" ∷ codes "}" ∷ codes "{}" ∷ [])).0
        (wait_for_json decode loads [] (codes "{" ∷ codes "}" ∷ codes "{}" ∷ [])).1
wait_for_json-first_example =
    wait_for_json-first decode loads [] (codes "{" ∷ codes "}" ∷ codes "{}" ∷ []) refl

wait_for_json-second :
    wait_for_json decode loads [] (codes "{" ∷ codes "}" ∷ codes "{}" ∷ [])
    ≡ (some (ok []), codes "{}" ∷ [])
unfolding wait_for_json
wait_for_json-second = refl

wait_for_json-split :
    wait_for_json decode loads [] ((195 ∷ []) ∷ []) ≡ (some (err unicode_error), [])
unfolding wait_for_json
wait_for_json-split = refl

abbrev dumps : Json → Text
dumps json = codes "{}"

abbrev config : Text → Result Text
config t = ok t

abbrev payload : Json
payload =
    (codes "kafka_bootstrap_hosts", texts (codes "kafka:9093" ∷ []))
    ∷ (codes "sensor_topic", text (codes "topic"))
    ∷ []

abbrev observed : Result (Unit {0}) × Sensor
observed = observe dumps decode loads config payload (codes "{}") sensor

observe-ok : observed.0 ≡ ok tt
unfolding observe text_eq
observe-ok = refl

abbrev environ : Dict Text Text
environ = (codes "PATH", codes "/bin:/usr/bin") ∷ []

abbrev is_there : Text → Bool
is_there file = text_eq file (codes "/usr/bin/lsof")

which_file-first_example :
    ((which_file is_there environ (codes "lsof") ≡ ok none)
      × All
          (λ p. is_there (join_path p (codes "lsof")) ≡ false)
          (split_on b':' (codes "/bin:/usr/bin")))
    ⊎ ((file : Text) × (which_file is_there environ (codes "lsof") ≡ ok (some file))
        × FoundIn is_there (codes "lsof") (split_on b':' (codes "/bin:/usr/bin")) file)
unfolding get text_eq
which_file-first_example =
    which_file-first is_there environ (codes "lsof") (codes "/bin:/usr/bin") refl

-- A digest that keeps everything.
abbrev gather : Text → Text → Text
gather h a = h ++ a

gather-append : (h a b : Text) → gather (gather h a) b ≡ gather h (a ++ b)
gather-append [] a b = refl
gather-append (c ∷ h) a b = ground (arith, gather-append h a b)

gather-nil : (h : Text) → gather h [] ≡ h
gather-nil [] = refl
gather-nil (c ∷ h) = ground (arith, gather-nil h)

sha512_of-whole_example :
    sha512_of gather [] (λ h. h) (codes "content") ≡ gather [] (codes "content")
sha512_of-whole_example =
    sha512_of-whole gather gather-append gather-nil [] (λ h. h) (codes "content")
