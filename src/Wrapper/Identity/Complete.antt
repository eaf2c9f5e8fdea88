-- ===== src/Wrapper/Identity/Complete.antt =====
-- What `check_identification` leaves behind.
use virt_ue_sensing.Base.{
  false, arith, inl, inr, Bool-cases, Option-cases, ◌||◌, Option-cases, ◌≡◌, refl, Option, some,
  none,
}
use virt_ue_sensing.Base.Text.{codes, Text, text_Eq}
use virt_ue_sensing.Base.Exec.{Result-cases, ok}
use virt_ue_sensing.Wrapper.Identity.{find_hostname, set_virtue_id, set_sensor_id}
use virt_ue_sensing.Base.Dict.{get}
use virt_ue_sensing.Wrapper.Options.{Opts, Port, number}
use virt_ue_sensing.Wrapper.Properties.{read_properties}
use virt_ue_sensing.Base.Number.{to_decimal}
use virt_ue_sensing.Wrapper.Identity.{
  get, check_identification, set_forwarded, to_int, missing, port_or, Host, ok, set_username,
  set_advertised, find_username, set_hostname, or_else,
}

-- Every option that identifies the sensor has a value.
pub record IsIdentified (o : Opts) : Type 0 where
  pub sensor_id : (t : Text) × (o.sensor_id ≡ some t)
  pub virtue_id : (t : Text) × (o.virtue_id ≡ some t)
  pub username : (t : Text) × (o.username ≡ some t)
  pub hostname : (t : Text) × (o.sensor_hostname ≡ some t)
  pub advertised_hostname : (t : Text) × (o.sensor_advertised_hostname ≡ some t)
  pub advertised_port : (p : Port) × (o.sensor_advertised_port ≡ some p)

found : (a b : Option Text) (t : Text) → b ≡ some t → (u : Text) × (or_else a b ≡ some u)
found none b t e = (t, e)
found (some a) b t e = (a, refl)

find_username-some :
    (host : Host) (r : Option Text) → find_username host ≡ ok r → (t : Text) × (r ≡ some t)
unfolding find_username
find_username-some host r e = elim (Option-cases r) [
  | inr some_name ↦ some_name
  | inl nobody ↦ absurd (ground arith)
]

username-some :
    (host : Host) (o : Opts)
    → (set_username host o).0 ≡ ok tt
    → (t : Text) × ((set_username host o).1.username ≡ some t)
unfolding set_username
username-some host o e = elim (Option-cases o.username) [
  | inr (t, given) ↦ (t, ground arith)
  | inl asked ↦ elim (Result-cases (find_username host)) [
    | inr (x, f) ↦ absurd (ground arith)
    | inl (r, f) ↦ let (t, g) = find_username-some host r f in (t, ground arith)
  ]
]

hostname-some :
    (host : Host) (o : Opts)
    → (set_hostname host o).0 ≡ ok tt
    → (t : Text) × ((set_hostname host o).1.sensor_hostname ≡ some t)
unfolding set_hostname
hostname-some host o e = elim (Bool-cases (missing o.sensor_hostname || host.is_windows)) [
  | inr given ↦ elim (Option-cases o.sensor_hostname) [
    | inr (t, f) ↦ (t, ground arith)
    | inl none_given ↦ absurd (ground arith)
  ]
  | inl asked ↦ elim (Result-cases (find_hostname host)) [
    | inl (t, f) ↦ (t, ground arith)
    | inr (x, f) ↦ absurd (ground arith)
  ]
]

-- With a ports.properties file, the advertised host and port are read off it.
forwarded-read :
    (raw : Text) (o : Opts)
    → (set_forwarded raw o).0 ≡ ok tt
    → (t : Text) × (mapped : Text) × (p : Port) × (get (codes "hostname") (read_properties raw)
        ≡ some t)
      × (get (to_decimal o.sensor_port) (read_properties raw) ≡ some mapped)
      × (to_int mapped ≡ ok p)
      × ((set_forwarded raw o).1
          ≡ record o { sensor_advertised_hostname = some t; sensor_advertised_port = some p })
unfolding set_forwarded
forwarded-read raw o e = elim (Option-cases (get (codes "hostname") (read_properties raw))) [
  | inl no_name ↦ absurd (ground arith)
  | inr (t, f) ↦ elim (Option-cases (get (to_decimal o.sensor_port) (read_properties raw))) [
    | inl no_port ↦ absurd (ground arith)
    | inr (mapped, g) ↦ elim (Result-cases (to_int mapped)) [
      | inr (x, k) ↦ absurd (ground arith)
      | inl (p, k) ↦ (t, mapped, p, f, g, k, ground arith)
    ]
  ]
]

-- What the last stage writes.
advertised-some :
    (raw : Option Text) (o : Opts) (t : Text)
    → o.sensor_hostname ≡ some t
    → (set_advertised raw o).0 ≡ ok tt
    → (u : Text) × (p : Port) × ((set_advertised raw o).1
        ≡ record o { sensor_advertised_hostname = some u; sensor_advertised_port = some p })
unfolding set_advertised
advertised-some none o t e f =
    let (u, g) = found o.sensor_advertised_hostname o.sensor_hostname t e in
    (u, port_or o.sensor_advertised_port (number o.sensor_port), ground arith)
advertised-some (some raw) o t e f =
    let (u, mapped, p, a, b, c, g) = forwarded-read raw o f in (u, p, g)

-- The other stages write one option each.
set_username-frame :
    (host : Host) (o : Opts)
    → (t : Option Text) × ((set_username host o).1 ≡ record o { username = t })
unfolding set_username
set_username-frame host o = ((set_username host o).1.username, ground arith)

set_hostname-frame :
    (host : Host) (o : Opts)
    → (t : Option Text) × ((set_hostname host o).1 ≡ record o { sensor_hostname = t })
unfolding set_hostname
set_hostname-frame host o = ((set_hostname host o).1.sensor_hostname, ground arith)

abbrev after_ids : Host → Opts → Opts
after_ids host o = set_virtue_id host (set_sensor_id host o)

abbrev after_name : Host → Opts → Opts
after_name host o = (set_username host (after_ids host o)).1

abbrev after_host : Host → Opts → Opts
after_host host o = (set_hostname host (after_name host o)).1

-- A check that succeeds went through every stage.
check_identification-stages :
    (host : Host) (o : Opts)
    → (check_identification host o).0 ≡ ok tt
    → ((set_username host (after_ids host o)).0 ≡ ok tt)
      × ((set_hostname host (after_name host o)).0 ≡ ok tt)
      × ((set_advertised host.properties (after_host host o)).0 ≡ ok tt)
      × ((check_identification host o).1 ≡ (set_advertised host.properties (after_host host o)).1)
unfolding check_identification
check_identification-stages host o e =
    elim (Result-cases (set_username host (after_ids host o)).0) [
      | inr (x, f) ↦ absurd (ground arith)
      | inl (u, f) ↦ elim (Result-cases (set_hostname host (after_name host o)).0) [
        | inr (x, g) ↦ absurd (ground arith)
        | inl (v, g) ↦ (f, g, ground arith, ground arith)
      ]
    ]

-- A check that succeeds leaves a sensor with every identification.
pub check_identification-IsIdentified :
    (host : Host) (o : Opts)
    → (check_identification host o).0 ≡ ok tt
    → IsIdentified (check_identification host o).1
unfolding set_sensor_id set_virtue_id
check_identification-IsIdentified host o e =
    let (named, hosted, told, last) = check_identification-stages host o e in
    let (name, p) = username-some host (after_ids host o) named in
    let (there, q) = hostname-some host (after_name host o) hosted in
    let (x, r) = set_hostname-frame host (after_name host o) in
    let (y, t) = set_username-frame host (after_ids host o) in
    let (u, port, w) = advertised-some host.properties (after_host host o) there q told in
    let (s, i) = found o.sensor_id (some host.new_sensor_id) host.new_sensor_id refl in
    let (d, j) = found (get (codes "VIRTUE_ID") host.environ) (some host.new_virtue_id) _ refl in
    let (v, k) = found o.virtue_id _ d j in
    record {
      sensor_id = (s, ground arith);
      virtue_id = (v, ground arith);
      username = (name, ground arith);
      hostname = (there, ground arith);
      advertised_hostname = (u, ground arith);
      advertised_port = (port, ground arith);
    }

-- Off Windows and without a ports.properties file, an identified sensor stays as it is: what was
-- given or found before is never replaced.
pub check_identification-keeps :
    (host : Host) (o : Opts)
    → host.is_windows ≡ false
    → host.properties ≡ none
    → IsIdentified o
    → check_identification host o ≡ (ok tt, o)
unfolding check_identification set_sensor_id set_virtue_id set_username set_hostname set_advertised
check_identification-keeps host o posix without known = ground (
  arith, known.sensor_id.1, known.virtue_id.1, known.username.1, known.hostname.1,
  known.advertised_hostname.1, known.advertised_port.1,
)

-- With a ports.properties file, a check that succeeds advertises the file's host name, and the port
-- that the file gives for the port the sensor listens on.
pub check_identification-forwarded :
    (host : Host) (o : Opts) (raw : Text)
    → host.properties ≡ some raw
    → (check_identification host o).0 ≡ ok tt
    → let p = (check_identification host o).1 in
      (t : Text) × (mapped : Text) × (port : Port) × (get (codes "hostname") (read_properties raw)
        ≡ some t)
      × (get (to_decimal o.sensor_port) (read_properties raw) ≡ some mapped)
      × (to_int mapped ≡ ok port)
      × (p.sensor_advertised_hostname ≡ some t)
      × (p.sensor_advertised_port ≡ some port)
unfolding set_sensor_id set_virtue_id set_advertised
check_identification-forwarded host o raw file e =
    let (named, hosted, told, last) = check_identification-stages host o e in
    let (x, r) = set_hostname-frame host (after_name host o) in
    let (y, t) = set_username-frame host (after_ids host o) in
    let (name, mapped, port, a, b, c, d) = forwarded-read raw (after_host host o) (ground arith) in
    (name, mapped, port, a, ground arith, c, ground arith, ground arith)
