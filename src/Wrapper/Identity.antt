-- ===== src/Wrapper/Identity.antt =====
-- `SensorWrapper.check_identification` (sensors/wrapper/sensor_wrapper.py): the options that the
-- command line left open are filled in from the host.
pub mod Complete
use virt_ue_sensing.Base.{
  ℕ, ◌+◌, ◌*◌, ◌-◌, ◌++◌, Bool, true, false, not, ◌&&◌, ◌||◌, Option, none, some, List, [], ◌∷◌,
  if◌then◌else◌, leb, ◌==◌,
}
use virt_ue_sensing.Base.Text.{Text, codes, text_Eq}
use virt_ue_sensing.Base.Split.{split_on, join_with, strip}
use virt_ue_sensing.Base.Number.{to_decimal}
use virt_ue_sensing.Base.Dict.{Dict, get}
use virt_ue_sensing.Base.Exec.{
  Result, ok, err, Exec, pure, raise, lift, gets, modify, or_raise, then_result, ◌>>=◌, ◌>>◌,
  value_error,
}
use virt_ue_sensing.Wrapper.Options.{Opts, Port, number, negative, text}
use virt_ue_sensing.Wrapper.Properties.{read_properties}

-- What the operating system says: `pw_name` is `pwd.getpwuid(os.getuid())[0]`, `properties` the text
-- of /home/user/ports.properties when that file exists.
pub record Host : Type 0 where
  pub is_windows : Bool
  pub new_sensor_id : Text
  pub new_virtue_id : Text
  pub environ : Dict Text Text
  pub pw_name : Result (Option Text)
  pub login : Result (Option Text)
  pub fqdn : Text
  pub ip : Result Text
  pub properties : Option Text

-- `int(s)`: decimal digits, single underscores between them, a sign in front.
digits : Bool → ℕ → Text → Option ℕ
digits false acc [] = none
digits true acc [] = some acc
digits ready acc (c ∷ s) =
    let next = digits true (acc * 10 + (c - b'0')) s in
    let skipped = digits false acc s in
    if leb b'0' c && leb c b'9' then next else if ready && (c == b'_') then skipped else none

abbrev signed : Option ℕ → Bool → Result Port
signed none minus = err value_error
signed (some n) minus = ok (if minus then negative n else number n)

unfoldable pub to_int : Text → Result Port
unfolding digits strip
to_int s = elim (strip s) [
  | [] ↦ err value_error
  | c ∷ rest ↦
      if c == b'-'
      then signed (digits false 0 rest) true
      else if c == b'+'
      then signed (digits false 0 rest) false
      else signed (digits false 0 (c ∷ rest)) false
]

-- The first of two values that is there: `if x is None: x = y`.
abbrev pub or_else : Option Text → Option Text → Option Text
or_else none y = y
or_else (some x) y = some x

unfoldable pub set_sensor_id : Host → Opts → Opts
set_sensor_id host o = record o { sensor_id = or_else o.sensor_id (some host.new_sensor_id) }

unfoldable pub set_virtue_id : Host → Opts → Opts
unfolding get
set_virtue_id host o = record o {
  virtue_id =
      or_else o.virtue_id
        (or_else (get (codes "VIRTUE_ID") host.environ) (some host.new_virtue_id));
}

-- From the password database, the environment, the login, and at last the host's name.
unfoldable pub find_username : Host → Result (Option Text)
unfolding get
find_username host = then_result (if host.is_windows then ok none else host.pw_name) λ pw.
    elim (or_else pw (get (codes "USERNAME") host.environ)) [
      | some name ↦ ok (some name)
      | none ↦
          then_result host.login λ login. ok (or_else login (some (codes "user@" ++ host.fqdn)))
    ]

unfoldable pub set_username : Host → Exec Opts (Unit {0})
unfolding find_username
set_username host o = elim o.username [
  | some name ↦ (ok tt, o)
  | none ↦ elim (find_username host) [
    | err x ↦ (err x, o)
    | ok found ↦ (ok tt, record o { username = found })
  ]
]

abbrev windows_name : Text → Text
windows_name ip = codes "ip-" ++ join_with (codes "-") (split_on b'.' ip) ++ codes ".ec2.internal"

-- On Windows the name is made of the address, also over one that was given.
unfoldable pub find_hostname : Host → Result Text
unfolding split_on
find_hostname host =
    if host.is_windows
    then elim host.ip [ err x ↦ err x | ok ip ↦ ok (windows_name ip) ]
    else ok host.fqdn

abbrev pub missing : Option Text → Bool
missing none = true
missing (some x) = false

unfoldable pub set_hostname : Host → Exec Opts (Unit {0})
unfolding find_hostname
set_hostname host o =
    if missing o.sensor_hostname || host.is_windows
    then elim (find_hostname host) [
      | err x ↦ (err x, o)
      | ok name ↦ (ok tt, record o { sensor_hostname = some name })
    ]
    else (ok tt, o)

-- With a ports.properties file, the advertised host and port are the ones it forwards from.
unfoldable pub set_forwarded : Text → Exec Opts (Unit {0})
unfolding get read_properties to_int to_decimal
set_forwarded raw = do
  let ports_dict = read_properties raw
  hostname ← lift (or_raise value_error (get (codes "hostname") ports_dict))
  modify (λ o. record o { sensor_advertised_hostname = some hostname })
  sensor_port ← gets (λ o. o.sensor_port)
  mapped ← lift (or_raise value_error (get (to_decimal sensor_port) ports_dict))
  port ← lift (to_int mapped)
  modify (λ o. record o { sensor_advertised_port = some port })

abbrev pub port_or : Option Port → Port → Port
port_or none p = p
port_or (some q) p = q

unfoldable pub set_advertised : Option Text → Exec Opts (Unit {0})
unfolding set_forwarded
set_advertised (some raw) o = set_forwarded raw o
set_advertised none o = (
  ok tt,
  record o {
    sensor_advertised_hostname = or_else o.sensor_advertised_hostname o.sensor_hostname;
    sensor_advertised_port = some (port_or o.sensor_advertised_port (number o.sensor_port));
  },
)

unfoldable pub check_identification : Host → Exec Opts (Unit {0})
unfolding set_sensor_id set_virtue_id set_username set_hostname set_advertised
check_identification host = do
  modify (set_sensor_id host)
  modify (set_virtue_id host)
  set_username host
  set_hostname host
  set_advertised host.properties
