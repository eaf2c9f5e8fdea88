-- ===== src/Wrapper/Main.antt =====
-- `SensorWrapper.main` and `SensorWrapper.start` (sensors/wrapper/sensor_wrapper.py): the keys are
-- asked for and stored, the servers and tasks are started, and the sensor registers.
pub mod Spares
pub mod Restart
use virt_ue_sensing.Base.{
  ℕ, zero, suc, ◌+◌, ◌++◌, Bool, true, false, Option, none, some, List, [], ◌∷◌, ◌==◌,
  if◌then◌else◌, ltb,
}
use virt_ue_sensing.Base.Text.{Text, codes, text_Eq}
use virt_ue_sensing.Base.Dict.{Dict, get, put}
use virt_ue_sensing.Base.Exec.{
  Exc, Result, ok, err, Exec, pure, raise, lift, gets, modify, or_raise, then_result, ◌>>=◌, ◌>>◌,
  key_error, type_error, task_error,
}
use virt_ue_sensing.Wrapper.Fingerprint.{rsa_fingerprint}
use virt_ue_sensing.Wrapper.Api.{
  Server, Sensor, Json, Value, text, fields, field, as_text, as_texts, Keys, Task, challenge_server,
  actuation_server, sync_sensor, log_drain, sensing_methods, spawned, cancelled, chmod, note,
  write_file, get_root_ca_pubkey, get_private_key_and_csr, get_signed_public_key,
}
use virt_ue_sensing.Wrapper.Api.Wait.{wait_for_sensor_api}
use virt_ue_sensing.Wrapper.Register.{register_sensor, deregister_sensor}

-- What the wrapper uses of other packages: `joined` is what a task's exception is raised as by
-- `Task.join` of curio, `sha1_der` imports a key and gives the hexadecimal SHA-1 digest of its DER
-- form, `load_cert_chain` is the TLS context's, `config` is `json.loads` of a configuration.
pub record Packages : Type 0 where
  pub joined : Exc → Exc
  pub sha1_der : Text → Result Text
  pub load_cert_chain : Dict Text Text → Text → Text → Result (Unit {0})
  pub config : Text → Result Text
  pub urlsafe_b64encode : Text → Text
  pub abspath : Text → Text

module _ (pkg : Packages) (server : Server) where
  -- `await g.spawn(...)` and `.join()`
  abbrev pub join {ℓ} : {A : Type ℓ} → Exec Sensor A → Exec Sensor A
  join m s = elim (m s).0 [ ok a ↦ (ok a, (m s).1) | err x ↦ (err (pkg.joined x), (m s).1) ]

  abbrev pub check_root : Bool → Exec Sensor (Unit {0})
  check_root true = pure tt
  check_root false = raise task_error

  abbrev pub keys_or_abort : Option Keys → Exec Sensor Keys
  keys_or_abort none = raise task_error
  keys_or_abort (some keys) = pure keys

  -- Without a public key the challenge server is stopped too.
  abbrev pub signed_or_abort : Task → Option Text → Exec Sensor Text
  signed_or_abort task none = do modify (note (cancelled task)); raise task_error
  signed_or_abort task (some key) = do modify (note (cancelled task)); pure key

  -- The challenge cycle: while the challenge server runs, the API signs the public key.
  unfoldable pub certify : Keys → Exec Sensor (Text × Text)
  unfolding get_signed_public_key rsa_fingerprint get
  certify keys = do
    lift (rsa_fingerprint pkg.sha1_der keys.private_key)
    lift (or_raise key_error (get (codes "url") keys.challenge))
    lift (or_raise key_error (get (codes "token") keys.challenge))
    modify (note (spawned (challenge_server keys.challenge)))
    signed ← join (get_signed_public_key server keys.certificate_request)
    pub_key ← signed_or_abort (challenge_server keys.challenge) signed
    pure (keys.private_key, pub_key)

  -- The part of `main` that talks to the certificate authority: the private and the public key.
  unfoldable pub request_keys : Exec Sensor (Text × Text)
  unfolding get_root_ca_pubkey get_private_key_and_csr certify
  request_keys = do
    root ← join (get_root_ca_pubkey server)
    check_root root.0
    answer ← join (get_private_key_and_csr server)
    keys ← keys_or_abort answer
    certify keys

  abbrev given_path : Option Text → Exec Sensor Text
  given_path none = raise type_error
  given_path (some path) = pure path

  abbrev chmod_unless_windows : Text → Sensor → Sensor
  chmod_unless_windows path s = if s.is_windows then s else note (chmod path) s

  -- The part that writes the keys to their files.
  unfoldable pub store_keys : Text → Text → Exec Sensor (Unit {0})
  unfolding put
  store_keys priv_key pub_key = do
    public_option ← gets (λ s. s.opts.public_key_path)
    public_path ← given_path public_option
    write_file public_path pub_key
    modify (chmod_unless_windows public_path)
    private_option ← gets (λ s. s.opts.private_key_path)
    private_path ← given_path private_option
    write_file private_path priv_key
    modify (chmod_unless_windows private_path)
    files ← gets (λ s. s.files)
    lift (pkg.load_cert_chain files public_path private_path)

  -- The part that starts the tasks of a sensor that has its keys.
  unfoldable pub serve : Text → Exec Sensor (Unit {0})
  unfolding register_sensor get
  serve pub_key = do
    modify (note (spawned actuation_server))
    reg_data ← join (register_sensor pkg.urlsafe_b64encode pkg.abspath server pub_key)
    hosts ← lift (then_result (field (codes "kafka_bootstrap_hosts") reg_data) as_texts)
    topic ← lift (then_result (field (codes "sensor_topic") reg_data) as_text)
    modify (note (spawned (log_drain hosts topic)))
    modify (λ s. record s { log_drain_task = some (log_drain hosts topic) })
    default ← lift (then_result (field (codes "default_configuration") reg_data) as_text)
    parsed ← lift (pkg.config default)
    modify (note (spawned (sensing_methods parsed)))
    modify (note (spawned sync_sensor))

  -- From the answer that the API is ready to the stop notification, and the deregistration.
  unfoldable pub after_ready : Exec Sensor (Unit {0})
  unfolding request_keys store_keys serve deregister_sensor
  after_ready = do
    keys ← request_keys
    store_keys keys.0 keys.1
    serve keys.1
    deregister_sensor pkg.urlsafe_b64encode pkg.abspath server keys.1
    pure tt

  abbrev waited : Option (Result (Unit {0})) → Sensor → Option (Result (Unit {0})) × Sensor
  waited none s = (none, s)
  waited (some (err x)) s = (some (err (pkg.joined x)), s)
  waited (some (ok u)) s = (some (after_ready s).0, (after_ready s).1)

  -- `f` is the fuel of the wait for the API.
  unfoldable pub main : ℕ → Sensor → Option (Result (Unit {0})) × Sensor
  unfolding wait_for_sensor_api after_ready
  main f s = waited (wait_for_sensor_api server f s).0 (wait_for_sensor_api server f s).1
