-- ===== src/Wrapper/Register.antt =====
-- Registration, deregistration and synchronisation with the Sensing API
-- (sensors/wrapper/sensor_wrapper.py).
use virt_ue_sensing.Base.{
  ℕ, zero, suc, ◌++◌, Bool, true, false, Option, none, some, [], ◌∷◌, ◌==◌, if◌then◌else◌,
}
use virt_ue_sensing.Base.Text.{Text, codes}
use virt_ue_sensing.Base.Exec.{
  Result, ok, err, Exec, pure, raise, lift, gets, modify, ◌>>=◌, ◌>>◌, type_error, task_error,
}
use virt_ue_sensing.Wrapper.Options.{construct_api_uri}
use virt_ue_sensing.Wrapper.Api.{
  Server, Sensor, Response, Json, text, Put, send, is_pinned, is_pinned_api, curequests_put,
  requests_put, ca_path, optional_text, optional_port, note, slept, build_response,
  cu_build_response,
}

-- `__VERSION__`
abbrev pub version : Text
version = codes "1.20180801"

-- `"%s" % (value,)` and the value of an option that may be `None`
abbrev shown : Option Text → Text
shown none = codes "None"
shown (some t) = t

-- `base64.urlsafe_b64encode` and `os.path.abspath`, which fails on `None`
module _ (urlsafe_b64encode abspath : Text → Text) where
  abbrev absolute : Option Text → Result Text
  absolute none = err type_error
  absolute (some path) = ok (abspath path)

  abbrev registration : Sensor → Text → Json
  registration s pub_key =
      (codes "sensor", optional_text s.opts.sensor_id)
      ∷ (codes "virtue", optional_text s.opts.virtue_id)
      ∷ (codes "user", optional_text s.opts.username)
      ∷ (codes "public_key", text (urlsafe_b64encode pub_key))
      ∷ (codes "hostname", optional_text s.opts.sensor_advertised_hostname)
      ∷ (codes "port", optional_port s.opts.sensor_advertised_port)
      ∷ (codes "name", text (s.sensor_name ++ codes "-" ++ version))
      ∷ (codes "os", text s.operating_system)
      ∷ []

  abbrev registration_put : Sensor → Text → Text → Text → Put
  registration_put s pub_key public private = record {
    uri =
        construct_api_uri s.opts (codes "/sensor/" ++ shown s.opts.sensor_id ++ codes "/register")
          true;
    payload = registration s pub_key;
    verify = ca_path s;
    cert = some (some public, some private);
  }

  -- A certificate that is not the pinned one is an error.
  abbrev pub registered : Response → Bool → Exec Sensor Json
  registered res false = raise task_error
  registered res true = lift res.json

  unfoldable pub register_sensor : Server → Text → Exec Sensor Json
  unfolding send is_pinned construct_api_uri cu_build_response
  register_sensor server pub_key = do
    s ← gets (λ s. s)
    public ← lift (absolute s.opts.public_key_path)
    private ← lift (absolute s.opts.private_key_path)
    res ← curequests_put server (registration_put s pub_key public private)
    if res.status_code == 200
        then (do pinned ← is_pinned_api res; registered res pinned)
        else raise task_error

  abbrev stub_put : Text → Sensor → Text → Put
  stub_put action s pub_key = record {
    uri = construct_api_uri s.opts (codes "/sensor/" ++ shown s.opts.sensor_id ++ action) true;
    payload =
        (codes "sensor", optional_text s.opts.sensor_id)
        ∷ (codes "public_key", text (urlsafe_b64encode pub_key))
        ∷ [];
    verify = ca_path s;
    cert = some (s.opts.public_key_path, s.opts.private_key_path);
  }

  -- What is logged of a deregistration: whether the certificate was the pinned one, and nothing when
  -- the status is not 200.
  unfoldable pub deregister_sensor : Server → Text → Exec Sensor (Option Bool)
  unfolding send is_pinned construct_api_uri build_response
  deregister_sensor server pub_key = do
    s ← gets (λ s. s)
    res ← requests_put server (stub_put (codes "/deregister") s pub_key)
    if res.status_code == 200
        then (do pinned ← is_pinned_api res; pure (some pinned))
        else pure none

  -- One round of `sync_sensor`; an answer of another status is logged, its JSON with it.
  unfoldable pub sync_once : Server → Text → Exec Sensor (Unit {0})
  unfolding send is_pinned construct_api_uri cu_build_response
  sync_once server pub_key = do
    s ← gets (λ s. s)
    res ← curequests_put server (stub_put (codes "/sync") s pub_key)
    if res.status_code == 200
        then (do pinned ← is_pinned_api res; if pinned then pure tt else raise task_error)
        else (do json ← lift res.json; pure tt)

  abbrev pause : Exec Sensor (Unit {0})
  pause = modify (note (slept 120000))

  -- `sync_sensor`, cancelled after n rounds.
  unfoldable pub sync_sensor : Server → Text → ℕ → Exec Sensor (Unit {0})
  unfolding sync_once
  sync_sensor server pub_key zero = pure tt
  sync_sensor server pub_key (suc n) =
      sync_once server pub_key >> pause >> sync_sensor server pub_key n
