-- ===== src/Wrapper/Routes.antt =====
-- The routes of the wrapper's HTTP server (sensors/wrapper/sensor_wrapper.py). `dumps` and `loads` are
-- of the json package, `decode` is `bytes.decode('utf-8')`, and so is `config`, which parses a configuration.
pub mod Actuation
use virt_ue_sensing.Base.{true, false, List, Bool, Option, none, some, [], ◌∷◌, if◌then◌else◌}
use virt_ue_sensing.Base.Text.{text_eq, Text, codes, text_Eq}
use virt_ue_sensing.Base.Exec.{
  then_result, attribute_error, raise, pure, gets, Result, Exec, lift, modify, or_raise, ◌>>=◌,
  ◌>>◌, key_error,
}
use virt_ue_sensing.Wrapper.Api.{
  Sensor, Json, text, flag, field, as_text, as_texts, optional_text, spawned, cancelled, log_drain,
  sensing_methods, note,
}
use virt_ue_sensing.Wrapper.Http.{
  Session, answer, Handler, challenge_handler, registration_ping, sensor_status, sensor_actuate,
  Route, as_object, Body, send_json, read_request, request_path, wait_for_json,
}
use virt_ue_sensing.Base.Dict.{Dict, get, put}
use virt_ue_sensing.Base.Exec.{err}
use virt_ue_sensing.Base.Exec.{ok}
use virt_ue_sensing.Wrapper.Http.{Member, plain}

abbrev same_id : Option Text → Text → Bool
same_id none uuid = false
same_id (some id) uuid = text_eq id uuid

module _ (dumps : Json → Text) (decode : Text → Option Text) (loads : Text → Result Body)
    (config : Text → Result Text) where
  -- `route_registration_ping`
  unfoldable pub route_registration_ping : Dict Text Text → Exec Session (Unit {0})
  unfolding get send_json text_eq
  route_registration_ping params = do
    uuid ← lift (or_raise key_error (get (codes "uuid") params))
    id ← gets (λ s. s.sensor.opts.sensor_id)
    if same_id id uuid
        then answer (dumps ((codes "error", flag false) ∷ (codes "msg", text (codes "ack")) ∷ []))
            200
        else answer
            (dumps (
              (codes "error", flag true)
              ∷ (codes "msg", text (codes "Sensor ID does not match registration ID"))
              ∷ []))
            401

  unfoldable pub route_sensor_status : Exec Session (Unit {0})
  unfolding send_json
  route_sensor_status = do
    o ← gets (λ s. s.sensor.opts)
    answer
        (dumps (
          (codes "error", flag false)
          ∷ (codes "sensor", optional_text o.sensor_id)
          ∷ (codes "virtue", optional_text o.virtue_id)
          ∷ (codes "user", optional_text o.username)
          ∷ []))
        200

  -- The observe actuation: the sensing methods run anew, and the log drain is replaced. The new
  -- one's hosts are looked up when the old one is gone.
  unfoldable pub observe : Json → Text → Exec Sensor (Unit {0})
  unfolding get
  observe payload configuration = do
    parsed ← lift (config configuration)
    modify (note (spawned (sensing_methods parsed)))
    task ← gets (λ s. s.log_drain_task)
    old ← lift (or_raise attribute_error task)
    modify (note (cancelled old))
    hosts ← lift (then_result (field (codes "kafka_bootstrap_hosts") payload) as_texts)
    topic ← lift (then_result (field (codes "sensor_topic") payload) as_text)
    modify (note (spawned (log_drain hosts topic)))
    modify (λ s. record s { log_drain_task = some (log_drain hosts topic) })

  abbrev on_sensor {ℓ} : {A : Type ℓ} → Exec Sensor A → Exec Session A
  on_sensor m s = ((m s.sensor).0, record s { sensor = (m s.sensor).1 })

  abbrev is_observe : Member → Bool
  is_observe (plain (text t)) = text_eq t (codes "observe")
  is_observe _ = false

  -- `route_sensor_actuate`, from the body on
  unfoldable pub actuate : Body → Exec Session (Unit {0})
  unfolding get text_eq observe send_json
  actuate body = do
    action ← lift (or_raise key_error (get (codes "actuation") body))
    payload ← lift (then_result (or_raise key_error (get (codes "payload") body)) as_object)
    configuration ← lift (field (codes "configuration") payload)
    if is_observe action
        then (do
          written ← lift (as_text configuration)
          on_sensor (observe payload written)
          answer (dumps ((codes "error", flag false) ∷ [])) 200)
        else answer
            (dumps
              ((codes "error", flag true) ∷ (codes "msg", text (codes "Unknown actuation")) ∷ []))
            200

  abbrev answered : Exec Session (Unit {0}) → Exec Session (Option (Unit {0}))
  answered m = do m; pure (some tt)

  abbrev with_body : Option (Result Body) → Exec Session (Option (Unit {0}))
  with_body none = pure none
  with_body (some (err x)) = raise x
  with_body (some (ok body)) = answered (actuate body)

  -- `None` when the body never ends, so that the loop goes on reading.
  unfoldable pub route_sensor_actuate : Exec Session (Option (Unit {0}))
  unfolding wait_for_json actuate
  route_sensor_actuate s =
      let (body, chunks) = wait_for_json decode loads [] s.chunks in
      with_body body (record s { chunks = chunks })

  unfoldable pub run_handler : Handler → Dict Text Text → Exec Session (Option (Unit {0}))
  unfolding route_registration_ping route_sensor_status route_sensor_actuate send_json
  run_handler (challenge_handler challenge) params = answered (answer (dumps challenge) 200)
  run_handler registration_ping params = answered (route_registration_ping params)
  run_handler sensor_status params = answered route_sensor_status
  run_handler sensor_actuate params = route_sensor_actuate

  -- `mapper_funcs`
  unfoldable pub handlers_of : List Route → Dict Text Handler → Dict Text Handler
  unfolding put
  handlers_of [] d = d
  handlers_of (r ∷ routes) d = handlers_of routes (put r.name r.handler d)

  abbrev matched : Dict Text Handler → Option (Dict Text Text) → Exec Session (Option (Unit {0}))
  matched funcs none = answered (
      answer (dumps ((codes "error", flag true) ∷ (codes "msg", text (codes "no such route")) ∷ []))
        404)
  matched funcs (some params) = do
    controller ← lift (or_raise key_error (get (codes "controller") params))
    handler ← lift (or_raise key_error (get controller funcs))
    run_handler handler params

  -- `http_handler` of `configure_http_handler`; `match` is the routes package's `Mapper.match` for
  -- the routes that were connected.
  unfoldable pub http_handler :
      (List Route → Text → Option (Dict Text Text)) → List Route → Exec Session (Option (Unit {0}))
  unfolding read_request request_path handlers_of run_handler
  http_handler match routes = do
    lines ← gets (λ s. s.lines)
    path ← lift (request_path (read_request [] lines))
    matched (handlers_of routes []) (match routes path)
