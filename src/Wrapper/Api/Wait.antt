-- ===== src/Wrapper/Api/Wait.antt =====
-- `SensorWrapper.wait_for_sensor_api`: retries until the API is ready or the time is up.
use virt_ue_sensing.Base.{
  arith, ◌≤◌, true, ◌≡◌, ◌<◌, inl, inr, Bool-cases, ℕ, zero, suc, ◌+◌, ◌-◌, Bool, false, Option,
  none, some, ◌∷◌, if◌then◌else◌, ltb, ◌==◌,
}
use virt_ue_sensing.Base.Text.{Text, codes, text_Eq}
use virt_ue_sensing.Base.Dict.{get}
use virt_ue_sensing.Base.Exec.{Result, ok, err, connection_error}
use virt_ue_sensing.Wrapper.Options.{construct_api_uri}
use virt_ue_sensing.Wrapper.Api.{
  Server, Sensor, Response, Json, Value, truthy, requests_get, send, build_response, slept,
}

-- `"ready" in res_json and res_json["ready"]`
abbrev ready_field : Option Value → Bool
ready_field none = false
ready_field (some v) = truthy v

abbrev json_ready : Result Json → Bool
json_ready (err x) = false
json_ready (ok json) = ready_field (get (codes "ready") json)

-- An exception of any kind is logged and counts as not ready.
unfoldable pub is_ready : Result Response → Bool
unfolding get
is_ready (err x) = false
is_ready (ok res) = if res.status_code == 200 then json_ready res.json else false

-- `time.sleep(self.opts.api_retry_wait)`
abbrev sleep_on : Sensor → Sensor
sleep_on s = record s {
  clock = s.clock + s.opts.api_retry_wait;
  events = slept s.opts.api_retry_wait ∷ s.events;
}

-- `f` is fuel; `st` is the time at the start.
unfoldable pub wait_loop : Server → Text → ℕ → ℕ → Sensor → Option (Result (Unit {0})) × Sensor
unfolding send is_ready build_response
wait_loop server uri st zero s = (none, s)
wait_loop server uri st (suc f) s =
    let (res, t) = requests_get server uri s in
    let rest = wait_loop server uri st f (sleep_on t) in
    if is_ready res
    then (some (ok tt), t)
    else if ltb t.opts.api_retry_max (t.clock - st)
    then (some (err connection_error), t)
    else rest

unfoldable pub wait_for_sensor_api : Server → ℕ → Sensor → Option (Result (Unit {0})) × Sensor
unfolding wait_loop construct_api_uri
wait_for_sensor_api server f s =
    wait_loop server (construct_api_uri s.opts (codes "/ready") false) s.clock f s

-- The two ways out of the loop: the last answer was ready, or the time is over.
pub data WayOut (server : Server) (uri : Text) (st : ℕ) : Result (Unit {0}) → Sensor → Type 0 where
  ready :
      (t : Sensor)
      → is_ready (requests_get server uri t).0 ≡ true
      → WayOut server uri st (ok tt) (requests_get server uri t).1
  timed_out :
      {s : Sensor}
      → s.opts.api_retry_max < s.clock - st
      → WayOut server uri st (err connection_error) s

wait_loop-returns :
    (server : Server) (uri : Text) (st f : ℕ) (s : Sensor)
    → 0 < s.opts.api_retry_wait
    → st ≤ s.clock
    → 0 < f
    → s.opts.api_retry_max + 2 ≤ f + (s.clock - st)
    → (r : Result (Unit {0})) × (t : Sensor) × (wait_loop server uri st f s ≡ (some r, t))
      × WayOut server uri st r t
unfolding wait_loop send
wait_loop-returns server uri st zero s w b p h = absurd (ground arith)
wait_loop-returns server uri st (suc f) s w b p h =
    elim (Bool-cases (is_ready (requests_get server uri s).0)) [
      | inl up ↦ (ok tt, (requests_get server uri s).1, ground arith, ready s up)
      | inr down ↦
          elim (Bool-cases (ltb s.opts.api_retry_max ((requests_get server uri s).1.clock - st))) [
            | inl over ↦ (
              err connection_error,
              (requests_get server uri s).1,
              ground arith,
              timed_out (ground arith),
            )
            | inr time_left ↦
                let (r, v, e, out) =
                  wait_loop-returns server uri st f (sleep_on (requests_get server uri s).1) w
                    (ground arith) (ground arith) (ground arith) in
                (r, v, ground arith, out)
          ]
    ]

-- A wait above 0 between the attempts bounds their number: with one round of fuel for each
-- millisecond of the limit and two more, the wait ends. It ends well with an answer that was ready,
-- and with a connection error only after the limit.
pub wait_for_sensor_api-returns :
    (server : Server) (f : ℕ) (s : Sensor)
    → 0 < s.opts.api_retry_wait
    → s.opts.api_retry_max + 2 ≤ f
    → (r : Result (Unit {0})) × (t : Sensor) × (wait_for_sensor_api server f s ≡ (some r, t))
      × WayOut server (construct_api_uri s.opts (codes "/ready") false) s.clock r t
unfolding wait_for_sensor_api
wait_for_sensor_api-returns server f s w h =
    wait_loop-returns server _ s.clock f s w (omega arith) (omega arith) (omega arith)
