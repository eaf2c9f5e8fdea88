-- ===== src/Wrapper/Routes/Actuation.antt =====
-- What an observe actuation does to the sensor.
use virt_ue_sensing.Base.{◌≡◌, ◌⊎◌, some, none, List, ◌∷◌}
use virt_ue_sensing.Base.Text.{Text, codes, text_Eq}
use virt_ue_sensing.Base.Exec.{Result, Exc, ok, err, attribute_error, then_result}
use virt_ue_sensing.Wrapper.Api.{
  Json, Task, spawned, cancelled, log_drain, sensing_methods, Sensor, field, as_text, as_texts,
}

-- The hosts and the topic that a payload asks for
abbrev pub hosts_of : Json → Result (List Text)
hosts_of payload = then_result (field (codes "kafka_bootstrap_hosts") payload) as_texts

abbrev pub topic_of : Json → Result Text
topic_of payload = then_result (field (codes "sensor_topic") payload) as_text

module _ (config : Text → Result Text) (payload : Json) (configuration : Text) (s : Sensor) where
  -- Every part of the payload is as asked, and a drain ran: the one of the payload is in its place.
  pub record Replaced (t : Sensor) : Type 0 where
    pub old : Task
    pub parsed : Text
    pub hosts : List Text
    pub topic : Text
    pub had_task : s.log_drain_task ≡ some old
    pub had_configuration : config configuration ≡ ok parsed
    pub had_hosts : hosts_of payload ≡ ok hosts
    pub had_topic : topic_of payload ≡ ok topic
    pub task : t.log_drain_task ≡ some (log_drain hosts topic)
    pub events :
        t.events
        ≡ spawned (log_drain hosts topic)
          ∷ cancelled old
          ∷ spawned (sensing_methods parsed)
          ∷ s.events

  -- The old drain is gone and no other is started: the hosts or the topic is missing.
  pub record Drained (x : Exc) (parsed : Text) (t : Sensor) : Type 0 where
    pub old : Task
    pub had_task : s.log_drain_task ≡ some old
    pub missing :
        (hosts_of payload ≡ err x)
        ⊎ ((hosts : List Text) × (hosts_of payload ≡ ok hosts) × (topic_of payload ≡ err x))
    pub events : t.events ≡ cancelled old ∷ spawned (sensing_methods parsed) ∷ s.events

  abbrev pub Idle : Exc → Text → Sensor → Type 0
  Idle x parsed t =
      (s.log_drain_task ≡ none)
      × (x ≡ attribute_error)
      × (t.events ≡ spawned (sensing_methods parsed) ∷ s.events)

  -- An exception is raised, with what was started before it.
  abbrev pub Failed : Exc → Sensor → Type 0
  Failed x t =
      ((config configuration ≡ err x) × (t.events ≡ s.events))
      ⊎ ((parsed : Text) × (config configuration ≡ ok parsed)
          × (Idle x parsed t ⊎ Drained x parsed t))
