-- ===== src/Tools/Processes.antt =====
-- The processlist sensor (sensors/sensor_processlist/sensor_processlist.py).
pub mod Rounds
use virt_ue_sensing.Base.{
  ℕ, ◌≡◌, ◌++◌, ap, sym, ◌∙◌, refl, arith, inl, inr, Option-cases, Bool-cases, append_assoc, Bool,
  true, false, Option, none, some, List, [], ◌∷◌, ◌==◌, if◌then◌else◌, nat_Eq, map,
}
use virt_ue_sensing.Base.Text.{Text, codes, text_eq}
use virt_ue_sensing.Base.Dict.{Dict, put}
use virt_ue_sensing.Base.Log.{LogMessage, log_message}

-- A thread, and a process with its further fields, which are passed on.
pub record Thread (F : Type 0) : Type 0 where
  pub unique_thread : ℕ
  pub thread_fields : F

pub record ProcessObject (F : Type 0) : Type 0 where
  pub unique_process_id : Option ℕ
  pub number_of_threads : ℕ
  pub process_fields : F

-- What a generator yields, and the text of the exception that ends it, if one does.
pub record Yields (A : Type 0) : Type 0 where
  pub yielded : List A
  pub failure : Option Text

-- The process by its id, with its threads on the level "adversarial"; or the text of an exception.
pub data MonitorMessage (F : Type 0) : Type 0 where
  observed : ℕ → ProcessObject F → Option (Dict ℕ (Thread F)) → MonitorMessage F
  failed : Text → MonitorMessage F

-- `not pid`: the idle process has the id 0, and one that is gone has none.
abbrev pub is_idle : Option ℕ → Bool
is_idle none = true
is_idle (some n) = n == 0

module _ {F : Type 0} {H : Type 0} (get_thread_objects : ℕ → H → Yields (Thread F)) where
  unfoldable pub threads_by_id : Dict ℕ (Thread F) → List (Thread F) → Dict ℕ (Thread F)
  unfolding put
  threads_by_id d [] = d
  threads_by_id d (t ∷ ts) = threads_by_id (put t.unique_thread t d) ts

  -- The reports on one process, before the reports that follow, and the report that ends the round.
  unfoldable pub report_process :
      Bool → ℕ → ProcessObject F → H → List (MonitorMessage F) → List (MonitorMessage F)
  unfolding threads_by_id
  report_process false pid p h rest = observed pid p none ∷ rest
  report_process true pid p h rest =
      let threads = get_thread_objects p.number_of_threads h in
      elim threads.failure [
        | none ↦ observed pid p (some (threads_by_id [] threads.yielded)) ∷ rest
        | some e ↦ failed e ∷ []
      ]

  abbrev pub report_unless_idle :
      Bool → Option ℕ → ProcessObject F → H → List (MonitorMessage F) → List (MonitorMessage F)
  report_unless_idle adversarial none p h rest = rest
  report_unless_idle adversarial (some n) p h rest =
      if n == 0 then rest else report_process adversarial n p h rest

  -- One round over the processes.
  unfoldable pub monitor_round :
      Bool → List (ProcessObject F × H) → Option Text → List (MonitorMessage F)
  monitor_round adversarial [] none = []
  monitor_round adversarial [] (some e) = failed e ∷ []
  monitor_round adversarial ((p, h) ∷ objects) failure =
      report_unless_idle adversarial p.unique_process_id p h
        (monitor_round adversarial objects failure)

  -- The level of a message.
  abbrev pub message_level : MonitorMessage F → Text
  message_level (observed _ _ _) = codes "info"
  message_level (failed _) = codes "error"

  -- One round of `process_monitor`, with what is configured. Time stands still.
  unfoldable pub process_monitor :
      Text
      → Text
      → LogMessage (MonitorMessage F)
      → Yields (ProcessObject F × H)
      → List (LogMessage (MonitorMessage F))
  unfolding text_eq
  process_monitor sensor_config_level now message_stub objects =
      map (λ m. log_message now (message_level m) m message_stub)
        (monitor_round (text_eq sensor_config_level (codes "adversarial")) objects.yielded
          objects.failure)
