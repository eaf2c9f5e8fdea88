-- ===== src/Tools/Processes/Rounds.antt =====
-- What a round of the processlist sensor reports.
use virt_ue_sensing.Base.{
  ℕ, ◌≡◌, ◌++◌, Bool, true, false, Option, none, some, List, [], ◌∷◌, ◌==◌, if◌then◌else◌, nat_Eq,
}
use virt_ue_sensing.Base.Text.{Text}
use virt_ue_sensing.Base.Dict.{Dict}
use virt_ue_sensing.Tools.Processes.{
  Thread, ProcessObject, Yields, MonitorMessage, observed, failed, threads_by_id,
}

module _ {F : Type 0} {H : Type 0} (get_thread_objects : ℕ → H → Yields (Thread F)) where
  abbrev threads_at : Bool → ProcessObject F → H → Option (Dict ℕ (Thread F))
  threads_at false p h = none
  threads_at true p h =
      some (threads_by_id get_thread_objects [] (get_thread_objects p.number_of_threads h).yielded)

  abbrev report_under : Bool → ProcessObject F → H → Option ℕ → List (MonitorMessage F)
  report_under adversarial p h none = []
  report_under adversarial p h (some n) =
      if n == 0 then [] else observed n p (threads_at adversarial p h) ∷ []

  -- Each process but the idle ones, under its own id, and with its own threads just on the level
  -- "adversarial".
  abbrev pub reports_of : Bool → List (ProcessObject F × H) → List (MonitorMessage F)
  reports_of adversarial [] = []
  reports_of adversarial ((p, h) ∷ objects) =
      report_under adversarial p h p.unique_process_id ++ reports_of adversarial objects

  -- The threads of the process cannot be read.
  pub record Unreadable (p : ProcessObject F) (h : H) (e : Text) : Type 0 where
    pub pid : ℕ
    pub known : p.unique_process_id ≡ some pid
    pub busy : (pid == 0) ≡ false
    pub refused : (get_thread_objects p.number_of_threads h).failure ≡ some e

  -- Where a round ends, and the message of the exception that ends it, if one does: behind the last
  -- process, or at one whose threads cannot be read.
  abbrev pub Ends :
      Bool → Option Text → List (ProcessObject F × H) → List (MonitorMessage F) → Type 0
  Ends adversarial none [] message = message ≡ []
  Ends adversarial (some e) [] message = message ≡ failed e ∷ []
  Ends adversarial failure ((p, h) ∷ objects) message =
      (e : Text) × (adversarial ≡ true) × Unreadable p h e × (message ≡ failed e ∷ [])

  -- A round, split where it ends.
  record Round (adversarial : Bool) (objects : List (ProcessObject F × H)) (failure : Option Text)
      (messages : List (MonitorMessage F)) : Type 0 where
    seen : List (ProcessObject F × H)
    rest : List (ProcessObject F × H)
    message : List (MonitorMessage F)
    parts : objects ≡ seen ++ rest
    ends : Ends adversarial failure rest message
    all : messages ≡ reports_of adversarial seen ++ message
