-- ===== src/Tools/Tests.antt =====
-- Runs of the theorems on the lines of a ps and on two processes.
use virt_ue_sensing.Base.{ℕ, ◌≡◌, false, some, none, List, [], ◌∷◌}
use virt_ue_sensing.Base.Text.{Text, codes}
use virt_ue_sensing.Base.Log.{LogMessage}
use virt_ue_sensing.Tools.Processes.{Thread, ProcessObject, Yields, MonitorMessage}
use virt_ue_sensing.Tools.Ps.{ps}
use virt_ue_sensing.Tools.Kernel.{kernel_lines, kernel_lines-ps}

abbrev ps_lines : List Text
ps_lines =
    codes "USER PID\n"
    ∷ codes "root  1 0.0 0.0 21 18 pts/0 Ss+ 19:54 0:00 /bin/bash run.sh\n"
    ∷ codes "root  7 0.0 0.0 21 18 pts/0 Ss+ 19:54 0:00 python sensor.py\n"
    ∷ []

kernel_lines-ps_example :
    kernel_lines some 7 (codes "now") [] false ps_lines ≡ ps some 7 (codes "now") [] ps_lines
kernel_lines-ps_example = kernel_lines-ps some 7 (codes "now") [] ps_lines

-- The threads of a process, as a list that is handed on.
abbrev threads_of : ℕ → List (Thread Text) → Yields (Thread Text)
threads_of n ts = record { yielded = ts; failure = none }

abbrev process : ℕ → Text → ProcessObject Text
process pid name = record {
  unique_process_id = some pid;
  number_of_threads = 1;
  process_fields = name;
}

abbrev waiting : Thread Text
waiting = record { unique_thread = 8; thread_fields = codes "Waiting" }

abbrev stub : LogMessage (MonitorMessage Text)
stub = []

abbrev processes : Yields (ProcessObject Text × List (Thread Text))
processes = record {
  yielded = (process 0 (codes "Idle"), []) ∷ (process 4 (codes "System"), waiting ∷ []) ∷ [];
  failure = some (codes "gone");
}
