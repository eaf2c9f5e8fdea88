-- ===== src/Tools/Kernel.antt =====
-- The kernel-ps sensor (sensors/sensor_kernel_ps/sensor_kernel_ps.py), which reports on each line of
-- another ps as it comes.
use virt_ue_sensing.Base.{
  ℕ, ◌≡◌, refl, ap, ◌∙◌, Bool, true, false, Option, none, some, List, [], ◌∷◌, drop, if◌then◌else◌,
}
use virt_ue_sensing.Base.Text.{Text, codes}
use virt_ue_sensing.Base.Split.{join_with, strip}
use virt_ue_sensing.Base.Exec.{Result, ok, err, or_raise, unicode_error}
use virt_ue_sensing.Base.Fallible.{◌>>=◌}
use virt_ue_sensing.Base.Log.{LogMessage, log_message}
use virt_ue_sensing.Wrapper.Identity.{to_int}
use virt_ue_sensing.Tools.Columns.{columns, nth, Sent, logged, report_lines}
use virt_ue_sensing.Tools.Ps.{Process, is_self, ps, ps_line, process_of}

-- The first column is the user, the second the process id, and from the eleventh on the command.
unfoldable pub kernel_process_of : List Text → Result Process
unfolding strip
kernel_process_of bits = do
  user ← nth 0 bits
  pid ← nth 1 bits
  ok (record { process = strip (join_with (codes " ") (drop 10 bits)); pid = pid; user = user })

-- A line is skipped, or reported before the rest, or ends the sensor.
abbrev pub send_line :
    Text
    → LogMessage Process
    → Result (Option Process)
    → Sent (LogMessage Process)
    → Sent (LogMessage Process)
send_line now stub (err x) rest = record { messages = []; raised = some x }
send_line now stub (ok none) rest = rest
send_line now stub (ok (some p)) rest = record {
  messages = log_message now (codes "info") p stub ∷ rest.messages;
  raised = rest.raised;
}

module _ (decode : Text → Option Text) where
  -- What is done with a line behind the header.
  unfoldable pub kernel_line : ℕ → Text → Result (Option Process)
  unfolding columns
  kernel_line self_pid raw = do
    line ← or_raise unicode_error (decode raw)
    p ← kernel_process_of (columns line)
    n ← to_int p.pid
    if is_self self_pid n then ok none else ok (some p)

  -- What is sent for the lines; the flag is `got_header`.
  unfoldable pub kernel_lines :
      ℕ → Text → LogMessage Process → Bool → List Text → Sent (LogMessage Process)
  kernel_lines self_pid now stub got_header [] = record { messages = []; raised = none }
  kernel_lines self_pid now stub false (raw ∷ raws) = kernel_lines self_pid now stub true raws
  kernel_lines self_pid now stub true (raw ∷ raws) =
      send_line now stub (kernel_line self_pid raw) (kernel_lines self_pid now stub true raws)

  kernel_line-eq :
      (self_pid : ℕ) (raw : Text) → kernel_line self_pid raw ≡ ps_line decode self_pid raw
  unfolding kernel_line ps_line kernel_process_of process_of
  kernel_line-eq self_pid raw = refl

  report_of : ℕ → Text → LogMessage Process → Text → Result (Option (LogMessage Process))
  report_of self_pid now stub raw =
      logged (λ p. log_message now (codes "info") p stub) (ps_line decode self_pid raw)

  send_line-logged :
      (now : Text) (stub : LogMessage Process) (r : Result (Option Process))
      (rest : Sent (LogMessage Process))
      → send_line now stub r rest
        ≡ elim (logged (λ p. log_message now (codes "info") p stub) r)
            as (λ _. Sent (LogMessage Process)) [
              | err x ↦ record { messages = []; raised = some x }
              | ok none ↦ rest
              | ok (some m) ↦ record { messages = m ∷ rest.messages; raised = rest.raised }
            ]
  send_line-logged now stub (err x) rest = refl
  send_line-logged now stub (ok none) rest = refl
  send_line-logged now stub (ok (some p)) rest = refl

  behind_header :
      (self_pid : ℕ) (now : Text) (stub : LogMessage Process) (raws : List Text)
      → kernel_lines self_pid now stub true raws ≡ report_lines (report_of self_pid now stub) raws
  unfolding kernel_lines report_of
  behind_header self_pid now stub [] = refl
  behind_header self_pid now stub (raw ∷ raws) =
      ap (λ r. send_line now stub r (kernel_lines self_pid now stub true raws))
        (kernel_line-eq self_pid raw)
      ∙ (ap (send_line now stub (ps_line decode self_pid raw))
            (behind_header self_pid now stub raws)
          ∙ send_line-logged now stub (ps_line decode self_pid raw)
              (report_lines (report_of self_pid now stub) raws))

  -- The kernel-ps sensor sends for the lines of its ps just what the ps sensor sends for them.
  pub kernel_lines-ps :
      (self_pid : ℕ) (now : Text) (stub : LogMessage Process) (raws : List Text)
      → kernel_lines self_pid now stub false raws ≡ ps decode self_pid now stub raws
  unfolding ps kernel_lines report_of
  kernel_lines-ps self_pid now stub [] = refl
  kernel_lines-ps self_pid now stub (raw ∷ raws) = behind_header self_pid now stub raws
