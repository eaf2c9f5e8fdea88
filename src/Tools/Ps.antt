-- ===== src/Tools/Ps.antt =====
-- The ps sensor (sensors/sensor_ps/sensor_ps.py).
use virt_ue_sensing.Base.{
  ℕ, ◌≡◌, Bool, false, ◌&&◌, Option, none, some, List, ◌==◌, if◌then◌else◌, drop, arith, Bool-cases,
  inl, inr,
}
use virt_ue_sensing.Base.Text.{Text, codes}
use virt_ue_sensing.Base.Split.{join_with, strip}
use virt_ue_sensing.Base.Exec.{Result, ok, or_raise, unicode_error, then_result, then_result-ok}
use virt_ue_sensing.Base.Fallible.{◌>>=◌}
use virt_ue_sensing.Base.Log.{LogMessage, log_message}
use virt_ue_sensing.Wrapper.Options.{Port, number, negative, text}
use virt_ue_sensing.Wrapper.Identity.{to_int}
use virt_ue_sensing.Tools.Columns.{columns, nth, logged, Sent, report_lines}

pub record Process : Type 0 where
  pub process : Text
  pub pid : Text
  pub user : Text

abbrev pub is_self : ℕ → Port → Bool
is_self self_pid (number n) = n == self_pid
is_self self_pid (negative n) = (n == 0) && (self_pid == 0)
is_self self_pid (text s) = false

-- The report on a process, unless it is the sensor's own.
abbrev pub unless_self : ℕ → Process → Result (Option Process)
unless_self self_pid p =
    then_result (to_int p.pid) λ n. if is_self self_pid n then ok none else ok (some p)

-- The process that a line tells of.
unfoldable pub process_of : Text → Result Process
unfolding columns strip
process_of line = do
  let bits = columns line
  user ← nth 0 bits
  pid ← nth 1 bits
  ok (record { process = strip (join_with (codes " ") (drop 10 bits)); pid = pid; user = user })

-- `decode` is `bytes.decode('utf-8')`; `none` is a `UnicodeDecodeError`.
module _ (decode : Text → Option Text) where
  unfoldable pub ps_line : ℕ → Text → Result (Option Process)
  ps_line self_pid raw = do
    line ← or_raise unicode_error (decode raw)
    p ← process_of line
    unless_self self_pid p

  -- One round of `ps` over what the command prints: the first line is the header. Time stands still.
  unfoldable pub ps : ℕ → Text → LogMessage Process → List Text → Sent (LogMessage Process)
  unfolding ps_line log_message
  ps self_pid now message_stub printed =
      report_lines
        (λ raw. logged (λ p. log_message now (codes "info") p message_stub) (ps_line self_pid raw))
        (drop 1 printed)

  -- No line is reported whose process id is that of the sensor.
  pub ps_line-other :
      (self_pid : ℕ) (raw : Text) (p : Process)
      → ps_line self_pid raw ≡ ok (some p)
      → (n : Port) × (to_int p.pid ≡ ok n) × (is_self self_pid n ≡ false)
  unfolding ps_line
  ps_line-other self_pid raw p e =
      let (line, _, f) = then_result-ok (or_raise unicode_error (decode raw)) _ (some p) e in
      let (q, _, g) = then_result-ok (process_of line) _ (some p) f in
      let (n, i, h) = then_result-ok (to_int q.pid) _ (some p) g in
      elim (Bool-cases (is_self self_pid n)) [
        | inl b ↦ absurd (ground (arith, b, h))
        | inr b ↦ let same : q ≡ p = ground (arith, b, h) in (n, rw (← same) i, b)
      ]
