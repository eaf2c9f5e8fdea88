-- ===== src/Tools/Tasklist.antt =====
-- The tasklist sensor (sensors/sensor_tasklist/sensor_tasklist.py).
use virt_ue_sensing.Base.{
  ℕ, zero, suc, ◌≡◌, Bool, false, not, Option, none, some, List, [], ◌∷◌, ◌==◌, if◌then◌else◌,
  keep_if, All, Bool-cases, inl, inr,
}
use mathlib.Core.Path.{subst}
use virt_ue_sensing.Base.Text.{Text, codes, text_eq}
use virt_ue_sensing.Base.Split.{split_on, split_on-All, has_char}
use virt_ue_sensing.Base.Exec.{Result, ok, or_raise, unicode_error, then_result, then_result-ok}
use virt_ue_sensing.Base.Fallible.{◌>>=◌}
use virt_ue_sensing.Base.Log.{LogMessage, log_message}
use virt_ue_sensing.Wrapper.Identity.{to_int}
use virt_ue_sensing.Tools.Columns.{nth, logged, Sent, report_lines}
use virt_ue_sensing.Tools.Ps.{is_self}

pub record WindowsTask : Type 0 where
  pub image_name : Text
  pub pid : Text
  pub session_name : Text
  pub session_number : Text
  pub mem_usage : Text

lstrip_quotes : Text → Text
lstrip_quotes [] = []
lstrip_quotes (c ∷ s) = let rest = lstrip_quotes s in if c == b'"' then rest else c ∷ s

abbrev keep_before_quote : ℕ → Text → Text
keep_before_quote c [] = if c == b'"' then [] else c ∷ []
keep_before_quote c (d ∷ s) = c ∷ d ∷ s

rstrip_quotes : Text → Text
rstrip_quotes [] = []
rstrip_quotes (c ∷ s) = keep_before_quote c (rstrip_quotes s)

-- `s.strip('"')`
unfoldable pub strip_quotes : Text → Text
unfolding lstrip_quotes rstrip_quotes
strip_quotes s = rstrip_quotes (lstrip_quotes s)

-- `[bit for bit in line.split(",") if bit != '']`
unfoldable pub csv_bits : Text → List Text
unfolding split_on text_eq
csv_bits line = keep_if (λ bit. not (text_eq bit [])) (split_on b',' line)

unfoldable pub task_of : Text → Result WindowsTask
task_of line = do
  image_name ← nth 0 (csv_bits line)
  pid ← nth 1 (csv_bits line)
  session_name ← nth 2 (csv_bits line)
  session_number ← nth 3 (csv_bits line)
  mem_usage ← nth 4 (csv_bits line)
  ok (record {
    image_name = image_name;
    pid = strip_quotes pid;
    session_name = session_name;
    session_number = strip_quotes session_number;
    mem_usage = mem_usage;
  })

-- The report on a task, unless it is the sensor's own.
abbrev pub other_task : ℕ → WindowsTask → Result (Option WindowsTask)
other_task self_pid t =
    then_result (to_int t.pid) λ n. if is_self self_pid n then ok none else ok (some t)

-- `decode` is `bytes.decode('utf-8')`; `none` is a `UnicodeDecodeError`.
module _ (decode : Text → Option Text) where
  unfoldable pub tasklist_line : ℕ → Text → Result (Option WindowsTask)
  tasklist_line self_pid raw = do
    line ← or_raise unicode_error (decode raw)
    t ← task_of line
    other_task self_pid t

  -- One round of `tasklist` over what the command prints. Time stands still.
  unfoldable pub tasklist :
      ℕ → Text → LogMessage WindowsTask → List Text → Sent (LogMessage WindowsTask)
  unfolding tasklist_line log_message
  tasklist self_pid now message_stub printed =
      report_lines
        (λ raw.
          logged (λ t. log_message now (codes "info") t message_stub) (tasklist_line self_pid raw))
        printed

nth-All : (P : Text → Type 0) (n : ℕ) (ws : List Text) (w : Text) → nth n ws ≡ ok w → All P ws → P w
nth-All P n [] w e h = absurd cc
nth-All P zero (v ∷ ws) w e (h, _) = subst P {x = v} {y = w} (cc) h
nth-All P (suc n) (v ∷ ws) w e (_, h) = nth-All P n ws w e h

keep_if-All :
    (P : Text → Type 0) (p : Text → Bool) (ws : List Text) → All P ws → All P (keep_if p ws)
keep_if-All P p [] h = tt
keep_if-All P p (w ∷ ws) (h, more) = elim (Bool-cases (p w)) [
  | inl kept ↦ rw kept (h, keep_if-All P p ws more)
  | inr dropped ↦ rw dropped (keep_if-All P p ws more)
]

-- The memory usage of a task ends before its first comma, such as the one between the thousands.
pub task_of-no_comma :
    (line : Text) (t : WindowsTask) → task_of line ≡ ok t → has_char b',' t.mem_usage ≡ false
unfolding task_of csv_bits
task_of-no_comma line t e =
    let (a, ea, e1) = then_result-ok (nth 0 (csv_bits line)) _ t e in
    let (b, eb, e2) = then_result-ok (nth 1 (csv_bits line)) _ t e1 in
    let (c, ec, e3) = then_result-ok (nth 2 (csv_bits line)) _ t e2 in
    let (d, ed, e4) = then_result-ok (nth 3 (csv_bits line)) _ t e3 in
    let (m, em, e5) = then_result-ok (nth 4 (csv_bits line)) _ t e4 in
    let free =
      nth-All (λ w. has_char b',' w ≡ false) 4 (csv_bits line) m em
        (keep_if-All (λ w. has_char b',' w ≡ false) (λ bit. not (text_eq bit []))
          (split_on b',' line) (split_on-All b',' line)) in
    subst (λ x. has_char b',' x ≡ false) {x = m} {y = t.mem_usage} (cc) free
