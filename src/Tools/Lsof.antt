-- ===== src/Tools/Lsof.antt =====
-- The lsof sensor (sensors/sensor_lsof/sensor_lsof.py).
use virt_ue_sensing.Base.{
  ℕ, zero, suc, ◌≡◌, ◌<◌, ◌≤◌, refl, Bool, true, false, Option, none, some, List, [], ◌∷◌, ltb,
  if◌then◌else◌, arith, length,
}
use virt_ue_sensing.Base.Text.{Text, text_Eq, codes}
use virt_ue_sensing.Base.Dict.{Dict, get, put}
use virt_ue_sensing.Base.Split.{split_on, is_space}
use virt_ue_sensing.Base.Exec.{Result, ok, err, or_raise, unicode_error, index_error, then_result}
use virt_ue_sensing.Base.Fallible.{◌>>=◌}
use virt_ue_sensing.Base.Log.{text, report, update, LogMessage}
use virt_ue_sensing.Tools.Columns.{nth, Sent, report_lines}

-- `re.sub(r'\s+', ' ', line)`; the flag tells that a space was just written.
abbrev one_space : Bool → Text → Text
one_space after [] = []
one_space after (c ∷ s) =
    let run = one_space true s in
    let word = one_space false s in
    if is_space c then (if after then run else b' ' ∷ run) else c ∷ word

unfoldable pub line_bits : Text → List Text
unfolding split_on
line_bits line = split_on b' ' (one_space false line)

abbrev pub lsof_type_map : Dict Text Text
lsof_type_map =
    (codes "CHR", codes "debug")
    ∷ (codes "DIR", codes "debug")
    ∷ (codes "IPv4", codes "info")
    ∷ (codes "KQUEUE", codes "info")
    ∷ (codes "NPOLICY", codes "debug")
    ∷ (codes "REG", codes "debug")
    ∷ (codes "systm", codes "warn")
    ∷ (codes "unix", codes "info")
    ∷ (codes "vnode:", codes "warn")
    ∷ []

abbrev level_of : Option Text → Text
level_of none = codes "debug"
level_of (some level) = level

-- The level of a line, and the line; `none` if it is skipped.
unfoldable pub level_line : Text → Result (Option (Text × Text))
unfolding line_bits get
level_line line =
    if ltb (length (line_bits line)) 4
    then ok none
    else then_result (nth 4 (line_bits line))
        λ line_type. ok (some (level_of (get line_type lsof_type_map), line))

-- The fields are in another order than those of the other sensors.
unfoldable pub lsof_message : Text → Text → Text → LogMessage Text → LogMessage Text
unfolding put
lsof_message now level message message_stub =
    update
      ((codes "message", report message)
        ∷ (codes "timestamp", text now)
        ∷ (codes "level", text level)
        ∷ [])
      message_stub

-- `decode` is `bytes.decode('utf-8')`; `none` is a `UnicodeDecodeError`.
module _ (decode : Text → Option Text) where
  unfoldable pub lsof_line : Text → LogMessage Text → Text → Result (Option (LogMessage Text))
  unfolding level_line lsof_message
  lsof_line now message_stub raw = do
    line ← or_raise unicode_error (decode raw)
    levelled ← level_line line
    elim levelled [
      | none ↦ ok none
      | some (level, message) ↦ ok (some (lsof_message now level message message_stub))
    ]

  -- `lsof` over what the command prints. Time stands still.
  unfoldable pub lsof : Text → LogMessage Text → List Text → Sent (LogMessage Text)
  unfolding lsof_line
  lsof now message_stub printed = report_lines (lsof_line now message_stub) printed

nth-error : (n : ℕ) (ws : List Text) → length ws ≤ n → nth n ws ≡ err index_error
nth-error n [] h = refl
nth-error zero (w ∷ ws) h = absurd (omega arith)
nth-error (suc n) (w ∷ ws) h = nth-error n ws (omega arith)

nth-ok : (n : ℕ) (ws : List Text) → n < length ws → (w : Text) × (nth n ws ≡ ok w)
nth-ok n [] h = absurd (omega arith)
nth-ok zero (w ∷ ws) h = (w, refl)
nth-ok (suc n) (w ∷ ws) h = nth-ok n ws (omega arith)

-- A line of fewer than four columns is skipped, one of four raises an `IndexError`, and one of more
-- has a level and is sent as it is.
pub level_line_lem :
    (line : Text)
    → (length (line_bits line) < 4 → level_line line ≡ ok none)
      × (length (line_bits line) ≡ 4 → level_line line ≡ err index_error)
      × (4 < length (line_bits line) → (level : Text) × (level_line line ≡ ok (some (level, line))))
unfolding level_line
level_line_lem line = (
  λ h. ground (arith, h),
  λ h. ground (arith, h, nth-error 4 (line_bits line)),
  λ h.
      let (w, e) = nth-ok 4 (line_bits line) h in
      let long : ltb (length (line_bits line)) 4 ≡ false = ground (arith, h) in
      (level_of (get w lsof_type_map), rw (long, e) refl),
)
