-- ===== src/Tools/Netstat.antt =====
-- The netstat sensor (sensors/sensor_netstat/sensor_netstat.py).
use virt_ue_sensing.Base.{
  append_assoc, ℕ, ◌≡◌, refl, ap, ◌∙◌, sym, ◌++◌, true, false, Option, some, List, [], ◌∷◌,
  if◌then◌else◌, drop, All,
}
use mathlib.Core.Path.{subst}
use virt_ue_sensing.Base.Text.{Text, codes}
use virt_ue_sensing.Base.Split.{
  join_with, split_on, strip, has_char, join_with-split_on, split_on-first, split_on-All,
}
use virt_ue_sensing.Base.Exec.{Result, ok, err, or_raise, unicode_error, index_error, value_error}
use virt_ue_sensing.Base.Fallible.{◌>>=◌}
use virt_ue_sensing.Base.Log.{LogMessage, log_message}
use virt_ue_sensing.Tools.Columns.{columns, nth, init_of, last_of, logged, Sent, report_lines}

pub record Connection : Type 0 where
  pub proto : Text
  pub recv_q : Text
  pub send_q : Text
  pub state : Text
  pub local_address : Text
  pub local_port : Text
  pub remote_address : Text
  pub remote_port : Text
  pub pid : Text
  pub program : Text

-- What stands before the last colon, and behind it.
abbrev address_port_of : List Text → Text × Text
address_port_of [] = ([], [])
address_port_of (w ∷ ws) = (join_with (codes ":") (init_of w ws), last_of w ws)

unfoldable pub address_port : Text → Text × Text
unfolding split_on
address_port column = address_port_of (split_on b':' column)

-- `bits[-1]`
abbrev last_column : List Text → Result Text
last_column [] = err index_error
last_column (w ∷ ws) = ok (last_of w ws)

-- Python refuses to unpack more than two pieces.
abbrev two_pieces : List Text → Result (Text × Text)
two_pieces (pid ∷ program ∷ []) = ok (pid, program)
two_pieces _ = err value_error

unfoldable pub pid_program : Text → Result (Text × Text)
unfolding split_on
pid_program column = if has_char b'/' column then two_pieces (split_on b'/' column) else ok ([], [])

-- `decode` is `bytes.decode('utf-8')`; `none` is a `UnicodeDecodeError`.
module _ (decode : Text → Option Text) where
  unfoldable pub netstat_line : Text → Result (Option Connection)
  unfolding columns strip address_port pid_program
  netstat_line raw = do
    line ← or_raise unicode_error (decode raw)
    let bits = columns (strip line)
    local ← nth 3 bits
    remote ← nth 4 bits
    last ← last_column bits
    (pid, program) ← pid_program last
    proto ← nth 0 bits
    recv_q ← nth 1 bits
    send_q ← nth 2 bits
    state ← nth 5 bits
    ok (
        some (record {
          proto = proto;
          recv_q = recv_q;
          send_q = send_q;
          state = state;
          local_address = (address_port local).0;
          local_port = (address_port local).1;
          remote_address = (address_port remote).0;
          remote_port = (address_port remote).1;
          pid = pid;
          program = program;
        }))

  -- One round of `netstat` over what the command prints: the first two lines are headers. Time
  -- stands still.
  unfoldable pub netstat : Text → LogMessage Connection → List Text → Sent (LogMessage Connection)
  unfolding netstat_line log_message
  netstat now message_stub printed =
      report_lines
        (λ raw. logged (λ c. log_message now (codes "info") c message_stub) (netstat_line raw))
        (drop 2 printed)

join_with-last :
    (c : ℕ) (w v : Text) (ws : List Text)
    → join_with (c ∷ []) (init_of w (v ∷ ws)) ++ (c ∷ last_of w (v ∷ ws))
      ≡ join_with (c ∷ []) (w ∷ v ∷ ws)
join_with-last c w v [] = refl
join_with-last c w v (u ∷ ws) =
    append_assoc w (c ∷ join_with (c ∷ []) (init_of v (u ∷ ws))) (c ∷ last_of u ws)
    ∙ ap (λ t. w ++ (c ∷ t)) (join_with-last c v u ws)

All-last_of : (P : Text → Type 0) (w : Text) (ws : List Text) → P w → All P ws → P (last_of w ws)
All-last_of P w [] p h = p
All-last_of P w (v ∷ vs) p (q, h) = All-last_of P v vs q h

address_port_of-rejoins :
    (column w v : Text) (ws : List Text)
    → split_on b':' column ≡ w ∷ v ∷ ws
    → (join_with (b':' ∷ []) (init_of w (v ∷ ws)) ++ (b':' ∷ last_of w (v ∷ ws)) ≡ column)
      × (has_char b':' (last_of w (v ∷ ws)) ≡ false)
address_port_of-rejoins column w v ws pieces =
    let none_has : All (λ u. has_char b':' u ≡ false) (w ∷ v ∷ ws) =
      subst (λ us. All (λ u. has_char b':' u ≡ false) us) pieces (split_on-All b':' column) in
    (
      join_with-last b':' w v ws
          ∙ (ap (join_with (b':' ∷ [])) (sym pieces) ∙ join_with-split_on b':' column),
      All-last_of (λ u. has_char b':' u ≡ false) w (v ∷ ws) none_has.0 none_has.1,
    )

-- The address and the port of a column with a colon are the column, parted at its last colon.
pub address_port-rejoins :
    (column : Text)
    → has_char b':' column ≡ true
    → ((address_port column).0 ++ (b':' ∷ (address_port column).1) ≡ column)
      × (has_char b':' (address_port column).1 ≡ false)
unfolding address_port
address_port-rejoins column h =
    let (w, v, ws, pieces, first) = split_on-first b':' column h in
    rw pieces (address_port_of-rejoins column w v ws pieces)
