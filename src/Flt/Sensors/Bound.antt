-- ===== src/Flt/Sensors/Bound.antt =====
-- How many sensors the driver can list.
use virt_ue_sensing.Base.{
  length-append, ◌==◌, false, ℕ, zero, suc, ◌+◌, ◌*◌, ◌≡◌, ◌≤◌, ◌<◌, refl, arith, length, take,
  drop, [], ◌∷◌, inl, inr, none,
}
use virt_ue_sensing.Base.Text.{Text, codes}
use virt_ue_sensing.Base.Exec.{Result, ok, Result-cases, then_result-ok}
use virt_ue_sensing.Flt.Layout.{number, sizeof, bytes_at}
use virt_ue_sensing.Flt.Structs.{sensor_status_header}
use virt_ue_sensing.Flt.Decode.{from_buffer, string_buffer}
use virt_ue_sensing.Flt.Sensors.{
  Sensor, entry_at, build_sensor_status, entries_from, sensors_of, enumerate,
}
use virt_ue_sensing.Flt.Command.{
  code_of, Driver, Answer, bufsz, rsp_buf, response_of, command_buffer, enumerate_sensors,
  filter_send_message,
}
use virt_ue_sensing.Flt.Command.Layout.{length-command_buffer}

length-bytes_at : (o k : ℕ) (s : Text) → k ≤ length (bytes_at o k s) → 0 < k → o + k ≤ length s
length-bytes_at zero zero s e h = absurd (omega arith)
length-bytes_at zero (suc k) [] e h = absurd (omega arith)
length-bytes_at zero (suc zero) (x ∷ s) e h = omega arith
length-bytes_at zero (suc (suc k)) (x ∷ s) e h =
    omega (arith, length-bytes_at zero (suc k) s (omega (arith, e)) (omega arith))
length-bytes_at (suc o) zero s e h = absurd (omega arith)
length-bytes_at (suc o) (suc k) [] e h = absurd (omega arith)
length-bytes_at (suc o) (suc k) (x ∷ s) e h = omega (arith, length-bytes_at o (suc k) s e h)

from_buffer-inside :
    (o k : ℕ) (sb slc : Text) → 0 < k → from_buffer o k sb ≡ ok slc → o + k ≤ length sb
unfolding from_buffer
from_buffer-inside o k sb slc h e = length-bytes_at o k sb (ground (arith, e)) h

module _ (flags : ℕ → Result Text) where
  -- An entry that is read lies in the buffer.
  entry_at-inside :
      (sb : Text) (ndx : ℕ) (s : Sensor)
      → entry_at flags sb ndx ≡ ok s
      → ndx * 104 + 104 ≤ length sb
  unfolding entry_at sizeof
  entry_at-inside sb ndx s e =
      let (slc, i, _) =
        then_result-ok (from_buffer (ndx * 104) 104 sb) (build_sensor_status flags) s e in
      from_buffer-inside (ndx * 104) 104 sb slc (omega arith) i

  entries_from-inside :
      (sb : Text) (ndx cnt : ℕ)
      → ndx * 104 ≤ length sb
      → (ndx + length (entries_from flags sb ndx cnt).sensors) * 104 ≤ length sb
  unfolding entries_from
  entries_from-inside sb ndx zero h = omega (arith, h)
  entries_from-inside sb ndx (suc cnt) h = elim (Result-cases (entry_at flags sb ndx)) [
    | inl (s, i) ↦
        let inside = entry_at-inside sb ndx s i in
        let ih = entries_from-inside sb (suc ndx) cnt (omega (arith, inside)) in
        rw (i, length) (omega (arith, ih))
    | inr (x, i) ↦ rw (i, length) (omega (arith, h))
  ]

  entries_from-all :
      (sb : Text) (ndx cnt : ℕ)
      → (entries_from flags sb ndx cnt).raised ≡ none
      → length (entries_from flags sb ndx cnt).sensors ≡ cnt
  unfolding entries_from
  entries_from-all sb ndx zero h = refl
  entries_from-all sb ndx (suc cnt) h = ground (arith, h, entries_from-all sb (suc ndx) cnt)

length-take : (n : ℕ) (s : Text) → length (take n s) ≤ n
length-take zero s = omega arith
length-take (suc n) [] = omega arith
length-take (suc n) (x ∷ s) = omega (arith, length-take n s)

-- With the header of 4 bytes gone.
length-drop_4 : (s : Text) → length s ≤ 4096 → length (drop 4 s) ≤ 4092
length-drop_4 [] h = omega arith
length-drop_4 (a ∷ []) h = omega arith
length-drop_4 (a ∷ b ∷ []) h = omega arith
length-drop_4 (a ∷ b ∷ c ∷ []) h = omega arith
length-drop_4 (a ∷ b ∷ c ∷ d ∷ s) h = omega (arith, h)

-- `NumberOfEntries` of a response.
abbrev pub entries_number : Text → ℕ
entries_number rsp = number sensor_status_header (codes "NumberOfEntries") rsp

not_empty : (length (command_buffer enumerate_sensors 0) == 0) ≡ false
not_empty = rw (length-command_buffer enumerate_sensors 0) refl

sensors_of-bound :
    (flags : ℕ → Result Text) (rsp : Text)
    → length rsp ≤ 4096
    → (length (sensors_of flags rsp).sensors ≤ 39)
      × ((sensors_of flags rsp).raised ≡ none
          → length (sensors_of flags rsp).sensors ≡ entries_number rsp)
unfolding sensors_of sizeof
sensors_of-bound flags rsp h =
    let sb = string_buffer (drop 4 rsp) in
    let cnt = entries_number rsp in
    let i = entries_from-inside flags sb 0 cnt (omega arith) in
    (
      omega (arith, i, length-append (drop 4 rsp) (0 ∷ []), length-drop_4 rsp h),
      λ e. entries_from-all flags sb 0 cnt e,
    )

bufsz-bound : (a : Answer) → bufsz a ≤ 4096
bufsz-bound a = ground arith

response_of-bound : (a : Answer) → length (response_of a) ≤ 4096
response_of-bound a = omega (arith, length-take (bufsz a) (rsp_buf a), bufsz-bound a)

filter_send_message_lem :
    (driver : Driver) (cmd : Text)
    → (length cmd == 0) ≡ false
    → filter_send_message driver cmd ≡ ok (code_of (driver cmd).res, response_of (driver cmd))
unfolding filter_send_message
filter_send_message_lem driver cmd h = rw h refl

enumerate_lem :
    (flags : ℕ → Result Text) (driver : Driver)
    → enumerate flags driver
      ≡ sensors_of flags (response_of (driver (command_buffer enumerate_sensors 0)))
unfolding enumerate
enumerate_lem flags driver =
    rw (enumerate, filter_send_message_lem driver (command_buffer enumerate_sensors 0) not_empty)
      refl

-- Whatever the driver answers, at most 39 sensors are listed, since the response has no room for more; and
-- all that the driver announces, when nothing is raised.
pub enumerate-bound :
    (flags : ℕ → Result Text) (driver : Driver)
    → (length (enumerate flags driver).sensors ≤ 39)
      × ((enumerate flags driver).raised ≡ none
          → length (enumerate flags driver).sensors
            ≡ entries_number (response_of (driver (command_buffer enumerate_sensors 0))))
enumerate-bound flags driver =
    let rsp = driver (command_buffer enumerate_sensors 0) in
    rw (enumerate_lem flags driver)
      (sensors_of-bound flags (response_of rsp) (response_of-bound rsp))
