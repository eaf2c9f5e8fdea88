-- ===== src/Flt/Build/Thread.antt =====
-- The message about a new thread: what the driver writes is what the sensor gives on.
use virt_ue_sensing.Base.{nat_Eq, ℕ, ◌++◌, ◌≡◌, ◌<◌, ◌^◌, List, [], ◌∷◌, refl, arith, ap, ◌∙◌}
use virt_ue_sensing.Base.Text.{Text, codes, text_eq}
use virt_ue_sensing.Base.Bytes.{le, to_le, le-to_le, signed}
use virt_ue_sensing.Base.Exec.{ok}
use virt_ue_sensing.Flt.Layout.{sizeof, field, field_from, number}
use virt_ue_sensing.Flt.Layout.Packing.{pack, Sized, value_of, field-pack}
use virt_ue_sensing.Flt.Structs.{thread_create_info}
use virt_ue_sensing.Flt.Enums.{sensor_type_names, name_of}
use virt_ue_sensing.Base.Dict.{get}
use virt_ue_sensing.Flt.Decode.{str_at, int_at, long_long_to_hex, header_of}
use virt_ue_sensing.Flt.Build.Process.{build_thread_create}
use virt_ue_sensing.Flt.Build.Header.{
  DriverHeader, IsDriverHeader, header_bytes, length-header_bytes, origin_of, origin_lem,
  Fits-bound_8,
}

-- What the driver tells of a new thread.
pub record NewThread : Type 0 where
  pub pid : ℕ
  pub tid : ℕ
  pub win32_start : ℕ
  pub start : ℕ
  pub is_start_valid : ℕ

pub record IsNewThread (n : NewThread) : Type 0 where
  pub pid : n.pid < 2 ^ 64
  pub tid : n.tid < 2 ^ 64
  pub win32_start : n.win32_start < 2 ^ 64
  pub start : n.start < 2 ^ 64
  pub is_start_valid : n.is_start_valid < 2 ^ 8

abbrev thread_values : DriverHeader → NewThread → List Text
thread_values h n =
    header_bytes h
    ∷ to_le 8 n.pid
    ∷ to_le 8 n.tid
    ∷ to_le 8 n.win32_start
    ∷ to_le 8 n.start
    ∷ to_le 1 n.is_start_valid
    ∷ []

abbrev pub thread_message : DriverHeader → NewThread → Text → Text
thread_message h n rest = pack 0 thread_create_info (thread_values h n) ++ rest

Sized-thread_values :
    (h : DriverHeader) (n : NewThread)
    → IsDriverHeader h
    → Sized thread_create_info (thread_values h n)
unfolding sizeof
Sized-thread_values h n v = (
  length-header_bytes h v,
  omega arith,
  (
    refl,
    omega arith,
    (refl, omega arith, (refl, omega arith, (refl, omega arith, (refl, omega arith, tt)))),
  ),
)

thread-field :
    (name rest : Text) (h : DriverHeader) (n : NewThread)
    → IsDriverHeader h
    → field thread_create_info name (thread_message h n rest)
      ≡ value_of name thread_create_info (thread_values h n)
thread-field name rest h n v =
    field-pack name rest thread_create_info (thread_values h n) (Sized-thread_values h n v)

header-thread :
    (rest : Text) (h : DriverHeader) (n : NewThread)
    → IsDriverHeader h
    → header_of (thread_message h n rest) ≡ header_bytes h
unfolding value_of text_eq field_from sizeof
header-thread rest h n v = thread-field (codes "Header") rest h n v

module _ (rest : Text) (h : DriverHeader) (n : NewThread) (v : IsDriverHeader h)
    (w : IsNewThread n) where
  pid-thread : number thread_create_info (codes "ProcessId") (thread_message h n rest) ≡ n.pid
  unfolding value_of text_eq
  pid-thread =
      ap le (thread-field (codes "ProcessId") rest h n v)
      ∙ le-to_le 8 n.pid (Fits-bound_8 n.pid w.pid)

  tid-thread : number thread_create_info (codes "ThreadId") (thread_message h n rest) ≡ n.tid
  unfolding value_of text_eq
  tid-thread =
      ap le (thread-field (codes "ThreadId") rest h n v)
      ∙ le-to_le 8 n.tid (Fits-bound_8 n.tid w.tid)

  win32_start-thread :
      number thread_create_info (codes "Win32StartAddress") (thread_message h n rest)
      ≡ n.win32_start
  unfolding value_of text_eq
  win32_start-thread =
      ap le (thread-field (codes "Win32StartAddress") rest h n v)
      ∙ le-to_le 8 n.win32_start (Fits-bound_8 n.win32_start w.win32_start)

  start-thread :
      number thread_create_info (codes "StartAddress") (thread_message h n rest) ≡ n.start
  unfolding value_of text_eq
  start-thread =
      ap le (thread-field (codes "StartAddress") rest h n v)
      ∙ le-to_le 8 n.start (Fits-bound_8 n.start w.start)

  is_start_valid-thread :
      number thread_create_info (codes "IsStartAddressValid") (thread_message h n rest)
      ≡ n.is_start_valid
  unfolding value_of text_eq
  is_start_valid-thread =
      ap le (thread-field (codes "IsStartAddressValid") rest h n v)
      ∙ le-to_le 1 n.is_start_valid (omega (arith, w.is_start_valid))

name-of_4 :
    (h : DriverHeader)
    → h.sensor_type ≡ 4
    → name_of sensor_type_names h.sensor_type ≡ ok (codes "ThreadCreate")
unfolding get
name-of_4 h four = rw four refl

-- From the bytes that the driver writes for a new thread, whatever stands behind them, the sensor
-- gives on the id, the time, the process and the thread that the driver wrote, the numbers read as
-- signed ones, the addresses in hexadecimal.
pub build_thread_create-thread_message :
    (rest : Text) (h : DriverHeader) (n : NewThread)
    → IsDriverHeader h
    → h.sensor_type ≡ 4
    → IsNewThread n
    → build_thread_create (thread_message h n rest)
      ≡ ok (
          origin_of h (codes "ThreadCreate")
          ++ (int_at "ProcessId" (signed 64 n.pid)
              ∷ int_at "ThreadId" (signed 64 n.tid)
              ∷ str_at "Win32StartAddress" (long_long_to_hex (signed 64 n.win32_start))
              ∷ str_at "StartAddress" (long_long_to_hex (signed 64 n.start))
              ∷ int_at "IsStartAddressValid" (signed 8 n.is_start_valid)
              ∷ []))
unfolding build_thread_create
build_thread_create-thread_message rest h n v four w =
    rw
      (
        origin_lem h (codes "ThreadCreate") (thread_message h n rest) v (header-thread rest h n v)
            (name-of_4 h four),
        pid-thread rest h n v w,
        tid-thread rest h n v w,
        win32_start-thread rest h n v w,
        start-thread rest h n v w,
        is_start_valid-thread rest h n v w,
      )
      refl
