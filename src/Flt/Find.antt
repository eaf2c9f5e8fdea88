-- ===== src/Flt/Find.antt =====
-- The search for filter drivers and their instances (the `FindFirst` and `FindNext` functions of
-- sensors/ntfltmgr/ntfltmgr.py). The calls of Windows are parameters.
use virt_ue_sensing.Base.{ℕ, ◌%◌, Option, none, some, ◌==◌, if◌then◌else◌, take}
use virt_ue_sensing.Base.Text.{Text, codes}
use virt_ue_sensing.Base.Exec.{Result, ok, err, then_result, or_raise, unicode_error, os_error}
use virt_ue_sensing.Base.Fallible.{◌>>=◌}
use virt_ue_sensing.Flt.Layout.{sizeof, number, offset_of}
use virt_ue_sensing.Flt.Layout.Packing.{zeros}
use virt_ue_sensing.Flt.Structs.{instance_full_information, filter_full_information}
use virt_ue_sensing.Flt.Decode.{from_buffer, string_buffer, every_other, chars}
use virt_ue_sensing.Flt.Command.{Hresult, result, winerror}
use virt_ue_sensing.Flt.Buffer.{overwrite}
use Prim.Native.String.{String}

pub record FilterInstanceInformation : Type 0 where
  pub instance_name : Text
  pub altitude : Text
  pub volume_name : Text
  pub filter_name : Text

pub record FilterFullInformation : Type 0 where
  pub frame_id : ℕ
  pub number_of_instances : ℕ
  pub filter_name : Text

-- A call of Windows with a buffer of some size: its result, the size that it asks for, and what it
-- writes.
pub record Found : Type 0 where
  pub res : Hresult
  pub bytes_returned : ℕ
  pub written : Text

-- What a search gives: an entry, or a code without one; `none` is a result of `None`.
pub data Entry (A : Type 0) : Type 0 where
  found : A → Entry A
  ended : ℕ → Entry A

-- `utf_16` is Python's decoder; `none` is a `UnicodeDecodeError`.
module _ (utf_16 : Text → Option Text) where
  -- A name at the place and with the length that two fields give.
  abbrev named_at : String → String → Text → Result Text
  named_at length_field offset_field sb = do
    let info = instance_full_information
    slc ← from_buffer (number info (codes offset_field) sb) (number info (codes length_field) sb) sb
    or_raise unicode_error (utf_16 slc)

  -- `_build_filter_instance_info`
  unfoldable pub build_filter_instance_info : Text → Result FilterInstanceInformation
  unfolding from_buffer
  build_filter_instance_info buf = do
    let sb = string_buffer buf
    instance_name ← named_at "InstanceNameLength" "InstanceNameBufferOffset" sb
    altitude ← named_at "AltitudeLength" "AltitudeBufferOffset" sb
    volume_name ← named_at "VolumeNameLength" "VolumeNameBufferOffset" sb
    filter_name ← named_at "FilterNameLength" "FilterNameBufferOffset" sb
    ok (record {
      instance_name = instance_name;
      altitude = altitude;
      volume_name = volume_name;
      filter_name = filter_name;
    })

-- The information on a filter driver.
unfoldable pub build_filter_full_info : Text → Result FilterFullInformation
unfolding from_buffer chars
build_filter_full_info buf = do
  let info = filter_full_information
  let sb = string_buffer buf
  slc ←
      from_buffer (offset_of info (codes "FilterNameBuffer"))
        (number info (codes "FilterNameLength") sb) sb
  name ← chars (every_other slc)
  ok (record {
    frame_id = number info (codes "FrameID") sb;
    number_of_instances = number info (codes "NumberOfInstances") sb;
    filter_name = name;
  })

-- The second call, with a buffer of the size that the first asked for.
module _ {A : Type 0} (call : ℕ → Found) (build : Text → Result A) where
  abbrev buffer_of : ℕ → Found → Text
  buffer_of size f = overwrite 0 (take size f.written) (zeros size)

  -- An `OSError` of the second call is not caught.
  abbrev second_call : ℕ → Result (Entry A)
  second_call size = elim (call size).res [
    | winerror e ↦ err os_error
    | result n ↦
        if n == 0
        then then_result (build (buffer_of size (call size))) (λ a. ok (found a))
        else ok (ended n)
  ]

  -- What the four functions share: they
  -- differ in `build`, in the size of the first buffer and in what they give with no entry.
  unfoldable pub find : ℕ → Result (Entry A)
  find size = elim (call size).res [
    | result n ↦ second_call (call size).bytes_returned
    | winerror e ↦
        if e % 0x10000 == 0x103
        then ok (ended 0x103)
        else if e % 0x10000 == 0x7a
        then second_call (call size).bytes_returned
        else err os_error
  ]

abbrev entry_only : {A : Type 0} → Entry A → Option A
entry_only (found a) = some a
entry_only (ended n) = none

-- `S_OK` and the entry, or the code and none.
abbrev code_and_entry : {A : Type 0} → Entry A → ℕ × Option A
code_and_entry (found a) = (0, some a)
code_and_entry (ended n) = (n, none)

-- `FilterInstanceFindFirst`; the handle that goes with an entry is Windows' own.
unfoldable pub filter_instance_find_first :
    (Text → Option Text) → (ℕ → Found) → Result (Option FilterInstanceInformation)
unfolding find sizeof
filter_instance_find_first utf_16 call =
    then_result (find call (build_filter_instance_info utf_16) (sizeof instance_full_information))
      λ e. ok (entry_only e)

-- `FilterInstanceFindNext`
unfoldable pub filter_instance_find_next :
    (Text → Option Text) → (ℕ → Found) → Result (ℕ × Option FilterInstanceInformation)
unfolding find sizeof
filter_instance_find_next utf_16 call =
    then_result (find call (build_filter_instance_info utf_16) (sizeof filter_full_information))
      λ e. ok (code_and_entry e)

-- `FilterFindFirst`
unfoldable pub filter_find_first : (ℕ → Found) → Result (Option FilterFullInformation)
unfolding find sizeof
filter_find_first call =
    then_result (find call build_filter_full_info (sizeof filter_full_information))
      λ e. ok (entry_only e)

-- `FilterFindNext`
unfoldable pub filter_find_next : (ℕ → Found) → Result (ℕ × Option FilterFullInformation)
unfolding find sizeof
filter_find_next call =
    then_result (find call build_filter_full_info (sizeof filter_full_information))
      λ e. ok (code_and_entry e)
