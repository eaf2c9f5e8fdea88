-- ===== src/Flt/Enums.antt =====
-- The enumerations of the driver's messages (sensors/ntfltmgr/ntfltmgr.py): the names by value. Of two
-- names for one value Python keeps the first.
use virt_ue_sensing.Base.{ℕ, [], ◌∷◌}
use virt_ue_sensing.Base.Text.{Text, codes}
use virt_ue_sensing.Base.Dict.{Dict, get}
use virt_ue_sensing.Base.Exec.{Result, or_raise, value_error}
use virt_ue_sensing.Base.{nat_Eq}
use Prim.Native.String.{String}

abbrev entry : ℕ → String → ℕ × Text
entry v name = (v, codes name)

abbrev pub sensor_type_names : Dict ℕ Text
sensor_type_names =
    entry 0 "NONE"
    ∷ entry 1 "ImageLoad"
    ∷ entry 2 "ProcessCreate"
    ∷ entry 3 "ProcessDestroy"
    ∷ entry 4 "ThreadCreate"
    ∷ entry 5 "ThreadDestroy"
    ∷ entry 6 "ProcessListValidationFailed"
    ∷ entry 7 "RegQueryValueKeyInfo"
    ∷ entry 8 "RegCreateKeyInfo"
    ∷ entry 9 "RegSetValueKeyInfo"
    ∷ entry 10 "RegOpenKeyInfo"
    ∷ entry 11 "RegDeleteValueKeyInfo"
    ∷ entry 12 "RegRenameKeyInfo"
    ∷ entry 0x1001 "RegPostOperationInfo"
    ∷ []

abbrev pub key_value_information_class_names : Dict ℕ Text
key_value_information_class_names =
    entry 0 "KeyValueBasicInformation"
    ∷ entry 1 "KeyValueFullInformation"
    ∷ entry 2 "KeyValuePartialInformation"
    ∷ entry 3 "KeyValueFullInformationAlign64"
    ∷ entry 4 "KeyValuePartialInformationAlign64"
    ∷ entry 5 "KeyValueLayerInformation"
    ∷ entry 6 "MaxKeyValueInfoClass"
    ∷ []

abbrev pub reg_notify_class_names : Dict ℕ Text
reg_notify_class_names =
    entry 0 "RegNtDeleteKey"
    ∷ entry 1 "RegNtSetValueKey"
    ∷ entry 2 "RegNtDeleteValueKey"
    ∷ entry 3 "RegNtSetInformationKey"
    ∷ entry 4 "RegNtRenameKey"
    ∷ entry 5 "RegNtEnumerateKey"
    ∷ entry 6 "RegNtEnumerateValueKey"
    ∷ entry 7 "RegNtQueryKey"
    ∷ entry 8 "RegNtQueryValueKey"
    ∷ entry 9 "RegNtQueryMultipleValueKey"
    ∷ entry 10 "RegNtPreCreateKey"
    ∷ entry 11 "RegNtPostCreateKey"
    ∷ entry 12 "RegNtPreOpenKey"
    ∷ entry 13 "RegNtPostOpenKey"
    ∷ entry 14 "RegNtKeyHandleClose"
    ∷ entry 15 "RegNtPostDeleteKey"
    ∷ entry 16 "RegNtPostSetValueKey"
    ∷ entry 17 "RegNtPostDeleteValueKey"
    ∷ entry 18 "RegNtPostSetInformationKey"
    ∷ entry 19 "RegNtPostRenameKey"
    ∷ entry 20 "RegNtPostEnumerateKey"
    ∷ entry 21 "RegNtPostEnumerateValueKey"
    ∷ entry 22 "RegNtPostQueryKey"
    ∷ entry 23 "RegNtPostQueryValueKey"
    ∷ entry 24 "RegNtPostQueryMultipleValueKey"
    ∷ entry 25 "RegNtPostKeyHandleClose"
    ∷ entry 26 "RegNtPreCreateKeyEx"
    ∷ entry 27 "RegNtPostCreateKeyEx"
    ∷ entry 28 "RegNtPreOpenKeyEx"
    ∷ entry 29 "RegNtPostOpenKeyEx"
    ∷ entry 30 "RegNtPreFlushKey"
    ∷ entry 31 "RegNtPostFlushKey"
    ∷ entry 32 "RegNtPreLoadKey"
    ∷ entry 33 "RegNtPostLoadKey"
    ∷ entry 34 "RegNtPreUnLoadKey"
    ∷ entry 35 "RegNtPostUnLoadKey"
    ∷ entry 36 "RegNtPreQueryKeySecurity"
    ∷ entry 37 "RegNtPostQueryKeySecurity"
    ∷ entry 38 "RegNtPreSetKeySecurity"
    ∷ entry 39 "RegNtPostSetKeySecurity"
    ∷ entry 40 "RegNtCallbackObjectContextCleanup"
    ∷ entry 41 "RegNtPreRestoreKey"
    ∷ entry 42 "RegNtPostRestoreKey"
    ∷ entry 43 "RegNtPreSaveKey"
    ∷ entry 44 "RegNtPostSaveKey"
    ∷ entry 45 "RegNtPreReplaceKey"
    ∷ entry 46 "RegNtPostReplaceKey"
    ∷ entry 47 "RegNtPreQueryKeyName"
    ∷ entry 48 "RegNtPostQueryKeyName"
    ∷ entry 49 "MaxRegNtNotifyClass"
    ∷ []

abbrev pub kprocessor_mode_names : Dict ℕ Text
kprocessor_mode_names = entry 0 "KernelMode" ∷ entry 1 "UserMode" ∷ []

abbrev pub reg_object_type_names : Dict ℕ Text
reg_object_type_names =
    entry 0 "RegNone"
    ∷ entry 1 "RegSz"
    ∷ entry 2 "RegExpandSz"
    ∷ entry 3 "RegBinary"
    ∷ entry 4 "RegDWord"
    ∷ entry 5 "RegDWordBE"
    ∷ entry 6 "RegLink"
    ∷ entry 7 "RegMultiSz"
    ∷ entry 8 "RegResourceList"
    ∷ entry 9 "RegFullResourceDescriptor"
    ∷ entry 10 "RegResourceRequirementsList"
    ∷ entry 11 "RegQWord"
    ∷ []

-- `Enum(v).name`
abbrev pub name_of : Dict ℕ Text → ℕ → Result Text
name_of names v = or_raise value_error (get v names)
