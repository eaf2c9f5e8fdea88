-- ===== src/Flt/Structs.antt =====
-- The structures of the driver's messages (sensors/ntfltmgr/ntfltmgr.py) on 64-bit Windows.
use virt_ue_sensing.Base.{ℕ, [], ◌∷◌}
use virt_ue_sensing.Base.Text.{codes}
use virt_ue_sensing.Flt.Layout.{Field, Struct, alignment, sizeof}
use Prim.Native.String.{String}

-- A number of k bytes is aligned to k.
abbrev int : String → ℕ → Field
int name k = record { name = codes name; size = k; align = k }

-- `ULONG`, `NTSTATUS`, `UINT`, `DWORD`; `LONG`; `USHORT`; `LONGLONG` and `ULONGLONG`; `SIZE_T`; `BOOLEAN`; `CHAR`
abbrev ulong : String → Field
ulong name = int name 4

abbrev ushort : String → Field
ushort name = int name 2

abbrev longlong : String → Field
longlong name = int name 8

abbrev byte : String → Field
byte name = int name 1

-- `BYTE * k`
abbrev bytes : String → ℕ → Field
bytes name k = record { name = codes name; size = k; align = 1 }

abbrev nested : String → Struct → Field
nested name s = record { name = codes name; size = sizeof s; align = alignment s }

-- `UUID`
abbrev pub uuid : Struct
uuid = ulong "Data1" ∷ ushort "Data2" ∷ ushort "Data3" ∷ bytes "Data4" 8 ∷ []

abbrev pub sensor_data_header : Struct
sensor_data_header =
    nested "sensor_id" uuid
    ∷ ushort "sensor_type"
    ∷ ushort "DataSz"
    ∷ longlong "CurrentGMT"
    ∷ bytes "ListEntry" 16
    ∷ []

abbrev header : Field
header = nested "Header" sensor_data_header

abbrev pub reg_create_key_info : Struct
reg_create_key_info =
    header
    ∷ longlong "ProcessId"
    ∷ longlong "EProcess"
    ∷ longlong "RootObject"
    ∷ ulong "Options"
    ∷ longlong "SecurityDescriptor"
    ∷ longlong "SecurityQualityOfService"
    ∷ ulong "DesiredAccess"
    ∷ ulong "GrantedAccess"
    ∷ longlong "Version"
    ∷ ulong "Wow64Flags"
    ∷ ulong "Attributes"
    ∷ byte "CheckAccessMode"
    ∷ ushort "CompleteNameSz"
    ∷ bytes "CompleteName" 1
    ∷ []

abbrev pub reg_query_value_key_info : Struct
reg_query_value_key_info =
    header
    ∷ longlong "ProcessId"
    ∷ longlong "EProcess"
    ∷ ulong "Class"
    ∷ ulong "_blank"
    ∷ longlong "Object"
    ∷ ulong "KeyValueInformationClass"
    ∷ ushort "ValueNameLength"
    ∷ bytes "ValueName" 1
    ∷ []

abbrev pub reg_rename_key_info : Struct
reg_rename_key_info =
    header
    ∷ longlong "ProcessId"
    ∷ longlong "EProcess"
    ∷ longlong "Object"
    ∷ ushort "NewNameLength"
    ∷ bytes "NewName" 1
    ∷ []

abbrev pub reg_post_operation_info : Struct
reg_post_operation_info =
    header
    ∷ longlong "ProcessId"
    ∷ longlong "EProcess"
    ∷ longlong "Object"
    ∷ ulong "Status"
    ∷ longlong "PreInformation"
    ∷ ulong "ReturnStatus"
    ∷ []

abbrev pub reg_delete_value_key_info : Struct
reg_delete_value_key_info =
    header
    ∷ longlong "ProcessId"
    ∷ longlong "EProcess"
    ∷ longlong "Object"
    ∷ ushort "ValueNameLength"
    ∷ bytes "ValueName" 1
    ∷ []

abbrev pub reg_set_value_key_info : Struct
reg_set_value_key_info =
    header
    ∷ longlong "ProcessId"
    ∷ longlong "EProcess"
    ∷ longlong "Object"
    ∷ ulong "Type"
    ∷ ushort "ValueNameLength"
    ∷ bytes "ValueName" 1
    ∷ []

abbrev pub process_list_validation_failed : Struct
process_list_validation_failed =
    header ∷ ulong "Status" ∷ longlong "ProcessId" ∷ longlong "EProcess" ∷ []

abbrev pub image_load_info : Struct
image_load_info =
    header
    ∷ longlong "ProcessId"
    ∷ longlong "EProcess"
    ∷ longlong "ImageBase"
    ∷ longlong "ImageSize"
    ∷ ushort "FullImageNameSz"
    ∷ bytes "FullImageName" 1
    ∷ []

abbrev pub thread_create_info : Struct
thread_create_info =
    header
    ∷ longlong "ProcessId"
    ∷ longlong "ThreadId"
    ∷ longlong "Win32StartAddress"
    ∷ longlong "StartAddress"
    ∷ byte "IsStartAddressValid"
    ∷ []

abbrev pub thread_destroy_info : Struct
thread_destroy_info = header ∷ longlong "ProcessId" ∷ longlong "ThreadId" ∷ []

abbrev pub client_id : Struct
client_id = longlong "UniqueProcess" ∷ longlong "UniqueThread" ∷ []

abbrev pub process_create_info : Struct
process_create_info =
    header
    ∷ longlong "ParentProcessId"
    ∷ longlong "ProcessId"
    ∷ longlong "EProcess"
    ∷ nested "CreatingThreadId" client_id
    ∷ longlong "FileObject"
    ∷ ulong "CreationStatus"
    ∷ ushort "CommandLineSz"
    ∷ bytes "CommandLine" 1
    ∷ []

abbrev pub process_destroy_info : Struct
process_destroy_info = header ∷ longlong "ProcessId" ∷ longlong "EProcess" ∷ []

abbrev pub command_message : Struct
command_message =
    ulong "Command" ∷ nested "sensor_id" uuid ∷ longlong "DataSz" ∷ bytes "Data" 1 ∷ []

abbrev pub sensor_status_header : Struct
sensor_status_header = ulong "NumberOfEntries" ∷ []

abbrev pub sensor_status : Struct
sensor_status =
    nested "sensor_id" uuid
    ∷ longlong "LastRunTime"
    ∷ longlong "RunInterval"
    ∷ ulong "OperationCount"
    ∷ ushort "Attributes"
    ∷ byte "Enabled"
    ∷ bytes "SensorName" 64
    ∷ []

abbrev pub filter_reply_header : Struct
filter_reply_header = ulong "Status" ∷ longlong "MessageId" ∷ []

abbrev pub filter_message_header : Struct
filter_message_header = ulong "ReplyLength" ∷ longlong "MessageId" ∷ []

abbrev pub instance_full_information : Struct
instance_full_information =
    ulong "NextEntryOffset"
    ∷ ushort "InstanceNameLength"
    ∷ ushort "InstanceNameBufferOffset"
    ∷ ushort "AltitudeLength"
    ∷ ushort "AltitudeBufferOffset"
    ∷ ushort "VolumeNameLength"
    ∷ ushort "VolumeNameBufferOffset"
    ∷ ushort "FilterNameLength"
    ∷ ushort "FilterNameBufferOffset"
    ∷ []

-- `WCHAR` has two bytes on Windows.
abbrev pub filter_full_information : Struct
filter_full_information =
    ulong "NextEntryOffset"
    ∷ ulong "FrameID"
    ∷ ulong "NumberOfInstances"
    ∷ ushort "FilterNameLength"
    ∷ ushort "FilterNameBuffer"
    ∷ []
