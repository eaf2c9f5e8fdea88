-- ===== src/Lib.antt =====
-- The sensors of the VirtUE sensing system: the NFS sensor, which follows the calls and replies that
-- it captures, the Windows sensor's client of its kernel driver, the desktop bridge, the sensors of
-- the system's tools, the wrapper that every sensor runs in, and the tools that install sensors, load
-- their configurations and get certificates.
--
-- The NFS sensor (targets/nfs-sensor-target/sensor) has three parts. nfs.py says how scapy dissects
-- packets, and joins replies to calls by two global maps; nfs_packet_handler.py makes an event of
-- each reply; nfs_state_monitor.py then updates what is known of handles, names and mounts.
--   Nfs/Const, Nfs/Packet, Nfs/Classes, Nfs/Rpc  nfs_const.py and nfs.py: constants, the attributes
--     of the packet classes, the tables of classes by procedure, the record marker, the header's
--     check, and the maps xid_call_map and xid_reply_map as a state
--   Nfs/Key, Nfs/State    nfs_state_monitor.py: the module's globals are the record State, and each
--     function is an action on it that may raise; what was written before a raise stays
--   Nfs/Report, Nfs/Handler    nfs_packet_handler.py: one function for each procedure
-- A missing attribute of a packet raises AttributeError in the model too. `==` between packets is
-- scapy's, and an instance argument of the definitions that use it.
--
-- The wrapper (sensors/wrapper/sensor_wrapper.py) finds the identity of the sensor, waits for the
-- Sensing API, gets its keys, registers, and serves actuations until it is stopped.
--   Wrapper/Options, Wrapper/Properties, Wrapper/Identity, Wrapper/Fingerprint    setup_options,
--     construct_api_uri, read_properties, check_identification and the fingerprints of keys
--   Wrapper/Api, Wrapper/Register    the requests to the Sensing API and the certificate pinning
--   Wrapper/Http, Wrapper/Routes    the HTTP server, send_json, wait_for_json and the routes
--   Wrapper/Main    main and start
--   Wrapper/Files    which_file and the chunked digest of report_on_file
-- The Sensing API is a function that answers, or fails, by the events so far, and says how long it
-- takes; the time is a number of milliseconds. JSON, the decoder of UTF-8, the digests, the routes
-- package, TLS contexts and the operating system are parameters. Tasks are noted as events: what runs
-- at the same time as main, such as a request to the challenge server, is a run of Wrapper/Routes of
-- its own.
--
-- The Windows filter manager client (sensors/ntfltmgr/ntfltmgr.py) reads the messages of a kernel
-- driver, which have the layout of ctypes structures, and sends it commands.
--   Flt/Layout, Flt/Structs, Flt/Enums, Flt/Buffer    the layout of structures on 64-bit Windows, the
--     structures and enumerations of the file, and writes into buffers
--   Flt/Decode, Flt/Build    SaviorStruct, the build methods and _packet_decode_header
--   Flt/Command, Flt/Sensors    FilterSendMessage, the commands and EnumerateSensors
--   Flt/Message    FilterGetMessage, FilterReplyMessage and the loop apacket_decode
--   Flt/Find    the search for filters and instances
-- The calls of Windows are parameters: a driver is what it answers to a message. So are Python's
-- decoders of UTF-16 and UTF-8. What stands behind the end of a buffer that is cast to a structure is
-- read as 0.
--
-- The desktop bridge (targets/desktop-bridge-target/sensor/bridge.py) puts the JSON documents that come
-- in over TCP into a queue, and wraps them for the Sensing API.
--   Bridge, Bridge/Documents, Bridge/Stream    read_json_doc, handle_connection_curio and
--     handle_messages; the parser and the decoder are parameters
-- The sensors of the system's tools (sensors/sensor_ps, sensor_netstat, sensor_lsof, sensor_tasklist,
-- sensor_handlelist and sensor_kernel_ps) report on the lines that a tool prints, and that of the
-- processes (sensor_processlist) on what Windows tells.
--   Tools/Columns, Tools/Ps, Tools/Netstat, Tools/Lsof, Tools/Tasklist, Tools/Handles,
--     Tools/Kernel, Tools/Processes    one round of each; the time and what the wrapper adds to each
--     message are arguments (Base/Log)
--
-- Three tools stand beside the sensors.
--   Install    bin/install_sensors.py: the definitions of sensors, kernel modules and targets, their
--     search (Install/Find) and validation (Install/Check), what is copied into a target
--     (Install/Place), the scripts and the service's files that are written (Install/Scripts,
--     Install/Service), and the main program (Install/Run). The operations of os, os.path and shutil
--     are a record of functions on a state of the disk; netsh and the debugger are parameters.
--   Loader    bin/load_sensor_configurations.py: what is loaded, and the requests that put it into
--     the Sensing API, which is a function on a state
--   Certs    tools/certificates/get_certificates.py: the requests to the certificate authority, and
--     the files that are written
-- In the JSON definitions that the installer reads, names are texts, and what is looked into is no
-- deeper than a list of texts or of objects with texts. What the tools print is left out.
--
-- Python text is the list of its code points (Base/Text), a dictionary is an association list
-- (Base/Dict), and an action returns a value or an exception beside the state (Base/Exec). Three loops
-- run on fuel: the connection of the bridge, for which the number of lines and one round are enough,
-- wait_for_sensor_api, for which the limit in milliseconds and two rounds are, and start, whose rounds
-- the fuel counts: it may run for ever.
--
-- Not modelled: the byte layouts of the NFS packets, the capture of packets, the Kafka producer, the
-- key loading of the wrapper and the other fields of its file reports, the drivers of C code,
-- the unused COMMAND_MESSAGE.build, RESPONSE_MESSAGE.build and packet_decode of the Windows client, the
-- listing of stored configurations, and the code in Elixir, C and C++.
pub mod Base
pub mod Bridge
pub mod Certs
pub mod Flt
pub mod Install
pub mod Loader
pub mod Nfs
pub mod Tools
pub mod Wrapper
