-- ===== src/Lib.antt =====
-- KaCanOpen, a CANopen master library: a model of its protocol core and the theorems about it.
--
-- The program. `Core` (src/core/core.cpp) owns the CAN driver. A thread of it takes each message from
-- the bus to `received_message`, which hands it to one of three protocol components by the function
-- code of its COB-ID: `NMT` (src/core/nmt.cpp), `SDO` (src/core/sdo.cpp) or `PDO` (src/core/pdo.cpp).
-- Callers use these components from other threads, and all of them send through `Core::send`.
--
-- The files.
--   Prelude, Exec: shared helpers; `Exec S A` is a method on an object of state `S` that may throw.
--   Message: include/kacanopen/core/message.h and src/core/message.cpp.
--   Error: the exceptions (include/kacanopen/core/sdo_error.h, src/core/sdo_error.cpp and others). An
--     error carries its type; texts are left out.
--   SdoResponse: src/core/sdo_response.cpp.
--   Core: the switch of `Core::received_message` (Routing), and start and stop (Lifecycle).
--   Sdo: src/core/sdo.cpp. The operations stand in Sdo.antt under the names of the source; its child
--     modules hold what an SDO server is and what the client makes of it.
--   Nmt: src/core/nmt.cpp. A round of `check_alive_devices` is its first loop, the messages that arrive
--     while it sleeps, and its second loop.
--   Pdo: src/core/pdo.cpp.
--   Value: src/master/value.cpp, with the types of include/kacanopen/master/types.h.
--   Entry: src/master/entry.cpp. Dictionary: the tables by which a device finds its entries.
--   Transmit: src/master/transmit_pdo_mapping.cpp, on the dictionary's tables and on `Pdo.send`.
--   Master: src/master/master.cpp, on `Nmt`.
--   Device: src/master/device.cpp. Access reads and writes entries through `Sdo` and their callbacks;
--     Mappings has the PDO mappings, on `Pdo` and `Transmit`; Periodic has the thread of a periodic one;
--     Configure remaps PDOs inside the node. A callback is a name, and the core's components are fields
--     of the device. Steps has the device as a state machine, whose steps are the
--     calls of its methods, under the conditions that stand there, and the PDOs that it receives.
--   Profiles: src/master/profiles.cpp, and the methods of the device that use the tables. `execute` has
--     a bound on the nesting of operations; those of the profile nest twice.
--   Utils: src/master/utils.cpp. EdsReader: src/master/eds_reader.cpp, on the tables of `Dictionary`; the
--     property tree that boost makes of the file is a parameter. EdsLibrary: src/master/eds_library.cpp,
--     with the file system and boost's reader of JSON files as parameters, on the reader. Device/Loading:
--     the methods of src/master/device.cpp that fill the dictionary; `Station` is a device with its
--     library and the settings of `Config`, and `on_library` hands the library the device's tables. What
--     loading keeps is proved once, for every `DeviceInvariant` (Keeping), of which there are two
--     (Filled, Sound).
--   RosBridge: src/ros_bridge/entry_publisher.cpp and entry_subscriber.cpp, on `Device`; its child Joints
--     has joint_state_publisher.cpp and joint_state_subscriber.cpp.
--   Tools: src/tools/device_tpdo.cpp, device_rpdo.cpp and parse_sdo.cpp, on `Device`; `parse_sdo` is
--     modelled for at most four bytes.
--
-- Numbers are natural numbers; a field of w bits keeps its wrap-around as `% 2 ^ w`. The SDO upload
-- loop runs on fuel, one more than the announced size: each round takes at least one byte off it. The
-- loop of the EDS reader that looks for a free name has fuel as an argument: its counter is a byte, so
-- it need not end. So are the counters of the loops that write mapped entries, which run on fuel: they
-- end within it for fewer than 256 entries, and for more they do not end in the source either.
--
-- Not modelled: the receive loop, and, as input and output, the CAN driver, logging, printing, the
-- threads of the ROS bridge and the examples. Timing is the order of events: a wait ends in the middle
-- of a `Window` of arriving messages. Locks are modelled by what they make atomic.
pub mod Core
pub mod Device
pub mod Dictionary
pub mod EdsLibrary
pub mod EdsReader
pub mod Entry
pub mod Error
pub mod Exec
pub mod Master
pub mod Message
pub mod Nmt
pub mod Pdo
pub mod Prelude
pub mod Profiles
pub mod RosBridge
pub mod Sdo
pub mod SdoResponse
pub mod Tools
pub mod Transmit
pub mod Utils
pub mod Value
