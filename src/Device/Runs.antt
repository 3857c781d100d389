-- ===== src/Device/Runs.antt =====
-- The theorems about a device at concrete inputs.
use kacanopen.Prelude.{ℕ, ◌≡◌, refl, List, [], ◌∷◌, arith, true, false, ◌⊎◌}
use kacanopen.Prelude.{codes}
use kacanopen.Error.{Error, ok, err, canopen_error}
use kacanopen.Message.{Message, get_node_id, get_function_code}
use kacanopen.Core.Routing.{target, target_of_code}
use kacanopen.Value.{uint16, of_uint8, of_uint16, type_of, get_bytes}
use kacanopen.Entry.{Entry, read_write, new_entry, ReadAccessMethod, WriteAccessMethod}
use kacanopen.Entry.Changes.{is_comparable}
use kacanopen.Dictionary.{Address, address_equal, find_entry, escape}
use kacanopen.Sdo.{Window, idle_receivers, unassigned}
use kacanopen.Sdo.Receivers.{responses_of}
use kacanopen.Sdo.Server.{Serves, pad, upload_responses, initiate_response, segment_responses}
use kacanopen.Device.{
  Device, ReceivePdoMapping, add_entry, has_entry, has_entry_at, resolve, entry_at,
}
use kacanopen.Device.Tables.{add_entry_lem}
use kacanopen.Device.Repeats.{Outcome, get_entry_via_sdo_lem}
use kacanopen.Device.Served.{get_entry_at_served}
use kacanopen.Device.Writes.{set_entry_at_lem}
use kacanopen.Device.Switching.{disabled_cob_id_lem}
use kacanopen.Device.Access.{
  get_entry_at, set_entry_at, cached_value, upload_value, download_value, get_entry_via_sdo,
  writes_via_sdo,
}
use kacanopen.Device.Configure.{
  disabled_cob_id, enabled_cob_id, map_rpdo_in_device, map_tpdo_in_device, map_tpdo_inhibit,
  map_tpdo_basic, read_cob_id, get_tpdo_indexes, get_rpdo_indexes,
}
use kacanopen.Device.Script.{configure, script}
use kacanopen.Device.Configured.{map_rpdo_in_device-configure, map_tpdo_in_device-configure}
use kacanopen.Device.Stopping.{Stops, map_rpdo_in_device-Stops}

abbrev pub control : Address
control = record { index = 0x6040; subindex = 0 }

abbrev pub control_entry : Entry
control_entry = record {
  index = 0x6040;
  subindex = 0;
  name = codes "controlword";
  type = uint16;
  access_type = read_write;
  read_access_method = ReadAccessMethod.sdo;
  write_access_method = WriteAccessMethod.sdo;
  disabled = false;
  is_generic = false;
  m_value = of_uint16 6;
  m_valid = true;
  value_changed_callbacks = [];
  calls = [];
}

-- A window for each response of node 5
abbrev windows_of : List Message → List Window
windows_of [] = []
windows_of (m ∷ ms) = record { in_time = m ∷ []; late = [] } ∷ windows_of ms

abbrev pub word_mapping : ReceivePdoMapping
word_mapping = record { cob_id = 0x185; entry_name = codes "controlword"; offset = 1 }

abbrev pub garbage : List ℕ
garbage = 9 ∷ 9 ∷ 9 ∷ 9 ∷ 9 ∷ 9 ∷ 9 ∷ 9 ∷ []

-- Node 5 answers one read of its control word with 0x001F.
abbrev pub motor : Device
motor = record {
  node_id = 5;
  dictionary = (control, control_entry) ∷ [];
  name_to_address = (codes "controlword", control) ∷ [];
  operations = [];
  constants = [];
  receive_pdo_mappings = word_mapping ∷ [];
  transmit_pdo_mappings = [];
  cob_ids = 0x185 ∷ [];
  bindings = (7, word_mapping) ∷ [];
  bus = record {
    sent = [];
    windows = windows_of (upload_responses 5 0x6040 0 (0x1F ∷ 0 ∷ []));
    receivers = idle_receivers;
  };
  pdo = record {
    receive_callbacks = (record { cob_id = 0x185; callback = 7 }) ∷ [];
    calls = [];
    sent = [];
  };
  nmt = record {
    sent = [];
    alive_devices = [];
    alive_callbacks = [];
    dead_callbacks = [];
    alive_calls = [];
    dead_calls = [];
  };
  repeats_on_sdo_timeout = 2;
  stack = garbage;
}

abbrev status : Address
status = record { index = 0x6041; subindex = 0 }

add_entry_lem_example :
    let (r, d') = add_entry status (codes "Status word") uint16 read_write motor in
    ((r ≡ err canopen_error) × (d' ≡ motor))
    ⊎ ((r ≡ ok tt)
        × (has_entry (codes "Status word") motor ≡ false)
        × (has_entry_at status motor ≡ false)
        × (has_entry (codes "Status word") d' ≡ true)
        × (resolve (codes "Status word") d' ≡ ok status)
        × (entry_at status d'
            ≡ ok (new_entry 0x6041 0 (escape (codes "Status word")) uint16 read_write)))
add_entry_lem_example = add_entry_lem status (codes "Status word") uint16 read_write motor

get_entry_via_sdo_lem_example :
    let (r, d') = get_entry_via_sdo control uint16 motor in
    Outcome (upload_value 5 control uint16) 3 motor.bus r d'.bus
    × (d' ≡ record motor { bus = d'.bus })
get_entry_via_sdo_lem_example = get_entry_via_sdo_lem control uint16 motor

idle : (k : ℕ) → idle_receivers k ≡ unassigned
unfolding idle_receivers
idle k = refl

motor-Serves :
    Serves 5
      (upload_responses 5 0x6040 0 (0x1F ∷ 0 ∷ []))
      (windows_of (upload_responses 5 0x6040 0 (0x1F ∷ 0 ∷ [])))
unfolding upload_responses initiate_response segment_responses responses_of target target_of_code
    get_function_code get_node_id pad
motor-Serves = (refl, refl, (refl, refl, tt))

get_entry_at_served_example :
    let (r, d') = get_entry_at control ReadAccessMethod.sdo motor in
    (r ≡ ok (of_uint16 0x1F))
    × (get_entry_at control ReadAccessMethod.cache d' ≡ (ok (of_uint16 0x1F), d'))
unfolding find_entry address_equal is_comparable type_of get_bytes
get_entry_at_served_example =
    get_entry_at_served control control_entry (of_uint16 0x1F) (0x1F ∷ 0 ∷ []) motor refl refl refl
      refl idle (omega arith) refl (omega arith) motor-Serves

set_entry_at_lem_example :
    let (r, d') = set_entry_at control (of_uint16 7) WriteAccessMethod.use_default motor in
    (cached_value control d' ≡ (ok (of_uint16 7), d'))
    × (((writes_via_sdo WriteAccessMethod.use_default control_entry ≡ false)
          × (r ≡ ok tt)
          × (d'.bus ≡ motor.bus))
        ⊎ ((writes_via_sdo WriteAccessMethod.use_default control_entry ≡ true)
            × Outcome (download_value 5 control (of_uint16 7)) 3 motor.bus r d'.bus))
unfolding find_entry address_equal is_comparable type_of
set_entry_at_lem_example =
    set_entry_at_lem control control_entry (of_uint16 7) WriteAccessMethod.use_default motor refl
      refl refl refl

disabled_cob_id_lem_example :
    (disabled_cob_id 0x185 ≡ 0x80000185)
    × (enabled_cob_id 0x185 ≡ 0x185)
    × (enabled_cob_id (disabled_cob_id 0x185) ≡ 0x185)
disabled_cob_id_lem_example = disabled_cob_id_lem 0x185 (omega arith)

map_rpdo_in_device-configure_example :
    map_rpdo_in_device 0x200 (0x60400010 ∷ []) 254 motor
    ≡ configure 0x1400 0x1600 (0x60400010 ∷ []) ((0x1400, 2, of_uint8 254) ∷ []) motor
unfolding get_rpdo_indexes
map_rpdo_in_device-configure_example =
    map_rpdo_in_device-configure 0x200 0x1400 0x1600 (0x60400010 ∷ []) 254 motor refl (omega arith)

map_tpdo_in_device-configure_example :
    (map_tpdo_basic 0x180 (0x60410010 ∷ []) 254 motor
      ≡ configure 0x1800 0x1A00 (0x60410010 ∷ []) ((0x1800, 2, of_uint8 254) ∷ []) motor)
    × (map_tpdo_inhibit 0x180 (0x60410010 ∷ []) 254 10 motor
        ≡ configure 0x1800 0x1A00
            (0x60410010 ∷ [])
            ((0x1800, 2, of_uint8 254) ∷ (0x1800, 3, of_uint16 10) ∷ [])
            motor)
    × (map_tpdo_in_device 0x180 (0x60410010 ∷ []) 254 10 20 motor
        ≡ configure 0x1800 0x1A00
            (0x60410010 ∷ [])
            ((0x1800, 2, of_uint8 254) ∷ (0x1800, 3, of_uint16 10) ∷ (0x1800, 5, of_uint16 20) ∷ [])
            motor)
unfolding get_tpdo_indexes
map_tpdo_in_device-configure_example =
    map_tpdo_in_device-configure 0x180 0x1800 0x1A00 (0x60410010 ∷ []) 254 10 20 motor refl
      (omega arith)

map_rpdo_in_device-Stops_example :
    let (r, d') = map_rpdo_in_device 0x200 (0x60400010 ∷ []) 254 motor in
    ((x : Error) × (read_cob_id 0x1400 motor ≡ (err x, d')) × (r ≡ err x))
    ⊎ ((c : ℕ) × (d0 : Device) × (read_cob_id 0x1400 motor ≡ (ok c, d0))
        × Stops (script 0x1400 0x1600 (0x60400010 ∷ []) ((0x1400, 2, of_uint8 254) ∷ []) c) d0 r d')
unfolding get_rpdo_indexes
map_rpdo_in_device-Stops_example =
    map_rpdo_in_device-Stops 0x200 0x1400 0x1600 (0x60400010 ∷ []) 254 motor refl (omega arith)
