-- ===== src/Device/Steps.antt =====
-- A device as a state machine: each step is one call of a method of `Device`, or one PDO that the core
-- receives.
use kacanopen.Prelude.{ℕ, ◌≡◌, List, [], Option, Bool, some, All}
use kacanopen.Message.{Message}
use kacanopen.Value.{Value, ValueType}
use kacanopen.Entry.{Entry, AccessType, ReadAccessMethod, WriteAccessMethod}
use kacanopen.Dictionary.{Address, find_entry}
use kacanopen.Pdo.{Pdo}
use kacanopen.Nmt.{Nmt}
use kacanopen.Sdo.{Bus}
use kacanopen.Transmit.{Mapping, TransmissionType}
use kacanopen.Device.{Device, new_device, add_entry}
use kacanopen.Device.Access.{
  get_entry_at, get_entry, set_entry_at, set_entry, read_complete_dictionary,
}
use kacanopen.Device.Mappings.{
  add_receive_pdo_mapping, add_receive_pdo_function, add_receive_pdo_mapping_at,
  add_transmit_pdo_mapping, add_transmit_pdo_mapping_at, receive_pdo,
}
use kacanopen.Exec.{Exec}
use kacanopen.Device.{Operation}
use kacanopen.Device.Composed.{
  map_rpdo_in_device-Keeps, map_tpdo_in_device-Keeps, map_tpdo_inhibit-Keeps, map_tpdo_basic-Keeps,
}
use kacanopen.Device.Configure.{
  map_rpdo_in_device, map_tpdo_in_device, map_tpdo_inhibit, map_tpdo_basic,
}
use kacanopen.Profiles.{
  get_device_profile_number, load_operations, load_constants, add_operation, add_constant, execute,
}
use kacanopen.EdsReader.{Ini}
use kacanopen.EdsLibrary.Matching.{EdsFile, Station}
use kacanopen.Device.Loading.{
  start, load_default_eds_files, load_dictionary_from_library, load_dictionary_from_eds,
}
use kacanopen.Device.Loading.Sound.{
  start-IsSound, load_default_eds_files-IsSound, load_dictionary_from_library-IsSound,
  load_dictionary_from_eds-IsSound,
}
use kacanopen.Profiles.Keeping.{
  execute-Keeps, get_device_profile_number-Keeps, load_operations-Keeps, load_constants-Keeps,
}
use kacanopen.Device.Typed.{Answers, HasType, get_entry_at-HasType}
use kacanopen.Device.Received.{OnlyValues, receive_pdo-StaysSound}
use kacanopen.Device.Soundness.{IsSound}
use kacanopen.Device.Kept.{
  add_entry-IsSound, set_entry_at-IsSound, set_entry-IsSound, get_entry_at-IsSound,
  get_entry-IsSound, read_complete_dictionary-IsSound,
}
use kacanopen.Device.Bound.{
  add_receive_pdo_mapping-IsSound, add_receive_pdo_function-IsSound,
  add_receive_pdo_mapping_at-IsSound, add_transmit_pdo_mapping-IsSound, IsThere,
  add_transmit_pdo_mapping_at-IsSound,
}

-- How a device is used: single calls, one after the other, however they end. A mapping by address is of
-- entries that are there. It is started, and EDS files are loaded, while no receive mapping is bound,
-- with any library, settings and files. What operations of the user do is done by such uses of the
-- device as well. What is done to the public tables directly is not among these uses.
pub data Reach : Device → Device → Type 0 where
  here : {d : Device} → Reach d d
  later : {s t u : Device} → Reach s t → Reach t u → Reach s u
  adds_entry :
      (a : Address) (name : List ℕ) (t : ValueType) (access : AccessType) (d : Device)
      → Reach d (add_entry a name t access d).1
  gets :
      (name : List ℕ) (access : ReadAccessMethod) (d : Device) → Reach d (get_entry name access d).1
  gets_at :
      (a : Address) (access : ReadAccessMethod) (d : Device) → Reach d (get_entry_at a access d).1
  sets :
      (name : List ℕ) (v : Value) (access : WriteAccessMethod) (d : Device)
      → Reach d (set_entry name v access d).1
  sets_at :
      (a : Address) (v : Value) (access : WriteAccessMethod) (d : Device)
      → Reach d (set_entry_at a v access d).1
  reads_dictionary : (d : Device) → Reach d (read_complete_dictionary d).1
  maps :
      (callback cob_id : ℕ) (name : List ℕ) (offset : ℕ) (d : Device)
      → Reach d (add_receive_pdo_mapping callback cob_id name offset d).1
  maps_function :
      (callback cob_id : ℕ) (name : List ℕ) (offset : ℕ) (d : Device)
      → Reach d (add_receive_pdo_function callback cob_id name offset d).1
  maps_at :
      (callback cob_id : ℕ) (a : Address) (e : Entry) (offset : ℕ) (d : Device)
      → find_entry a d.dictionary ≡ some e
      → Reach d (add_receive_pdo_mapping_at callback cob_id a offset d).1
  transmits :
      (cob_id : ℕ) (ms : List Mapping) (kind : TransmissionType) (repeat_time : ℕ) (d : Device)
      → Reach d (add_transmit_pdo_mapping cob_id ms kind repeat_time d).1
  receives : (m : Message) (d : Device) → Reach d (receive_pdo m d).1
  configures_rpdo :
      (rpdo_no : ℕ) (entries : List ℕ) (transmit_type : ℕ) (d : Device)
      → Reach d (map_rpdo_in_device rpdo_no entries transmit_type d).1
  configures_tpdo :
      (tpdo_no : ℕ) (entries : List ℕ) (transmit_type inhibit_time event_timer : ℕ) (d : Device)
      → Reach d (map_tpdo_in_device tpdo_no entries transmit_type inhibit_time event_timer d).1
  configures_tpdo_inhibit :
      (tpdo_no : ℕ) (entries : List ℕ) (transmit_type inhibit_time : ℕ) (d : Device)
      → Reach d (map_tpdo_inhibit tpdo_no entries transmit_type inhibit_time d).1
  configures_tpdo_basic :
      (tpdo_no : ℕ) (entries : List ℕ) (transmit_type : ℕ) (d : Device)
      → Reach d (map_tpdo_basic tpdo_no entries transmit_type d).1
  transmits_at :
      (cob_id : ℕ) (ms : List (Address × ℕ)) (kind : TransmissionType) (repeat_time : ℕ)
      (d : Device)
      → All (IsThere d) ms
      → Reach d (add_transmit_pdo_mapping_at cob_id ms kind repeat_time d).1
  asks_profile : (d : Device) → Reach d (get_device_profile_number d).1
  loads_operations : (d : Device) → Reach d (load_operations d).1
  loads_constants : (d : Device) → Reach d (load_constants d).1
  adds_operation : (name : List ℕ) (o : Operation) (d : Device) → Reach d (add_operation name o d)
  adds_constant : (name : List ℕ) (v : Value) (d : Device) → Reach d (add_constant name v d)
  executes :
      (run_custom : ℕ → Value → Exec Device Value)
      → ((c : ℕ) (v : Value) (d : Device) → Reach d (run_custom c v d).1)
      → (depth : ℕ) (name : List ℕ) (argument : Value) (d : Device)
      → Reach d (execute run_custom depth name argument d).1
  starts :
      (exists : List ℕ → Bool) (read_ini : List ℕ → Option Ini) (fuel : ℕ)
      (parent_path : List ℕ → List ℕ) (package_path : List ℕ) (s : Station)
      → s.device.bindings ≡ []
      → Reach s.device (start exists read_ini fuel parent_path package_path s).1.device
  loads_defaults :
      (exists : List ℕ → Bool) (read_ini : List ℕ → Option Ini) (fuel : ℕ)
      (parent_path : List ℕ → List ℕ) (package_path : List ℕ) (s : Station)
      → s.device.bindings ≡ []
      → Reach s.device
          (load_default_eds_files exists read_ini fuel parent_path package_path s).1.device
  loads_library :
      (exists : List ℕ → Bool) (read_ini : List ℕ → Option Ini) (fuel : ℕ)
      (read_json : List ℕ → Option (List EdsFile)) (show_real32 show_real64 : ℕ → List ℕ)
      (s : Station)
      → s.device.bindings ≡ []
      → Reach s.device
          (load_dictionary_from_library exists read_ini fuel read_json show_real32 show_real64
            s).1.device
  loads_eds :
      (exists : List ℕ → Bool) (read_ini : List ℕ → Option Ini) (fuel : ℕ) (path : List ℕ)
      (s : Station)
      → s.device.bindings ≡ []
      → Reach s.device (load_dictionary_from_eds exists read_ini fuel path s).1.device
  -- What the other components of the core do meanwhile
  elsewhere :
      (bus : Bus) (pdo : Pdo) (nmt : Nmt) (d : Device)
      → Reach d (record d { bus = bus; pdo = pdo; nmt = nmt })

pub Reach-IsSound : {s d : Device} → Reach s d → IsSound s → IsSound d
unfolding add_operation add_constant
Reach-IsSound here h = h
Reach-IsSound (later first rest) h = Reach-IsSound rest (Reach-IsSound first h)
Reach-IsSound (adds_entry a name t access d) h = add_entry-IsSound a name t access d h
Reach-IsSound (gets name access d) h = get_entry-IsSound name access d h
Reach-IsSound (gets_at a access d) h = get_entry_at-IsSound a access d h
Reach-IsSound (sets name v access d) h = set_entry-IsSound name v access d h
Reach-IsSound (sets_at a v access d) h = set_entry_at-IsSound a v access d h
Reach-IsSound (reads_dictionary d) h = read_complete_dictionary-IsSound d h
Reach-IsSound (maps callback cob_id name offset d) h =
    add_receive_pdo_mapping-IsSound callback cob_id name offset d h
Reach-IsSound (maps_function callback cob_id name offset d) h =
    add_receive_pdo_function-IsSound callback cob_id name offset d h
Reach-IsSound (maps_at callback cob_id a e offset d found) h =
    add_receive_pdo_mapping_at-IsSound callback cob_id a e offset d found h
Reach-IsSound (transmits cob_id ms kind repeat_time d) h =
    add_transmit_pdo_mapping-IsSound cob_id ms kind repeat_time d h
Reach-IsSound (receives m d) h = (receive_pdo-StaysSound m d h).0
Reach-IsSound (configures_rpdo rpdo_no entries transmit_type d) h =
    map_rpdo_in_device-Keeps rpdo_no entries transmit_type d h
Reach-IsSound (configures_tpdo tpdo_no entries transmit_type inhibit_time event_timer d) h =
    map_tpdo_in_device-Keeps tpdo_no entries transmit_type inhibit_time event_timer d h
Reach-IsSound (configures_tpdo_inhibit tpdo_no entries transmit_type inhibit_time d) h =
    map_tpdo_inhibit-Keeps tpdo_no entries transmit_type inhibit_time d h
Reach-IsSound (configures_tpdo_basic tpdo_no entries transmit_type d) h =
    map_tpdo_basic-Keeps tpdo_no entries transmit_type d h
Reach-IsSound (transmits_at cob_id ms kind repeat_time d there) h =
    add_transmit_pdo_mapping_at-IsSound cob_id ms kind repeat_time d there h
Reach-IsSound (asks_profile d) h = get_device_profile_number-Keeps d h
Reach-IsSound (loads_operations d) h = load_operations-Keeps d h
Reach-IsSound (loads_constants d) h = load_constants-Keeps d h
Reach-IsSound (adds_operation name o d) h = h
Reach-IsSound (adds_constant name v d) h = h
Reach-IsSound (executes run_custom used depth name argument d) h =
    execute-Keeps run_custom (λ c v u k. Reach-IsSound (used c v u) k) depth name argument d h
Reach-IsSound (starts exists read_ini fuel parent_path package_path s free) h =
    start-IsSound exists read_ini fuel parent_path package_path s h free
Reach-IsSound (loads_defaults exists read_ini fuel parent_path package_path s free) h =
    load_default_eds_files-IsSound exists read_ini fuel parent_path package_path s h free
Reach-IsSound (loads_library exists read_ini fuel read_json show_real32 show_real64 s free) h =
    load_dictionary_from_library-IsSound exists read_ini fuel read_json show_real32 show_real64 s h
      free
Reach-IsSound (loads_eds exists read_ini fuel path s free) h =
    load_dictionary_from_eds-IsSound exists read_ini fuel path s h free
Reach-IsSound (elsewhere bus pdo nmt d) h = h

pub new_device-IsSound :
    (node_id : ℕ) (bus : Bus) (pdo : Pdo) (nmt : Nmt) (repeats : ℕ) (stack : List ℕ)
    → IsSound (new_device node_id bus pdo nmt repeats stack)
unfolding new_device
new_device-IsSound node_id bus pdo nmt repeats stack = ((tt, tt), tt, tt)

-- However a new device is used, each name leads to an entry, each entry stands at its own address
-- under an escaped name that leads there, each value that can be read has the type of its entry, and
-- each bound receive mapping leads to an entry that fits in a PDO at its offset. It is used by calls
-- of its methods, however they end, and by received PDOs; a mapping by address is one of entries that
-- are there, it is started and EDS files are loaded only while no receive mapping is bound, and
-- operations of the user act on it in these ways.
pub new_device-Reach :
    (node_id : ℕ) (bus : Bus) (pdo : Pdo) (nmt : Nmt) (repeats : ℕ) (stack : List ℕ) (d : Device)
    → Reach (new_device node_id bus pdo nmt repeats stack) d
    → IsSound d
new_device-Reach node_id bus pdo nmt repeats stack d reach =
    Reach-IsSound reach (new_device-IsSound node_id bus pdo nmt repeats stack)

-- However a new device is used, under the same conditions, what a read then answers has the type of the entry that stands at the
-- address, whether it comes from the cache or from the node, unless the read throws.
pub Reach-HasType :
    (node_id : ℕ) (bus : Bus) (pdo : Pdo) (nmt : Nmt) (repeats : ℕ) (stack : List ℕ) (d : Device)
    (a : Address) (e : Entry) (access : ReadAccessMethod)
    → Reach (new_device node_id bus pdo nmt repeats stack) d
    → find_entry a d.dictionary ≡ some e
    → Answers (HasType e.type) (get_entry_at a access d).0
Reach-HasType node_id bus pdo nmt repeats stack d a e access reach found =
    get_entry_at-HasType a e access d (new_device-Reach node_id bus pdo nmt repeats stack d reach)
      found

-- However a new device is used, under the same conditions, a PDO that it then receives, with any COB-ID and bytes, adds no entry
-- and no name, changes no entry's address, name or type, and touches nothing but the entries' values
-- and the PDO component; so no received PDO makes `operator[]` insert a default element.
pub Reach-OnlyValues :
    (node_id : ℕ) (bus : Bus) (pdo : Pdo) (nmt : Nmt) (repeats : ℕ) (stack : List ℕ) (d : Device)
    (m : Message)
    → Reach (new_device node_id bus pdo nmt repeats stack) d
    → OnlyValues d (receive_pdo m d).1
Reach-OnlyValues node_id bus pdo nmt repeats stack d m reach =
    (receive_pdo-StaysSound m d (new_device-Reach node_id bus pdo nmt repeats stack d reach)).1
