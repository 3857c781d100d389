-- ===== src/Device.antt =====
-- A device of the master (include/kacanopen/master/device.h, src/master/device.cpp). The core's
-- components that the device calls are part of its state; the locks are left out. The callback of a
-- transmit mapping is named by the place of the mapping, counted from the end of its list; that of
-- a receive mapping is named by the caller, and `bindings` has the mapping that is bound to it.
pub mod Access
pub mod Mappings
pub mod Entries
pub mod Tables
mod TrafficRuns
mod StepRuns
pub mod Runs
pub mod Script
pub mod Heartbeats
pub mod OnChange
pub mod Periodic
pub mod Stopping
pub mod Configured
pub mod Switching
pub mod Reception
pub mod Callbacks
pub mod Soundness
pub mod Kept
pub mod Bound
pub mod Received
pub mod Typed
pub mod Composed
pub mod Loading
pub mod Steps
pub mod Writes
pub mod Served
pub mod Cached
pub mod Repeats
pub mod Configure
use kacanopen.Prelude.{ℕ, List, [], ◌∷◌, none, some, if◌then◌else◌, Bool, true, false}
use kacanopen.Error.{
  Result, ok, err, canopen_error, dictionary_error, DictionaryErrorType, out_of_range,
}
use kacanopen.Exec.{Exec}
use kacanopen.Value.{Value, ValueType}
use kacanopen.Entry.{Entry, AccessType, new_entry, get_type}
use kacanopen.Dictionary.{
  Address, NameTable, EntryTable, escape, address_equal, find_name, find_entry,
}
use kacanopen.Transmit.{TransmitPdoMapping}
use kacanopen.Sdo.{Bus}
use kacanopen.Pdo.{Pdo}
use kacanopen.Nmt.{Nmt}

pub record ReceivePdoMapping : Type 0 where
  pub cob_id : ℕ
  pub entry_name : List ℕ
  pub offset : ℕ

-- `Device::Operation`: the functions of the profiles, and those that a user adds
pub data Operation : Type 0 where
  enable_operation set_controlword_flag unset_controlword_flag set_target_position : Operation
  custom : ℕ → Operation

-- `repeats_on_sdo_timeout` is the setting of that name, and `stack` what the eight data bytes of a
-- message that `PDO::send` builds hold before.
pub record Device : Type 0 where
  pub node_id : ℕ
  pub dictionary : EntryTable
  pub name_to_address : NameTable
  pub operations : List (List ℕ × Operation)
  pub constants : List (List ℕ × Value)
  pub receive_pdo_mappings : List ReceivePdoMapping
  pub transmit_pdo_mappings : List TransmitPdoMapping
  pub cob_ids : List ℕ
  pub bindings : List (ℕ × ReceivePdoMapping)
  pub bus : Bus
  pub pdo : Pdo
  pub nmt : Nmt
  pub repeats_on_sdo_timeout : ℕ
  pub stack : List ℕ

-- `Device(core, node_id)`
pub new_device : ℕ → Bus → Pdo → Nmt → ℕ → List ℕ → Device
new_device node_id bus pdo nmt repeats stack = record {
  node_id = node_id;
  dictionary = [];
  name_to_address = [];
  operations = [];
  constants = [];
  receive_pdo_mappings = [];
  transmit_pdo_mappings = [];
  cob_ids = [];
  bindings = [];
  bus = bus;
  pdo = pdo;
  nmt = nmt;
  repeats_on_sdo_timeout = repeats;
  stack = stack;
}

-- A call of a component of the core
module _ {A : Type 0} where
  abbrev pub on_bus : Exec Bus A → Exec Device A
  on_bus call d = let (r, b) = call d.bus in (r, record d { bus = b })

  abbrev pub on_pdo : Exec Pdo A → Exec Device A
  on_pdo call d = let (r, p) = call d.pdo in (r, record d { pdo = p })

  abbrev pub on_nmt : Exec Nmt A → Exec Device A
  on_nmt call d = let (r, n) = call d.nmt in (r, record d { nmt = n })

-- `has_entry(index, subindex)`
pub has_entry_at : Address → Device → Bool
has_entry_at a d = elim (find_entry a d.dictionary) [ none ↦ false | some e ↦ true ]

-- `has_entry(name)`
pub has_entry : List ℕ → Device → Bool
unfolding has_entry_at
has_entry entry_name d = elim (find_name (escape entry_name) d.name_to_address) [
  | none ↦ false
  | some a ↦ has_entry_at a d
]

-- The entry's address, with the check that comes first in each method that takes a name
pub resolve : List ℕ → Device → Result Address
unfolding has_entry
resolve entry_name d =
    let name = escape entry_name in
    elim (has_entry name d) [
      | false ↦ err (dictionary_error DictionaryErrorType.unknown_entry)
      | true ↦ elim (find_name name d.name_to_address) [ none ↦ err out_of_range | some a ↦ ok a ]
    ]

-- `m_dictionary[address]`, after the check that it is there
unfoldable pub entry_at : Address → Device → Result Entry
entry_at a d = elim (find_entry a d.dictionary) [
  | none ↦ err (dictionary_error DictionaryErrorType.unknown_entry)
  | some e ↦ ok e
]

-- `get_entry_type(index, subindex)`
pub get_entry_type_at : Address → Device → Result ValueType
get_entry_type_at a d = elim (entry_at a d) [ ok e ↦ ok (get_type e) | err x ↦ err x ]

-- `get_entry_type(name)`
pub get_entry_type : List ℕ → Device → Result ValueType
get_entry_type entry_name d = elim (resolve entry_name d) [
  | ok a ↦ get_entry_type_at a d
  | err x ↦ err x
]

-- `add_entry`. The order of an unordered map's elements is nowhere relied on.
pub add_entry : Address → List ℕ → ValueType → AccessType → Exec Device (Unit {0})
unfolding has_entry_at
add_entry a name type access_type d =
    let entry_name = escape name in
    elim (find_name entry_name d.name_to_address) [
      | some other ↦ (err canopen_error, d)
      | none ↦ elim (has_entry_at a d) [
        | true ↦ (err canopen_error, d)
        | false ↦ (
          ok tt,
          record d {
            dictionary =
                (a, new_entry a.index a.subindex entry_name type access_type) ∷ d.dictionary;
            name_to_address = (entry_name, a) ∷ d.name_to_address;
          },
        )
      ]
    ]

-- An entry that is there is replaced.
unfoldable pub put_entry : Address → Entry → EntryTable → EntryTable
put_entry a e [] = []
put_entry a e ((k, other) ∷ table) =
    let rest = put_entry a e table in
    if address_equal k a then (k, e) ∷ table else (k, other) ∷ rest
