-- ===== src/Device/Mappings.antt =====
-- The PDO mappings of a device (`add_receive_pdo_mapping`, `add_transmit_pdo_mapping` and
-- `pdo_received_callback` of src/master/device.cpp). The thread of a periodic mapping
-- stands in Periodic.
use kacanopen.Prelude.{
  ◌==◌, ℕ, ◌+◌, List, [], ◌∷◌, ◌++◌, Option, none, some, length, ltb, if◌then◌else◌, true, false,
  take, drop,
}
use kacanopen.Error.{ok, err, dictionary_error, DictionaryErrorType, out_of_range}
use kacanopen.Exec.{Exec, ◌>>◌}
use kacanopen.Message.{Message}
use kacanopen.Value.{invalid, get_type_size, of_bytes}
use kacanopen.Entry.{Entry, new_entry, read_write, add_value_changed_callback, same_type}
use kacanopen.Dictionary.{Address, find_name, find_entry, escape}
use kacanopen.Transmit.{
  Mapping, TransmissionType, on_change, periodic, TransmitPdoMapping, check_correctness,
}
use kacanopen.Pdo.{
  Pdo, add_pdo_received_callback, remove_pdo_received_callback, process_incoming_message,
}
use kacanopen.Device.{Device, ReceivePdoMapping, resolve, entry_at, put_entry}
use kacanopen.Device.Access.{set_entry_value}

-- What `Entry()` makes. Its index and subindex are not set there: `a` is what they hold. Neither are
-- the access type and `is_generic`, which nothing here reads from such an entry.
unfoldable pub default_entry : Address → Entry
default_entry a = new_entry a.index a.subindex [] invalid read_write

-- The mapping is put first in the list, and its callback is registered.
unfoldable pub bind_mapping : ℕ → ReceivePdoMapping → Device → Device
bind_mapping callback m d = record d {
  receive_pdo_mappings = m ∷ d.receive_pdo_mappings;
  bindings = (callback, m) ∷ d.bindings;
  cob_ids = d.cob_ids ++ (m.cob_id ∷ []);
  pdo = add_pdo_received_callback m.cob_id callback d.pdo;
}

-- `add_receive_pdo_mapping(cob_id, entry_name, offset)`
unfoldable pub add_receive_pdo_mapping : ℕ → ℕ → List ℕ → ℕ → Exec Device (Unit {0})
add_receive_pdo_mapping callback cob_id entry_name offset d =
    let name = escape entry_name in
    elim (resolve name d) [
      | err x ↦ (err x, d)
      | ok a ↦ elim (entry_at a d) [
        | err x ↦ (err x, d)
        | ok e ↦
            let m : ReceivePdoMapping = record {
              cob_id = cob_id;
              entry_name = name;
              offset = offset;
            } in
            if ltb 8 (offset + get_type_size e.type)
            then (err (dictionary_error DictionaryErrorType.mapping_size), d)
            else (ok tt, bind_mapping callback m d)
      ]
    ]

-- The overload with a function of the user's, which `callback` names: the COB-ID is not noted.
unfoldable pub add_receive_pdo_function : ℕ → ℕ → List ℕ → ℕ → Exec Device (Unit {0})
add_receive_pdo_function callback cob_id entry_name offset d =
    let name = escape entry_name in
    elim (resolve name d) [
      | err x ↦ (err x, d)
      | ok a ↦ elim (entry_at a d) [
        | err x ↦ (err x, d)
        | ok e ↦
            let m : ReceivePdoMapping = record {
              cob_id = cob_id;
              entry_name = name;
              offset = offset;
            } in
            if ltb 8 (offset + get_type_size e.type)
            then (err (dictionary_error DictionaryErrorType.mapping_size), d)
            else (
              ok tt,
              record d {
                receive_pdo_mappings = m ∷ d.receive_pdo_mappings;
                pdo = add_pdo_received_callback cob_id callback d.pdo;
              },
            )
      ]
    ]

-- `m_dictionary[address]`, which adds a default entry where there is none
unfoldable pub at_or_insert : Address → Device → Entry × Device
at_or_insert a d = elim (find_entry a d.dictionary) [
  | some e ↦ (e, d)
  | none ↦ (default_entry a, record d { dictionary = (a, default_entry a) ∷ d.dictionary })
]

-- `add_receive_pdo_mapping(cob_id, entry_index, entry_subindex, offset)`
unfoldable pub add_receive_pdo_mapping_at : ℕ → ℕ → Address → ℕ → Exec Device (Unit {0})
add_receive_pdo_mapping_at callback cob_id a offset d =
    let (e, d') = at_or_insert a d in
    let m : ReceivePdoMapping = record { cob_id = cob_id; entry_name = e.name; offset = offset } in
    if ltb 8 (offset + get_type_size e.type)
    then (err (dictionary_error DictionaryErrorType.mapping_size), d')
    else (ok tt, bind_mapping callback m d')

-- The loop that adds the callback of a transmit mapping to its entries
unfoldable pub watch_entries : ℕ → List Mapping → Exec Device (Unit {0})
watch_entries callback [] d = (ok tt, d)
watch_entries callback (m ∷ ms) d = elim (find_name (escape m.entry_name) d.name_to_address) [
  | none ↦ (err out_of_range, d)
  | some a ↦ elim (find_entry a d.dictionary) [
    | none ↦ (err out_of_range, d)
    | some e ↦
        watch_entries callback ms (record d {
          dictionary = put_entry a (add_value_changed_callback callback e) d.dictionary;
        })
  ]
]

-- `add_transmit_pdo_mapping(cob_id, mappings, transmission_type, repeat_time)`
unfoldable pub add_transmit_pdo_mapping :
    ℕ → List Mapping → TransmissionType → ℕ → Exec Device (Unit {0})
add_transmit_pdo_mapping cob_id mappings transmission_type repeat_time d =
    let t : TransmitPdoMapping = record {
      cob_id = cob_id;
      transmission_type = transmission_type;
      repeat_time = repeat_time;
      mappings = mappings;
      dictionary = d.dictionary;
      name_to_address = d.name_to_address;
    } in
    elim (check_correctness t) [
      | err x ↦ (err x, d)
      | ok _ ↦
          let d' = record d { transmit_pdo_mappings = t ∷ d.transmit_pdo_mappings } in
          elim transmission_type [
            | on_change ↦ watch_entries (length d.transmit_pdo_mappings) mappings d'
            | periodic ↦ (ok tt, d')
          ]
    ]

-- The loop that turns `MappingByIndex` into `Mapping`
unfoldable pub name_mappings : List (Address × ℕ) → Device → List Mapping × Device
name_mappings [] d = ([], d)
name_mappings ((a, offset) ∷ ms) d =
    let (e, d') = at_or_insert a d in
    let (named, d'') = name_mappings ms d' in
    ((record { entry_name = e.name; offset = offset }) ∷ named, d'')

-- `add_transmit_pdo_mapping(cob_id, mappings_by_index, transmission_type, repeat_time)`
unfoldable pub add_transmit_pdo_mapping_at :
    ℕ → List (Address × ℕ) → TransmissionType → ℕ → Exec Device (Unit {0})
add_transmit_pdo_mapping_at cob_id mappings_by_index transmission_type repeat_time d =
    let (mappings, d') = name_mappings mappings_by_index d in
    add_transmit_pdo_mapping cob_id mappings transmission_type repeat_time d'

-- The part of `pdo_received_callback` after the entry is found
unfoldable pub update_from_pdo : Address → Entry → ℕ → List ℕ → Exec Device (Unit {0})
update_from_pdo a e offset bytes d =
    let type_size = get_type_size e.type in
    elim (same_type e.type invalid) [
      | true ↦ (ok tt, d)
      | false ↦ elim (ltb (length bytes) (offset + type_size)) [
        | true ↦ (ok tt, d)
        | false ↦ elim (of_bytes e.type (take type_size (drop offset bytes))) [
          | ok v ↦ set_entry_value a e v d
          | err x ↦ (err x, d)
        ]
      ]
    ]

-- `m_name_to_address[name]`, which adds the address 0/0 where there is none
unfoldable pub address_or_insert : List ℕ → Device → Address × Device
address_or_insert name d = elim (find_name name d.name_to_address) [
  | some a ↦ (a, d)
  | none ↦
      let a : Address = record { index = 0; subindex = 0 } in
      (a, record d { name_to_address = (name, a) ∷ d.name_to_address })
]

unfoldable pub pdo_received_callback : ReceivePdoMapping → List ℕ → Exec Device (Unit {0})
pdo_received_callback m bytes d =
    let (a, d') = address_or_insert (escape m.entry_name) d in
    let (e, d'') = at_or_insert a d' in update_from_pdo a e m.offset bytes d''

-- The mapping that is bound to a callback
unfoldable pub find_binding : ℕ → List (ℕ × ReceivePdoMapping) → Option ReceivePdoMapping
find_binding c [] = none
find_binding c ((k, m) ∷ bindings) =
    let rest = find_binding c bindings in if k == c then some m else rest

-- The calls of `PDO::process_incoming_message` that are due; a callback of another object changes
-- nothing here.
unfoldable pub deliver : List (ℕ × List ℕ) → Exec Device (Unit {0})
deliver [] d = (ok tt, d)
deliver ((c, bytes) ∷ due) d = elim (find_binding c d.bindings) [
  | none ↦ deliver due d
  | some m ↦ (do pdo_received_callback m bytes; deliver due) d
]

-- `PDO::process_incoming_message`, with the calls that it makes
unfoldable pub receive_pdo : Message → Exec Device (Unit {0})
receive_pdo m d =
    let p = process_incoming_message m d.pdo in
    deliver (drop (length d.pdo.calls) p.calls) (record d { pdo = p })

-- `for (auto& cob_id : cob_ids_) m_core.pdo.remove_pdo_received_callback(cob_id)`
unfoldable pub remove_callbacks : List ℕ → Pdo → Pdo
remove_callbacks [] p = p
remove_callbacks (id ∷ ids) p = remove_callbacks ids (remove_pdo_received_callback id p)

-- The destructor. What the device leaves behind is the PDO component of the core.
unfoldable pub destroy : Device → Pdo
destroy d = remove_callbacks d.cob_ids d.pdo
