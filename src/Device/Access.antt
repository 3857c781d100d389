-- ===== src/Device/Access.antt =====
-- Reading and writing entries (`get_entry`, `set_entry`, `get_entry_via_sdo`, `set_entry_via_sdo` and
-- `read_complete_dictionary` of src/master/device.cpp). The pauses between repeats are left out.
use kacanopen.Prelude.{
  ◌==◌, ℕ, zero, suc, ◌+◌, List, [], ◌∷◌, Option, none, some, length, if◌then◌else◌, Bool, true,
  false, drop,
}
use kacanopen.Error.{Error, ok, err, sdo_error, SdoErrorType, dictionary_error, DictionaryErrorType}
use kacanopen.Exec.{Exec, pure, ◌>>=◌, ◌>>◌}
use kacanopen.Value.{Value, ValueType, type_of, get_bytes, of_bytes}
use kacanopen.Entry.{Entry, set_value, get_value, same_type, ReadAccessMethod, WriteAccessMethod}
use kacanopen.Dictionary.{Address, EntryTable, find_entry}
use kacanopen.Transmit.{TransmitPdoMapping, send}
use kacanopen.Sdo.{Bus, upload, download}
use kacanopen.Device.{Device, on_bus, on_pdo, resolve, entry_at, put_entry}

unfoldable pub is_sdo_error : Error → Bool
is_sdo_error (sdo_error t) = true
is_sdo_error _ = false

-- The loop of `get_entry_via_sdo` and `set_entry_via_sdo`, with the rounds that are left
module _ {A : Type 0} (attempt : Exec Bus A) where
  unfoldable pub repeat_attempt : ℕ → Exec Bus A
  repeat_attempt zero b = (err (sdo_error SdoErrorType.response_timeout), b)
  repeat_attempt (suc rounds) b =
      let (r, b') = attempt b in
      elim r [
        | ok a ↦ (ok a, b')
        | err x ↦ elim (is_sdo_error x) [ true ↦ repeat_attempt rounds b' | false ↦ (err x, b') ]
      ]

-- The body of the `try` of `get_entry_via_sdo`
unfoldable pub upload_value : ℕ → Address → ValueType → Exec Bus Value
upload_value node_id a t = do bytes ← upload node_id a.index a.subindex; λ b. (of_bytes t bytes, b)

unfoldable pub get_entry_via_sdo : Address → ValueType → Exec Device Value
get_entry_via_sdo a t d =
    on_bus (repeat_attempt (upload_value d.node_id a t) (d.repeats_on_sdo_timeout + 1)) d

-- The body of the `try` of `set_entry_via_sdo`
unfoldable pub download_value : ℕ → Address → Value → Exec Bus (Unit {0})
download_value node_id a v = do
  bytes ← λ b. (get_bytes v, b)
  download node_id a.index a.subindex (length bytes) bytes

unfoldable pub set_entry_via_sdo : Address → Value → Exec Device (Unit {0})
set_entry_via_sdo a v d =
    on_bus (repeat_attempt (download_value d.node_id a v) (d.repeats_on_sdo_timeout + 1)) d

-- The transmit mapping that is bound to a callback
unfoldable pub find_transmit : ℕ → List TransmitPdoMapping → Option TransmitPdoMapping
find_transmit c [] = none
find_transmit c (t ∷ ts) = let rest = find_transmit c ts in if length ts == c then some t else rest

-- `pdo.send()`, which reads the tables of the device
unfoldable pub send_transmit : TransmitPdoMapping → Exec Device (Unit {0})
send_transmit t d =
    on_pdo
      (send d.stack (record t { dictionary = d.dictionary; name_to_address = d.name_to_address })) d

-- `for (auto& callback : m_value_changed_callbacks) callback(value)`, until one throws
unfoldable pub call_back : List (ℕ × Value) → Exec Device (Unit {0})
call_back [] d = (ok tt, d)
call_back ((c, v) ∷ due) d = elim (find_transmit c d.transmit_pdo_mappings) [
  | none ↦ call_back due d
  | some t ↦ (do send_transmit t; call_back due) d
]

-- `entry.set_value(value)`. The calls that `Entry.calls` gets are those that are due.
unfoldable pub set_entry_value : Address → Entry → Value → Exec Device (Unit {0})
set_entry_value a e v d =
    let (r, e') = set_value v e in
    elim r [
      | ok _ ↦
          call_back (drop (length e.calls) e'.calls)
            (record d { dictionary = put_entry a e' d.dictionary })
      | err x ↦ (err x, d)
    ]

unfoldable pub reads_via_sdo : ReadAccessMethod → Entry → Bool
reads_via_sdo ReadAccessMethod.sdo e = true
reads_via_sdo ReadAccessMethod.use_default e = elim e.read_access_method [
  | ReadAccessMethod.sdo ↦ true
  | _ ↦ false
]
reads_via_sdo _ e = false

unfoldable pub writes_via_sdo : WriteAccessMethod → Entry → Bool
writes_via_sdo WriteAccessMethod.sdo e = true
writes_via_sdo WriteAccessMethod.use_default e = elim e.write_access_method [
  | WriteAccessMethod.sdo ↦ true
  | _ ↦ false
]
writes_via_sdo _ e = false

-- `return entry.get_value()`, where `entry` refers into the dictionary
unfoldable pub cached_value : Address → Exec Device Value
cached_value a d = elim (entry_at a d) [ ok e ↦ (get_value e, d) | err x ↦ (err x, d) ]

-- `get_entry(index, subindex, access_method)`. The SDO is asked for the entry's own address.
unfoldable pub get_entry_at : Address → ReadAccessMethod → Exec Device Value
get_entry_at a access_method d = elim (entry_at a d) [
  | err x ↦ (err x, d)
  | ok e ↦ elim (reads_via_sdo access_method e) [
    | true ↦
        (do
          v ← get_entry_via_sdo (record { index = e.index; subindex = e.subindex }) e.type
          set_entry_value a e v
          cached_value a)
          d
    | false ↦ cached_value a d
  ]
]

-- `get_entry(name, access_method)`
unfoldable pub get_entry : List ℕ → ReadAccessMethod → Exec Device Value
get_entry entry_name access_method d = elim (resolve entry_name d) [
  | ok a ↦ get_entry_at a access_method d
  | err x ↦ (err x, d)
]

-- `set_entry(index, subindex, value, access_method)`
unfoldable pub set_entry_at : Address → Value → WriteAccessMethod → Exec Device (Unit {0})
set_entry_at a v access_method d = elim (entry_at a d) [
  | err x ↦ (err x, d)
  | ok e ↦ elim (same_type (type_of v) e.type) [
    | false ↦ (err (dictionary_error DictionaryErrorType.wrong_type), d)
    | true ↦
        (do
          set_entry_value a e v
          if writes_via_sdo access_method e
              then set_entry_via_sdo (record { index = e.index; subindex = e.subindex }) v
              else pure tt)
          d
  ]
]

-- `set_entry(name, value, access_method)`
unfoldable pub set_entry : List ℕ → Value → WriteAccessMethod → Exec Device (Unit {0})
set_entry entry_name v access_method d = elim (resolve entry_name d) [
  | ok a ↦ set_entry_at a v access_method d
  | err x ↦ (err x, d)
]

-- `pair.second.disabled = true`
unfoldable pub disable_entry : Address → Device → Device
disable_entry a d = elim (find_entry a d.dictionary) [
  | none ↦ d
  | some e ↦ record d { dictionary = put_entry a (record e { disabled = true }) d.dictionary }
]

-- The loop of `read_complete_dictionary`, over the elements `rest` of the dictionary
unfoldable pub read_entries : EntryTable → Exec Device (Unit {0})
read_entries [] d = (ok tt, d)
read_entries ((a, e) ∷ rest) d =
    let (r, d') = get_entry e.name ReadAccessMethod.use_default d in
    elim r [
      | ok v ↦ read_entries rest d'
      | err x ↦ elim (is_sdo_error x) [
        | true ↦ read_entries rest (disable_entry a d')
        | false ↦ (err x, d')
      ]
    ]

unfoldable pub read_complete_dictionary : Exec Device (Unit {0})
read_complete_dictionary d = read_entries d.dictionary d
