-- ===== src/Transmit.antt =====
-- Transmit PDO mappings (include/kacanopen/master/mapping.h and transmit_pdo_mapping.h,
-- src/master/transmit_pdo_mapping.cpp). The references to the dictionary of the device are the tables
-- themselves, at the time of the call. The thread of periodic transmission is not modelled.
pub mod Check
pub mod Layout
mod Runs
use kacanopen.Prelude.{
  ◌==◌, ℕ, zero, suc, ◌+◌, ◌-◌, ◌*◌, ◌/◌, ◌%◌, ◌^◌, ◌≤◌, ◌<◌, ◌≡◌, ◌≢◌, refl, ap, sym, ◌∙◌, List,
  [], ◌∷◌, ◌++◌, map, arith, Option, none, some, length, bit_and, ltb, leb, not, if◌then◌else◌,
  Bool, true, false, ◌||◌, ◌&&◌, ◌⊎◌, inl, inr, get_or, set, take, drop, replicate, All, ◌↔◌,
  Bool-cases, if_apply, if_both,
}
use kacanopen.Error.{
  Result, ok, err, dictionary_error, DictionaryErrorType, out_of_range, assertion,
}
use kacanopen.Exec.{Exec}
use kacanopen.Value.{Value, get_bytes, get_type_size}
use kacanopen.Entry.{Entry, get_value}
use kacanopen.Dictionary.{Address, NameTable, EntryTable, escape, find_name, find_entry}
use kacanopen.Prelude.{max}
use kacanopen.Pdo.{Pdo, fill, send as send_pdo}

pub record Mapping : Type 0 where
  pub entry_name : List ℕ
  pub offset : ℕ

-- `kaco::TransmissionType`
pub data TransmissionType : Type 0 where
  periodic on_change : TransmissionType

pub record TransmitPdoMapping : Type 0 where
  pub cob_id : ℕ
  pub transmission_type : TransmissionType
  pub repeat_time : ℕ
  pub mappings : List Mapping
  pub dictionary : EntryTable
  pub name_to_address : NameTable

-- The loop that marks the bytes of one entry, from `i` on
unfoldable pub mark_bytes : ℕ → ℕ → List Bool → Result (List Bool)
mark_bytes zero i mapped = ok mapped
mark_bytes (suc count) i mapped =
    let rest = mark_bytes count (i + 1) (set mapped i true) in
    if get_or mapped i false
    then err (dictionary_error DictionaryErrorType.mapping_overlap)
    else rest

-- The checks of one mapping
unfoldable pub check_mapping : TransmitPdoMapping → Mapping → List Bool → Result (ℕ × List Bool)
check_mapping t m mapped = elim (find_name (escape m.entry_name) t.name_to_address) [
  | none ↦ err (dictionary_error DictionaryErrorType.unknown_entry)
  | some a ↦ elim (find_entry a t.dictionary) [
    | none ↦ err out_of_range
    | some e ↦
        let type_size = get_type_size e.type in
        elim (ltb 8 (m.offset + type_size)) [
          | true ↦ err (dictionary_error DictionaryErrorType.mapping_size)
          | false ↦ elim (mark_bytes type_size m.offset mapped) [
            | ok mapped' ↦ ok (type_size, mapped')
            | err x ↦ err x
          ]
        ]
  ]
]

unfoldable pub check_loop : TransmitPdoMapping → List Mapping → ℕ → List Bool → Result ℕ
check_loop t [] size mapped = ok size
check_loop t (m ∷ ms) size mapped = elim (check_mapping t m mapped) [
  | ok (type_size, mapped') ↦ check_loop t ms (size + type_size) mapped'
  | err x ↦ err x
]

unfoldable pub check_correctness : TransmitPdoMapping → Result (Unit {0})
check_correctness t = elim (check_loop t t.mappings 0 (replicate 8 false)) [
  | ok size ↦ if ltb 8 size then err (dictionary_error DictionaryErrorType.mapping_size) else ok tt
  | err x ↦ err x
]

-- `m_dictionary.at(m_name_to_address.at(entry_name)).get_value().get_bytes()`
unfoldable pub mapped_bytes : TransmitPdoMapping → Mapping → Result (List ℕ)
mapped_bytes t m = elim (find_name (escape m.entry_name) t.name_to_address) [
  | none ↦ err out_of_range
  | some a ↦ elim (find_entry a t.dictionary) [
    | none ↦ err out_of_range
    | some e ↦ elim (get_value e) [ ok v ↦ get_bytes v | err x ↦ err x ]
  ]
]

-- The loop of `send`, with `data` and `size`
unfoldable pub send_loop : TransmitPdoMapping → List Mapping → List ℕ → ℕ → Result (List ℕ × ℕ)
send_loop t [] array size = ok (array, size)
send_loop t (m ∷ ms) array size = elim (mapped_bytes t m) [
  | ok bytes ↦ elim (leb (m.offset + length bytes) 8) [
    | true ↦ send_loop t ms (fill bytes m.offset array) (max size (m.offset + length bytes))
    | false ↦ err assertion
  ]
  | err x ↦ err x
]

-- `stack` is what the message that `PDO::send` builds held before.
unfoldable pub send : List ℕ → TransmitPdoMapping → Exec Pdo (Unit {0})
send stack t pdo = elim (send_loop t t.mappings (replicate 8 0) 0) [
  | ok (array, size) ↦
      if leb size 8 then send_pdo stack t.cob_id (take size array) pdo else (err assertion, pdo)
  | err x ↦ (err x, pdo)
]
