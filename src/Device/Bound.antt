-- ===== src/Device/Bound.antt =====
-- The operations on PDO mappings, and received PDOs, keep a device sound.
use kacanopen.Prelude.{
  ℕ, ◌+◌, ◌≡◌, refl, ap, ◌∙◌, List, [], ◌∷◌, arith, Option, none, some, length, ltb, if◌then◌else◌,
  Bool, true, false, ◌⊎◌, inl, inr, Bool-cases, All,
}
use kacanopen.Prelude.{Option-cases}
use kacanopen.Error.{DictionaryErrorType, Result, ok, err, Error}
use kacanopen.Value.{get_type_size}
use kacanopen.Entry.{Entry, add_value_changed_callback}
use kacanopen.Dictionary.{Address, escape, find_name, find_entry}
use kacanopen.Transmit.{
  Mapping, TransmitPdoMapping, TransmissionType, on_change, periodic, check_correctness,
}
use kacanopen.Device.{
  out_of_range, dictionary_error, Device, ReceivePdoMapping, put_entry, entry_at, resolve,
  has_entry,
}
use kacanopen.Device.Mappings.{
  bind_mapping, add_receive_pdo_mapping, add_receive_pdo_function, at_or_insert,
  add_receive_pdo_mapping_at, watch_entries, add_transmit_pdo_mapping, name_mappings,
  add_transmit_pdo_mapping_at,
}
use kacanopen.Device.Entries.{IsNamed}
use kacanopen.Device.Soundness.{IsPlain, Fits, IsSound, AreSound-put_entry, All-found}

-- Binding a mapping that fits
bind_mapping-IsSound :
    (callback : ℕ) (m : ReceivePdoMapping) (d : Device)
    → Fits d.dictionary d.name_to_address m
    → IsSound d
    → IsSound (bind_mapping callback m d)
unfolding bind_mapping
bind_mapping-IsSound callback m d fits (consistent, plain, bound) =
    (consistent, plain, (fits, bound))

-- The endings of the methods that check the mapping's name and its size
resolve_cases :
    (name : List ℕ) (d : Device)
    → ((x : Error) × (resolve name d ≡ err x))
      ⊎ ((a : Address) × (resolve name d ≡ ok a)
          × (find_name (escape name) d.name_to_address ≡ some a))
unfolding resolve has_entry
resolve_cases name d = go (has_entry (escape name) d) (find_name (escape name) d.name_to_address)
  where
    go :
        (b : Bool) (o : Option Address)
        → let r = elim b as (λ x. Result Address) [
          | false ↦ err (dictionary_error DictionaryErrorType.unknown_entry)
          | true ↦ elim o as (λ x. Result Address) [ none ↦ err out_of_range | some a ↦ ok a ]
        ] in
          ((x : Error) × (r ≡ err x)) ⊎ ((a : Address) × (r ≡ ok a) × (o ≡ some a))
    go false o = inl (dictionary_error DictionaryErrorType.unknown_entry, refl)
    go true none = inl (out_of_range, refl)
    go true (some a) = inr (a, refl, refl)

pub add_receive_pdo_mapping-IsSound :
    (callback cob_id : ℕ) (name : List ℕ) (offset : ℕ) (d : Device)
    → IsSound d
    → IsSound (add_receive_pdo_mapping callback cob_id name offset d).1
unfolding add_receive_pdo_mapping entry_at
add_receive_pdo_mapping-IsSound callback cob_id name offset d h =
    elim (resolve_cases (escape name) d) [
      | inl (x, refused) ↦ rw (refused, add_receive_pdo_mapping) h
      | inr (a, leads, named) ↦ elim (Option-cases (find_entry a d.dictionary)) [
        | inl missing ↦ rw (leads, missing, add_receive_pdo_mapping, entry_at) h
        | inr (e, found) ↦ elim (Bool-cases (ltb 8 (offset + get_type_size e.type))) [
          | inl large ↦ rw (leads, found, large, add_receive_pdo_mapping, entry_at) h
          | inr small ↦
              let m : ReceivePdoMapping = record {
                cob_id = cob_id;
                entry_name = escape name;
                offset = offset;
              } in
              rw (leads, found, small, add_receive_pdo_mapping, entry_at)
                (bind_mapping-IsSound callback m d (a, e, named, found, ground arith) h)
        ]
      ]
    ]

-- A mapping with a function of the user's changes no table.
pub add_receive_pdo_function-IsSound :
    (callback cob_id : ℕ) (name : List ℕ) (offset : ℕ) (d : Device)
    → IsSound d
    → IsSound (add_receive_pdo_function callback cob_id name offset d).1
unfolding add_receive_pdo_function entry_at
add_receive_pdo_function-IsSound callback cob_id name offset d h =
    elim (resolve_cases (escape name) d) [
      | inl (x, refused) ↦ rw (refused, add_receive_pdo_function) h
      | inr (a, leads, named) ↦ elim (Option-cases (find_entry a d.dictionary)) [
        | inl missing ↦ rw (leads, missing, add_receive_pdo_function, entry_at) h
        | inr (e, found) ↦ elim (Bool-cases (ltb 8 (offset + get_type_size e.type))) [
          | inl large ↦ rw (leads, found, large, add_receive_pdo_function, entry_at) h
          | inr small ↦ rw (leads, found, small, add_receive_pdo_function, entry_at) h
        ]
      ]
    ]

at_or_insert_found :
    (a : Address) (e : Entry) (d : Device)
    → find_entry a d.dictionary ≡ some e
    → at_or_insert a d ≡ (e, d)
unfolding at_or_insert
at_or_insert_found a e d found = rw (found, at_or_insert) refl

-- The overload with an address, where an entry stands at the address
pub add_receive_pdo_mapping_at-IsSound :
    (callback cob_id : ℕ) (a : Address) (e : Entry) (offset : ℕ) (d : Device)
    → find_entry a d.dictionary ≡ some e
    → IsSound d
    → IsSound (add_receive_pdo_mapping_at callback cob_id a offset d).1
unfolding add_receive_pdo_mapping_at
add_receive_pdo_mapping_at-IsSound callback cob_id a e offset d found h =
    let ((led, named), plain, bound) = h in
    let (_, _, leads) = All-found (IsNamed d.name_to_address) a e d.dictionary found named in
    let (plain_name, _) = All-found IsPlain a e d.dictionary found plain in
    let m : ReceivePdoMapping = record { cob_id = cob_id; entry_name = e.name; offset = offset } in
    let run : add_receive_pdo_mapping_at callback cob_id a offset d ≡ (
        if ltb 8 (offset + get_type_size e.type)
        then (err (dictionary_error DictionaryErrorType.mapping_size), d)
        else (ok tt, bind_mapping callback m d)) =
      ap
        (λ (p : Entry × Device).
          let m : ReceivePdoMapping = record {
            cob_id = cob_id;
            entry_name = p.0.name;
            offset = offset;
          } in
          if ltb 8 (offset + get_type_size p.0.type)
          then (err (dictionary_error DictionaryErrorType.mapping_size), p.1)
          else (ok tt, bind_mapping callback m p.1))
        (at_or_insert_found a e d found) in
    elim (Bool-cases (ltb 8 (offset + get_type_size e.type))) [
      | inl large ↦ rw run (rw large h)
      | inr small ↦ rw run (
          rw small (
            bind_mapping-IsSound callback m d
              (
                a,
                e,
                ap (λ (n : List ℕ). find_name n d.name_to_address) plain_name ∙ leads,
                found,
                ground arith,
              )
              h))
    ]

watch_entries-IsSound :
    (callback : ℕ) (ms : List Mapping) (d : Device)
    → IsSound d
    → IsSound (watch_entries callback ms d).1
unfolding watch_entries add_value_changed_callback
watch_entries-IsSound callback [] d h = h
watch_entries-IsSound callback (m ∷ ms) d h =
    elim (Option-cases (find_name (escape m.entry_name) d.name_to_address)) [
      | inl lost ↦ rw (lost, watch_entries) h
      | inr (a, named) ↦ elim (Option-cases (find_entry a d.dictionary)) [
        | inl missing ↦ rw (named, missing, watch_entries) h
        | inr (e, found) ↦
            let e' = add_value_changed_callback callback e in
            rw (named, found, watch_entries)
              (watch_entries-IsSound callback ms
                (record d { dictionary = put_entry a e' d.dictionary })
                (AreSound-put_entry a e e' d.dictionary d.name_to_address d.bindings found
                  (refl, refl, refl, refl) (λ t. t) h))
      ]
    ]

pub add_transmit_pdo_mapping-IsSound :
    (cob_id : ℕ) (ms : List Mapping) (kind : TransmissionType) (repeat_time : ℕ) (d : Device)
    → IsSound d
    → IsSound (add_transmit_pdo_mapping cob_id ms kind repeat_time d).1
unfolding add_transmit_pdo_mapping
add_transmit_pdo_mapping-IsSound cob_id ms kind repeat_time d h =
    go
      (check_correctness (record {
        cob_id = cob_id;
        transmission_type = kind;
        repeat_time = repeat_time;
        mappings = ms;
        dictionary = d.dictionary;
        name_to_address = d.name_to_address;
      }))
      kind
  where
    go :
        (r : Result (Unit {0})) (k : TransmissionType)
        → let t : TransmitPdoMapping = record {
          cob_id = cob_id;
          transmission_type = kind;
          repeat_time = repeat_time;
          mappings = ms;
          dictionary = d.dictionary;
          name_to_address = d.name_to_address;
        } in
          let d' = record d { transmit_pdo_mappings = t ∷ d.transmit_pdo_mappings } in
          IsSound
            (elim r as (λ x. Result (Unit {0}) × Device) [
              | err x ↦ (err x, d)
              | ok _ ↦ elim k as (λ x. Result (Unit {0}) × Device) [
                | on_change ↦ watch_entries (length d.transmit_pdo_mappings) ms d'
                | periodic ↦ (ok tt, d')
              ]
            ]).1
    go (err x) k = h
    go (ok _) periodic = h
    go (ok _) on_change = watch_entries-IsSound (length d.transmit_pdo_mappings) ms _ h

-- The address of the mapping is that of an entry.
abbrev pub IsThere : Device → Address × ℕ → Type 0
IsThere d m = (e : Entry) × (find_entry m.0 d.dictionary ≡ some e)

name_mappings_found :
    (ms : List (Address × ℕ)) (d : Device)
    → All (IsThere d) ms
    → (named : List Mapping) × (name_mappings ms d ≡ (named, d))
unfolding name_mappings
name_mappings_found [] d there = ([], refl)
name_mappings_found ((a, offset) ∷ ms) d ((e, found), there) =
    let (named, rest) = name_mappings_found ms d there in
    let m : Mapping = record { entry_name = e.name; offset = offset } in
    (
      m ∷ named,
      ap
            (λ (p : Entry × Device).
              let (named', d') = name_mappings ms p.1 in
              ((record { entry_name = p.0.name; offset = offset }) ∷ named', d'))
            (at_or_insert_found a e d found)
          ∙ ap (λ (p : List Mapping × Device). (m ∷ p.0, p.1)) rest,
    )

pub add_transmit_pdo_mapping_at-IsSound :
    (cob_id : ℕ) (ms : List (Address × ℕ)) (kind : TransmissionType) (repeat_time : ℕ) (d : Device)
    → All (IsThere d) ms
    → IsSound d
    → IsSound (add_transmit_pdo_mapping_at cob_id ms kind repeat_time d).1
unfolding add_transmit_pdo_mapping_at
add_transmit_pdo_mapping_at-IsSound cob_id ms kind repeat_time d there h =
    let (named, run) = name_mappings_found ms d there in
    rw run (add_transmit_pdo_mapping-IsSound cob_id named kind repeat_time d h)
