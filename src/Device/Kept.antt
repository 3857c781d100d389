-- ===== src/Device/Kept.antt =====
-- The operations of a device that read and write its entries keep it sound.
use kacanopen.Prelude.{
  ap, ◌⊎◌, ℕ, ◌≡◌, refl, List, [], ◌∷◌, some, length, Bool, true, false, inl, inr, drop, Bool-cases,
  if_both,
}
use kacanopen.Prelude.{Option-cases}
use kacanopen.Error.{Result, ok, err, Error}
use kacanopen.Exec.{Exec, pure, continue_with, ◌>>◌}
use kacanopen.Value.{Value, ValueType}
use kacanopen.Entry.{Entry, AccessType, set_value, new_entry, ReadAccessMethod, WriteAccessMethod}
use kacanopen.Entry.Changes.{set_value_fixed}
use kacanopen.Dictionary.{Address, EntryTable, escape, find_entry}
use kacanopen.Dictionary.Names.{escape-escape}
use kacanopen.Pdo.{Pdo}
use kacanopen.Device.{Device, put_entry, entry_at, resolve, add_entry}
use kacanopen.Device.Tables.{add_entry_cases}
use kacanopen.Device.Callbacks.{call_back-OnlyPdo}
use kacanopen.Device.Access.{
  call_back, set_entry_value, cached_value, get_entry_at, get_entry, set_entry_at, set_entry,
  reads_via_sdo, writes_via_sdo, set_entry_via_sdo, get_entry_via_sdo, is_sdo_error, disable_entry,
  read_entries, read_complete_dictionary,
}
use kacanopen.Device.Writes.{send_written, set_entry_at_cases, cached_value_same}
use kacanopen.Device.Soundness.{
  IsTyped, IsSound, AreSound-put_entry, AreSound-cons, set_value-IsTyped,
}

pub IsSound-continue_with :
    {A B : Type 0} (r : Result A) (k : A → Exec Device B) (d : Device)
    → IsSound d
    → ((a : A) → IsSound (k a d).1)
    → IsSound (continue_with r k d).1
IsSound-continue_with (ok a) k d h keep = keep a
IsSound-continue_with (err x) k d h keep = h

-- Adding an entry
pub add_entry-IsSound :
    (a : Address) (name : List ℕ) (t : ValueType) (access : AccessType) (d : Device)
    → IsSound d
    → IsSound (add_entry a name t access d).1
unfolding new_entry
add_entry-IsSound a name t access d h = elim (add_entry_cases a name t access d) [
  | inl kept ↦ rw kept h
  | inr (fresh, free, added) ↦ rw added (
      AreSound-cons a (new_entry a.index a.subindex (escape name) t access) d.dictionary
        d.name_to_address d.bindings (refl, refl) (escape-escape name) refl fresh free h)
]

-- What replaces the entry where a value is stored
abbrev pub Replaces : Entry → Entry → Type 0
Replaces e e' =
    ((e'.index ≡ e.index) × (e'.subindex ≡ e.subindex) × (e'.name ≡ e.name) × (e'.type ≡ e.type))
    × (IsTyped e → IsTyped e')

-- Storing a value either throws at once, or it replaces the entry, and the callbacks change nothing
-- but the PDO component.
pub set_entry_value_cases :
    (a : Address) (e : Entry) (v : Value) (d : Device)
    → ((x : Error) × (set_entry_value a e v d ≡ (err x, d)))
      ⊎ ((e' : Entry) × (r : Result (Unit {0})) × (p : Pdo) × Replaces e e'
          × (set_entry_value a e v d
              ≡ (r, record d { dictionary = put_entry a e' d.dictionary; pdo = p })))
unfolding set_entry_value
set_entry_value_cases a e v d =
    go (set_value v e).0 (set_value v e).1 (set_value_fixed e v, set_value-IsTyped v e)
  where
    go :
        (r : Result (Unit {0})) (e' : Entry)
        → Replaces e e'
        → let out = elim r as (λ x. Result (Unit {0}) × Device) [
          | ok _ ↦
              call_back
                (drop (length e.calls) e'.calls)
                (record d { dictionary = put_entry a e' d.dictionary })
          | err x ↦ (err x, d)
        ] in
          ((x : Error) × (out ≡ (err x, d)))
          ⊎ ((f : Entry) × (s : Result (Unit {0})) × (p : Pdo) × Replaces e f
              × (out ≡ (s, record d { dictionary = put_entry a f d.dictionary; pdo = p })))
    go (err x) e' fixed = inl (x, refl)
    go (ok _) e' fixed =
        let cs = drop (length e.calls) e'.calls in
        let d1 = record d { dictionary = put_entry a e' d.dictionary } in
        inr (
          e',
          (call_back cs d1).0,
          (call_back cs d1).1.pdo,
          fixed,
          ap (λ (x : Device). ((call_back cs d1).0, x)) (call_back-OnlyPdo cs d1),
        )

-- Storing a value in the entry that stands at the address
pub set_entry_value-IsSound :
    (a : Address) (e : Entry) (v : Value) (d : Device)
    → find_entry a d.dictionary ≡ some e
    → IsSound d
    → IsSound (set_entry_value a e v d).1
set_entry_value-IsSound a e v d found h = elim (set_entry_value_cases a e v d) [
  | inl (x, run) ↦ rw run h
  | inr (e', r, p, (fixed, typed), run) ↦
      rw run
        (AreSound-put_entry a e e' d.dictionary d.name_to_address d.bindings found fixed typed h)
]

pub set_entry_at-IsSound :
    (a : Address) (v : Value) (access : WriteAccessMethod) (d : Device)
    → IsSound d
    → IsSound (set_entry_at a v access d).1
unfolding set_entry_at entry_at set_entry_via_sdo
set_entry_at-IsSound a v access d h = elim (Option-cases (find_entry a d.dictionary)) [
  | inl missing ↦ rw (missing, set_entry_at, entry_at) h
  | inr (e, found) ↦ elim (set_entry_at_cases a e v access d found) [
    | inl wrong ↦ rw wrong h
    | inr (_, run) ↦
        let h' = set_entry_value-IsSound a e v d found h in
        rw run (
          IsSound-continue_with (set_entry_value a e v d).0 (λ _. send_written access e v)
            (set_entry_value a e v d).1 h'
            (λ _.
              if_both
                (λ (call : Exec Device (Unit {0})). IsSound (call (set_entry_value a e v d).1).1)
                (writes_via_sdo access e)
                (set_entry_via_sdo (record { index = e.index; subindex = e.subindex }) v) (pure tt)
                h' h'))
  ]
]

pub get_entry_at-IsSound :
    (a : Address) (access : ReadAccessMethod) (d : Device)
    → IsSound d
    → IsSound (get_entry_at a access d).1
unfolding get_entry_at get_entry_via_sdo entry_at
get_entry_at-IsSound a access d h = elim (Option-cases (find_entry a d.dictionary)) [
  | inl missing ↦ rw (missing, get_entry_at, entry_at) h
  | inr (e, found) ↦ elim (Bool-cases (reads_via_sdo access e)) [
    | inr cached ↦ rw (found, cached, get_entry_at, entry_at) (rw (cached_value_same a d) h)
    | inl asked ↦
        let at : Address = record { index = e.index; subindex = e.subindex } in
        let d1 = (get_entry_via_sdo at e.type d).1 in
        rw (found, asked, get_entry_at, entry_at)
          (IsSound-continue_with (get_entry_via_sdo at e.type d).0
            (λ v. set_entry_value a e v >> cached_value a) d1 h
            (λ v.
              let h' = set_entry_value-IsSound a e v d1 found h in
              IsSound-continue_with (set_entry_value a e v d1).0 (λ _. cached_value a)
                (set_entry_value a e v d1).1 h'
                (λ _. rw (cached_value_same a (set_entry_value a e v d1).1) h')))
  ]
]

-- A method that takes a name calls the one that takes the address, or throws.
pub resolved-IsSound :
    {A : Type 0} (r : Result Address) (call : Address → Exec Device A) (d : Device)
    → IsSound d
    → ((a : Address) → IsSound (call a d).1)
    → IsSound (elim r as (λ x. Result A × Device) [ ok a ↦ call a d | err x ↦ (err x, d) ]).1
resolved-IsSound (ok a) call d h keep = keep a
resolved-IsSound (err x) call d h keep = h

pub set_entry-IsSound :
    (name : List ℕ) (v : Value) (access : WriteAccessMethod) (d : Device)
    → IsSound d
    → IsSound (set_entry name v access d).1
unfolding set_entry
set_entry-IsSound name v access d h =
    resolved-IsSound (resolve name d) (λ a. set_entry_at a v access) d h
      (λ a. set_entry_at-IsSound a v access d h)

pub get_entry-IsSound :
    (name : List ℕ) (access : ReadAccessMethod) (d : Device)
    → IsSound d
    → IsSound (get_entry name access d).1
unfolding get_entry
get_entry-IsSound name access d h =
    resolved-IsSound (resolve name d) (λ a. get_entry_at a access) d h
      (λ a. get_entry_at-IsSound a access d h)

disable_entry-IsSound : (a : Address) (d : Device) → IsSound d → IsSound (disable_entry a d)
unfolding disable_entry
disable_entry-IsSound a d h = elim (Option-cases (find_entry a d.dictionary)) [
  | inl missing ↦ rw (missing, disable_entry) h
  | inr (e, found) ↦
      rw (found, disable_entry)
        (AreSound-put_entry a e (record e { disabled = true }) d.dictionary d.name_to_address
          d.bindings found (refl, refl, refl, refl) (λ t. t) h)
]

module _ (a : Address) (rest : EntryTable)
    (keep : (d : Device) → IsSound d → IsSound (read_entries rest d).1) where
  IsSound-read_on :
      (b : Bool) (x : Error) (d : Device)
      → IsSound d
      → IsSound
          (elim b as (λ y. Result (Unit {0}) × Device) [
            | true ↦ read_entries rest (disable_entry a d)
            | false ↦ (err x, d)
          ]).1
  IsSound-read_on true x d h = keep (disable_entry a d) (disable_entry-IsSound a d h)
  IsSound-read_on false x d h = h

  IsSound-read_rest :
      (r : Result Value) (d : Device)
      → IsSound d
      → IsSound
          (elim r as (λ x. Result (Unit {0}) × Device) [
            | ok v ↦ read_entries rest d
            | err x ↦ elim (is_sdo_error x) [
              | true ↦ read_entries rest (disable_entry a d)
              | false ↦ (err x, d)
            ]
          ]).1
  IsSound-read_rest (ok v) d h = keep d h
  IsSound-read_rest (err x) d h = IsSound-read_on (is_sdo_error x) x d h

read_entries-IsSound :
    (entries : EntryTable) (d : Device) → IsSound d → IsSound (read_entries entries d).1
unfolding read_entries
read_entries-IsSound [] d h = h
read_entries-IsSound ((a, e) ∷ rest) d h =
    IsSound-read_rest a rest (read_entries-IsSound rest)
      (get_entry e.name ReadAccessMethod.use_default d).0
      (get_entry e.name ReadAccessMethod.use_default d).1
      (get_entry-IsSound e.name ReadAccessMethod.use_default d h)

pub read_complete_dictionary-IsSound :
    (d : Device) → IsSound d → IsSound (read_complete_dictionary d).1
unfolding read_complete_dictionary
read_complete_dictionary-IsSound d h = read_entries-IsSound d.dictionary d h
