-- ===== src/EdsReader/Insertion.antt =====
-- What stays true of the tables when the reader inserts an entry or a name: their consistency, and more
-- where a device loads the file.
use kacanopen.Prelude.{
  ℕ, zero, suc, ◌≡◌, refl, ap, sym, ◌∙◌, List, [], ◌∷◌, false, none, some, ◌⊎◌, inl, inr,
  Bool-cases,
}
use kacanopen.Prelude.{Option-cases}
use kacanopen.Value.Equality.{bytes_equal}
use kacanopen.Entry.{Entry}
use kacanopen.Dictionary.{Address, NameTable, EntryTable, find_name, find_entry, escape}
use kacanopen.Device.Tables.{IsConsistent-cons}
use kacanopen.Device.Entries.{IsNamed, IsConsistent, IsNamed-cons, All-map}
use kacanopen.EdsReader.{Tables, free_name, next_name, insert_entry, add_mapping}

abbrev pub AreConsistent : Tables → Type 0
AreConsistent t = IsConsistent t.dictionary t.name_to_address

-- A free name for an entry that is there
pub IsConsistent-name :
    (a : Address) (e : Entry) (name : List ℕ) (entries : EntryTable) (names : NameTable)
    → find_entry a entries ≡ some e
    → find_name name names ≡ none
    → IsConsistent entries names
    → IsConsistent entries ((name, a) ∷ names)
IsConsistent-name a e name entries names found fresh (led, named) = (
  ((e, found), led),
  All-map (IsNamed names) (IsNamed ((name, a) ∷ names)) (λ p. IsNamed-cons name a names p fresh)
      entries named,
)

pub free_name_lem :
    (fuel : ℕ) (name free : List ℕ) (names : NameTable)
    → free_name fuel name names ≡ some free
    → find_name free names ≡ none
unfolding free_name
free_name_lem zero name free names h = absurd cc
free_name_lem (suc fuel) name free names h = elim (Option-cases (find_name name names)) [
  | inl absent ↦
      let same : name ≡ free = some_injective (sym (rw (absent, free_name) refl) ∙ h) in
      ap (λ (n : List ℕ). find_name n names) (sym same) ∙ absent
  | inr (a, taken) ↦
      free_name_lem fuel (next_name name) free names (sym (rw (taken, free_name) refl) ∙ h)
]
  where
    some_injective : {x y : List ℕ} → some x ≡ some y → x ≡ y
    some_injective p = cc

-- What `insert_entry` makes of the dictionary
pub insert_entry_cases :
    (e : Entry) (name : List ℕ) (t : Tables)
    → let a : Address = record { index = e.index; subindex = e.subindex } in
      ((other : Entry) × (find_entry a t.dictionary ≡ some other)
        × (insert_entry e name t ≡ record t { name_to_address = (name, a) ∷ t.name_to_address }))
      ⊎ ((find_entry a t.dictionary ≡ none)
          × (insert_entry e name t ≡ record {
            dictionary = (a, record e { name = name }) ∷ t.dictionary;
            name_to_address = (name, a) ∷ t.name_to_address;
          }))
unfolding insert_entry
insert_entry_cases e name t =
    let a : Address = record { index = e.index; subindex = e.subindex } in
    elim (Option-cases (find_entry a t.dictionary)) [
      | inr (other, there) ↦ inl (other, there, rw (there, insert_entry) refl)
      | inl absent ↦ inr (absent, rw (absent, insert_entry) refl)
    ]

pub insert_entry-AreConsistent :
    (e : Entry) (name : List ℕ) (t : Tables)
    → find_name name t.name_to_address ≡ none
    → AreConsistent t
    → AreConsistent (insert_entry e name t)
insert_entry-AreConsistent e name t fresh h =
    let a : Address = record { index = e.index; subindex = e.subindex } in
    elim (insert_entry_cases e name t) [
      | inl (other, there, run) ↦
          rw run (IsConsistent-name a other name t.dictionary t.name_to_address there fresh h)
      | inr (_, run) ↦ rw run (
          IsConsistent-cons a (record e { name = name }) t.dictionary t.name_to_address refl refl
            fresh h)
    ]

pub add_mapping-AreConsistent :
    (a : Address) (name : List ℕ) (t : Tables)
    → AreConsistent t
    → AreConsistent (add_mapping a name t)
unfolding add_mapping
add_mapping-AreConsistent a name t h = elim (Option-cases (find_entry a t.dictionary)) [
  | inl absent ↦ rw (absent, add_mapping) h
  | inr (e, there) ↦ elim (Bool-cases (bytes_equal e.name name)) [
    | inl same ↦ rw (there, same, add_mapping) h
    | inr differs ↦ elim (Option-cases (find_name name t.name_to_address)) [
      | inr (b, taken) ↦ rw (there, differs, taken, add_mapping) h
      | inl fresh ↦
          rw (there, differs, fresh, add_mapping)
            (IsConsistent-name a e name t.dictionary t.name_to_address there fresh h)
    ]
  ]
]

-- A name that is added leaves the entries alone.
pub add_mapping-dictionary :
    (a : Address) (name : List ℕ) (t : Tables) → (add_mapping a name t).dictionary ≡ t.dictionary
unfolding add_mapping
add_mapping-dictionary a name t = elim (Option-cases (find_entry a t.dictionary)) [
  | inl absent ↦ rw (absent, add_mapping) refl
  | inr (e, there) ↦ elim (Bool-cases (bytes_equal e.name name)) [
    | inl same ↦ rw (there, same, add_mapping) refl
    | inr differs ↦ elim (Option-cases (find_name name t.name_to_address)) [
      | inr (b, taken) ↦ rw (there, differs, taken, add_mapping) refl
      | inl fresh ↦ rw (there, differs, fresh, add_mapping) refl
    ]
  ]
]

-- A property of the tables that the reader keeps. The names that it inserts are free and escaped, and
-- its entries have no value.
pub record TableInvariant : Type 1 where
  pub Of : Tables → Type 0
  pub inserts :
      (e : Entry) (name : List ℕ) (t : Tables)
      → find_name name t.name_to_address ≡ none
      → escape name ≡ name
      → e.m_valid ≡ false
      → Of t
      → Of (insert_entry e name t)
  pub adds_name : (a : Address) (name : List ℕ) (t : Tables) → Of t → Of (add_mapping a name t)
  pub nothing_in : Of (record { dictionary = []; name_to_address = [] })

abbrev pub consistency : TableInvariant
consistency = record {
  Of = AreConsistent;
  inserts = λ e name t fresh escaped empty h. insert_entry-AreConsistent e name t fresh h;
  adds_name = add_mapping-AreConsistent;
  nothing_in = (tt, tt);
}
