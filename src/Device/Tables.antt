-- ===== src/Device/Tables.antt =====
-- The two tables of a device stay consistent.
use kacanopen.Prelude.{
  ℕ, ◌≡◌, refl, ap, sym, ◌∙◌, List, [], ◌∷◌, none, some, true, false, ◌⊎◌, inl, inr, All,
  Bool-cases, Option-cases,
}
use kacanopen.Error.{DictionaryErrorType, ok, err, canopen_error}
use kacanopen.Value.{ValueType}
use kacanopen.Entry.{Entry, AccessType, new_entry}
use kacanopen.Dictionary.{
  Address, NameTable, EntryTable, escape, address_equal, find_name, find_entry,
}
use kacanopen.Dictionary.Names.{escape-escape}
use kacanopen.Device.{
  dictionary_error, Device, has_entry, has_entry_at, resolve, entry_at, add_entry, put_entry,
}
use kacanopen.Device.Entries.{
  address_equal_refl, bytes_equal_refl, find_entry-put_entry, All-map, HasEntry, HasEntry, IsNamed,
  IsConsistent, HasEntry-cons, IsNamed-cons,
}

-- What `add_entry` does, by what the tables hold
pub add_entry_cases :
    (a : Address) (name : List ℕ) (t : ValueType) (access : AccessType) (d : Device)
    → let e = new_entry a.index a.subindex (escape name) t access in
      (add_entry a name t access d ≡ (err canopen_error, d))
      ⊎ ((find_name (escape name) d.name_to_address ≡ none)
          × (find_entry a d.dictionary ≡ none)
          × (add_entry a name t access d ≡ (
            ok tt,
            record d {
              dictionary = (a, e) ∷ d.dictionary;
              name_to_address = (escape name, a) ∷ d.name_to_address;
            },
          )))
unfolding add_entry has_entry_at
add_entry_cases a name t access d =
    elim (Option-cases (find_name (escape name) d.name_to_address)) [
      | inr (other, h) ↦ inl (rw (h, add_entry) refl)
      | inl fresh ↦ elim (Option-cases (find_entry a d.dictionary)) [
        | inr (other, h) ↦ inl (rw (fresh, h, add_entry, has_entry_at) refl)
        | inl free ↦ inr (fresh, free, rw (fresh, free, add_entry, has_entry_at) refl)
      ]
    ]

pub find_entry_self :
    (a : Address) (e : Entry) (entries : EntryTable) → find_entry a ((a, e) ∷ entries) ≡ some e
unfolding find_entry
find_entry_self a e entries = rw (address_equal_refl a, find_entry) refl

find_name_self :
    (n : List ℕ) (a : Address) (names : NameTable) → find_name n ((n, a) ∷ names) ≡ some a
unfolding find_name
find_name_self n a names = rw (bytes_equal_refl n, find_name) refl

-- A new entry under a new name
pub IsConsistent-cons :
    (a : Address) (e : Entry) (entries : EntryTable) (names : NameTable)
    → e.index ≡ a.index
    → e.subindex ≡ a.subindex
    → find_name e.name names ≡ none
    → IsConsistent entries names
    → IsConsistent ((a, e) ∷ entries) ((e.name, a) ∷ names)
IsConsistent-cons a e entries names i s fresh (led, named) = (
  (
    (e, find_entry_self a e entries),
    All-map (λ p. HasEntry entries p.1) (λ p. HasEntry ((a, e) ∷ entries) p.1)
        (λ p. HasEntry-cons a p.1 e entries) names led,
  ),
  (
    (i, s, find_name_self e.name a names),
    All-map (IsNamed names) (IsNamed ((e.name, a) ∷ names))
        (λ p. IsNamed-cons e.name a names p fresh) entries named,
  ),
)

-- Adding an entry keeps the tables consistent: every name leads to an entry, and every entry stands
-- at its own address, to which its name leads.
pub add_entry-IsConsistent :
    (a : Address) (name : List ℕ) (t : ValueType) (access : AccessType) (d : Device)
    → IsConsistent d.dictionary d.name_to_address
    → let d' = (add_entry a name t access d).1 in IsConsistent d'.dictionary d'.name_to_address
unfolding new_entry
add_entry-IsConsistent a name t access d consistent = elim (add_entry_cases a name t access d) [
  | inl kept ↦ rw kept consistent
  | inr (fresh, free, added) ↦ rw added (
      IsConsistent-cons a (new_entry a.index a.subindex (escape name) t access) d.dictionary
        d.name_to_address refl refl fresh consistent)
]

IsNamed-put_entry :
    (a : Address) (old e : Entry) (entries : EntryTable) (names : NameTable)
    → find_entry a entries ≡ some old
    → e.index ≡ old.index
    → e.subindex ≡ old.subindex
    → e.name ≡ old.name
    → All (IsNamed names) entries
    → All (IsNamed names) (put_entry a e entries)
unfolding put_entry find_entry
IsNamed-put_entry a old e [] names h i s n p = tt
IsNamed-put_entry a old e ((k, x) ∷ table) names h i s n ((i', s', n'), ps) =
    elim (Bool-cases (address_equal k a)) [
      | inl hit ↦
          let same : x ≡ old = some_injective (sym (rw (hit, find_entry) refl) ∙ h) in
          rw hit (
            (
              i ∙ (sym (ap (λ (y : Entry). y.index) same) ∙ i'),
              s ∙ (sym (ap (λ (y : Entry). y.subindex) same) ∙ s'),
              ap (λ (y : List ℕ). find_name y names) (n ∙ sym (ap (λ (y : Entry). y.name) same))
                  ∙ n',
            ),
            ps,
          )
      | inr miss ↦
          let later : find_entry a table ≡ some old = sym (rw (miss, find_entry) refl) ∙ h in
          rw miss ((i', s', n'), IsNamed-put_entry a old e table names later i s n ps)
    ]
  where
    some_injective : {y z : Entry} → some y ≡ some z → y ≡ z
    some_injective p = cc

-- An entry that is replaced by one of the same address and name
pub IsConsistent-put_entry :
    (a : Address) (old e : Entry) (entries : EntryTable) (names : NameTable)
    → find_entry a entries ≡ some old
    → e.index ≡ old.index
    → e.subindex ≡ old.subindex
    → e.name ≡ old.name
    → IsConsistent entries names
    → IsConsistent (put_entry a e entries) names
IsConsistent-put_entry a old e entries names found i s n (led, named) = (
  All-map (λ p. HasEntry entries p.1) (λ p. HasEntry (put_entry a e entries) p.1) (λ p. still p.1)
      names led,
  IsNamed-put_entry a old e entries names found i s n named,
)
  where
    still : (b : Address) → HasEntry entries b → HasEntry (put_entry a e entries) b
    still b (x, h) = elim (Bool-cases (address_equal a b)) [
      | inl hit ↦ (e, find_entry-put_entry a b old e entries found ∙ rw hit refl)
      | inr miss ↦ (x, find_entry-put_entry a b old e entries found ∙ rw miss h)
    ]

-- A name that leads to an entry
pub resolve_found :
    (name : List ℕ) (a : Address) (e : Entry) (d : Device)
    → find_name (escape name) d.name_to_address ≡ some a
    → find_entry a d.dictionary ≡ some e
    → (has_entry name d ≡ true) × (resolve name d ≡ ok a) × (entry_at a d ≡ ok e)
unfolding resolve has_entry has_entry_at entry_at
resolve_found name a e d named found =
    let twice : find_name (escape (escape name)) d.name_to_address ≡ some a =
      ap (λ (n : List ℕ). find_name n d.name_to_address) (escape-escape name) ∙ named in
    (
      rw (named, found, has_entry, has_entry_at) refl,
      rw (twice, found, named, resolve, has_entry, has_entry_at) refl,
      rw (found, entry_at) refl,
    )

-- A name leads to an entry, or looking it up throws `unknown_entry`.
pub resolve_total :
    (name : List ℕ) (d : Device)
    → (resolve name d ≡ err (dictionary_error DictionaryErrorType.unknown_entry))
      ⊎ ((a : Address) × (e : Entry) × (resolve name d ≡ ok a)
          × (find_entry a d.dictionary ≡ some e))
unfolding resolve has_entry has_entry_at
resolve_total name d =
    let twice : find_name (escape (escape name)) d.name_to_address
        ≡ find_name (escape name) d.name_to_address =
      ap (λ (n : List ℕ). find_name n d.name_to_address) (escape-escape name) in
    elim (Option-cases (find_name (escape name) d.name_to_address)) [
      | inl lost ↦ inl (rw (twice ∙ lost, resolve, has_entry) refl)
      | inr (a, named) ↦ elim (Option-cases (find_entry a d.dictionary)) [
        | inl missing ↦ inl (rw (twice ∙ named, missing, resolve, has_entry, has_entry_at) refl)
        | inr (e, found) ↦
            let (_, leads, _) = resolve_found name a e d named found in inr (a, e, leads, found)
      ]
    ]

-- `add_entry` either throws and changes nothing, or its name and its address were free, and its name
-- then leads to its address and that to a fresh entry of the given type under the escaped name.
pub add_entry_lem :
    (a : Address) (name : List ℕ) (t : ValueType) (access : AccessType) (d : Device)
    → let (r, d') = add_entry a name t access d in
      ((r ≡ err canopen_error) × (d' ≡ d))
      ⊎ ((r ≡ ok tt)
          × (has_entry name d ≡ false)
          × (has_entry_at a d ≡ false)
          × (has_entry name d' ≡ true)
          × (resolve name d' ≡ ok a)
          × (entry_at a d' ≡ ok (new_entry a.index a.subindex (escape name) t access)))
unfolding has_entry has_entry_at
add_entry_lem a name t access d = elim (add_entry_cases a name t access d) [
  | inl kept ↦ rw kept (inl (refl, refl))
  | inr (fresh, free, added) ↦
      let e = new_entry a.index a.subindex (escape name) t access in
      let (there, leads, stands) =
        resolve_found name a e
          (record d {
            dictionary = (a, e) ∷ d.dictionary;
            name_to_address = (escape name, a) ∷ d.name_to_address;
          })
          (find_name_self (escape name) a d.name_to_address) (find_entry_self a e d.dictionary) in
      rw added
        (inr (refl, rw (fresh, has_entry) refl, rw (free, has_entry_at) refl, there, leads, stands))
]
