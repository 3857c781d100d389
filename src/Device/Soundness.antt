-- ===== src/Device/Soundness.antt =====
-- What holds of the tables and the receive mappings of a device: the types of the values, the names,
-- and what the mappings lead to.
use kacanopen.Prelude.{
  ℕ, ◌+◌, ◌≤◌, ◌≡◌, refl, ap, sym, ◌∙◌, List, [], ◌∷◌, arith, none, some, Bool, true, false, ◌⊎◌,
  inl, inr, All, Bool-cases,
}
use kacanopen.Error.{Result, ok, err}
use kacanopen.Value.{Value, type_of, get_type_size}
use kacanopen.Value.Equality.{bytes_equal}
use kacanopen.Entry.{Entry, set_value, store, value_changed, same_type}
use kacanopen.Entry.Changes.{same_type_sound, bytes_equal_iff}
use kacanopen.Dictionary.{
  Address, NameTable, EntryTable, escape, find_name, find_entry, address_equal,
}
use kacanopen.Device.{Device, ReceivePdoMapping, put_entry}
use kacanopen.Device.Entries.{find_entry-put_entry, All-map, IsConsistent}
use kacanopen.Device.Tables.{IsConsistent-put_entry, IsConsistent-cons}

-- A valid value has the type of its entry.
abbrev pub IsTyped : Entry → Type 0
IsTyped e = (e.m_valid ≡ false) ⊎ (type_of e.m_value ≡ e.type)

-- The entry's name is an escaped one, and its value has its type.
abbrev pub IsPlain : Address × Entry → Type 0
IsPlain (a, e) = (escape e.name ≡ e.name) × IsTyped e

-- The mapping's name leads to an entry, which lies within the eight bytes of a PDO.
abbrev pub Fits : EntryTable → NameTable → ReceivePdoMapping → Type 0
Fits entries names m =
    (a : Address) × (e : Entry) × (find_name (escape m.entry_name) names ≡ some a)
    × (find_entry a entries ≡ some e)
    × (m.offset + get_type_size e.type ≤ 8)

abbrev pub AreSound : EntryTable → NameTable → List (ℕ × ReceivePdoMapping) → Type 0
AreSound entries names bindings =
    IsConsistent entries names
    × All IsPlain entries
    × All (λ (b : ℕ × ReceivePdoMapping). Fits entries names b.1) bindings

-- The tables are consistent, the values have the types of their entries, and each bound receive
-- mapping leads to an entry that fits.
abbrev pub IsSound : Device → Type 0
IsSound d = AreSound d.dictionary d.name_to_address d.bindings

pub some_injective : {A : Type 0} {y z : A} → some y ≡ some z → y ≡ z
some_injective p = cc

pub address_equal_sound : (k a : Address) → address_equal k a ≡ true → k ≡ a
unfolding address_equal
address_equal_sound k a h =
    let index : k.index ≡ a.index = ground arith in
    let subindex : k.subindex ≡ a.subindex = ground arith in
    λ i. record { index = index i; subindex = subindex i }

-- An entry that is found is an element.
pub All-found :
    (P : Address × Entry → Type 0) (a : Address) (e : Entry) (entries : EntryTable)
    → find_entry a entries ≡ some e
    → All P entries
    → P (a, e)
unfolding find_entry
All-found P a e [] h p = absurd cc
All-found P a e ((k, x) ∷ table) h (p, ps) = elim (Bool-cases (address_equal k a)) [
  | inl hit ↦
      let here : x ≡ e = some_injective (sym (rw (hit, find_entry) refl) ∙ h) in
      rw (sym (address_equal_sound k a hit), sym here) p
  | inr miss ↦ All-found P a e table (sym (rw (miss, find_entry) refl) ∙ h) ps
]

-- A property that the new entry has when the one before has it
pub All-put_entry :
    (P : Address × Entry → Type 0) (a : Address) (old e : Entry) (entries : EntryTable)
    → ((k : Address) → P (k, old) → P (k, e))
    → find_entry a entries ≡ some old
    → All P entries
    → All P (put_entry a e entries)
unfolding put_entry find_entry
All-put_entry P a old e [] f h p = tt
All-put_entry P a old e ((k, x) ∷ table) f h (p, ps) = elim (Bool-cases (address_equal k a)) [
  | inl hit ↦
      let here : x ≡ old = some_injective (sym (rw (hit, find_entry) refl) ∙ h) in
      rw hit (f k (rw (sym here) p), ps)
  | inr miss ↦
      rw miss (p, All-put_entry P a old e table f (sym (rw (miss, find_entry) refl) ∙ h) ps)
]

Fits-put_entry :
    (a : Address) (old e : Entry) (entries : EntryTable) (names : NameTable) (m : ReceivePdoMapping)
    → find_entry a entries ≡ some old
    → e.type ≡ old.type
    → Fits entries names m
    → Fits (put_entry a e entries) names m
Fits-put_entry a old e entries names m found t (b, x, named, there, fits) =
    elim (Bool-cases (address_equal a b)) [
      | inr miss ↦ (b, x, named, find_entry-put_entry a b old e entries found ∙ rw miss there, fits)
      | inl hit ↦
          let here : x ≡ old = some_injective (
            sym there
            ∙ ap (λ k. find_entry k entries) (sym (address_equal_sound a b hit))
            ∙ found) in
          let size : get_type_size e.type ≡ get_type_size x.type =
            ap get_type_size (t ∙ ap (λ (y : Entry). y.type) (sym here)) in
          (b, e, named, find_entry-put_entry a b old e entries found ∙ rw hit refl, rw size fits)
    ]

-- An entry that is replaced by one of the same address, name and type
pub AreSound-put_entry :
    (a : Address) (old e : Entry) (entries : EntryTable) (names : NameTable)
    (bindings : List (ℕ × ReceivePdoMapping))
    → find_entry a entries ≡ some old
    → (e.index ≡ old.index)
      × (e.subindex ≡ old.subindex)
      × (e.name ≡ old.name)
      × (e.type ≡ old.type)
    → (IsTyped old → IsTyped e)
    → AreSound entries names bindings
    → AreSound (put_entry a e entries) names bindings
AreSound-put_entry a old e entries names bindings found (i, s, n, t) typed
      (consistent, plain, bound) =
    (
      IsConsistent-put_entry a old e entries names found i s n consistent,
      All-put_entry IsPlain a old e entries
          (λ k (plain_name, h). (ap escape n ∙ plain_name ∙ sym n, typed h)) found plain,
      All-map (λ b. Fits entries names b.1) (λ b. Fits (put_entry a e entries) names b.1)
          (λ b. Fits-put_entry a old e entries names b.1 found t) bindings bound,
    )

Fits-cons :
    (a : Address) (e : Entry) (entries : EntryTable) (names : NameTable) (m : ReceivePdoMapping)
    → find_name e.name names ≡ none
    → find_entry a entries ≡ none
    → Fits entries names m
    → Fits ((a, e) ∷ entries) ((e.name, a) ∷ names) m
unfolding find_name find_entry
Fits-cons a e entries names m fresh free (b, x, named, there, fits) = (
  b,
  x,
  elim (Bool-cases (bytes_equal e.name (escape m.entry_name))) [
    | inr miss ↦ rw (miss, find_name) named
    | inl hit ↦
        let same : e.name ≡ escape m.entry_name =
          (bytes_equal_iff e.name (escape m.entry_name)).0 hit in
        let wrong : none ≡ some b =
          sym fresh ∙ ap (λ (s : List ℕ). find_name s names) same ∙ named in
        absurd cc
  ],
  elim (Bool-cases (address_equal a b)) [
    | inr miss ↦ rw (miss, find_entry) there
    | inl hit ↦
        let wrong : none ≡ some x =
          sym free ∙ ap (λ k. find_entry k entries) (address_equal_sound a b hit) ∙ there in
        absurd cc
  ],
  fits,
)

-- A new entry under a new name, without a value
pub AreSound-cons :
    (a : Address) (e : Entry) (entries : EntryTable) (names : NameTable)
    (bindings : List (ℕ × ReceivePdoMapping))
    → (e.index ≡ a.index) × (e.subindex ≡ a.subindex)
    → escape e.name ≡ e.name
    → e.m_valid ≡ false
    → find_name e.name names ≡ none
    → find_entry a entries ≡ none
    → AreSound entries names bindings
    → AreSound ((a, e) ∷ entries) ((e.name, a) ∷ names) bindings
AreSound-cons a e entries names bindings (i, s) plain_name empty fresh free
      (consistent, plain, bound) =
    (
      IsConsistent-cons a e entries names i s fresh consistent,
      ((plain_name, inl empty), plain),
      All-map (λ b. Fits entries names b.1) (λ b. Fits ((a, e) ∷ entries) ((e.name, a) ∷ names) b.1)
          (λ b. Fits-cons a e entries names b.1 fresh free) bindings bound,
    )

-- `Entry::set_value` stores only values of the entry's type.
pub set_value-IsTyped : (v : Value) (e : Entry) → IsTyped e → IsTyped (set_value v e).1
unfolding set_value store
set_value-IsTyped v e h = elim (Bool-cases (same_type (type_of v) e.type)) [
  | inr other ↦ rw (other, set_value) h
  | inl alike ↦
      rw (alike, set_value) (go (same_type_sound (type_of v) e.type alike) (value_changed e v))
]
  where
    go :
        type_of v ≡ e.type
        → (r : Result Bool)
        → IsTyped
            (elim r as (λ x. Result (Unit {0}) × Entry) [
              | ok changed ↦ (ok tt, store v changed e)
              | err x ↦ (err x, e)
            ]).1
    go typed (ok changed) = inr typed
    go typed (err x) = h
