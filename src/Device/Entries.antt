-- ===== src/Device/Entries.antt =====
-- Entries found and replaced, and what it means for the tables to be consistent.
use kacanopen.Prelude.{
  ℕ, ◌≡◌, refl, ap, sym, ◌∙◌, List, [], ◌∷◌, arith, none, some, if◌then◌else◌, true, inl, inr, All,
  Bool-cases,
}
use kacanopen.Value.Equality.{bytes_equal}
use kacanopen.Entry.{Entry}
use kacanopen.Entry.Changes.{bytes_equal_iff}
use kacanopen.Dictionary.{Address, NameTable, EntryTable, address_equal, find_name, find_entry}
use kacanopen.Device.{put_entry}

pub address_equal_refl : (a : Address) → address_equal a a ≡ true
unfolding address_equal
address_equal_refl a = ground arith

pub bytes_equal_refl : (s : List ℕ) → bytes_equal s s ≡ true
bytes_equal_refl s = (bytes_equal_iff s s).1 refl

-- An entry that is replaced is found in place of the one before; the others are as they were.
pub find_entry-put_entry :
    (a b : Address) (old e : Entry) (table : EntryTable)
    → find_entry a table ≡ some old
    → find_entry b (put_entry a e table)
      ≡ (if address_equal a b then some e else find_entry b table)
unfolding find_entry put_entry address_equal
find_entry-put_entry a b old e [] h = absurd cc
find_entry-put_entry a b old e ((k, x) ∷ table) h =
    ground (arith, find_entry-put_entry a b old e table)

module _ {ℓ κ} {A : Type ℓ} where
  pub All-map : (P Q : A → Type κ) → ((x : A) → P x → Q x) → (xs : List A) → All P xs → All Q xs
  All-map P Q f [] p = tt
  All-map P Q f (x ∷ xs) (p, ps) = (f x p, All-map P Q f xs ps)

-- The address is that of an entry.
abbrev pub HasEntry : EntryTable → Address → Type 0
HasEntry entries a = (e : Entry) × (find_entry a entries ≡ some e)

-- The entry stands at its own address, and its name leads there.
abbrev pub IsNamed : NameTable → Address × Entry → Type 0
IsNamed names (a, e) =
    (e.index ≡ a.index) × (e.subindex ≡ a.subindex) × (find_name e.name names ≡ some a)

abbrev pub IsConsistent : EntryTable → NameTable → Type 0
IsConsistent entries names =
    All (λ (p : List ℕ × Address). HasEntry entries p.1) names × All (IsNamed names) entries

pub HasEntry-cons :
    (a b : Address) (e : Entry) (entries : EntryTable)
    → HasEntry entries b
    → HasEntry ((a, e) ∷ entries) b
unfolding find_entry
HasEntry-cons a b e entries (x, h) = elim (Bool-cases (address_equal a b)) [
  | inl hit ↦ (e, rw (hit, find_entry) refl)
  | inr miss ↦ (x, rw (miss, find_entry) h)
]

pub IsNamed-cons :
    (n : List ℕ) (a : Address) (names : NameTable) (p : Address × Entry)
    → find_name n names ≡ none
    → IsNamed names p
    → IsNamed ((n, a) ∷ names) p
unfolding find_name
IsNamed-cons n a names (b, e) fresh (i, s, h) = (
  i,
  s,
  elim (Bool-cases (bytes_equal n e.name)) [
    | inl hit ↦
        let same : n ≡ e.name = (bytes_equal_iff n e.name).0 hit in
        let wrong : none ≡ some b = sym fresh ∙ (ap (λ (s : List ℕ). find_name s names) same ∙ h) in
        absurd cc
    | inr miss ↦ rw (miss, find_name) h
  ],
)
