-- ===== src/Dictionary.antt =====
-- The tables of a device's dictionary: names and addresses of entries (include/kacanopen/master/
-- address.h, `Utils::escape` of src/master/utils.cpp). Names are lists of character codes;
-- `tolower` is that of the C locale.
pub mod Names
use kacanopen.Prelude.{
  ◌==◌, ℕ, zero, suc, ◌+◌, ◌-◌, ◌*◌, ◌/◌, ◌%◌, ◌^◌, ◌≤◌, ◌<◌, ◌≡◌, ◌≢◌, refl, ap, sym, ◌∙◌, List,
  [], ◌∷◌, ◌++◌, map, arith, Option, none, some, length, bit_and, ltb, leb, not, if◌then◌else◌,
  Bool, true, false, ◌||◌, ◌&&◌, ◌⊎◌, inl, inr, get_or, set, take, drop, replicate, All, ◌↔◌,
  Bool-cases, if_apply, if_both,
}
use kacanopen.Value.Equality.{bytes_equal}
use kacanopen.Entry.{Entry}

pub to_lower : ℕ → ℕ
to_lower c = if leb 65 c && leb c 90 then c + 32 else c

-- `std::replace` on one character
pub replace : ℕ → ℕ → ℕ → ℕ
replace old new c = if c == old then new else c

-- `Utils::escape`: lower case, then ' ' and '-' become '_'.
unfoldable pub escape : List ℕ → List ℕ
unfolding to_lower replace
escape s = map (replace 45 95) (map (replace 32 95) (map to_lower s))

pub record Address : Type 0 where
  pub index : ℕ
  pub subindex : ℕ

-- `Address::operator==`
unfoldable pub address_equal : Address → Address → Bool
address_equal a b = (a.index == b.index) && (a.subindex == b.subindex)

abbrev pub NameTable : Type 0
NameTable = List (List ℕ × Address)

abbrev pub EntryTable : Type 0
EntryTable = List (Address × Entry)

unfoldable pub find_name : List ℕ → NameTable → Option Address
find_name s [] = none
find_name s ((n, a) ∷ table) =
    let rest = find_name s table in if bytes_equal n s then some a else rest

unfoldable pub find_entry : Address → EntryTable → Option Entry
unfolding address_equal
find_entry a [] = none
find_entry a ((k, e) ∷ table) =
    let rest = find_entry a table in if address_equal k a then some e else rest
