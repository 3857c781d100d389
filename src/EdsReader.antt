-- ===== src/EdsReader.antt =====
-- Reading an EDS file into the tables of a device (include/kacanopen/master/eds_reader.h,
-- src/master/eds_reader.cpp). The property tree of boost, which parses the file, is a parameter: its
-- sections in their order and the text of a field, empty if it is missing. The settings of `Config`
-- that the reader looks at are parameters too. Names have no line breaks.
pub mod Naming
pub mod Insertion
pub mod Consistency
mod Runs
use kacanopen.Prelude.{
  ◌==◌, ℕ, zero, suc, ◌+◌, ◌/◌, ◌%◌, ◌^◌, List, [], ◌∷◌, ◌++◌, Option, none, some, length, ltb, leb,
  if◌then◌else◌, Bool, true, false, ◌||◌, ◌&&◌, drop,
}
use kacanopen.Prelude.{codes}
use kacanopen.Error.{ok, err, assertion, out_of_fuel}
use kacanopen.Exec.{Exec}
use kacanopen.Value.{invalid}
use kacanopen.Value.Equality.{bytes_equal}
use kacanopen.Entry.{Entry, new_entry, same_type}
use kacanopen.Dictionary.{Address, NameTable, EntryTable, escape, find_name, find_entry}
use kacanopen.Utils.{
  type_code_to_type, string_to_access_type, hexstr_to_uint, decstr_to_uint, is_digit_of,
  skip_spaces,
}

-- `m_dictionary` and `m_name_to_address`
pub record Tables : Type 0 where
  pub dictionary : EntryTable
  pub name_to_address : NameTable

-- `boost::property_tree::ptree`, as the reader uses it
pub record Ini : Type 0 where
  pub sections : List (List ℕ)
  pub field : List ℕ → List ℕ → List ℕ

unfoldable pub cut_comment : List ℕ → List ℕ
cut_comment [] = []
cut_comment (c ∷ cs) = let rest = cut_comment cs in if c == 35 then [] else c ∷ rest

unfoldable pub reverse_onto : List ℕ → List ℕ → List ℕ
reverse_onto [] acc = acc
reverse_onto (c ∷ cs) acc = reverse_onto cs (c ∷ acc)

-- `EDSReader::trim`
unfoldable pub trim : List ℕ → List ℕ
trim str = reverse_onto (skip_spaces (reverse_onto (skip_spaces (cut_comment str)) [])) []

unfoldable pub all_of : (ℕ → Bool) → List ℕ → Bool
all_of test [] = true
all_of test (c ∷ cs) = test c && all_of test cs

-- `[[:xdigit:]]{1,most}`
unfoldable pub is_hex : ℕ → List ℕ → Bool
is_hex most s = leb 1 (length s) && (leb (length s) most && all_of (is_digit_of 16) s)

-- What stands before and after the last occurrence of a character
unfoldable pub split_last : ℕ → List ℕ → Option (List ℕ × List ℕ)
split_last mark [] = none
split_last mark (c ∷ cs) = elim (split_last mark cs) [
  | some (before, after) ↦ some (c ∷ before, after)
  | none ↦ if c == mark then some ([], cs) else none
]

-- `std::to_string` of a byte
unfoldable pub show_byte : ℕ → List ℕ
show_byte n =
    if ltb n 10
    then (48 + n) ∷ []
    else if ltb n 100
    then (48 + n / 10) ∷ (48 + n % 10) ∷ []
    else (48 + n / 100) ∷ (48 + n / 10 % 10) ∷ (48 + n % 10) ∷ []

-- The name that is tried next: the counter at its end is increased, or "_1" is added.
unfoldable pub next_name : List ℕ → List ℕ
next_name name = elim (split_last 95 name) [
  | none ↦ name ++ codes "_1"
  | some (before, after) ↦
      if leb 1 (length before) && is_hex 3 after
      then before ++ (95 ∷ show_byte ((decstr_to_uint after % 2 ^ 8 + 1) % 2 ^ 8))
      else name ++ codes "_1"
]

-- `while (m_name_to_address.count(var_name) > 0)`, on fuel: the counter is a byte, so the loop need
-- not end.
pub free_name : ℕ → List ℕ → NameTable → Option (List ℕ)
free_name zero name names = none
free_name (suc fuel) name names = elim (find_name name names) [
  | none ↦ some name
  | some a ↦ free_name fuel (next_name name) names
]

-- The branch that inserts an entry; `insert` leaves an entry at the address alone.
pub insert_entry : Entry → List ℕ → Tables → Tables
insert_entry e name t =
    let a : Address = record { index = e.index; subindex = e.subindex } in
    record {
      dictionary = elim (find_entry a t.dictionary) [
        | some other ↦ t.dictionary
        | none ↦ (a, record e { name = name }) ∷ t.dictionary
      ];
      name_to_address = (name, a) ∷ t.name_to_address;
    }

-- The branch that only adds names
pub add_mapping : Address → List ℕ → Tables → Tables
add_mapping a name t = elim (find_entry a t.dictionary) [
  | none ↦ t
  | some e ↦ elim (bytes_equal e.name name) [
    | true ↦ t
    | false ↦ elim (find_name name t.name_to_address) [
      | some other ↦ t
      | none ↦ record t { name_to_address = (name, a) ∷ t.name_to_address }
    ]
  ]
]

module _ (ini : Ini) (just_add_mappings mark_as_generic : Bool) (fuel : ℕ) where
  -- `trim(m_ini.get(section + "." + name, ""))`
  pub get_field : List ℕ → List ℕ → List ℕ
  get_field section name = trim (ini.field section name)

  -- The entry that `parse_var` makes
  pub entry_of : List ℕ → Address → List ℕ → Entry
  entry_of section a name =
      let t = type_code_to_type (hexstr_to_uint (get_field section (codes "DataType")) % 2 ^ 16) in
      let access = string_to_access_type (get_field section (codes "AccessType")) in
      record (new_entry a.index a.subindex name t access) { is_generic = mark_as_generic }

  -- The part of `parse_var` that has the name
  pub store_var : List ℕ → Address → List ℕ → Exec Tables Bool
  store_var section a name t =
      let e = entry_of section a name in
      elim (same_type e.type invalid) [
        | true ↦ (ok true, t)
        | false ↦ elim just_add_mappings [
          | true ↦ (ok true, add_mapping a name t)
          | false ↦ elim (free_name fuel name t.name_to_address) [
            | some free ↦ (ok true, insert_entry e free t)
            | none ↦ (err out_of_fuel, t)
          ]
        ]
      ]

  pub parse_var : List ℕ → Address → List ℕ → Exec Tables Bool
  parse_var section a name_prefix t =
      let own = escape (get_field section (codes "ParameterName")) in
      let name = if length name_prefix == 0 then own else name_prefix ++ (47 ∷ own) in
      elim (length own == 0) [ true ↦ (ok false, t) | false ↦ store_var section a name t ]

  pub starts_with : List ℕ → List ℕ → Bool
  starts_with s [] = true
  starts_with [] (c ∷ cs) = false
  starts_with (d ∷ ds) (c ∷ cs) = (d == c) && starts_with ds cs

  -- `([[:xdigit:]]{1,4})sub([[:xdigit:]]{1,2})`: the part before and after the last 's'
  pub match_sub : List ℕ → Option (List ℕ × List ℕ)
  match_sub name = elim (split_last 115 name) [
    | none ↦ none
    | some (before, after) ↦
        if is_hex 4 before && (starts_with after (codes "ub") && is_hex 2 (drop 2 after))
        then some (before, drop 2 after)
        else none
  ]

  -- The loop of `parse_array_or_record`
  pub parse_subs : List ℕ → ℕ → List ℕ → List (List ℕ) → Exec Tables Bool
  parse_subs section index array_name [] t = (ok true, t)
  parse_subs section index array_name (s ∷ rest) t = elim (starts_with s section) [
    | false ↦ parse_subs section index array_name rest t
    | true ↦ elim (match_sub s) [
      | some (i, sub) ↦ elim (hexstr_to_uint i == index) [
        | false ↦ (err assertion, t)
        | true ↦
            let (r, t') =
              parse_var s (record { index = index; subindex = hexstr_to_uint sub % 2 ^ 8 })
                array_name t in
            elim r [
              | ok true ↦ parse_subs section index array_name rest t'
              | ok false ↦ (ok false, t')
              | err x ↦ (err x, t')
            ]
      ]
      | none ↦ elim (bytes_equal s section) [
        | true ↦ parse_subs section index array_name rest t
        | false ↦ (ok false, t)
      ]
    ]
  ]

  pub parse_array_or_record : List ℕ → ℕ → Exec Tables Bool
  parse_array_or_record section index t =
      let array_name = escape (get_field section (codes "ParameterName")) in
      elim (length array_name == 0) [
        | true ↦ (ok false, t)
        | false ↦ parse_subs section index array_name ini.sections t
      ]

  -- `ObjectType::VAR` is 7, `ARRAY` 8 and `RECORD` 9.
  pub parse_index : List ℕ → ℕ → Exec Tables Bool
  parse_index section index t =
      let str_object_type = get_field section (codes "ObjectType") in
      let object_code =
        if length str_object_type == 0 then 7 else hexstr_to_uint str_object_type % 2 ^ 8 in
      elim (object_code == 7) [
        | true ↦ parse_var section (record { index = index; subindex = 0 }) [] t
        | false ↦ elim ((object_code == 9) || (object_code == 8)) [
          | true ↦ parse_array_or_record section index t
          | false ↦ (ok true, t)
        ]
      ]

  -- The loop of `import_entries`
  pub import_sections : Bool → List (List ℕ) → Exec Tables Bool
  import_sections success [] t = (ok success, t)
  import_sections success (s ∷ rest) t = elim (is_hex 4 s) [
    | false ↦ import_sections success rest t
    | true ↦
        let (r, t') = parse_index s (hexstr_to_uint s % 2 ^ 16) t in
        elim r [ ok parsed ↦ import_sections (parsed && success) rest t' | err x ↦ (err x, t') ]
  ]

  pub import_entries : Exec Tables Bool
  import_entries t = import_sections true ini.sections t
