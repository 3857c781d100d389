-- ===== src/EdsReader/Consistency.antt =====
-- Reading an EDS file keeps the tables consistent.
use kacanopen.Prelude.{
  ◌≡◌, refl, if_both, ◌==◌, ℕ, ◌%◌, ◌^◌, List, [], ◌∷◌, ◌++◌, length, if◌then◌else◌, Bool, true,
  false, ◌||◌, ◌&&◌, inl, inr, Bool-cases,
}
use kacanopen.Prelude.{Option-cases, codes}
use kacanopen.Error.{Result, ok, err}
use kacanopen.Exec.{Exec}
use kacanopen.Value.{invalid}
use kacanopen.Value.Equality.{bytes_equal}
use kacanopen.Entry.{same_type}
use kacanopen.Dictionary.{Address, escape}
use kacanopen.Utils.{hexstr_to_uint}
use kacanopen.EdsReader.{
  Tables, Ini, free_name, entry_of, store_var, parse_var, starts_with, match_sub, parse_subs,
  parse_array_or_record, parse_index, import_sections, import_entries, is_hex, get_field,
}
use kacanopen.EdsReader.Insertion.{AreConsistent, TableInvariant, consistency, free_name_lem}
use kacanopen.EdsReader.Naming.{free_name-escape, escape-member}
use kacanopen.Dictionary.Names.{escape-escape}
use kacanopen.Entry.{new_entry}

-- The call keeps the property, however it ends.
abbrev pub Keeps : TableInvariant → Exec Tables Bool → Type 0
Keeps K call = (t : Tables) → K.Of t → K.Of (call t).1

module _ (K : TableInvariant) (ini : Ini) (just_add_mappings mark_as_generic : Bool)
    (fuel : ℕ) where
  empty_entry :
      (section : List ℕ) (a : Address) (name : List ℕ)
      → (entry_of ini just_add_mappings mark_as_generic fuel section a name).m_valid ≡ false
  unfolding entry_of new_entry
  empty_entry section a name = refl

  store_var-Keeps :
      (section : List ℕ) (a : Address) (name : List ℕ) (t : Tables)
      → escape name ≡ name
      → K.Of t
      → K.Of (store_var ini just_add_mappings mark_as_generic fuel section a name t).1
  unfolding store_var
  store_var-Keeps section a name t escaped h =
      let e = entry_of ini just_add_mappings mark_as_generic fuel section a name in
      elim (Bool-cases (same_type e.type invalid)) [
        | inl unsupported ↦ rw (unsupported, store_var) h
        | inr supported ↦ elim (Bool-cases just_add_mappings) [
          | inl adds ↦ rw (supported, adds, store_var) (K.adds_name a name t h)
          | inr inserts ↦ elim (Option-cases (free_name fuel name t.name_to_address)) [
            | inl stuck ↦ rw (supported, inserts, stuck, store_var) h
            | inr (free, found) ↦
                rw (supported, inserts, found, store_var)
                  (K.inserts e free t (free_name_lem fuel name free t.name_to_address found)
                    (free_name-escape fuel name free t.name_to_address found escaped)
                    (empty_entry section a name) h)
          ]
        ]
      ]

  parse_var-Keeps :
      (section : List ℕ) (a : Address) (name_prefix : List ℕ)
      → escape name_prefix ≡ name_prefix
      → Keeps K (parse_var ini just_add_mappings mark_as_generic fuel section a name_prefix)
  unfolding parse_var
  parse_var-Keeps section a name_prefix prefixed t h =
      let own =
        escape
          (get_field ini just_add_mappings mark_as_generic fuel section (codes "ParameterName")) in
      let name = if length name_prefix == 0 then own else name_prefix ++ (47 ∷ own) in
      let escaped : escape own ≡ own =
        escape-escape
          (get_field ini just_add_mappings mark_as_generic fuel section (codes "ParameterName")) in
      elim (Bool-cases (length own == 0)) [
        | inl unnamed ↦ rw (unnamed, parse_var) h
        | inr named ↦
            rw (named, parse_var)
              (store_var-Keeps section a name t
                (if_both (λ (n : List ℕ). escape n ≡ n) (length name_prefix == 0) own
                  (name_prefix ++ (47 ∷ own)) escaped
                  (escape-member name_prefix own prefixed escaped))
                h)
      ]

  -- After one entry of an array, the rest of the loop
  after_sub :
      (r : Result Bool) (t : Tables) (rest : Exec Tables Bool)
      → K.Of t
      → Keeps K rest
      → K.Of
          (elim r as (λ x. Result Bool × Tables) [
            | ok true ↦ rest t
            | ok false ↦ (ok false, t)
            | err x ↦ (err x, t)
          ]).1
  after_sub (ok true) t rest h keeps = keeps t h
  after_sub (ok false) t rest h keeps = h
  after_sub (err x) t rest h keeps = h

  parse_subs-Keeps :
      (section : List ℕ) (index : ℕ) (array_name : List ℕ) (ss : List (List ℕ))
      → escape array_name ≡ array_name
      → Keeps K (parse_subs ini just_add_mappings mark_as_generic fuel section index array_name ss)
  unfolding parse_subs
  parse_subs-Keeps section index array_name [] named t h = h
  parse_subs-Keeps section index array_name (s ∷ rest) named t h =
      let later = parse_subs-Keeps section index array_name rest named in
      elim (Bool-cases (starts_with ini just_add_mappings mark_as_generic fuel s section)) [
        | inr other ↦ rw (other, parse_subs) (later t h)
        | inl member ↦
            elim (Option-cases (match_sub ini just_add_mappings mark_as_generic fuel s)) [
              | inl unmatched ↦ elim (Bool-cases (bytes_equal s section)) [
                | inl own ↦ rw (member, unmatched, own, parse_subs) (later t h)
                | inr malformed ↦ rw (member, unmatched, malformed, parse_subs) h
              ]
              | inr ((i, sub), matched) ↦ elim (Bool-cases (hexstr_to_uint i == index)) [
                | inr wrong ↦ rw (member, matched, wrong, parse_subs) h
                | inl right ↦
                    let a : Address = record {
                      index = index;
                      subindex = hexstr_to_uint sub % 2 ^ 8;
                    } in
                    let p = parse_var ini just_add_mappings mark_as_generic fuel s a array_name t in
                    rw (member, matched, right, parse_subs)
                      (after_sub p.0 p.1
                        (parse_subs ini just_add_mappings mark_as_generic fuel section index
                          array_name rest)
                        (parse_var-Keeps s a array_name named t h) later)
              ]
            ]
      ]

  parse_index-Keeps :
      (section : List ℕ) (index : ℕ)
      → Keeps K (parse_index ini just_add_mappings mark_as_generic fuel section index)
  unfolding parse_index parse_array_or_record escape
  parse_index-Keeps section index t h =
      let field = get_field ini just_add_mappings mark_as_generic fuel section in
      let object_type = field (codes "ObjectType") in
      let code = if length object_type == 0 then 7 else hexstr_to_uint object_type % 2 ^ 8 in
      let name = escape (field (codes "ParameterName")) in
      elim (Bool-cases (code == 7)) [
        | inl variable ↦
            rw (variable, parse_index)
              (parse_var-Keeps section (record { index = index; subindex = 0 }) [] refl t h)
        | inr other ↦ elim (Bool-cases ((code == 9) || (code == 8))) [
          | inr ignored ↦ rw (other, ignored, parse_index) h
          | inl group ↦ elim (Bool-cases (length name == 0)) [
            | inl unnamed ↦ rw (other, group, unnamed, parse_index, parse_array_or_record) h
            | inr named ↦
                rw (other, group, named, parse_index, parse_array_or_record)
                  (parse_subs-Keeps section index name ini.sections
                    (escape-escape (field (codes "ParameterName"))) t h)
          ]
        ]
      ]

  after_section :
      (r : Result Bool) (t : Tables) (rest : Bool → Exec Tables Bool)
      → K.Of t
      → ((b : Bool) → Keeps K (rest b))
      → K.Of
          (elim r as (λ x. Result Bool × Tables) [
            | ok parsed ↦ rest parsed t
            | err x ↦ (err x, t)
          ]).1
  after_section (ok parsed) t rest h keeps = keeps parsed t h
  after_section (err x) t rest h keeps = h

  import_sections-Keeps :
      (success : Bool) (ss : List (List ℕ))
      → Keeps K (import_sections ini just_add_mappings mark_as_generic fuel success ss)
  unfolding import_sections
  import_sections-Keeps success [] t h = h
  import_sections-Keeps success (s ∷ rest) t h = elim (Bool-cases (is_hex 4 s)) [
    | inr other ↦ rw (other, import_sections) (import_sections-Keeps success rest t h)
    | inl index ↦
        let p =
          parse_index ini just_add_mappings mark_as_generic fuel s (hexstr_to_uint s % 2 ^ 16) t in
        rw (index, import_sections)
          (after_section p.0 p.1
            (λ b. import_sections ini just_add_mappings mark_as_generic fuel (b && success) rest)
            (parse_index-Keeps s (hexstr_to_uint s % 2 ^ 16) t h)
            (λ b. import_sections-Keeps (b && success) rest))
  ]

  pub import_entries-Keeps : Keeps K (import_entries ini just_add_mappings mark_as_generic fuel)
  unfolding import_entries
  import_entries-Keeps t h = import_sections-Keeps true ini.sections t h

-- Importing an EDS file keeps the tables consistent, whatever the file says, with either setting of
-- the reader and however the import ends: every name leads to an entry, and every entry stands at
-- its own address, to which its name leads.
pub import_entries-AreConsistent :
    (ini : Ini) (just_add_mappings mark_as_generic : Bool) (fuel : ℕ) (t : Tables)
    → AreConsistent t
    → AreConsistent (import_entries ini just_add_mappings mark_as_generic fuel t).1
import_entries-AreConsistent ini just_add_mappings mark_as_generic fuel t h =
    import_entries-Keeps consistency ini just_add_mappings mark_as_generic fuel t h
