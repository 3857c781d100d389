-- ===== src/EdsLibrary/Matching.antt =====
-- Choosing a manufacturer's EDS file (`load_manufacturer_eds` and its deprecated overload of
-- src/master/eds_library.cpp). The library holds references to the tables of a device: `Station` has
-- both, and `on_library` hands the tables over. boost's reader of the JSON file is a parameter, as is
-- the way a stream writes a float.
use kacanopen.Utils.{show_digits}
use kacanopen.Prelude.{
  ℕ, List, [], ◌∷◌, ◌++◌, Option, none, some, length, if◌then◌else◌, Bool, true, false, take,
}
use kacanopen.Prelude.{codes}
use kacanopen.Error.{
  ok, err, Error, canopen_error, sdo_error, dictionary_error, json_error, assertion,
}
use kacanopen.Exec.{◌>>=◌, Exec}
use kacanopen.Value.{Value, type_of, nothing, invalid}
use kacanopen.Value.Equality.{bytes_equal}
use kacanopen.Value.Printing.{print_value}
use kacanopen.Entry.{same_type, ReadAccessMethod}
use kacanopen.Device.{Device}
use kacanopen.Device.Access.{get_entry}
use kacanopen.Profiles.{find_key}
use kacanopen.EdsReader.{Tables, Ini}
use kacanopen.EdsLibrary.{EdsLibrary, cleared, load_path}

-- An element of the JSON file: the text of "file" and the fields of "match", if they are there
pub record EdsFile : Type 0 where
  pub file : Option (List ℕ)
  pub matches : Option (List (List ℕ × List ℕ))

-- `catch (const canopen_error& err)`, which catches the two classes derived from it
unfoldable pub is_canopen_error : Error → Bool
is_canopen_error canopen_error = true
is_canopen_error (sdo_error t) = true
is_canopen_error (dictionary_error t) = true
is_canopen_error _ = false

abbrev pub Cache : Type 0
Cache = List (List ℕ × Value)

-- Whether the device has the field, whose value is in the cache then. A new key stands first.
unfoldable pub look_up : List ℕ → Cache → Exec Device (Option Value × Cache)
look_up field cache d = elim (find_key field cache) [
  | some v ↦ (ok (if same_type (type_of v) invalid then none else some v, cache), d)
  | none ↦
      let (r, d') = get_entry field ReadAccessMethod.use_default d in
      elim r [
        | ok v ↦ (ok (some v, (field, v) ∷ cache), d')
        | err x ↦ elim (is_canopen_error x) [
          | true ↦ (ok (none, (field, nothing) ∷ cache), d')
          | false ↦ (err x, d')
        ]
      ]
]

module _ (show_real32 show_real64 : ℕ → List ℕ) where
  -- `value_expected == cache[field].to_string().substr(0, value_expected.length())`
  unfoldable pub fits_value : List ℕ → Option Value → Bool
  fits_value expected none = false
  fits_value expected (some v) =
      bytes_equal expected (take (length expected) (print_value show_real32 show_real64 v))

  -- The loop over the fields of a file
  unfoldable pub matches_all : List (List ℕ × List ℕ) → Cache → Exec Device (Bool × Cache)
  matches_all [] cache d = (ok (true, cache), d)
  matches_all ((field, expected) ∷ fields) cache d =
      let (r, d') = look_up field cache d in
      elim r [
        | err x ↦ (err x, d')
        | ok (found, cache') ↦ elim (fits_value expected found) [
          | true ↦ matches_all fields cache' d'
          | false ↦ (ok (false, cache'), d')
        ]
      ]

  -- The loop over the files, up to the one that fits
  unfoldable pub find_file : List EdsFile → Cache → Exec Device (Option (List ℕ))
  find_file [] cache d = (ok none, d)
  find_file (f ∷ files) cache d = elim f.file [
    | none ↦ (err json_error, d)
    | some filename ↦ elim f.matches [
      | none ↦ (err json_error, d)
      | some fields ↦
          let (r, d') = matches_all fields cache d in
          elim r [
            | err x ↦ (err x, d')
            | ok (fits, cache') ↦ elim fits [
              | true ↦ (ok (some filename), d')
              | false ↦ find_file files cache' d'
            ]
          ]
    ]
  ]

-- The members of `Config` that the library and the reader look at
pub record Settings : Type 0 where
  pub clear_dictionary : Bool
  pub just_add_mappings : Bool
  pub mark_as_generic : Bool

-- A device with its EDS library, and the settings
pub record Station : Type 0 where
  pub device : Device
  pub library : EdsLibrary
  pub settings : Settings

module _ {A : Type 0} where
  abbrev pub on_device : Exec Device A → Exec Station A
  on_device call s = let (r, d) = call s.device in (r, record s { device = d })

  -- The library works on the tables of the device.
  abbrev pub on_library : (Settings → Exec EdsLibrary A) → Exec Station A
  on_library call s =
      let held : Tables = record {
        dictionary = s.device.dictionary;
        name_to_address = s.device.name_to_address;
      } in
      let (r, l) = call s.settings (record s.library { tables = held }) in
      (
        r,
        record s {
          device = record s.device {
            dictionary = l.tables.dictionary;
            name_to_address = l.tables.name_to_address;
          };
          library = l;
        },
      )

module _ (exists : List ℕ → Bool) (read_ini : List ℕ → Option Ini) (fuel : ℕ) where
  -- The part of `load_manufacturer_eds` after a file fits
  unfoldable pub load_fitting : List ℕ → Settings → Exec EdsLibrary Bool
  load_fitting filename s l =
      let path = l.library_path ++ codes "/" ++ filename in
      elim (exists path) [
        | false ↦ (err assertion, l)
        | true ↦
            load_path exists read_ini s.clear_dictionary s.just_add_mappings s.mark_as_generic fuel
              path
              (cleared exists read_ini s.clear_dictionary s.just_add_mappings s.mark_as_generic fuel
                l)
      ]

  -- The file that is found is loaded.
  unfoldable pub load_found : Option (List ℕ) → Exec Station Bool
  load_found none s = (ok false, s)
  load_found (some filename) s = on_library (load_fitting filename) s

  -- `load_manufacturer_eds`
  module _ (read_json : List ℕ → Option (List EdsFile)) (show_real32 show_real64 : ℕ → List ℕ) where
    unfoldable pub load_manufacturer_eds : Exec Station Bool
    load_manufacturer_eds s = elim (read_json (s.library.library_path ++ codes "/eds_files.json")) [
      | none ↦ (err json_error, s)
      | some files ↦
          (do found ← on_device (find_file show_real32 show_real64 files []); load_found found) s
    ]

  -- The part of `load_manufacturer_eds_deprecated` after a file is found: the path is noted even where
  -- the file cannot be read.
  unfoldable pub load_noted : List ℕ → Settings → Exec EdsLibrary Bool
  load_noted path s l =
      let l' =
        cleared exists read_ini s.clear_dictionary s.just_add_mappings s.mark_as_generic fuel l in
      let (r, l'') =
        load_path exists read_ini s.clear_dictionary s.just_add_mappings s.mark_as_generic fuel path
          l' in
      (r, record l'' { most_recent_eds_file = path })

  -- `load_manufacturer_eds_deprecated(vendor_id, product_code, revision_number)`
  unfoldable pub load_manufacturer_eds_deprecated : ℕ → ℕ → ℕ → Settings → Exec EdsLibrary Bool
  load_manufacturer_eds_deprecated vendor_id product_code revision_number s l =
      let product =
        l.library_path
        ++ codes "/"
        ++ show_digits 10 vendor_id
        ++ codes "/"
        ++ show_digits 10 product_code in
      let revised = product ++ codes "." ++ show_digits 10 revision_number ++ codes ".eds" in
      let generic = product ++ codes ".eds" in
      elim l.ready [
        | false ↦ (err assertion, l)
        | true ↦ elim (exists revised) [
          | true ↦ load_noted revised s l
          | false ↦ elim (exists generic) [ true ↦ load_noted generic s l | false ↦ (ok false, l) ]
        ]
      ]
