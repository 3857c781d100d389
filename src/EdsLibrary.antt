-- ===== src/EdsLibrary.antt =====
-- Loading EDS files from a library of them (include/kacanopen/master/eds_library.h,
-- src/master/eds_library.cpp). The file system, the package path of ROS, boost's reader of a file and
-- `parent_path` are parameters, and so are the settings. `load_manufacturer_eds` stands in
-- Matching.
pub mod Matching
pub mod Fitting
pub mod Choice
use kacanopen.Prelude.{
  ◌==◌, ℕ, List, [], ◌∷◌, ◌++◌, Option, none, some, length, if◌then◌else◌, Bool, true, false, inl,
  inr, Bool-cases, if_both,
}
use kacanopen.Prelude.{codes, Option-cases}
use kacanopen.Error.{Result, ok, err, assertion}
use kacanopen.Exec.{Exec}
use kacanopen.Utils.{show_digits}
use kacanopen.EdsReader.{Tables, Ini, import_entries}
use kacanopen.EdsReader.Insertion.{TableInvariant}
use kacanopen.EdsReader.Consistency.{import_entries-Keeps}

pub record EdsLibrary : Type 0 where
  pub tables : Tables
  pub library_path : List ℕ
  pub ready : Bool
  pub most_recent_eds_file : List ℕ

unfoldable pub empty_tables : Tables
empty_tables = record { dictionary = []; name_to_address = [] }

unfoldable pub reset_dictionary : EdsLibrary → EdsLibrary
reset_dictionary l = record l { tables = empty_tables }

module _ (exists : List ℕ → Bool) (parent_path : List ℕ → List ℕ) (package_path : List ℕ) where
  -- The loop over the paths
  unfoldable pub find_library : List (List ℕ) → EdsLibrary → Bool × EdsLibrary
  find_library [] l = (false, l)
  find_library (path ∷ paths) l =
      let rest = find_library paths l in
      if exists path
      then (true, record l { library_path = parent_path path; ready = true })
      else rest

  unfoldable pub lookup_library : List ℕ → EdsLibrary → Bool × EdsLibrary
  lookup_library path l =
      let own = if length path == 0 then [] else (path ++ codes "/eds_files.json") ∷ [] in
      let packaged = package_path ++ codes "/resources/eds_library/eds_files.json" in
      find_library
        (own
          ++ (packaged
              ∷ packaged
              ∷ codes "/usr/local/share/kacanopen/resources/eds_library/eds_files.json"
              ∷ codes "/usr/share/kacanopen/resources/eds_library/eds_files.json"
              ∷ []))
        (record l { ready = false })

module _ (exists : List ℕ → Bool) (read_ini : List ℕ → Option Ini)
    (clear_dictionary just_add_mappings mark_as_generic : Bool) (fuel : ℕ) where
  -- `reader.load_file(path)` and `reader.import_entries()`
  unfoldable pub load_path : List ℕ → Exec EdsLibrary Bool
  load_path path l = elim (read_ini path) [
    | none ↦ (ok false, l)
    | some ini ↦
        let (r, t) = import_entries ini just_add_mappings mark_as_generic fuel l.tables in
        elim r [
          | ok success ↦ (ok success, record l { tables = t; most_recent_eds_file = path })
          | err x ↦ (err x, record l { tables = t })
        ]
  ]

  unfoldable pub cleared : EdsLibrary → EdsLibrary
  cleared l = if clear_dictionary then reset_dictionary l else l

  unfoldable pub load_default_eds : ℕ → Exec EdsLibrary Bool
  load_default_eds device_profile_number l =
      let path =
        l.library_path
        ++ codes "/CiA_profiles/"
        ++ show_digits 5 device_profile_number
        ++ codes ".eds" in
      elim l.ready [
        | false ↦ (err assertion, l)
        | true ↦ elim (exists path) [ false ↦ (ok false, l) | true ↦ load_path path (cleared l) ]
      ]

  unfoldable pub load_mandatory_entries : Exec EdsLibrary Bool
  load_mandatory_entries = load_default_eds 301

  module _ (K : TableInvariant) where
    after_import :
        (r : Result Bool) (t : Tables) (path : List ℕ) (l : EdsLibrary)
        → K.Of t
        → K.Of
            (elim r as (λ x. Result Bool × EdsLibrary) [
              | ok success ↦ (ok success, record l { tables = t; most_recent_eds_file = path })
              | err x ↦ (err x, record l { tables = t })
            ]).1.tables
    after_import (ok success) t path l h = h
    after_import (err x) t path l h = h

    pub load_path-Keeps :
        (path : List ℕ) (l : EdsLibrary) → K.Of l.tables → K.Of (load_path path l).1.tables
    unfolding load_path
    load_path-Keeps path l h = elim (Option-cases (read_ini path)) [
      | inl unreadable ↦ rw (unreadable, load_path) h
      | inr (ini, found) ↦
          let p = import_entries ini just_add_mappings mark_as_generic fuel l.tables in
          rw (found, load_path)
            (after_import p.0 p.1 path l
              (import_entries-Keeps K ini just_add_mappings mark_as_generic fuel l.tables h))
    ]

    -- Loading the file of a profile keeps what the reader keeps, however it ends.
    pub load_default_eds-Keeps :
        (profile : ℕ) (l : EdsLibrary) → K.Of l.tables → K.Of (load_default_eds profile l).1.tables
    unfolding load_default_eds cleared reset_dictionary empty_tables
    load_default_eds-Keeps profile l h =
        let path =
          l.library_path ++ codes "/CiA_profiles/" ++ show_digits 5 profile ++ codes ".eds" in
        elim (Bool-cases l.ready) [
          | inr missing ↦ rw (missing, load_default_eds) h
          | inl present ↦ elim (Bool-cases (exists path)) [
            | inr absent ↦ rw (present, absent, load_default_eds) h
            | inl there ↦
                rw (present, there, load_default_eds)
                  (load_path-Keeps path (cleared l) (
                    if_both (λ (x : EdsLibrary). K.Of x.tables) clear_dictionary
                      (reset_dictionary l) l K.nothing_in h))
          ]
        ]
