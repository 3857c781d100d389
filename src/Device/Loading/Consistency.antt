-- ===== src/Device/Loading/Consistency.antt =====
-- Loading the files of the standard, or a given file, keeps the tables of a device as they are to be.
use kacanopen.Prelude.{ℕ, List, Option, none, some, Bool, true, false, inl, inr, Bool-cases}
use kacanopen.Prelude.{codes}
use kacanopen.Error.{Result, ok, err, canopen_error}
use kacanopen.Exec.{◌>>=◌, ◌>>◌}
use kacanopen.Value.{uint32}
use kacanopen.Entry.{read_only}
use kacanopen.Device.{has_entry_at}
use kacanopen.Profiles.{get_device_profile_number}
use kacanopen.EdsReader.{Tables, Ini, import_entries}
use kacanopen.EdsReader.Consistency.{import_entries-Keeps}
use kacanopen.EdsLibrary.{
  EdsLibrary, reset_dictionary, empty_tables, load_default_eds, load_mandatory_entries,
  load_default_eds-Keeps,
}
use kacanopen.EdsLibrary.Matching.{Settings, on_device, on_library}
use kacanopen.Device.Loading.{
  set_clear, set_just_add, set_mark, load_default, load_mandatory, require, load_cia_dictionary,
  import_file, add_device_type, add_standard_names, load_dictionary_from_eds, load_mandatory_unless,
  load_profile, device_type,
}
use kacanopen.Device.Loading.Searching.{
  DeviceInvariant, KeepsDevice, KeepsStation, KeepsStation-bind, KeepsStation-then, on_device-Keeps,
  on_library-Keeps, get_device_profile_number-Holds,
}

module _ (D : DeviceInvariant) (exists : List ℕ → Bool) (read_ini : List ℕ → Option Ini)
    (fuel : ℕ) where
  pub load_default-Holds :
      (profile : ℕ) → KeepsStation D (load_default exists read_ini fuel profile)
  unfolding load_default
  load_default-Holds profile =
      on_library-Keeps D
        (λ t.
          load_default_eds exists read_ini t.clear_dictionary t.just_add_mappings t.mark_as_generic
            fuel profile)
        (λ t.
          load_default_eds-Keeps exists read_ini t.clear_dictionary t.just_add_mappings
            t.mark_as_generic fuel D.tables profile)

  pub load_mandatory-Holds : KeepsStation D (load_mandatory exists read_ini fuel)
  unfolding load_mandatory load_mandatory_entries
  load_mandatory-Holds =
      on_library-Keeps D
        (λ t.
          load_mandatory_entries exists read_ini t.clear_dictionary t.just_add_mappings
            t.mark_as_generic fuel)
        (λ t.
          load_default_eds-Keeps exists read_ini t.clear_dictionary t.just_add_mappings
            t.mark_as_generic fuel D.tables 301)

  pub require-Holds : (b : Bool) → KeepsStation D (require exists read_ini fuel b)
  require-Holds true s h = h
  require-Holds false s h = h

  load_mandatory_unless-Holds :
      (loaded : Bool) → KeepsStation D (load_mandatory_unless exists read_ini fuel loaded)
  unfolding load_mandatory_unless
  load_mandatory_unless-Holds true = λ s h. h
  load_mandatory_unless-Holds false =
      KeepsStation-then D (set_clear false)
        (load_mandatory exists read_ini fuel >>= require exists read_ini fuel) (λ s h. h)
        (KeepsStation-bind D (load_mandatory exists read_ini fuel) (require exists read_ini fuel)
          load_mandatory-Holds require-Holds)

  pub load_cia_dictionary-Holds : KeepsStation D (load_cia_dictionary exists read_ini fuel)
  unfolding load_cia_dictionary load_profile
  load_cia_dictionary-Holds =
      let unless = load_mandatory_unless exists read_ini fuel in
      let loading = λ (profile : ℕ). load_default exists read_ini fuel profile >>= unless in
      KeepsStation-then D (set_mark true) (load_profile exists read_ini fuel >> set_mark false)
        (λ s h. h)
        (KeepsStation-then D (load_profile exists read_ini fuel) (set_mark false)
          (KeepsStation-bind D (on_device get_device_profile_number) loading
            (on_device-Keeps D get_device_profile_number (get_device_profile_number-Holds D))
            (λ profile.
              KeepsStation-bind D (load_default exists read_ini fuel profile) unless
                (load_default-Holds profile) load_mandatory_unless-Holds))
          (λ s h. h))

  import_file-Holds :
      (path : List ℕ) (t : Settings) (l : EdsLibrary)
      → D.tables.Of l.tables
      → D.tables.Of (import_file exists read_ini fuel path t l).1.tables
  unfolding import_file
  import_file-Holds path t l h = read (read_ini path)
    where
      after :
          (r : Result Bool) (u : Tables)
          → D.tables.Of u
          → D.tables.Of
              (elim r as (λ x. Result (Unit {0}) × EdsLibrary) [
                | ok success ↦ elim success as (λ x. Result (Unit {0}) × EdsLibrary) [
                  | true ↦ (ok tt, record l { tables = u })
                  | false ↦ (err canopen_error, record l { tables = u })
                ]
                | err x ↦ (err x, record l { tables = u })
              ]).1.tables
      after (ok true) u k = k
      after (ok false) u k = k
      after (err x) u k = k

      read :
          (o : Option Ini)
          → D.tables.Of
              (elim o as (λ x. Result (Unit {0}) × EdsLibrary) [
                | none ↦ (err canopen_error, l)
                | some ini ↦
                    let (r, u) =
                      import_entries ini t.just_add_mappings t.mark_as_generic fuel l.tables in
                    elim r as (λ x. Result (Unit {0}) × EdsLibrary) [
                      | ok success ↦ elim success as (λ x. Result (Unit {0}) × EdsLibrary) [
                        | true ↦ (ok tt, record l { tables = u })
                        | false ↦ (err canopen_error, record l { tables = u })
                      ]
                      | err x ↦ (err x, record l { tables = u })
                    ]
              ]).1.tables
      read none = h
      read (some ini) =
          let p = import_entries ini t.just_add_mappings t.mark_as_generic fuel l.tables in
          after p.0 p.1 (
            import_entries-Keeps D.tables ini t.just_add_mappings t.mark_as_generic fuel l.tables h)

  add_device_type-Holds : KeepsDevice D (add_device_type exists read_ini fuel)
  unfolding add_device_type
  add_device_type-Holds d h = elim (Bool-cases (has_entry_at device_type d)) [
    | inl there ↦ rw (there, add_device_type) h
    | inr missing ↦
        rw (missing, add_device_type)
          (D.adds device_type (codes "device_type") uint32 read_only d h)
  ]

  add_standard_names-Holds : KeepsStation D (add_standard_names exists read_ini fuel)
  unfolding add_standard_names
  add_standard_names-Holds s h =
      let cia = load_cia_dictionary exists read_ini fuel >> set_just_add false in
      let names = set_just_add true >> cia in
      elim (Bool-cases s.library.ready) [
        | inr missing ↦ rw (missing, add_standard_names) h
        | inl ready ↦
            rw (ready, add_standard_names)
              (KeepsStation-then D (on_device (add_device_type exists read_ini fuel)) names
                (on_device-Keeps D (add_device_type exists read_ini fuel) add_device_type-Holds)
                (KeepsStation-then D (set_just_add true) cia (λ t k. k)
                  (KeepsStation-then D (load_cia_dictionary exists read_ini fuel)
                    (set_just_add false) load_cia_dictionary-Holds (λ t k. k)))
                s h)
      ]

  pub load_dictionary_from_eds-Holds :
      (path : List ℕ) → KeepsStation D (load_dictionary_from_eds exists read_ini fuel path)
  unfolding load_dictionary_from_eds reset_dictionary empty_tables
  load_dictionary_from_eds-Holds path =
      let standard = add_standard_names exists read_ini fuel in
      let import = on_library (import_file exists read_ini fuel path) >> standard in
      KeepsStation-then D (on_library (λ t l. (ok tt, reset_dictionary l)))
        (set_just_add false >> (set_mark false >> import))
        (λ s h. D.closes s.device empty_tables h D.tables.nothing_in)
        (KeepsStation-then D (set_just_add false) (set_mark false >> import) (λ s h. h)
          (KeepsStation-then D (set_mark false) import (λ s h. h)
            (KeepsStation-then D (on_library (import_file exists read_ini fuel path)) standard
              (on_library-Keeps D (import_file exists read_ini fuel path) (import_file-Holds path))
              add_standard_names-Holds)))
