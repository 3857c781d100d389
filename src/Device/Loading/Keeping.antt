-- ===== src/Device/Loading/Keeping.antt =====
-- What starting a device and loading its dictionary keep of it.
use kacanopen.Prelude.{
  ℕ, ◌≡◌, refl, List, [], ◌∷◌, ◌++◌, Option, none, some, Bool, true, false, inl, inr, Bool-cases,
  if_both,
}
use kacanopen.Prelude.{codes}
use kacanopen.Error.{Result, ok, err, json_error}
use kacanopen.Exec.{Exec, pure, ◌>>=◌, ◌>>◌}
use kacanopen.Value.{Value}
use kacanopen.Nmt.{send_nmt_message, start_node}
use kacanopen.Device.{Device, Operation}
use kacanopen.Profiles.{
  get_device_profile_number, load_operations, load_constants, profile_operations, profile_constants,
  insert_all,
}
use kacanopen.EdsReader.{Ini}
use kacanopen.EdsLibrary.{
  EdsLibrary, reset_dictionary, empty_tables, find_library, lookup_library, load_path-Keeps,
  cleared,
}
use kacanopen.EdsLibrary.Matching.{
  EdsFile, Settings, Station, on_device, find_file, load_fitting, load_found, load_manufacturer_eds,
}
use kacanopen.Device.Loading.{
  set_clear, set_just_add, load_mandatory, require, load_cia_dictionary, load_dictionary_from_eds,
  load_standard, noted_path, choose_path, load_rest, load_dictionary_from_library, look_up_library,
  load_default_eds_files, start,
}
use kacanopen.Device.Loading.Searching.{
  DeviceInvariant, KeepsDevice, KeepsStation, KeepsDevice-bind, KeepsStation-bind,
  KeepsStation-then, on_device-Keeps, on_library-Keeps, get_device_profile_number-Holds,
  find_file-Holds,
}
use kacanopen.Device.Loading.Consistency.{
  load_mandatory-Holds, require-Holds, load_cia_dictionary-Holds, load_dictionary_from_eds-Holds,
}

module _ (D : DeviceInvariant) where
  load_operations-Holds : KeepsDevice D load_operations
  unfolding load_operations
  load_operations-Holds =
      KeepsDevice-bind D get_device_profile_number
        (λ profile d. elim (profile_operations profile) [
          | some table ↦ (ok true, record d { operations = insert_all table d.operations })
          | none ↦ (ok false, d)
        ])
        (get_device_profile_number-Holds D) (λ profile. go (profile_operations profile))
    where
      go :
          (o : Option (List (List ℕ × Operation))) (d : Device)
          → D.Of d
          → D.Of
              (elim o as (λ x. Result Bool × Device) [
                | some table ↦ (ok true, record d { operations = insert_all table d.operations })
                | none ↦ (ok false, d)
              ]).1
      go none d h = h
      go (some table) d h = D.learns (insert_all table d.operations) d.constants d.nmt d h

  load_constants-Holds : KeepsDevice D load_constants
  unfolding load_constants
  load_constants-Holds =
      KeepsDevice-bind D get_device_profile_number
        (λ profile d. elim (profile_constants profile) [
          | some table ↦ (ok true, record d { constants = insert_all table d.constants })
          | none ↦ (ok false, d)
        ])
        (get_device_profile_number-Holds D) (λ profile. go (profile_constants profile))
    where
      go :
          (o : Option (List (List ℕ × Value))) (d : Device)
          → D.Of d
          → D.Of
              (elim o as (λ x. Result Bool × Device) [
                | some table ↦ (ok true, record d { constants = insert_all table d.constants })
                | none ↦ (ok false, d)
              ]).1
      go none d h = h
      go (some table) d h = D.learns d.operations (insert_all table d.constants) d.nmt d h

  module _ (exists : List ℕ → Bool) (read_ini : List ℕ → Option Ini) (fuel : ℕ) where
    load_fitting-Holds :
        (filename : List ℕ) (t : Settings) (l : EdsLibrary)
        → D.tables.Of l.tables
        → D.tables.Of (load_fitting exists read_ini fuel filename t l).1.tables
    unfolding load_fitting cleared reset_dictionary empty_tables
    load_fitting-Holds filename t l h =
        let path = l.library_path ++ codes "/" ++ filename in
        elim (Bool-cases (exists path)) [
          | inr absent ↦ rw (absent, load_fitting) h
          | inl there ↦
              rw (there, load_fitting)
                (load_path-Keeps exists read_ini t.clear_dictionary t.just_add_mappings
                  t.mark_as_generic fuel D.tables path _
                  (if_both (λ (x : EdsLibrary). D.tables.Of x.tables) t.clear_dictionary
                    (reset_dictionary l) l D.tables.nothing_in h))
        ]

    load_found-Holds : (o : Option (List ℕ)) → KeepsStation D (load_found exists read_ini fuel o)
    unfolding load_found
    load_found-Holds none s h = h
    load_found-Holds (some filename) s h =
        on_library-Keeps D (load_fitting exists read_ini fuel filename)
          (load_fitting-Holds filename) s h

    load_standard-Holds :
        (success : Bool) (noted : List ℕ)
        → KeepsStation D (load_standard exists read_ini fuel success noted)
    unfolding load_standard choose_path
    load_standard-Holds success noted =
        let cia = load_cia_dictionary exists read_ini fuel in
        let choose = choose_path exists read_ini fuel noted in
        KeepsStation-then D (set_just_add success) (cia >> choose) (λ s h. h)
          (KeepsStation-then D cia choose (load_cia_dictionary-Holds D exists read_ini fuel)
            (λ s h. h))

    noted_path-Holds : (b : Bool) → KeepsStation D (noted_path exists read_ini fuel b)
    unfolding noted_path
    noted_path-Holds true s h = h
    noted_path-Holds false s h = h

    load_rest-Holds : (success : Bool) → KeepsStation D (load_rest exists read_ini fuel success)
    unfolding load_rest
    load_rest-Holds success =
        let noted = noted_path exists read_ini fuel success in
        let standard = load_standard exists read_ini fuel success in
        KeepsStation-then D (set_clear false) (noted >>= standard) (λ s h. h)
          (KeepsStation-bind D noted standard (noted_path-Holds success)
            (load_standard-Holds success))

    module _ (read_json : List ℕ → Option (List EdsFile))
        (show_real32 show_real64 : ℕ → List ℕ) where
      load_manufacturer_eds-Holds :
          KeepsStation D
            (load_manufacturer_eds exists read_ini fuel read_json show_real32 show_real64)
      unfolding load_manufacturer_eds
      load_manufacturer_eds-Holds s h =
          go (read_json (s.library.library_path ++ codes "/eds_files.json"))
        where
          go :
              (o : Option (List EdsFile))
              → D.Of
                  (elim o as (λ x. Result Bool × Station) [
                    | none ↦ (err json_error, s)
                    | some files ↦
                        (do
                          found ← on_device (find_file show_real32 show_real64 files [])
                          load_found exists read_ini fuel found)
                          s
                  ]).1.device
          go none = h
          go (some files) =
              KeepsStation-bind D (on_device (find_file show_real32 show_real64 files []))
                (load_found exists read_ini fuel)
                (on_device-Keeps D (find_file show_real32 show_real64 files [])
                  (find_file-Holds D show_real32 show_real64 files []))
                load_found-Holds s h

      load_dictionary_from_library-Holds :
          KeepsStation D
            (load_dictionary_from_library exists read_ini fuel read_json show_real32 show_real64)
      unfolding load_dictionary_from_library
      load_dictionary_from_library-Holds s h =
          let manufacturer =
            load_manufacturer_eds exists read_ini fuel read_json show_real32 show_real64 in
          let rest = load_rest exists read_ini fuel in
          elim (Bool-cases s.library.ready) [
            | inr missing ↦ rw (missing, load_dictionary_from_library) h
            | inl ready ↦
                rw (ready, load_dictionary_from_library)
                  (KeepsStation-then D (set_clear true) (manufacturer >>= rest) (λ t k. k)
                    (KeepsStation-bind D manufacturer rest load_manufacturer_eds-Holds
                      load_rest-Holds)
                    s h)
          ]

      module _ (parent_path : List ℕ → List ℕ) (package_path : List ℕ) where
        find_library-tables :
            (paths : List (List ℕ)) (l : EdsLibrary)
            → (find_library exists parent_path package_path paths l).1.tables ≡ l.tables
        unfolding find_library
        find_library-tables [] l = refl
        find_library-tables (path ∷ paths) l = elim (Bool-cases (exists path)) [
          | inl there ↦ rw (there, find_library) refl
          | inr absent ↦ rw (absent, find_library) (find_library-tables paths l)
        ]

        look_up_library-Holds :
            KeepsStation D (look_up_library exists read_ini fuel parent_path package_path)
        unfolding look_up_library lookup_library
        look_up_library-Holds =
            on_library-Keeps D
              (λ t l.
                let (found, l') = lookup_library exists parent_path package_path [] l in
                (ok found, l'))
              (λ t l h. rw (find_library-tables _ (record l { ready = false })) h)

        pub load_default_eds_files-Holds :
            KeepsStation D (load_default_eds_files exists read_ini fuel parent_path package_path)
        unfolding load_default_eds_files
        load_default_eds_files-Holds =
            let required = require exists read_ini fuel in
            let mandatory = load_mandatory exists read_ini fuel >>= required in
            let looks = look_up_library exists read_ini fuel parent_path package_path in
            KeepsStation-bind D looks (λ b. required b >> mandatory) look_up_library-Holds
              (λ b.
                KeepsStation-then D (required b) mandatory (require-Holds D exists read_ini fuel b)
                  (KeepsStation-bind D (load_mandatory exists read_ini fuel) required
                    (load_mandatory-Holds D exists read_ini fuel)
                    (require-Holds D exists read_ini fuel)))

        start-Holds : KeepsStation D (start exists read_ini fuel parent_path package_path)
        unfolding start
        start-Holds =
            let sends : Exec Device (Unit {0}) =
              λ d. (ok tt, record d { nmt = send_nmt_message d.node_id start_node d.nmt }) in
            let defaults = load_default_eds_files exists read_ini fuel parent_path package_path in
            let constants = on_device load_constants >> pure tt in
            KeepsStation-then D (on_device sends)
              (defaults >> (on_device load_operations >> constants))
              (λ s h.
                D.learns s.device.operations s.device.constants
                  (send_nmt_message s.device.node_id start_node s.device.nmt) s.device h)
              (KeepsStation-then D defaults (on_device load_operations >> constants)
                load_default_eds_files-Holds
                (KeepsStation-then D (on_device load_operations) constants
                  (on_device-Keeps D load_operations load_operations-Holds)
                  (KeepsStation-then D (on_device load_constants) (pure tt)
                    (on_device-Keeps D load_constants load_constants-Holds) (λ s h. h))))

        -- Starting a device, and loading its dictionary from the library or from a file, keep such a
        -- property, whatever the files say, with any settings, and however the call ends.
        pub loaded-Keeps :
            (s : Station) (path : List ℕ)
            → D.Of s.device
            → D.Of (start exists read_ini fuel parent_path package_path s).1.device
              × D.Of
                  (load_dictionary_from_library exists read_ini fuel read_json show_real32
                    show_real64 s).1.device
              × D.Of (load_dictionary_from_eds exists read_ini fuel path s).1.device
        loaded-Keeps s path h = (
          start-Holds s h,
          load_dictionary_from_library-Holds s h,
          load_dictionary_from_eds-Holds D exists read_ini fuel path s h,
        )
