-- ===== src/Device/Loading.antt =====
-- Filling the dictionary of a device from EDS files (`start`, `load_dictionary_from_library`,
-- `load_cia_dictionary`, `load_dictionary_from_eds` and `load_default_eds_files` of
-- src/master/device.cpp). The settings of `Config` are part of the state: these methods write them.
pub mod Searching
pub mod Consistency
pub mod Keeping
pub mod Filled
pub mod Sound
pub mod Restored
mod Runs
use kacanopen.Prelude.{
  ◌==◌, ℕ, zero, suc, ◌+◌, ◌-◌, ◌*◌, ◌/◌, ◌%◌, ◌^◌, ◌≤◌, ◌<◌, ◌≡◌, ◌≢◌, refl, ap, sym, ◌∙◌, List,
  [], ◌∷◌, ◌++◌, map, arith, Option, none, some, length, bit_and, ltb, leb, not, if◌then◌else◌,
  Bool, true, false, ◌||◌, ◌&&◌, ◌⊎◌, inl, inr, get_or, set, take, drop, replicate, All, ◌↔◌,
  Bool-cases, if_apply, if_both,
}
use kacanopen.Prelude.{codes}
use kacanopen.Error.{Result, ok, err, Error, canopen_error}
use kacanopen.Exec.{Exec, pure, raise, ◌>>=◌, ◌>>◌}
use kacanopen.Value.{uint32}
use kacanopen.Entry.{read_only}
use kacanopen.Dictionary.{Address}
use kacanopen.Nmt.{send_nmt_message, start_node}
use kacanopen.Device.{Device, has_entry_at, add_entry}
use kacanopen.Profiles.{get_device_profile_number, load_operations, load_constants}
use kacanopen.EdsReader.{Ini, import_entries}
use kacanopen.EdsLibrary.{
  EdsLibrary, reset_dictionary, lookup_library, load_default_eds, load_mandatory_entries,
}
use kacanopen.EdsLibrary.Matching.{
  EdsFile, Settings, Station, on_device, on_library, load_manufacturer_eds,
}

-- The settings are assigned.
abbrev pub set_clear : Bool → Exec Station (Unit {0})
set_clear b s = (ok tt, record s { settings = record s.settings { clear_dictionary = b } })

abbrev pub set_just_add : Bool → Exec Station (Unit {0})
set_just_add b s = (ok tt, record s { settings = record s.settings { just_add_mappings = b } })

abbrev pub set_mark : Bool → Exec Station (Unit {0})
set_mark b s = (ok tt, record s { settings = record s.settings { mark_as_generic = b } })

-- What stands at index 0x1000, subindex 0
abbrev pub device_type : Address
device_type = record { index = 0x1000; subindex = 0 }

module _ (exists : List ℕ → Bool) (read_ini : List ℕ → Option Ini) (fuel : ℕ) where
  -- `m_eds_library.load_default_eds(profile)`
  unfoldable pub load_default : ℕ → Exec Station Bool
  load_default profile = on_library (λ s.
      load_default_eds exists read_ini s.clear_dictionary s.just_add_mappings s.mark_as_generic fuel
        profile)

  -- `m_eds_library.load_mandatory_entries()`
  unfoldable pub load_mandatory : Exec Station Bool
  load_mandatory = on_library (λ s.
      load_mandatory_entries exists read_ini s.clear_dictionary s.just_add_mappings
        s.mark_as_generic fuel)

  -- `if (!success) throw canopen_error(...)`
  abbrev pub require : Bool → Exec Station (Unit {0})
  require success = if success then pure tt else raise canopen_error

  -- The `else` branch, which is taken where there is no file for the profile
  unfoldable pub load_mandatory_unless : Bool → Exec Station (Unit {0})
  load_mandatory_unless loaded =
      if loaded then pure tt else (do set_clear false; found ← load_mandatory; require found)

  -- The statements between the two assignments
  unfoldable pub load_profile : Exec Station (Unit {0})
  load_profile = do
    profile ← on_device get_device_profile_number
    loaded ← load_default profile
    load_mandatory_unless loaded

  unfoldable pub load_cia_dictionary : Exec Station (Unit {0})
  load_cia_dictionary = do set_mark true; load_profile; set_mark false

  -- `reader.load_file(path)` and `reader.import_entries()`, which throw where they fail
  unfoldable pub import_file : List ℕ → Settings → Exec EdsLibrary (Unit {0})
  import_file path s l = elim (read_ini path) [
    | none ↦ (err canopen_error, l)
    | some ini ↦
        let (r, t) = import_entries ini s.just_add_mappings s.mark_as_generic fuel l.tables in
        elim r [
          | ok success ↦ elim success [
            | true ↦ (ok tt, record l { tables = t })
            | false ↦ (err canopen_error, record l { tables = t })
          ]
          | err x ↦ (err x, record l { tables = t })
        ]
  ]

  -- `if (!has_entry(0x1000)) add_entry(0x1000, 0, "device_type", ...)`
  unfoldable pub add_device_type : Exec Device (Unit {0})
  add_device_type d = elim (has_entry_at device_type d) [
    | true ↦ (ok tt, d)
    | false ↦ add_entry device_type (codes "device_type") uint32 read_only d
  ]

  -- The names of the standard on top of the entries, if there is a library
  unfoldable pub add_standard_names : Exec Station (Unit {0})
  add_standard_names s = elim s.library.ready [
    | false ↦ (ok tt, s)
    | true ↦
        (do on_device add_device_type; set_just_add true; load_cia_dictionary; set_just_add false) s
  ]

  unfoldable pub load_dictionary_from_eds : List ℕ → Exec Station (Unit {0})
  load_dictionary_from_eds path = do
    on_library (λ s l. (ok tt, reset_dictionary l))
    set_just_add false
    set_mark false
    on_library (import_file path)
    add_standard_names

  -- `eds_path` after the manufacturer's file was loaded or not
  unfoldable pub noted_path : Bool → Exec Station (List ℕ)
  noted_path true s = (ok s.library.most_recent_eds_file, s)
  noted_path false s = (ok [], s)

  -- The last statements of `load_dictionary_from_library`
  unfoldable pub choose_path : List ℕ → Exec Station (List ℕ)
  choose_path noted s = (
    ok (if length noted == 0 then s.library.most_recent_eds_file else noted),
    record s { settings = record s.settings { just_add_mappings = false } },
  )

  -- The names of the standard, or the whole dictionary if there is no manufacturer's file
  unfoldable pub load_standard : Bool → List ℕ → Exec Station (List ℕ)
  load_standard success noted = do set_just_add success; load_cia_dictionary; choose_path noted

  -- What follows `load_manufacturer_eds`
  unfoldable pub load_rest : Bool → Exec Station (List ℕ)
  load_rest success = do set_clear false; noted ← noted_path success; load_standard success noted

  module _ (read_json : List ℕ → Option (List EdsFile)) (show_real32 show_real64 : ℕ → List ℕ) where
    unfoldable pub load_dictionary_from_library : Exec Station (List ℕ)
    load_dictionary_from_library s = elim s.library.ready [
      | false ↦ (err canopen_error, s)
      | true ↦
          (do
            set_clear true
            success ← load_manufacturer_eds exists read_ini fuel read_json show_real32 show_real64
            load_rest success)
            s
    ]

  module _ (parent_path : List ℕ → List ℕ) (package_path : List ℕ) where
    -- `m_eds_library.lookup_library()`
    unfoldable pub look_up_library : Exec Station Bool
    look_up_library = on_library (λ s l.
        let (found, l') = lookup_library exists parent_path package_path [] l in (ok found, l'))

    unfoldable pub load_default_eds_files : Exec Station (Unit {0})
    load_default_eds_files = do
      found ← look_up_library
      require found
      loaded ← load_mandatory
      require loaded

    unfoldable pub start : Exec Station (Unit {0})
    start = do
      on_device (λ d. (ok tt, record d { nmt = send_nmt_message d.node_id start_node d.nmt }))
      load_default_eds_files
      on_device load_operations
      on_device load_constants
      pure tt
