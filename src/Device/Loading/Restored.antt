-- ===== src/Device/Loading/Restored.antt =====
-- What the loading methods leave in the settings that all devices share.
use kacanopen.Prelude.{
  ℕ, ◌≡◌, refl, List, [], ◌++◌, Option, none, some, Bool, true, false, inl, inr, Bool-cases,
}
use kacanopen.Prelude.{codes}
use kacanopen.Error.{json_error, Result, ok, err}
use kacanopen.Exec.{Exec, continue_with, ◌>>=◌, ◌>>◌}
use kacanopen.Device.{Device}
use kacanopen.Profiles.{get_device_profile_number}
use kacanopen.EdsReader.{Ini}
use kacanopen.EdsLibrary.{EdsLibrary}
use kacanopen.EdsLibrary.Matching.{
  load_found, EdsFile, Settings, Station, on_device, on_library, load_manufacturer_eds, find_file,
}
use kacanopen.Device.Loading.{
  set_clear, set_just_add, set_mark, load_default, load_mandatory, require, load_cia_dictionary,
  load_standard, load_mandatory_unless, load_profile, noted_path, choose_path, load_rest,
  load_dictionary_from_library,
}

-- The dictionary is not cleared when a file is loaded.
abbrev pub IsKept : Settings → Type 0
IsKept s = s.clear_dictionary ≡ false

-- Nor are entries marked as generic.
abbrev pub IsUnmarked : Settings → Type 0
IsUnmarked s = (s.clear_dictionary ≡ false) × (s.mark_as_generic ≡ false)

-- The settings as the program starts with them
abbrev pub IsReset : Settings → Type 0
IsReset s =
    s ≡ record { clear_dictionary = false; just_add_mappings = false; mark_as_generic = false }

-- What holds of the settings if a call returns
abbrev pub Returns : {A : Type 0} → (Settings → Type 0) → Result A × Station → Type 0
Returns Q (ok a, s) = Q s.settings
Returns Q (err x, s) = Unit

-- From settings of the one kind a call that returns leads to settings of the other.
abbrev pub Triple :
    {A : Type 0} → (Settings → Type 0) → Exec Station A → (Settings → Type 0) → Type 0
Triple P m Q = (s : Station) → P s.settings → Returns Q (m s)

Returns-bind :
    {A B : Type 0} (P Q : Settings → Type 0) (r : Result A) (k : A → Exec Station B) (s : Station)
    → Returns P (r, s)
    → ((a : A) → Triple P (k a) Q)
    → Returns Q (continue_with r k s)
Returns-bind P Q (ok a) k s h rest = rest a s h
Returns-bind P Q (err x) k s h rest = tt

Triple-bind :
    {A B : Type 0} (P Q R : Settings → Type 0) (m : Exec Station A) (k : A → Exec Station B)
    → Triple P m Q
    → ((a : A) → Triple Q (k a) R)
    → Triple P (m >>= k) R
Triple-bind P Q R m k first rest s h = Returns-bind Q R (m s).0 k (m s).1 (first s h) rest

Triple-then :
    {A B : Type 0} (P Q R : Settings → Type 0) (m : Exec Station A) (k : Exec Station B)
    → Triple P m Q
    → Triple Q k R
    → Triple P (m >> k) R
Triple-then P Q R m k first rest = Triple-bind P Q R m (λ _. k) first (λ _. rest)

-- A call that leaves the settings alone
Returns-same :
    {A : Type 0} (P : Settings → Type 0) (r : Result A) (s : Station)
    → P s.settings
    → Returns P (r, s)
Returns-same P (ok a) s h = h
Returns-same P (err x) s h = tt

on_device_same :
    {A : Type 0} (P : Settings → Type 0) (call : Exec Device A) → Triple P (on_device call) P
on_device_same P call s h = Returns-same P (call s.device).0 (on_device call s).1 h

on_library_same :
    {A : Type 0} (P : Settings → Type 0) (call : Settings → Exec EdsLibrary A)
    → Triple P (on_library call) P
on_library_same P call s h = Returns-same P (on_library call s).0 (on_library call s).1 h

module _ (exists : List ℕ → Bool) (read_ini : List ℕ → Option Ini) (fuel : ℕ) where
  load_default_same :
      (P : Settings → Type 0) (profile : ℕ) → Triple P (load_default exists read_ini fuel profile) P
  unfolding load_default
  load_default_same P profile s h =
      let out = load_default exists read_ini fuel profile s in Returns-same P out.0 out.1 h

  load_mandatory_same : (P : Settings → Type 0) → Triple P (load_mandatory exists read_ini fuel) P
  unfolding load_mandatory
  load_mandatory_same P s h =
      let out = load_mandatory exists read_ini fuel s in Returns-same P out.0 out.1 h

  require_same : (P : Settings → Type 0) (b : Bool) → Triple P (require exists read_ini fuel b) P
  require_same P true s h = h
  require_same P false s h = tt

  load_mandatory_unless_same :
      (loaded : Bool) → Triple IsKept (load_mandatory_unless exists read_ini fuel loaded) IsKept
  unfolding load_mandatory_unless
  load_mandatory_unless_same true = λ s h. h
  load_mandatory_unless_same false =
      Triple-then IsKept IsKept IsKept (set_clear false)
        (load_mandatory exists read_ini fuel >>= require exists read_ini fuel) (λ s h. refl)
        (Triple-bind IsKept IsKept IsKept (load_mandatory exists read_ini fuel)
          (require exists read_ini fuel) (load_mandatory_same IsKept) (require_same IsKept))

  load_profile_same : Triple IsKept (load_profile exists read_ini fuel) IsKept
  unfolding load_profile
  load_profile_same =
      let unless = load_mandatory_unless exists read_ini fuel in
      let loading = λ (profile : ℕ). load_default exists read_ini fuel profile >>= unless in
      Triple-bind IsKept IsKept IsKept (on_device get_device_profile_number) loading
        (on_device_same IsKept get_device_profile_number)
        (λ profile.
          Triple-bind IsKept IsKept IsKept (load_default exists read_ini fuel profile) unless
            (load_default_same IsKept profile) load_mandatory_unless_same)

  load_cia_dictionary-Triple : Triple IsKept (load_cia_dictionary exists read_ini fuel) IsUnmarked
  unfolding load_cia_dictionary
  load_cia_dictionary-Triple =
      let rest = load_profile exists read_ini fuel >> set_mark false in
      Triple-then IsKept IsKept IsUnmarked (set_mark true) rest (λ s h. h)
        (Triple-then IsKept IsKept IsUnmarked (load_profile exists read_ini fuel) (set_mark false)
          load_profile_same (λ s h. (h, refl)))

  load_standard-Triple :
      (success : Bool) (noted : List ℕ)
      → Triple IsKept (load_standard exists read_ini fuel success noted) IsReset
  unfolding load_standard choose_path
  load_standard-Triple success noted =
      let cia = load_cia_dictionary exists read_ini fuel in
      let choose = choose_path exists read_ini fuel noted in
      Triple-then IsKept IsKept IsReset (set_just_add success) (cia >> choose) (λ s h. h)
        (Triple-then IsKept IsUnmarked IsReset cia choose load_cia_dictionary-Triple (λ s (c, m) i.
          record { clear_dictionary = c i; just_add_mappings = false; mark_as_generic = m i }))

  noted_path_same :
      (success : Bool) → Triple IsKept (noted_path exists read_ini fuel success) IsKept
  unfolding noted_path
  noted_path_same true = λ s h. h
  noted_path_same false = λ s h. h

  load_rest-Triple :
      (success : Bool) → Triple (λ s. Unit) (load_rest exists read_ini fuel success) IsReset
  unfolding load_rest
  load_rest-Triple success =
      let noted = noted_path exists read_ini fuel success in
      let standard = load_standard exists read_ini fuel success in
      Triple-then (λ s. Unit) IsKept IsReset (set_clear false) (noted >>= standard) (λ s h. refl)
        (Triple-bind IsKept IsKept IsReset noted standard (noted_path_same success)
          (load_standard-Triple success))

  module _ (read_json : List ℕ → Option (List EdsFile)) (show_real32 show_real64 : ℕ → List ℕ) where
    load_found_same :
        (P : Settings → Type 0) (o : Option (List ℕ))
        → Triple P (load_found exists read_ini fuel o) P
    unfolding load_found
    load_found_same P none s h = h
    load_found_same P (some filename) s h =
        let out = load_found exists read_ini fuel (some filename) s in Returns-same P out.0 out.1 h

    load_manufacturer_eds_same :
        (P : Settings → Type 0)
        → Triple P (load_manufacturer_eds exists read_ini fuel read_json show_real32 show_real64) P
    unfolding load_manufacturer_eds
    load_manufacturer_eds_same P s h =
        go (read_json (s.library.library_path ++ codes "/eds_files.json"))
      where
        go :
            (o : Option (List EdsFile))
            → Returns P (elim o as (λ x. Result Bool × Station) [
              | none ↦ (err json_error, s)
              | some files ↦
                  (do
                    found ← on_device (find_file show_real32 show_real64 files [])
                    load_found exists read_ini fuel found)
                    s
            ])
        go none = tt
        go (some files) =
            Triple-bind P P P (on_device (find_file show_real32 show_real64 files []))
              (load_found exists read_ini fuel)
              (on_device_same P (find_file show_real32 show_real64 files [])) (load_found_same P) s
              h

    manufacturer-Triple :
        Triple
          (λ s. Unit)
          (do
            set_clear true
            success ← load_manufacturer_eds exists read_ini fuel read_json show_real32 show_real64
            load_rest exists read_ini fuel success)
          IsReset
    manufacturer-Triple =
        let any : Settings → Type 0 = λ s. Unit in
        let manufacturer =
          load_manufacturer_eds exists read_ini fuel read_json show_real32 show_real64 in
        let rest = load_rest exists read_ini fuel in
        Triple-then any any IsReset (set_clear true) (manufacturer >>= rest) (λ s h. tt)
          (Triple-bind any any IsReset manufacturer rest (load_manufacturer_eds_same any)
            load_rest-Triple)

    -- If it returns, `load_dictionary_from_library` leaves all of the three settings false, whatever
    -- they were before, whichever files there are and whatever the device answers.
    pub load_dictionary_from_library-Returns :
        (s : Station)
        → Returns IsReset
            (load_dictionary_from_library exists read_ini fuel read_json show_real32 show_real64 s)
    unfolding load_dictionary_from_library
    load_dictionary_from_library-Returns s = elim (Bool-cases s.library.ready) [
      | inr missing ↦ rw (missing, load_dictionary_from_library) tt
      | inl ready ↦ rw (ready, load_dictionary_from_library) (manufacturer-Triple s tt)
    ]
