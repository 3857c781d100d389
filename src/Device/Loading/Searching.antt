-- ===== src/Device/Loading/Searching.antt =====
-- What searching for a manufacturer's EDS file keeps of a device.
use kacanopen.Prelude.{
  ℕ, List, [], ◌∷◌, Option, none, some, bit_and, if◌then◌else◌, Bool, true, false,
}
use kacanopen.Error.{json_error, Result, ok, err, Error}
use kacanopen.Exec.{Exec, pure, continue_with, ◌>>=◌, ◌>>◌}
use kacanopen.Entry.{same_type}
use kacanopen.Value.{invalid, nothing, type_of, Value}
use kacanopen.Value.Casts.{to_uint32}
use kacanopen.Entry.{ReadAccessMethod}
use kacanopen.Dictionary.{Address}
use kacanopen.Device.{Device, resolve}
use kacanopen.Device.Access.{get_entry, get_entry_at}
use kacanopen.Entry.{AccessType}
use kacanopen.Value.{ValueType}
use kacanopen.Nmt.{Nmt}
use kacanopen.Device.{Operation, add_entry}
use kacanopen.Profiles.{find_key, get_device_profile_number}
use kacanopen.EdsReader.{Tables}
use kacanopen.EdsReader.Insertion.{TableInvariant}
use kacanopen.EdsLibrary.{EdsLibrary}
use kacanopen.EdsLibrary.Matching.{
  EdsFile, find_file, Cache, Settings, Station, on_device, on_library, look_up, is_canopen_error,
  fits_value, matches_all,
}

-- A property of a device that reading its entries, adding an entry and loading files keep
pub record DeviceInvariant : Type 1 where
  pub tables : TableInvariant
  pub Of : Device → Type 0
  pub opens :
      (d : Device)
      → Of d
      → tables.Of (record { dictionary = d.dictionary; name_to_address = d.name_to_address })
  pub closes :
      (d : Device) (t : Tables)
      → Of d
      → tables.Of t
      → Of (record d { dictionary = t.dictionary; name_to_address = t.name_to_address })
  pub reads :
      (a : Address) (access : ReadAccessMethod) (d : Device) → Of d → Of (get_entry_at a access d).1
  pub adds :
      (a : Address) (name : List ℕ) (t : ValueType) (access : AccessType) (d : Device)
      → Of d
      → Of (add_entry a name t access d).1
  pub learns :
      (operations : List (List ℕ × Operation)) (constants : List (List ℕ × Value)) (nmt : Nmt)
      (d : Device)
      → Of d
      → Of (record d { operations = operations; constants = constants; nmt = nmt })

module _ (D : DeviceInvariant) where
  -- However the call ends, the property stays.
  abbrev pub KeepsDevice : {A : Type 0} → Exec Device A → Type 0
  KeepsDevice call = (d : Device) → D.Of d → D.Of (call d).1

  abbrev pub KeepsStation : {A : Type 0} → Exec Station A → Type 0
  KeepsStation call = (s : Station) → D.Of s.device → D.Of (call s).1.device

  pub KeepsDevice-bind :
      {A B : Type 0} (m : Exec Device A) (k : A → Exec Device B)
      → KeepsDevice m
      → ((a : A) → KeepsDevice (k a))
      → KeepsDevice (m >>= k)
  KeepsDevice-bind m k first rest d h = go (m d).0 (m d).1 (first d h)
    where
      go : (r : Result _) (e : Device) → D.Of e → D.Of (continue_with r k e).1
      go (ok a) e h = rest a e h
      go (err x) e h = h

  pub KeepsStation-bind :
      {A B : Type 0} (m : Exec Station A) (k : A → Exec Station B)
      → KeepsStation m
      → ((a : A) → KeepsStation (k a))
      → KeepsStation (m >>= k)
  KeepsStation-bind m k first rest s h = go (m s).0 (m s).1 (first s h)
    where
      go : (r : Result _) (t : Station) → D.Of t.device → D.Of (continue_with r k t).1.device
      go (ok a) t h = rest a t h
      go (err x) t h = h

  pub KeepsStation-then :
      {A B : Type 0} (m : Exec Station A) (k : Exec Station B)
      → KeepsStation m
      → KeepsStation k
      → KeepsStation (m >> k)
  KeepsStation-then m k first rest = KeepsStation-bind m (λ _. k) first (λ _. rest)

  pub on_device-Keeps :
      {A : Type 0} (call : Exec Device A) → KeepsDevice call → KeepsStation (on_device call)
  on_device-Keeps call keeps s h = keeps s.device h

  pub on_library-Keeps :
      {A : Type 0} (call : Settings → Exec EdsLibrary A)
      → ((t : Settings) (l : EdsLibrary) → D.tables.Of l.tables → D.tables.Of (call t l).1.tables)
      → KeepsStation (on_library call)
  on_library-Keeps call keeps s h =
      let held : Tables = record {
        dictionary = s.device.dictionary;
        name_to_address = s.device.name_to_address;
      } in
      let l : EdsLibrary = record s.library { tables = held } in
      D.closes s.device (call s.settings l).1.tables h (keeps s.settings l (D.opens s.device h))

  get_entry-Holds :
      (field : List ℕ) (access : ReadAccessMethod) → KeepsDevice (get_entry field access)
  unfolding get_entry
  get_entry-Holds field access d h = go (resolve field d)
    where
      go :
          (r : Result Address)
          → D.Of
              (elim r as (λ x. Result Value × Device) [
                | ok a ↦ get_entry_at a access d
                | err x ↦ (err x, d)
              ]).1
      go (ok a) = D.reads a access d h
      go (err x) = h

  pub get_device_profile_number-Holds : KeepsDevice get_device_profile_number
  unfolding get_device_profile_number
  get_device_profile_number-Holds =
      let read =
        get_entry_at (record { index = 0x1000; subindex = 0 }) ReadAccessMethod.use_default in
      KeepsDevice-bind read
        (λ v.
          (λ (d : Device). (to_uint32 v, d)) >>= (λ device_type. pure (bit_and device_type 0xFFFF)))
        (D.reads (record { index = 0x1000; subindex = 0 }) ReadAccessMethod.use_default)
        (λ v.
          KeepsDevice-bind (λ (d : Device). (to_uint32 v, d))
            (λ device_type. pure (bit_and device_type 0xFFFF)) (λ d h. h) (λ n d h. h))

  -- Looking for a manufacturer's file
  look_up-Holds : (field : List ℕ) (cache : Cache) → KeepsDevice (look_up field cache)
  unfolding look_up
  look_up-Holds field cache d h =
      let read = get_entry field ReadAccessMethod.use_default d in
      known (find_key field cache) read.0 read.1
        (get_entry-Holds field ReadAccessMethod.use_default d h)
    where
      caught :
          (b : Bool) (x : Error) (d' : Device)
          → D.Of d'
          → D.Of
              (elim b as (λ y. Result (Option Value × Cache) × Device) [
                | true ↦ (ok (none, (field, nothing) ∷ cache), d')
                | false ↦ (err x, d')
              ]).1
      caught true x d' h' = h'
      caught false x d' h' = h'

      known :
          (o : Option Value) (r : Result Value) (d' : Device)
          → D.Of d'
          → D.Of
              (elim o as (λ y. Result (Option Value × Cache) × Device) [
                | some v ↦ (ok (if same_type (type_of v) invalid then none else some v, cache), d)
                | none ↦ elim r as (λ y. Result (Option Value × Cache) × Device) [
                  | ok v ↦ (ok (some v, (field, v) ∷ cache), d')
                  | err x ↦
                      elim (is_canopen_error x) as (λ y. Result (Option Value × Cache) × Device) [
                        | true ↦ (ok (none, (field, nothing) ∷ cache), d')
                        | false ↦ (err x, d')
                      ]
                ]
              ]).1
      known (some v) r d' h' = h
      known none (ok v) d' h' = h'
      known none (err x) d' h' = caught (is_canopen_error x) x d' h'

  module _ (show_real32 show_real64 : ℕ → List ℕ) where
    matches_all-Holds :
        (fields : List (List ℕ × List ℕ)) (cache : Cache)
        → KeepsDevice (matches_all show_real32 show_real64 fields cache)
    unfolding matches_all
    matches_all-Holds [] cache d h = h
    matches_all-Holds ((field, expected) ∷ fields) cache d h =
        go (matches_all-Holds fields) (look_up field cache d).0 (look_up field cache d).1
          (look_up-Holds field cache d h)
      where
        go :
            ((c : Cache) → KeepsDevice (matches_all show_real32 show_real64 fields c))
            → (r : Result (Option Value × Cache)) (d' : Device) → D.Of d'
            → D.Of
                (elim r as (λ x. Result (Bool × Cache) × Device) [
                  | err x ↦ (err x, d')
                  | ok (found, cache') ↦
                      elim (fits_value show_real32 show_real64 expected found)
                        as (λ x. Result (Bool × Cache) × Device) [
                          | true ↦ matches_all show_real32 show_real64 fields cache' d'
                          | false ↦ (ok (false, cache'), d')
                        ]
                ]).1
        go rest (err x) d' h' = h'
        go rest (ok (found, cache')) d' h' =
            on (fits_value show_real32 show_real64 expected found) (rest cache' d' h') h'
          where
            on :
                (b : Bool)
                → D.Of (matches_all show_real32 show_real64 fields cache' d').1
                → D.Of d'
                → D.Of
                    (elim b as (λ x. Result (Bool × Cache) × Device) [
                      | true ↦ matches_all show_real32 show_real64 fields cache' d'
                      | false ↦ (ok (false, cache'), d')
                    ]).1
            on true p q = p
            on false p q = q

    pub find_file-Holds :
        (files : List EdsFile) (cache : Cache)
        → KeepsDevice (find_file show_real32 show_real64 files cache)
    unfolding find_file
    find_file-Holds [] cache d h = h
    find_file-Holds (f ∷ files) cache d h = named (find_file-Holds files) f.file f.matches
      where
        named :
            ((c : Cache) → KeepsDevice (find_file show_real32 show_real64 files c))
            → (o : Option (List ℕ)) (m : Option (List (List ℕ × List ℕ)))
            → D.Of
                (elim o as (λ x. Result (Option (List ℕ)) × Device) [
                  | none ↦ (err json_error, d)
                  | some filename ↦ elim m as (λ x. Result (Option (List ℕ)) × Device) [
                    | none ↦ (err json_error, d)
                    | some fields ↦
                        let (r, d') = matches_all show_real32 show_real64 fields cache d in
                        elim r as (λ x. Result (Option (List ℕ)) × Device) [
                          | err x ↦ (err x, d')
                          | ok (fits, cache') ↦
                              elim fits as (λ x. Result (Option (List ℕ)) × Device) [
                                | true ↦ (ok (some filename), d')
                                | false ↦ find_file show_real32 show_real64 files cache' d'
                              ]
                        ]
                  ]
                ]).1
        named rest none m = h
        named rest (some filename) none = h
        named rest (some filename) (some fields) =
            let out = matches_all show_real32 show_real64 fields cache d in
            go out.0 out.1 (matches_all-Holds fields cache d h)
          where
            go :
                (r : Result (Bool × Cache)) (d' : Device)
                → D.Of d'
                → D.Of
                    (elim r as (λ x. Result (Option (List ℕ)) × Device) [
                      | err x ↦ (err x, d')
                      | ok (fits, cache') ↦ elim fits as (λ x. Result (Option (List ℕ)) × Device) [
                        | true ↦ (ok (some filename), d')
                        | false ↦ find_file show_real32 show_real64 files cache' d'
                      ]
                    ]).1
            go (err x) d' h' = h'
            go (ok (true, cache')) d' h' = h'
            go (ok (false, cache')) d' h' = rest cache' d' h'
