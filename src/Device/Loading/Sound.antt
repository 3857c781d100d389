-- ===== src/Device/Loading/Sound.antt =====
-- However the dictionary of a device is filled, the device stays sound where no receive mapping is bound.
use kacanopen.Prelude.{ℕ, ◌≡◌, refl, ◌∙◌, List, [], Option, none, Bool, false, inl, inr, Bool-cases}
use kacanopen.Prelude.{Option-cases}
use kacanopen.Error.{Result, ok, err}
use kacanopen.Exec.{continue_with, Exec, ◌>>◌}
use kacanopen.Value.{Value, ValueType}
use kacanopen.Entry.{Entry, AccessType, ReadAccessMethod}
use kacanopen.Dictionary.{Address, find_entry, find_name, escape}
use kacanopen.Device.{Device, add_entry, entry_at}
use kacanopen.Device.Access.{
  get_entry_at, set_entry_value, cached_value, get_entry_via_sdo, reads_via_sdo,
}
use kacanopen.Device.Tables.{add_entry_cases}
use kacanopen.Device.Writes.{cached_value_same}
use kacanopen.Device.Soundness.{IsSound, AreSound, AreSound-cons}
use kacanopen.Device.Kept.{set_entry_value_cases, get_entry_at-IsSound, add_entry-IsSound}
use kacanopen.EdsReader.{Ini, Tables, insert_entry, add_mapping}
use kacanopen.EdsReader.Insertion.{
  insert_entry_cases, IsConsistent-name, add_mapping-AreConsistent, add_mapping-dictionary,
}
use kacanopen.EdsLibrary.Matching.{EdsFile, Station}
use kacanopen.Device.Loading.{
  load_default_eds_files, load_dictionary_from_eds, load_dictionary_from_library, start,
}
use kacanopen.Device.Loading.Searching.{DeviceInvariant}
use kacanopen.Device.Loading.Keeping.{loaded-Keeps, load_default_eds_files-Holds}

-- Reading an entry binds no receive mapping.
set_entry_value-bindings :
    (a : Address) (e : Entry) (v : Value) (d : Device)
    → (set_entry_value a e v d).1.bindings ≡ d.bindings
set_entry_value-bindings a e v d = elim (set_entry_value_cases a e v d) [
  | inl (x, run) ↦ rw run refl
  | inr (e', r, p, replaced, run) ↦ rw run refl
]

continue_with-bindings :
    {A B : Type 0} (r : Result A) (k : A → Exec Device B) (d d0 : Device)
    → d.bindings ≡ d0.bindings
    → ((a : A) → (k a d).1.bindings ≡ d0.bindings)
    → (continue_with r k d).1.bindings ≡ d0.bindings
continue_with-bindings (ok a) k d d0 h f = f a
continue_with-bindings (err x) k d d0 h f = h

get_entry_at-bindings :
    (a : Address) (access : ReadAccessMethod) (d : Device)
    → (get_entry_at a access d).1.bindings ≡ d.bindings
unfolding get_entry_at get_entry_via_sdo entry_at
get_entry_at-bindings a access d = elim (Option-cases (find_entry a d.dictionary)) [
  | inl missing ↦ rw (missing, get_entry_at, entry_at) refl
  | inr (e, found) ↦ elim (Bool-cases (reads_via_sdo access e)) [
    | inr cached ↦ rw (found, cached, get_entry_at, entry_at) (rw (cached_value_same a d) refl)
    | inl asked ↦
        let at : Address = record { index = e.index; subindex = e.subindex } in
        let d1 = (get_entry_via_sdo at e.type d).1 in
        rw (found, asked, get_entry_at, entry_at)
          (continue_with-bindings (get_entry_via_sdo at e.type d).0
            (λ v. set_entry_value a e v >> cached_value a) d1 d refl
            (λ v.
              let stored = set_entry_value-bindings a e v d1 in
              continue_with-bindings (set_entry_value a e v d1).0 (λ _. cached_value a)
                (set_entry_value a e v d1).1 d stored
                (λ _. rw (cached_value_same a (set_entry_value a e v d1).1) stored)))
  ]
]

add_entry-bindings :
    (a : Address) (name : List ℕ) (t : ValueType) (access : AccessType) (d : Device)
    → (add_entry a name t access d).1.bindings ≡ d.bindings
add_entry-bindings a name t access d = elim (add_entry_cases a name t access d) [
  | inl kept ↦ rw kept refl
  | inr (fresh, free, added) ↦ rw added refl
]

-- The tables are sound where no receive mapping is bound.
abbrev AreSoundAlone : Tables → Type 0
AreSoundAlone t = AreSound t.dictionary t.name_to_address []

insert_entry-AreSound :
    (e : Entry) (name : List ℕ) (t : Tables)
    → find_name name t.name_to_address ≡ none
    → escape name ≡ name
    → e.m_valid ≡ false
    → AreSoundAlone t
    → AreSoundAlone (insert_entry e name t)
insert_entry-AreSound e name t fresh escaped empty (consistent, plain, _) =
    let a : Address = record { index = e.index; subindex = e.subindex } in
    elim (insert_entry_cases e name t) [
      | inl (other, there, run) ↦ rw run (
        IsConsistent-name a other name t.dictionary t.name_to_address there fresh consistent,
        plain,
        tt,
      )
      | inr (free, run) ↦ rw run (
          AreSound-cons a (record e { name = name }) t.dictionary t.name_to_address [] (refl, refl)
            escaped empty fresh free (consistent, plain, tt))
    ]

add_mapping-AreSound :
    (a : Address) (name : List ℕ) (t : Tables)
    → AreSoundAlone t
    → AreSoundAlone (add_mapping a name t)
add_mapping-AreSound a name t (consistent, plain, _) =
    (add_mapping-AreConsistent a name t consistent, rw (add_mapping-dictionary a name t) plain, tt)

abbrev sound_alone : DeviceInvariant
sound_alone = record {
  tables = record {
    Of = AreSoundAlone;
    inserts = insert_entry-AreSound;
    adds_name = add_mapping-AreSound;
    nothing_in = ((tt, tt), tt, tt);
  };
  Of = λ d. IsSound d × (d.bindings ≡ []);
  opens = λ d h. (h.0.0, h.0.1, tt);
  closes = λ d t h k. ((k.0, k.1, rw (h.1) tt), h.1);
  reads =
      λ a access d h. (get_entry_at-IsSound a access d h.0, get_entry_at-bindings a access d ∙ h.1);
  adds = λ a name t access d h.
      (add_entry-IsSound a name t access d h.0, add_entry-bindings a name t access d ∙ h.1);
  learns = λ operations constants nmt d h. h;
}

module _ (exists : List ℕ → Bool) (read_ini : List ℕ → Option Ini) (fuel : ℕ)
    (read_json : List ℕ → Option (List EdsFile)) (show_real32 show_real64 : ℕ → List ℕ)
    (parent_path : List ℕ → List ℕ) (package_path : List ℕ) (s : Station) (path : List ℕ) where
  loaded-IsSound :
      IsSound s.device
      → s.device.bindings ≡ []
      → IsSound (start exists read_ini fuel parent_path package_path s).1.device
        × IsSound
            (load_dictionary_from_library exists read_ini fuel read_json show_real32 show_real64
              s).1.device
        × IsSound (load_dictionary_from_eds exists read_ini fuel path s).1.device
  loaded-IsSound h none_bound =
      let (started, library, file) =
        loaded-Keeps sound_alone exists read_ini fuel read_json show_real32 show_real64 parent_path
          package_path s path (h, none_bound) in
      (started.0, library.0, file.0)

-- The calls keep a device sound on which no receive mapping is bound.
module _ (exists : List ℕ → Bool) (read_ini : List ℕ → Option Ini) (fuel : ℕ) where
  pub start-IsSound :
      (parent_path : List ℕ → List ℕ) (package_path : List ℕ) (s : Station)
      → IsSound s.device
      → s.device.bindings ≡ []
      → IsSound (start exists read_ini fuel parent_path package_path s).1.device
  start-IsSound parent_path package_path s h none_bound =
      (loaded-IsSound exists read_ini fuel (λ p. none) (λ n. []) (λ n. []) parent_path package_path
        s [] h none_bound).0

  pub load_dictionary_from_library-IsSound :
      (read_json : List ℕ → Option (List EdsFile)) (show_real32 show_real64 : ℕ → List ℕ)
      (s : Station)
      → IsSound s.device
      → s.device.bindings ≡ []
      → IsSound
          (load_dictionary_from_library exists read_ini fuel read_json show_real32 show_real64
            s).1.device
  load_dictionary_from_library-IsSound read_json show_real32 show_real64 s h none_bound =
      (loaded-IsSound exists read_ini fuel read_json show_real32 show_real64 (λ p. p) [] s [] h
        none_bound).1

  pub load_dictionary_from_eds-IsSound :
      (path : List ℕ) (s : Station)
      → IsSound s.device
      → s.device.bindings ≡ []
      → IsSound (load_dictionary_from_eds exists read_ini fuel path s).1.device
  load_dictionary_from_eds-IsSound path s h none_bound =
      (loaded-IsSound exists read_ini fuel (λ p. none) (λ n. []) (λ n. []) (λ p. p) [] s path h
        none_bound).2

  pub load_default_eds_files-IsSound :
      (parent_path : List ℕ → List ℕ) (package_path : List ℕ) (s : Station)
      → IsSound s.device
      → s.device.bindings ≡ []
      → IsSound (load_default_eds_files exists read_ini fuel parent_path package_path s).1.device
  load_default_eds_files-IsSound parent_path package_path s h none_bound =
      (load_default_eds_files-Holds sound_alone exists read_ini fuel (λ p. none) (λ n. []) (λ n. [])
        parent_path package_path s (h, none_bound)).0
