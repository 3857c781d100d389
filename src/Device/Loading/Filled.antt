-- ===== src/Device/Loading/Filled.antt =====
-- However the dictionary of a device is filled, its tables stay consistent.
use kacanopen.Prelude.{ℕ, List, Option, Bool}
use kacanopen.Device.{Device}
use kacanopen.Device.Entries.{IsConsistent}
use kacanopen.Device.Tables.{add_entry-IsConsistent}
use kacanopen.Device.Writes.{get_entry_at-IsConsistent}
use kacanopen.EdsReader.{Ini}
use kacanopen.EdsReader.Insertion.{consistency}
use kacanopen.EdsLibrary.Matching.{EdsFile, Station}
use kacanopen.Device.Loading.{load_dictionary_from_eds, load_dictionary_from_library, start}
use kacanopen.Device.Loading.Searching.{DeviceInvariant}
use kacanopen.Device.Loading.Keeping.{loaded-Keeps}

abbrev pub Holds : Device → Type 0
Holds d = IsConsistent d.dictionary d.name_to_address

abbrev tables_consistent : DeviceInvariant
tables_consistent = record {
  tables = consistency;
  Of = Holds;
  opens = λ d h. h;
  closes = λ d t h k. k;
  reads = get_entry_at-IsConsistent;
  adds = add_entry-IsConsistent;
  learns = λ operations constants nmt d h. h;
}

module _ (exists : List ℕ → Bool) (read_ini : List ℕ → Option Ini) (fuel : ℕ)
    (read_json : List ℕ → Option (List EdsFile)) (show_real32 show_real64 : ℕ → List ℕ)
    (parent_path : List ℕ → List ℕ) (package_path : List ℕ) (s : Station) (path : List ℕ) where
  -- Starting a device, and loading its dictionary from the library or from a file, keep its
  -- tables consistent, whatever the files say, with any settings, and however the call ends:
  -- every name leads to an entry, and every entry stands at its own address, to which its name
  -- leads.
  pub loaded-IsConsistent :
      IsConsistent s.device.dictionary s.device.name_to_address
      → Holds (start exists read_ini fuel parent_path package_path s).1.device
        × Holds
            (load_dictionary_from_library exists read_ini fuel read_json show_real32 show_real64
              s).1.device
        × Holds (load_dictionary_from_eds exists read_ini fuel path s).1.device
  loaded-IsConsistent h =
      loaded-Keeps tables_consistent exists read_ini fuel read_json show_real32 show_real64
        parent_path package_path s path h
