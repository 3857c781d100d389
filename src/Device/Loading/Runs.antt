-- ===== src/Device/Loading/Runs.antt =====
-- The theorems about loading EDS files at concrete inputs.
use kacanopen.Prelude.{
  ℕ, ◌≡◌, refl, List, [], ◌∷◌, map, Option, some, if◌then◌else◌, Bool, true, false, inr, All,
}
use kacanopen.Prelude.{codes}
use kacanopen.Error.{ok}
use kacanopen.Value.{of_uint32, uint32, type_of}
use kacanopen.Value.Equality.{bytes_equal}
use kacanopen.Entry.{Entry, same_type, ReadAccessMethod}
use kacanopen.Dictionary.{Address, find_name, find_entry, address_equal}
use kacanopen.Device.Access.{get_entry, get_entry_at, cached_value, reads_via_sdo}
use kacanopen.Entry.{get_value, type_number}
use kacanopen.Dictionary.{escape}
use kacanopen.Utils.{show_digits}
use kacanopen.Value.Printing.{print_value}
use kacanopen.Profiles.{find_key}
use kacanopen.EdsLibrary.Matching.{matches_all, look_up, fits_value}
use kacanopen.Device.{entry_at, resolve, has_entry, has_entry_at, Device}
use kacanopen.Device.Runs.{motor, control_entry}
use kacanopen.EdsReader.{Ini}
use kacanopen.EdsLibrary.{empty_tables}
use kacanopen.EdsLibrary.Matching.{EdsFile, Station, find_file}
use kacanopen.EdsLibrary.Fitting.{IsHeld}
use kacanopen.EdsLibrary.Choice.{element, IsFirstFitting, find_file_lem}
use kacanopen.Device.Loading.{load_dictionary_from_library, load_dictionary_from_eds, start}
use kacanopen.Device.Loading.Restored.{IsReset, Returns, load_dictionary_from_library-Returns}
use kacanopen.Device.Loading.Filled.{Holds, loaded-IsConsistent}

-- Every path has a file with the mandatory entry 0x1000, and the list has one file for all devices.
abbrev there : List ℕ → Bool
there path = true

abbrev mandatory : List ℕ → Option Ini
mandatory path = some (record {
  sections = codes "1000" ∷ [];
  field = λ section name.
      if bytes_equal name (codes "ParameterName")
      then codes "Device type"
      else if bytes_equal name (codes "DataType")
      then codes "0x0007"
      else [];
})

abbrev one_file : List ℕ → Option (List EdsFile)
one_file path = some (element (codes "any.eds", []) ∷ [])

abbrev no_text : ℕ → List ℕ
no_text n = []

abbrev own_folder : List ℕ → List ℕ
own_folder path = codes "lib"

abbrev station : Station
station = record {
  device = motor;
  library = record {
    tables = empty_tables;
    library_path = codes "lib";
    ready = true;
    most_recent_eds_file = [];
  };
  settings = record { clear_dictionary = false; just_add_mappings = true; mark_as_generic = true };
}

motor-Holds : Holds motor
unfolding find_entry find_name address_equal bytes_equal
motor-Holds = (((control_entry, refl), tt), ((refl, refl, refl), tt))

loaded-IsConsistent_example :
    Holds (start there mandatory 300 own_folder (codes "package") station).1.device
    × Holds
        (load_dictionary_from_library there mandatory 300 one_file no_text no_text station).1.device
    × Holds (load_dictionary_from_eds there mandatory 300 (codes "own.eds") station).1.device
loaded-IsConsistent_example =
    loaded-IsConsistent there mandatory 300 one_file no_text no_text own_folder (codes "package")
      station (codes "own.eds") motor-Holds

load_dictionary_from_library-Returns_example :
    Returns IsReset
      (load_dictionary_from_library there mandatory 300 one_file no_text no_text station)
load_dictionary_from_library-Returns_example =
    load_dictionary_from_library-Returns there mandatory 300 one_file no_text no_text station

-- A device whose vendor 327 is in the cache, and two files, of which the second fits
abbrev vendor_entry : Entry
vendor_entry = record control_entry {
  index = 0x1018;
  subindex = 1;
  name = codes "vendor";
  type = uint32;
  read_access_method = ReadAccessMethod.cache;
  m_value = of_uint32 327;
}

abbrev vendor : Address
vendor = record { index = 0x1018; subindex = 1 }

abbrev drive : Device
drive = record motor {
  dictionary = (vendor, vendor_entry) ∷ [];
  name_to_address = (codes "vendor", vendor) ∷ [];
}

abbrev files : List (List ℕ × List (List ℕ × List ℕ))
files =
    (codes "other.eds", (codes "Vendor", codes "12") ∷ [])
    ∷ (codes "drive.eds", (codes "Vendor", codes "327") ∷ [])
    ∷ []

drive-IsHeld : All IsHeld drive.dictionary
unfolding reads_via_sdo same_type type_number type_of
drive-IsHeld = ((refl, inr refl), tt)

find_file_lem_example :
    (o : Option (List ℕ)) × (find_file no_text no_text (map element files) [] drive ≡ (ok o, drive))
    × IsFirstFitting no_text no_text drive files o
find_file_lem_example = find_file_lem no_text no_text drive files drive-IsHeld

-- The second file is found.
second_fits :
    find_file no_text no_text (map element files) [] drive ≡ (ok (some (codes "drive.eds")), drive)
unfolding find_file matches_all look_up fits_value find_key get_entry get_entry_at cached_value
    get_value entry_at resolve has_entry has_entry_at find_name find_entry address_equal bytes_equal
    escape print_value show_digits reads_via_sdo same_type type_number type_of
second_fits = refl
