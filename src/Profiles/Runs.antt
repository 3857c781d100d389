-- ===== src/Profiles/Runs.antt =====
-- The theorems about the profiles at concrete inputs.
use kacanopen.Prelude.{ℕ, ◌≡◌, refl, List, [], ◌∷◌, arith, none, some, true}
use kacanopen.Prelude.{codes}
use kacanopen.Error.{Result, ok}
use kacanopen.Value.{Value, uint32, of_uint16, of_uint32, of_string, nothing}
use kacanopen.Value.Casts.{to_uint32}
use kacanopen.Value.Equality.{bytes_equal}
use kacanopen.Entry.{Entry, get_value, ReadAccessMethod, WriteAccessMethod}
use kacanopen.Dictionary.{Address, find_name, find_entry, escape, address_equal}
use kacanopen.Device.{Device, entry_at}
use kacanopen.Device.Access.{get_entry, get_entry_at, cached_value, reads_via_sdo, writes_via_sdo}
use kacanopen.Device.Runs.{control, control_entry, motor}
use kacanopen.Profiles.{
  find_key, get_constant, run_set_flag, run_unset_flag, get_device_profile_number, load_constants,
  profile_constants,
}
use kacanopen.Profiles.Flags.{HoldsWord, run_unset_flag-run_set_flag}
use kacanopen.Profiles.Constants.{load_constants_lem}

abbrev cached_entry : Entry
cached_entry = record control_entry {
  read_access_method = ReadAccessMethod.cache;
  write_access_method = WriteAccessMethod.cache;
}

abbrev device_type : Address
device_type = record { index = 0x1000; subindex = 0 }

-- A drive whose control word is 6 and whose type, 0x00020192, names the profile 402
abbrev drive : Device
drive = record motor {
  dictionary =
      (control, cached_entry)
      ∷ (
        device_type,
        record cached_entry {
          index = 0x1000;
          name = codes "device_type";
          type = uint32;
          m_value = of_uint32 0x00020192;
        },
      )
      ∷ [];
  name_to_address = (codes "controlword", control) ∷ (codes "device_type", device_type) ∷ [];
  constants = (codes "controlword_pp_new_set_point", of_uint16 16) ∷ [];
}

drive-HoldsWord : HoldsWord drive control cached_entry 6
unfolding find_name find_entry bytes_equal address_equal escape get_value reads_via_sdo
    writes_via_sdo
drive-HoldsWord = (refl, refl, refl, refl, refl, refl, refl)

new_set_point : get_constant (codes "controlword_pp_new_set_point") drive ≡ ok (of_uint16 16)
unfolding get_constant find_key bytes_equal escape
new_set_point = refl

run_unset_flag-run_set_flag_example :
    let (r, d') = run_set_flag (of_string (codes "controlword_pp_new_set_point")) drive in
    let (s, d'') = run_unset_flag (of_string (codes "controlword_pp_new_set_point")) d' in
    let read = get_entry (codes "controlword") ReadAccessMethod.use_default in
    (r ≡ ok nothing)
    × (read d' ≡ (ok (of_uint16 22), d'))
    × (s ≡ ok nothing)
    × (read d'' ≡ (ok (of_uint16 6), d''))
run_unset_flag-run_set_flag_example =
    run_unset_flag-run_set_flag control cached_entry 4 0 0 6 (codes "controlword_pp_new_set_point")
      drive (omega arith) (omega arith) (omega arith) (omega arith) drive-HoldsWord new_set_point

profile_402 : get_device_profile_number drive ≡ (ok 402, drive)
unfolding get_device_profile_number get_entry_at cached_value entry_at find_entry address_equal
    get_value reads_via_sdo to_uint32
profile_402 = refl

abbrev table_402 : List (List ℕ × Value)
table_402 = elim (profile_constants 402) as (λ x. List (List ℕ × Value)) [ some t ↦ t | none ↦ [] ]

listed_402 : profile_constants 402 ≡ some table_402
unfolding profile_constants
listed_402 = refl

load_constants_lem_example :
    let (r, d') = load_constants drive in
    (r ≡ ok true)
    × (get_constant (codes "Homing mode") d'
        ≡ elim (find_key (escape (codes "Homing mode")) drive.constants) as (λ x. Result Value) [
          | some v ↦ ok v
          | none ↦ get_constant (codes "Homing mode") (record drive { constants = table_402 })
        ])
load_constants_lem_example =
    load_constants_lem (codes "Homing mode") 402 table_402 drive drive profile_402 listed_402
