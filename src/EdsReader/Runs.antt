-- ===== src/EdsReader/Runs.antt =====
-- The theorem about EDS files at a concrete input, and tests of the reader's helpers.
use kacanopen.Prelude.{◌≡◌, refl, [], ◌∷◌, if◌then◌else◌, true, false}
use kacanopen.Prelude.{codes}
use kacanopen.Value.Equality.{bytes_equal}
use kacanopen.Dictionary.{find_name, find_entry, address_equal}
use kacanopen.Utils.{
  hexstr_to_uint, decstr_to_uint, str_to_uint, read_digits, skip_spaces, skip_prefix,
  starts_with_digit, is_digit_of, digit_value, is_space, read_number,
}
use kacanopen.Device.Runs.{motor, control_entry}
use kacanopen.EdsReader.{
  Tables, Ini, trim, next_name, import_entries, cut_comment, reverse_onto, split_last, is_hex,
  all_of, show_byte,
}
use kacanopen.EdsReader.Consistency.{import_entries-AreConsistent}
use kacanopen.EdsReader.Insertion.{AreConsistent}

number : hexstr_to_uint (codes "0x1A0F") ≡ 0x1A0F
unfolding hexstr_to_uint str_to_uint read_digits skip_spaces skip_prefix starts_with_digit
    is_digit_of digit_value is_space read_number
number = refl

trimmed : trim (codes " rw # both ways") ≡ codes "rw"
unfolding trim cut_comment reverse_onto skip_spaces is_space
trimmed = refl

-- A counter of hexadecimal digits is read as a decimal number.
renamed : next_name (codes "speed") ≡ codes "speed_1"
unfolding next_name split_last
renamed = refl

counted : next_name (codes "speed_9") ≡ codes "speed_10"
unfolding next_name split_last is_hex all_of show_byte decstr_to_uint str_to_uint read_digits
    skip_spaces skip_prefix starts_with_digit is_digit_of digit_value is_space read_number
counted = refl

-- Two sections, of which the second repeats the name of an entry that is there
abbrev small : Ini
small = record {
  sections = codes "FileInfo" ∷ codes "1000" ∷ codes "6041" ∷ [];
  field = λ section name.
      if bytes_equal name (codes "ParameterName")
      then (if bytes_equal section (codes "1000") then codes "Device type" else codes "Controlword")
      else if bytes_equal name (codes "DataType")
      then codes "0x0007"
      else [];
}

abbrev held : Tables
held = record { dictionary = motor.dictionary; name_to_address = motor.name_to_address }

held-AreConsistent : AreConsistent held
unfolding find_entry find_name address_equal bytes_equal
held-AreConsistent = (((control_entry, refl), tt), ((refl, refl, refl), tt))

import_entries-AreConsistent_example : AreConsistent (import_entries small false true 300 held).1
import_entries-AreConsistent_example =
    import_entries-AreConsistent small false true 300 held held-AreConsistent
