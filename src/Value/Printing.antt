-- ===== src/Value/Printing.antt =====
-- Printing a value (`to_string` and the operator << of src/master/value.cpp). An integer is written to
-- a stream in decimal; how a stream writes a float or a double is a parameter.
use kacanopen.Prelude.{ℕ, ◌+◌, List, [], ◌∷◌, ◌++◌, if◌then◌else◌}
use kacanopen.Prelude.{codes}
use kacanopen.Value.Integers.{ℤ, pos, negsuc, pattern}
use kacanopen.Utils.{show_digits}
use kacanopen.Value.{
  Value, of_uint8, of_uint16, of_uint32, of_uint64, of_int8, of_int16, of_int32, of_int64,
  of_boolean, of_real32, of_real64, of_string, of_octet_string, nothing,
}

-- A number of at most 64 bits
abbrev pub show_number : ℕ → List ℕ
show_number n = show_digits 20 n

-- A signed number of at most 64 bits
unfoldable pub show_integer : ℤ → List ℕ
show_integer (pos n) = show_number n
show_integer (negsuc n) = 45 ∷ show_number (n + 1)

-- The loop over an octet string
unfoldable pub show_octets : List ℕ → List ℕ
show_octets [] = []
show_octets (b ∷ []) = show_number b
show_octets (b ∷ c ∷ bs) = show_number b ++ codes "," ++ show_octets (c ∷ bs)

module _ (show_real32 show_real64 : ℕ → List ℕ) where
  -- `value_printer::operator<<`. An `int8` goes through `uint32_t`.
  unfoldable pub print_value : Value → List ℕ
  print_value (of_uint8 n) = show_number n
  print_value (of_uint16 n) = show_number n
  print_value (of_uint32 n) = show_number n
  print_value (of_uint64 n) = show_number n
  print_value (of_int8 z) = show_number (pattern 32 z)
  print_value (of_int16 z) = show_integer z
  print_value (of_int32 z) = show_integer z
  print_value (of_int64 z) = show_integer z
  print_value (of_real32 n) = show_real32 n
  print_value (of_real64 n) = show_real64 n
  print_value (of_boolean b) = if b then codes "TRUE" else codes "FALSE"
  print_value (of_string s) = s
  print_value (of_octet_string bs) = codes "[" ++ show_octets bs ++ codes "]"
  print_value nothing = codes "[Unknown value type]"
