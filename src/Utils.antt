-- ===== src/Utils.antt =====
-- Conversions between codes, texts and enumerations (src/master/utils.cpp; the sizes of types are in
-- Value and `escape` in Dictionary). Texts are lists of character codes.
use kacanopen.Prelude.{
  zero, suc, ◌++◌, ◌/◌, ◌%◌, ◌%◌, ◌++◌, ◌/◌, suc, ◌==◌, ℕ, ◌+◌, ◌-◌, ◌*◌, ◌^◌, List, [], ◌∷◌,
  Option, none, some, ltb, leb, if◌then◌else◌, Bool, true, false, ◌||◌, ◌&&◌,
}
use kacanopen.Prelude.{codes}
use kacanopen.Value.{
  ValueType, uint8, uint16, uint32, uint64, int8, int16, int32, int64, real32, real64, string,
  boolean, octet_string, invalid,
}
use kacanopen.Value.Equality.{bytes_equal}
use kacanopen.Entry.{AccessType, read_only, write_only, read_write, constant}

pub type_to_string : ValueType → List ℕ
type_to_string uint8 = codes "uint8"
type_to_string uint16 = codes "uint16"
type_to_string uint32 = codes "uint32"
type_to_string uint64 = codes "uint64"
type_to_string int8 = codes "int8"
type_to_string int16 = codes "int16"
type_to_string int32 = codes "int32"
type_to_string int64 = codes "int64"
type_to_string real32 = codes "real32"
type_to_string real64 = codes "real64"
type_to_string boolean = codes "boolean"
type_to_string string = codes "string"
type_to_string octet_string = codes "octet_string"
type_to_string invalid = codes "unknown type"

-- The case labels are the numbers of `DataType`.
pub type_code_to_type : ℕ → ValueType
type_code_to_type code =
    if code == 0x1
    then boolean
    else if code == 0x2
    then int8
    else if code == 0x3
    then int16
    else if code == 0x4
    then int32
    else if code == 0x5
    then uint8
    else if code == 0x6
    then uint16
    else if code == 0x7
    then uint32
    else if code == 0x8
    then real32
    else if code == 0x9
    then string
    else if code == 0xA
    then octet_string
    else if code == 0x11
    then real64
    else if code == 0x15
    then int64
    else if code == 0x1B
    then uint64
    else invalid

pub string_to_access_type : List ℕ → AccessType
string_to_access_type str =
    if bytes_equal str (codes "ro")
    then read_only
    else if bytes_equal str (codes "wo")
    then write_only
    else if bytes_equal str (codes "const")
    then constant
    else read_write

pub access_type_to_string : AccessType → List ℕ
access_type_to_string read_only = codes "ro"
access_type_to_string write_only = codes "wo"
access_type_to_string constant = codes "const"
access_type_to_string read_write = codes "rw"

-- `isspace` of the C locale
unfoldable pub is_space : ℕ → Bool
is_space c = (c == 32) || (leb 9 c && leb c 13)

-- The value of a digit, in any base up to 16
unfoldable pub digit_value : ℕ → Option ℕ
digit_value c =
    if leb 48 c && leb c 57
    then some (c - 48)
    else if leb 65 c && leb c 70
    then some (c - 55)
    else if leb 97 c && leb c 102
    then some (c - 87)
    else none

unfoldable pub is_digit_of : ℕ → ℕ → Bool
is_digit_of base c = elim (digit_value c) [ none ↦ false | some v ↦ ltb v base ]

-- The number that the digits at the start of a text make, and whether there is a digit
unfoldable pub read_digits : ℕ → ℕ → List ℕ → ℕ
read_digits base value [] = value
read_digits base value (c ∷ cs) =
    let rest = read_digits base (value * base + get_digit (digit_value c)) cs in
    if is_digit_of base c then rest else value
  where
    get_digit : Option ℕ → ℕ
    get_digit none = 0
    get_digit (some v) = v

unfoldable pub skip_spaces : List ℕ → List ℕ
skip_spaces [] = []
skip_spaces (c ∷ cs) = let rest = skip_spaces cs in if is_space c then rest else c ∷ cs

unfoldable pub starts_with_digit : ℕ → List ℕ → Bool
starts_with_digit base [] = false
starts_with_digit base (c ∷ cs) = is_digit_of base c

-- "0x" is skipped if the base is 16 and a digit follows.
unfoldable pub skip_prefix : ℕ → List ℕ → List ℕ
skip_prefix base (zero_code ∷ x ∷ cs) =
    if (zero_code == 48)
      && (((x == 120) || (x == 88)) && ((base == 16) && starts_with_digit base cs))
    then cs
    else zero_code ∷ x ∷ cs
skip_prefix base cs = cs

-- Without a digit `stoull` throws `invalid_argument`, and above 64 bits `out_of_range`: both give 0.
unfoldable pub read_number : ℕ → Bool → List ℕ → ℕ
read_number base negative cs =
    let value = read_digits base 0 (skip_prefix base cs) in
    if ltb value (2 ^ 64) then (if negative && ltb 0 value then 2 ^ 64 - value else value) else 0

-- `std::stoull(str, nullptr, base)` with the `catch` clauses
unfoldable pub str_to_uint : ℕ → List ℕ → ℕ
str_to_uint base str = elim (skip_spaces str) [
  | [] ↦ 0
  | c ∷ cs ↦
      if c == 43
      then read_number base false cs
      else if c == 45
      then read_number base true cs
      else read_number base false (c ∷ cs)
]

unfoldable pub hexstr_to_uint : List ℕ → ℕ
hexstr_to_uint str = str_to_uint 16 str

unfoldable pub decstr_to_uint : List ℕ → ℕ
decstr_to_uint str = str_to_uint 10 str

-- `std::to_string` of a number with so many digits at most
unfoldable pub show_digits : ℕ → ℕ → List ℕ
show_digits zero n = []
show_digits (suc most) n =
    let higher = show_digits most (n / 10) in
    if ltb n 10 then (48 + n) ∷ [] else higher ++ ((48 + n % 10) ∷ [])

-- The enumerators of `DataType` under their numbers
pub data_type_to_string : ℕ → List ℕ
data_type_to_string code =
    if code == 0x1
    then codes "BOOLEAN"
    else if code == 0x2
    then codes "INTEGER8"
    else if code == 0x3
    then codes "INTEGER16"
    else if code == 0x4
    then codes "INTEGER32"
    else if code == 0x5
    then codes "UNSIGNED8"
    else if code == 0x6
    then codes "UNSIGNED16"
    else if code == 0x7
    then codes "UNSIGNED32"
    else if code == 0x8
    then codes "REAL32"
    else if code == 0x9
    then codes "VISIBLE_STRING"
    else if code == 0xA
    then codes "OCTET_STRING"
    else if code == 0xB
    then codes "UNICODE_STRING"
    else if code == 0xC
    then codes "TIME_OF_DAY"
    else if code == 0xD
    then codes "TIME_DIFFERENCE"
    else if code == 0xF
    then codes "LARGEDATA"
    else if code == 0x10
    then codes "INTEGER24"
    else if code == 0x11
    then codes "REAL64"
    else if code == 0x12
    then codes "INTEGER40"
    else if code == 0x13
    then codes "INTEGER48"
    else if code == 0x14
    then codes "INTEGER56"
    else if code == 0x15
    then codes "INTEGER64"
    else if code == 0x18
    then codes "UNSIGNED40"
    else if code == 0x19
    then codes "UNSIGNED48"
    else if code == 0x1A
    then codes "UNSIGNED56"
    else if code == 0x1B
    then codes "UNSIGNED64"
    else if code == 0x20
    then codes "PDO_COMMUNICATION_PARAMETER"
    else if code == 0x21
    then codes "PDO_MAPPING"
    else if code == 0x22
    then codes "SDO_PARAMETER"
    else if code == 0x23
    then codes "IDENTITY"
    else codes "[Utils::data_type_to_string] Unknown type with id " ++ show_digits 5 code
