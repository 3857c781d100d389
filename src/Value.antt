-- ===== src/Value.antt =====
-- Values of dictionary entries (include/kacanopen/master/types.h and value.h, src/master/value.cpp,
-- `get_type_size` and `type_code_to_type` of src/master/utils.cpp).
-- A value is the field of the union that its type selects. Unsigned fields are natural numbers and
-- signed fields integers; a float is its bit pattern, which is what the conversions to and from
-- bytes read and write. Printing is not modelled.
pub mod Integers
pub mod Bytes
pub mod Equality
pub mod Casts
pub mod Printing
mod Runs
use kacanopen.Prelude.{
  ℕ, ◌+◌, ◌*◌, ◌/◌, ◌%◌, ◌^◌, Bool, true, false, List, [], ◌∷◌, bit_and, ltb, ◌==◌, ◌||◌,
  if◌then◌else◌, length, get_or,
}
use kacanopen.Error.{Result, ok, err, canopen_error}
use kacanopen.Value.Integers.{ℤ, pattern, signed}

-- `kaco::Type`
pub data ValueType : Type 0 where
  uint8 uint16 uint32 uint64 int8 int16 int32 int64 : ValueType
  real32 real64 string boolean octet_string invalid : ValueType

pub data Value : Type 0 where
  of_uint8 of_uint16 of_uint32 of_uint64 : ℕ → Value
  of_int8 of_int16 of_int32 of_int64 : ℤ → Value
  of_real32 of_real64 : ℕ → Value
  of_string : List ℕ → Value
  of_boolean : Bool → Value
  of_octet_string : List ℕ → Value
  nothing : Value

-- The member `type`
unfoldable pub type_of : Value → ValueType
type_of (of_uint8 n) = uint8
type_of (of_uint16 n) = uint16
type_of (of_uint32 n) = uint32
type_of (of_uint64 n) = uint64
type_of (of_int8 z) = int8
type_of (of_int16 z) = int16
type_of (of_int32 z) = int32
type_of (of_int64 z) = int64
type_of (of_real32 n) = real32
type_of (of_real64 n) = real64
type_of (of_string s) = string
type_of (of_boolean b) = boolean
type_of (of_octet_string s) = octet_string
type_of nothing = invalid

-- `Utils::get_type_size`
unfoldable pub get_type_size : ValueType → ℕ
get_type_size uint8 = 1
get_type_size int8 = 1
get_type_size boolean = 1
get_type_size uint16 = 2
get_type_size int16 = 2
get_type_size uint32 = 4
get_type_size int32 = 4
get_type_size real32 = 4
get_type_size uint64 = 8
get_type_size int64 = 8
get_type_size real64 = 8
get_type_size _ = 0

pub has_fixed_size : ValueType → Bool
has_fixed_size string = false
has_fixed_size octet_string = false
has_fixed_size _ = true

-- `data[0] + (data[1] << 8)`, and so on
pub word16 : List ℕ → ℕ
word16 bs = get_or bs 0 0 + get_or bs 1 0 * 2 ^ 8

unfoldable pub word32 : List ℕ → ℕ
word32 bs = get_or bs 0 0 + get_or bs 1 0 * 2 ^ 8 + get_or bs 2 0 * 2 ^ 16 + get_or bs 3 0 * 2 ^ 24

pub word64 : List ℕ → ℕ
word64 bs =
    get_or bs 0 0
    + get_or bs 1 0 * 2 ^ 8
    + get_or bs 2 0 * 2 ^ 16
    + get_or bs 3 0 * 2 ^ 24
    + get_or bs 4 0 * 2 ^ 32
    + get_or bs 5 0 * 2 ^ 40
    + get_or bs 6 0 * 2 ^ 48
    + get_or bs 7 0 * 2 ^ 56

-- The switch of `Value(Type, data)`. A signed sum is stored modulo its width.
pub read_value : ValueType → List ℕ → Result Value
read_value uint8 bs = ok (of_uint8 (get_or bs 0 0))
read_value int8 bs = ok (of_int8 (signed 8 (get_or bs 0 0)))
read_value uint16 bs = ok (of_uint16 (word16 bs % 2 ^ 16))
read_value int16 bs = ok (of_int16 (signed 16 (word16 bs)))
read_value uint32 bs = ok (of_uint32 (word32 bs % 2 ^ 32))
read_value int32 bs = ok (of_int32 (signed 32 (word32 bs)))
read_value uint64 bs = ok (of_uint64 (word64 bs % 2 ^ 64))
read_value int64 bs = ok (of_int64 (signed 64 (word64 bs)))
read_value real32 bs = ok (of_real32 (word32 bs % 2 ^ 32))
read_value real64 bs = ok (of_real64 (word64 bs % 2 ^ 64))
read_value string bs = ok (of_string bs)
read_value octet_string bs = ok (of_octet_string bs)
read_value boolean bs = ok (of_boolean (ltb 0 (get_or bs 0 0)))
read_value invalid bs = err canopen_error

-- `Value(Type, data)`
unfoldable pub of_bytes : ValueType → List ℕ → Result Value
unfolding read_value has_fixed_size
of_bytes t bs =
    if has_fixed_size t
    then (if length bs == get_type_size t then read_value t bs else err canopen_error)
    else read_value t bs

pub bytes16 : ℕ → List ℕ
bytes16 n = bit_and n 0xFF ∷ bit_and (n / 2 ^ 8) 0xFF ∷ []

pub bytes32 : ℕ → List ℕ
bytes32 n =
    bit_and n 0xFF
    ∷ bit_and (n / 2 ^ 8) 0xFF
    ∷ bit_and (n / 2 ^ 16) 0xFF
    ∷ bit_and (n / 2 ^ 24) 0xFF
    ∷ []

pub bytes64 : ℕ → List ℕ
bytes64 n =
    bit_and n 0xFF
    ∷ bit_and (n / 2 ^ 8) 0xFF
    ∷ bit_and (n / 2 ^ 16) 0xFF
    ∷ bit_and (n / 2 ^ 24) 0xFF
    ∷ bit_and (n / 2 ^ 32) 0xFF
    ∷ bit_and (n / 2 ^ 40) 0xFF
    ∷ bit_and (n / 2 ^ 48) 0xFF
    ∷ bit_and (n / 2 ^ 56) 0xFF
    ∷ []

-- `get_bytes`. Shifts and masks of a signed field read its two's complement.
unfoldable pub get_bytes : Value → Result (List ℕ)
unfolding bytes16 bytes32 bytes64
get_bytes (of_uint8 n) = ok (n ∷ [])
get_bytes (of_uint16 n) = ok (bytes16 n)
get_bytes (of_uint32 n) = ok (bytes32 n)
get_bytes (of_uint64 n) = ok (bytes64 n)
get_bytes (of_int8 z) = ok (pattern 8 z ∷ [])
get_bytes (of_int16 z) = ok (bytes16 (pattern 16 z))
get_bytes (of_int32 z) = ok (bytes32 (pattern 32 z))
get_bytes (of_int64 z) = ok (bytes64 (pattern 64 z))
get_bytes (of_real32 n) = ok (bytes32 n)
get_bytes (of_real64 n) = ok (bytes64 n)
get_bytes (of_boolean b) = ok ((if b then 0x01 else 0x00) ∷ [])
get_bytes (of_string s) = ok s
get_bytes (of_octet_string s) = ok s
get_bytes nothing = err canopen_error
