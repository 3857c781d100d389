-- ===== src/Value/Casts.antt =====
-- The cast operators of `Value` (src/master/value.cpp), named by the type that they ask for.
use kacanopen.Prelude.{ℕ, List, Bool}
use kacanopen.Error.{Result, ok, err, canopen_error}
use kacanopen.Value.Integers.{ℤ}
use kacanopen.Value.{
  Value, of_uint8, of_uint16, of_uint32, of_uint64, of_int8, of_int16, of_int32, of_int64,
  of_boolean, of_real32, of_real64, of_string, of_octet_string,
}

pub to_uint8 : Value → Result ℕ
to_uint8 (of_uint8 x) = ok x
to_uint8 _ = err canopen_error

unfoldable pub to_uint16 : Value → Result ℕ
to_uint16 (of_uint16 x) = ok x
to_uint16 _ = err canopen_error

unfoldable pub to_uint32 : Value → Result ℕ
to_uint32 (of_uint32 x) = ok x
to_uint32 _ = err canopen_error

pub to_uint64 : Value → Result ℕ
to_uint64 (of_uint64 x) = ok x
to_uint64 _ = err canopen_error

pub to_int8 : Value → Result ℤ
to_int8 (of_int8 x) = ok x
to_int8 _ = err canopen_error

pub to_int16 : Value → Result ℤ
to_int16 (of_int16 x) = ok x
to_int16 _ = err canopen_error

pub to_int32 : Value → Result ℤ
to_int32 (of_int32 x) = ok x
to_int32 _ = err canopen_error

pub to_int64 : Value → Result ℤ
to_int64 (of_int64 x) = ok x
to_int64 _ = err canopen_error

pub to_boolean : Value → Result Bool
to_boolean (of_boolean x) = ok x
to_boolean _ = err canopen_error

pub to_real32 : Value → Result ℕ
to_real32 (of_real32 x) = ok x
to_real32 _ = err canopen_error

pub to_real64 : Value → Result ℕ
to_real64 (of_real64 x) = ok x
to_real64 _ = err canopen_error

unfoldable pub to_string : Value → Result (List ℕ)
to_string (of_string x) = ok x
to_string _ = err canopen_error

pub to_octet_string : Value → Result (List ℕ)
to_octet_string (of_octet_string x) = ok x
to_octet_string _ = err canopen_error
