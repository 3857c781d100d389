-- ===== src/Value/Equality.antt =====
-- `Value::operator==` (src/master/value.cpp).
-- The operator is modelled on values of one type, as `Entry::set_value` calls it; on integers and
-- strings of another type the conversion of the other value throws. Two octet strings print alike
-- just if they are equal. A float is not equal to itself just if it is not a number.
use kacanopen.Prelude.{◌==◌, ℕ, ◌/◌, ◌%◌, ◌^◌, List, [], ◌∷◌, not, Bool, true, false, ◌&&◌}
use kacanopen.Error.{Result, ok, err, canopen_error}
use kacanopen.Value.Integers.{ℤ, pos, negsuc}
use kacanopen.Value.{
  Value, of_uint8, of_uint16, of_uint32, of_uint64, of_int8, of_int16, of_int32, of_int64,
  of_real32, of_real64, of_string, of_boolean, of_octet_string,
}

unfoldable pub integers_equal : ℤ → ℤ → Bool
integers_equal (pos a) (pos b) = a == b
integers_equal (negsuc a) (negsuc b) = a == b
integers_equal _ _ = false

unfoldable pub bytes_equal : List ℕ → List ℕ → Bool
bytes_equal [] [] = true
bytes_equal (a ∷ xs) (b ∷ ys) = let rest = bytes_equal xs ys in (a == b) && rest
bytes_equal _ _ = false

-- All ones in the exponent and a fraction that is not zero
pub is_nan32 : ℕ → Bool
is_nan32 n = (n / 2 ^ 23 % 2 ^ 8 == 255) && not (n % 2 ^ 23 == 0)

pub is_nan64 : ℕ → Bool
is_nan64 n = (n / 2 ^ 52 % 2 ^ 11 == 2047) && not (n % 2 ^ 52 == 0)

-- Floats and booleans are compared with themselves: `real32 == (float)real32`.
unfoldable pub equals : Value → Value → Result Bool
unfolding integers_equal bytes_equal is_nan32 is_nan64
equals (of_uint8 a) (of_uint8 b) = ok (a == b)
equals (of_uint16 a) (of_uint16 b) = ok (a == b)
equals (of_uint32 a) (of_uint32 b) = ok (a == b)
equals (of_uint64 a) (of_uint64 b) = ok (a == b)
equals (of_int8 a) (of_int8 b) = ok (integers_equal a b)
equals (of_int16 a) (of_int16 b) = ok (integers_equal a b)
equals (of_int32 a) (of_int32 b) = ok (integers_equal a b)
equals (of_int64 a) (of_int64 b) = ok (integers_equal a b)
equals (of_real32 a) _ = ok (not (is_nan32 a))
equals (of_real64 a) _ = ok (not (is_nan64 a))
equals (of_boolean a) _ = ok true
equals (of_string a) (of_string b) = ok (bytes_equal a b)
equals (of_octet_string a) (of_octet_string b) = ok (bytes_equal a b)
equals _ _ = err canopen_error
