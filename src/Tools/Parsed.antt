-- ===== src/Tools/Parsed.antt =====
-- What parse_sdo makes of four bytes.
use kacanopen.Prelude.{ℕ, ◌+◌, ◌*◌, ◌%◌, ◌^◌, ◌<◌, ◌≡◌, refl, ap, [], ◌∷◌, arith}
use kacanopen.Error.{ok}
use kacanopen.Value.{of_bytes, word32, int32, uint32, of_uint32, of_int32, get_type_size}
use kacanopen.Value.Integers.{signed}
use kacanopen.Tools.{
  parse_sdo, unsigned_int32, signed_int32, joined, double_word, low_word, high_word,
}

-- Of four bytes `parse_sdo` makes the same signed 32-bit number as `Value`; of the unsigned 32-bit
-- number that `Value` makes of them it keeps the lower 16 bits only.
pub parse_sdo_lem :
    (a b c d : ℕ)
    → a < 256
    → b < 256
    → c < 256
    → d < 256
    → let bs = a ∷ b ∷ c ∷ d ∷ [] in
      (of_bytes int32 bs ≡ ok (parse_sdo bs signed_int32))
      × ((n : ℕ) × (of_bytes uint32 bs ≡ ok (of_uint32 n))
          × (parse_sdo bs unsigned_int32 ≡ of_uint32 (n % 2 ^ 16)))
unfolding of_bytes parse_sdo joined double_word low_word high_word get_type_size word32
parse_sdo_lem a b c d ha hb hc hd = (
  ap (λ (n : ℕ). ok (of_int32 (signed 32 n))) (omega arith),
  ((a + b * 2 ^ 8 + c * 2 ^ 16 + d * 2 ^ 24) % 2 ^ 32, refl, ap of_uint32 (omega arith)),
)
