-- ===== src/SdoResponse/Laws.antt =====
-- The fields of a response.
use kacanopen.Prelude.{
  ℕ, ◌+◌, ◌*◌, ◌≤◌, ◌<◌, ◌^◌, ◌≡◌, refl, arith, bit_and, agree_below, all_below, ◌/◌, ◌%◌,
}
use kacanopen.Message.{IsByte}
use kacanopen.SdoResponse.{SdoResponse, byte_at, get_data, get_length}

-- The two bits `n` of a command byte.
pub unused_bits : (c : ℕ) → c < 256 → bit_and c 0x0C ≡ c / 4 % 4 * 4
unfolding all_below
unused_bits c h = agree_below 256 (λ y. bit_and y 0x0C) (λ y. y / 4 % 4 * 4) c refl h

-- An expedited response holds 1 to 4 bytes: 4 less the count of unused bytes.
pub get_length_lem :
    (r : SdoResponse)
    → r.command < 256
    → (get_length r + r.command / 4 % 4 ≡ 4) × (1 ≤ get_length r) × (get_length r ≤ 4)
unfolding get_length
get_length_lem r h = omega (arith, unused_bits r.command h)

pub get_data-lt :
    (r : SdoResponse)
    → IsByte (byte_at r 3)
    → IsByte (byte_at r 4)
    → IsByte (byte_at r 5)
    → IsByte (byte_at r 6)
    → get_data r < 2 ^ 32
unfolding get_data
get_data-lt r a b c d = omega arith
