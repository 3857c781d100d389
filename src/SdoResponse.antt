-- ===== src/SdoResponse.antt =====
-- What an SDO server answered (include/kacanopen/core/sdo_response.h, src/core/sdo_response.cpp).
-- The fields `index` and `subindex` of the struct are never written or read; `print` is not modelled.
pub mod Laws
pub mod Texts
use kacanopen.Prelude.{ℕ, ◌+◌, ◌-◌, ◌*◌, ◌/◌, ◌^◌, Bool, List, [], ◌∷◌, bit_and, get_or, ◌==◌}
use kacanopen.Message.{Message, get_node_id, data_at}

pub record SdoResponse : Type 0 where
  pub node_id : ℕ
  pub command : ℕ
  pub payload : List ℕ

-- `data[i]`, for `uint8_t data[7]`
abbrev pub byte_at : SdoResponse → ℕ → ℕ
byte_at r i = get_or r.payload i 0

pub get_index : SdoResponse → ℕ
get_index r = byte_at r 2 * 2 ^ 8 + byte_at r 1

pub get_subindex : SdoResponse → ℕ
get_subindex r = byte_at r 3

-- `4 - ((command & 0x0C) >> 2)`
unfoldable pub get_length : SdoResponse → ℕ
get_length r = 4 - bit_and r.command 0x0C / 2 ^ 2

unfoldable pub failed : SdoResponse → Bool
failed r = r.command == 0x80

unfoldable pub get_data : SdoResponse → ℕ
get_data r = byte_at r 6 * 2 ^ 24 + byte_at r 5 * 2 ^ 16 + byte_at r 4 * 2 ^ 8 + byte_at r 3

-- How `SDO::process_incoming_message` fills the response.
unfoldable pub of_message : Message → SdoResponse
of_message m = record {
  node_id = get_node_id m;
  command = data_at m 0;
  payload =
      data_at m 1
      ∷ data_at m 2
      ∷ data_at m 3
      ∷ data_at m 4
      ∷ data_at m 5
      ∷ data_at m 6
      ∷ data_at m 7
      ∷ [];
}
