-- ===== src/Message.antt =====
-- The CAN message (include/kacanopen/core/message.h, src/core/message.cpp). The eight data bytes are
-- a list; `IsWf` says that every field fits its C++ type. `print` only writes to the console.
pub mod Laws
use kacanopen.Prelude.{ℕ, ◌/◌, ◌%◌, ◌^◌, ◌<◌, ◌≡◌, List, bit_and, get_or, length, All}

abbrev pub IsByte : ℕ → Type 0
IsByte b = b < 256

pub record Message : Type 0 where
  pub cob_id : ℕ
  pub rtr : ℕ
  pub len : ℕ
  pub payload : List ℕ

pub record IsWf (m : Message) : Type 0 where
  pub cob_id_fits : m.cob_id < 65536
  pub rtr_fits : m.rtr < 256
  pub len_fits : m.len < 256
  pub payload_size : length m.payload ≡ 8
  pub payload_bytes : All IsByte m.payload

-- `data[i]`
abbrev pub data_at : Message → ℕ → ℕ
data_at m i = get_or m.payload i 0

-- `cob_id & 0x7F`
unfoldable pub get_node_id : Message → ℕ
get_node_id m = bit_and m.cob_id 0x7F

-- `cob_id >> 7`, returned as a `uint8_t`
unfoldable pub get_function_code : Message → ℕ
get_function_code m = m.cob_id / 2 ^ 7 % 256
