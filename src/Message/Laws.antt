-- ===== src/Message/Laws.antt =====
-- How a COB-ID splits into a function code and a node ID.
use kacanopen.Prelude.{ℕ, ◌+◌, ◌*◌, ◌<◌, ◌≡◌, arith, low7}
use kacanopen.Message.{Message, get_node_id, get_function_code}

-- For a standard (11-bit) COB-ID the two accessors are the two fields of the identifier: together
-- they give it back, and each is in range.
pub cob_id_fields :
    (m : Message)
    → m.cob_id < 2048
    → (get_function_code m * 128 + get_node_id m ≡ m.cob_id)
      × (get_function_code m < 16)
      × (get_node_id m < 128)
unfolding get_node_id get_function_code
cob_id_fields m h = omega (arith, low7 m.cob_id)

pub get_node_id_lem : (m : Message) (f n : ℕ) → n < 128 → m.cob_id ≡ f * 128 + n → get_node_id m ≡ n
unfolding get_node_id
get_node_id_lem m f n h e = omega (arith, low7 m.cob_id)

pub get_function_code_lem :
    (m : Message) (f n : ℕ) → n < 128 → f < 256 → m.cob_id ≡ f * 128 + n → get_function_code m ≡ f
unfolding get_function_code
get_function_code_lem m f n h k e = omega arith

pub get_node_id-lt : (m : Message) → get_node_id m < 128
unfolding get_node_id
get_node_id-lt m = omega (arith, low7 m.cob_id)
