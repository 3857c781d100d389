-- ===== src/Transmit/Runs.antt =====
-- The theorem about transmit PDOs at a concrete input.
use kacanopen.Prelude.{false, ℕ, ◌≤◌, ◌≡◌, refl, List, [], ◌∷◌, length, true, All}
use kacanopen.Error.{ok}
use kacanopen.Value.{ValueType, uint8, uint16, Value, of_uint8, of_uint16, get_bytes, get_type_size}
use kacanopen.Value.Equality.{bytes_equal}
use kacanopen.Entry.{ReadAccessMethod, WriteAccessMethod, Entry, read_write, get_value}
use kacanopen.Dictionary.{Address, find_name, find_entry, escape}
use kacanopen.Pdo.{Pdo, message_of}
use kacanopen.Transmit.{
  TransmitPdoMapping, on_change, mark_bytes, check_mapping, check_loop, check_correctness,
  mapped_bytes, send,
}
use kacanopen.Transmit.Layout.{IsReady, Carries, send_layout}

abbrev holding : ValueType → Value → Entry
holding t v = record {
  index = 0x2000;
  subindex = 0;
  name = [];
  type = t;
  access_type = read_write;
  read_access_method = ReadAccessMethod.sdo;
  write_access_method = WriteAccessMethod.sdo;
  disabled = false;
  is_generic = false;
  m_value = v;
  m_valid = true;
  value_changed_callbacks = [];
  calls = [];
}

abbrev word : Address
word = record { index = 0x6041; subindex = 0 }

abbrev mode : Address
mode = record { index = 0x6061; subindex = 0 }

-- "W" at 0 and "m" at 2
abbrev status : TransmitPdoMapping
status = record {
  cob_id = 0x185;
  transmission_type = on_change;
  repeat_time = 0;
  mappings =
      (record { entry_name = 87 ∷ []; offset = 0 })
      ∷ (record { entry_name = 109 ∷ []; offset = 2 })
      ∷ [];
  dictionary = (word, holding uint16 (of_uint16 0x1237)) ∷ (mode, holding uint8 (of_uint8 8)) ∷ [];
  name_to_address = (119 ∷ [], word) ∷ (109 ∷ [], mode) ∷ [];
}

abbrev idle : Pdo
idle = record { receive_callbacks = []; calls = []; sent = [] }

abbrev garbage : List ℕ
garbage = 9 ∷ 9 ∷ 9 ∷ 9 ∷ 9 ∷ 9 ∷ 9 ∷ 9 ∷ []

status_correct : check_correctness status ≡ ok tt
unfolding check_correctness check_loop check_mapping mark_bytes find_name find_entry bytes_equal
    escape get_type_size
status_correct = refl

status-IsReady : All (IsReady status) status.mappings
unfolding mapped_bytes find_name find_entry bytes_equal escape get_type_size get_value get_bytes
status-IsReady = (
  (holding uint16 (of_uint16 0x1237), (word, refl, refl), 0x37 ∷ 0x12 ∷ [], refl, refl),
  ((holding uint8 (of_uint8 8), (mode, refl, refl), 8 ∷ [], refl, refl), tt),
)

send_layout_example :
    (bytes : List ℕ) × (length bytes ≤ 8)
    × (send garbage status idle
        ≡ (ok tt, record idle { sent = message_of 0x185 bytes garbage ∷ [] }))
    × All (Carries status bytes) status.mappings
send_layout_example = send_layout garbage status idle status_correct status-IsReady
