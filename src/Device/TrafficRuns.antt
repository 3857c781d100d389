-- ===== src/Device/TrafficRuns.antt =====
-- The theorems about the PDOs of a device at concrete inputs.
use kacanopen.Device.Runs.{control, control_entry, motor}
use kacanopen.Prelude.{◌≡◌, refl, [], ◌∷◌, true}
use kacanopen.Prelude.{codes}
use kacanopen.Error.{ok}
use kacanopen.Message.{Message}
use kacanopen.Value.{of_uint16, get_bytes, get_type_size}
use kacanopen.Value.Equality.{bytes_equal}
use kacanopen.Entry.{Entry, get_value, WriteAccessMethod}
use kacanopen.Dictionary.{address_equal, find_name, find_entry, escape}
use kacanopen.Transmit.{
  periodic, TransmitPdoMapping, on_change, check_correctness, check_loop, check_mapping, mark_bytes,
  mapped_bytes,
}
use kacanopen.Device.{Device}
use kacanopen.Device.Periodic.{CanSend, SendsRounds, transmit_rounds, transmit_rounds_lem}
use kacanopen.Device.Cached.{stored}
use kacanopen.Device.{put_entry}
use kacanopen.Entry.{store}

-- What the node sends: its control word at byte 1
abbrev telling : TransmitPdoMapping
telling = record {
  cob_id = 0x185;
  transmission_type = on_change;
  repeat_time = 0;
  mappings = (record { entry_name = codes "controlword"; offset = 1 }) ∷ [];
  dictionary = motor.dictionary;
  name_to_address = motor.name_to_address;
}

-- The control word is sent when it changes.
abbrev watched_entry : Entry
watched_entry = record control_entry {
  write_access_method = WriteAccessMethod.cache;
  value_changed_callbacks = 0 ∷ [];
}

abbrev watched : Device
watched = record motor {
  dictionary = (control, watched_entry) ∷ [];
  transmit_pdo_mappings = telling ∷ [];
}

abbrev changed_device : Device
changed_device = stored control watched_entry (of_uint16 15) true watched

-- The control word is sent every 100 ms; in the first pause it is set to 15.
abbrev pulsing : TransmitPdoMapping
pulsing = record telling { transmission_type = periodic; repeat_time = 100 }

abbrev set_in_pause : Device → Device
set_in_pause u = record u {
  dictionary = changed_device.dictionary;
  name_to_address = changed_device.name_to_address;
}

pulsing-CanSend : CanSend pulsing motor
unfolding check_correctness check_loop check_mapping mark_bytes find_name find_entry bytes_equal
    address_equal escape get_type_size mapped_bytes get_value get_bytes
pulsing-CanSend = (refl, ((control_entry, (control, refl, refl), 6 ∷ 0 ∷ [], refl, refl), tt))

set_in_pause-CanSend : (u : Device) → CanSend pulsing u → CanSend pulsing (set_in_pause u)
unfolding check_correctness check_loop check_mapping mark_bytes find_name find_entry bytes_equal
    address_equal escape get_type_size mapped_bytes get_value get_bytes put_entry store
set_in_pause-CanSend u can = (
  refl,
  ((store (of_uint16 15) true watched_entry, (control, refl, refl), 15 ∷ 0 ∷ [], refl, refl), tt),
)

transmit_rounds_lem_example :
    (d' : Device) × (transmit_rounds pulsing (set_in_pause ∷ (λ u. u) ∷ []) motor ≡ (ok tt, d'))
    × SendsRounds pulsing (set_in_pause ∷ (λ u. u) ∷ []) motor d'
transmit_rounds_lem_example =
    transmit_rounds_lem pulsing (set_in_pause ∷ (λ u. u) ∷ []) motor pulsing-CanSend
      (set_in_pause-CanSend, ((λ u can. can), tt))
