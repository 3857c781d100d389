-- ===== src/Device/StepRuns.antt =====
-- A device in use: an entry is added, a receive mapping is bound to it, and a PDO arrives.
use kacanopen.Prelude.{◌≡◌, refl, [], ◌∷◌, some}
use kacanopen.Prelude.{codes}
use kacanopen.Message.{Message}
use kacanopen.Value.{uint16}
use kacanopen.Value.{get_type_size}
use kacanopen.Entry.{new_entry, Entry, read_write, ReadAccessMethod}
use kacanopen.Dictionary.{find_name, find_entry, escape, address_equal}
use kacanopen.Value.Equality.{bytes_equal}
use kacanopen.Pdo.{message_of}
use kacanopen.Device.Mappings.{bind_mapping}
use kacanopen.Device.{has_entry_at, resolve, has_entry, entry_at, Device, new_device, add_entry}
use kacanopen.Device.Access.{get_entry_at}
use kacanopen.Device.Mappings.{add_receive_pdo_mapping, receive_pdo}
use kacanopen.Device.Soundness.{IsSound}
use kacanopen.Device.Received.{OnlyValues}
use kacanopen.Device.Typed.{Answers, HasType}
use kacanopen.Device.Runs.{motor, control, garbage}
use kacanopen.Device.Steps.{
  adds_entry, maps, receives, Reach, later, new_device-Reach, Reach-HasType, Reach-OnlyValues,
}

abbrev blank : Device
blank = new_device 5 motor.bus (record motor.pdo { receive_callbacks = [] }) motor.nmt 2 garbage

abbrev named : Device
named = (add_entry control (codes "Controlword") uint16 read_write blank).1

abbrev listening : Device
listening = (add_receive_pdo_mapping 7 0x185 (codes "controlword") 1 named).1

-- The control word 0x001F at byte 1
abbrev told : Message
told = message_of 0x185 (0 ∷ 0x1F ∷ 0 ∷ []) garbage

abbrev running : Device
running = (receive_pdo told listening).1

listening-Reach : Reach blank listening
listening-Reach =
    later (adds_entry control (codes "Controlword") uint16 read_write blank)
      (maps 7 0x185 (codes "controlword") 1 named)

running-Reach : Reach blank running
running-Reach = later listening-Reach (receives told listening)

new_device-Reach_example : IsSound running
new_device-Reach_example =
    new_device-Reach 5 motor.bus (record motor.pdo { receive_callbacks = [] }) motor.nmt 2 garbage
      running running-Reach

abbrev fresh_entry : Entry
fresh_entry = new_entry 0x6040 0 (codes "controlword") uint16 read_write

listening_found : find_entry control listening.dictionary ≡ some fresh_entry
unfolding new_device add_entry has_entry_at find_name find_entry address_equal
    add_receive_pdo_mapping resolve has_entry entry_at bind_mapping escape bytes_equal get_type_size
    new_entry
listening_found = refl

Reach-HasType_example :
    Answers (HasType uint16) (get_entry_at control ReadAccessMethod.sdo listening).0
unfolding new_entry
Reach-HasType_example =
    Reach-HasType 5 motor.bus (record motor.pdo { receive_callbacks = [] }) motor.nmt 2 garbage
      listening control fresh_entry ReadAccessMethod.sdo listening-Reach listening_found

Reach-OnlyValues_example : OnlyValues running (receive_pdo told running).1
Reach-OnlyValues_example =
    Reach-OnlyValues 5 motor.bus (record motor.pdo { receive_callbacks = [] }) motor.nmt 2 garbage
      running told running-Reach
