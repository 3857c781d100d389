-- ===== src/Device/OnChange.antt =====
-- A write that changes an entry sends the PDO that is bound to it.
use kacanopen.Prelude.{[], ◌∷◌, ◌++◌}
use kacanopen.Value.{Value}
use kacanopen.Entry.{Entry}
use kacanopen.Message.{Message}
use kacanopen.Pdo.{Pdo}
use kacanopen.Transmit.{TransmitPdoMapping}
use kacanopen.Device.{Device}

-- The mapping on the tables of the device
abbrev pub mapped_in : Device → TransmitPdoMapping → TransmitPdoMapping
mapped_in d t = record t { dictionary = d.dictionary; name_to_address = d.name_to_address }

abbrev pub with_sent : Device → Message → Device
with_sent d m = record d { pdo = record d.pdo { sent = d.pdo.sent ++ (m ∷ []) } }
