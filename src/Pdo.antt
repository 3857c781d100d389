-- ===== src/Pdo.antt =====
-- PDO messages (include/kacanopen/core/pdo.h, src/core/pdo.cpp). A callback is named by a number; a
-- call of it is its name and the data that it is given.
pub mod Traffic
mod Runs
use kacanopen.Prelude.{
  ◌==◌, ℕ, zero, suc, ◌+◌, ◌-◌, ◌*◌, ◌/◌, ◌%◌, ◌^◌, ◌≤◌, ◌<◌, ◌≡◌, ◌≢◌, refl, ap, sym, ◌∙◌, List,
  [], ◌∷◌, ◌++◌, map, arith, Option, none, some, length, bit_and, ltb, leb, not, if◌then◌else◌,
  Bool, true, false, ◌||◌, ◌&&◌, ◌⊎◌, inl, inr, get_or, set, take, drop, replicate, All, ◌↔◌,
  Bool-cases, if_apply, if_both,
}
use kacanopen.Error.{err, ok, assertion}
use kacanopen.Exec.{Exec, raise}
use kacanopen.Message.{Message, data_at}

-- `PDO::PDOReceivedCallback`
pub record PdoReceivedCallback : Type 0 where
  pub cob_id : ℕ
  pub callback : ℕ

pub record Pdo : Type 0 where
  pub receive_callbacks : List PdoReceivedCallback
  pub calls : List (ℕ × List ℕ)
  pub sent : List Message

-- `for (i = 0; i < len; ++i) data.push_back(message.data[i])`
pub received_data : Message → ℕ → ℕ → List ℕ
received_data m i zero = []
received_data m i (suc count) = data_at m i ∷ received_data m (i + 1) count

-- The loop over the callbacks
pub call_each : ℕ → List ℕ → List PdoReceivedCallback → List (ℕ × List ℕ)
call_each id bytes [] = []
call_each id bytes (c ∷ cs) =
    let rest = call_each id bytes cs in if c.cob_id == id then (c.callback, bytes) ∷ rest else rest

pub process_incoming_message : Message → Pdo → Pdo
process_incoming_message m s =
    let bytes = received_data m 0 m.len in
    record s { calls = s.calls ++ call_each m.cob_id bytes s.receive_callbacks }

-- `for (i = 0; i < data.size(); ++i) message.data[i] = data[i]`, over what the array holds before
pub fill : List ℕ → ℕ → List ℕ → List ℕ
fill [] i array = array
fill (b ∷ bytes) i array = fill bytes (i + 1) (set array i b)

-- The message that `send` builds. `stack` is what its eight data bytes held: they are not cleared.
pub message_of : ℕ → List ℕ → List ℕ → Message
message_of id bytes stack = record {
  cob_id = id;
  rtr = 0;
  len = length bytes;
  payload = fill bytes 0 stack;
}

unfoldable pub send : List ℕ → ℕ → List ℕ → Exec Pdo (Unit {0})
send stack id bytes s =
    if leb (length bytes) 8
    then (ok tt, record s { sent = s.sent ++ (message_of id bytes stack ∷ []) })
    else (err assertion, s)

pub add_pdo_received_callback : ℕ → ℕ → Pdo → Pdo
add_pdo_received_callback id c s = record s {
  receive_callbacks = s.receive_callbacks ++ (record { cob_id = id; callback = c } ∷ []);
}

-- The first callback of the COB-ID is erased.
pub erase_first : ℕ → List PdoReceivedCallback → List PdoReceivedCallback
erase_first id [] = []
erase_first id (c ∷ cs) = let rest = erase_first id cs in if c.cob_id == id then cs else c ∷ rest

pub remove_pdo_received_callback : ℕ → Pdo → Pdo
remove_pdo_received_callback id s = record s {
  receive_callbacks = erase_first id s.receive_callbacks;
}
