-- ===== src/Nmt.antt =====
-- The NMT master (include/kacanopen/core/nmt.h, src/core/nmt.cpp): which devices are alive.
-- Callbacks are named by numbers; a call of one is its name and the node ID that it is given. The
-- futures of the calls are not kept. `alive_devices_` is a list of pairs with each key once; the order
-- stands for the hash map's and no theorem depends on it. Each loop of `check_alive_devices` is one
-- step, and messages are received before, between and after the steps. `DeviceState` is spelled in
-- lower case.
pub mod Devices
pub mod Hearing
pub mod Tracking
pub mod Sending
mod Runs
use kacanopen.Prelude.{
  not, ℕ, zero, suc, ◌+◌, ◌-◌, ◌%◌, Option, none, some, List, [], ◌∷◌, ◌++◌, map, bit_and, ◌==◌,
  if◌then◌else◌,
}
use kacanopen.Message.{Message, get_node_id, data_at}

-- `NMT::Command` with its values
pub data Command : Type 0 where
  start_node stop_node enter_preoperational reset_node reset_communication : Command

pub command_byte : Command → ℕ
command_byte start_node = 0x01
command_byte stop_node = 0x02
command_byte enter_preoperational = 0x80
command_byte reset_node = 0x81
command_byte reset_communication = 0x82

pub data DeviceState : Type 0 where
  alive dead to_be_killed : DeviceState

abbrev pub Devices : Type 0
Devices = List (ℕ × DeviceState)

pub record Nmt : Type 0 where
  pub sent : List Message
  pub alive_devices : Devices
  pub alive_callbacks : List ℕ
  pub dead_callbacks : List ℕ
  pub alive_calls : List (ℕ × ℕ)
  pub dead_calls : List (ℕ × ℕ)

-- `find`
pub find : ℕ → Devices → Option DeviceState
find n [] = none
find n ((k, s) ∷ ds) = if k == n then some s else find n ds

-- `alive_devices_[n] = s`
pub assign : ℕ → DeviceState → Devices → Devices
assign n s [] = (n, s) ∷ []
assign n s ((k, t) ∷ ds) = let rest = assign n s ds in if k == n then (k, s) ∷ ds else (k, t) ∷ rest

-- `alive_devices_.insert({n, s})`, which leaves a key that is there alone
pub insert : ℕ → DeviceState → Devices → Devices
insert n s [] = (n, s) ∷ []
insert n s ((k, t) ∷ ds) = let rest = insert n s ds in if k == n then (k, t) ∷ ds else (k, t) ∷ rest

abbrev eight_zeros : List ℕ
eight_zeros = 0 ∷ 0 ∷ 0 ∷ 0 ∷ 0 ∷ 0 ∷ 0 ∷ 0 ∷ []

abbrev send : Message → Nmt → Nmt
send m s = record s { sent = s.sent ++ (m ∷ []) }

pub nmt_message : ℕ → Command → Message
nmt_message node_id cmd = record {
  cob_id = 0;
  rtr = 0;
  len = 2;
  payload = command_byte cmd ∷ node_id ∷ 0 ∷ 0 ∷ 0 ∷ 0 ∷ 0 ∷ 0 ∷ [];
}

pub send_nmt_message : ℕ → Command → Nmt → Nmt
send_nmt_message node_id cmd s = send (nmt_message node_id cmd) s

pub broadcast_nmt_message : Command → Nmt → Nmt
broadcast_nmt_message cmd s = send_nmt_message 0 cmd s

-- The request of the node guarding protocol
pub guard_request : ℕ → Message
guard_request node_id = record { cob_id = 0x700 + node_id; rtr = 1; len = 0; payload = eight_zeros }

-- `for (node_id = first; node_id < first + count; ++node_id)`
pub for_nodes : (ℕ → Nmt → Nmt) → ℕ → ℕ → Nmt → Nmt
for_nodes body first zero s = s
for_nodes body first (suc count) s = for_nodes body (first + 1) count (body first s)

-- The loops run from 1 to 238.
pub reset_all_nodes : Nmt → Nmt
reset_all_nodes s = for_nodes (λ n. send_nmt_message n reset_node) 1 238 s

pub discover_nodes : Nmt → Nmt
discover_nodes s = for_nodes (λ n. send (guard_request n)) 1 238 s

-- The state that an error control message reports, without the toggle bit
pub reported_state : Message → ℕ
reported_state m = bit_and (data_at m 0) 0x7F

-- `case 5`
pub operational : ℕ → Option DeviceState → Nmt → Nmt
operational n (some _) s = record s { alive_devices = assign n alive s.alive_devices }
operational n none s = send_nmt_message n reset_node s

-- `case 127`
pub preoperational : ℕ → Nmt → Nmt
preoperational n s = record s {
  alive_calls = s.alive_calls ++ map (λ c. (c, n)) s.alive_callbacks;
  alive_devices = insert n alive s.alive_devices;
}

pub process_incoming_message : Message → Nmt → Nmt
process_incoming_message m s =
    let n = get_node_id m in
    let state = reported_state m in
    if not (m.rtr == 0)
    then s
    else if state == 0
    then send (guard_request n) s
    else if state == 5
    then operational n (find n s.alive_devices) s
    else if state == 127
    then preoperational n s
    else s

pub register_device_alive_callback : ℕ → Nmt → Nmt
register_device_alive_callback c s = record s { alive_callbacks = s.alive_callbacks ++ (c ∷ []) }

pub register_device_dead_callback : ℕ → Nmt → Nmt
register_device_dead_callback c s = record s { dead_callbacks = s.dead_callbacks ++ (c ∷ []) }

-- The first loop of `check_alive_devices`
pub mark_all : Devices → Devices
mark_all [] = []
mark_all ((n, alive) ∷ ds) = (n, to_be_killed) ∷ mark_all ds
mark_all ((n, s) ∷ ds) = (n, s) ∷ mark_all ds

pub mark : Nmt → Nmt
mark s = record s { alive_devices = mark_all s.alive_devices }

-- The second loop: the devices, and the calls that it starts
pub sweep_all : List ℕ → Devices → Devices × List (ℕ × ℕ)
sweep_all callbacks [] = ([], [])
sweep_all callbacks ((n, to_be_killed) ∷ ds) =
    let rest = sweep_all callbacks ds in ((n, dead) ∷ rest.0, map (λ c. (c, n)) callbacks ++ rest.1)
sweep_all callbacks ((n, s) ∷ ds) = let rest = sweep_all callbacks ds in ((n, s) ∷ rest.0, rest.1)

pub sweep : Nmt → Nmt
sweep s =
    let swept = sweep_all s.dead_callbacks s.alive_devices in
    record s { alive_devices = swept.0; dead_calls = s.dead_calls ++ swept.1 }

pub receive : List Message → Nmt → Nmt
receive [] s = s
receive (m ∷ ms) s = receive ms (process_incoming_message m s)

-- One round of `check_alive_devices`, with the messages that arrive while it sleeps
pub check_round : List Message → Nmt → Nmt
check_round ms s = sweep (receive ms (mark s))
