-- ===== src/Master.antt =====
-- The master (include/kacanopen/master/master.h, src/master/master.cpp). A device is its node ID;
-- whether `Core::start` succeeds is an argument, and `Core::stop` is left out. The bit set is a
-- function on node IDs, which as `uint8_t` are within it.
pub mod Devices
mod Runs
use kacanopen.Prelude.{
  ◌==◌, ℕ, zero, suc, ◌+◌, ◌-◌, ◌*◌, ◌/◌, ◌%◌, ◌^◌, ◌≤◌, ◌<◌, ◌≡◌, ◌≢◌, refl, ap, sym, ◌∙◌, List,
  [], ◌∷◌, ◌++◌, map, arith, Option, none, some, length, bit_and, ltb, leb, not, if◌then◌else◌,
  Bool, true, false, ◌||◌, ◌&&◌, ◌⊎◌, inl, inr, get_or, set, take, drop, replicate, All, ◌↔◌,
  Bool-cases, if_apply, if_both,
}
use kacanopen.Error.{Result, ok, err, assertion}
use kacanopen.Nmt.{Nmt, discover_nodes, register_device_alive_callback}

pub record Master : Type 0 where
  pub running : Bool
  pub device_alive : ℕ → Bool
  pub devices : List ℕ
  pub nmt : Nmt

-- The constructor, where `callback` names `device_alive_callback`
pub new_master : ℕ → Nmt → Master
new_master callback nmt = record {
  running = false;
  device_alive = λ n. false;
  devices = [];
  nmt = register_device_alive_callback callback nmt;
}

-- `start`, of either baud rate
pub start : Bool → Master → Bool × Master
start success s =
    if success then (true, record s { running = true; nmt = discover_nodes s.nmt }) else (false, s)

pub stop : Master → Master
stop s = record s { running = false }

pub num_devices : Master → ℕ
num_devices s = length s.devices

pub get_device : ℕ → Master → Result ℕ
get_device index s =
    if ltb index (length s.devices) then ok (get_or s.devices index 0) else err assertion

pub device_alive_callback : ℕ → Master → Master
device_alive_callback node_id s = if s.device_alive node_id then s else record s {
  device_alive = λ k. if k == node_id then true else s.device_alive k;
  devices = s.devices ++ (node_id ∷ []);
}

pub announce : List ℕ → Master → Master
announce [] s = s
announce (n ∷ ns) s = announce ns (device_alive_callback n s)
