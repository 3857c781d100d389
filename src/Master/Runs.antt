-- ===== src/Master/Runs.antt =====
-- The theorem about the master at a concrete input.
use kacanopen.Prelude.{◌≡◌, [], ◌∷◌}
use kacanopen.Nmt.{Nmt}
use kacanopen.Master.{new_master, announce}
use kacanopen.Master.Devices.{count, occurs, announce_lem}

abbrev fresh : Nmt
fresh = record {
  sent = [];
  alive_devices = [];
  alive_callbacks = [];
  dead_callbacks = [];
  alive_calls = [];
  dead_calls = [];
}

announce_lem_example : count 5 (announce (5 ∷ 6 ∷ 5 ∷ []) (new_master 1 fresh)).devices ≡ 1
unfolding occurs
announce_lem_example = announce_lem 5 1 (5 ∷ 6 ∷ 5 ∷ []) fresh
