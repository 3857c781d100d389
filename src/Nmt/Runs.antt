-- ===== src/Nmt/Runs.antt =====
-- The theorems of the NMT master at concrete inputs.
use kacanopen.Prelude.{◌≡◌, refl, List, [], ◌∷◌, map, arith, none, some, ltb, if◌then◌else◌, All}
use kacanopen.Core.Routing.{target, nmt, ignored}
use kacanopen.Message.{Message, get_node_id}
use kacanopen.Nmt.{
  reported_state, alive, dead, Nmt, find, nmt_message, guard_request, reset_node, discover_nodes,
  receive, check_round,
}
use kacanopen.Nmt.Devices.{marked, reports, calls_for, IsMap}
use kacanopen.Nmt.Tracking.{check_round_known, check_round_unknown}
use kacanopen.Nmt.Hearing.{reports_state, any}
use kacanopen.Nmt.Sending.{from, heartbeat, joins, discover_nodes_lem}

abbrev network : Nmt
network = record {
  sent = [];
  alive_devices = (3, alive) ∷ (4, alive) ∷ (5, dead) ∷ [];
  alive_callbacks = 1 ∷ [];
  dead_callbacks = 7 ∷ 8 ∷ [];
  alive_calls = [];
  dead_calls = [];
}

network_IsMap : IsMap network.alive_devices
unfolding find
network_IsMap = (refl, (refl, (refl, tt)))

four_known : find 4 network.alive_devices ≡ some alive
unfolding find
four_known = refl

nine_unknown : find 9 network.alive_devices ≡ none
unfolding find
nine_unknown = refl

-- Node 3 is heard, node 4 is not, node 9 shows itself.
abbrev traffic : List Message
traffic = heartbeat 3 5 ∷ heartbeat 9 127 ∷ []

check_round_known_example :
    (find 4 (check_round traffic network).alive_devices ≡ some dead)
    × (calls_for 4 (check_round traffic network).dead_calls ≡ 7 ∷ 8 ∷ [])
    × IsMap (check_round traffic network).alive_devices
unfolding any reports_state heartbeat reported_state get_node_id calls_for marked reports
check_round_known_example = check_round_known 4 alive traffic network network_IsMap four_known

check_round_unknown_example :
    (find 9 (check_round traffic network).alive_devices ≡ some alive)
    × (calls_for 9 (check_round traffic network).dead_calls ≡ [])
unfolding any reports_state heartbeat reported_state get_node_id calls_for marked reports
check_round_unknown_example = check_round_unknown 9 traffic network network_IsMap nine_unknown

joins_example :
    let s' =
      receive (heartbeat 9 5 ∷ heartbeat 9 0 ∷ heartbeat 9 127 ∷ heartbeat 9 5 ∷ []) network in
    (s'.sent ≡ nmt_message 9 reset_node ∷ guard_request 9 ∷ [])
    × (find 9 s'.alive_devices ≡ some alive)
    × (calls_for 9 s'.alive_calls ≡ 1 ∷ [])
unfolding calls_for
joins_example = joins 9 network (omega arith) nine_unknown

discover_nodes_lem_example :
    (discover_nodes network ≡ record network { sent = map guard_request (from 1 238) })
    × All (λ k. target (guard_request k) ≡ (if ltb k 128 then nmt else ignored)) (from 1 238)
discover_nodes_lem_example = discover_nodes_lem network
