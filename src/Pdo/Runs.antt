-- ===== src/Pdo/Runs.antt =====
-- The theorems about PDO messages at concrete inputs.
use kacanopen.Prelude.{ℕ, ◌≡◌, refl, List, [], ◌∷◌, arith}
use kacanopen.Error.{ok}
use kacanopen.Message.{Message}
use kacanopen.Pdo.{
  Pdo, send, process_incoming_message, add_pdo_received_callback, remove_pdo_received_callback,
}
use kacanopen.Pdo.Traffic.{listeners, process_incoming_message-send, listeners_lem}

abbrev listening : Pdo
listening = record {
  receive_callbacks =
      (record { cob_id = 0x185; callback = 1 })
      ∷ (record { cob_id = 0x186; callback = 2 })
      ∷ (record { cob_id = 0x185; callback = 3 })
      ∷ [];
  calls = [];
  sent = [];
}

abbrev garbage : List ℕ
garbage = 9 ∷ 9 ∷ 9 ∷ 9 ∷ 9 ∷ 9 ∷ 9 ∷ 9 ∷ []

process_incoming_message-send_example :
    (m : Message) × (send garbage 0x185 (1 ∷ 2 ∷ []) listening
      ≡ (ok tt, record listening { sent = m ∷ [] }))
    × ((process_incoming_message m listening).calls ≡ (1, 1 ∷ 2 ∷ []) ∷ (3, 1 ∷ 2 ∷ []) ∷ [])
unfolding listeners
process_incoming_message-send_example =
    process_incoming_message-send garbage 0x185 (1 ∷ 2 ∷ []) listening listening refl (omega arith)

listeners_lem_example :
    let at = λ (p : Pdo). listeners 0x185 p.receive_callbacks in
    (at (add_pdo_received_callback 0x185 7 listening) ≡ 1 ∷ 3 ∷ 7 ∷ [])
    × (at (remove_pdo_received_callback 0x185 listening) ≡ 3 ∷ [])
unfolding listeners
listeners_lem_example = listeners_lem 0x185 7 0x185 listening
