-- ===== src/Device/Periodic.antt =====
-- The thread of a periodic transmit mapping (`add_transmit_pdo_mapping` of src/master/device.cpp, and
-- the destructor of `TransmitPDOMapping`, which ends it).
use kacanopen.Prelude.{◌∙◌, ◌≤◌, ◌≡◌, ℕ, refl, ap, List, [], ◌∷◌, length, All}
use kacanopen.Error.{Result, ok}
use kacanopen.Exec.{Exec, ◌>>◌}
use kacanopen.Exec.Laws.{then_ok}
use kacanopen.Pdo.{Pdo, message_of}
use kacanopen.Transmit.{TransmitPdoMapping, check_correctness}
use kacanopen.Transmit.Layout.{IsReady, Carries, send_layout}
use kacanopen.Device.{Device}
use kacanopen.Device.Access.{send_transmit}
use kacanopen.Device.OnChange.{mapped_in, with_sent}

-- The loop of the thread. An item is what the rest of the program does to the device while the thread
-- sleeps; after the last of them `run_periodic_transmitter` is false.
unfoldable pub transmit_rounds :
    TransmitPdoMapping → List (Device → Device) → Exec Device (Unit {0})
transmit_rounds t [] d = (ok tt, d)
transmit_rounds t (asleep ∷ rest) d =
    (do send_transmit t; λ d'. transmit_rounds t rest (asleep d')) d

-- The mapping passes its check and its entries hold values.
abbrev pub CanSend : TransmitPdoMapping → Device → Type 0
CanSend t d = (check_correctness (mapped_in d t) ≡ ok tt) × All (IsReady (mapped_in d t)) t.mappings

-- In each round one PDO is sent that carries the values of that time.
pub SendsRounds : TransmitPdoMapping → List (Device → Device) → Device → Device → Type 0
SendsRounds t [] d d' = d ≡ d'
SendsRounds t (asleep ∷ rest) d d' =
    (bytes : List ℕ) × (length bytes ≤ 8)
    × All (Carries (mapped_in d t) bytes) t.mappings
    × SendsRounds t rest (asleep (with_sent d (message_of t.cob_id bytes d.stack))) d'

-- As long as the rest of the program keeps the mapping able to send, the thread never throws, and
-- in each round it sends one PDO of at most eight bytes under the mapping's COB-ID that carries, at
-- each mapping's offset, the bytes of the values that the dictionary holds at that time.
pub transmit_rounds_lem :
    (t : TransmitPdoMapping) (rounds : List (Device → Device)) (d : Device)
    → CanSend t d
    → All (λ (asleep : Device → Device). (u : Device) → CanSend t u → CanSend t (asleep u)) rounds
    → (d' : Device) × (transmit_rounds t rounds d ≡ (ok tt, d')) × SendsRounds t rounds d d'
unfolding transmit_rounds SendsRounds send_transmit
transmit_rounds_lem t [] d can keep = (d, refl, refl)
transmit_rounds_lem t (asleep ∷ rest) d (passed, ready) (keeps, keep) =
    let (bytes, short, run, carries) = send_layout d.stack (mapped_in d t) d.pdo passed ready in
    let u : Device = with_sent d (message_of t.cob_id bytes d.stack) in
    let sent : send_transmit t d ≡ (ok tt, u) =
      ap (λ (p : Result (Unit {0}) × Pdo). (p.0, record d { pdo = p.1 })) run in
    let (d', later, sends) = transmit_rounds_lem t rest (asleep u) (keeps u (passed, ready)) keep in
    (
      d',
      then_ok (send_transmit t) d u (λ (w : Device). transmit_rounds t rest (asleep w)) tt sent
          ∙ later,
      (bytes, short, carries, sends),
    )
