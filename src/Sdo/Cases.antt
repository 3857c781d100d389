-- ===== src/Sdo/Cases.antt =====
-- `SDO::upload` where the server answers at once: with the data, or with an abort.
use kacanopen.Message.{Message}
use kacanopen.Prelude.{
  ◌==◌, ℕ, ◌+◌, ◌-◌, ◌*◌, ◌/◌, ◌^◌, ◌≤◌, ◌<◌, ◌≡◌, refl, ap, List, [], ◌∷◌, arith, length, bit_and,
  not, true, false,
}
use kacanopen.Error.{ok, err, sdo_error, of_sdo_data}
use kacanopen.SdoResponse.{get_data, get_length, failed, of_message}
use kacanopen.SdoResponse.Laws.{unused_bits}
use kacanopen.Sdo.{Window, Receiver, unassigned, check_response, expedited_result, upload}
use kacanopen.Sdo.Exchange.{bus, one_response}
use kacanopen.Sdo.Segments.{bit_02}
use kacanopen.Sdo.Server.{Serves, pad, expedited_response, abort_response}

expedited_command :
    (k : ℕ)
    → 1 ≤ k
    → k ≤ 4
    → ((0x43 + (4 - k) * 4 == 0x80) ≡ false)
      × (not (bit_and (0x43 + (4 - k) * 4) 0x02 == 0) ≡ true)
      × (4 - bit_and (0x43 + (4 - k) * 4) 0x0C / 2 ^ 2 ≡ k)
expedited_command k lo hi = (
  ground arith,
  ground (arith, bit_02 (0x43 + (4 - k) * 4)),
  ground (arith, unused_bits (0x43 + (4 - k) * 4)),
)

expedited_result_lem :
    (n index subindex : ℕ) (bytes : List ℕ)
    → 1 ≤ length bytes
    → length bytes ≤ 4
    → expedited_result (length bytes) 0 (of_message (expedited_response n index subindex bytes))
      ≡ bytes
unfolding expedited_result of_message expedited_response pad
expedited_result_lem n index subindex (a ∷ []) lo hi = refl
expedited_result_lem n index subindex (a ∷ b ∷ []) lo hi = refl
expedited_result_lem n index subindex (a ∷ b ∷ c ∷ []) lo hi = refl
expedited_result_lem n index subindex (a ∷ b ∷ c ∷ d ∷ []) lo hi = refl
expedited_result_lem n index subindex _ lo hi = absurd (omega arith)

-- 1 to 4 bytes that the server answers in the first response (expedited), whatever other traffic is on
-- the bus, are returned to an idle client as they are.
pub upload_expedited :
    (n index subindex : ℕ) (bytes : List ℕ) (log : List Message) (ws : List Window)
    (rs : ℕ → Receiver)
    → ((k : ℕ) → rs k ≡ unassigned)
    → 1 ≤ length bytes
    → length bytes ≤ 4
    → Serves n (expedited_response n index subindex bytes ∷ []) ws
    → (upload n index subindex (bus log ws rs)).0 ≡ ok bytes
unfolding upload check_response
upload_expedited n index subindex bytes log [] rs idle lo hi served = absurd served
upload_expedited n index subindex bytes log (w ∷ ws) rs idle lo hi (hit, quiet, _) =
    let m = expedited_response n index subindex bytes in
    let (rs', e, idle') =
      one_response log w ws rs 0x40 n index subindex (0 ∷ 0 ∷ 0 ∷ 0 ∷ []) m idle hit quiet in
    let (passed, at_once, count) = expedited_command (length bytes) lo hi in
    rw (e, upload)
      (unfold of_message expedited_response failed get_length in
        rw (passed, at_once, count) (ap ok (expedited_result_lem n index subindex bytes lo hi)))

-- An abort is reported under the type that stands for the server's code.
pub upload_aborted :
    (n index subindex reason : ℕ) (log : List Message) (ws : List Window) (rs : ℕ → Receiver)
    → ((k : ℕ) → rs k ≡ unassigned)
    → reason < 2 ^ 32
    → Serves n (abort_response n index subindex reason ∷ []) ws
    → (upload n index subindex (bus log ws rs)).0 ≡ err (sdo_error (of_sdo_data reason))
unfolding upload check_response
upload_aborted n index subindex reason log [] rs idle small served = absurd served
upload_aborted n index subindex reason log (w ∷ ws) rs idle small (hit, quiet, _) =
    let m = abort_response n index subindex reason in
    let (rs', e, idle') =
      one_response log w ws rs 0x40 n index subindex (0 ∷ 0 ∷ 0 ∷ 0 ∷ []) m idle hit quiet in
    rw (e, upload)
      (unfold of_message abort_response failed get_data in
        ap (λ (t : ℕ). err (sdo_error (of_sdo_data t))) (omega arith))
