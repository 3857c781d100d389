-- ===== src/Sdo/Download.antt =====
-- `SDO::download` against a server.
use kacanopen.Prelude.{
  if_apply, leb, ◌==◌, ◌||◌, ltb, if◌then◌else◌, ◌++◌, ℕ, zero, suc, ◌+◌, ◌*◌, ◌/◌, ◌^◌, ◌≤◌, ◌<◌,
  ◌≡◌, refl, ap, ◌∙◌, List, [], ◌∷◌, arith, length, take, bit_and, not, true, false, low8, some,
}
use kacanopen.Error.{Result, ok, err, sdo_error, of_sdo_data}
use kacanopen.Message.{data_at, Message}
use kacanopen.SdoResponse.{get_data, failed, of_message}
use kacanopen.Sdo.{
  Bus, Window, Receiver, unassigned, check_response, request, download_command, expedited_bytes,
  download,
}
use kacanopen.Sdo.Exchange.{bus, one_response}
use kacanopen.Sdo.Server.{Serves, read_download}

index_bytes :
    (index : ℕ) → index < 65536 → bit_and (index / 2 ^ 8) 0xFF * 256 + bit_and index 0xFF ≡ index
index_bytes index fits = omega (arith, low8 index, low8 (index / 2 ^ 8))

-- A server reads from the request the object and exactly the bytes that `download` was given.
pub read_download-request :
    (n index subindex size : ℕ) (bytes : List ℕ)
    → index < 65536
    → 1 ≤ size
    → size ≤ 4
    → size ≤ length bytes
    → read_download (request (download_command size) n index subindex (expedited_bytes size bytes))
      ≡ some (index, subindex, take size bytes)
unfolding read_download request download_command expedited_bytes
read_download-request n index subindex (suc zero) (a ∷ bs) fits lo hi enough =
    rw (index_bytes index fits)
read_download-request n index subindex (suc (suc zero)) (a ∷ b ∷ bs) fits lo hi enough =
    rw (index_bytes index fits)
read_download-request n index subindex (suc (suc (suc zero))) (a ∷ b ∷ c ∷ bs) fits lo hi enough =
    rw (index_bytes index fits)
read_download-request n index subindex (suc (suc (suc (suc zero)))) (a ∷ b ∷ c ∷ d ∷ bs) fits lo hi
      enough =
    rw (index_bytes index fits)
read_download-request n index subindex _ _ fits lo hi enough = absurd (omega arith)

-- What `download` makes of a response.
abbrev pub verdict : Message → Result (Unit {0})
verdict m =
    if data_at m 0 == 0x80 then err (sdo_error (of_sdo_data (get_data (of_message m)))) else ok tt

check_response_lem : (m : Message) (b : Bus) → check_response (of_message m) b ≡ (verdict m, b)
unfolding check_response failed of_message
check_response_lem m b = if_apply (data_at m 0 == 0x80) _ _ b ∙ ground arith

-- An expedited download to a node that responds in time, whatever else is on the bus: one request is
-- sent, from which a server reads the object and exactly the given bytes, and the call succeeds
-- unless the response is an abort, which it reports.
pub download_served :
    (n index subindex size : ℕ) (bytes : List ℕ) (m : Message) (log : List Message)
    (ws : List Window) (rs : ℕ → Receiver)
    → ((k : ℕ) → rs k ≡ unassigned)
    → index < 65536
    → 1 ≤ size
    → size ≤ 4
    → size ≤ length bytes
    → Serves n (m ∷ []) ws
    → let (r, b') = download n index subindex size bytes (bus log ws rs) in
      (r ≡ verdict m)
      × (q : Message) × (b'.sent ≡ log ++ (q ∷ []))
      × (q.cob_id ≡ 0x600 + n)
      × (read_download q ≡ some (index, subindex, take size bytes))
unfolding download
download_served n index subindex size bytes m log [] rs idle fits lo hi enough served =
    absurd served
download_served n index subindex size bytes m log (w ∷ ws) rs idle fits lo hi enough
      (hit, quiet, _) =
    let q = request (download_command size) n index subindex (expedited_bytes size bytes) in
    let (rs', e, idle') =
      one_response log w ws rs (download_command size) n index subindex (expedited_bytes size bytes)
        m idle hit quiet in
    let sized : (not (ltb 0 size) || not (leb size (length bytes))) ≡ false = ground arith in
    let short : leb size 4 ≡ true = ground arith in
    let done : download n index subindex size bytes (bus log (w ∷ ws) rs)
        ≡ (verdict m, bus (log ++ (q ∷ [])) ws rs') =
      rw (sized, short, e) (check_response_lem m _) in
    (
      ap (λ (p : Result (Unit {0}) × Bus). p.0) done,
      q,
      ap (λ (p : Result (Unit {0}) × Bus). p.1.sent) done,
      unfold request in refl,
      read_download-request n index subindex size bytes fits lo hi enough,
    )
