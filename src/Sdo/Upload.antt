-- ===== src/Sdo/Upload.antt =====
-- `SDO::upload` against a server.
use mathlib.Core.Path.{subst}
use kacanopen.Prelude.{
  take_all, length-drop, inr, inl, leb, Bool-cases, ◌⊎◌, if_apply, true, false, bit_or, ◌==◌, ℕ,
  zero, suc, ◌+◌, ◌-◌, ◌*◌, ◌/◌, ◌%◌, ◌^◌, ◌≤◌, ◌<◌, ◌≡◌, refl, ap, ◌∙◌, List, [], ◌∷◌, ◌++◌, arith,
  length, take, drop, low16, bit_and, ltb, if◌then◌else◌,
}
use mathlib.Core.List.{append_assoc, append-nil}
use kacanopen.Error.{ok}
use kacanopen.Message.{Message}
use kacanopen.SdoResponse.{get_data, failed, of_message}
use kacanopen.Sdo.{
  request, check_response, Window, Receiver, unassigned, copy_segment, upload_segments, upload,
}
use kacanopen.Sdo.Exchange.{one_response, bus}
use kacanopen.Sdo.Receivers.{response_message}
use kacanopen.Sdo.Server.{
  initiate_response, segment_responses_more, segment_responses_last, take-pad_short, other_toggle,
  Serves, pad, length-pad, take-pad, segment_responses, upload_responses,
}
use kacanopen.Sdo.Segments.{copy_segment_lem, of_message-response, bit_01, bit_10}

module _ (n : ℕ) where
  -- One round of the loop, for a segment that is not the last.
  inner_round :
      (fuel size toggle command : ℕ) (bs result : List ℕ) (log : List Message) (w : Window)
      (rest : List Window) (rs : ℕ → Receiver)
      → ((k : ℕ) → rs k ≡ unassigned)
      → Serves n (response_message n command bs ∷ []) (w ∷ rest)
      → length bs ≡ 7
      → 0 < size
      → command < 64
      → command / 16 % 2 * 16 ≡ toggle
      → (log' : List Message) × (rs' : ℕ → Receiver) × (upload_segments
            (suc fuel)
            n
            size
            toggle
            result
            (bus log (w ∷ rest) rs)
          ≡ (if command % 2 == 0
              then upload_segments fuel n
                  (size - 7)
                  (other_toggle toggle)
                  (result ++ take size bs)
                  (bus log' rest rs')
              else (ok (result ++ take size bs), bus log' rest rs')))
        × ((k : ℕ) → rs' k ≡ unassigned)
  unfolding upload_segments check_response failed
  inner_round fuel size toggle command bs result log w rest rs idle served h pos small tog =
      let m = response_message n command bs in
      let (rs', e, idle') =
        one_response log w rest rs (bit_or 0x60 toggle) n 0 0 (0 ∷ 0 ∷ 0 ∷ 0 ∷ []) m idle served.0
          served.1 in
      let (body, head) = of_message-response n command bs h in
      let busy : (size == 0) ≡ false = ground arith in
      let passed : ((of_message m).command == 0x80) ≡ false = rw head (ground arith) in
      let agrees : (toggle == bit_and (of_message m).command 0x10) ≡ true =
        rw head (ground (arith, bit_10 command)) in
      let more : (bit_and (of_message m).command 0x01 == 0) ≡ (command % 2 == 0) =
        rw head (ground (arith, bit_01 command)) in
      let flips : (if ltb 0 toggle then 0 else 0x10) ≡ other_toggle toggle = ground arith in
      let copied : copy_segment (of_message m).payload size result
          ≡ (result ++ take size bs, size - 7) =
        rw body (copy_segment_lem bs size result ∙ rw h) in
      (
        log ++ (request (bit_or 0x60 toggle) n 0 0 (0 ∷ 0 ∷ 0 ∷ 0 ∷ []) ∷ []),
        rs',
        rw (busy, upload_segments, e, passed, agrees, more, flips, copied)
            (if_apply (command % 2 == 0) _ _ _),
        idle',
      )

  last_segment :
      (fuel size toggle : ℕ) (bytes result : List ℕ) (log : List Message) (ws : List Window)
      (rs : ℕ → Receiver)
      → ((k : ℕ) → rs k ≡ unassigned)
      → length bytes ≤ 7
      → 0 < size
      → size ≤ length bytes
      → (toggle ≡ 0) ⊎ (toggle ≡ 0x10)
      → Serves n (response_message n (toggle + (7 - length bytes) * 2 + 1) (pad 7 bytes) ∷ []) ws
      → (upload_segments (suc fuel) n size toggle result (bus log ws rs)).0
        ≡ ok (result ++ take size bytes)
  last_segment fuel size toggle bytes result log [] rs idle short pos fits tog served =
      absurd served
  last_segment fuel size toggle bytes result log (w ∷ ws) rs idle short pos fits tog served =
      let command = toggle + (7 - length bytes) * 2 + 1 in
      let (log', rs', e, idle') =
        inner_round fuel size toggle command (pad 7 bytes) result log w ws rs idle served
          (length-pad 7 bytes) pos (omega arith) (omega arith) in
      let odd : (command % 2 == 0) ≡ false = ground arith in
      let all : take size (pad 7 bytes) ≡ take size bytes =
        take-pad_short 7 size bytes fits (omega arith) in
      rw (e, odd, all) refl

  inner_segment :
      (sent fuel size toggle : ℕ) (bytes result : List ℕ) (log : List Message) (ws : List Window)
      (rs : ℕ → Receiver)
      → ((k : ℕ) → rs k ≡ unassigned)
      → 0 < size
      → size ≤ length bytes
      → (toggle ≡ 0) ⊎ (toggle ≡ 0x10)
      → Serves n
          (response_message n toggle (pad 7 bytes)
            ∷ segment_responses sent n (other_toggle toggle) (drop 7 bytes))
          ws
      → ((out : List ℕ) (log' : List Message) (ws' : List Window) (rs' : ℕ → Receiver)
          → ((k : ℕ) → rs' k ≡ unassigned)
          → Serves n (segment_responses sent n (other_toggle toggle) (drop 7 bytes)) ws'
          → (upload_segments fuel n (size - 7) (other_toggle toggle) out (bus log' ws' rs')).0
            ≡ ok (out ++ take (size - 7) (drop 7 bytes)))
      → (upload_segments (suc fuel) n size toggle result (bus log ws rs)).0
        ≡ ok (result ++ take size bytes)
  inner_segment sent fuel size toggle bytes result log [] rs idle pos fits tog served next =
      absurd served
  inner_segment sent fuel size toggle bytes result log (w ∷ ws) rs idle pos fits tog
        (hit, quiet, later) next =
      let (log', rs', e, idle') =
        inner_round fuel size toggle toggle (pad 7 bytes) result log w ws rs idle (hit, quiet, tt)
          (length-pad 7 bytes) pos (omega arith) (omega arith) in
      let even : (toggle % 2 == 0) ≡ true = ground arith in
      rw (e, even)
        (next (result ++ take size (pad 7 bytes)) log' ws rs' idle' later
          ∙ ap ok (
              append_assoc result _ _
              ∙ ap (λ (t : List ℕ). result ++ t) (take-pad 7 size bytes fits)))

  -- The loop collects what is still wanted, however much the server has left.
  segments_served :
      (sent : ℕ) (fuel size toggle : ℕ) (bytes result : List ℕ) (log : List Message)
      (ws : List Window) (rs : ℕ → Receiver)
      → ((k : ℕ) → rs k ≡ unassigned)
      → length bytes < sent
      → size < fuel
      → size ≤ length bytes
      → (toggle ≡ 0) ⊎ (toggle ≡ 0x10)
      → Serves n (segment_responses sent n toggle bytes) ws
      → (upload_segments fuel n size toggle result (bus log ws rs)).0
        ≡ ok (result ++ take size bytes)
  segments_served sent zero size toggle bytes result log ws rs idle hs hf fits tog served =
      absurd (omega arith)
  segments_served sent (suc fuel) zero toggle bytes result log ws rs idle hs hf fits tog served =
      unfold upload_segments in ground (arith, append-nil result)
  segments_served zero (suc fuel) (suc size) toggle bytes result log ws rs idle hs hf fits tog
        served =
      absurd (omega arith)
  segments_served (suc sent) (suc fuel) (suc size) toggle bytes result log ws rs idle hs hf fits tog
        served =
      elim (Bool-cases (leb (length bytes) 7)) [
        | inl last ↦
            last_segment fuel (suc size) toggle bytes result log ws rs idle (ground arith)
              (omega arith) fits tog
              (subst (λ ms. Serves n ms ws)
                (segment_responses_last sent n toggle bytes (ground arith)) served)
        | inr more ↦
            inner_segment sent fuel (suc size) toggle bytes result log ws rs idle (omega arith) fits
              tog
              (subst (λ ms. Serves n ms ws)
                (segment_responses_more sent n toggle bytes (ground arith)) served)
              (λ out log' ws' rs' idle' served'.
                segments_served sent fuel (suc size - 7) (other_toggle toggle) (drop 7 bytes) out
                  log' ws' rs' idle' (ground (arith, length-drop 7 bytes)) (omega arith)
                  (omega (arith, length-drop 7 bytes)) (ground arith) served')
      ]

announced_size :
    (n index subindex : ℕ) (bytes : List ℕ)
    → length bytes < 2 ^ 32
    → bit_and (get_data (of_message (initiate_response n index subindex bytes))) 0xFFFF
      ≡ length bytes % 65536
unfolding get_data of_message initiate_response
announced_size n index subindex bytes small = low16 _ ∙ omega arith

-- A server that holds `bytes` (fewer than 2 ^ 32), answers a segmented upload, and shares the bus with
-- any other traffic: `upload` returns the first `length bytes % 65536` of them.
pub upload_served :
    (n index subindex : ℕ) (bytes : List ℕ) (log : List Message) (ws : List Window)
    (rs : ℕ → Receiver)
    → ((k : ℕ) → rs k ≡ unassigned)
    → length bytes < 2 ^ 32
    → Serves n (upload_responses n index subindex bytes) ws
    → (upload n index subindex (bus log ws rs)).0 ≡ ok (take (length bytes % 65536) bytes)
unfolding upload upload_responses
upload_served n index subindex bytes log [] rs idle small served = absurd served
upload_served n index subindex bytes log (w ∷ ws) rs idle small (hit, quiet, later) =
    let m = initiate_response n index subindex bytes in
    let (rs', e, idle') =
      one_response log w ws rs 0x40 n index subindex (0 ∷ 0 ∷ 0 ∷ 0 ∷ []) m idle hit quiet in
    let size = announced_size n index subindex bytes small in
    rw (e, upload)
      (unfold of_message initiate_response failed in
        rw size (
          segments_served n (suc (length bytes)) (suc (length bytes % 65536)) (length bytes % 65536)
            0 bytes [] _ ws rs' idle' (omega arith) (omega arith) (omega arith) (inl refl) later))

-- A value of fewer than 2 ^ 16 bytes comes over whole.
pub upload_round_trip :
    (n index subindex : ℕ) (bytes : List ℕ) (log : List Message) (ws : List Window)
    (rs : ℕ → Receiver)
    → ((k : ℕ) → rs k ≡ unassigned)
    → length bytes < 65536
    → Serves n (upload_responses n index subindex bytes) ws
    → (upload n index subindex (bus log ws rs)).0 ≡ ok bytes
upload_round_trip n index subindex bytes log ws rs idle small served =
    upload_served n index subindex bytes log ws rs idle (omega arith) served
    ∙ ap ok (take_all (length bytes % 65536) bytes (omega arith))
