-- ===== src/Sdo/Termination.antt =====
-- The loop of `upload` ends on every bus, whatever a server sends.
use kacanopen.Prelude.{
  not, ltb, bit_and, if◌then◌else◌, bit_or, Bool, ◌==◌, if_both, ℕ, zero, suc, ◌<◌, ◌≡◌, ◌≢◌, ap,
  List, [], ◌∷◌, arith, false,
}
use kacanopen.Error.{sdo_error, SdoErrorType, Result, ok, err, out_of_fuel}
use kacanopen.Exec.{raise, pure, Exec, ◌>>=◌, ◌>>◌}
use kacanopen.SdoResponse.{get_data, failed, SdoResponse}
use kacanopen.Sdo.Segments.{copy_segment_lem}
use kacanopen.Sdo.{Bus, send_sdo_and_wait, check_response, copy_segment, upload_segments, upload}
use kacanopen.Sdo.Waiting.{
  IsSeven, Any, Outcome, Outcome-bind, Keeps, Keeps-bind, send_sdo_and_wait-Outcome,
}

abbrev Bytes : List ℕ → Type 0
Bytes _ = Unit {0}

module _ (n : ℕ) where
  check_response-Keeps : (v : SdoResponse) → Keeps n Any (check_response v)
  unfolding check_response
  check_response-Keeps v b s =
      if_both (λ (m : Exec Bus (Unit {0})). Outcome n Any (m b)) (failed v) _ _ (λ e. cc) (tt, s)

  guard-Keeps :
      (c : Bool) (t : SdoErrorType) → Keeps n Any (if c then pure tt else raise (sdo_error t))
  guard-Keeps c t b s =
      if_both (λ (m : Exec Bus (Unit {0})). Outcome n Any (m b)) c _ _ (tt, s) (λ e. cc)

  round :
      (fuel size toggle : ℕ) (result : List ℕ)
      → ((size' toggle' : ℕ) (result' : List ℕ)
          → size' < fuel
          → Keeps n Bytes (upload_segments fuel n size' toggle' result'))
      → suc size < suc fuel
      → Keeps n Bytes (do
        v ← send_sdo_and_wait (bit_or 0x60 toggle) n 0 0 (0 ∷ 0 ∷ 0 ∷ 0 ∷ [])
        check_response v
        if toggle == bit_and v.command 0x10
            then pure tt
            else raise (sdo_error SdoErrorType.response_toggle_bit)
        let copied = copy_segment v.payload (suc size) result
        if bit_and v.command 0x01 == 0
            then upload_segments fuel n copied.1 (if ltb 0 toggle then 0 else 0x10) copied.0
            else pure copied.0)
  round fuel size toggle result next h b s =
      Keeps-bind n IsSeven Bytes (send_sdo_and_wait (bit_or 0x60 toggle) n 0 0 (0 ∷ 0 ∷ 0 ∷ 0 ∷ []))
        _ (λ b _. send_sdo_and_wait-Outcome n (bit_or 0x60 toggle) 0 0 (0 ∷ 0 ∷ 0 ∷ 0 ∷ []) b)
        (λ v seven.
          let copied = copy_segment v.payload (suc size) result in
          let shorter : copied.1 < fuel =
            omega (
              arith,
              ap (λ (p : List ℕ × ℕ). p.1) (copy_segment_lem v.payload (suc size) result),
            ) in
          Keeps-bind n Any Bytes (check_response v) _ (check_response-Keeps v) λ _ _.
            Keeps-bind n Any Bytes
              (if toggle == bit_and v.command 0x10
                then pure tt
                else raise (sdo_error SdoErrorType.response_toggle_bit))
              _ (guard-Keeps _ _)
              λ _ _ b s.
                if_both (λ (m : Exec Bus (List ℕ)). Outcome n Bytes (m b))
                  (bit_and v.command 0x01 == 0) _ _
                  (next copied.1 (if ltb 0 toggle then 0 else 0x10) copied.0 shorter b s) (tt, s))
        b s

  -- A round takes `size` down, so the fuel of `upload` is enough for any responses.
  upload_segments-Keeps :
      (fuel size toggle : ℕ) (result : List ℕ)
      → size < fuel
      → Keeps n Bytes (upload_segments fuel n size toggle result)
  unfolding upload_segments
  upload_segments-Keeps zero size toggle result h b s = absurd (omega arith)
  upload_segments-Keeps (suc fuel) zero toggle result h b s = (tt, s)
  upload_segments-Keeps (suc fuel) (suc size) toggle result h b s =
      let busy : (suc size == 0) ≡ false = ground arith in
      rw (busy, upload_segments) (round fuel size toggle result (upload_segments-Keeps fuel) h b s)

  upload-Outcome : (index subindex : ℕ) (b : Bus) → Outcome n Bytes (upload n index subindex b)
  unfolding upload
  upload-Outcome index subindex b =
      Outcome-bind n IsSeven Bytes (send_sdo_and_wait 0x40 n index subindex (0 ∷ 0 ∷ 0 ∷ 0 ∷ [])) _
        b (send_sdo_and_wait-Outcome n 0x40 index subindex (0 ∷ 0 ∷ 0 ∷ 0 ∷ []) b)
        λ v b' seven s.
          Keeps-bind n Any Bytes (check_response v) _ (check_response-Keeps v)
            (λ _ _ b s.
              let size = bit_and (get_data v) 0xFFFF in
              if_both (λ (m : Exec Bus (List ℕ)). Outcome n Bytes (m b))
                (not (bit_and v.command 0x02 == 0)) _ _ (tt, s)
                (if_both (λ (m : Exec Bus (List ℕ)). Outcome n Bytes (m b))
                  (bit_and v.command 0x01 == 0) _ _ (λ e. cc)
                  (upload_segments-Keeps (suc size) size 0 [] (omega arith) b s)))
            b' s

  known_error :
      {A : Type 0} (P : A → Type 0) (x : Result A × Bus) → Outcome n P x → x.0 ≢ err out_of_fuel
  known_error P (ok a, b) h e = cc
  known_error P (err x, b) h e = h (ground arith)

-- `upload` returns bytes or throws an error of the program, on every bus: the fuel of its loop is
-- enough whatever a server answers.
pub upload-ne-out_of_fuel :
    (n index subindex : ℕ) (b : Bus) → (upload n index subindex b).0 ≢ err out_of_fuel
upload-ne-out_of_fuel n index subindex b =
    known_error n (λ _. Unit {0}) (upload n index subindex b) (upload-Outcome n index subindex b)
