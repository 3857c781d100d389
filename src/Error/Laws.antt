-- ===== src/Error/Laws.antt =====
-- The SDO abort codes and the error types that stand for them.
use kacanopen.Prelude.{ℕ, ◌≡◌, ◌≢◌, refl, ◌⊎◌, inl, inr, ◌∙◌, List, [], ◌∷◌, arith}
use kacanopen.Error.{SdoErrorType, unknown, code, switch_on, switch_cases, of_sdo_data}

-- `sdo_error(type)` keeps the type: it casts to the code and runs the switch on it.
pub of_sdo_data-code : (t : SdoErrorType) → of_sdo_data (code t) ≡ t
unfolding of_sdo_data
of_sdo_data-code SdoErrorType.toggle_bit = refl
of_sdo_data-code _ = refl

switch_on_sound :
    (n : ℕ) (ts : List SdoErrorType) → (switch_on n ts ≡ unknown) ⊎ (code (switch_on n ts) ≡ n)
unfolding switch_on
switch_on_sound n [] = inl refl
switch_on_sound n (t ∷ ts) = ground (arith, switch_on_sound n ts)

of_sdo_data_lem : (n : ℕ) → of_sdo_data n ≡ switch_on n switch_cases
unfolding of_sdo_data
of_sdo_data_lem n = refl

-- Only a code of the table gets a type of its own; every other code is `unknown`.
pub code-of_sdo_data : (n : ℕ) → of_sdo_data n ≢ unknown → code (of_sdo_data n) ≡ n
code-of_sdo_data n h = elim (switch_on_sound n switch_cases) [
  | inl e ↦ absurd (h (of_sdo_data_lem n ∙ e))
  | inr e ↦ rw of_sdo_data_lem e
]
