-- ===== src/SdoResponse/Texts.antt =====
-- The text of an answer (`get_error` of src/core/sdo_response.cpp), and which abort codes have one.
use kacanopen.Prelude.{
  ◌==◌, ℕ, ◌≡◌, ap, sym, ◌∙◌, List, ◌++◌, arith, if◌then◌else◌, Bool, true, false, ◌↔◌,
}
use kacanopen.Prelude.{codes}
use kacanopen.Value.Equality.{bytes_equal}
use kacanopen.Entry.Changes.{bytes_equal_iff}
use kacanopen.Error.{SdoErrorType, code}
use kacanopen.SdoResponse.{SdoResponse, failed, get_data}

-- The text of the `default` label
abbrev pub unknown_text : List ℕ
unknown_text = codes "unknown error code"

-- The switch
unfoldable pub error_text : ℕ → List ℕ
error_text sdo_data =
    if sdo_data == 0x05030000
    then codes "Toggle bit not alternated"
    else if sdo_data == 0x05040000
    then codes "SDO protocol timed out"
    else if sdo_data == 0x05040001
    then codes "Client/server command specifier not valid or unknown"
    else if sdo_data == 0x05040002
    then codes "Invalid block size (block mode only)"
    else if sdo_data == 0x05040003
    then codes "Invalid sequence number (block mode only)"
    else if sdo_data == 0x05040004
    then codes "CRC error (block mode only)"
    else if sdo_data == 0x05040005
    then codes "Out of memory"
    else if sdo_data == 0x06010000
    then codes "Unsupported access to an object"
    else if sdo_data == 0x06010001
    then codes "Attempt to read a write only object"
    else if sdo_data == 0x06010002
    then codes "Attempt to write a read only object"
    else if sdo_data == 0x06020000
    then codes "Object does not exist in the object dictionary"
    else if sdo_data == 0x06040041
    then codes "Object cannot be mapped to the PDO"
    else if sdo_data == 0x06040042
    then codes "The number and length of the objects to be mapped whould "
      ++ codes "exeed PDO length"
    else if sdo_data == 0x06040043
    then codes "General parameter incompatibility reason"
    else if sdo_data == 0x06040047
    then codes "General internal incompatibility in the device"
    else if sdo_data == 0x06060000
    then codes "Access failed due to a hardware error"
    else if sdo_data == 0x06070010
    then codes "Data type does not match, length of service parameter does " ++ codes "not match"
    else if sdo_data == 0x06070012
    then codes "Data type does not match, length of service parameter too " ++ codes "high"
    else if sdo_data == 0x06070013
    then codes "Data type does not match, length of service parameter too " ++ codes "low"
    else if sdo_data == 0x06090011
    then codes "Sub-index does not exist."
    else if sdo_data == 0x06090030
    then codes "Value range of parameter exceeded (only for write access)"
    else if sdo_data == 0x06090031
    then codes "Value of parameter written too high"
    else if sdo_data == 0x06090032
    then codes "Value of parameter written too low"
    else if sdo_data == 0x06090036
    then codes "Maximum value is less than minimum value"
    else if sdo_data == 0x08000000
    then codes "General error"
    else if sdo_data == 0x08000020
    then codes "Data cannot be transferred or stored to the application"
    else if sdo_data == 0x08000021
    then codes "Data cannot be transferred or stored to the application "
      ++ codes "because of local control"
    else if sdo_data == 0x08000022
    then codes "Data cannot be transferred or stored to the application "
      ++ codes "because ofthe present device"
    else if sdo_data == 0x08000023
    then codes "Object dictionary dynamic generation fails or no object "
      ++ codes "dictionary is present."
    else unknown_text

unfoldable pub get_error : SdoResponse → List ℕ
get_error r = if failed r then error_text (get_data r) else codes "no error"

-- The abort codes of the table of `sdo_error` that this table does not have: those of the client's
-- own errors, and two of the standard
abbrev pub is_unlisted : SdoErrorType → Bool
is_unlisted SdoErrorType.sdo_connection = true
is_unlisted SdoErrorType.no_data = true
is_unlisted SdoErrorType.response_timeout = true
is_unlisted SdoErrorType.segmented_download = true
is_unlisted SdoErrorType.response_command = true
is_unlisted SdoErrorType.response_toggle_bit = true
is_unlisted SdoErrorType.unknown = true
is_unlisted _ = false

known_text : (t : SdoErrorType) → bytes_equal (error_text (code t)) unknown_text ≡ is_unlisted t
unfolding error_text code bytes_equal
known_text t = ground arith

-- An answer with the abort code of one of the types of `sdo_error` gets the text for unknown codes
-- just if the type is one of the client's own errors, or `sdo_connection` or `no_data`, which
-- `sdo_error` knows.
pub get_error_lem :
    (r : SdoResponse) (t : SdoErrorType)
    → failed r ≡ true
    → get_data r ≡ code t
    → (get_error r ≡ unknown_text) ↔ (is_unlisted t ≡ true)
unfolding get_error
get_error_lem r t aborted says =
    let run : get_error r ≡ error_text (code t) = rw (aborted, get_error) (ap error_text says) in
    let (there, back) = bytes_equal_iff (error_text (code t)) unknown_text in
    (λ h. sym (known_text t) ∙ back (sym run ∙ h), λ h. run ∙ there (known_text t ∙ h))
