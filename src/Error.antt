-- ===== src/Error.antt =====
-- The exceptions: include/kacanopen/core/canopen_error.h, core/sdo_error.h, master/dictionary_error.h
-- and their sources. An error carries its type; the text of `what()` is not modelled.
pub mod Laws
use kacanopen.Prelude.{ℕ, List, [], ◌∷◌, ◌==◌, if◌then◌else◌}

-- `sdo_error::type`
pub data SdoErrorType : Type 0 where
  toggle_bit timeout command_specifier block_size sequence_number crc memory : SdoErrorType
  access write_only read_only not_in_dictionary no_mapping pdo_length_exceeded : SdoErrorType
  parameter_incompatibility internal_incompatibility hardware_error : SdoErrorType
  service_parameter service_parameter_too_high service_parameter_too_low subindex : SdoErrorType
  value value_too_high value_too_low max_less_than_min sdo_connection general : SdoErrorType
  transfer_or_storage transfer_or_storage_local_control : SdoErrorType
  transfer_or_storage_device_state no_dictionary no_data : SdoErrorType
  response_timeout segmented_download response_command response_toggle_bit unknown : SdoErrorType

-- `static_cast<uint32_t>(type)`
unfoldable pub code : SdoErrorType → ℕ
code toggle_bit = 0x05030000
code timeout = 0x05040000
code command_specifier = 0x05040001
code block_size = 0x05040002
code sequence_number = 0x05040003
code crc = 0x05040004
code memory = 0x05040005
code access = 0x06010000
code write_only = 0x06010001
code read_only = 0x06010002
code not_in_dictionary = 0x06020000
code no_mapping = 0x06040041
code pdo_length_exceeded = 0x06040042
code parameter_incompatibility = 0x06040043
code internal_incompatibility = 0x06040047
code hardware_error = 0x06060000
code service_parameter = 0x06070010
code service_parameter_too_high = 0x06070012
code service_parameter_too_low = 0x06070013
code subindex = 0x06090011
code value = 0x06090030
code value_too_high = 0x06090031
code value_too_low = 0x06090032
code max_less_than_min = 0x06090036
code sdo_connection = 0x060A0023
code general = 0x08000000
code transfer_or_storage = 0x08000020
code transfer_or_storage_local_control = 0x08000021
code transfer_or_storage_device_state = 0x08000022
code no_dictionary = 0x08000023
code no_data = 0x08000024
code response_timeout = 0x10000000
code segmented_download = 0x10000001
code response_command = 0x10000002
code response_toggle_bit = 0x10000003
code unknown = 0x20000000

-- The cases of the switch in the constructor, in its order.
abbrev switch_cases : List SdoErrorType
switch_cases =
    toggle_bit ∷ timeout ∷ command_specifier ∷ block_size ∷ sequence_number ∷ crc ∷ memory ∷ access
    ∷ write_only ∷ read_only ∷ not_in_dictionary ∷ no_mapping ∷ pdo_length_exceeded
    ∷ parameter_incompatibility ∷ internal_incompatibility ∷ hardware_error ∷ service_parameter
    ∷ service_parameter_too_high ∷ service_parameter_too_low ∷ subindex ∷ value ∷ value_too_high
    ∷ value_too_low ∷ max_less_than_min ∷ sdo_connection ∷ general ∷ transfer_or_storage
    ∷ transfer_or_storage_local_control ∷ transfer_or_storage_device_state ∷ no_dictionary ∷ no_data
    ∷ response_timeout ∷ segmented_download ∷ response_command ∷ response_toggle_bit ∷ unknown ∷ []

-- A switch whose case labels are the codes of `ts`; `default` is `unknown`.
switch_on : ℕ → List SdoErrorType → SdoErrorType
switch_on sdo_data [] = unknown
switch_on sdo_data (t ∷ ts) = if sdo_data == code t then t else switch_on sdo_data ts

-- `sdo_error(uint32_t sdo_data)`: the type that it stores.
unfoldable pub of_sdo_data : ℕ → SdoErrorType
unfolding switch_on code
of_sdo_data sdo_data = switch_on sdo_data switch_cases

-- `dictionary_error::type`
pub data DictionaryErrorType : Type 0 where
  unknown_entry wrong_type mapping_size mapping_overlap : DictionaryErrorType
  unknown_operation unknown_constant : DictionaryErrorType
  read_only write_only : DictionaryErrorType

-- What ends a call abnormally. `out_of_range` is that of a container's `at`; `assertion` is a failed
-- `assert`; `future_error` is that of a promise which is set twice. `out_of_fuel` is no C++ error:
-- it marks a loop of the model that was given too little fuel.
pub data Error : Type 0 where
  sdo_error : SdoErrorType → Error
  canopen_error : Error
  dictionary_error : DictionaryErrorType → Error
  out_of_range assertion future_error json_error runtime_error out_of_fuel : Error

pub data Result {ℓ} (A : Type ℓ) : Type ℓ where
  ok : A → Result A
  err : Error → Result A
