-- ===== src/Profiles.antt =====
-- The CiA 402 profile (src/master/profiles.cpp) and the methods of a device that use a profile
-- (`load_operations`, `add_operation`, `execute`, `load_constants`, `add_constant`, `get_constant`,
-- `get_device_profile_number` of src/master/device.cpp). An operation that a user adds is
-- a number, and what it does is a parameter.
pub mod Flags
pub mod Constants
pub mod Keeping
mod Runs
use kacanopen.Prelude.{
  ◌==◌, ℕ, zero, suc, ◌^◌, List, [], ◌∷◌, ◌++◌, Option, none, some, bit_and, if◌then◌else◌, Bool,
  true, false,
}
use kacanopen.Prelude.{codes, bit_or, bit_xor}
use kacanopen.Value.Equality.{bytes_equal}
use kacanopen.Value.Integers.{pos}
use kacanopen.Error.{Result, ok, err, dictionary_error, DictionaryErrorType, out_of_fuel}
use kacanopen.Exec.{Exec, pure, ◌>>=◌, ◌>>◌}
use kacanopen.Value.{Value, of_int8, of_uint16, of_string, nothing}
use kacanopen.Value.Casts.{to_uint32, to_uint16, to_string}
use kacanopen.Entry.{ReadAccessMethod, WriteAccessMethod}
use kacanopen.Dictionary.{escape}
use kacanopen.Nmt.{send_nmt_message, start_node}
use kacanopen.Device.{
  Device, Operation, enable_operation, set_controlword_flag, unset_controlword_flag,
  set_target_position, custom,
}
use kacanopen.Device.Access.{get_entry, get_entry_at, set_entry}

module _ {V : Type 0} where
  unfoldable pub find_key : List ℕ → List (List ℕ × V) → Option V
  find_key name [] = none
  find_key name ((k, v) ∷ table) =
      let rest = find_key name table in if bytes_equal k name then some v else rest

  -- `table[name] = value`
  unfoldable pub assign_key : List ℕ → V → List (List ℕ × V) → List (List ℕ × V)
  assign_key name v [] = (name, v) ∷ []
  assign_key name v ((k, w) ∷ table) =
      let rest = assign_key name v table in
      if bytes_equal k name then (k, v) ∷ table else (k, w) ∷ rest

  -- `table.insert(first, last)`, which leaves the names that are there alone
  unfoldable pub insert_all : List (List ℕ × V) → List (List ℕ × V) → List (List ℕ × V)
  insert_all [] table = table
  insert_all ((k, v) ∷ more) table = elim (find_key k table) [
    | none ↦ insert_all more (table ++ ((k, v) ∷ []))
    | some w ↦ insert_all more table
  ]

-- `Profiles::operations`, as a list of profiles
abbrev operations_402 : List (List ℕ × Operation)
operations_402 =
    (codes "enable_operation", enable_operation)
    ∷ (codes "set_controlword_flag", set_controlword_flag)
    ∷ (codes "unset_controlword_flag", unset_controlword_flag)
    ∷ (codes "set_target_position", set_target_position)
    ∷ []

pub profile_operations : ℕ → Option (List (List ℕ × Operation))
profile_operations profile = if profile == 402 then some operations_402 else none

-- `Profiles::constants`
abbrev constants_402 : List (List ℕ × Value)
constants_402 =
    (codes "profile_position_mode", of_int8 (pos 1))
    ∷ (codes "velocity_mode", of_int8 (pos 2))
    ∷ (codes "profile_velocity_mode", of_int8 (pos 3))
    ∷ (codes "torque_profile_mode", of_int8 (pos 4))
    ∷ (codes "homing_mode", of_int8 (pos 6))
    ∷ (codes "interpolated_position_mode", of_int8 (pos 7))
    ∷ (codes "controlword_switch_on", of_uint16 (2 ^ 0))
    ∷ (codes "controlword_enable_voltage", of_uint16 (2 ^ 1))
    ∷ (codes "controlword_quick_stop", of_uint16 (2 ^ 2))
    ∷ (codes "controlword_enable_operation", of_uint16 (2 ^ 3))
    ∷ (codes "controlword_fault_reset", of_uint16 (2 ^ 7))
    ∷ (codes "controlword_halt", of_uint16 (2 ^ 8))
    ∷ (codes "controlword_manufacturer_11", of_uint16 (2 ^ 11))
    ∷ (codes "controlword_manufacturer_12", of_uint16 (2 ^ 12))
    ∷ (codes "controlword_manufacturer_13", of_uint16 (2 ^ 13))
    ∷ (codes "controlword_manufacturer_14", of_uint16 (2 ^ 14))
    ∷ (codes "controlword_manufacturer_15", of_uint16 (2 ^ 15))
    ∷ (codes "controlword_vl_rfg_enable", of_uint16 (2 ^ 4))
    ∷ (codes "controlword_vl_rfg_unlock", of_uint16 (2 ^ 5))
    ∷ (codes "controlword_vl_use_ref", of_uint16 (2 ^ 6))
    ∷ (codes "controlword_pp_new_set_point", of_uint16 (2 ^ 4))
    ∷ (codes "controlword_pp_change_set_immediately", of_uint16 (2 ^ 5))
    ∷ (codes "controlword_pp_abs_rel", of_uint16 (2 ^ 6))
    ∷ (codes "controlword_hm_operation_start", of_uint16 (2 ^ 4))
    ∷ (codes "controlword_ip_enable_ip_mode", of_uint16 (2 ^ 4))
    ∷ (codes "statusword_ready_to_switch_on", of_uint16 (2 ^ 0))
    ∷ (codes "statusword_switched_on", of_uint16 (2 ^ 1))
    ∷ (codes "statusword_operation_enabled", of_uint16 (2 ^ 2))
    ∷ (codes "statusword_fault", of_uint16 (2 ^ 3))
    ∷ (codes "statusword_voltage_enabled", of_uint16 (2 ^ 4))
    ∷ (codes "statusword_quick_stop", of_uint16 (2 ^ 5))
    ∷ (codes "statusword_switch_on_disabled", of_uint16 (2 ^ 6))
    ∷ (codes "statusword_warning", of_uint16 (2 ^ 7))
    ∷ (codes "statusword_remote", of_uint16 (2 ^ 9))
    ∷ (codes "statusword_target_reached", of_uint16 (2 ^ 10))
    ∷ (codes "statusword_internal_limit_active", of_uint16 (2 ^ 11))
    ∷ (codes "statusword_manufacturer_8", of_uint16 (2 ^ 8))
    ∷ (codes "statusword_manufacturer_14", of_uint16 (2 ^ 14))
    ∷ (codes "statusword_manufacturer_15", of_uint16 (2 ^ 15))
    ∷ (codes "statusword_pp_set_point_acknowledge", of_uint16 (2 ^ 12))
    ∷ (codes "statusword_pp_following_error", of_uint16 (2 ^ 13))
    ∷ (codes "statusword_pv_speed", of_uint16 (2 ^ 12))
    ∷ (codes "statusword_pv_max_slippage_error", of_uint16 (2 ^ 13))
    ∷ (codes "statusword_hm_homing_attained", of_uint16 (2 ^ 12))
    ∷ (codes "statusword_hm_homing_error", of_uint16 (2 ^ 13))
    ∷ (codes "statusword_ip_ip_mode_active", of_uint16 (2 ^ 12))
    ∷ []

unfoldable pub profile_constants : ℕ → Option (List (List ℕ × Value))
profile_constants profile = if profile == 402 then some constants_402 else none

-- `get_device_profile_number`
unfoldable pub get_device_profile_number : Exec Device ℕ
get_device_profile_number = do
  v ← get_entry_at (record { index = 0x1000; subindex = 0 }) ReadAccessMethod.use_default
  device_type ← λ d. (to_uint32 v, d)
  pure (bit_and device_type 0xFFFF)

unfoldable pub load_operations : Exec Device Bool
load_operations = do
  profile ← get_device_profile_number
  λ d. elim (profile_operations profile) [
    | some table ↦ (ok true, record d { operations = insert_all table d.operations })
    | none ↦ (ok false, d)
  ]

unfoldable pub load_constants : Exec Device Bool
load_constants = do
  profile ← get_device_profile_number
  λ d. elim (profile_constants profile) [
    | some table ↦ (ok true, record d { constants = insert_all table d.constants })
    | none ↦ (ok false, d)
  ]

unfoldable pub add_operation : List ℕ → Operation → Device → Device
add_operation operation_name o d = record d {
  operations = assign_key (escape operation_name) o d.operations;
}

unfoldable pub add_constant : List ℕ → Value → Device → Device
add_constant constant_name v d = record d {
  constants = assign_key (escape constant_name) v d.constants;
}

unfoldable pub get_constant : List ℕ → Device → Result Value
get_constant constant_name d = elim (find_key (escape constant_name) d.constants) [
  | none ↦ err (dictionary_error DictionaryErrorType.unknown_constant)
  | some v ↦ ok v
]

-- `device.set_entry("controlword", word)`
unfoldable pub set_controlword : ℕ → Exec Device (Unit {0})
set_controlword word =
    set_entry (codes "controlword") (of_uint16 word) WriteAccessMethod.use_default

-- The first two statements of the flag operations: the control word and the flag
unfoldable pub read_flag : Value → Exec Device (ℕ × ℕ)
read_flag flag_name = do
  held ← get_entry (codes "controlword") ReadAccessMethod.use_default
  cw ← λ d. (to_uint16 held, d)
  name ← λ d. (to_string flag_name, d)
  constant ← λ d. (get_constant name d, d)
  flag ← λ d. (to_uint16 constant, d)
  pure (cw, flag)

unfoldable pub run_enable_operation : Exec Device Value
run_enable_operation = do
  set_controlword 0x0006
  set_controlword 0x0007
  set_controlword 0x000F
  pure nothing

unfoldable pub run_set_flag : Value → Exec Device Value
run_set_flag flag_name = do
  (cw, flag) ← read_flag flag_name
  set_controlword (bit_or cw flag)
  pure nothing

-- `~flag`, as far as the word goes
unfoldable pub run_unset_flag : Value → Exec Device Value
run_unset_flag flag_name = do
  (cw, flag) ← read_flag flag_name
  set_controlword (bit_and cw (bit_xor 0xFFFF flag))
  pure nothing

-- What a user's operations do
module _ (run_custom : ℕ → Value → Exec Device Value) where
  -- A call of an operation, where `execute` runs the operations that it calls itself
  unfoldable pub run_operation :
      (List ℕ → Value → Exec Device Value) → Operation → Value → Exec Device Value
  run_operation execute enable_operation argument = run_enable_operation
  run_operation execute set_controlword_flag argument = run_set_flag argument
  run_operation execute unset_controlword_flag argument = run_unset_flag argument
  run_operation execute set_target_position argument = do
    set_entry (codes "Target position") argument WriteAccessMethod.use_default
    execute (codes "set_controlword_flag") (of_string (codes "controlword_pp_new_set_point"))
    execute (codes "unset_controlword_flag") (of_string (codes "controlword_pp_new_set_point"))
    pure nothing
  run_operation execute (custom c) argument = run_custom c argument

  -- `execute`, with a bound on the nesting of operations
  unfoldable pub execute : ℕ → List ℕ → Value → Exec Device Value
  execute zero operation_name argument d = (err out_of_fuel, d)
  execute (suc depth) operation_name argument d =
      elim (find_key (escape operation_name) d.operations) [
        | none ↦ (err (dictionary_error DictionaryErrorType.unknown_operation), d)
        | some o ↦ run_operation (execute depth) o argument d
      ]
