-- ===== src/Profiles/Keeping.antt =====
-- The operations of a device's profile keep a device sound.
use kacanopen.Prelude.{ℕ, zero, suc, List, bit_and, inl, inr, Option, some, none, Bool, true, false}
use kacanopen.Prelude.{Option-cases}
use kacanopen.Prelude.{codes}
use kacanopen.Error.{Result, ok}
use kacanopen.Exec.{Exec, pure, ◌>>=◌, ◌>>◌}
use kacanopen.Value.{Value, of_uint16, of_string, nothing}
use kacanopen.Entry.{ReadAccessMethod, WriteAccessMethod}
use kacanopen.Dictionary.{escape, Address}
use kacanopen.Device.{
  Device, Operation, enable_operation, set_controlword_flag, unset_controlword_flag,
  set_target_position, custom,
}
use kacanopen.Device.Access.{get_entry, get_entry_at, set_entry}
use kacanopen.Device.Soundness.{IsSound}
use kacanopen.Device.Kept.{set_entry-IsSound, get_entry-IsSound, get_entry_at-IsSound}
use kacanopen.Device.Composed.{Keeps, Keeps-bind, Keeps-then}
use kacanopen.Prelude.{bit_or, bit_xor}
use kacanopen.Value.Casts.{to_uint16, to_uint32, to_string}
use kacanopen.Profiles.{
  get_constant, run_set_flag, run_unset_flag, run_operation, execute, find_key, find_key,
  get_device_profile_number, load_operations, load_constants, profile_operations, profile_constants,
  insert_all, set_controlword, read_flag, run_enable_operation, run_set_flag, run_unset_flag,
  run_operation, execute,
}

-- A result that is computed from the device, which is left as it was
looking :
    {A B : Type 0} (r : Device → Result A) (k : A → Exec Device B)
    → ((a : A) → Keeps (k a))
    → Keeps ((λ d. (r d, d)) >>= k)
looking r k rest = Keeps-bind (λ d. (r d, d)) k (λ d h. h) rest

set_controlword-Keeps : (word : ℕ) → Keeps (set_controlword word)
unfolding set_controlword
set_controlword-Keeps word d h =
    set_entry-IsSound (codes "controlword") (of_uint16 word) WriteAccessMethod.use_default d h

-- The control word is written, and then nothing more.
write_word : (word : ℕ) → Keeps (set_controlword word >> pure nothing)
write_word word =
    Keeps-then (set_controlword word) (pure nothing) (set_controlword-Keeps word) (λ d h. h)

run_enable_operation-Keeps : Keeps run_enable_operation
unfolding run_enable_operation
run_enable_operation-Keeps =
    Keeps-then (set_controlword 0x0006)
      (set_controlword 0x0007 >> (set_controlword 0x000F >> pure nothing))
      (set_controlword-Keeps 0x0006)
      (Keeps-then (set_controlword 0x0007) (set_controlword 0x000F >> pure nothing)
        (set_controlword-Keeps 0x0007) (write_word 0x000F))

read_flag-Keeps : (flag_name : Value) → Keeps (read_flag flag_name)
unfolding read_flag
read_flag-Keeps flag_name =
    Keeps-bind (get_entry (codes "controlword") ReadAccessMethod.use_default) _
      (get_entry-IsSound (codes "controlword") ReadAccessMethod.use_default)
      (λ held.
        looking (λ d. to_uint16 held) _
          (λ cw.
            looking (λ d. to_string flag_name) _
              (λ name.
                looking (λ d. get_constant name d) _
                  (λ constant. looking (λ d. to_uint16 constant) _ (λ flag d h. h)))))

-- What a flag operation does with the control word and the flag
flag_operation :
    (flag_name : Value) (word : ℕ × ℕ → ℕ)
    → Keeps (read_flag flag_name >>= (λ p. set_controlword (word p) >> pure nothing))
flag_operation flag_name word =
    Keeps-bind (read_flag flag_name) (λ p. set_controlword (word p) >> pure nothing)
      (read_flag-Keeps flag_name) (λ p. write_word (word p))

run_set_flag-Keeps : (flag_name : Value) → Keeps (run_set_flag flag_name)
unfolding run_set_flag
run_set_flag-Keeps flag_name = flag_operation flag_name (λ p. bit_or p.0 p.1)

run_unset_flag-Keeps : (flag_name : Value) → Keeps (run_unset_flag flag_name)
unfolding run_unset_flag
run_unset_flag-Keeps flag_name = flag_operation flag_name (λ p. bit_and p.0 (bit_xor 0xFFFF p.1))

pub get_device_profile_number-Keeps : Keeps get_device_profile_number
unfolding get_device_profile_number
get_device_profile_number-Keeps =
    let a : Address = record { index = 0x1000; subindex = 0 } in
    Keeps-bind (get_entry_at a ReadAccessMethod.use_default) _
      (get_entry_at-IsSound a ReadAccessMethod.use_default)
      (λ v. looking (λ d. to_uint32 v) _ (λ device_type d h. h))

-- A table that is put into the device where the profile has one
tabled :
    {A : Type 0} (o : Option A) (put : A → Device → Device) (d : Device)
    → ((t : A) (u : Device) → IsSound u → IsSound (put t u))
    → IsSound d
    → IsSound
        (elim o as (λ x. Result Bool × Device) [
          | some t ↦ (ok true, put t d)
          | none ↦ (ok false, d)
        ]).1
tabled none put d keeps h = h
tabled (some t) put d keeps h = keeps t d h

pub load_operations-Keeps : Keeps load_operations
unfolding load_operations
load_operations-Keeps =
    Keeps-bind get_device_profile_number _ get_device_profile_number-Keeps (λ profile d h.
      tabled (profile_operations profile)
        (λ t u. record u { operations = insert_all t u.operations }) d (λ t u k. k) h)

pub load_constants-Keeps : Keeps load_constants
unfolding load_constants
load_constants-Keeps =
    Keeps-bind get_device_profile_number _ get_device_profile_number-Keeps (λ profile d h.
      tabled (profile_constants profile) (λ t u. record u { constants = insert_all t u.constants })
        d (λ t u k. k) h)

module _ (run_custom : ℕ → Value → Exec Device Value)
    (keeps : (c : ℕ) (v : Value) → Keeps (run_custom c v)) where
  run_operation-Keeps :
      (call : List ℕ → Value → Exec Device Value)
      → ((name : List ℕ) (v : Value) → Keeps (call name v))
      → (o : Operation) (argument : Value) → Keeps (run_operation run_custom call o argument)
  unfolding run_operation
  run_operation-Keeps call inner enable_operation argument = run_enable_operation-Keeps
  run_operation-Keeps call inner set_controlword_flag argument = run_set_flag-Keeps argument
  run_operation-Keeps call inner unset_controlword_flag argument = run_unset_flag-Keeps argument
  run_operation-Keeps call inner set_target_position argument =
      let point = of_string (codes "controlword_pp_new_set_point") in
      let lower = call (codes "unset_controlword_flag") point >> pure nothing in
      Keeps-then (set_entry (codes "Target position") argument WriteAccessMethod.use_default)
        (call (codes "set_controlword_flag") point >> lower)
        (set_entry-IsSound (codes "Target position") argument WriteAccessMethod.use_default)
        (Keeps-then (call (codes "set_controlword_flag") point) lower
          (inner (codes "set_controlword_flag") point)
          (Keeps-then (call (codes "unset_controlword_flag") point) (pure nothing)
            (inner (codes "unset_controlword_flag") point) (λ d h. h)))
  run_operation-Keeps call inner (custom c) argument = keeps c argument

  -- Executing an operation keeps a sound device sound, however deep operations call operations and
  -- however the call ends, where the functions that users add do so.
  pub execute-Keeps :
      (depth : ℕ) (name : List ℕ) (argument : Value)
      → Keeps (execute run_custom depth name argument)
  unfolding execute
  execute-Keeps zero name argument d h = h
  execute-Keeps (suc depth) name argument d h =
      elim (Option-cases (find_key (escape name) d.operations)) [
        | inl missing ↦ rw (missing, execute) h
        | inr (o, found) ↦
            rw (found, execute)
              (run_operation-Keeps (execute run_custom depth) (execute-Keeps depth) o argument d h)
      ]
