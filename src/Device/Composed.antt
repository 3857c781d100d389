-- ===== src/Device/Composed.antt =====
-- Sequences of reads and writes keep a device sound: the configuration of the PDOs inside a device.
use kacanopen.Prelude.{ℕ, zero, suc, ◌+◌, ◌%◌, ◌^◌, List, length, ltb, inl, inr, get_or, Bool-cases}
use kacanopen.Error.{Result, ok, err}
use kacanopen.Exec.{Exec, ◌>>=◌, ◌>>◌}
use kacanopen.Value.{Value, of_uint8, of_uint16, of_uint32}
use kacanopen.Value.Casts.{to_uint32}
use kacanopen.Entry.{ReadAccessMethod, WriteAccessMethod}
use kacanopen.Device.{Device}
use kacanopen.Device.Configure.{
  get_tpdo_indexes, get_rpdo_indexes, write, write_loop, write_entries, disabled_cob_id,
  enabled_cob_id, read_cob_id, map_tpdo_in_device, map_tpdo_inhibit, map_basic, map_tpdo_basic,
  map_rpdo_in_device,
}
use kacanopen.Device.Soundness.{IsSound}
use kacanopen.Device.Access.{get_entry_at}
use kacanopen.Device.Kept.{IsSound-continue_with, set_entry_at-IsSound, get_entry_at-IsSound}

-- However the call ends, a sound device stays sound.
abbrev pub Keeps : {A : Type 0} → Exec Device A → Type 0
Keeps call = (d : Device) → IsSound d → IsSound (call d).1

pub Keeps-bind :
    {A B : Type 0} (m : Exec Device A) (k : A → Exec Device B)
    → Keeps m
    → ((a : A) → Keeps (k a))
    → Keeps (m >>= k)
Keeps-bind m k first rest d h =
    IsSound-continue_with (m d).0 k (m d).1 (first d h) (λ a. rest a (m d).1 (first d h))

pub Keeps-then :
    {A B : Type 0} (m : Exec Device A) (k : Exec Device B) → Keeps m → Keeps k → Keeps (m >> k)
Keeps-then m k first rest d h =
    IsSound-continue_with (m d).0 (λ _. k) (m d).1 (first d h) (λ _. rest (m d).1 (first d h))

write-Keeps : (index subindex : ℕ) (v : Value) → Keeps (write index subindex v)
unfolding write
write-Keeps index subindex v d h =
    set_entry_at-IsSound (record { index = index; subindex = subindex }) v WriteAccessMethod.sdo d h

read_cob_id-Keeps : (comm : ℕ) → Keeps (read_cob_id comm)
unfolding read_cob_id
read_cob_id-Keeps comm =
    Keeps-bind (get_entry_at (record { index = comm; subindex = 1 }) ReadAccessMethod.sdo)
      (λ v d. (to_uint32 v, d))
      (get_entry_at-IsSound (record { index = comm; subindex = 1 }) ReadAccessMethod.sdo)
      (λ v d h. h)

write_loop-Keeps :
    (fuel index i offset : ℕ) (entries : List ℕ) → Keeps (write_loop fuel index i offset entries)
unfolding write_loop
write_loop-Keeps zero index i offset entries d h = h
write_loop-Keeps (suc fuel) index i offset entries d h =
    elim (Bool-cases (ltb i (length entries))) [
      | inr over ↦ rw (over, write_loop) h
      | inl more ↦
          rw (more, write_loop)
            (Keeps-then (write index ((offset + 1) % 2 ^ 8) (of_uint32 (get_or entries i 0)))
              (write_loop fuel index ((i + 1) % 2 ^ 8) ((offset + 1) % 2 ^ 8) entries)
              (write-Keeps index ((offset + 1) % 2 ^ 8) (of_uint32 (get_or entries i 0)))
              (write_loop-Keeps fuel index ((i + 1) % 2 ^ 8) ((offset + 1) % 2 ^ 8) entries) d h)
    ]

write_entries-Keeps : (index : ℕ) (entries : List ℕ) → Keeps (write_entries index entries)
unfolding write_entries
write_entries-Keeps index entries = write_loop-Keeps (length entries + 1) index 0 0 entries

-- A write before more of them
write_then :
    (index subindex : ℕ) (v : Value) (k : Exec Device (Unit {0}))
    → Keeps k
    → Keeps (write index subindex v >> k)
write_then index subindex v k rest =
    Keeps-then (write index subindex v) k (write-Keeps index subindex v) rest

-- The part that all of the methods share, before what sets the PDO up
set_up-Keeps :
    (comm mapp : ℕ) (entries : List ℕ) (set_up : ℕ → Exec Device (Unit {0}))
    → ((cob_id : ℕ) → Keeps (set_up cob_id))
    → Keeps (do
      cob_id ← read_cob_id comm
      write comm 1 (of_uint32 (disabled_cob_id cob_id))
      write mapp 0 (of_uint8 0)
      write_entries mapp entries
      write mapp 0 (of_uint8 (length entries % 2 ^ 8))
      set_up cob_id)
set_up-Keeps comm mapp entries set_up rest =
    let counted = λ (c : ℕ). write mapp 0 (of_uint8 (length entries % 2 ^ 8)) >> set_up c in
    Keeps-bind (read_cob_id comm)
      (λ c.
        write comm 1 (of_uint32 (disabled_cob_id c))
        >> (write mapp 0 (of_uint8 0) >> (write_entries mapp entries >> counted c)))
      (read_cob_id-Keeps comm)
      (λ c.
        write_then comm 1 (of_uint32 (disabled_cob_id c))
          (write mapp 0 (of_uint8 0) >> (write_entries mapp entries >> counted c))
          (write_then mapp 0 (of_uint8 0) (write_entries mapp entries >> counted c) (
            Keeps-then (write_entries mapp entries) (counted c) (write_entries-Keeps mapp entries)
              (write_then mapp 0 (of_uint8 (length entries % 2 ^ 8)) (set_up c) (rest c)))))

-- A method that looks its indices up first
indexed-Keeps :
    (r : Result (ℕ × ℕ)) (call : ℕ → ℕ → Exec Device (Unit {0}))
    → ((comm mapp : ℕ) → Keeps (call comm mapp))
    → Keeps (λ d. elim r as (λ x. Result (Unit {0}) × Device) [
      | err x ↦ (err x, d)
      | ok (comm, mapp) ↦ call comm mapp d
    ])
indexed-Keeps (err x) call keep d h = h
indexed-Keeps (ok (comm, mapp)) call keep d h = keep comm mapp d h

pub map_basic-Keeps :
    (comm mapp : ℕ) (entries : List ℕ) (transmit_type : ℕ)
    → Keeps (map_basic comm mapp entries transmit_type)
unfolding map_basic
map_basic-Keeps comm mapp entries transmit_type =
    set_up-Keeps comm mapp entries
      (λ c.
        write comm 2 (of_uint8 transmit_type)
        >> write comm 1 (of_uint32 (enabled_cob_id (disabled_cob_id c))))
      (λ c.
        write_then comm 2 (of_uint8 transmit_type)
          (write comm 1 (of_uint32 (enabled_cob_id (disabled_cob_id c))))
          (write-Keeps comm 1 (of_uint32 (enabled_cob_id (disabled_cob_id c)))))

pub map_rpdo_in_device-Keeps :
    (rpdo_no : ℕ) (entries : List ℕ) (transmit_type : ℕ)
    → Keeps (map_rpdo_in_device rpdo_no entries transmit_type)
unfolding map_rpdo_in_device
map_rpdo_in_device-Keeps rpdo_no entries transmit_type =
    indexed-Keeps (get_rpdo_indexes rpdo_no)
      (λ comm mapp. map_basic comm mapp entries transmit_type)
      (λ comm mapp. map_basic-Keeps comm mapp entries transmit_type)

pub map_tpdo_basic-Keeps :
    (tpdo_no : ℕ) (entries : List ℕ) (transmit_type : ℕ)
    → Keeps (map_tpdo_basic tpdo_no entries transmit_type)
unfolding map_tpdo_basic
map_tpdo_basic-Keeps tpdo_no entries transmit_type =
    indexed-Keeps (get_tpdo_indexes tpdo_no)
      (λ comm mapp. map_basic comm mapp entries transmit_type)
      (λ comm mapp. map_basic-Keeps comm mapp entries transmit_type)

pub map_tpdo_inhibit-Keeps :
    (tpdo_no : ℕ) (entries : List ℕ) (transmit_type inhibit_time : ℕ)
    → Keeps (map_tpdo_inhibit tpdo_no entries transmit_type inhibit_time)
unfolding map_tpdo_inhibit
map_tpdo_inhibit-Keeps tpdo_no entries transmit_type inhibit_time =
    let enable = λ (comm c : ℕ). write comm 1 (of_uint32 (enabled_cob_id (disabled_cob_id c))) in
    let set_up = λ (comm c : ℕ).
      write comm 2 (of_uint8 transmit_type)
      >> (write comm 3 (of_uint16 inhibit_time) >> enable comm c) in
    indexed-Keeps (get_tpdo_indexes tpdo_no) _ (λ comm mapp.
      set_up-Keeps comm mapp entries (set_up comm) (λ c.
        write_then comm 2 (of_uint8 transmit_type)
          (write comm 3 (of_uint16 inhibit_time) >> enable comm c)
          (write_then comm 3 (of_uint16 inhibit_time) (enable comm c)
            (write-Keeps comm 1 (of_uint32 (enabled_cob_id (disabled_cob_id c)))))))

pub map_tpdo_in_device-Keeps :
    (tpdo_no : ℕ) (entries : List ℕ) (transmit_type inhibit_time event_timer : ℕ)
    → Keeps (map_tpdo_in_device tpdo_no entries transmit_type inhibit_time event_timer)
unfolding map_tpdo_in_device
map_tpdo_in_device-Keeps tpdo_no entries transmit_type inhibit_time event_timer =
    let enable = λ (comm c : ℕ). write comm 1 (of_uint32 (enabled_cob_id (disabled_cob_id c))) in
    let timed = λ (comm c : ℕ). write comm 5 (of_uint16 event_timer) >> enable comm c in
    let set_up = λ (comm c : ℕ).
      write comm 2 (of_uint8 transmit_type)
      >> (write comm 3 (of_uint16 inhibit_time) >> timed comm c) in
    indexed-Keeps (get_tpdo_indexes tpdo_no) _ (λ comm mapp.
      set_up-Keeps comm mapp entries (set_up comm) (λ c.
        write_then comm 2 (of_uint8 transmit_type)
          (write comm 3 (of_uint16 inhibit_time) >> timed comm c)
          (write_then comm 3 (of_uint16 inhibit_time) (timed comm c) (
            write_then comm 5 (of_uint16 event_timer) (enable comm c)
              (write-Keeps comm 1 (of_uint32 (enabled_cob_id (disabled_cob_id c))))))))
