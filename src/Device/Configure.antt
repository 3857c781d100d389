-- ===== src/Device/Configure.antt =====
-- Configuring the PDOs inside a device over SDO (`map_tpdo_in_device`, `map_rpdo_in_device`,
-- `write_entries`, `get_tpdo_indexes` and `get_rpdo_indexes` of src/master/device.cpp, `TPDO_NO` and
-- `RPDO_NO` of include/kacanopen/master/types.h). A PDO is named by the number of its enumerator.
use kacanopen.Prelude.{
  ◌==◌, ℕ, zero, suc, ◌+◌, ◌%◌, ◌^◌, List, length, bit_and, ltb, if◌then◌else◌, true, false, get_or,
}
use kacanopen.Error.{Result, ok, err, canopen_error, out_of_fuel}
use kacanopen.Exec.{Exec, ◌>>=◌, ◌>>◌}
use kacanopen.Prelude.{bit_xor}
use kacanopen.Value.{Value, of_uint8, of_uint16, of_uint32}
use kacanopen.Value.Casts.{to_uint32}
use kacanopen.Entry.{ReadAccessMethod, WriteAccessMethod}
use kacanopen.Device.{Device}
use kacanopen.Device.Access.{get_entry_at, set_entry_at}

-- The indices of the communication and of the mapping parameter
unfoldable pub get_tpdo_indexes : ℕ → Result (ℕ × ℕ)
get_tpdo_indexes tpdo_no =
    if tpdo_no == 0x180
    then ok (0x1800, 0x1A00)
    else if tpdo_no == 0x280
    then ok (0x1801, 0x1A01)
    else if tpdo_no == 0x380
    then ok (0x1802, 0x1A02)
    else if tpdo_no == 0x480
    then ok (0x1803, 0x1A03)
    else err canopen_error

unfoldable pub get_rpdo_indexes : ℕ → Result (ℕ × ℕ)
get_rpdo_indexes rpdo_no =
    if rpdo_no == 0x200
    then ok (0x1400, 0x1600)
    else if rpdo_no == 0x300
    then ok (0x1401, 0x1601)
    else if rpdo_no == 0x400
    then ok (0x1402, 0x1602)
    else if rpdo_no == 0x500
    then ok (0x1403, 0x1603)
    else err canopen_error

-- `set_entry(index, subindex, value, WriteAccessMethod::sdo)`
unfoldable pub write : ℕ → ℕ → Value → Exec Device (Unit {0})
write index subindex v =
    set_entry_at (record { index = index; subindex = subindex }) v WriteAccessMethod.sdo

-- The loop of `write_entries`, whose counters are bytes
unfoldable pub write_loop : ℕ → ℕ → ℕ → ℕ → List ℕ → Exec Device (Unit {0})
write_loop zero index i offset entries d = (err out_of_fuel, d)
write_loop (suc fuel) index i offset entries d = elim (ltb i (length entries)) [
  | false ↦ (ok tt, d)
  | true ↦
      (do
        write index ((offset + 1) % 2 ^ 8) (of_uint32 (get_or entries i 0))
        write_loop fuel index ((i + 1) % 2 ^ 8) ((offset + 1) % 2 ^ 8) entries)
        d
]

unfoldable pub write_entries : ℕ → List ℕ → Exec Device (Unit {0})
write_entries index entries = write_loop (length entries + 1) index 0 0 entries

-- `cob_id ^= (-1 ^ cob_id) & (1UL << 31)`
unfoldable pub disabled_cob_id : ℕ → ℕ
disabled_cob_id cob_id = bit_xor cob_id (bit_and (bit_xor 0xFFFFFFFF cob_id) (2 ^ 31))

-- `cob_id ^= (0 ^ cob_id) & (1UL << 31)`
unfoldable pub enabled_cob_id : ℕ → ℕ
enabled_cob_id cob_id = bit_xor cob_id (bit_and (bit_xor 0 cob_id) (2 ^ 31))

-- `cob_id = get_entry(comm_param_idx, 0x01, ReadAccessMethod::sdo)`
unfoldable pub read_cob_id : ℕ → Exec Device ℕ
read_cob_id comm = do
  v ← get_entry_at (record { index = comm; subindex = 1 }) ReadAccessMethod.sdo
  λ d. (to_uint32 v, d)

-- `map_tpdo_in_device` with an inhibit time and an event timer
unfoldable pub map_tpdo_in_device : ℕ → List ℕ → ℕ → ℕ → ℕ → Exec Device (Unit {0})
map_tpdo_in_device tpdo_no entries transmit_type inhibit_time event_timer d =
    elim (get_tpdo_indexes tpdo_no) [
      | err x ↦ (err x, d)
      | ok (comm, mapp) ↦
          (do
            cob_id ← read_cob_id comm
            let off = disabled_cob_id cob_id
            write comm 1 (of_uint32 off)
            write mapp 0 (of_uint8 0)
            write_entries mapp entries
            write mapp 0 (of_uint8 (length entries % 2 ^ 8))
            write comm 2 (of_uint8 transmit_type)
            write comm 3 (of_uint16 inhibit_time)
            write comm 5 (of_uint16 event_timer)
            write comm 1 (of_uint32 (enabled_cob_id off)))
            d
    ]

-- `map_tpdo_in_device` with an inhibit time
unfoldable pub map_tpdo_inhibit : ℕ → List ℕ → ℕ → ℕ → Exec Device (Unit {0})
map_tpdo_inhibit tpdo_no entries transmit_type inhibit_time d = elim (get_tpdo_indexes tpdo_no) [
  | err x ↦ (err x, d)
  | ok (comm, mapp) ↦
      (do
        cob_id ← read_cob_id comm
        let off = disabled_cob_id cob_id
        write comm 1 (of_uint32 off)
        write mapp 0 (of_uint8 0)
        write_entries mapp entries
        write mapp 0 (of_uint8 (length entries % 2 ^ 8))
        write comm 2 (of_uint8 transmit_type)
        write comm 3 (of_uint16 inhibit_time)
        write comm 1 (of_uint32 (enabled_cob_id off)))
        d
]

-- What `map_tpdo_in_device` with neither and `map_rpdo_in_device` do with the indices
unfoldable pub map_basic : ℕ → ℕ → List ℕ → ℕ → Exec Device (Unit {0})
map_basic comm mapp entries transmit_type = do
  cob_id ← read_cob_id comm
  let off = disabled_cob_id cob_id
  write comm 1 (of_uint32 off)
  write mapp 0 (of_uint8 0)
  write_entries mapp entries
  write mapp 0 (of_uint8 (length entries % 2 ^ 8))
  write comm 2 (of_uint8 transmit_type)
  write comm 1 (of_uint32 (enabled_cob_id off))

unfoldable pub map_tpdo_basic : ℕ → List ℕ → ℕ → Exec Device (Unit {0})
map_tpdo_basic tpdo_no entries transmit_type d = elim (get_tpdo_indexes tpdo_no) [
  | err x ↦ (err x, d)
  | ok (comm, mapp) ↦ map_basic comm mapp entries transmit_type d
]

unfoldable pub map_rpdo_in_device : ℕ → List ℕ → ℕ → Exec Device (Unit {0})
map_rpdo_in_device rpdo_no entries transmit_type d = elim (get_rpdo_indexes rpdo_no) [
  | err x ↦ (err x, d)
  | ok (comm, mapp) ↦ map_basic comm mapp entries transmit_type d
]
