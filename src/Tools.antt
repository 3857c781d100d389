-- ===== src/Tools.antt =====
-- The tools (src/tools/device_tpdo.cpp, device_rpdo.cpp and parse_sdo.cpp): functions outside the
-- library that configure the PDOs inside a device and read the bytes of an SDO. A PDO is named by the
-- number of its enumerator, from 0 on. The four cases of each switch differ in the two indices, which
-- their common text takes as arguments.
pub mod Remapped
pub mod Parsed
mod Runs
use kacanopen.Prelude.{
  ◌==◌, ℕ, zero, suc, ◌+◌, ◌-◌, ◌*◌, ◌/◌, ◌%◌, ◌^◌, ◌≤◌, ◌<◌, ◌≡◌, ◌≢◌, refl, ap, sym, ◌∙◌, List,
  [], ◌∷◌, ◌++◌, map, arith, Option, none, some, length, bit_and, ltb, leb, not, if◌then◌else◌,
  Bool, true, false, ◌||◌, ◌&&◌, ◌⊎◌, inl, inr, get_or, set, take, drop, replicate, All, ◌↔◌,
  Bool-cases, if_apply, if_both,
}
use kacanopen.Error.{Result, ok, err, out_of_fuel, out_of_range}
use kacanopen.Exec.{Exec, pure, ◌>>=◌, ◌>>◌}
use kacanopen.Value.{Value, of_uint8, of_uint16, of_uint32, of_int8, of_int16, of_int32, of_string}
use kacanopen.Value.Integers.{ℤ, signed}
use kacanopen.Device.{Device}
use kacanopen.Device.Configure.{write, read_cob_id, disabled_cob_id, enabled_cob_id}

-- The loop of `write_entry`, whose counters are bytes
unfoldable pub write_from : ℕ → ℕ → ℕ → ℕ → List ℕ → Exec Device (Unit {0})
write_from zero index i offset entries d = (err out_of_fuel, d)
write_from (suc fuel) index i offset entries d = elim (ltb i (length entries)) [
  | false ↦ (ok tt, d)
  | true ↦
      (do
        write index ((offset + 1) % 2 ^ 8) (of_uint32 (get_or entries i 0))
        write_from fuel index ((i + 1) % 2 ^ 8) ((offset + 1) % 2 ^ 8) entries)
        d
]

unfoldable pub write_entry : ℕ → List ℕ → Exec Device (Unit {0})
write_entry index entries = write_from (length entries + 1) index 0 0 entries

-- A case of `map_rpdo_in_device`, and of `map_tpdo_in_device` without times
unfoldable pub remap : ℕ → ℕ → List ℕ → ℕ → Exec Device (Unit {0})
remap comm mapp entries transmit_type = do
  cob_id ← read_cob_id comm
  let off = disabled_cob_id cob_id
  write comm 1 (of_uint32 off)
  write mapp 0 (of_uint8 0)
  write_entry mapp entries
  write mapp 0 (of_uint8 (length entries % 2 ^ 8))
  write comm 2 (of_uint8 transmit_type)
  write comm 1 (of_uint32 (enabled_cob_id off))

-- A case of `map_tpdo_in_device` with an inhibit time
unfoldable pub remap_inhibited : ℕ → ℕ → List ℕ → ℕ → ℕ → Exec Device (Unit {0})
remap_inhibited comm mapp entries transmit_type inhibit_time = do
  cob_id ← read_cob_id comm
  let off = disabled_cob_id cob_id
  write comm 1 (of_uint32 off)
  write mapp 0 (of_uint8 0)
  write_entry mapp entries
  write mapp 0 (of_uint8 (length entries % 2 ^ 8))
  write comm 2 (of_uint8 transmit_type)
  write comm 3 (of_uint16 inhibit_time)
  write comm 1 (of_uint32 (enabled_cob_id off))

-- A case of `map_tpdo_in_device` with an inhibit time and an event timer
unfoldable pub remap_timed : ℕ → ℕ → List ℕ → ℕ → ℕ → ℕ → Exec Device (Unit {0})
remap_timed comm mapp entries transmit_type inhibit_time event_timer = do
  cob_id ← read_cob_id comm
  let off = disabled_cob_id cob_id
  write comm 1 (of_uint32 off)
  write mapp 0 (of_uint8 0)
  write_entry mapp entries
  write mapp 0 (of_uint8 (length entries % 2 ^ 8))
  write comm 2 (of_uint8 transmit_type)
  write comm 3 (of_uint16 inhibit_time)
  write comm 5 (of_uint16 event_timer)
  write comm 1 (of_uint32 (enabled_cob_id off))

-- The switches. The `default` label only prints.
unfoldable pub switch_rpdo : ℕ → (ℕ → ℕ → Exec Device (Unit {0})) → Exec Device (Unit {0})
switch_rpdo rpdo_no body =
    if rpdo_no == 0
    then body 0x1400 0x1600
    else if rpdo_no == 1
    then body 0x1401 0x1601
    else if rpdo_no == 2
    then body 0x1402 0x1602
    else if rpdo_no == 3
    then body 0x1403 0x1603
    else pure tt

unfoldable pub switch_tpdo : ℕ → (ℕ → ℕ → Exec Device (Unit {0})) → Exec Device (Unit {0})
switch_tpdo tpdo_no body =
    if tpdo_no == 0
    then body 0x1800 0x1A00
    else if tpdo_no == 1
    then body 0x1801 0x1A01
    else if tpdo_no == 2
    then body 0x1802 0x1A02
    else if tpdo_no == 3
    then body 0x1803 0x1A03
    else pure tt

-- `map_rpdo_in_device`
unfoldable pub map_rpdo : ℕ → List ℕ → ℕ → Exec Device (Unit {0})
map_rpdo rpdo_no entries transmit_type =
    switch_rpdo rpdo_no (λ comm mapp. remap comm mapp entries transmit_type)

-- The three functions `map_tpdo_in_device`
unfoldable pub map_tpdo : ℕ → List ℕ → ℕ → Exec Device (Unit {0})
map_tpdo tpdo_no entries transmit_type =
    switch_tpdo tpdo_no (λ comm mapp. remap comm mapp entries transmit_type)

unfoldable pub map_tpdo_inhibited : ℕ → List ℕ → ℕ → ℕ → Exec Device (Unit {0})
map_tpdo_inhibited tpdo_no entries transmit_type inhibit_time =
    switch_tpdo tpdo_no (λ comm mapp. remap_inhibited comm mapp entries transmit_type inhibit_time)

unfoldable pub map_tpdo_timed : ℕ → List ℕ → ℕ → ℕ → ℕ → Exec Device (Unit {0})
map_tpdo_timed tpdo_no entries transmit_type inhibit_time event_timer =
    switch_tpdo tpdo_no
      (λ comm mapp. remap_timed comm mapp entries transmit_type inhibit_time event_timer)

-- `sdo_read_byte`, for at most four bytes: more are written past its end
abbrev byte_of : List ℕ → ℕ → ℕ
byte_of bytes i = get_or bytes i 0

-- The two words, and the double word, which goes through `uint16_t`
unfoldable pub low_word : List ℕ → ℕ
low_word bytes = (byte_of bytes 1 * 2 ^ 8 + byte_of bytes 0) % 2 ^ 16

unfoldable pub high_word : List ℕ → ℕ
high_word bytes = (byte_of bytes 3 * 2 ^ 8 + byte_of bytes 2) % 2 ^ 16

unfoldable pub double_word : List ℕ → ℕ
double_word bytes = (high_word bytes * 2 ^ 16 + low_word bytes) % 2 ^ 16

-- `sdo_read_dw_as_int`, as the word that it stands for
unfoldable pub joined : List ℕ → ℕ
joined bytes =
    byte_of bytes 3 * 2 ^ 24 + byte_of bytes 2 * 2 ^ 16 + byte_of bytes 1 * 2 ^ 8 + byte_of bytes 0

-- `SDO_PARSE_TYPE`
pub data SdoParseType : Type 0 where
  unsigned_int32 signed_int32 unsigned_int16 signed_int16 unsigned_int8 : SdoParseType
  signed_int8 string : SdoParseType

-- The bytes up to the first that is zero
unfoldable pub until_zero : List ℕ → List ℕ
until_zero [] = []
until_zero (b ∷ bs) = let rest = until_zero bs in if b == 0 then [] else b ∷ rest

-- `parse_sdo`, for at most four bytes. A text that fills all four of them has no end there.
unfoldable pub parse_sdo : List ℕ → SdoParseType → Value
parse_sdo bytes unsigned_int32 = of_uint32 (double_word bytes)
parse_sdo bytes unsigned_int16 = of_uint16 (double_word bytes % 2 ^ 16)
parse_sdo bytes unsigned_int8 = of_uint8 (double_word bytes % 2 ^ 8)
parse_sdo bytes signed_int32 = of_int32 (signed 32 (joined bytes))
parse_sdo bytes signed_int16 = of_int16 (signed 16 (joined bytes))
parse_sdo bytes signed_int8 = of_int8 (signed 8 (joined bytes))
parse_sdo bytes string = of_string (until_zero bytes)

-- `parse_sdo_read_as_int`, for at most four bytes
unfoldable pub parse_sdo_read_as_int : List ℕ → ℤ
parse_sdo_read_as_int bytes =
    if ltb 2 (length bytes) then signed 32 (joined bytes) else signed 16 (joined bytes)
