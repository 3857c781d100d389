-- ===== src/Tools/Runs.antt =====
-- The first PDOs of a motor controller configured by the tools, and four bytes read by them.
use kacanopen.Prelude.{◌≡◌, ◌%◌, ◌^◌, ℕ, List, [], ◌∷◌, arith}
use kacanopen.Error.{ok}
use kacanopen.Value.{of_bytes, int32, uint32, of_uint32}
use kacanopen.Device.Runs.{motor}
use kacanopen.Tools.{parse_sdo, unsigned_int32, signed_int32}
use kacanopen.Tools.Parsed.{parse_sdo_lem}
use kacanopen.Tools.Remapped.{AreAlike, map_tpdo_timed-map_tpdo_in_device}

map_tpdo_timed-map_tpdo_in_device_example : AreAlike 2 (0x60410010 ∷ []) 254 10 20 motor
map_tpdo_timed-map_tpdo_in_device_example =
    map_tpdo_timed-map_tpdo_in_device 2 (0x60410010 ∷ []) 254 10 20 motor (omega arith)

parse_sdo_lem_example :
    let bs : List ℕ = 0x92 ∷ 1 ∷ 2 ∷ 0x80 ∷ [] in
    (of_bytes int32 bs ≡ ok (parse_sdo bs signed_int32))
    × ((n : ℕ) × (of_bytes uint32 bs ≡ ok (of_uint32 n))
        × (parse_sdo bs unsigned_int32 ≡ of_uint32 (n % 2 ^ 16)))
parse_sdo_lem_example =
    parse_sdo_lem 0x92 1 2 0x80 (omega arith) (omega arith) (omega arith) (omega arith)
