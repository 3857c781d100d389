-- ===== src/Value/Runs.antt =====
-- The theorem about values and their bytes at concrete inputs.
use kacanopen.Prelude.{ℕ, ◌≡◌, List, arith, length, false, ◌⊎◌}
use kacanopen.Error.{ok}
use kacanopen.Value.{of_int16, type_of, get_bytes, of_bytes, get_type_size, has_fixed_size}
use kacanopen.Value.Integers.{negsuc}
use kacanopen.Value.Bytes.{of_bytes-get_bytes}

-- -300
of_bytes-get_bytes_example :
    (bs : List ℕ) × (get_bytes (of_int16 (negsuc 299)) ≡ ok bs)
    × (of_bytes (type_of (of_int16 (negsuc 299))) bs ≡ ok (of_int16 (negsuc 299)))
    × ((has_fixed_size (type_of (of_int16 (negsuc 299))) ≡ false)
        ⊎ (length bs ≡ get_type_size (type_of (of_int16 (negsuc 299)))))
of_bytes-get_bytes_example = of_bytes-get_bytes (of_int16 (negsuc 299)) (omega arith)
