-- ===== src/Entry/Runs.antt =====
-- The theorems about entries at concrete inputs.
use kacanopen.Prelude.{◌≡◌, ◌≢◌, refl, [], ◌∷◌, true, false, ◌⊎◌}
use kacanopen.Error.{ok}
use kacanopen.Value.{ValueType, uint8, boolean, Value, of_uint8, of_boolean, type_of}
use kacanopen.Entry.{ReadAccessMethod, WriteAccessMethod, Entry, read_write, set_value, get_value}
use kacanopen.Entry.Changes.{is_comparable, set_value_lem, set_value_boolean}

abbrev holding : ValueType → Value → Entry
holding t v = record {
  index = 0x2000;
  subindex = 0;
  name = [];
  type = t;
  access_type = read_write;
  read_access_method = ReadAccessMethod.sdo;
  write_access_method = WriteAccessMethod.sdo;
  disabled = false;
  is_generic = false;
  m_value = v;
  m_valid = true;
  value_changed_callbacks = 4 ∷ [];
  calls = [];
}

set_value_lem_example :
    let (r, e') = set_value (of_uint8 6) (holding uint8 (of_uint8 5)) in
    (r ≡ ok tt)
    × (get_value e' ≡ ok (of_uint8 6))
    × (((of_uint8 5 ≡ of_uint8 6) × (e'.calls ≡ []))
        ⊎ ((of_uint8 5 ≢ of_uint8 6) × (e'.calls ≡ (4, of_uint8 6) ∷ [])))
unfolding type_of is_comparable
set_value_lem_example = set_value_lem (holding uint8 (of_uint8 5)) (of_uint8 6) refl refl

set_value_boolean_example :
    let e' = (set_value (of_boolean true) (holding boolean (of_boolean false))).1 in
    (get_value e' ≡ ok (of_boolean true)) × (e'.calls ≡ [])
set_value_boolean_example =
    set_value_boolean (holding boolean (of_boolean false)) false true refl refl
