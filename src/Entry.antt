-- ===== src/Entry.antt =====
-- Dictionary entries (include/kacanopen/master/entry.h, src/master/entry.cpp). A callback is named by
-- a number; a call of it is its name and the value that it is given. Descriptions
-- and printing are not modelled.
pub mod Changes
mod Runs
use kacanopen.Prelude.{
  ◌==◌, ℕ, zero, suc, ◌+◌, ◌-◌, ◌*◌, ◌/◌, ◌%◌, ◌^◌, ◌≤◌, ◌<◌, ◌≡◌, ◌≢◌, refl, ap, sym, ◌∙◌, List,
  [], ◌∷◌, ◌++◌, map, arith, Option, none, some, length, bit_and, ltb, leb, not, if◌then◌else◌,
  Bool, true, false, ◌||◌, ◌&&◌, ◌⊎◌, inl, inr, get_or, set, take, drop, replicate, All, ◌↔◌,
  Bool-cases, if_apply, if_both,
}
use kacanopen.Error.{Result, ok, err, canopen_error}
use kacanopen.Exec.{Exec, pure, raise}
use kacanopen.Value.{
  Value, ValueType, type_of, nothing, uint8, uint16, uint32, uint64, int8, int16, int32, int64,
  real32, real64, string, boolean, octet_string, invalid,
}
use kacanopen.Value.Equality.{equals}

-- `kaco::AccessType`
pub data AccessType : Type 0 where
  read_only write_only read_write constant : AccessType

-- `kaco::ReadAccessMethod`
pub data ReadAccessMethod : Type 0 where
  use_default cache sdo cache_and_pdo_request pdo_request_and_wait : ReadAccessMethod

-- `kaco::WriteAccessMethod`
pub data WriteAccessMethod : Type 0 where
  use_default cache sdo pdo : WriteAccessMethod

pub record Entry : Type 0 where
  pub index : ℕ
  pub subindex : ℕ
  pub name : List ℕ
  pub type : ValueType
  pub access_type : AccessType
  pub read_access_method : ReadAccessMethod
  pub write_access_method : WriteAccessMethod
  pub disabled : Bool
  pub is_generic : Bool
  pub m_value : Value
  pub m_valid : Bool
  pub value_changed_callbacks : List ℕ
  pub calls : List (ℕ × Value)

-- `Entry(index, subindex, name, type, access_type)`
unfoldable pub new_entry : ℕ → ℕ → List ℕ → ValueType → AccessType → Entry
new_entry index subindex name type access_type = record {
  index = index;
  subindex = subindex;
  name = name;
  type = type;
  access_type = access_type;
  read_access_method = ReadAccessMethod.sdo;
  write_access_method = WriteAccessMethod.sdo;
  disabled = false;
  is_generic = false;
  m_value = nothing;
  m_valid = false;
  value_changed_callbacks = [];
  calls = [];
}

-- The enumeration's own `==`
unfoldable pub type_number : ValueType → ℕ
type_number uint8 = 0
type_number uint16 = 1
type_number uint32 = 2
type_number uint64 = 3
type_number int8 = 4
type_number int16 = 5
type_number int32 = 6
type_number int64 = 7
type_number real32 = 8
type_number real64 = 9
type_number string = 10
type_number boolean = 11
type_number octet_string = 12
type_number invalid = 13

unfoldable pub same_type : ValueType → ValueType → Bool
same_type t u = type_number t == type_number u

-- `m_value.type != type || m_value != value`
pub value_changed : Entry → Value → Result Bool
value_changed e v = elim (same_type (type_of e.m_value) e.type) [
  | false ↦ ok true
  | true ↦ elim (equals e.m_value v) [ ok b ↦ ok (not b) | err x ↦ err x ]
]

-- The value is stored before the callbacks are called.
unfoldable pub store : Value → Bool → Entry → Entry
store v changed e =
    let called = if changed then map (λ c. (c, v)) e.value_changed_callbacks else [] in
    record e { m_value = v; m_valid = true; calls = e.calls ++ called }

unfoldable pub set_value : Value → Exec Entry (Unit {0})
unfolding value_changed store same_type
set_value v e =
    if same_type (type_of v) e.type
    then (let out : Result (Unit {0}) × Entry = elim (value_changed e v) [
      | ok changed ↦ (ok tt, store v changed e)
      | err x ↦ (err x, e)
    ] in
        out)
    else (err canopen_error, e)

unfoldable pub get_value : Entry → Result Value
get_value e = if e.m_valid then ok e.m_value else err canopen_error

pub valid : Entry → Bool
valid e = e.m_valid

pub get_type : Entry → ValueType
get_type e = e.type

unfoldable pub add_value_changed_callback : ℕ → Entry → Entry
add_value_changed_callback c e = record e {
  value_changed_callbacks = e.value_changed_callbacks ++ (c ∷ []);
}

-- `operator<`
pub precedes : Entry → Entry → Bool
precedes a b = ltb a.index b.index || ((a.index == b.index) && ltb a.subindex b.subindex)
