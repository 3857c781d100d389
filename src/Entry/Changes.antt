-- ===== src/Entry/Changes.antt =====
-- What `Entry::set_value` keeps and whom it tells.
use kacanopen.Prelude.{
  if◌then◌else◌, ==_iff, ◌==◌, ℕ, ◌≡◌, ◌≢◌, refl, ap, sym, ◌∙◌, List, [], ◌∷◌, ◌++◌, map, arith,
  Bool, true, false, ◌⊎◌, inl, inr, ◌↔◌, Bool-cases,
}
use mathlib.Core.List.{append-nil}
use kacanopen.Error.{Result, ok}
use kacanopen.Error.{ok}
use kacanopen.Value.{
  Value, ValueType, type_of, real32, real64, boolean, invalid, of_uint8, of_uint16, of_uint32,
  of_uint64, of_int8, of_int16, of_int32, of_int64, of_string, of_boolean, of_octet_string,
}
use kacanopen.Value.Integers.{ℤ, pos, negsuc}
use kacanopen.Value.Equality.{equals, integers_equal, bytes_equal}
use kacanopen.Entry.{
  canopen_error, err, Entry, type_number, same_type, value_changed, store, set_value, get_value,
}
use kacanopen.Entry.{Entry, type_number, same_type, value_changed, store, set_value, get_value}

-- The types whose values `==` tells apart
unfoldable pub is_comparable : ValueType → Bool
is_comparable real32 = false
is_comparable real64 = false
is_comparable boolean = false
is_comparable invalid = false
is_comparable _ = true

integers_equal_iff : (a b : ℤ) → (integers_equal a b ≡ true) ↔ (a ≡ b)
unfolding integers_equal
integers_equal_iff (pos a) (pos b) = ground arith
integers_equal_iff (negsuc a) (negsuc b) = ground arith
integers_equal_iff (pos a) (negsuc b) = ground arith
integers_equal_iff (negsuc a) (pos b) = ground arith

pub bytes_equal_iff : (a b : List ℕ) → (bytes_equal a b ≡ true) ↔ (a ≡ b)
unfolding bytes_equal
bytes_equal_iff [] [] = ground arith
bytes_equal_iff [] (b ∷ ys) = ground arith
bytes_equal_iff (a ∷ xs) [] = ground arith
bytes_equal_iff (a ∷ xs) (b ∷ ys) = ground (arith, bytes_equal_iff xs ys)

-- On a comparable type `==` is equality.
equals_lem :
    (v w : Value)
    → type_of v ≡ type_of w
    → is_comparable (type_of v) ≡ true
    → (b : Bool) × (equals v w ≡ ok b) × ((b ≡ true) ↔ (v ≡ w))
unfolding type_of equals is_comparable
equals_lem (of_uint8 a) (of_uint8 b) e h = (a == b, refl, ground arith)
equals_lem (of_uint16 a) (of_uint16 b) e h = (a == b, refl, ground arith)
equals_lem (of_uint32 a) (of_uint32 b) e h = (a == b, refl, ground arith)
equals_lem (of_uint64 a) (of_uint64 b) e h = (a == b, refl, ground arith)
equals_lem (of_int8 a) (of_int8 b) e h =
    (integers_equal a b, refl, ground (arith, integers_equal_iff a b))
equals_lem (of_int16 a) (of_int16 b) e h =
    (integers_equal a b, refl, ground (arith, integers_equal_iff a b))
equals_lem (of_int32 a) (of_int32 b) e h =
    (integers_equal a b, refl, ground (arith, integers_equal_iff a b))
equals_lem (of_int64 a) (of_int64 b) e h =
    (integers_equal a b, refl, ground (arith, integers_equal_iff a b))
equals_lem (of_string a) (of_string b) e h =
    (bytes_equal a b, refl, ground (arith, bytes_equal_iff a b))
equals_lem (of_octet_string a) (of_octet_string b) e h =
    (bytes_equal a b, refl, ground (arith, bytes_equal_iff a b))
equals_lem _ _ e h = ground arith

pub type_number_injective : (t u : ValueType) → type_number t ≡ type_number u → t ≡ u
unfolding type_number
type_number_injective t u h = ground arith

pub same_type_sound : (t u : ValueType) → same_type t u ≡ true → t ≡ u
unfolding same_type
same_type_sound t u h = type_number_injective t u ((==_iff (type_number t) (type_number u)).0 h)

pub same_type_lem : (t u : ValueType) → t ≡ u → same_type t u ≡ true
unfolding same_type
same_type_lem t u h = rw h (ground arith)

-- What `set_value` answers once it is known whether the value has changed
pub set_value_result :
    (e : Entry) (v : Value) (changed : Bool)
    → type_of v ≡ e.type
    → value_changed e v ≡ ok changed
    → set_value v e ≡ (ok tt, store v changed e)
unfolding set_value
set_value_result e v changed h c = rw (same_type_lem (type_of v) e.type h, c) refl

pub get_value-store :
    (e : Entry) (v : Value) (changed : Bool) → get_value (store v changed e) ≡ ok v
unfolding get_value store
get_value-store e v changed = refl

-- `value_changed` tells whether the value has changed.
pub value_changed_lem :
    (e : Entry) (v : Value)
    → type_of v ≡ e.type
    → is_comparable e.type ≡ true
    → (changed : Bool) × (value_changed e v ≡ ok changed)
      × (((changed ≡ false) × (e.m_value ≡ v)) ⊎ ((changed ≡ true) × (e.m_value ≢ v)))
unfolding value_changed
value_changed_lem e v h comparable = elim (Bool-cases (same_type (type_of e.m_value) e.type)) [
  | inl same ↦
      let held : type_of e.m_value ≡ e.type =
        type_number_injective (type_of e.m_value) e.type
          (unfold same_type in ((==_iff _ _).0 same)) in
      let (b, eq, iff) = equals_lem e.m_value v (held ∙ sym h) (rw held comparable) in
      elim (Bool-cases b) [
        | inl hit ↦ (false, rw (same, eq, hit, value_changed) refl, inl (refl, iff.0 hit))
        | inr miss ↦ (
          true,
          rw (same, eq, miss, value_changed) refl,
          inr (refl, λ p. absurd (true≢false (sym (iff.1 p) ∙ miss))),
        )
      ]
  | inr other ↦ (
    true,
    rw (other, value_changed) refl,
    inr (
      refl,
      λ p.
          absurd (
            true≢false (sym (same_type_lem (type_of e.m_value) e.type (ap type_of p ∙ h)) ∙ other)),
    ),
  )
]
  where
    true≢false : true ≡ false → ⊥
    true≢false p = cc

-- A value of the entry's type is stored and can be read back; each callback is called once with it
-- if it differs from the value before, and none is called if it does not. The type is one whose
-- values `==` compares.
pub set_value_lem :
    (e : Entry) (v : Value)
    → type_of v ≡ e.type
    → is_comparable e.type ≡ true
    → let (r, e') = set_value v e in
      (r ≡ ok tt)
      × (get_value e' ≡ ok v)
      × (((e.m_value ≡ v) × (e'.calls ≡ e.calls))
          ⊎ ((e.m_value ≢ v) × (e'.calls ≡ e.calls ++ map (λ c. (c, v)) e.value_changed_callbacks)))
unfolding store
set_value_lem e v h comparable =
    let (changed, eq, verdict) = value_changed_lem e v h comparable in
    rw (set_value_result e v changed h eq) (
      refl,
      get_value-store e v changed,
      elim verdict [
        | inl (kept, same) ↦ inl (same, rw kept (append-nil e.calls))
        | inr (new, other) ↦ inr (other, rw new refl)
      ],
    )

-- On a boolean entry that holds a value no change is ever told: the operator compares the value with
-- itself.
pub set_value_boolean :
    (e : Entry) (old new : Bool)
    → e.type ≡ boolean
    → e.m_value ≡ of_boolean old
    → (get_value (set_value (of_boolean new) e).1 ≡ ok (of_boolean new))
      × ((set_value (of_boolean new) e).1.calls ≡ e.calls)
unfolding value_changed equals type_of store same_type type_number
set_value_boolean e old new h held =
    let eq : value_changed e (of_boolean new) ≡ ok false = rw (held, h) refl in
    rw (set_value_result e (of_boolean new) false (sym h) eq)
      (get_value-store e (of_boolean new) false, append-nil e.calls)

-- Whatever `set_value` does, the entry's address, name and type stay.
pub set_value_fixed :
    (e : Entry) (v : Value)
    → let e' = (set_value v e).1 in
      (e'.index ≡ e.index) × (e'.subindex ≡ e.subindex) × (e'.name ≡ e.name) × (e'.type ≡ e.type)
unfolding set_value store
set_value_fixed e v = go (same_type (type_of v) e.type) (value_changed e v)
  where
    go :
        (b : Bool) (r : Result Bool)
        → let e' =
            (if b
              then elim r as (λ x. Result (Unit {0}) × Entry) [
                | ok changed ↦ (ok tt, store v changed e)
                | err x ↦ (err x, e)
              ]
              else (err canopen_error, e)).1 in
          (e'.index ≡ e.index)
          × (e'.subindex ≡ e.subindex)
          × (e'.name ≡ e.name)
          × (e'.type ≡ e.type)
    go true (ok changed) = (refl, refl, refl, refl)
    go true (err x) = (refl, refl, refl, refl)
    go false r = (refl, refl, refl, refl)
