-- ===== src/Device/Typed.antt =====
-- The types of the values that reads answer.
use kacanopen.Prelude.{◌≡◌, refl, sym, ◌∙◌, some, inl, inr, Bool-cases, if_both}
use kacanopen.Error.{Result, ok, err}
use kacanopen.Exec.{Exec, continue_with, ◌>>◌}
use kacanopen.Value.{Value, ValueType, type_of}
use kacanopen.Entry.{Entry, get_value, ReadAccessMethod}
use kacanopen.Dictionary.{Address, find_entry}
use kacanopen.Device.{canopen_error, Device, entry_at}
use kacanopen.Device.Entries.{find_entry-put_entry, address_equal_refl}
use kacanopen.Device.Access.{
  get_entry_at, set_entry_value, cached_value, reads_via_sdo, get_entry_via_sdo,
}
use kacanopen.Device.Soundness.{IsTyped, IsPlain, IsSound, All-found}
use kacanopen.Device.Kept.{set_entry_value_cases}

-- What holds of the value of a result
abbrev pub Answers : (Value → Type 0) → Result Value → Type 0
Answers P (ok v) = P v
Answers P (err x) = Unit

abbrev pub HasType : ValueType → Value → Type 0
HasType t v = type_of v ≡ t

get_value-HasType : (e : Entry) → IsTyped e → Answers (HasType e.type) (get_value e)
unfolding get_value
get_value-HasType e (inl empty) = rw (empty, get_value) tt
get_value-HasType e (inr typed) =
    if_both (Answers (HasType e.type)) e.m_valid (ok e.m_value) (err canopen_error) typed tt

cached_value-HasType :
    (a : Address) (e : Entry) (t : ValueType) (d : Device)
    → find_entry a d.dictionary ≡ some e
    → e.type ≡ t
    → IsTyped e
    → Answers (HasType t) (cached_value a d).0
unfolding cached_value entry_at
cached_value-HasType a e t d found type typed =
    rw (found, cached_value, entry_at) (rw (sym type) (get_value-HasType e typed))

module _ (a : Address) (t : ValueType) where
  -- An entry of the type stands at the address, and its value has the type.
  abbrev HoldsType : Device → Type 0
  HoldsType d = (e : Entry) × (find_entry a d.dictionary ≡ some e) × (e.type ≡ t) × IsTyped e

  HasType-continue_with :
      {A : Type 0} (r : Result A) (k : A → Exec Device Value) (d : Device)
      → ((x : A) → Answers (HasType t) (k x d).0)
      → Answers (HasType t) (continue_with r k d).0
  HasType-continue_with (ok x) k d h = h x
  HasType-continue_with (err x) k d h = tt

set_entry_value-HoldsType :
    (a : Address) (e : Entry) (v : Value) (d : Device)
    → find_entry a d.dictionary ≡ some e
    → IsTyped e
    → HoldsType a e.type (set_entry_value a e v d).1
set_entry_value-HoldsType a e v d found typed = elim (set_entry_value_cases a e v d) [
  | inl (x, run) ↦ rw run (e, found, refl, typed)
  | inr (e', r, p, ((_, _, _, t), kept), run) ↦ rw run (
    e',
    find_entry-put_entry a a e e' d.dictionary found ∙ rw (address_equal_refl a) refl,
    t,
    kept typed,
  )
]

-- What a read of an entry of a sound device answers has the entry's type, whether it comes from the
-- cache or from the node.
pub get_entry_at-HasType :
    (a : Address) (e : Entry) (access : ReadAccessMethod) (d : Device)
    → IsSound d
    → find_entry a d.dictionary ≡ some e
    → Answers (HasType e.type) (get_entry_at a access d).0
unfolding get_entry_at entry_at get_entry_via_sdo
get_entry_at-HasType a e access d (consistent, plain, bound) found =
    let (_, typed) = All-found IsPlain a e d.dictionary found plain in
    elim (Bool-cases (reads_via_sdo access e)) [
      | inr cached ↦
          rw (found, cached, get_entry_at, entry_at)
            (cached_value-HasType a e e.type d found refl typed)
      | inl asked ↦
          let at : Address = record { index = e.index; subindex = e.subindex } in
          let d1 = (get_entry_via_sdo at e.type d).1 in
          rw (found, asked, get_entry_at, entry_at)
            (HasType-continue_with a e.type (get_entry_via_sdo at e.type d).0
              (λ v. set_entry_value a e v >> cached_value a) d1
              (λ v.
                let (e', found', t, typed') = set_entry_value-HoldsType a e v d1 found typed in
                HasType-continue_with a e.type (set_entry_value a e v d1).0 (λ _. cached_value a)
                  (set_entry_value a e v d1).1
                  (λ _.
                    cached_value-HasType a e' e.type (set_entry_value a e v d1).1 found' t typed')))
    ]
