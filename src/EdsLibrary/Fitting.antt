-- ===== src/EdsLibrary/Fitting.antt =====
-- Which manufacturer's file is chosen.
use kacanopen.Prelude.{
  ℕ, ◌≡◌, refl, sym, ◌∙◌, List, Option, none, some, true, false, ◌⊎◌, inl, inr, All, Bool-cases,
}
use kacanopen.Error.{ok, err, Error, canopen_error, dictionary_error}
use kacanopen.Value.{Value, type_of, invalid}
use kacanopen.Entry.{Entry, same_type, get_value, ReadAccessMethod}
use kacanopen.Dictionary.{Address, find_entry}
use kacanopen.Device.{Device, entry_at}
use kacanopen.Device.Access.{get_entry, get_entry_at, cached_value, reads_via_sdo}
use kacanopen.Error.{DictionaryErrorType}
use kacanopen.Device.Tables.{resolve_total}
use kacanopen.Device.Soundness.{All-found}
use kacanopen.EdsLibrary.Matching.{is_canopen_error}

-- A read of the entry takes its value from the cache, and if there is one, it has a proper type.
abbrev pub IsHeld : Address × Entry → Type 0
IsHeld (a, e) =
    (reads_via_sdo ReadAccessMethod.use_default e ≡ false)
    × ((e.m_valid ≡ false) ⊎ (same_type (type_of e.m_value) invalid ≡ false))

-- What the device holds under a name
abbrev pub held_value : Device → List ℕ → Option Value
held_value d field = elim (get_entry field ReadAccessMethod.use_default d).0 [
  | ok v ↦ some v
  | err x ↦ none
]

-- A read of a name on a device that holds its values: the value, or an error that is caught
abbrev pub Reads : Device → List ℕ → Type 0
Reads d field =
    ((v : Value) × (get_entry field ReadAccessMethod.use_default d ≡ (ok v, d))
      × (same_type (type_of v) invalid ≡ false))
    ⊎ ((x : Error) × (get_entry field ReadAccessMethod.use_default d ≡ (err x, d))
        × (is_canopen_error x ≡ true))

cached_value-held :
    (a : Address) (e : Entry) (d : Device)
    → find_entry a d.dictionary ≡ some e
    → cached_value a d ≡ (get_value e, d)
unfolding cached_value entry_at
cached_value-held a e d found = rw (found, cached_value, entry_at) refl

pub get_entry-Reads : (d : Device) (field : List ℕ) → All IsHeld d.dictionary → Reads d field
unfolding get_entry get_entry_at entry_at get_value
get_entry-Reads d field held = elim (resolve_total field d) [
  | inl missing ↦ inr (
    dictionary_error DictionaryErrorType.unknown_entry,
    rw (missing, get_entry) refl,
    unfold is_canopen_error in refl,
  )
  | inr (a, e, leads, found) ↦
      let (cached, proper) = All-found IsHeld a e d.dictionary found held in
      let run : get_entry field ReadAccessMethod.use_default d ≡ (get_value e, d) =
        rw (leads, found, cached, get_entry, get_entry_at, entry_at)
          (cached_value-held a e d found) in
      elim (Bool-cases e.m_valid) [
        | inl valid ↦ inl (
          e.m_value,
          run ∙ rw (valid, get_value) refl,
          elim proper [ inl empty ↦ absurd (true≢false (sym valid ∙ empty)) | inr real ↦ real ],
        )
        | inr empty ↦
            inr (canopen_error, run ∙ rw (empty, get_value) refl, unfold is_canopen_error in refl)
      ]
]
  where
    true≢false : true ≡ false → ⊥
    true≢false p = cc
