-- ===== src/Device/Cached.antt =====
-- What reading and writing an entry leave in the dictionary.
use kacanopen.Prelude.{
  ℕ, ◌≡◌, ◌≢◌, refl, ap, ◌∙◌, List, [], ◌∷◌, ◌++◌, map, some, length, if◌then◌else◌, Bool, true,
  false, ◌⊎◌, drop,
}
use kacanopen.Error.{Result, ok, err}
use kacanopen.Value.{Value, type_of}
use kacanopen.Entry.{Entry, set_value, store}
use kacanopen.Entry.Changes.{is_comparable, value_changed_lem, set_value_result, get_value-store}
use kacanopen.Dictionary.{Address, find_entry}
use kacanopen.Device.{Device, entry_at, put_entry}
use kacanopen.Device.Entries.{find_entry-put_entry, address_equal_refl}
use kacanopen.Device.Access.{call_back, set_entry_value, cached_value}

module _ {ℓ} {A : Type ℓ} where
  pub drop_append : (xs ys : List A) → drop (length xs) (xs ++ ys) ≡ ys
  drop_append [] ys = refl
  drop_append (x ∷ xs) ys = drop_append xs ys

-- The device with the value stored
abbrev pub stored : Address → Entry → Value → Bool → Device → Device
stored a e v changed d = record d { dictionary = put_entry a (store v changed e) d.dictionary }

-- The callbacks that are due
abbrev pub due : Entry → Value → Bool → List (ℕ × Value)
due e v changed = if changed then map (λ c. (c, v)) e.value_changed_callbacks else []

set_entry_value_ok :
    (a : Address) (e e' : Entry) (v : Value) (d : Device)
    → set_value v e ≡ (ok tt, e')
    → set_entry_value a e v d
      ≡ call_back
          (drop (length e.calls) e'.calls)
          (record d { dictionary = put_entry a e' d.dictionary })
unfolding set_entry_value
set_entry_value_ok a e e' v d h =
    ap
      (λ (p : Result (Unit {0}) × Entry). elim p.0 as (λ x. Result (Unit {0}) × Device) [
        | ok _ ↦
            call_back (drop (length e.calls) p.1.calls)
              (record d { dictionary = put_entry a p.1 d.dictionary })
        | err x ↦ (err x, d)
      ])
      h

-- A value of the entry's type is stored, and then the callbacks are called if it is another one.
pub set_entry_value-due :
    (a : Address) (e : Entry) (v : Value) (d : Device)
    → type_of v ≡ e.type
    → is_comparable e.type ≡ true
    → (changed : Bool) × (set_entry_value a e v d
        ≡ call_back (due e v changed) (stored a e v changed d))
      × (((changed ≡ false) × (e.m_value ≡ v)) ⊎ ((changed ≡ true) × (e.m_value ≢ v)))
unfolding store
set_entry_value-due a e v d h comparable =
    let (changed, eq, verdict) = value_changed_lem e v h comparable in
    (
      changed,
      set_entry_value_ok a e (store v changed e) v d (set_value_result e v changed h eq)
          ∙ ap (λ (cs : List (ℕ × Value)). call_back cs (stored a e v changed d))
              (drop_append e.calls (due e v changed)),
      verdict,
    )

-- A stored value is found at its address.
pub cached_value-stored :
    (a : Address) (e : Entry) (v : Value) (changed : Bool) (d : Device)
    → find_entry a d.dictionary ≡ some e
    → cached_value a (stored a e v changed d) ≡ (ok v, stored a e v changed d)
unfolding cached_value entry_at
cached_value-stored a e v changed d found =
    let here : find_entry a (stored a e v changed d).dictionary ≡ some (store v changed e) =
      find_entry-put_entry a a e (store v changed e) d.dictionary found
      ∙ rw (address_equal_refl a) refl in
    rw (here, cached_value, entry_at, get_value-store e v changed) refl
