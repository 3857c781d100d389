-- ===== src/Device/Received.antt =====
-- Received PDOs keep a device sound, and change nothing but the values of entries that are there.
use kacanopen.Prelude.{
  Option-cases, ◌==◌, ℕ, ◌+◌, ◌≡◌, refl, ap, sym, ◌∙◌, List, [], ◌∷◌, map, some, length, ltb, inl,
  inr, take, drop, All, Bool-cases,
}
use kacanopen.Exec.{continue_with}
use kacanopen.Error.{Result, ok, err}
use kacanopen.Message.{Message}
use kacanopen.Value.{ValueType, Value, invalid, of_bytes, get_type_size}
use kacanopen.Entry.{Entry, same_type}
use kacanopen.Dictionary.{address_equal, EntryTable, Address, find_entry}
use kacanopen.Pdo.{process_incoming_message}
use kacanopen.Device.{Device, ReceivePdoMapping, put_entry}
use kacanopen.Device.Access.{set_entry_value}
use kacanopen.Device.Mappings.{
  update_from_pdo, pdo_received_callback, find_binding, deliver, receive_pdo,
}
use kacanopen.Device.Reception.{pdo_received_callback_found}
use kacanopen.Device.Soundness.{Fits, IsSound, AreSound-put_entry, some_injective}
use kacanopen.Device.Kept.{set_entry_value_cases}

-- The addresses, names and types of the entries
abbrev pub headings : EntryTable → List (Address × List ℕ × ValueType)
headings entries = map (λ p. (p.0, p.1.name, p.1.type)) entries

-- Nothing is changed but the PDO component, and what entries hold under their address, name and type.
abbrev pub OnlyValues : Device → Device → Type 0
OnlyValues d d' =
    (d' ≡ record d { dictionary = d'.dictionary; pdo = d'.pdo })
    × (headings d'.dictionary ≡ headings d.dictionary)

OnlyValues-trans : (d e f : Device) → OnlyValues d e → OnlyValues e f → OnlyValues d f
OnlyValues-trans d e f (h, k) (h', k') =
    (h' ∙ ap (λ (x : Device). record x { dictionary = f.dictionary; pdo = f.pdo }) h, k' ∙ k)

headings-put_entry :
    (a : Address) (old e : Entry) (entries : EntryTable)
    → find_entry a entries ≡ some old
    → e.name ≡ old.name
    → e.type ≡ old.type
    → headings (put_entry a e entries) ≡ headings entries
unfolding put_entry find_entry
headings-put_entry a old e [] h n t = refl
headings-put_entry a old e ((k, x) ∷ table) h n t = elim (Bool-cases (address_equal k a)) [
  | inl hit ↦
      let here : x ≡ old = some_injective (sym (rw (hit, find_entry) refl) ∙ h) in
      rw (hit, n, t, here) refl
  | inr miss ↦ rw miss (
      ap (λ hs. (k, x.name, x.type) ∷ hs)
        (headings-put_entry a old e table (sym (rw (miss, find_entry) refl) ∙ h) n t))
]

-- What becomes of a sound device
abbrev pub StaysSound : Device → Device → Type 0
StaysSound d d' = IsSound d' × OnlyValues d d'

set_entry_value-StaysSound :
    (a : Address) (e : Entry) (v : Value) (d : Device)
    → find_entry a d.dictionary ≡ some e
    → IsSound d
    → StaysSound d (set_entry_value a e v d).1
set_entry_value-StaysSound a e v d found h = elim (set_entry_value_cases a e v d) [
  | inl (x, run) ↦ rw run (h, (refl, refl))
  | inr (e', r, p, ((i, s, n, t), typed), run) ↦ rw run (
    AreSound-put_entry a e e' d.dictionary d.name_to_address d.bindings found (i, s, n, t) typed h,
    (refl, headings-put_entry a e e' d.dictionary found n t),
  )
]

-- A received value
update_from_pdo-StaysSound :
    (a : Address) (e : Entry) (offset : ℕ) (bytes : List ℕ) (d : Device)
    → find_entry a d.dictionary ≡ some e
    → IsSound d
    → StaysSound d (update_from_pdo a e offset bytes d).1
unfolding update_from_pdo
update_from_pdo-StaysSound a e offset bytes d found h =
    elim (Bool-cases (same_type e.type invalid)) [
      | inl unreal ↦ rw (unreal, update_from_pdo) (h, (refl, refl))
      | inr real ↦ elim (Bool-cases (ltb (length bytes) (offset + get_type_size e.type))) [
        | inl short ↦ rw (real, short, update_from_pdo) (h, (refl, refl))
        | inr long ↦
            rw (real, long, update_from_pdo)
              (go (of_bytes e.type (take (get_type_size e.type) (drop offset bytes))))
      ]
    ]
  where
    go :
        (r : Result Value)
        → StaysSound d
            (elim r as (λ x. Result (Unit {0}) × Device) [
              | ok v ↦ set_entry_value a e v d
              | err x ↦ (err x, d)
            ]).1
    go (ok v) = set_entry_value-StaysSound a e v d found h
    go (err x) = (h, (refl, refl))

pdo_received_callback-StaysSound :
    (m : ReceivePdoMapping) (bytes : List ℕ) (d : Device)
    → Fits d.dictionary d.name_to_address m
    → IsSound d
    → StaysSound d (pdo_received_callback m bytes d).1
pdo_received_callback-StaysSound m bytes d (a, e, named, found, _) h =
    rw (pdo_received_callback_found m a e bytes d (named, found))
      (update_from_pdo-StaysSound a e m.offset bytes d found h)

-- A mapping that is found is one of the list.
find_binding-All :
    (P : ReceivePdoMapping → Type 0) (c : ℕ) (m : ReceivePdoMapping)
    (bindings : List (ℕ × ReceivePdoMapping))
    → find_binding c bindings ≡ some m
    → All (λ (b : ℕ × ReceivePdoMapping). P b.1) bindings
    → P m
unfolding find_binding
find_binding-All P c m [] h p = absurd cc
find_binding-All P c m ((k, x) ∷ bindings) h (p, ps) = elim (Bool-cases (k == c)) [
  | inl hit ↦
      let same : x ≡ m = some_injective (sym (rw (hit, find_binding) refl) ∙ h) in rw (sym same) p
  | inr miss ↦ find_binding-All P c m bindings (sym (rw (miss, find_binding) refl) ∙ h) ps
]

module _ (due : List (ℕ × List ℕ))
    (rest : (d : Device) → IsSound d → StaysSound d (deliver due d).1) where
  StaysSound-continue_with :
      (r : Result (Unit {0})) (d d1 : Device)
      → StaysSound d d1
      → StaysSound d (continue_with r (λ _. deliver due) d1).1
  StaysSound-continue_with (ok _) d d1 (sound, only) =
      let (sound', only') = rest d1 sound in
      (sound', OnlyValues-trans d d1 (deliver due d1).1 only only')
  StaysSound-continue_with (err x) d d1 h = h

deliver-StaysSound :
    (due : List (ℕ × List ℕ)) (d : Device) → IsSound d → StaysSound d (deliver due d).1
unfolding deliver
deliver-StaysSound [] d h = (h, (refl, refl))
deliver-StaysSound ((c, bytes) ∷ due) d h = elim (Option-cases (find_binding c d.bindings)) [
  | inl other ↦ rw (other, deliver) (deliver-StaysSound due d h)
  | inr (m, bound) ↦
      let fits = find_binding-All (Fits d.dictionary d.name_to_address) c m d.bindings bound h.2 in
      let first = pdo_received_callback-StaysSound m bytes d fits h in
      rw (bound, deliver)
        (StaysSound-continue_with due (deliver-StaysSound due) (pdo_received_callback m bytes d).0 d
          (pdo_received_callback m bytes d).1 first)
]

-- A received PDO keeps a sound device sound, and it changes no entry's address, name or type, adds no
-- entry and no name, and touches nothing but the values of entries and the PDO component.
pub receive_pdo-StaysSound :
    (m : Message) (d : Device) → IsSound d → StaysSound d (receive_pdo m d).1
unfolding receive_pdo
receive_pdo-StaysSound m d h =
    let p = process_incoming_message m d.pdo in
    let d1 = record d { pdo = p } in
    let due = drop (length d.pdo.calls) p.calls in
    let (sound, only) = deliver-StaysSound due d1 h in
    (sound, OnlyValues-trans d d1 (deliver due d1).1 (refl, refl) only)
