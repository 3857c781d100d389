-- ===== src/Device/Callbacks.antt =====
-- The callbacks of an entry, and the tables when a value is stored.
use kacanopen.Prelude.{ℕ, ◌≡◌, refl, ap, ◌∙◌, List, [], ◌∷◌, Option, none, some, length, drop}
use kacanopen.Error.{Result, ok, err}
use kacanopen.Exec.{continue_with, ◌>>◌}
use kacanopen.Value.{Value}
use kacanopen.Entry.{Entry, set_value}
use kacanopen.Entry.Changes.{set_value_fixed}
use kacanopen.Dictionary.{Address, find_entry}
use kacanopen.Transmit.{TransmitPdoMapping}
use kacanopen.Device.{Device, put_entry}
use kacanopen.Device.Tables.{IsConsistent-put_entry}
use kacanopen.Device.Entries.{IsConsistent}
use kacanopen.Device.Access.{call_back, find_transmit, send_transmit, set_entry_value}

-- The callbacks change nothing but the PDO component.
abbrev pub OnlyPdo : Device → Device → Type 0
OnlyPdo d d' = d' ≡ record d { pdo = d'.pdo }

module _ (cs : List (ℕ × Value)) (rest : (d : Device) → OnlyPdo d (call_back cs d).1) where
  pub OnlyPdo-continue_with :
      (r : Result (Unit {0})) (d d1 : Device)
      → OnlyPdo d d1
      → OnlyPdo d (continue_with r (λ _. call_back cs) d1).1
  OnlyPdo-continue_with (ok _) d d1 h =
      rest d1 ∙ ap (λ (x : Device). record x { pdo = (call_back cs d1).1.pdo }) h
  OnlyPdo-continue_with (err x) d d1 h = h

  pub OnlyPdo-found :
      (o : Option TransmitPdoMapping) (d : Device)
      → OnlyPdo d
          (elim o as (λ x. Result (Unit {0}) × Device) [
            | none ↦ call_back cs d
            | some t ↦ (send_transmit t >> call_back cs) d
          ]).1
  unfolding send_transmit
  OnlyPdo-found none d = rest d
  OnlyPdo-found (some t) d =
      OnlyPdo-continue_with (send_transmit t d).0 d (send_transmit t d).1 refl

pub call_back-OnlyPdo : (cs : List (ℕ × Value)) (d : Device) → OnlyPdo d (call_back cs d).1
unfolding call_back
call_back-OnlyPdo [] d = refl
call_back-OnlyPdo ((c, v) ∷ cs) d =
    OnlyPdo-found cs (call_back-OnlyPdo cs) (find_transmit c d.transmit_pdo_mappings) d

-- Storing a value in the entry that stands at the address keeps the tables consistent.
pub set_entry_value-IsConsistent :
    (a : Address) (e : Entry) (v : Value) (d : Device)
    → find_entry a d.dictionary ≡ some e
    → IsConsistent d.dictionary d.name_to_address
    → let d' = (set_entry_value a e v d).1 in IsConsistent d'.dictionary d'.name_to_address
unfolding set_entry_value
set_entry_value-IsConsistent a e v d found consistent =
    go (set_value v e).0 (set_value v e).1 (set_value_fixed e v)
  where
    go :
        (r : Result (Unit {0})) (e' : Entry)
        → (e'.index ≡ e.index)
          × (e'.subindex ≡ e.subindex)
          × (e'.name ≡ e.name)
          × (e'.type ≡ e.type)
        → let d' =
            (elim r as (λ x. Result (Unit {0}) × Device) [
              | ok _ ↦
                  call_back
                    (drop (length e.calls) e'.calls)
                    (record d { dictionary = put_entry a e' d.dictionary })
              | err x ↦ (err x, d)
            ]).1 in
          IsConsistent d'.dictionary d'.name_to_address
    go (err x) e' h = consistent
    go (ok _) e' (i, s, n, _) =
        rw
          (call_back-OnlyPdo (drop (length e.calls) e'.calls)
            (record d { dictionary = put_entry a e' d.dictionary }))
          (IsConsistent-put_entry a e e' d.dictionary d.name_to_address found i s n consistent)
