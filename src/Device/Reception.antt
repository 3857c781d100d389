-- ===== src/Device/Reception.antt =====
-- PDOs that reach the entries of a device.
use kacanopen.Prelude.{ℕ, ◌≡◌, refl, ap, ◌∙◌, List, some}
use kacanopen.Message.{Message}
use kacanopen.Value.{Value}
use kacanopen.Entry.{Entry}
use kacanopen.Dictionary.{Address, find_name, find_entry, escape}
use kacanopen.Pdo.{Pdo}
use kacanopen.Device.{Device, ReceivePdoMapping}
use kacanopen.Device.Mappings.{
  update_from_pdo, at_or_insert, address_or_insert, pdo_received_callback,
}

-- The mapping's entry and its address
abbrev pub Maps : Device → ReceivePdoMapping → Address → Entry → Type 0
Maps d m a e =
    (find_name (escape m.entry_name) d.name_to_address ≡ some a)
    × (find_entry a d.dictionary ≡ some e)

pub pdo_received_callback_found :
    (m : ReceivePdoMapping) (a : Address) (e : Entry) (bytes : List ℕ) (d : Device)
    → Maps d m a e
    → pdo_received_callback m bytes d ≡ update_from_pdo a e m.offset bytes d
unfolding pdo_received_callback address_or_insert at_or_insert
pdo_received_callback_found m a e bytes d (named, found) =
    let there : address_or_insert (escape m.entry_name) d ≡ (a, d) =
      rw (named, address_or_insert) refl in
    let held : at_or_insert a d ≡ (e, d) = rw (found, at_or_insert) refl in
    ap
      (λ (p : Address × Device).
        let (e', d') = at_or_insert p.0 p.1 in update_from_pdo p.0 e' m.offset bytes d')
      there
    ∙ ap (λ (p : Entry × Device). update_from_pdo a p.0 m.offset bytes p.1) held
