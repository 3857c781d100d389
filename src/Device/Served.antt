-- ===== src/Device/Served.antt =====
-- Reading an entry from a node that serves it.
use kacanopen.Prelude.{
  ℕ, suc, ◌+◌, ◌<◌, ◌≡◌, refl, ap, sym, ◌∙◌, List, [], arith, some, length, Bool, true, false, set,
}
use kacanopen.Error.{Result, ok}
use kacanopen.Exec.{Exec, ◌>>◌}
use kacanopen.Exec.Laws.{bind_ok, then_ok, with_result}
use kacanopen.Value.{Value, type_of, get_bytes, of_bytes}
use kacanopen.Value.Bytes.{IsStored, of_bytes-get_bytes}
use kacanopen.Entry.{Entry, store, ReadAccessMethod}
use kacanopen.Entry.Changes.{is_comparable}
use kacanopen.Dictionary.{Address, find_entry}
use kacanopen.Sdo.{Bus, unassigned, upload}
use kacanopen.Sdo.Server.{Serves, upload_responses}
use kacanopen.Sdo.Upload.{upload_round_trip}
use kacanopen.Device.{Device, entry_at}
use kacanopen.Device.Entries.{find_entry-put_entry, address_equal_refl}
use kacanopen.Device.Cached.{stored, due, set_entry_value-due, cached_value-stored}
use kacanopen.Device.Repeats.{round}
use kacanopen.Device.Access.{
  call_back, set_entry_value, cached_value, get_entry_at, reads_via_sdo, repeat_attempt,
  upload_value, get_entry_via_sdo,
}

pub due_none :
    (e : Entry) (v : Value) (changed : Bool) → e.value_changed_callbacks ≡ [] → due e v changed ≡ []
due_none e v true h = rw h refl
due_none e v false h = refl

-- The first attempt succeeds.
repeat_attempt_first :
    {A : Type 0} (attempt : Exec Bus A) (repeats : ℕ) (b b' : Bus) (a : A)
    → attempt b ≡ (ok a, b')
    → repeat_attempt attempt (repeats + 1) b ≡ (ok a, b')
repeat_attempt_first attempt repeats b b' a h =
    ap (λ (n : ℕ). repeat_attempt attempt n b) {x = repeats + 1} {y = suc repeats} (omega arith)
    ∙ round attempt repeats b (ok a, b') h

upload_value_served :
    (n : ℕ) (a : Address) (v : Value) (bs : List ℕ) (b : Bus)
    → ((k : ℕ) → b.receivers k ≡ unassigned)
    → IsStored v
    → get_bytes v ≡ ok bs
    → length bs < 65536
    → Serves n (upload_responses n a.index a.subindex bs) b.windows
    → upload_value n a (type_of v) b ≡ (ok v, (upload n a.index a.subindex b).1)
unfolding upload_value
upload_value_served n a v bs b idle fits bytes small served =
    let (bs', bytes', read, _) = of_bytes-get_bytes v fits in
    let same : bs' ≡ bs = ok_injective (sym bytes' ∙ bytes) in
    let run =
      upload_round_trip n a.index a.subindex bs b.sent b.windows b.receivers idle small served in
    bind_ok (upload n a.index a.subindex) b (upload n a.index a.subindex b).1
      (λ bytes b. (of_bytes (type_of v) bytes, b)) bs
      (with_result (upload n a.index a.subindex b) (ok bs) run)
    ∙ ap (λ (r : Result Value). (r, (upload n a.index a.subindex b).1))
        (ap (of_bytes (type_of v)) (sym same) ∙ read)
  where
    ok_injective : {x y : List ℕ} → ok x ≡ ok y → x ≡ y
    ok_injective p = cc

get_entry_at_run :
    (a : Address) (e : Entry) (v : Value) (bs : List ℕ) (d : Device)
    → find_entry a d.dictionary ≡ some e
    → e.type ≡ type_of v
    → is_comparable e.type ≡ true
    → e.value_changed_callbacks ≡ []
    → ((k : ℕ) → d.bus.receivers k ≡ unassigned)
    → IsStored v
    → get_bytes v ≡ ok bs
    → length bs < 65536
    → Serves d.node_id (upload_responses d.node_id e.index e.subindex bs) d.bus.windows
    → (changed : Bool) × (d1 : Device) × (find_entry a d1.dictionary ≡ some e)
      × (get_entry_at a ReadAccessMethod.sdo d ≡ (ok v, stored a e v changed d1))
unfolding get_entry_at entry_at reads_via_sdo get_entry_via_sdo call_back
get_entry_at_run a e v bs d found typed comparable quiet idle fits bytes small served =
    let at : Address = record { index = e.index; subindex = e.subindex } in
    let b' = (upload d.node_id e.index e.subindex d.bus).1 in
    let d1 : Device = record d { bus = b' } in
    let up : upload_value d.node_id at e.type d.bus ≡ (ok v, b') =
      rw typed (upload_value_served d.node_id at v bs d.bus idle fits bytes small served) in
    let asked : get_entry_via_sdo at e.type d ≡ (ok v, d1) =
      ap (λ (p : Result Value × Bus). (p.0, record d { bus = p.1 }))
        (repeat_attempt_first (upload_value d.node_id at e.type) d.repeats_on_sdo_timeout d.bus b' v
          up) in
    let (changed, set, _) = set_entry_value-due a e v d1 (sym typed) comparable in
    let d2 = stored a e v changed d1 in
    let kept : set_entry_value a e v d1 ≡ (ok tt, d2) =
      set ∙ ap (λ (cs : List (ℕ × Value)). call_back cs d2) (due_none e v changed quiet) in
    let run : get_entry_at a ReadAccessMethod.sdo d ≡ (ok v, d2) =
      rw (found, get_entry_at, entry_at)
        (bind_ok (get_entry_via_sdo at e.type) d d1 (λ w. set_entry_value a e w >> cached_value a) v
            asked
          ∙ then_ok (set_entry_value a e v) d1 d2 (cached_value a) tt kept
          ∙ cached_value-stored a e v changed d1 found) in
    (changed, d1, found, run)

get_entry_at_cached :
    (a : Address) (e : Entry) (d : Device)
    → find_entry a d.dictionary ≡ some e
    → get_entry_at a ReadAccessMethod.cache d ≡ cached_value a d
unfolding get_entry_at entry_at reads_via_sdo
get_entry_at_cached a e d found = rw (found, get_entry_at, entry_at) refl

pub find_entry-stored :
    (a : Address) (e : Entry) (v : Value) (changed : Bool) (d : Device)
    → find_entry a d.dictionary ≡ some e
    → find_entry a (stored a e v changed d).dictionary ≡ some (store v changed e)
find_entry-stored a e v changed d found =
    find_entry-put_entry a a e (store v changed e) d.dictionary found
    ∙ rw (address_equal_refl a) refl

-- A node that serves the bytes of a value, fewer than 65536, in a segmented upload answers a read over
-- SDO of an idle client: the read returns the value, and it can be read from the cache afterwards.
-- The value fits its type. The entry has the value's type, which `==` can compare (neither boolean
-- nor float), and no callbacks.
pub get_entry_at_served :
    (a : Address) (e : Entry) (v : Value) (bs : List ℕ) (d : Device)
    → find_entry a d.dictionary ≡ some e
    → e.type ≡ type_of v
    → is_comparable e.type ≡ true
    → e.value_changed_callbacks ≡ []
    → ((k : ℕ) → d.bus.receivers k ≡ unassigned)
    → IsStored v
    → get_bytes v ≡ ok bs
    → length bs < 65536
    → Serves d.node_id (upload_responses d.node_id e.index e.subindex bs) d.bus.windows
    → let (r, d') = get_entry_at a ReadAccessMethod.sdo d in
      (r ≡ ok v) × (get_entry_at a ReadAccessMethod.cache d' ≡ (ok v, d'))
get_entry_at_served a e v bs d found typed comparable quiet idle fits bytes small served =
    let (changed, d1, found1, run) =
      get_entry_at_run a e v bs d found typed comparable quiet idle fits bytes small served in
    rw run (
      refl,
      get_entry_at_cached a (store v changed e) (stored a e v changed d1)
            (find_entry-stored a e v changed d1 found1)
          ∙ cached_value-stored a e v changed d1 found1,
    )
