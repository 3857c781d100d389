-- ===== src/Device/Writes.antt =====
-- What reads and writes leave behind, whatever becomes of the callbacks and of the SDO.
use kacanopen.Prelude.{
  Bool-cases, Option-cases, if_both, ℕ, ◌+◌, ◌≡◌, ◌≢◌, refl, ap, ◌∙◌, List, [], some, if◌then◌else◌,
  Bool, true, false, ◌⊎◌, inl, inr, set, Bool-cases, if_both,
}
use kacanopen.Error.{Result, ok, err, dictionary_error, DictionaryErrorType}
use kacanopen.Exec.{Exec, pure, continue_with, ◌>>◌}
use kacanopen.Value.{Value, type_of}
use kacanopen.Entry.{Entry, same_type, ReadAccessMethod, WriteAccessMethod}
use kacanopen.Exec.Laws.{then_ok}
use kacanopen.Device.Served.{due_none}
use kacanopen.Entry.{get_value}
use kacanopen.Entry.Changes.{same_type_lem, is_comparable}
use kacanopen.Dictionary.{Address, find_entry}
use kacanopen.Device.{Device, entry_at}
use kacanopen.Device.Entries.{IsConsistent}
use kacanopen.Device.Cached.{stored, set_entry_value-due, cached_value-stored}
use kacanopen.Device.Repeats.{Outcome, set_entry_via_sdo_lem}
use kacanopen.Device.Access.{
  call_back, set_entry_value, cached_value, get_entry_at, set_entry_at, reads_via_sdo,
  writes_via_sdo, set_entry_via_sdo, get_entry_via_sdo, download_value,
}
use kacanopen.Device.Callbacks.{set_entry_value-IsConsistent}

-- The statement after `entry.set_value(value)`
abbrev pub send_written : WriteAccessMethod → Entry → Value → Exec Device (Unit {0})
send_written access e v =
    if writes_via_sdo access e
    then set_entry_via_sdo (record { index = e.index; subindex = e.subindex }) v
    else pure tt

-- The two endings of `set_entry_at`
pub set_entry_at_cases :
    (a : Address) (e : Entry) (v : Value) (access : WriteAccessMethod) (d : Device)
    → find_entry a d.dictionary ≡ some e
    → let at : Address = record { index = e.index; subindex = e.subindex } in
      (set_entry_at a v access d ≡ (err (dictionary_error DictionaryErrorType.wrong_type), d))
      ⊎ ((same_type (type_of v) e.type ≡ true)
          × (set_entry_at a v access d
              ≡ (set_entry_value a e v
                    >> (if writes_via_sdo access e then set_entry_via_sdo at v else pure tt))
                  d))
unfolding set_entry_at entry_at
set_entry_at_cases a e v access d found = elim (Bool-cases (same_type (type_of v) e.type)) [
  | inl typed ↦ inr (typed, rw (found, typed, set_entry_at, entry_at) refl)
  | inr other ↦ inl (rw (found, other, set_entry_at, entry_at) refl)
]

-- The tables stay consistent after a call that may be followed by one that keeps them.
IsConsistent-then :
    {A B : Type 0} (r : Result A) (k : A → Exec Device B) (d : Device)
    → IsConsistent d.dictionary d.name_to_address
    → ((a : A) → let d' = (k a d).1 in IsConsistent d'.dictionary d'.name_to_address)
    → let d' = (continue_with r k d).1 in IsConsistent d'.dictionary d'.name_to_address
IsConsistent-then (ok a) k d h keep = keep a
IsConsistent-then (err x) k d h keep = h

-- Writing an entry keeps the tables consistent, however the write ends.
pub set_entry_at-IsConsistent :
    (a : Address) (v : Value) (access : WriteAccessMethod) (d : Device)
    → IsConsistent d.dictionary d.name_to_address
    → let d' = (set_entry_at a v access d).1 in IsConsistent d'.dictionary d'.name_to_address
unfolding set_entry_at entry_at set_entry_via_sdo
set_entry_at-IsConsistent a v access d h = elim (Option-cases (find_entry a d.dictionary)) [
  | inl missing ↦ rw (missing, set_entry_at, entry_at) h
  | inr (e, found) ↦ elim (set_entry_at_cases a e v access d found) [
    | inl wrong ↦ rw wrong h
    | inr (_, run) ↦
        let h' = set_entry_value-IsConsistent a e v d found h in
        rw run (
          IsConsistent-then (set_entry_value a e v d).0 (λ _. send_written access e v)
            (set_entry_value a e v d).1 h'
            (λ _.
              if_both
                (λ (call : Exec Device (Unit {0})).
                  let d' = (call (set_entry_value a e v d).1).1 in
                  IsConsistent d'.dictionary d'.name_to_address)
                (writes_via_sdo access e)
                (set_entry_via_sdo (record { index = e.index; subindex = e.subindex }) v) (pure tt)
                h' h'))
  ]
]

pub cached_value_same : (a : Address) (d : Device) → (cached_value a d).1 ≡ d
unfolding cached_value
cached_value_same a d = same (entry_at a d)
  where
    same :
        (r : Result Entry)
        → (elim r as (λ x. Result Value × Device) [
          | ok e ↦ (get_value e, d)
          | err x ↦ (err x, d)
        ]).1
          ≡ d
    same (ok e) = refl
    same (err x) = refl

-- Reading an entry keeps the tables consistent, however the read ends.
pub get_entry_at-IsConsistent :
    (a : Address) (access : ReadAccessMethod) (d : Device)
    → IsConsistent d.dictionary d.name_to_address
    → let d' = (get_entry_at a access d).1 in IsConsistent d'.dictionary d'.name_to_address
unfolding get_entry_at get_entry_via_sdo entry_at
get_entry_at-IsConsistent a access d h = elim (Option-cases (find_entry a d.dictionary)) [
  | inl missing ↦ rw (missing, get_entry_at, entry_at) h
  | inr (e, found) ↦ elim (Bool-cases (reads_via_sdo access e)) [
    | inr cached ↦ rw (found, cached, get_entry_at, entry_at) (rw (cached_value_same a d) h)
    | inl asked ↦
        let at : Address = record { index = e.index; subindex = e.subindex } in
        let d1 = (get_entry_via_sdo at e.type d).1 in
        rw (found, asked, get_entry_at, entry_at)
          (IsConsistent-then (get_entry_via_sdo at e.type d).0
            (λ v. set_entry_value a e v >> cached_value a) d1 h
            (λ v.
              let h' = set_entry_value-IsConsistent a e v d1 found h in
              IsConsistent-then (set_entry_value a e v d1).0 (λ _. cached_value a)
                (set_entry_value a e v d1).1 h'
                (λ _. rw (cached_value_same a (set_entry_value a e v d1).1) h')))
  ]
]

pub set_entry_value_quiet :
    (a : Address) (e : Entry) (v : Value) (d : Device)
    → type_of v ≡ e.type
    → is_comparable e.type ≡ true
    → e.value_changed_callbacks ≡ []
    → (changed : Bool) × (set_entry_value a e v d ≡ (ok tt, stored a e v changed d))
      × (((changed ≡ false) × (e.m_value ≡ v)) ⊎ ((changed ≡ true) × (e.m_value ≢ v)))
unfolding call_back
set_entry_value_quiet a e v d typed comparable quiet =
    let (changed, set, verdict) = set_entry_value-due a e v d typed comparable in
    (
      changed,
      set
          ∙ ap (λ (cs : List (ℕ × Value)). call_back cs (stored a e v changed d))
              (due_none e v changed quiet),
      verdict,
    )

pub set_entry_at_typed :
    (a : Address) (e : Entry) (v : Value) (access : WriteAccessMethod) (d : Device)
    → find_entry a d.dictionary ≡ some e
    → type_of v ≡ e.type
    → set_entry_at a v access d ≡ (set_entry_value a e v >> send_written access e v) d
unfolding set_entry_at entry_at
set_entry_at_typed a e v access d found typed =
    rw (found, same_type_lem (type_of v) e.type typed, set_entry_at, entry_at) refl

-- A value of the entry's type that is written is in the cache afterwards, whether the node takes it
-- or not: the access method decides only whether it is sent, and then it is tried as often as every
-- write over SDO. The entry's type is one that `==` can compare (neither boolean nor float), and it
-- has no callbacks.
pub set_entry_at_lem :
    (a : Address) (e : Entry) (v : Value) (access : WriteAccessMethod) (d : Device)
    → find_entry a d.dictionary ≡ some e
    → type_of v ≡ e.type
    → is_comparable e.type ≡ true
    → e.value_changed_callbacks ≡ []
    → let (r, d') = set_entry_at a v access d in
      let at : Address = record { index = e.index; subindex = e.subindex } in
      (cached_value a d' ≡ (ok v, d'))
      × (((writes_via_sdo access e ≡ false) × (r ≡ ok tt) × (d'.bus ≡ d.bus))
          ⊎ ((writes_via_sdo access e ≡ true)
              × Outcome
                  (download_value d.node_id at v)
                  (d.repeats_on_sdo_timeout + 1)
                  d.bus
                  r
                  d'.bus))
set_entry_at_lem a e v access d found typed comparable quiet =
    let (changed, d2_is, _) = set_entry_value_quiet a e v d typed comparable quiet in
    let d2 = stored a e v changed d in
    let run : set_entry_at a v access d ≡ send_written access e v d2 =
      set_entry_at_typed a e v access d found typed
      ∙ then_ok (set_entry_value a e v) d d2 (send_written access e v) tt d2_is in
    elim (Bool-cases (writes_via_sdo access e)) [
      | inr local ↦
          let end : set_entry_at a v access d ≡ (ok tt, d2) = run ∙ rw local refl in
          rw end (cached_value-stored a e v changed d found, inl (local, refl, refl))
      | inl remote ↦
          let at : Address = record { index = e.index; subindex = e.subindex } in
          let end : set_entry_at a v access d ≡ set_entry_via_sdo at v d2 = run ∙ rw remote refl in
          let (tried, kept) = set_entry_via_sdo_lem at v d2 in
          let b = (set_entry_via_sdo at v d2).1.bus in
          rw end (
            rw kept (cached_value-stored a e v changed (record d { bus = b }) found),
            inr (remote, tried),
          )
    ]
