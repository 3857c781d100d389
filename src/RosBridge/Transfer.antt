-- ===== src/RosBridge/Transfer.antt =====
-- A value that one device publishes and another receives.
use kacanopen.Prelude.{ℕ, ◌≡◌, refl, ap, sym, ◌∙◌, List, [], some, Bool, true, false}
use kacanopen.Error.{Result, ok, err, Error}
use kacanopen.Value.{Value, ValueType, type_of}
use kacanopen.Entry.{Entry, WriteAccessMethod}
use kacanopen.Entry.Changes.{same_type_lem, is_comparable}
use kacanopen.Dictionary.{Address, find_entry}
use kacanopen.Device.{Device, resolve}
use kacanopen.Device.Access.{get_entry, set_entry, set_entry_at, cached_value, is_sdo_error}
use kacanopen.Device.Writes.{set_entry_at_lem}
use kacanopen.RosBridge.{
  RosMessage, EntryPublisher, EntrySubscriber, field_type, message_of_value, publish,
  receive_message,
}

-- What `receive_message` does with an error leaves the device as it is.
receive_message-device :
    (s : EntrySubscriber) (m : RosMessage) (d : Device)
    → (receive_message s m d).1 ≡ (set_entry s.entry_name m.payload s.access_method d).1
unfolding receive_message
receive_message-device s m d =
    let out = set_entry s.entry_name m.payload s.access_method d in go out.0 out.1
  where
    caught :
        (b : Bool) (x : Error) (d' : Device)
        → (elim b as (λ y. Result (Unit {0}) × Device) [
          | true ↦ (ok tt, d')
          | false ↦ (err x, d')
        ]).1
          ≡ d'
    caught true x d' = refl
    caught false x d' = refl

    go :
        (r : Result (Unit {0})) (d' : Device)
        → (elim r as (λ y. Result (Unit {0}) × Device) [
          | ok _ ↦ (ok tt, d')
          | err x ↦ elim (is_sdo_error x) as (λ y. Result (Unit {0}) × Device) [
            | true ↦ (ok tt, d')
            | false ↦ (err x, d')
          ]
        ]).1
          ≡ d'
    go (ok _) d' = refl
    go (err x) d' = caught (is_sdo_error x) x d'

set_entry_resolved :
    (name : List ℕ) (a : Address) (v : Value) (access : WriteAccessMethod) (d : Device)
    → resolve name d ≡ ok a
    → set_entry name v access d ≡ set_entry_at a v access d
unfolding set_entry
set_entry_resolved name a v access d leads = rw (leads, set_entry) refl

publish_value :
    (bool_field : ValueType) (p : EntryPublisher) (v : Value) (d d' : Device)
    → field_type bool_field p.type ≡ some p.type
    → type_of v ≡ p.type
    → get_entry p.entry_name p.access_method d ≡ (ok v, d')
    → publish bool_field p d ≡ (ok (some (record { kind = p.type; payload = v })), d')
unfolding publish message_of_value
publish_value bool_field p v d d' sendable typed run =
    let answer : (get_entry p.entry_name p.access_method d).0 ≡ ok v = ap (λ q. q.0) run in
    let kept : (get_entry p.entry_name p.access_method d).1 ≡ d' = ap (λ q. q.1) run in
    rw (answer, kept, publish, message_of_value, sendable, same_type_lem (type_of v) p.type typed)
      refl

-- A value of the publisher's type that one device reads is published, and a subscriber that gets the
-- message has that value in the cache of its entry afterwards, whether its node takes it or not. The
-- type has a message whose field has that type, and is one that `==` compares; the subscriber's entry
-- has that type and no callbacks.
pub receive_message-publish :
    (bool_field : ValueType) (p : EntryPublisher) (s : EntrySubscriber) (v : Value)
    (sender sender' receiver : Device) (a : Address) (e : Entry)
    → field_type bool_field p.type ≡ some p.type
    → type_of v ≡ p.type
    → get_entry p.entry_name p.access_method sender ≡ (ok v, sender')
    → resolve s.entry_name receiver ≡ ok a
    → find_entry a receiver.dictionary ≡ some e
    → e.type ≡ p.type
    → is_comparable e.type ≡ true
    → e.value_changed_callbacks ≡ []
    → (m : RosMessage) × (publish bool_field p sender ≡ (ok (some m), sender'))
      × (let d = (receive_message s m receiver).1 in cached_value a d ≡ (ok v, d))
receive_message-publish bool_field p s v sender sender' receiver a e sendable typed run leads found
      same comparable quiet =
    let held =
      (set_entry_at_lem a e v s.access_method receiver found (typed ∙ sym same) comparable
        quiet).0 in
    let m : RosMessage = record { kind = p.type; payload = v } in
    let after : (receive_message s m receiver).1 ≡ (set_entry_at a v s.access_method receiver).1 =
      receive_message-device s m receiver
      ∙ ap (λ q. q.1) (set_entry_resolved s.entry_name a v s.access_method receiver leads) in
    (m, publish_value bool_field p v sender sender' sendable typed run, rw after held)
