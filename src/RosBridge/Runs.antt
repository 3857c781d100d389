-- ===== src/RosBridge/Runs.antt =====
-- The bridge at concrete inputs.
use kacanopen.Prelude.{◌≡◌, refl, some, true}
use kacanopen.Prelude.{codes}
use kacanopen.Error.{ok, err, canopen_error}
use kacanopen.Value.{of_uint16, of_boolean, uint16, uint8, boolean, type_of}
use kacanopen.Value.Equality.{bytes_equal}
use kacanopen.Entry.{ReadAccessMethod, WriteAccessMethod, get_value, same_type, type_number}
use kacanopen.Entry.Changes.{is_comparable}
use kacanopen.Dictionary.{find_name, find_entry, escape, address_equal}
use kacanopen.Device.{entry_at, resolve}
use kacanopen.Device.Tables.{resolve_found}
use kacanopen.Device.Access.{get_entry, get_entry_at, cached_value, reads_via_sdo}
use kacanopen.Device.Runs.{motor, control, control_entry}
use kacanopen.RosBridge.{
  RosMessage, EntryPublisher, EntrySubscriber, field_type, message_of_value, publish,
  receive_message,
}
use kacanopen.RosBridge.Transfer.{receive_message-publish}

abbrev teller : EntryPublisher
teller = record {
  device_prefix = codes "device5/";
  name = codes "controlword";
  entry_name = codes "Controlword";
  access_method = ReadAccessMethod.cache;
  type = uint16;
}

abbrev listener : EntrySubscriber
listener = record {
  device_prefix = codes "device5/";
  name = codes "controlword";
  entry_name = codes "Controlword";
  access_method = WriteAccessMethod.cache;
  type = uint16;
}

leads : resolve (codes "Controlword") motor ≡ ok control
unfolding find_name find_entry bytes_equal address_equal escape
leads = (resolve_found (codes "Controlword") control control_entry motor refl refl).1

reads : get_entry (codes "Controlword") ReadAccessMethod.cache motor ≡ (ok (of_uint16 6), motor)
unfolding get_entry get_entry_at cached_value entry_at find_entry address_equal get_value
    reads_via_sdo
reads = rw (leads, get_entry) refl

receive_message-publish_example :
    (m : RosMessage) × (publish boolean teller motor ≡ (ok (some m), motor))
    × (let d = (receive_message listener m motor).1 in
        cached_value control d ≡ (ok (of_uint16 6), d))
unfolding find_entry address_equal is_comparable type_of field_type
receive_message-publish_example =
    receive_message-publish boolean teller listener (of_uint16 6) motor motor motor control
      control_entry refl refl reads leads refl refl refl refl

-- Where `data` of std_msgs::Bool is a byte, no boolean can be published: the cast throws.
boolean_refused : message_of_value uint8 boolean (of_boolean true) ≡ err canopen_error
unfolding message_of_value field_type same_type type_number type_of
boolean_refused = refl
