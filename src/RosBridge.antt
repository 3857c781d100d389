-- ===== src/RosBridge.antt =====
-- The bridge between the entries of a device and ROS topics (src/ros_bridge/entry_publisher.cpp and
-- entry_subscriber.cpp; Joints has joint_state_publisher.cpp and joint_state_subscriber.cpp). ROS is
-- not part of the program: a message is the kind of std_msgs that it has and its field `data`, and
-- the C++ type of that field of std_msgs::Bool is a parameter.
pub mod Transfer
pub mod Joints
mod Runs
use kacanopen.Prelude.{
  ◌==◌, ℕ, zero, suc, ◌+◌, ◌-◌, ◌*◌, ◌/◌, ◌%◌, ◌^◌, ◌≤◌, ◌<◌, ◌≡◌, ◌≢◌, refl, ap, sym, ◌∙◌, List,
  [], ◌∷◌, ◌++◌, map, arith, Option, none, some, length, bit_and, ltb, leb, not, if◌then◌else◌,
  Bool, true, false, ◌||◌, ◌&&◌, ◌⊎◌, inl, inr, get_or, set, take, drop, replicate, All, ◌↔◌,
  Bool-cases, if_apply, if_both,
}
use kacanopen.Prelude.{codes}
use kacanopen.Error.{Result, ok, err, Error, canopen_error}
use kacanopen.Exec.{Exec}
use kacanopen.Value.{
  Value, ValueType, type_of, uint8, uint16, uint32, int8, int16, int32, string, boolean,
}
use kacanopen.Entry.{same_type, ReadAccessMethod, WriteAccessMethod}
use kacanopen.Dictionary.{escape}
use kacanopen.Utils.{show_digits}
use kacanopen.Device.{Device, get_entry_type}
use kacanopen.Device.Access.{get_entry, set_entry, is_sdo_error}

-- A message of std_msgs: `kind` is the type of entry for which the bridge uses it.
pub record RosMessage : Type 0 where
  pub kind : ValueType
  pub payload : Value

pub record EntryPublisher : Type 0 where
  pub device_prefix : List ℕ
  pub name : List ℕ
  pub entry_name : List ℕ
  pub access_method : ReadAccessMethod
  pub type : ValueType

pub record EntrySubscriber : Type 0 where
  pub device_prefix : List ℕ
  pub name : List ℕ
  pub entry_name : List ℕ
  pub access_method : WriteAccessMethod
  pub type : ValueType

-- `"device" + std::to_string(node_id) + "/"`
abbrev prefix_of : Device → List ℕ
prefix_of d = codes "device" ++ show_digits 3 d.node_id ++ codes "/"

-- The constructors
pub new_publisher : List ℕ → ReadAccessMethod → Device → Result EntryPublisher
new_publisher entry_name access_method d = elim (get_entry_type entry_name d) [
  | err x ↦ err x
  | ok t ↦ ok (record {
    device_prefix = prefix_of d;
    name = escape entry_name;
    entry_name = entry_name;
    access_method = access_method;
    type = t;
  })
]

pub new_subscriber : List ℕ → WriteAccessMethod → Device → Result EntrySubscriber
new_subscriber entry_name access_method d = elim (get_entry_type entry_name d) [
  | err x ↦ err x
  | ok t ↦ ok (record {
    device_prefix = prefix_of d;
    name = escape entry_name;
    entry_name = entry_name;
    access_method = access_method;
    type = t;
  })
]

module _ (bool_field : ValueType) where
  -- The switches: the C++ type of `data`, for a type of entry that has a message
  unfoldable pub field_type : ValueType → Option ValueType
  field_type uint8 = some uint8
  field_type uint16 = some uint16
  field_type uint32 = some uint32
  field_type int8 = some int8
  field_type int16 = some int16
  field_type int32 = some int32
  field_type boolean = some bool_field
  field_type string = some string
  field_type _ = none

  -- `EntryPublisher::advertise`: the topic and the kind of its messages
  pub advertise_publisher : EntryPublisher → Option (List ℕ × ValueType)
  advertise_publisher p = elim (field_type p.type) [
    | none ↦ none
    | some t ↦ some (p.device_prefix ++ codes "get_" ++ p.name, p.type)
  ]

  -- `EntrySubscriber::advertise`
  pub advertise_subscriber : EntrySubscriber → Option (List ℕ × ValueType)
  advertise_subscriber s = elim (field_type s.type) [
    | none ↦ none
    | some t ↦ some (s.device_prefix ++ codes "set_" ++ s.name, s.type)
  ]

  -- `msg.data = value`, by the cast operator for the field's type
  unfoldable pub message_of_value : ValueType → Value → Result (Option RosMessage)
  message_of_value t v = elim (field_type t) [
    | none ↦ ok none
    | some f ↦
        if same_type (type_of v) f
        then ok (some (record { kind = t; payload = v }))
        else err canopen_error
  ]

  -- `EntryPublisher::publish`: the message that is published, if one is
  unfoldable pub publish : EntryPublisher → Exec Device (Option RosMessage)
  publish p d =
      let (r, d') = get_entry p.entry_name p.access_method d in
      elim r [
        | ok v ↦ (message_of_value p.type v, d')
        | err x ↦ elim (is_sdo_error x) [ true ↦ (ok none, d') | false ↦ (err x, d') ]
      ]

-- The methods `EntrySubscriber::receive_uint8` and so on, which convert `data` to a `Value`
unfoldable pub receive_message : EntrySubscriber → RosMessage → Exec Device (Unit {0})
receive_message s m d =
    let (r, d') = set_entry s.entry_name m.payload s.access_method d in
    elim r [
      | ok _ ↦ (ok tt, d')
      | err x ↦ elim (is_sdo_error x) [ true ↦ (ok tt, d') | false ↦ (err x, d') ]
    ]
