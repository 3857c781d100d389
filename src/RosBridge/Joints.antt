-- ===== src/RosBridge/Joints.antt =====
-- Joint states of a motor (src/ros_bridge/joint_state_publisher.cpp and joint_state_subscriber.cpp).
-- The arithmetic of `double` and ROS are parameters; a joint state is its name and its positions, and
-- its time stamp is left out.
use kacanopen.Prelude.{
  ◌==◌, ℕ, List, [], ◌∷◌, ◌++◌, Option, none, some, length, not, if◌then◌else◌, Bool, true, false,
}
use kacanopen.Prelude.{codes}
use kacanopen.Error.{Result, ok, err, runtime_error, assertion}
use kacanopen.Exec.{Exec, pure, raise, ◌>>=◌, ◌>>◌}
use kacanopen.Value.{Value, of_int8, of_int32, of_octet_string}
use kacanopen.Value.Integers.{ℤ, pos}
use kacanopen.Value.Casts.{to_int32}
use kacanopen.Value.Equality.{equals, bytes_equal}
use kacanopen.Value.Printing.{print_value}
use kacanopen.Entry.{ReadAccessMethod}
use kacanopen.Utils.{show_digits}
use kacanopen.Device.{Device}
use kacanopen.Device.Access.{get_entry, is_sdo_error}
use kacanopen.Profiles.{get_device_profile_number, execute}

pub record JointPublisher : Type 0 where
  pub position_0_degree : ℤ
  pub position_360_degree : ℤ
  pub position_actual_field : List ℕ
  pub topic_name : List ℕ
  pub initialized : Bool

pub record JointSubscriber : Type 0 where
  pub position_0_degree : ℤ
  pub position_360_degree : ℤ
  pub topic_name : List ℕ
  pub initialized : Bool

module _ (show_real32 show_real64 : ℕ → List ℕ) where
  -- `Value::operator!=`. An octet string is compared by what is printed.
  pub differs : Value → Value → Result Bool
  differs (of_octet_string bs) v =
      let text = print_value show_real32 show_real64 in
      ok (not (bytes_equal (text (of_octet_string bs)) (text v)))
  differs v w = elim (equals v w) [ ok same ↦ ok (not same) | err x ↦ err x ]

  -- Whether the value is that of none of the two position modes
  pub is_other_mode : Value → Result Bool
  is_other_mode mode = elim (differs mode (of_int8 (pos 1))) [
    | err x ↦ err x
    | ok other ↦ elim other [ false ↦ ok false | true ↦ differs mode (of_int8 (pos 7)) ]
  ]

  -- The checks of both constructors
  pub check_motor : Exec Device (Unit {0})
  check_motor = do
    profile ← get_device_profile_number
    if profile == 402 then pure tt else raise runtime_error
    mode ← get_entry (codes "Modes of operation display") ReadAccessMethod.use_default
    other ← λ d. (is_other_mode mode, d)
    if other then raise runtime_error else pure tt

  -- The topic, if none is given
  abbrev topic_or : List ℕ → List ℕ → Device → List ℕ
  topic_or topic_name ending d =
      if length topic_name == 0
      then codes "device" ++ show_digits 3 d.node_id ++ ending
      else topic_name

  pub new_joint_publisher : ℤ → ℤ → List ℕ → List ℕ → Exec Device JointPublisher
  new_joint_publisher position_0 position_360 field topic_name = do
    check_motor
    λ d. (
      ok (record {
        position_0_degree = position_0;
        position_360_degree = position_360;
        position_actual_field = field;
        topic_name = topic_or topic_name (codes "/get_joint_state") d;
        initialized = false;
      }),
      d,
    )

  pub new_joint_subscriber : ℤ → ℤ → List ℕ → Exec Device JointSubscriber
  new_joint_subscriber position_0 position_360 topic_name = do
    check_motor
    λ d. (
      ok (record {
        position_0_degree = position_0;
        position_360_degree = position_360;
        topic_name = topic_or topic_name (codes "/set_joint_state") d;
        initialized = false;
      }),
      d,
    )

-- The two methods `advertise`: the topic is not empty.
pub advertise_joint_publisher : JointPublisher → Result JointPublisher
advertise_joint_publisher p =
    if length p.topic_name == 0 then err assertion else ok (record p { initialized = true })

pub advertise_joint_subscriber : JointSubscriber → Result JointSubscriber
advertise_joint_subscriber s =
    if length s.topic_name == 0 then err assertion else ok (record s { initialized = true })

module _ {D : Type 0} (of_int : ℤ → D) (to_int : D → ℤ) (add subtract multiply divide : D → D → D)
    (pi : D) where
  pub pos_to_rad : JointPublisher → ℤ → D
  pos_to_rad p position =
      let min = of_int p.position_0_degree in
      let max = of_int p.position_360_degree in
      let dist = subtract max min in
      multiply (multiply (divide (subtract (of_int position) min) dist) (of_int (pos 2))) pi

  pub rad_to_pos : JointSubscriber → D → ℤ
  rad_to_pos s rad =
      let min = of_int s.position_0_degree in
      let max = of_int s.position_360_degree in
      let dist = subtract max min in
      to_int (add (multiply (divide rad (multiply (of_int (pos 2)) pi)) dist) min)

  -- An SDO error is caught: nothing is published then.
  pub publish_joint : JointPublisher → Exec Device (Option (List ℕ × List D))
  publish_joint p d = elim p.initialized [
    | false ↦ (err runtime_error, d)
    | true ↦
        let (r, d') = get_entry p.position_actual_field ReadAccessMethod.use_default d in
        elim r [
          | ok v ↦ elim (to_int32 v) [
            | ok position ↦ (ok (some (p.topic_name, pos_to_rad p position ∷ [])), d')
            | err x ↦ (err x, d')
          ]
          | err x ↦ elim (is_sdo_error x) [ true ↦ (ok none, d') | false ↦ (err x, d') ]
        ]
  ]

  -- `receive`, for the positions of a message
  module _ (run_custom : ℕ → Value → Exec Device Value) (depth : ℕ) where
    pub receive_joint : JointSubscriber → List D → Exec Device (Unit {0})
    receive_joint s [] d = (err assertion, d)
    receive_joint s (rad ∷ rads) d =
        let (r, d') =
          execute run_custom depth (codes "set_target_position") (of_int32 (rad_to_pos s rad)) d in
        elim r [
          | ok v ↦ (ok tt, d')
          | err x ↦ elim (is_sdo_error x) [ true ↦ (ok tt, d') | false ↦ (err x, d') ]
        ]
