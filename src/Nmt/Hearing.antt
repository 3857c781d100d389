-- ===== src/Nmt/Hearing.antt =====
-- What the messages that arrive make of what is known about a node.
use kacanopen.Prelude.{
  ==_iff, ◌==◌, ℕ, ◌≡◌, refl, ap, sym, ◌∙◌, List, [], ◌∷◌, arith, Option, none, some, if◌then◌else◌,
  Bool, true, false, ◌||◌, ◌&&◌, inl, inr, Bool-cases,
}
use kacanopen.Message.{Message, get_node_id}
use kacanopen.Nmt.{
  Devices, DeviceState, alive, Nmt, find, operational, preoperational, reported_state,
  process_incoming_message, receive, send_nmt_message,
}
use kacanopen.Nmt.Devices.{or_else, find-assign, find-insert}

-- A message by which node `k` reports the state `state`
unfoldable pub reports_state : ℕ → ℕ → Message → Bool
reports_state state k m = (m.rtr == 0) && ((reported_state m == state) && (get_node_id m == k))

unfoldable pub any : (Message → Bool) → List Message → Bool
any p [] = false
any p (m ∷ ms) = p m || any p ms

-- What a heartbeat makes of a known device
pub heard : Option DeviceState → Option DeviceState
heard none = none
heard (some t) = some alive

-- What one message makes of what is known about node `k`
pub track : ℕ → Message → Option DeviceState → Option DeviceState
track k m o =
    if reports_state 127 k m
    then some (or_else o alive)
    else if reports_state 5 k m
    then heard o
    else o

pub find_same : (k n : ℕ) (ds : Devices) → (n == k) ≡ true → find n ds ≡ find k ds
find_same k n ds same = rw (sym ((==_iff n k).0 same)) refl

pub find-operational :
    (k n : ℕ) (o : Option DeviceState) (s : Nmt)
    → find n s.alive_devices ≡ o
    → find k (operational n o s).alive_devices
      ≡ (if n == k then heard o else find k s.alive_devices)
unfolding operational send_nmt_message heard
find-operational k n none s h = ground (arith, find_same k n s.alive_devices)
find-operational k n (some t) s h = find-assign k n alive s.alive_devices

pub find-process :
    (k : ℕ) (m : Message) (s : Nmt)
    → find k (process_incoming_message m s).alive_devices ≡ track k m (find k s.alive_devices)
unfolding process_incoming_message track reports_state preoperational
find-process k m s = ground (
  arith,
  find_same k (get_node_id m) s.alive_devices,
  find-operational k (get_node_id m) (find (get_node_id m) s.alive_devices) s refl,
  find-insert k (get_node_id m) alive s.alive_devices,
)

unfoldable pub is_alive_if : Bool → DeviceState → DeviceState
is_alive_if heartbeat t = if heartbeat then alive else t

pub is_alive_if-|| :
    (a b : Bool) (t : DeviceState) → is_alive_if b (is_alive_if a t) ≡ is_alive_if (a || b) t
unfolding is_alive_if
is_alive_if-|| a b t = ground arith

pub track_known :
    (k : ℕ) (m : Message) (t : DeviceState)
    → track k m (some t) ≡ some (is_alive_if (reports_state 5 k m) t)
unfolding track reports_state is_alive_if heard or_else
track_known k m t = ground arith

pub track_unknown :
    (k : ℕ) (m : Message) → track k m none ≡ (if reports_state 127 k m then some alive else none)
unfolding track heard or_else
track_unknown k m = ground arith

pub receive_known :
    (k : ℕ) (t : DeviceState) (ms : List Message) (s : Nmt)
    → find k s.alive_devices ≡ some t
    → find k (receive ms s).alive_devices ≡ some (is_alive_if (any (reports_state 5 k) ms) t)
unfolding receive any
receive_known k t [] s h = unfold is_alive_if in h
receive_known k t (m ∷ ms) s h =
    let now = is_alive_if (reports_state 5 k m) t in
    let first : find k (process_incoming_message m s).alive_devices ≡ some now =
      find-process k m s ∙ rw h (track_known k m t) in
    receive_known k now ms (process_incoming_message m s) first
    ∙ ap some (is_alive_if-|| (reports_state 5 k m) (any (reports_state 5 k) ms) t)

pub receive_unknown :
    (k : ℕ) (ms : List Message) (s : Nmt)
    → find k s.alive_devices ≡ none
    → find k (receive ms s).alive_devices
      ≡ (if any (reports_state 127 k) ms then some alive else none)
unfolding receive any is_alive_if
receive_unknown k [] s h = h
receive_unknown k (m ∷ ms) s h = elim (Bool-cases (reports_state 127 k m)) [
  | inl shown ↦
      let first : find k (process_incoming_message m s).alive_devices ≡ some alive =
        find-process k m s ∙ (rw h (track_unknown k m ∙ rw shown refl)) in
      receive_known k alive ms (process_incoming_message m s) first ∙ rw shown (ground arith)
  | inr silent ↦
      let first : find k (process_incoming_message m s).alive_devices ≡ none =
        find-process k m s ∙ (rw h (track_unknown k m ∙ rw silent refl)) in
      receive_unknown k ms (process_incoming_message m s) first ∙ rw silent refl
]
