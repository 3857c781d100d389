-- ===== src/Nmt/Tracking.antt =====
-- What becomes of one device in rounds of `check_alive_devices`.
use kacanopen.Prelude.{
  ℕ, ◌≡◌, ◌≢◌, refl, ap, ◌∙◌, List, [], ◌∷◌, ◌++◌, arith, Option, none, some, if◌then◌else◌, Bool,
  true, false, if_both,
}
use mathlib.Core.List.{append-nil}
use kacanopen.Message.{Message, get_node_id}
use kacanopen.Nmt.{
  send, DeviceState, alive, dead, to_be_killed, Nmt, find, operational, preoperational,
  process_incoming_message, mark, sweep, receive, check_round, send_nmt_message, guard_request,
  sweep_all,
}
use kacanopen.Nmt.Devices.{
  IsMap, marked, swept, reports, calls_for, find-mark_all, find-sweep_all, calls_for-sweep_all,
  calls_for-append, IsMap-assign, IsMap-insert, IsMap-mark_all, IsMap-sweep_all,
}
use kacanopen.Nmt.Hearing.{reports_state, any, is_alive_if, receive_known, receive_unknown}

-- What holds after each branch of the handler
process_cases {ℓ} :
    (P : Nmt → Type ℓ) (m : Message) (s : Nmt)
    → let n = get_node_id m in
      P s
      → P (send (guard_request n) s)
      → P (operational n (find n s.alive_devices) s)
      → P (preoperational n s)
      → P (process_incoming_message m s)
unfolding process_incoming_message
process_cases P m s same guarded five shown =
    if_both P _ _ _ same
      (if_both P _ _ _ guarded (if_both P _ _ _ five (if_both P _ _ _ shown same)))

-- Only a sweep reports a device as dead.
abbrev KeepsReports : Nmt → Nmt → Type 0
KeepsReports s s' = (s'.dead_calls ≡ s.dead_calls) × (s'.dead_callbacks ≡ s.dead_callbacks)

operational-KeepsReports :
    (n : ℕ) (o : Option DeviceState) (s : Nmt) → KeepsReports s (operational n o s)
unfolding operational send_nmt_message
operational-KeepsReports n none s = (refl, refl)
operational-KeepsReports n (some _) s = (refl, refl)

receive-KeepsReports : (ms : List Message) (s : Nmt) → KeepsReports s (receive ms s)
unfolding receive preoperational
receive-KeepsReports [] s = (refl, refl)
receive-KeepsReports (m ∷ ms) s =
    let n = get_node_id m in
    let (calls, callbacks) =
      process_cases (KeepsReports s) m s (refl, refl) (refl, refl)
        (operational-KeepsReports n (find n s.alive_devices) s) (refl, refl) in
    let (calls', callbacks') = receive-KeepsReports ms (process_incoming_message m s) in
    (calls' ∙ calls, callbacks' ∙ callbacks)

operational-IsMap :
    (n : ℕ) (o : Option DeviceState) (s : Nmt)
    → IsMap s.alive_devices
    → IsMap (operational n o s).alive_devices
unfolding operational send_nmt_message
operational-IsMap n none s u = u
operational-IsMap n (some _) s u = IsMap-assign n alive s.alive_devices u

receive-IsMap :
    (ms : List Message) (s : Nmt) → IsMap s.alive_devices → IsMap (receive ms s).alive_devices
unfolding receive preoperational
receive-IsMap [] s u = u
receive-IsMap (m ∷ ms) s u =
    let n = get_node_id m in
    receive-IsMap ms (process_incoming_message m s) (
      process_cases (λ s'. IsMap s'.alive_devices) m s u u
        (operational-IsMap n (find n s.alive_devices) s u) (IsMap-insert n alive s.alive_devices u))

-- A round, seen from node `k`, in terms of what is known of `k` when the sweep comes
check_round_view :
    (k : ℕ) (ms : List Message) (s : Nmt)
    → IsMap s.alive_devices
    → let s' = check_round ms s in
      let seen = find k (receive ms (mark s)).alive_devices in
      (find k s'.alive_devices ≡ swept seen)
      × (calls_for k s'.dead_calls ≡ calls_for k s.dead_calls ++ reports s.dead_callbacks seen)
      × IsMap s'.alive_devices
unfolding check_round mark sweep
check_round_view k ms s u =
    let s1 = receive ms (mark s) in
    let u1 : IsMap s1.alive_devices =
      receive-IsMap ms (mark s) (IsMap-mark_all s.alive_devices u) in
    let (calls, callbacks) = receive-KeepsReports ms (mark s) in
    (
      find-sweep_all k s1.dead_callbacks s1.alive_devices,
      calls_for-append k s1.dead_calls (sweep_all s1.dead_callbacks s1.alive_devices).1
          ∙ rw (calls_for-sweep_all k s1.dead_callbacks s1.alive_devices u1, calls, callbacks) refl,
      IsMap-sweep_all s1.dead_callbacks s1.alive_devices u1,
    )

find-mark : (k : ℕ) (s : Nmt) → find k (mark s).alive_devices ≡ marked (find k s.alive_devices)
unfolding mark
find-mark k s = find-mark_all k s.alive_devices

marked_state : (t : DeviceState) → (t' : DeviceState) × (marked (some t) ≡ some t') × (t' ≢ alive)
unfolding marked
marked_state alive = (to_be_killed, refl, λ e. cc)
marked_state dead = (dead, refl, λ e. cc)
marked_state to_be_killed = (to_be_killed, refl, λ e. cc)

sweep_verdict :
    (heartbeat : Bool) (t : DeviceState) (cs : List ℕ)
    → t ≢ alive
    → (swept (some (is_alive_if heartbeat t)) ≡ some (if heartbeat then alive else dead))
      × (reports cs (some (is_alive_if heartbeat t))
          ≡ (if heartbeat then [] else reports cs (some t)))
unfolding swept is_alive_if reports
sweep_verdict true t cs h = (refl, refl)
sweep_verdict false alive cs h = absurd (h refl)
sweep_verdict false dead cs h = (refl, refl)
sweep_verdict false to_be_killed cs h = (refl, refl)

-- In a round of the check, whatever messages arrive and in whatever order, each device that was
-- known ends alive if an operational heartbeat of it (state 5) arrived and dead if none did, whatever
-- other states it reported; every dead callback was called for it once if it was not dead already and
-- no such heartbeat arrived, and not at all otherwise. The map of devices, which holds each key once
-- before, does so afterwards.
pub check_round_known :
    (k : ℕ) (t : DeviceState) (ms : List Message) (s : Nmt)
    → IsMap s.alive_devices
    → find k s.alive_devices ≡ some t
    → let s' = check_round ms s in
      let heartbeat = any (reports_state 5 k) ms in
      (find k s'.alive_devices ≡ some (if heartbeat then alive else dead))
      × (calls_for k s'.dead_calls
          ≡ calls_for k s.dead_calls
            ++ (if heartbeat then [] else reports s.dead_callbacks (marked (some t))))
      × IsMap s'.alive_devices
check_round_known k t ms s u h =
    let heartbeat = any (reports_state 5 k) ms in
    let (t', is_marked, awaited) = marked_state t in
    let seen = receive_known k t' ms (mark s) (find-mark k s ∙ rw h is_marked) in
    let (found, calls, u') = check_round_view k ms s u in
    let (verdict, reported) = sweep_verdict heartbeat t' s.dead_callbacks awaited in
    (
      found ∙ rw seen verdict,
      calls ∙ rw (seen, is_marked) (ap (λ (cs : List ℕ). calls_for k s.dead_calls ++ cs) reported),
      u',
    )

-- A device that was not known is known after the round just if it showed itself as pre-operational
-- in it, it is alive then, and it is not reported dead.
pub check_round_unknown :
    (k : ℕ) (ms : List Message) (s : Nmt)
    → IsMap s.alive_devices
    → find k s.alive_devices ≡ none
    → let s' = check_round ms s in
      (find k s'.alive_devices ≡ (if any (reports_state 127 k) ms then some alive else none))
      × (calls_for k s'.dead_calls ≡ calls_for k s.dead_calls)
unfolding marked swept reports
check_round_unknown k ms s u h =
    let seen = receive_unknown k ms (mark s) (find-mark k s ∙ rw h refl) in
    let (found, calls, _) = check_round_view k ms s u in
    (
      found ∙ rw seen (ground arith),
      calls ∙ rw seen (ground (arith, append-nil (calls_for k s.dead_calls))),
    )
