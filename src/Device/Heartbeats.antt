-- ===== src/Device/Heartbeats.antt =====
-- The heartbeat that a device object sends (`send_heartbeat`, `request_heartbeat` and
-- `stop_request_heartbeat` of src/master/device.cpp). The thread is the message that it sends, and a
-- round of its loop is a step.
use kacanopen.Prelude.{
  ◌==◌, ℕ, ◌+◌, ◌%◌, ◌^◌, ◌≡◌, refl, List, [], ◌∷◌, ◌++◌, Option, none, some, if◌then◌else◌, Bool,
  true, false,
}
use kacanopen.Message.{Message}

pub record Heartbeat : Type 0 where
  pub thread : Option Message
  pub terminating : Bool
  pub sent : List Message

-- The initialiser gives one byte, so the others are zero.
pub heartbeat_message : ℕ → ℕ → ℕ → Message
heartbeat_message node_id rtr state = record {
  cob_id = (0x700 + node_id) % 2 ^ 16;
  rtr = rtr;
  len = 1;
  payload = state ∷ 0 ∷ 0 ∷ 0 ∷ 0 ∷ 0 ∷ 0 ∷ 0 ∷ [];
}

-- One round of `while (!terminating_)`
pub beat : Heartbeat → Heartbeat
beat h = elim h.thread [
  | none ↦ h
  | some m ↦ if h.terminating then h else record h { sent = h.sent ++ (m ∷ []) }
]

pub request_heartbeat : ℕ → ℕ → ℕ → ℕ → Heartbeat → Heartbeat
request_heartbeat node_id heartbeat_interval rtr state h = elim (heartbeat_interval == 0) [
  | true ↦ h
  | false ↦ elim h.thread [
    | some m ↦ h
    | none ↦ record h { thread = some (heartbeat_message node_id rtr state) }
  ]
]

pub stop_request_heartbeat : Heartbeat → Heartbeat
stop_request_heartbeat h = record h { terminating = true }

-- After a stop no heartbeat is sent any more, not even after another request.
pub beat_stopped :
    (node_id heartbeat_interval rtr state : ℕ) (h : Heartbeat)
    → (beat
        (request_heartbeat node_id heartbeat_interval rtr state (stop_request_heartbeat h))).sent
      ≡ h.sent
unfolding beat request_heartbeat stop_request_heartbeat
beat_stopped node_id heartbeat_interval rtr state h = by_interval (heartbeat_interval == 0) h.thread
  where
    m : Message
    m = heartbeat_message node_id rtr state

    by_interval :
        (zero_interval : Bool) (o : Option Message)
        → (beat (elim zero_interval as (λ x. Heartbeat) [
          | true ↦ record h { thread = o; terminating = true }
          | false ↦ elim o as (λ x. Heartbeat) [
            | some _ ↦ record h { thread = o; terminating = true }
            | none ↦ record h { thread = some m; terminating = true }
          ]
        ])).sent
          ≡ h.sent
    by_interval true none = refl
    by_interval true (some _) = refl
    by_interval false none = refl
    by_interval false (some _) = refl
