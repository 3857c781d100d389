-- ===== src/Sdo.antt =====
-- The SDO client (include/kacanopen/core/sdo.h, src/core/sdo.cpp), with `Core::send`.
-- The bus is what the client sees of the network: the messages that it has sent, and a window for
-- each call of `send_sdo_and_wait` that is to come, with the messages that arrive during it (where
-- the list of windows has ended, nothing arrives). A wait times out if the promise has no value when
-- the first part of its window is over. The per-node locks make calls for one node sequential; calls
-- for other nodes share nothing with them but the log of what was sent.
pub mod Receivers
pub mod Exchange
pub mod Server
pub mod Segments
pub mod Upload
pub mod Cases
pub mod Download
pub mod Waiting
pub mod Termination
mod Runs
use kacanopen.Prelude.{
  ℕ, zero, suc, ◌+◌, ◌-◌, ◌/◌, ◌%◌, ◌^◌, ◌≤◌, ◌<◌, Bool, true, false, not, Option, none, some, List,
  [], ◌∷◌, ◌++◌, bit_and, bit_or, ltb, leb, ◌||◌, ◌==◌, if◌then◌else◌, length, get_or,
}
use kacanopen.Error.{
  Error, Result, ok, err, sdo_error, SdoErrorType, of_sdo_data, assertion, future_error,
  out_of_fuel,
}
use kacanopen.Exec.{Exec, pure, raise, gets, ◌>>=◌, ◌>>◌}
use kacanopen.Message.{Message}
use kacanopen.SdoResponse.{SdoResponse, failed, get_data, get_length, of_message}
use kacanopen.Core.Routing.{Target, target, sdo, pdo, nmt, ignored}

-- What `m_send_and_wait_receivers[node_id]` holds: `received_unassigned_sdo`, or the callback that
-- sets a promise, with the value that the promise was given.
pub data Receiver : Type 0 where
  unassigned : Receiver
  waiting : Option SdoResponse → Receiver

-- What arrives during one call of `send_sdo_and_wait`: until `wait_for` returns, and after that
-- until the receiver is removed.
pub record Window : Type 0 where
  pub in_time : List Message
  pub late : List Message

pub record Bus : Type 0 where
  pub sent : List Message
  pub windows : List Window
  pub receivers : ℕ → Receiver

abbrev pub update : (ℕ → Receiver) → ℕ → Receiver → ℕ → Receiver
update rs n r k = if k == n then r else rs k

-- The constructor: every receiver is `received_unassigned_sdo`.
unfoldable pub idle_receivers : ℕ → Receiver
idle_receivers n = unassigned

-- `Core::send`: the driver's result is not looked at by any caller in this component.
unfoldable pub send : Message → Exec Bus (Unit {0})
send m b = (ok tt, record b { sent = b.sent ++ (m ∷ []) })

-- A call of the receiver. Setting a promise twice throws, in the thread that receives.
pub call_receiver : (ℕ → Receiver) → ℕ → Receiver → SdoResponse → Result (ℕ → Receiver)
call_receiver rs n unassigned r = ok rs
call_receiver rs n (waiting none) r = ok (update rs n (waiting (some r)))
call_receiver rs n (waiting (some r')) r = err future_error

unfoldable pub process_incoming_message : (ℕ → Receiver) → Message → Result (ℕ → Receiver)
unfolding call_receiver
process_incoming_message rs m = let r = of_message m in call_receiver rs r.node_id (rs r.node_id) r

-- `Core::received_message` for one message that arrives during a wait; the other components share no
-- state with this.
pub receive_one : Target → (ℕ → Receiver) → Message → Result (ℕ → Receiver)
receive_one sdo rs m = process_incoming_message rs m
receive_one _ rs m = ok rs

pub receive_all : (ℕ → Receiver) → List Message → Result (ℕ → Receiver)
receive_all rs [] = ok rs
receive_all rs (m ∷ ms) = elim (receive_one (target m) rs m) [
  | ok rs' ↦ receive_all rs' ms
  | err e ↦ err e
]

-- The receive thread takes some messages, on behalf of the next window.
pub receive_next : (Window → List Message) → Exec Bus (Unit {0})
receive_next part b = elim b.windows [
  | [] ↦ (ok tt, b)
  | w ∷ rest ↦ elim (receive_all b.receivers (part w)) [
    | ok rs ↦ (ok tt, record b { receivers = rs })
    | err e ↦ (err e, b)
  ]
]

pub next_window : Exec Bus (Unit {0})
next_window b = elim b.windows [ [] ↦ (ok tt, b) | w ∷ rest ↦ (ok tt, record b { windows = rest }) ]

pub set_receiver : ℕ → Receiver → Exec Bus (Unit {0})
set_receiver n r b = (ok tt, record b { receivers = update b.receivers n r })

-- The request that `send_sdo_and_wait` builds.
pub request : ℕ → ℕ → ℕ → ℕ → List ℕ → Message
request command node_id index subindex bytes = record {
  cob_id = 0x600 + node_id;
  rtr = 0;
  len = 8;
  payload =
      command
      ∷ bit_and index 0xFF
      ∷ bit_and (index / 2 ^ 8) 0xFF
      ∷ subindex
      ∷ get_or bytes 0 0
      ∷ get_or bytes 1 0
      ∷ get_or bytes 2 0
      ∷ get_or bytes 3 0
      ∷ [];
}

-- `received_future.get()`, or the timeout.
pub answer : Receiver → Exec Bus SdoResponse
answer unassigned = raise (sdo_error SdoErrorType.response_timeout)
answer (waiting none) = raise (sdo_error SdoErrorType.response_timeout)
answer (waiting (some r)) = pure r

pub send_sdo_and_wait : ℕ → ℕ → ℕ → ℕ → List ℕ → Exec Bus SdoResponse
unfolding set_receiver send request receive_next next_window answer
send_sdo_and_wait command node_id index subindex bytes = do
  set_receiver node_id (waiting none)
  send (request command node_id index subindex bytes)
  receive_next (λ w. w.in_time)
  outcome ← gets (λ b. b.receivers node_id)
  receive_next (λ w. w.late)
  next_window
  set_receiver node_id unassigned
  answer outcome

-- `size_flag`, for 1 ≤ size ≤ 4.
pub size_flag : ℕ → ℕ
size_flag size =
    if size == 1 then 0x0C else if size == 2 then 0x08 else if size == 3 then 0x04 else 0x00

-- The four data bytes of an expedited download.
pub expedited_bytes : ℕ → List ℕ → List ℕ
expedited_bytes size bytes =
    get_or bytes 0 0
    ∷ (if ltb 1 size then get_or bytes 1 0 else 0)
    ∷ (if ltb 2 size then get_or bytes 2 0 else 0)
    ∷ (if ltb 3 size then get_or bytes 3 0 else 0)
    ∷ []

-- `size_flag` takes the size as a `uint8_t`; it is at most 4 here.
pub download_command : ℕ → ℕ
unfolding size_flag
download_command size = bit_or (bit_or (bit_or 0x20 (size_flag size)) 0x01) 0x02

pub check_response : SdoResponse → Exec Bus (Unit {0})
check_response r = if failed r then raise (sdo_error (of_sdo_data (get_data r))) else pure tt

pub download : ℕ → ℕ → ℕ → ℕ → List ℕ → Exec Bus (Unit {0})
unfolding check_response
download node_id index subindex size bytes =
    if not (ltb 0 size) || not (leb size (length bytes))
    then raise assertion
    else if leb size 4
    then (do
      response ←
          send_sdo_and_wait (download_command size) node_id index subindex
            (expedited_bytes size bytes)
      check_response response)
    else raise (sdo_error SdoErrorType.segmented_download)

-- `for (i = 0; i < get_length(); ++i) result.push_back(data[3 + i])`
pub expedited_result : ℕ → ℕ → SdoResponse → List ℕ
expedited_result zero i r = []
expedited_result (suc k) i r = get_or r.payload (3 + i) 0 ∷ expedited_result k (i + 1) r

-- `while (i < 7 && size > 0) { result.push_back(data[i]); ++i; --size; }`
pub copy_segment : List ℕ → ℕ → List ℕ → List ℕ × ℕ
copy_segment [] size result = (result, size)
copy_segment (b ∷ bs) size result =
    let next = copy_segment bs (size - 1) (result ++ (b ∷ [])) in
    if ltb 0 size then next else (result, size)

-- The loop over the segments. Each round that does not end the loop takes at least one byte off
-- `size`, so `size + 1` rounds are enough.
pub upload_segments : ℕ → ℕ → ℕ → ℕ → List ℕ → Exec Bus (List ℕ)
upload_segments zero node_id size toggle result b = raise out_of_fuel b
upload_segments (suc fuel) node_id size toggle result b = elim (size == 0) [
  | true ↦ (ok result, b)
  | false ↦
      (do
        response ← send_sdo_and_wait (bit_or 0x60 toggle) node_id 0 0 (0 ∷ 0 ∷ 0 ∷ 0 ∷ [])
        check_response response
        if toggle == bit_and response.command 0x10
            then pure tt
            else raise (sdo_error SdoErrorType.response_toggle_bit)
        let copied = copy_segment response.payload size result
        let toggle' = if ltb 0 toggle then 0 else 0x10
        if bit_and response.command 0x01 == 0
            then upload_segments fuel node_id copied.1 toggle' copied.0
            else pure copied.0)
        b
]

pub upload : ℕ → ℕ → ℕ → Exec Bus (List ℕ)
unfolding check_response
upload node_id index subindex = do
  response ← send_sdo_and_wait 0x40 node_id index subindex (0 ∷ 0 ∷ 0 ∷ 0 ∷ [])
  check_response response
  if not (bit_and response.command 0x02 == 0)
      then pure (expedited_result (get_length response) 0 response)
      else if bit_and response.command 0x01 == 0
      then raise (sdo_error SdoErrorType.response_command)
      else (let size = bit_and (get_data response) 0xFFFF in
          upload_segments (suc size) node_id size 0 [])
