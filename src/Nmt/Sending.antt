-- ===== src/Nmt/Sending.antt =====
-- What the NMT master sends, and how a device joins.
use kacanopen.Prelude.{
  ◌==◌, ℕ, zero, suc, ◌+◌, ◌-◌, ◌≤◌, ◌<◌, ◌≡◌, refl, ◌∙◌, List, [], ◌∷◌, ◌++◌, map, arith, none,
  some, ltb, if◌then◌else◌, true, inl, inr, All, Bool-cases,
}
use mathlib.Core.List.{append-nil, append_assoc}
use kacanopen.Message.{Message, get_node_id}
use kacanopen.Message.Laws.{get_node_id_lem}
use kacanopen.Core.Routing.{target, target_at, nmt, ignored, target_of_code}
use kacanopen.Nmt.{
  Devices, alive, Nmt, find, insert, assign, nmt_message, guard_request, for_nodes, send,
  reset_node, discover_nodes, process_incoming_message, reported_state, operational, preoperational,
  send_nmt_message, receive,
}
use kacanopen.Nmt.Devices.{
  calls_for, or_else, find-insert, find-assign, calls_for-append, calls_for-map,
}

-- first, first + 1, …, `count` of them
unfoldable pub from : ℕ → ℕ → List ℕ
from first zero = []
from first (suc count) = first ∷ from (first + 1) count

for_nodes-send :
    (f : ℕ → Message) (first count : ℕ) (s : Nmt)
    → for_nodes (λ n. send (f n)) first count s
      ≡ record s { sent = s.sent ++ map f (from first count) }
unfolding for_nodes from
for_nodes-send f first zero s = rw (append-nil s.sent) refl
for_nodes-send f first (suc count) s =
    for_nodes-send f (first + 1) count (send (f first) s)
    ∙ rw (append_assoc s.sent (f first ∷ []) (map f (from (first + 1) count))) refl

target_of_fourteen : target_of_code 14 ≡ nmt
unfolding target_of_code
target_of_fourteen = refl

target_of_fifteen : target_of_code 15 ≡ ignored
unfolding target_of_code
target_of_fifteen = refl

-- Who handles a message with the COB-ID of the guarding request, which is that of its answer
guard_target : (k : ℕ) → k < 256 → target (guard_request k) ≡ (if ltb k 128 then nmt else ignored)
unfolding guard_request
guard_target k small = elim (Bool-cases (ltb k 128)) [
  | inl low ↦
      let lt : k < 128 = ground (arith, low) in
      rw low (target_at (guard_request k) 14 k lt (omega arith) (omega arith) target_of_fourteen)
  | inr high ↦
      let le : 128 ≤ k = ground (arith, high) in
      rw high (
        target_at (guard_request k) 15 (k - 128) (omega arith) (omega arith) (omega arith)
          target_of_fifteen)
]

guard_targets :
    (first count : ℕ)
    → first + count ≤ 256
    → All (λ k. target (guard_request k) ≡ (if ltb k 128 then nmt else ignored)) (from first count)
unfolding from
guard_targets first zero h = tt
guard_targets first (suc count) h =
    (guard_target first (omega arith), guard_targets (first + 1) count (omega arith))

-- `discover_nodes` asks every node from 1 to 238 once, in order, and changes nothing else. The
-- answers of the nodes up to 127 go to the NMT master; a COB-ID above belongs to no service, so an
-- answer would be ignored.
pub discover_nodes_lem :
    (s : Nmt)
    → (discover_nodes s ≡ record s { sent = s.sent ++ map guard_request (from 1 238) })
      × All (λ k. target (guard_request k) ≡ (if ltb k 128 then nmt else ignored)) (from 1 238)
unfolding discover_nodes
discover_nodes_lem s = (for_nodes-send guard_request 1 238 s, guard_targets 1 238 (omega arith))

-- The error control message by which node `n` reports `state`
unfoldable pub heartbeat : ℕ → ℕ → Message
heartbeat n state = record {
  cob_id = 0x700 + n;
  rtr = 0;
  len = 1;
  payload = state ∷ 0 ∷ 0 ∷ 0 ∷ 0 ∷ 0 ∷ 0 ∷ 0 ∷ [];
}

get_node_id-heartbeat : (n state : ℕ) → n < 128 → get_node_id (heartbeat n state) ≡ n
unfolding heartbeat
get_node_id-heartbeat n state h = get_node_id_lem (heartbeat n state) 14 n h (omega arith)

process-boot :
    (n : ℕ) (s : Nmt)
    → n < 128
    → process_incoming_message (heartbeat n 0) s ≡ send (guard_request n) s
unfolding process_incoming_message reported_state heartbeat
process-boot n s h = rw (get_node_id-heartbeat n 0 h) refl

process-operational :
    (n : ℕ) (s : Nmt)
    → n < 128
    → process_incoming_message (heartbeat n 5) s ≡ operational n (find n s.alive_devices) s
unfolding process_incoming_message reported_state heartbeat
process-operational n s h = rw (get_node_id-heartbeat n 5 h) refl

process-preoperational :
    (n : ℕ) (s : Nmt) → n < 128 → process_incoming_message (heartbeat n 127) s ≡ preoperational n s
unfolding process_incoming_message reported_state heartbeat
process-preoperational n s h = rw (get_node_id-heartbeat n 127 h) refl

find-shown : (n : ℕ) (ds : Devices) → find n ds ≡ none → find n (insert n alive ds) ≡ some alive
unfolding or_else
find-shown n ds unknown =
    let same : (n == n) ≡ true = ground arith in find-insert n n alive ds ∙ rw (same, unknown) refl

-- A device that was running before the master came up is reset first: of its messages operational,
-- boot-up, pre-operational and operational again, the first is answered with a reset, the second
-- with a guarding request, the third calls each alive callback for it once, and after the last it is
-- known as alive.
pub joins :
    (n : ℕ) (s : Nmt)
    → n < 128
    → find n s.alive_devices ≡ none
    → let s' = receive (heartbeat n 5 ∷ heartbeat n 0 ∷ heartbeat n 127 ∷ heartbeat n 5 ∷ []) s in
      (s'.sent ≡ s.sent ++ (nmt_message n reset_node ∷ guard_request n ∷ []))
      × (find n s'.alive_devices ≡ some alive)
      × (calls_for n s'.alive_calls ≡ calls_for n s.alive_calls ++ s.alive_callbacks)
unfolding receive operational preoperational send_nmt_message
joins n s h unknown =
    let same : (n == n) ≡ true = ground arith in
    let ds = s.alive_devices in
    let s1 = send (nmt_message n reset_node) s in
    let s2 = send (guard_request n) s1 in
    let s3 = preoperational n s2 in
    let s4 = record s3 { alive_devices = assign n alive (insert n alive ds) } in
    let e1 : process_incoming_message (heartbeat n 5) s ≡ s1 =
      process-operational n s h ∙ rw unknown refl in
    let e2 : process_incoming_message (heartbeat n 0) s1 ≡ s2 = process-boot n s1 h in
    let e3 : process_incoming_message (heartbeat n 127) s2 ≡ s3 = process-preoperational n s2 h in
    let e4 : process_incoming_message (heartbeat n 5) s3 ≡ s4 =
      process-operational n s3 h ∙ rw (find-shown n ds unknown) refl in
    rw (e1, e2, e3, e4)
      (
        append_assoc s.sent (nmt_message n reset_node ∷ []) (guard_request n ∷ []),
        find-assign n n alive (insert n alive ds) ∙ rw same refl,
        calls_for-append n s.alive_calls (map (λ c. (c, n)) s.alive_callbacks)
            ∙ rw (calls_for-map n n s.alive_callbacks, same) refl,
      )
