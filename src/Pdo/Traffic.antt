-- ===== src/Pdo/Traffic.antt =====
-- What is sent is what the callbacks receive.
use kacanopen.Prelude.{
  get_or-set, ◌==◌, ℕ, zero, suc, ◌+◌, ◌-◌, ◌≤◌, ◌<◌, ◌≡◌, refl, ap, ◌∙◌, List, [], ◌∷◌, ◌++◌, map,
  length-set, arith, length, ltb, leb, if◌then◌else◌, true, ◌&&◌, get_or, set, drop,
}
use mathlib.Core.Path.{ap₂}
use kacanopen.Message.{Message, data_at}
use kacanopen.Error.{ok}
use kacanopen.Pdo.{
  PdoReceivedCallback, Pdo, received_data, call_each, process_incoming_message, fill, message_of,
  send, add_pdo_received_callback, erase_first, remove_pdo_received_callback,
}

-- The callbacks of a COB-ID, in order of registration
unfoldable pub listeners : ℕ → List PdoReceivedCallback → List ℕ
listeners id [] = []
listeners id (c ∷ cs) =
    let rest = listeners id cs in if c.cob_id == id then c.callback ∷ rest else rest

listeners-append :
    (id c other : ℕ) (cs : List PdoReceivedCallback)
    → listeners other (cs ++ (record { cob_id = id; callback = c } ∷ []))
      ≡ listeners other cs ++ (if id == other then c ∷ [] else [])
unfolding listeners
listeners-append id c other [] = ground arith
listeners-append id c other (x ∷ cs) = ground (arith, listeners-append id c other cs)

listeners-erase :
    (id other : ℕ) (cs : List PdoReceivedCallback)
    → listeners other (erase_first id cs)
      ≡ (if id == other then drop 1 (listeners other cs) else listeners other cs)
unfolding listeners erase_first
listeners-erase id other [] = ground arith
listeners-erase id other (x ∷ cs) = ground (arith, listeners-erase id other cs)

call_each_lem :
    (id : ℕ) (bytes : List ℕ) (cs : List PdoReceivedCallback)
    → call_each id bytes cs ≡ map (λ c. (c, bytes)) (listeners id cs)
unfolding call_each listeners
call_each_lem id bytes [] = refl
call_each_lem id bytes (c ∷ cs) = ground (arith, call_each_lem id bytes cs)

pub length-fill :
    (bytes : List ℕ) (i : ℕ) (array : List ℕ) → length (fill bytes i array) ≡ length array
unfolding fill
length-fill [] i array = refl
length-fill (b ∷ bytes) i array = length-fill bytes (i + 1) (set array i b) ∙ length-set array i b

get_or-cons :
    (b : ℕ) (bs : List ℕ) (k d : ℕ)
    → get_or (b ∷ bs) k d ≡ (if k == 0 then b else get_or bs (k - 1) d)
get_or-cons b bs zero d = refl
get_or-cons b bs (suc k) d =
    ground (arith, ap (λ (t : ℕ). get_or bs t d) {x = suc k - 1} {y = k} (omega arith))

-- Each place that is written holds the byte that was written there, and the others what they held.
pub get_or-fill :
    (bytes : List ℕ) (i : ℕ) (array : List ℕ) (j d : ℕ)
    → i + length bytes ≤ length array
    → get_or (fill bytes i array) j d
      ≡ (if leb i j && ltb j (i + length bytes) then get_or bytes (j - i) d else get_or array j d)
unfolding fill
get_or-fill [] i array j d h = ground arith
get_or-fill (b ∷ bytes) i array j d h =
    get_or-fill bytes (i + 1) (set array i b) j d (omega (arith, length-set array i b))
    ∙ ground (
      arith,
      get_or-set array i b j d (omega arith),
      get_or-cons b bytes (j - i) d,
      ap (λ (k : ℕ). get_or bytes k d) {x = j - i - 1} {y = j - (i + 1)} (omega arith),
    )

received_data_lem :
    (bytes : List ℕ) (m : Message) (i : ℕ)
    → ((j : ℕ) → j < length bytes → data_at m (i + j) ≡ get_or bytes j 0)
    → received_data m i (length bytes) ≡ bytes
unfolding received_data
received_data_lem [] m i h = refl
received_data_lem (b ∷ bytes) m i h =
    ap₂ {A = ℕ} {B = List ℕ} (λ x xs. x ∷ xs) (ap (data_at m) (omega arith) ∙ h 0 (omega arith))
      (received_data_lem bytes m (i + 1)
        λ j lt. ap (data_at m) (omega arith) ∙ h (suc j) (omega arith))

-- The data that arrive are those that were sent.
received_data-message_of :
    (stack : List ℕ) (id : ℕ) (bytes : List ℕ)
    → length stack ≡ 8
    → length bytes ≤ 8
    → received_data (message_of id bytes stack) 0 (length bytes) ≡ bytes
unfolding message_of
received_data-message_of stack id bytes room short =
    let m = message_of id bytes stack in
    received_data_lem bytes m 0 λ j lt.
      ap (data_at m) {x = 0 + j} {y = j} (omega arith)
      ∙ (get_or-fill bytes 0 stack j 0 (omega arith)
          ∙ ground (arith, ap (λ (k : ℕ). get_or bytes k 0) {x = j - 0} {y = j} (omega arith)))

pub process_incoming_message-message_of :
    (stack : List ℕ) (id : ℕ) (bytes : List ℕ) (receiver : Pdo)
    → length stack ≡ 8
    → length bytes ≤ 8
    → (process_incoming_message (message_of id bytes stack) receiver).calls
      ≡ receiver.calls ++ map (λ c. (c, bytes)) (listeners id receiver.receive_callbacks)
unfolding process_incoming_message message_of
process_incoming_message-message_of stack id bytes receiver room short =
    ap (λ (bs : List ℕ). receiver.calls ++ call_each id bs receiver.receive_callbacks)
      (received_data-message_of stack id bytes room short)
    ∙ ap (λ (cs : List (ℕ × List ℕ)). receiver.calls ++ cs)
        (call_each_lem id bytes receiver.receive_callbacks)

-- A PDO of at most eight bytes that is sent, whatever lay on the stack, and then received calls each
-- callback that is registered for its COB-ID once, in order, with exactly the bytes that were sent.
pub process_incoming_message-send :
    (stack : List ℕ) (id : ℕ) (bytes : List ℕ) (s receiver : Pdo)
    → length stack ≡ 8
    → length bytes ≤ 8
    → (m : Message) × (send stack id bytes s ≡ (ok tt, record s { sent = s.sent ++ (m ∷ []) }))
      × ((process_incoming_message m receiver).calls
          ≡ receiver.calls ++ map (λ c. (c, bytes)) (listeners id receiver.receive_callbacks))
unfolding send
process_incoming_message-send stack id bytes s receiver room short =
    let fits : leb (length bytes) 8 ≡ true = ground arith in
    (
      message_of id bytes stack,
      rw fits refl,
      process_incoming_message-message_of stack id bytes receiver room short,
    )

-- A callback that is added is called for its COB-ID after those that were there; removing a COB-ID
-- takes its first callback away; other COB-IDs keep theirs.
pub listeners_lem :
    (id c other : ℕ) (s : Pdo)
    → let at = λ (p : Pdo). listeners other p.receive_callbacks in
      (at (add_pdo_received_callback id c s) ≡ at s ++ (if id == other then c ∷ [] else []))
      × (at (remove_pdo_received_callback id s) ≡ (if id == other then drop 1 (at s) else at s))
unfolding add_pdo_received_callback remove_pdo_received_callback
listeners_lem id c other s =
    (listeners-append id c other s.receive_callbacks, listeners-erase id other s.receive_callbacks)
