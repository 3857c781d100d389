-- ===== src/Sdo/Receivers.antt =====
-- What the messages that arrive make of a receiver that waits.
use kacanopen.Prelude.{
  ap, ◌∙◌, Option-cases, true, false, Bool, Bool-cases, Option, ℕ, ◌+◌, ◌≡◌, ◌≢◌, refl, inl, inr,
  none, some, List, [], ◌∷◌, arith, ◌==◌, ==_iff, if◌then◌else◌,
}
use kacanopen.Error.{Result, ok, err, future_error}
use kacanopen.Message.{Message, get_node_id}
use kacanopen.SdoResponse.{SdoResponse, of_message}
use kacanopen.Core.Routing.{Target, target, sdo}
use kacanopen.Sdo.{
  receive_one, Receiver, unassigned, waiting, update, call_receiver, process_incoming_message,
  receive_all,
}

abbrev pub response_message : ℕ → ℕ → List ℕ → Message
response_message node_id command bytes = record {
  cob_id = 0x580 + node_id;
  rtr = 0;
  len = 8;
  payload = command ∷ bytes;
}

-- The SDO responses of one node among the messages.
abbrev pub is_response : ℕ → Target → Message → Bool
is_response n sdo m = get_node_id m == n
is_response n _ m = false

unfoldable pub responses_of : ℕ → List Message → List Message
responses_of n [] = []
responses_of n (m ∷ ms) =
    if is_response n (target m) m then m ∷ responses_of n ms else responses_of n ms

-- What becomes of a promise that is given these responses in turn.
unfoldable pub settle : Option SdoResponse → List Message → Result (Option SdoResponse)
settle o [] = ok o
settle none (m ∷ ms) = settle (some (of_message m)) ms
settle (some r) (m ∷ ms) = err future_error

-- Nobody waits but at node `n`, whose promise holds `o`.
pub record Waits (n : ℕ) (o : Option SdoResponse) (rs : ℕ → Receiver) : Type 0 where
  pub here : rs n ≡ waiting o
  pub elsewhere : (k : ℕ) → k ≢ n → rs k ≡ unassigned

abbrev pub Settles : ℕ → Result (Option SdoResponse) → Result (ℕ → Receiver) → Type 0
Settles n (ok o) (ok rs) = Waits n o rs
Settles n (err e) (err e') = e ≡ e'
Settles n _ _ = ⊥

pub Waits-update :
    (n : ℕ) {o : Option SdoResponse} (o' : Option SdoResponse) {rs : ℕ → Receiver}
    → Waits n o rs
    → Waits n o' (update rs n (waiting o'))
Waits-update n o' w = record {
  here = ground arith;
  elsewhere = λ k h. ground (arith, w.elsewhere k h);
}

pub node_id-of_message : (m : Message) → (of_message m).node_id ≡ get_node_id m
unfolding of_message
node_id-of_message m = refl

module _ (n : ℕ) {o : Option SdoResponse} {rs : ℕ → Receiver} (m : Message) (w : Waits n o rs) where
  pub receive_one_foreign : (t : Target) → is_response n t m ≡ false → receive_one t rs m ≡ ok rs
  unfolding receive_one process_incoming_message of_message
  receive_one_foreign sdo h =
      let ne : get_node_id m ≢ n = λ e. ground (arith, h) in
      rw (w.elsewhere (get_node_id m) ne, call_receiver)
  receive_one_foreign _ h = refl

  pub receive_one_first :
      (t : Target)
      → is_response n t m ≡ true
      → o ≡ none
      → receive_one t rs m ≡ ok (update rs n (waiting (some (of_message m))))
  unfolding receive_one process_incoming_message
  receive_one_first sdo h e =
      let same : (of_message m).node_id ≡ n =
        node_id-of_message m ∙ (==_iff (get_node_id m) n).0 h in
      let free : rs (of_message m).node_id ≡ waiting none = ap rs same ∙ w.here ∙ ap waiting e in
      rw (free, call_receiver)
        (ap (λ (k : ℕ). ok (update rs k (waiting (some (of_message m))))) same)
  receive_one_first _ h e = cc

  pub receive_one_again :
      (t : Target) {r : SdoResponse}
      → is_response n t m ≡ true
      → o ≡ some r
      → receive_one t rs m ≡ err future_error
  unfolding receive_one process_incoming_message
  receive_one_again sdo h e =
      let same : (of_message m).node_id ≡ n =
        node_id-of_message m ∙ (==_iff (get_node_id m) n).0 h in
      rw (ap rs same ∙ w.here ∙ ap waiting e, call_receiver)
  receive_one_again _ h e = cc

-- Whatever arrives, in whatever order: the promise sees the node's own SDO responses and no other
-- message.
pub receive_all-settle :
    (n : ℕ) (ms : List Message) (o : Option SdoResponse) (rs : ℕ → Receiver)
    → Waits n o rs
    → Settles n (settle o (responses_of n ms)) (receive_all rs ms)
unfolding receive_all responses_of settle
receive_all-settle n [] o rs w = w
receive_all-settle n (m ∷ ms) o rs w = elim (Bool-cases (is_response n (target m) m)) [
  | inr miss ↦
      rw (miss, receive_one_foreign n m w (target m) miss, receive_all)
        (receive_all-settle n ms o rs w)
  | inl hit ↦ elim (Option-cases o) [
    | inl e ↦
        rw (hit, receive_one_first n m w (target m) hit e, receive_all, e, settle)
          (receive_all-settle n ms (some (of_message m)) _ (Waits-update n (some (of_message m)) w))
    | inr (r, e) ↦ rw (hit, receive_one_again n m w (target m) hit e, receive_all, e, settle) refl
  ]
]
