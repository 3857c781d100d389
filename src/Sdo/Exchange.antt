-- ===== src/Sdo/Exchange.antt =====
-- One request and its response.
use kacanopen.Prelude.{
  ◌≤◌, sym, ap, ◌∙◌, false, Option, ℕ, ◌≡◌, refl, ◌⊎◌, inl, inr, none, some, List, [], ◌∷◌, ◌++◌,
  arith,
}
use kacanopen.Error.{Error, Result, ok, err, sdo_error, future_error, SdoErrorType}
use kacanopen.Message.Laws.{get_node_id-lt}
use kacanopen.Message.{Message}
use kacanopen.SdoResponse.{SdoResponse, of_message}
use kacanopen.Core.Routing.{Target, target, sdo}
use kacanopen.Sdo.{
  answer, Bus, Window, Receiver, unassigned, waiting, update, receive_all, receive_next, request,
  send_sdo_and_wait,
}
use kacanopen.Sdo.Receivers.{is_response, responses_of, settle, Waits, Settles, receive_all-settle}

-- The message that a server with this node ID sends as an SDO response.
abbrev outcome : Option SdoResponse → Result SdoResponse
outcome none = err (sdo_error SdoErrorType.response_timeout)
outcome (some r) = ok r

-- What a call answers, by the SDO responses of its node: those in time and those after that.
unfoldable pub exchange : List Message → List Message → Result SdoResponse
exchange in_time late = elim (settle none in_time) [
  | err e ↦ err e
  | ok o ↦ elim (settle o late) [ err e ↦ err e | ok _ ↦ outcome o ]
]

-- No receiver is registered: the state between two calls.
abbrev pub IsIdle : Bus → Type 0
IsIdle b = (k : ℕ) → b.receivers k ≡ unassigned

Settles-cases :
    {n : ℕ} (a : Result (Option SdoResponse)) (b : Result (ℕ → Receiver))
    → Settles n a b
    → ((o : Option SdoResponse) × (rs : ℕ → Receiver) × (a ≡ ok o) × (b ≡ ok rs) × Waits n o rs)
      ⊎ ((e : Error) × (a ≡ err e) × (b ≡ err e))
Settles-cases (ok o) (ok rs) h = inl (o, rs, refl, refl, h)
Settles-cases (ok o) (err e) h = absurd h
Settles-cases (err e) (ok rs) h = absurd h
Settles-cases (err e) (err e') h = inr (e, refl, ap err (sym h))

settle_error :
    (o : Option SdoResponse) (ms : List Message) {e : Error}
    → settle o ms ≡ err e
    → e ≡ future_error
unfolding settle
settle_error o [] h = cc
settle_error none (m ∷ ms) h = settle_error (some (of_message m)) ms h
settle_error (some r) (m ∷ ms) h = cc

answer_lem : (o : Option SdoResponse) (b : Bus) → answer (waiting o) b ≡ (outcome o, b)
unfolding answer
answer_lem none b = refl
answer_lem (some r) b = refl

abbrev pub bus : List Message → List Window → (ℕ → Receiver) → Bus
bus log ws rs = record { sent = log; windows = ws; receivers = rs }

module _ (log : List Message) (w : Window) (rest : List Window) (rs : ℕ → Receiver) where
  receive_next_ok :
      (part : Window → List Message) {rs' : ℕ → Receiver}
      → receive_all rs (part w) ≡ ok rs'
      → receive_next part (bus log (w ∷ rest) rs) ≡ (ok tt, bus log (w ∷ rest) rs')
  unfolding receive_next
  receive_next_ok part h = rw (h, receive_next)

  receive_next_err :
      (part : Window → List Message) {e : Error}
      → receive_all rs (part w) ≡ err e
      → receive_next part (bus log (w ∷ rest) rs) ≡ (err e, bus log (w ∷ rest) rs)
  unfolding receive_next
  receive_next_err part h = rw (h, receive_next)

module _ (log : List Message) (w : Window) (rest : List Window) (rs : ℕ → Receiver)
    (command n index subindex : ℕ) (bytes : List ℕ) (idle : (k : ℕ) → rs k ≡ unassigned) where
  registered : Waits n none (update rs n (waiting none))
  registered = record { here = ground arith; elsewhere = λ k h. ground (arith, idle k) }

  abbrev with_request : List Message
  with_request = log ++ (request command n index subindex bytes ∷ [])

  abbrev Ends : Result SdoResponse × Bus → Type 0
  Ends (r, b') =
      (r ≡ exchange (responses_of n w.in_time) (responses_of n w.late))
      × (b'.sent ≡ with_request)
      × ((r ≡ err future_error) ⊎ (IsIdle b' × (b'.windows ≡ rest)))

  send_sdo_and_wait-Ends :
      Ends (send_sdo_and_wait command n index subindex bytes (bus log (w ∷ rest) rs))
  unfolding send_sdo_and_wait exchange
  send_sdo_and_wait-Ends =
      elim (Settles-cases _ _ (receive_all-settle n w.in_time none _ registered)) [
        | inr (e, p, q) ↦
            rw
              (
                receive_next_err with_request w rest (update rs n (waiting none)) (λ v. v.in_time)
                    q,
                p,
                exchange,
              )
              (refl, refl, inl (ap err (settle_error _ _ p)))
        | inl (o, rs', p, q, ws) ↦
            rw
              (
                receive_next_ok with_request w rest (update rs n (waiting none)) (λ v. v.in_time) q,
                p,
                exchange,
              )
              (elim (Settles-cases _ _ (receive_all-settle n w.late o rs' ws)) [
                | inr (e, p', q') ↦
                    rw (receive_next_err with_request w rest rs' (λ v. v.late) q', p')
                      (refl, refl, inl (ap err (settle_error _ _ p')))
                | inl (o', rs2, p', q', ws') ↦
                    rw
                      (
                        receive_next_ok with_request w rest rs' (λ v. v.late) q',
                        p',
                        ws.here,
                        answer_lem,
                      )
                      (refl, refl, inr ((λ k. ground (arith, ws'.elsewhere k)), refl))
              ])
      ]

  -- The call answers what the node's own SDO responses decide and nothing else that arrives, sends
  -- exactly its request, and leaves no receiver behind unless the process was brought down.
  pub send_sdo_and_wait-exchange :
      let (r, b') = send_sdo_and_wait command n index subindex bytes (bus log (w ∷ rest) rs) in
      (r ≡ exchange (responses_of n w.in_time) (responses_of n w.late))
      × (b'.sent ≡ log ++ (request command n index subindex bytes ∷ []))
      × ((r ≡ err future_error) ⊎ (IsIdle b' × (b'.windows ≡ rest)))
  send_sdo_and_wait-exchange = send_sdo_and_wait-Ends

-- A node that answers once, and in time: the response comes back and the client is idle again.
pub one_response :
    (log : List Message) (w : Window) (rest : List Window) (rs : ℕ → Receiver)
    (command n index subindex : ℕ) (bytes : List ℕ) (m : Message)
    → ((k : ℕ) → rs k ≡ unassigned)
    → responses_of n w.in_time ≡ m ∷ []
    → responses_of n w.late ≡ []
    → (rs' : ℕ → Receiver) × (send_sdo_and_wait command n index subindex bytes
          (bus log (w ∷ rest) rs)
        ≡ (ok (of_message m), bus (log ++ (request command n index subindex bytes ∷ [])) rest rs'))
      × ((k : ℕ) → rs' k ≡ unassigned)
unfolding exchange settle
one_response log w rest rs command n index subindex bytes m idle hit quiet =
    let (r, b') = send_sdo_and_wait command n index subindex bytes (bus log (w ∷ rest) rs) in
    let (e, s, t) = send_sdo_and_wait-exchange log w rest rs command n index subindex bytes idle in
    let answered : r ≡ ok (of_message m) = e ∙ rw (hit, quiet, exchange) refl in
    elim t [
      | inl bad ↦ cc (sym answered, bad)
      | inr (idle', ws) ↦ (b'.receivers, (λ i. (answered i, bus (s i) (ws i) b'.receivers)), idle')
    ]

not_addressed : (n : ℕ) (m : Message) (t : Target) → 128 ≤ n → is_response n t m ≡ false
not_addressed n m sdo h = ground (arith, get_node_id-lt m)
not_addressed n m _ h = refl

no_responses : (n : ℕ) (ms : List Message) → 128 ≤ n → responses_of n ms ≡ []
unfolding responses_of
no_responses n [] h = refl
no_responses n (m ∷ ms) h = rw (not_addressed n m (target m) h) (no_responses n ms h)

-- A node ID above 127 gets no answer, whatever arrives: responses carry seven bits of it.
pub send_sdo_and_wait_unreachable :
    (log : List Message) (w : Window) (rest : List Window) (rs : ℕ → Receiver)
    (command n index subindex : ℕ) (bytes : List ℕ)
    → ((k : ℕ) → rs k ≡ unassigned)
    → 128 ≤ n
    → (send_sdo_and_wait command n index subindex bytes (bus log (w ∷ rest) rs)).0
      ≡ err (sdo_error SdoErrorType.response_timeout)
unfolding exchange settle
send_sdo_and_wait_unreachable log w rest rs command n index subindex bytes idle h =
    (send_sdo_and_wait-exchange log w rest rs command n index subindex bytes idle).0
    ∙ rw (no_responses n w.in_time h, no_responses n w.late h, exchange) refl
