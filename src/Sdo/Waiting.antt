-- ===== src/Sdo/Waiting.antt =====
-- How `send_sdo_and_wait` ends: with seven bytes or an error, on every bus.
use kacanopen.Prelude.{
  ◌==◌, if_both, ℕ, ◌≡◌, ◌≢◌, refl, none, some, List, [], ◌∷◌, ◌++◌, arith, length, true,
}
use kacanopen.Error.{Result, ok, err, out_of_fuel}
use kacanopen.Exec.{Exec, continue_with, ◌>>=◌}
use kacanopen.Message.{Message}
use kacanopen.SdoResponse.{SdoResponse, of_message}
use kacanopen.Core.Routing.{Target, sdo, target}
use kacanopen.Sdo.Exchange.{bus}
use kacanopen.Sdo.{
  Bus, Window, Receiver, unassigned, waiting, update, call_receiver, process_incoming_message,
  receive_one, receive_all, receive_next, next_window, set_receiver, request, answer,
  send_sdo_and_wait,
}

-- A call ends with a result that satisfies `P`, or with an error that the program knows.
abbrev pub Ends {ℓ} : {A : Type ℓ} → (A → Type 0) → Result A → Type 0
Ends P (ok a) = P a
Ends P (err e) = e ≢ out_of_fuel

-- A promise holds only what was read from a message: seven bytes.
abbrev pub Seven : Receiver → Type 0
Seven (waiting (some r)) = length r.payload ≡ 7
Seven _ = Unit {0}

abbrev pub IsSeven : SdoResponse → Type 0
IsSeven v = length v.payload ≡ 7

abbrev pub Any : Unit {0} → Type 0
Any _ = Unit {0}

length-of_message : (m : Message) → length (of_message m).payload ≡ 7
unfolding of_message
length-of_message m = refl

module _ (n : ℕ) where
  -- After a message the receiver of `n` holds seven bytes if it did before.
  call-Ends :
      (rs : ℕ → Receiver) (k : ℕ) (r : Receiver) (v : SdoResponse)
      → length v.payload ≡ 7
      → Seven (rs n)
      → Ends (λ rs'. Seven (rs' n)) (call_receiver rs k r v)
  unfolding call_receiver
  call-Ends rs k unassigned v h s = s
  call-Ends rs k (waiting none) v h s = if_both Seven (n == k) (waiting (some v)) (rs n) h s
  call-Ends rs k (waiting (some v')) v h s = λ e. cc

  receive_one-Ends :
      (t : Target) (rs : ℕ → Receiver) (m : Message)
      → Seven (rs n)
      → Ends (λ rs'. Seven (rs' n)) (receive_one t rs m)
  unfolding receive_one process_incoming_message
  receive_one-Ends sdo rs m s =
      call-Ends rs (of_message m).node_id (rs (of_message m).node_id) (of_message m)
        (length-of_message m) s
  receive_one-Ends _ rs m s = s

  abbrev Holds : (ℕ → Receiver) → Type 0
  Holds rs = Seven (rs n)

  receive_all-Ends :
      (rs : ℕ → Receiver) (ms : List Message) → Holds rs → Ends Holds (receive_all rs ms)
  unfolding receive_all
  receive_all-Ends rs [] s = s
  receive_all-Ends rs (m ∷ ms) s =
      go (receive_one (target m) rs m) (receive_one-Ends (target m) rs m s)
        λ rs' s'. receive_all-Ends rs' ms s'
    where
      go :
          (first : Result (ℕ → Receiver))
          → Ends Holds first
          → ((rs' : ℕ → Receiver) → Holds rs' → Ends Holds (receive_all rs' ms))
          → Ends Holds (elim first [ ok rs' ↦ receive_all rs' ms | err e ↦ err e ])
      go (err e) known later = known
      go (ok rs') s' later = later rs' s'

  abbrev pub Outcome {ℓ} : {A : Type ℓ} → (A → Type 0) → Result A × Bus → Type 0
  Outcome P (ok a, b) = P a × Seven (b.receivers n)
  Outcome P (err e, b) = e ≢ out_of_fuel

  pub Outcome-bind :
      {A B : Type 0} (P : A → Type 0) (Q : B → Type 0) (m : Exec Bus A) (f : A → Exec Bus B)
      (b : Bus)
      → Outcome P (m b)
      → ((a : A) (b' : Bus) → P a → Seven (b'.receivers n) → Outcome Q (f a b'))
      → Outcome Q ((m >>= f) b)
  Outcome-bind {A} {B} P Q m f b p k = go (m b) p
    where
      go : (x : Result A × Bus) → Outcome P x → Outcome Q (continue_with x.0 f x.1)
      go (ok a, b') (pa, s) = k a b' pa s
      go (err e, b') h = h

  received-Outcome :
      (log : List Message) (ws : List Window) (r : Result (ℕ → Receiver))
      → Ends (λ rs. Seven (rs n)) r
      → (old : ℕ → Receiver)
      → Outcome
          (λ _. Unit {0})
          (let out : Result (Unit {0}) × Bus = elim r [
            | ok rs ↦ (ok tt, bus log ws rs)
            | err e ↦ (err e, bus log ws old)
          ] in
            out)
  received-Outcome log ws (ok rs) h old = (tt, h)
  received-Outcome log ws (err e) h old = h

  receive_next-Outcome :
      (part : Window → List Message) (log : List Message) (ws : List Window) (rs : ℕ → Receiver)
      → Seven (rs n)
      → Outcome (λ _. Unit {0}) (receive_next part (bus log ws rs))
  unfolding receive_next
  receive_next-Outcome part log [] rs s = (tt, s)
  receive_next-Outcome part log (w ∷ ws) rs s =
      received-Outcome log (w ∷ ws) (receive_all rs (part w)) (receive_all-Ends rs (part w) s) rs

  next_window-Outcome :
      (log : List Message) (ws : List Window) (rs : ℕ → Receiver)
      → Seven (rs n)
      → Outcome (λ _. Unit {0}) (next_window (bus log ws rs))
  unfolding next_window
  next_window-Outcome log [] rs s = (tt, s)
  next_window-Outcome log (w ∷ ws) rs s = (tt, s)

  answer-Outcome :
      (r : Receiver) (b : Bus)
      → Seven r
      → Seven (b.receivers n)
      → Outcome (λ v. length v.payload ≡ 7) (answer r b)
  unfolding answer
  answer-Outcome unassigned b h s = λ e. cc
  answer-Outcome (waiting none) b h s = λ e. cc
  answer-Outcome (waiting (some v)) b h s = (h, s)

  abbrev pub Keeps : {A : Type 0} → (A → Type 0) → Exec Bus A → Type 0
  Keeps P m = (b : Bus) → Seven (b.receivers n) → Outcome P (m b)

  pub Keeps-bind :
      {A B : Type 0} (P : A → Type 0) (Q : B → Type 0) (m : Exec Bus A) (f : A → Exec Bus B)
      → Keeps P m
      → ((a : A) → P a → Keeps Q (f a))
      → Keeps Q (m >>= f)
  Keeps-bind P Q m f km kf b s = Outcome-bind P Q m f b (km b s) (λ a b' p s'. kf a p b' s')

  finish-Keeps :
      (r : Receiver) → Seven r → Keeps IsSeven (set_receiver n unassigned >>= λ _. answer r)
  unfolding set_receiver
  finish-Keeps r h b s =
      answer-Outcome r _ h (if_both Seven (n == n) unassigned (b.receivers n) tt s)

  rest-Keeps :
      (r : Receiver)
      → Seven r
      → Keeps IsSeven (
          receive_next (λ w. w.late) >>= λ _.
          next_window >>= λ _. set_receiver n unassigned >>= λ _. answer r)
  rest-Keeps r h =
      Keeps-bind Any IsSeven (receive_next (λ w. w.late))
        (λ _. next_window >>= λ _. set_receiver n unassigned >>= λ _. answer r)
        (λ b. receive_next-Outcome (λ w. w.late) b.sent b.windows b.receivers)
        λ _ _.
          Keeps-bind Any IsSeven next_window (λ _. set_receiver n unassigned >>= λ _. answer r)
            (λ b. next_window-Outcome b.sent b.windows b.receivers) (λ _ _. finish-Keeps r h)

  -- On every bus a call ends with seven bytes or with an error of the program.
  pub send_sdo_and_wait-Outcome :
      (command index subindex : ℕ) (bytes : List ℕ) (b : Bus)
      → Outcome IsSeven (send_sdo_and_wait command n index subindex bytes b)
  unfolding send_sdo_and_wait
  send_sdo_and_wait-Outcome command index subindex bytes b =
      Outcome-bind Any IsSeven (receive_next (λ w. w.in_time))
        (λ _ b'.
          (receive_next (λ w. w.late) >>= λ _.
          next_window >>= λ _. set_receiver n unassigned >>= λ _. answer (b'.receivers n))
            b')
        (record b {
          sent = b.sent ++ (request command n index subindex bytes ∷ []);
          receivers = update b.receivers n (waiting none);
        })
        (receive_next-Outcome (λ w. w.in_time)
          (b.sent ++ (request command n index subindex bytes ∷ [])) b.windows
          (update b.receivers n (waiting none))
          (let same : (n == n) ≡ true = ground arith in rw same tt))
        (λ _ b' _ s. rest-Keeps (b'.receivers n) s b' s)
