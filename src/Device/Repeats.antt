-- ===== src/Device/Repeats.antt =====
-- How often an SDO is tried, and what becomes of its errors.
use kacanopen.Prelude.{
  ℕ, zero, suc, ◌+◌, ◌<◌, ◌≡◌, refl, ap, ◌∙◌, arith, true, false, ◌⊎◌, inl, inr, Bool-cases,
}
use kacanopen.Error.{Error, Result, ok, err, sdo_error, SdoErrorType}
use kacanopen.Exec.{Exec}
use kacanopen.Sdo.{Bus}
use kacanopen.Value.{Value, ValueType}
use kacanopen.Dictionary.{Address}
use kacanopen.Device.{Device}
use kacanopen.Device.Access.{
  is_sdo_error, repeat_attempt, upload_value, download_value, get_entry_via_sdo, set_entry_via_sdo,
}

module _ {A : Type 0} (attempt : Exec Bus A) where
  -- So many attempts in a row end in an SDO error, and lead from one bus to the other.
  pub data Fails : ℕ → Bus → Bus → Type 0 where
    none_yet : (b : Bus) → Fails 0 b b
    fails :
        (n : ℕ) (b b' b'' : Bus) (t : SdoErrorType)
        → attempt b ≡ (err (sdo_error t), b')
        → Fails n b' b''
        → Fails (suc n) b b''

  -- A result that ends the loop
  abbrev pub IsFinal : Result A → Type 0
  IsFinal (ok a) = Unit {0}
  IsFinal (err x) = is_sdo_error x ≡ false

  -- The result of the loop, by how many attempts fail
  abbrev pub Outcome : ℕ → Bus → Result A → Bus → Type 0
  Outcome rounds b r b' =
      (Fails rounds b b' × (r ≡ err (sdo_error SdoErrorType.response_timeout)))
      ⊎ ((n : ℕ) × (n < rounds) × (b'' : Bus) × Fails n b b'' × (attempt b'' ≡ (r, b')) × IsFinal r)

  sdo_error_of : (x : Error) → is_sdo_error x ≡ true → (t : SdoErrorType) × (x ≡ sdo_error t)
  unfolding is_sdo_error
  sdo_error_of (sdo_error t) h = (t, refl)
  sdo_error_of _ h = absurd cc

  pub round :
      (rounds : ℕ) (b : Bus) (p : Result A × Bus)
      → attempt b ≡ p
      → repeat_attempt attempt (suc rounds) b ≡ elim p.0 as (λ x. Result A × Bus) [
        | ok a ↦ (ok a, p.1)
        | err x ↦ elim (is_sdo_error x) as (λ x. Result A × Bus) [
          | true ↦ repeat_attempt attempt rounds p.1
          | false ↦ (err x, p.1)
        ]
      ]
  unfolding repeat_attempt
  round rounds b p e =
      ap
        (λ (q : Result A × Bus). elim q.0 as (λ x. Result A × Bus) [
          | ok a ↦ (ok a, q.1)
          | err x ↦ elim (is_sdo_error x) as (λ x. Result A × Bus) [
            | true ↦ repeat_attempt attempt rounds q.1
            | false ↦ (err x, q.1)
          ]
        ])
        e

  -- One attempt, and then the others
  Outcome-suc :
      (rounds : ℕ) (b b' : Bus) (r : Result A)
      → attempt b ≡ (r, b')
      → (let (s, c) = repeat_attempt attempt rounds b' in Outcome rounds b' s c)
      → let (s, c) = repeat_attempt attempt (suc rounds) b in Outcome (suc rounds) b s c
  Outcome-suc rounds b b' (ok a) e later =
      let run : repeat_attempt attempt (suc rounds) b ≡ (ok a, b') = round rounds b (ok a, b') e in
      rw run (inr (0, omega arith, b, none_yet b, e, tt))
  Outcome-suc rounds b b' (err x) e later = elim (Bool-cases (is_sdo_error x)) [
    | inr final ↦
        let run : repeat_attempt attempt (suc rounds) b ≡ (err x, b') =
          round rounds b (err x, b') e ∙ rw final refl in
        rw run (inr (0, omega arith, b, none_yet b, e, final))
    | inl again ↦
        let (t, same) = sdo_error_of x again in
        let failed : attempt b ≡ (err (sdo_error t), b') =
          e ∙ ap (λ (y : Error). (err y, b')) same in
        let run : repeat_attempt attempt (suc rounds) b ≡ repeat_attempt attempt rounds b' =
          round rounds b (err x, b') e ∙ rw again refl in
        rw run (elim later [
          | inl (all, r) ↦ inl (fails rounds b b' _ t failed all, r)
          | inr (n, lt, c, some_fail, ends, final) ↦
              inr (suc n, omega arith, c, fails n b b' c t failed some_fail, ends, final)
        ])
  ]

  pub repeat_attempt-Outcome :
      (rounds : ℕ) (b : Bus)
      → let (r, b') = repeat_attempt attempt rounds b in Outcome rounds b r b'
  unfolding repeat_attempt
  repeat_attempt-Outcome zero b = inl (none_yet b, refl)
  repeat_attempt-Outcome (suc rounds) b =
      Outcome-suc rounds b (attempt b).1 (attempt b).0 refl
        (repeat_attempt-Outcome rounds (attempt b).1)

-- Reading over SDO tries until an attempt does not end in an SDO error, one time more than the
-- setting says at most. The result is that of the last attempt, or a response timeout if each ended
-- in an SDO error, whatever these errors were; nothing but the bus changes.
pub get_entry_via_sdo_lem :
    (a : Address) (t : ValueType) (d : Device)
    → let (r, d') = get_entry_via_sdo a t d in
      Outcome (upload_value d.node_id a t) (d.repeats_on_sdo_timeout + 1) d.bus r d'.bus
      × (d' ≡ record d { bus = d'.bus })
unfolding get_entry_via_sdo
get_entry_via_sdo_lem a t d =
    (repeat_attempt-Outcome (upload_value d.node_id a t) (d.repeats_on_sdo_timeout + 1) d.bus, refl)

-- Writing over SDO tries in the same way.
pub set_entry_via_sdo_lem :
    (a : Address) (v : Value) (d : Device)
    → let (r, d') = set_entry_via_sdo a v d in
      Outcome (download_value d.node_id a v) (d.repeats_on_sdo_timeout + 1) d.bus r d'.bus
      × (d' ≡ record d { bus = d'.bus })
unfolding set_entry_via_sdo
set_entry_via_sdo_lem a v d = (
  repeat_attempt-Outcome (download_value d.node_id a v) (d.repeats_on_sdo_timeout + 1) d.bus,
  refl,
)
