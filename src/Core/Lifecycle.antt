-- ===== src/Core/Lifecycle.antt =====
-- Starting and stopping the core (`Core::start` and `Core::stop` of src/core/core.cpp). The driver is
-- a parameter: whether it opens, and with which handle, and whether it sends a message.
use kacanopen.Prelude.{
  ◌==◌, ℕ, ◌+◌, ◌/◌, ◌%◌, List, [], ◌∷◌, ◌++◌, Option, none, some, leb, if◌then◌else◌, Bool, true,
  false, ◌&&◌,
}
use kacanopen.Prelude.{codes}
use kacanopen.Error.{ok, err, assertion}
use kacanopen.Exec.{Exec}
use kacanopen.Message.{Message}
use kacanopen.Utils.{show_digits}

-- The members that these methods change, the handles that have been closed, and the receive threads
-- that have been started
pub record Lifecycle : Type 0 where
  pub running : Bool
  pub handle : Option ℕ
  pub loops : ℕ
  pub sent : List Message
  pub closed : List ℕ

pub dummy_message : Message
dummy_message = record {
  cob_id = 0x700 + 6;
  rtr = 1;
  len = 0;
  payload = 0 ∷ 0 ∷ 0 ∷ 0 ∷ 0 ∷ 0 ∷ 0 ∷ 0 ∷ [];
}

-- The argument of `start` with a number, as the text of the other overload
pub baudrate_text : ℕ → List ℕ
baudrate_text baudrate =
    if leb 1000000 baudrate && (baudrate % 1000000 == 0)
    then show_digits 10 (baudrate / 1000000) ++ codes "M"
    else if leb 1000 baudrate && (baudrate % 1000 == 0)
    then show_digits 10 (baudrate / 1000) ++ codes "K"
    else show_digits 10 baudrate

module _ (open_driver : List ℕ → List ℕ → Option ℕ) (send_driver : Message → Bool) where
  -- `start(busname, baudrate)` with the baud rate as a text
  pub start_core : List ℕ → List ℕ → Exec Lifecycle Bool
  start_core busname baudrate c = elim c.running [
    | true ↦ (err assertion, c)
    | false ↦ elim (open_driver busname baudrate) [
      | none ↦ (ok false, record c { handle = none })
      | some h ↦
          let c' = record c { handle = some h; sent = c.sent ++ (dummy_message ∷ []) } in
          elim (send_driver dummy_message) [
            | false ↦ (ok false, c')
            | true ↦ (ok true, record c' { running = true; loops = c.loops + 1 })
          ]
    ]
  ]

  pub start_core_at : List ℕ → ℕ → Exec Lifecycle Bool
  start_core_at busname baudrate c = start_core busname (baudrate_text baudrate) c

pub stop_core : Exec Lifecycle (Unit {0})
stop_core c = elim c.running [
  | false ↦ (err assertion, c)
  | true ↦ elim c.handle [
    | none ↦ (ok tt, record c { running = false })
    | some h ↦ (ok tt, record c { running = false; closed = c.closed ++ (h ∷ []) })
  ]
]
