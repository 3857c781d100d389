-- ===== src/Core/Routing.antt =====
-- The switch of `Core::received_message`.
use kacanopen.Prelude.{
  ℕ, ◌+◌, ◌*◌, ◌<◌, ◌≡◌, refl, ◌||◌, List, [], ◌∷◌, arith, ◌==◌, if◌then◌else◌, All,
}
use kacanopen.Message.{Message, get_function_code}
use kacanopen.Message.Laws.{get_function_code_lem}

-- Who handles the message. `ignored` is each branch that only logs.
pub data Target : Type 0 where
  pdo sdo nmt ignored : Target

unfoldable pub target_of_code : ℕ → Target
target_of_code f =
    if f == 0 || (f == 1 || f == 2)
    then ignored
    else if f == 3 || (f == 5 || (f == 7 || f == 9))
    then pdo
    else if f == 4 || (f == 6 || (f == 8 || f == 10))
    then ignored
    else if f == 11
    then sdo
    else if f == 12
    then ignored
    else if f == 14
    then nmt
    else ignored

unfoldable pub target : Message → Target
target m = target_of_code (get_function_code m)

-- The predefined connection set of CiA 301: the base of each COB-ID, and who is to have it.
unfoldable pub connection_set : List (ℕ × Target)
connection_set =
    (0x180, pdo)
    ∷ (0x280, pdo)
    ∷ (0x380, pdo)
    ∷ (0x480, pdo)
    ∷ (0x580, sdo)
    ∷ (0x700, nmt)
    ∷ (0x000, ignored)
    ∷ (0x080, ignored)
    ∷ (0x100, ignored)
    ∷ (0x200, ignored)
    ∷ (0x300, ignored)
    ∷ (0x400, ignored)
    ∷ (0x500, ignored)
    ∷ (0x600, ignored)
    ∷ []

pub target_at :
    (m : Message) (f n : ℕ) {t : Target}
    → n < 128
    → f < 256
    → m.cob_id ≡ f * 128 + n
    → target_of_code f ≡ t
    → target m ≡ t
unfolding target
target_at m f n h k e p = rw (get_function_code_lem m f n h k e) p

-- For every node ID up to 127 each service of the predefined connection set goes where it belongs:
-- transmit PDOs to the PDO component, SDO responses to the SDO client, error control to the NMT
-- master; NMT commands, SYNC and emergencies, time stamps, receive PDOs and SDO requests are ignored.
pub target-connection_set :
    (m : Message) (n : ℕ)
    → n < 128
    → All (λ (b : ℕ × Target). target (record m { cob_id = b.0 + n }) ≡ b.1) connection_set
unfolding connection_set target_of_code
target-connection_set m n h = (
  target_at _ 3 n h (omega arith) (omega arith) refl,
  (
    target_at _ 5 n h (omega arith) (omega arith) refl,
    (
      target_at _ 7 n h (omega arith) (omega arith) refl,
      (
        target_at _ 9 n h (omega arith) (omega arith) refl,
        (
          target_at _ 11 n h (omega arith) (omega arith) refl,
          (
            target_at _ 14 n h (omega arith) (omega arith) refl,
            (
              target_at _ 0 n h (omega arith) (omega arith) refl,
              (
                target_at _ 1 n h (omega arith) (omega arith) refl,
                (
                  target_at _ 2 n h (omega arith) (omega arith) refl,
                  (
                    target_at _ 4 n h (omega arith) (omega arith) refl,
                    (
                      target_at _ 6 n h (omega arith) (omega arith) refl,
                      (
                        target_at _ 8 n h (omega arith) (omega arith) refl,
                        (
                          target_at _ 10 n h (omega arith) (omega arith) refl,
                          (target_at _ 12 n h (omega arith) (omega arith) refl, tt),
                        ),
                      ),
                    ),
                  ),
                ),
              ),
            ),
          ),
        ),
      ),
    ),
  ),
)
