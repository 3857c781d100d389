-- ===== src/Prelude/Bits.antt =====
-- Facts about masks: `&`, `|` and `^` from their recursion on binary digits, and tables over a byte.
use Prim.Native.Nat.{ℕ, zero, suc, ◌+◌, ◌*◌, ◌/◌, ◌%◌, ◌^◌, ◌≤◌, ◌<◌, min, max}
use Prim.Native.Nat.{bit_and, bit_or, bit_xor, bit_and-bitwise, bit_or-bitwise, bit_xor-bitwise}
use Prim.Native.Nat.{digits, bitwise, differ}
use mathlib.Core.Path.{◌≡◌, refl, ap, ap₂, ◌∙◌}
use mathlib.Core.Bool.{Bool, true, ◌&&◌}
use native.Mathlib.Omega.{arith}
use native.Mathlib.Nat.{pow-suc, le_refl}
use kacanopen.Prelude.Tests.{◌==◌, ==_iff}

-- What is left of the fuel when the digits run out does not matter.
module _ (low : ℕ → ℕ) (digit : ℕ → ℕ → ℕ) where
  spare_fuel :
      (x y : ℕ) {least most : ℕ}
      → x ≤ least
      → least ≤ most
      → digits low digit most x y ≡ digits low digit least x y
  spare_fuel zero y {least = zero} {most = zero} _ _ = refl
  spare_fuel zero y {least = zero} {most = suc most} _ _ = refl
  spare_fuel zero y {least = suc least} {most = suc most} _ _ = refl
  spare_fuel (suc x) y {least = suc least} {most = suc most} within more =
      let rest : suc x / 2 ≤ least = omega arith in
      let fewer : least ≤ most = omega arith in rw (spare_fuel (suc x / 2) (y / 2) rest fewer)
  spare_fuel (suc x) y {least = zero} within more = absurd (omega arith)
  spare_fuel x y {least = suc least} {most = zero} within more = absurd (omega arith)

  bitwise-suc :
      (x y : ℕ)
      → bitwise low digit (suc x) y
        ≡ bitwise low digit (suc x / 2) (y / 2) * 2 + digit (suc x % 2) (y % 2)
  bitwise-suc x y =
      let half : suc x / 2 ≤ x = omega arith in
      omega (arith, spare_fuel (suc x / 2) (y / 2) (le_refl _) half)

-- An operation that works digit by digit.
abbrev pub Bitwise : (ℕ → ℕ → ℕ) → (ℕ → ℕ → ℕ) → Type 0
Bitwise op f = (a b : ℕ) → op a b ≡ op (a / 2) (b / 2) * 2 + f (a % 2) (b % 2)

pub bit_and-Bitwise : Bitwise bit_and min
bit_and-Bitwise zero b = simp bit_and-bitwise (omega arith)
bit_and-Bitwise (suc a) b = simp bit_and-bitwise (bitwise-suc (λ y. 0) min a b)

pub bit_or-Bitwise : Bitwise bit_or max
bit_or-Bitwise zero b = simp bit_or-bitwise (omega arith)
bit_or-Bitwise (suc a) b = simp bit_or-bitwise (bitwise-suc (λ y. y) max a b)

pub bit_xor-Bitwise : Bitwise bit_xor differ
bit_xor-Bitwise zero b = simp bit_xor-bitwise (omega arith)
bit_xor-Bitwise (suc a) b = simp bit_xor-bitwise (bitwise-suc (λ y. y) differ a b)

module _ (op : ℕ → ℕ → ℕ) (f : ℕ → ℕ → ℕ) (step : Bitwise op f) where
  double_pow : (q k : ℕ) → q * 2 ^ suc k ≡ q * 2 ^ k * 2
  double_pow q k = omega (arith, ap (λ (t : ℕ). q * t) (pow-suc 2 k))

  -- The operation on a high and a low part, `k` bits wide, each by itself.
  fields :
      (k q r s t : ℕ)
      → r < 2 ^ k
      → t < 2 ^ k
      → op (q * 2 ^ k + r) (s * 2 ^ k + t) ≡ op q s * 2 ^ k + op r t
  fields zero q r s t hr ht =
      let er : r ≡ 0 = omega arith in
      let et : t ≡ 0 = omega arith in
      let here : op 0 0 ≡ 0 = omega (arith, step 0 0) in
      rw (er, et)
        (ap₂ op {x = q * 1 + 0} {y = q} {u = s * 1 + 0} {v = s} (omega arith) (omega arith)
          ∙ omega (arith, here))
  fields (suc k) q r s t hr ht =
      step (q * 2 ^ suc k + r) (s * 2 ^ suc k + t)
      ∙ ground (
        arith,
        halves q r,
        halves s t,
        fields k q (r / 2) s (t / 2) (omega (arith, pow-suc 2 k)) (omega (arith, pow-suc 2 k)),
        step r t,
        double_pow (op q s) k,
      )
    where
      halves :
          (a b : ℕ)
          → ((a * 2 ^ suc k + b) / 2 ≡ a * 2 ^ k + b / 2) × ((a * 2 ^ suc k + b) % 2 ≡ b % 2)
      halves a b = (omega (arith, double_pow a k), omega (arith, double_pow a k))

-- Over a small range every value is checked by evaluation.
unfoldable pub all_below : ℕ → (ℕ → Bool) → Bool
all_below zero test = true
all_below (suc bound) test = all_below bound test && test bound

pub agree_below :
    (bound : ℕ) (f g : ℕ → ℕ) (x : ℕ)
    → all_below bound (λ y. f y == g y) ≡ true
    → x < bound
    → f x ≡ g x
unfolding all_below
agree_below bound f g x passed small = (==_iff (f x) (g x)).0 (at bound passed small)
  where
    at : (k : ℕ) → all_below k (λ y. f y == g y) ≡ true → x < k → (f x == g x) ≡ true
    at zero passed small = absurd (omega arith)
    at (suc k) passed small = ground (arith, at k)

and-zero_fuel : (n a : ℕ) → a ≤ n → bit_and a 0 ≡ 0
and-zero_fuel n zero h = refl
and-zero_fuel zero (suc a) h = absurd (omega arith)
and-zero_fuel (suc n) (suc a) h =
    omega (arith, bit_and-Bitwise (suc a) 0, and-zero_fuel n (suc a / 2) (omega arith))

pub bit_and-zero : (a : ℕ) → bit_and a 0 ≡ 0
bit_and-zero a = and-zero_fuel a a (le_refl a)

pub bit_and-one : (a : ℕ) → bit_and a 1 ≡ a % 2
bit_and-one a = omega (arith, bit_and-Bitwise a 1, bit_and-zero (a / 2))

differ-zero : (a : ℕ) → differ a 0 ≡ a
differ-zero zero = refl
differ-zero (suc a) = refl

xor-zero_fuel : (n a : ℕ) → a ≤ n → bit_xor a 0 ≡ a
xor-zero_fuel n zero h = refl
xor-zero_fuel zero (suc a) h = absurd (omega arith)
xor-zero_fuel (suc n) (suc a) h = omega (
  arith,
  bit_xor-Bitwise (suc a) 0,
  differ-zero (suc a % 2),
  xor-zero_fuel n (suc a / 2) (omega arith),
)

pub bit_xor-zero : (a : ℕ) → bit_xor a 0 ≡ a
bit_xor-zero a = xor-zero_fuel a a (le_refl a)

pub bit_and-fields :
    (k q r s t : ℕ)
    → r < 2 ^ k
    → t < 2 ^ k
    → bit_and (q * 2 ^ k + r) (s * 2 ^ k + t) ≡ bit_and q s * 2 ^ k + bit_and r t
bit_and-fields = fields bit_and min bit_and-Bitwise

pub bit_or-fields :
    (k q r s t : ℕ)
    → r < 2 ^ k
    → t < 2 ^ k
    → bit_or (q * 2 ^ k + r) (s * 2 ^ k + t) ≡ bit_or q s * 2 ^ k + bit_or r t
bit_or-fields = fields bit_or max bit_or-Bitwise

pub bit_xor-fields :
    (k q r s t : ℕ)
    → r < 2 ^ k
    → t < 2 ^ k
    → bit_xor (q * 2 ^ k + r) (s * 2 ^ k + t) ≡ bit_xor q s * 2 ^ k + bit_xor r t
bit_xor-fields = fields bit_xor differ bit_xor-Bitwise

-- `a & 0x7F`, `a & 0xFF` and `a & 0xFFFF` keep the low bits.
pub low7 : (a : ℕ) → bit_and a 0x7F ≡ a % 128
unfolding all_below
low7 a =
    ap (λ (t : ℕ). bit_and t 0x7F) {x = a} {y = a / 128 * 2 ^ 7 + a % 128} (omega arith)
    ∙ omega (
      arith,
      bit_and-fields 7 (a / 128) (a % 128) 0 0x7F (omega arith) (omega arith),
      bit_and-zero (a / 128),
      agree_below 128 (λ y. bit_and y 0x7F) (λ y. y) (a % 128) refl (omega arith),
    )

pub low8 : (a : ℕ) → bit_and a 0xFF ≡ a % 256
unfolding all_below
low8 a =
    ap (λ (t : ℕ). bit_and t 0xFF) {x = a} {y = a / 256 * 2 ^ 8 + a % 256} (omega arith)
    ∙ omega (
      arith,
      bit_and-fields 8 (a / 256) (a % 256) 0 0xFF (omega arith) (omega arith),
      bit_and-zero (a / 256),
      agree_below 256 (λ y. bit_and y 0xFF) (λ y. y) (a % 256) refl (omega arith),
    )

pub low16 : (a : ℕ) → bit_and a 0xFFFF ≡ a % 65536
low16 a =
    ap (λ (t : ℕ). bit_and t 0xFFFF) {x = a} {y = a / 256 * 2 ^ 8 + a % 256} (omega arith)
    ∙ omega (
      arith,
      bit_and-fields 8 (a / 256) (a % 256) 0xFF 0xFF (omega arith) (omega arith),
      low8 (a / 256),
      low8 (a % 256),
    )
