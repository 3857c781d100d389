-- ===== src/Prelude/TopBit.antt =====
-- One bit of a word, set or cleared by `^`, `&` and `|`.
use Prim.Native.Nat.{
  ℕ, zero, suc, ◌+◌, ◌-◌, ◌*◌, ◌/◌, ◌%◌, ◌^◌, ◌≤◌, ◌<◌, bit_and, bit_or, bit_xor, differ,
  bit_and-bitwise, bit_or-bitwise, bit_xor-bitwise,
}
use mathlib.Core.Path.{◌≡◌, refl, ap, ap₂, ◌∙◌}
use native.Mathlib.Omega.{arith}
use native.Mathlib.Nat.{pow-suc}
use kacanopen.Prelude.Bits.{
  all_below, agree_below, bit_and-Bitwise, bit_or-Bitwise, bit_xor-Bitwise, bit_and-fields,
  bit_or-fields, bit_xor-fields, bit_and-zero, bit_xor-zero,
}

differ_small : (a b : ℕ) → a < 2 → b < 2 → differ a b < 2
differ_small zero b ha hb = omega arith
differ_small (suc zero) zero ha hb = omega arith
differ_small (suc zero) (suc zero) ha hb = omega arith
differ_small (suc (suc a)) b ha hb = absurd (omega arith)
differ_small a (suc (suc b)) ha hb = absurd (omega arith)

pub bit_xor-lt : (k x y : ℕ) → x < 2 ^ k → y < 2 ^ k → bit_xor x y < 2 ^ k
bit_xor-lt zero x y hx hy =
    let ex : x ≡ 0 = omega arith in let ey : y ≡ 0 = omega arith in omega (arith, ap₂ bit_xor ex ey)
bit_xor-lt (suc k) x y hx hy =
    let half =
      bit_xor-lt k (x / 2) (y / 2) (omega (arith, pow-suc 2 k)) (omega (arith, pow-suc 2 k)) in
    omega (
      arith,
      pow-suc 2 k,
      half,
      bit_xor-Bitwise x y,
      differ_small (x % 2) (y % 2) (omega arith) (omega arith),
    )

top_on : (q : ℕ) → q < 2 → bit_xor q (bit_and (bit_xor 1 q) 1) ≡ 1
top_on zero h = refl
top_on (suc zero) h = refl
top_on (suc (suc q)) h = absurd (omega arith)

top_off : (q : ℕ) → q < 2 → bit_xor q (bit_and q 1) ≡ 0
top_off zero h = refl
top_off (suc zero) h = refl
top_off (suc (suc q)) h = absurd (omega arith)

-- The bit of weight `2 ^ k`, the top one of `k + 1`, of a number and of a mask
module _ (k q r : ℕ) (small : r < 2 ^ k) where
  mask_top : bit_and (q * 2 ^ k + r) (1 * 2 ^ k + 0) ≡ bit_and q 1 * 2 ^ k + 0
  mask_top =
      bit_and-fields k q r 1 0 small (omega arith)
      ∙ ap (λ (t : ℕ). bit_and q 1 * 2 ^ k + t) (bit_and-zero r)

  xor_top : (p : ℕ) → bit_xor (q * 2 ^ k + r) (p * 2 ^ k + 0) ≡ bit_xor q p * 2 ^ k + r
  xor_top p =
      bit_xor-fields k q r p 0 small (omega arith)
      ∙ ap (λ (t : ℕ). bit_xor q p * 2 ^ k + t) (bit_xor-zero r)

zero_xor : (c : ℕ) → bit_xor 0 c ≡ c
zero_xor c = simp bit_xor-bitwise refl

-- `c ^ ((mask ^ c) & 2 ^ k)` for a mask with the bit set
pub set_top :
    (k q r ones : ℕ)
    → r < 2 ^ k
    → q < 2
    → ones < 2 ^ k
    → bit_xor (q * 2 ^ k + r) (bit_and (bit_xor (1 * 2 ^ k + ones) (q * 2 ^ k + r)) (1 * 2 ^ k + 0))
      ≡ 1 * 2 ^ k + r
set_top k q r ones small bit low =
    let c = q * 2 ^ k + r in
    ap (λ (t : ℕ). bit_xor c (bit_and t (1 * 2 ^ k + 0))) (bit_xor-fields k 1 ones q r low small)
    ∙ ap (bit_xor c) (mask_top k (bit_xor 1 q) (bit_xor ones r) (bit_xor-lt k ones r low small))
    ∙ xor_top k q r small (bit_and (bit_xor 1 q) 1)
    ∙ ap (λ (t : ℕ). t * 2 ^ k + r) (top_on q bit)

-- `c ^ ((0 ^ c) & 2 ^ k)`
pub clear_top :
    (k q r : ℕ)
    → r < 2 ^ k
    → q < 2
    → bit_xor (q * 2 ^ k + r) (bit_and (bit_xor 0 (q * 2 ^ k + r)) (1 * 2 ^ k + 0)) ≡ 0 * 2 ^ k + r
clear_top k q r small bit =
    let c = q * 2 ^ k + r in
    ap (λ (t : ℕ). bit_xor c (bit_and t (1 * 2 ^ k + 0))) (zero_xor c)
    ∙ ap (bit_xor c) (mask_top k q r small)
    ∙ xor_top k q r small (bit_and q 1)
    ∙ ap (λ (t : ℕ). t * 2 ^ k + r) (top_off q bit)

or-zero_fuel : (n a : ℕ) → a ≤ n → bit_or a 0 ≡ a
or-zero_fuel n zero h = simp bit_or-bitwise refl
or-zero_fuel zero (suc a) h = absurd (omega arith)
or-zero_fuel (suc n) (suc a) h =
    omega (arith, bit_or-Bitwise (suc a) 0, or-zero_fuel n (suc a / 2) (omega arith))

-- `|` with `2 ^ k` sets the bit of that weight.
pub bit_or_set :
    (k hi b lo : ℕ)
    → lo < 2 ^ k
    → b < 2
    → bit_or ((hi * 2 + b) * 2 ^ k + lo) (2 ^ k) ≡ (hi * 2 + 1) * 2 ^ k + lo
bit_or_set k hi b lo small bit =
    let one : bit_or (hi * 2 + b) 1 ≡ hi * 2 + 1 = omega (
      arith,
      bit_or-Bitwise (hi * 2 + b) 1,
      ap (λ (t : ℕ). bit_or t 0) {x = (hi * 2 + b) / 2} {y = hi} (omega arith),
      or-zero_fuel hi hi (omega arith),
    ) in
    ap (bit_or ((hi * 2 + b) * 2 ^ k + lo)) {x = 2 ^ k} {y = 1 * 2 ^ k + 0} (omega arith)
    ∙ bit_or-fields k (hi * 2 + b) lo 1 0 small (omega arith)
    ∙ ap₂ (λ (s t : ℕ). s * 2 ^ k + t) one (or-zero_fuel lo lo (omega arith))

-- `&` with `n` ones keeps a number of `n` bits.
pub bit_and_ones : (n a : ℕ) → a < 2 ^ n → bit_and a (2 ^ n - 1) ≡ a
bit_and_ones zero a h = let ea : a ≡ 0 = omega arith in rw ea (simp bit_and-bitwise refl)
bit_and_ones (suc n) a h =
    let full : (2 ^ suc n - 1) / 2 ≡ 2 ^ n - 1 = omega (arith, pow-suc 2 n) in
    omega (
      arith,
      pow-suc 2 n,
      bit_and-Bitwise a (2 ^ suc n - 1),
      ap (bit_and (a / 2)) full,
      bit_and_ones n (a / 2) (omega (arith, pow-suc 2 n)),
    )

-- `&` with the complement of `2 ^ k` in 16 bits clears the bit of that weight.
pub bit_and_clear :
    (k hi b lo : ℕ)
    → k < 16
    → lo < 2 ^ k
    → b < 2
    → hi < 2 ^ (15 - k)
    → bit_and ((hi * 2 + b) * 2 ^ k + lo) (bit_xor 0xFFFF (2 ^ k)) ≡ hi * 2 * 2 ^ k + lo
unfolding all_below
bit_and_clear k hi b lo range small bit high =
    let m = 2 ^ (15 - k) - 1 in
    let mask : bit_xor 0xFFFF (2 ^ k) ≡ m * 2 * 2 ^ k + (2 ^ k - 1) =
      agree_below 16 (λ j. bit_xor 0xFFFF (2 ^ j))
        (λ j. (2 ^ (15 - j) - 1) * 2 * 2 ^ j + (2 ^ j - 1)) k refl range in
    let upper : bit_and (hi * 2 + b) (m * 2) ≡ hi * 2 = omega (
      arith,
      bit_and-Bitwise (hi * 2 + b) (m * 2),
      ap₂ bit_and {x = (hi * 2 + b) / 2} {y = hi} {u = m * 2 / 2} {v = m} (omega arith)
          (omega arith),
      bit_and_ones (15 - k) hi high,
    ) in
    ap (bit_and ((hi * 2 + b) * 2 ^ k + lo)) mask
    ∙ bit_and-fields k (hi * 2 + b) lo (m * 2) (2 ^ k - 1) small (omega (arith, pow_pos k))
    ∙ ap₂ (λ (s t : ℕ). s * 2 ^ k + t) upper (bit_and_ones k lo small)
  where
    pow_pos : (n : ℕ) → 0 < 2 ^ n
    pow_pos zero = omega arith
    pow_pos (suc n) = omega (arith, pow-suc 2 n, pow_pos n)
