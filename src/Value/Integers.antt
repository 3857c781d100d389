-- ===== src/Value/Integers.antt =====
-- Integers, and how a machine word of `w` bits stands for one in two's complement.
use native.Mathlib.Nat.{mod-eq_of_lt, mod-lt, pow-suc}
use kacanopen.Prelude.{
  ℕ, zero, suc, ◌-◌, ◌*◌, ◌%◌, ◌^◌, ◌<◌, ◌≡◌, refl, ap, arith, ltb, if◌then◌else◌, true, false, inl,
  inr, Bool-cases,
}

pub data ℤ : Type 0 where
  pos negsuc : ℕ → ℤ

-- The word for an integer. `negsuc n` is `- n - 1`.
unfoldable pub pattern : ℕ → ℤ → ℕ
pattern w (pos n) = n % 2 ^ w
pattern w (negsuc n) = 2 ^ w - 1 - n % 2 ^ w

-- The integer for a word: negative if its top bit is set
unfoldable pub signed : ℕ → ℕ → ℤ
signed w n =
    let word = n % 2 ^ w in if ltb (word * 2) (2 ^ w) then pos word else negsuc (2 ^ w - 1 - word)

-- The integers that fit `w` bits
abbrev pub Fits : ℕ → ℤ → Type 0
Fits w (pos n) = n * 2 < 2 ^ w
Fits w (negsuc n) = n * 2 < 2 ^ w

pub pattern-signed : (w n : ℕ) → n < 2 ^ w → pattern w (signed w n) ≡ n
unfolding signed
pattern-signed w n h =
    let small : n % 2 ^ w ≡ n = mod-eq_of_lt h in
    elim (Bool-cases (ltb (n * 2) (2 ^ w))) [
      | inl low ↦ rw (small, low) (unfold pattern in small)
      | inr high ↦
          let fits : (2 ^ w - 1 - n) % 2 ^ w ≡ 2 ^ w - 1 - n = mod-eq_of_lt (omega arith) in
          rw (small, high) (unfold pattern in omega (arith, fits))
    ]

pub signed-pattern : (w half : ℕ) (z : ℤ) → 2 ^ w ≡ half * 2 → Fits w z → signed w (pattern w z) ≡ z
unfolding pattern signed
signed-pattern w half (pos n) even h =
    let small : n % 2 ^ w ≡ n = mod-eq_of_lt (omega arith) in
    let low : ltb (n * 2) (2 ^ w) ≡ true = ground arith in rw (small, small, low) refl
signed-pattern w half (negsuc n) even h =
    let small : n % 2 ^ w ≡ n = mod-eq_of_lt (omega arith) in
    let word : (2 ^ w - 1 - n) % 2 ^ w ≡ 2 ^ w - 1 - n = mod-eq_of_lt (omega arith) in
    let high : ltb ((2 ^ w - 1 - n) * 2) (2 ^ w) ≡ false = ground arith in
    let back : 2 ^ w - 1 - (2 ^ w - 1 - n) ≡ n = omega arith in
    rw (small, word, high) (ap negsuc back)

pow_positive : (w : ℕ) → 0 < 2 ^ w
pow_positive zero = omega arith
pow_positive (suc w) = omega (arith, pow-suc 2 w, pow_positive w)

pub pattern-lt : (w : ℕ) (z : ℤ) → pattern w z < 2 ^ w
unfolding pattern
pattern-lt w (pos n) = mod-lt n (pow_positive w)
pattern-lt w (negsuc n) = omega (arith, pow_positive w)
