-- ===== src/Value/Bytes.antt =====
-- Values and their bytes.
use kacanopen.Value.Integers.{pattern-lt, signed, signed-pattern, ℤ, Fits, pattern}
use kacanopen.Prelude.{
  ℕ, ◌/◌, ◌%◌, ◌^◌, ◌<◌, ◌≡◌, refl, ap, ◌∙◌, low8, List, [], ◌∷◌, arith, length, true, false, ◌⊎◌,
  inl, inr,
}
use kacanopen.Prelude.{low8}
use kacanopen.Error.{ok}
use kacanopen.Value.{
  Value, of_uint8, of_uint16, of_uint32, of_uint64, of_int8, of_int16, of_int32, of_int64,
  of_real32, of_real64, of_string, of_boolean, of_octet_string, nothing, type_of, get_type_size,
  has_fixed_size, word16, word32, word64, of_bytes, bytes16, bytes32, bytes64, get_bytes,
}

word16-bytes16 : (n : ℕ) → n < 2 ^ 16 → word16 (bytes16 n) ≡ n
unfolding word16 bytes16
word16-bytes16 n h = omega (arith, low8 n, low8 (n / 2 ^ 8))

word32-bytes32 : (n : ℕ) → n < 2 ^ 32 → word32 (bytes32 n) ≡ n
unfolding word32 bytes32
word32-bytes32 n h = omega (arith, low8 n, low8 (n / 2 ^ 8), low8 (n / 2 ^ 16), low8 (n / 2 ^ 24))

word64-bytes64 : (n : ℕ) → n < 2 ^ 64 → word64 (bytes64 n) ≡ n
unfolding word64 bytes64
word64-bytes64 n h = omega (
  arith,
  low8 n,
  low8 (n / 2 ^ 8),
  low8 (n / 2 ^ 16),
  low8 (n / 2 ^ 24),
  low8 (n / 2 ^ 32),
  low8 (n / 2 ^ 40),
  low8 (n / 2 ^ 48),
  low8 (n / 2 ^ 56),
)

unsigned16 : (n : ℕ) → n < 2 ^ 16 → word16 (bytes16 n) % 2 ^ 16 ≡ n
unsigned16 n h = ap (λ (t : ℕ). t % 2 ^ 16) (word16-bytes16 n h) ∙ omega arith

signed16 : (z : ℤ) → Fits 16 z → signed 16 (word16 (bytes16 (pattern 16 z))) ≡ z
signed16 z h =
    ap (signed 16) (word16-bytes16 (pattern 16 z) (pattern-lt 16 z))
    ∙ signed-pattern 16 (2 ^ 15) z refl h

unsigned32 : (n : ℕ) → n < 2 ^ 32 → word32 (bytes32 n) % 2 ^ 32 ≡ n
unsigned32 n h = ap (λ (t : ℕ). t % 2 ^ 32) (word32-bytes32 n h) ∙ omega arith

signed32 : (z : ℤ) → Fits 32 z → signed 32 (word32 (bytes32 (pattern 32 z))) ≡ z
signed32 z h =
    ap (signed 32) (word32-bytes32 (pattern 32 z) (pattern-lt 32 z))
    ∙ signed-pattern 32 (2 ^ 31) z refl h

unsigned64 : (n : ℕ) → n < 2 ^ 64 → word64 (bytes64 n) % 2 ^ 64 ≡ n
unsigned64 n h = ap (λ (t : ℕ). t % 2 ^ 64) (word64-bytes64 n h) ∙ omega arith

signed64 : (z : ℤ) → Fits 64 z → signed 64 (word64 (bytes64 (pattern 64 z))) ≡ z
signed64 z h =
    ap (signed 64) (word64-bytes64 (pattern 64 z) (pattern-lt 64 z))
    ∙ signed-pattern 64 (2 ^ 63) z refl h

-- The values whose field fits its C++ type. Every value but the empty one has a type.
abbrev pub IsStored : Value → Type 0
IsStored (of_uint8 n) = n < 2 ^ 8
IsStored (of_uint16 n) = n < 2 ^ 16
IsStored (of_uint32 n) = n < 2 ^ 32
IsStored (of_uint64 n) = n < 2 ^ 64
IsStored (of_int8 z) = Fits 8 z
IsStored (of_int16 z) = Fits 16 z
IsStored (of_int32 z) = Fits 32 z
IsStored (of_int64 z) = Fits 64 z
IsStored (of_real32 n) = n < 2 ^ 32
IsStored (of_real64 n) = n < 2 ^ 64
IsStored (of_string s) = Unit {0}
IsStored (of_boolean b) = Unit {0}
IsStored (of_octet_string s) = Unit {0}
IsStored nothing = ⊥

-- Every stored value is read back from its bytes, and these are as many as its type says.
pub of_bytes-get_bytes :
    (v : Value)
    → IsStored v
    → (bs : List ℕ) × (get_bytes v ≡ ok bs)
      × (of_bytes (type_of v) bs ≡ ok v)
      × ((has_fixed_size (type_of v) ≡ false) ⊎ (length bs ≡ get_type_size (type_of v)))
unfolding get_bytes of_bytes get_type_size type_of
of_bytes-get_bytes (of_uint8 n) h = (n ∷ [], refl, refl, inr refl)
of_bytes-get_bytes (of_uint16 n) h =
    (bytes16 n, refl, ap (λ (t : ℕ). ok (of_uint16 t)) (unsigned16 n h), inr refl)
of_bytes-get_bytes (of_uint32 n) h =
    (bytes32 n, refl, ap (λ (t : ℕ). ok (of_uint32 t)) (unsigned32 n h), inr refl)
of_bytes-get_bytes (of_uint64 n) h =
    (bytes64 n, refl, ap (λ (t : ℕ). ok (of_uint64 t)) (unsigned64 n h), inr refl)
of_bytes-get_bytes (of_int8 z) h = (
  pattern 8 z ∷ [],
  refl,
  ap (λ (t : ℤ). ok (of_int8 t)) (signed-pattern 8 (2 ^ 7) z refl h),
  inr refl,
)
of_bytes-get_bytes (of_int16 z) h =
    (bytes16 (pattern 16 z), refl, ap (λ (t : ℤ). ok (of_int16 t)) (signed16 z h), inr refl)
of_bytes-get_bytes (of_int32 z) h =
    (bytes32 (pattern 32 z), refl, ap (λ (t : ℤ). ok (of_int32 t)) (signed32 z h), inr refl)
of_bytes-get_bytes (of_int64 z) h =
    (bytes64 (pattern 64 z), refl, ap (λ (t : ℤ). ok (of_int64 t)) (signed64 z h), inr refl)
of_bytes-get_bytes (of_real32 n) h =
    (bytes32 n, refl, ap (λ (t : ℕ). ok (of_real32 t)) (unsigned32 n h), inr refl)
of_bytes-get_bytes (of_real64 n) h =
    (bytes64 n, refl, ap (λ (t : ℕ). ok (of_real64 t)) (unsigned64 n h), inr refl)
of_bytes-get_bytes (of_string s) h = (s, refl, refl, inl refl)
of_bytes-get_bytes (of_boolean true) h = (1 ∷ [], refl, refl, inr refl)
of_bytes-get_bytes (of_boolean false) h = (0 ∷ [], refl, refl, inr refl)
of_bytes-get_bytes (of_octet_string s) h = (s, refl, refl, inl refl)
of_bytes-get_bytes nothing h = absurd h
