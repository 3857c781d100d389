-- ===== src/Dictionary/Names.antt =====
-- Escaping twice is escaping once.
use mathlib.Core.Path.{ap₂}
use kacanopen.Prelude.{ℕ, ◌≡◌, refl, ap, sym, ◌∙◌, List, [], ◌∷◌, map, arith, ◌≤◌, ◌<◌, All}
use kacanopen.Dictionary.{to_lower, replace, escape}

pub escape_character : ℕ → ℕ
escape_character c = replace 45 95 (replace 32 95 (to_lower c))

escape_lem : (s : List ℕ) → escape s ≡ map escape_character s
unfolding escape escape_character
escape_lem [] = refl
escape_lem (c ∷ s) = ap (λ (t : List ℕ). escape_character c ∷ t) (escape_lem s)

escape_character_twice : (c : ℕ) → escape_character (escape_character c) ≡ escape_character c
unfolding escape_character to_lower replace
escape_character_twice c = ground arith

map_twice : (s : List ℕ) → map escape_character (map escape_character s) ≡ map escape_character s
map_twice [] = refl
map_twice (c ∷ s) =
    ap₂ {A = ℕ} {B = List ℕ} (λ x xs. x ∷ xs) (escape_character_twice c) (map_twice s)

-- An escaped name is a fixed point: a lookup may escape a name that is escaped already.
pub escape-escape : (s : List ℕ) → escape (escape s) ≡ escape s
escape-escape s =
    ap escape (escape_lem s)
    ∙ (escape_lem (map escape_character s) ∙ (map_twice s ∙ sym (escape_lem s)))

-- Each character is escaped already.
abbrev pub Fixed : List ℕ → Type 0
Fixed s = All (λ c. escape_character c ≡ c) s

pub character_kept : (c : ℕ) → 46 ≤ c → (c < 65) → escape_character c ≡ c
unfolding escape_character to_lower replace
character_kept c low high = ground arith

pub underscore_kept : escape_character 95 ≡ 95
unfolding escape_character to_lower replace
underscore_kept = refl

Fixed-map : (s : List ℕ) → map escape_character s ≡ s → Fixed s
Fixed-map [] h = tt
Fixed-map (c ∷ s) h =
    let first : escape_character c ≡ c = cc in
    let rest : map escape_character s ≡ s = cc in (first, Fixed-map s rest)

pub Fixed-escape : (s : List ℕ) → escape s ≡ s → Fixed s
Fixed-escape s h = Fixed-map s (sym (escape_lem s) ∙ h)

map-Fixed : (s : List ℕ) → Fixed s → map escape_character s ≡ s
map-Fixed [] f = refl
map-Fixed (c ∷ s) (p, f) = ap₂ {A = ℕ} {B = List ℕ} (λ x xs. x ∷ xs) p (map-Fixed s f)

pub escape-Fixed : (s : List ℕ) → Fixed s → escape s ≡ s
escape-Fixed s f = escape_lem s ∙ map-Fixed s f
