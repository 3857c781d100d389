-- ===== src/EdsReader/Naming.antt =====
-- The names that the EDS reader makes are escaped ones.
use kacanopen.Prelude.{
  Option, ◌==◌, ℕ, zero, suc, ◌+◌, ◌/◌, ◌%◌, ◌^◌, ◌<◌, ◌≡◌, refl, sym, ◌∙◌, List, [], ◌∷◌, ◌++◌,
  arith, none, some, length, ltb, leb, ◌&&◌, inl, inr, All-append, Bool-cases, if_both,
}
use kacanopen.Prelude.{Option-cases, codes}
use kacanopen.Dictionary.{NameTable, find_name, escape}
use kacanopen.Dictionary.Names.{Fixed, Fixed-escape, escape-Fixed, character_kept, underscore_kept}
use kacanopen.Utils.{decstr_to_uint}
use kacanopen.EdsReader.{split_last, show_byte, next_name, free_name, is_hex}

-- What stands before the mark is a part of the text.
split_last-Fixed :
    (mark : ℕ) (s before after : List ℕ)
    → split_last mark s ≡ some (before, after)
    → Fixed s
    → Fixed before
unfolding split_last
split_last-Fixed mark [] before after h f = absurd cc
split_last-Fixed mark (c ∷ cs) before after h (p, ps) = elim (Option-cases (split_last mark cs)) [
  | inr ((b, a), inner) ↦
      let whole : ◌≡◌ {A = Option (List ℕ × List ℕ)} (some (c ∷ b, a)) (some (before, after)) =
        sym (rw (inner, split_last) refl) ∙ h in
      let same : c ∷ b ≡ before = cc in rw (sym same) (p, split_last-Fixed mark cs b a inner ps)
  | inl nothing_inside ↦ elim (Bool-cases (c == mark)) [
    | inl here ↦
        let whole : ◌≡◌ {A = Option (List ℕ × List ℕ)} (some ([], cs)) (some (before, after)) =
          sym (rw (nothing_inside, here, split_last) refl) ∙ h in
        let same : [] ≡ before = cc in rw (sym same) tt
    | inr other ↦
        let none_here : ◌≡◌ {A = Option (List ℕ × List ℕ)} none (some (before, after)) =
          sym (rw (nothing_inside, other, split_last) refl) ∙ h in
        absurd cc
  ]
]

digit-Fixed : (n : ℕ) → n < 10 → Fixed ((48 + n) ∷ [])
digit-Fixed n h = (character_kept (48 + n) (omega arith) (omega arith), tt)

show_byte-Fixed : (n : ℕ) → n < 256 → Fixed (show_byte n)
unfolding show_byte
show_byte-Fixed n h = elim (Bool-cases (ltb n 10)) [
  | inl one ↦ rw (one, show_byte) (digit-Fixed n (ground arith))
  | inr more ↦ elim (Bool-cases (ltb n 100)) [
    | inl two ↦
        let small : n < 100 = ground arith in
        rw (more, two, show_byte)
          ((digit-Fixed (n / 10) (omega arith)).0, digit-Fixed (n % 10) (omega arith))
    | inr three ↦
        rw (more, three, show_byte)
          (
            (digit-Fixed (n / 100) (omega arith)).0,
            ((digit-Fixed (n / 10 % 10) (omega arith)).0, digit-Fixed (n % 10) (omega arith)),
          )
  ]
]

next_name-Fixed : (name : List ℕ) → Fixed name → Fixed (next_name name)
unfolding next_name
next_name-Fixed name f =
    let longer = All-append _ name (codes "_1") f (underscore_kept, digit-Fixed 1 (omega arith)) in
    elim (Option-cases (split_last 95 name)) [
      | inl unmarked ↦ rw (unmarked, next_name) longer
      | inr ((before, after), marked) ↦
          let n = (decstr_to_uint after % 2 ^ 8 + 1) % 2 ^ 8 in
          rw (marked, next_name)
            (if_both Fixed (leb 1 (length before) && is_hex 3 after) (before ++ (95 ∷ show_byte n))
              (name ++ codes "_1")
              (All-append _ before (95 ∷ show_byte n)
                (split_last-Fixed 95 name before after marked f)
                (underscore_kept, show_byte-Fixed n (omega arith)))
              longer)
    ]

free_name-Fixed :
    (fuel : ℕ) (name free : List ℕ) (names : NameTable)
    → free_name fuel name names ≡ some free
    → Fixed name
    → Fixed free
unfolding free_name
free_name-Fixed zero name free names h f = absurd cc
free_name-Fixed (suc fuel) name free names h f = elim (Option-cases (find_name name names)) [
  | inl absent ↦
      let found : some name ≡ some free = sym (rw (absent, free_name) refl) ∙ h in
      let same : name ≡ free = cc in rw (sym same) f
  | inr (a, taken) ↦
      free_name-Fixed fuel (next_name name) free names (sym (rw (taken, free_name) refl) ∙ h)
        (next_name-Fixed name f)
]

-- A free name that is made of an escaped one is escaped.
pub free_name-escape :
    (fuel : ℕ) (name free : List ℕ) (names : NameTable)
    → free_name fuel name names ≡ some free
    → escape name ≡ name
    → escape free ≡ free
free_name-escape fuel name free names h f =
    escape-Fixed free (free_name-Fixed fuel name free names h (Fixed-escape name f))

-- The name of a member of an array
pub escape-member :
    (prefix own : List ℕ)
    → escape prefix ≡ prefix
    → escape own ≡ own
    → escape (prefix ++ (47 ∷ own)) ≡ prefix ++ (47 ∷ own)
escape-member prefix own f g = escape-Fixed (prefix ++ (47 ∷ own)) (
    All-append _ prefix (47 ∷ own) (Fixed-escape prefix f)
      (character_kept 47 (omega arith) (omega arith), Fixed-escape own g))
