-- ===== src/EdsLibrary/Choice.antt =====
-- The manufacturer's file that is chosen is the first one that fits.
use kacanopen.Prelude.{
  ℕ, ◌≡◌, refl, ap, sym, ◌∙◌, List, [], ◌∷◌, ◌++◌, map, Option, none, some, length, Bool, true,
  false, ◌&&◌, ◌⊎◌, inl, inr, take, All, ◌↔◌, Bool-cases,
}
use kacanopen.Prelude.{Option-cases}
use kacanopen.Error.{ok, err}
use kacanopen.Value.{Value, type_of, nothing, invalid}
use kacanopen.Value.Equality.{bytes_equal}
use kacanopen.Value.Printing.{print_value}
use kacanopen.Entry.{same_type, ReadAccessMethod}
use kacanopen.Entry.Changes.{same_type_lem, bytes_equal_iff}
use kacanopen.Device.{Device}
use kacanopen.Device.Access.{get_entry}
use kacanopen.Profiles.{find_key}
use kacanopen.EdsLibrary.Matching.{EdsFile, Cache, look_up, fits_value, matches_all, find_file}
use kacanopen.EdsLibrary.Fitting.{IsHeld, held_value, get_entry-Reads}

-- An element of the cache has what the device holds; a name that it does not hold has no value.
abbrev Agrees : Device → List ℕ × Value → Type 0
Agrees d (field, v) =
    ((held_value d field ≡ some v) × (same_type (type_of v) invalid ≡ false))
    ⊎ ((held_value d field ≡ none) × (same_type (type_of v) invalid ≡ true))

find_key-All :
    (P : List ℕ × Value → Type 0) (field : List ℕ) (v : Value) (cache : Cache)
    → find_key field cache ≡ some v
    → All P cache
    → P (field, v)
unfolding find_key
find_key-All P field v [] h p = absurd cc
find_key-All P field v ((k, w) ∷ cache) h (p, ps) = elim (Bool-cases (bytes_equal k field)) [
  | inl hit ↦
      let same : w ≡ v = some_injective (sym (rw (hit, find_key) refl) ∙ h) in
      rw (sym ((bytes_equal_iff k field).0 hit), sym same) p
  | inr miss ↦ find_key-All P field v cache (sym (rw (miss, find_key) refl) ∙ h) ps
]
  where
    some_injective : {x y : Value} → some x ≡ some y → x ≡ y
    some_injective p = cc

-- What a look-up answers, with or without the cache
look_up_lem :
    (d : Device) (field : List ℕ) (cache : Cache)
    → All IsHeld d.dictionary
    → All (Agrees d) cache
    → (cache' : Cache) × (look_up field cache d ≡ (ok (held_value d field, cache'), d))
      × All (Agrees d) cache'
unfolding look_up type_of
look_up_lem d field cache held agrees = elim (Option-cases (find_key field cache)) [
  | inr (v, known) ↦ elim (find_key-All (Agrees d) field v cache known agrees) [
    | inl (value, real) ↦ (cache, rw (known, value, look_up) (rw real refl), agrees)
    | inr (absent, unreal) ↦ (cache, rw (known, absent, look_up) (rw unreal refl), agrees)
  ]
  | inl unknown ↦
      let read = get_entry field ReadAccessMethod.use_default in
      elim (get_entry-Reads d field held) [
        | inl (v, run, real) ↦
            let answer : (read d).0 ≡ ok v = ap (λ p. p.0) run in
            let kept : (read d).1 ≡ d = ap (λ p. p.1) run in
            (
              (field, v) ∷ cache,
              rw (unknown, answer, kept, look_up, held_value) refl,
              (inl (rw (answer, held_value) refl, real), agrees),
            )
        | inr (x, run, caught) ↦
            let answer : (read d).0 ≡ err x = ap (λ p. p.0) run in
            let kept : (read d).1 ≡ d = ap (λ p. p.1) run in
            (
              (field, nothing) ∷ cache,
              rw (unknown, answer, caught, kept, look_up, held_value) refl,
              (
                inr (rw (answer, held_value) refl, same_type_lem (type_of nothing) invalid refl),
                agrees,
              ),
            )
      ]
]

-- A well-formed element of the JSON file
abbrev pub element : List ℕ × List (List ℕ × List ℕ) → EdsFile
element (name, fields) = record { file = some name; matches = some fields }

module _ (show_real32 show_real64 : ℕ → List ℕ) where
  -- The device holds a value under the name, and its text starts with the one expected.
  abbrev pub FitsField : Device → List ℕ × List ℕ → Type 0
  FitsField d (field, expected) =
      (v : Value) × (held_value d field ≡ some v)
      × (take (length expected) (print_value show_real32 show_real64 v) ≡ expected)

  -- Whether each field fits
  abbrev fits_all : Device → List (List ℕ × List ℕ) → Bool
  fits_all d [] = true
  fits_all d ((field, expected) ∷ fields) =
      fits_value show_real32 show_real64 expected (held_value d field) && fits_all d fields

  matches_all_lem :
      (d : Device) (fields : List (List ℕ × List ℕ)) (cache : Cache)
      → All IsHeld d.dictionary
      → All (Agrees d) cache
      → (cache' : Cache) × (matches_all show_real32 show_real64 fields cache d
          ≡ (ok (fits_all d fields, cache'), d))
        × All (Agrees d) cache'
  unfolding matches_all
  matches_all_lem d [] cache held agrees = (cache, refl, agrees)
  matches_all_lem d ((field, expected) ∷ fields) cache held agrees =
      let (cache1, run, agrees1) = look_up_lem d field cache held agrees in
      let answer : (look_up field cache d).0 ≡ ok (held_value d field, cache1) =
        ap (λ p. p.0) run in
      let kept : (look_up field cache d).1 ≡ d = ap (λ p. p.1) run in
      elim (Bool-cases (fits_value show_real32 show_real64 expected (held_value d field))) [
        | inr misses ↦ (cache1, rw (answer, misses, kept, matches_all) refl, agrees1)
        | inl fits ↦
            let (cache2, rest, agrees2) = matches_all_lem d fields cache1 held agrees1 in
            (cache2, rw (answer, fits, kept, matches_all) rest, agrees2)
      ]

  fits_value_iff :
      (expected : List ℕ) (o : Option Value)
      → (fits_value show_real32 show_real64 expected o ≡ true) ↔ (
          (v : Value) × (o ≡ some v)
          × (take (length expected) (print_value show_real32 show_real64 v) ≡ expected))
  unfolding fits_value
  fits_value_iff expected none = (λ h. absurd cc, λ (v, e, _). absurd cc)
  fits_value_iff expected (some v) =
      let text = print_value show_real32 show_real64 in
      (
        λ h. (v, refl, sym ((bytes_equal_iff expected (take (length expected) (text v))).0 h)),
        λ (w, e, starts).
            let same : v ≡ w = cc in
            (bytes_equal_iff expected (take (length expected) (text v))).1
              (sym (ap (λ u. take (length expected) (text u)) same ∙ starts)),
      )

  fits_all_iff :
      (d : Device) (fields : List (List ℕ × List ℕ))
      → (fits_all d fields ≡ true) ↔ All (FitsField d) fields
  fits_all_iff d [] = (λ h. tt, λ h. refl)
  fits_all_iff d ((field, expected) ∷ fields) =
      let (there, back) = fits_value_iff expected (held_value d field) in
      let (rest, rest_back) = fits_all_iff d fields in
      elim (Bool-cases (fits_value show_real32 show_real64 expected (held_value d field))) [
        | inr misses ↦ (
          λ h. absurd (true≢false (sym h ∙ rw misses refl)),
          λ (p, ps). absurd (true≢false (sym (back p) ∙ misses)),
        )
        | inl fits ↦
            (λ h. (there fits, rest (sym (rw fits refl) ∙ h)), λ (p, ps). rw fits (rest_back ps))
      ]
    where
      true≢false : true ≡ false → ⊥
      true≢false p = cc

  -- The first of the files whose fields all fit, or none if no file's do
  abbrev pub IsFirstFitting :
      Device → List (List ℕ × List (List ℕ × List ℕ)) → Option (List ℕ) → Type 0
  IsFirstFitting d files none = All (λ p. ¬ (All (FitsField d) p.1)) files
  IsFirstFitting d files (some name) =
      (before : List (List ℕ × List (List ℕ × List ℕ))) × (after : List
        (List ℕ × List (List ℕ × List ℕ)))
      × (fields : List (List ℕ × List ℕ)) × (files ≡ before ++ ((name, fields) ∷ after))
      × All (λ p. ¬ (All (FitsField d) p.1)) before
      × All (FitsField d) fields

  skip_file :
      (d : Device) (f : List ℕ × List (List ℕ × List ℕ))
      (files : List (List ℕ × List (List ℕ × List ℕ))) (o : Option (List ℕ))
      → ¬ (All (FitsField d) f.1)
      → IsFirstFitting d files o
      → IsFirstFitting d (f ∷ files) o
  skip_file d f files none misses first = (misses, first)
  skip_file d f files (some name) misses (before, after, fields, split, none_before, fits) =
      (f ∷ before, after, fields, ap (λ fs. f ∷ fs) split, (misses, none_before), fits)

  find_file_cached :
      (d : Device) (files : List (List ℕ × List (List ℕ × List ℕ))) (cache : Cache)
      → All IsHeld d.dictionary
      → All (Agrees d) cache
      → (o : Option (List ℕ)) × (find_file show_real32 show_real64 (map element files) cache d
          ≡ (ok o, d))
        × IsFirstFitting d files o
  unfolding find_file
  find_file_cached d [] cache held agrees = (none, refl, tt)
  find_file_cached d ((name, fields) ∷ files) cache held agrees =
      let (cache1, run, agrees1) = matches_all_lem d fields cache held agrees in
      let search = matches_all show_real32 show_real64 fields cache in
      let answer : (search d).0 ≡ ok (fits_all d fields, cache1) = ap (λ p. p.0) run in
      let kept : (search d).1 ≡ d = ap (λ p. p.1) run in
      elim (Bool-cases (fits_all d fields)) [
        | inl fits ↦ (
          some name,
          rw (answer, fits, kept, find_file) refl,
          ([], files, fields, refl, tt, (fits_all_iff d fields).0 fits),
        )
        | inr misses ↦
            let (o, rest, first) = find_file_cached d files cache1 held agrees1 in
            let unfit : ¬ (All (FitsField d) fields) =
              λ all. absurd (true≢false (sym ((fits_all_iff d fields).1 all) ∙ misses)) in
            (
              o,
              rw (answer, misses, kept, find_file) rest,
              skip_file d (name, fields) files o unfit first,
            )
      ]
    where
      true≢false : true ≡ false → ⊥
      true≢false p = cc

  -- On a device whose entries are read from the cache (each is without a value, or has one of a
  -- proper type), the search of a well-formed file list finds the first file of which every field
  -- names an entry with a value whose text starts with the one that is expected, and none if there is
  -- no such file; it changes nothing in the device, and no value that it keeps from one file to the
  -- next changes what is found.
  pub find_file_lem :
      (d : Device) (files : List (List ℕ × List (List ℕ × List ℕ)))
      → All IsHeld d.dictionary
      → (o : Option (List ℕ)) × (find_file show_real32 show_real64 (map element files) [] d
          ≡ (ok o, d))
        × IsFirstFitting d files o
  find_file_lem d files held = find_file_cached d files [] held tt
