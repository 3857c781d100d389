-- ===== src/Transmit/Check.antt =====
-- What `check_correctness` finds out about the bytes of the mapped entries.
use kacanopen.Prelude.{
  ℕ, zero, suc, ◌+◌, ◌≤◌, ◌≡◌, refl, ap, sym, ◌∙◌, List, ◌∷◌, get_or-set, length-set, arith, some,
  length, ltb, leb, Bool, true, false, ◌||◌, ◌&&◌, ◌⊎◌, inl, inr, get_or, set, Bool-cases,
}
use kacanopen.Error.{Error, Result, ok, err, dictionary_error, DictionaryErrorType}
use kacanopen.Value.{get_type_size}
use kacanopen.Entry.{Entry}
use kacanopen.Dictionary.{Address, escape, find_name, find_entry}
use kacanopen.Transmit.{Mapping, TransmitPdoMapping, mark_bytes, check_mapping, check_loop}

-- `i` to `i + count - 1`
abbrev pub within : ℕ → ℕ → ℕ → Bool
within i count j = leb i j && ltb j (i + count)

-- Marking succeeds only on bytes that were free, and marks exactly those.
abbrev pub Marks : ℕ → ℕ → List Bool → List Bool → Type 0
Marks i count mapped mapped' =
    (length mapped' ≡ 8)
    × ((j : ℕ)
        → (get_or mapped' j false ≡ (get_or mapped j false || within i count j))
          × (get_or mapped j false && within i count j ≡ false))

pub mark_bytes-Marks :
    (count i : ℕ) (mapped mapped' : List Bool)
    → length mapped ≡ 8
    → i + count ≤ 8
    → mark_bytes count i mapped ≡ ok mapped'
    → Marks i count mapped mapped'
unfolding mark_bytes
mark_bytes-Marks zero i mapped mapped' len room done =
    let same : mapped ≡ mapped' = cc in rw⁻¹ same (len, λ j. (ground arith, ground arith))
mark_bytes-Marks (suc count) i mapped mapped' len room done =
    elim (Bool-cases (get_or mapped i false)) [
      | inl taken ↦ ground arith
      | inr free ↦
          let rest : mark_bytes count (i + 1) (set mapped i true) ≡ ok mapped' = ground arith in
          let (len', marks) =
            mark_bytes-Marks count (i + 1) (set mapped i true) mapped'
              (length-set mapped i true ∙ len) (omega arith) rest in
          let now = λ (j : ℕ). get_or-set mapped i true j false (omega arith) in
          let here = λ (j : ℕ) (e : i ≡ j). ap (λ (k : ℕ). get_or mapped k false) e in
          (
            len',
            λ j. (ground (arith, marks j, now j, here j), ground (arith, marks j, now j, here j)),
          )
    ]

Result-cases :
    (r : Result (List Bool)) → ((x : Error) × (r ≡ err x)) ⊎ ((a : List Bool) × (r ≡ ok a))
Result-cases (err x) = inl (x, refl)
Result-cases (ok a) = inr (a, refl)

-- The entry that a mapping names
abbrev pub Finds : TransmitPdoMapping → Mapping → Entry → Type 0
Finds t m e =
    (a : Address) × (find_name (escape m.entry_name) t.name_to_address ≡ some a)
    × (find_entry a t.dictionary ≡ some e)

check_mapping_cases :
    (t : TransmitPdoMapping) (m : Mapping) (e : Entry) (mapped : List Bool)
    → Finds t m e
    → let n = get_type_size e.type in
      ((x : Error) × (check_mapping t m mapped ≡ err x))
      ⊎ ((mapped' : List Bool) × (check_mapping t m mapped ≡ ok (n, mapped'))
          × (m.offset + n ≤ 8)
          × (mark_bytes n m.offset mapped ≡ ok mapped'))
unfolding check_mapping
check_mapping_cases t m e mapped (a, named, found) =
    let n = get_type_size e.type in
    elim (Bool-cases (ltb 8 (m.offset + n))) [
      | inl long ↦ inl (
        dictionary_error DictionaryErrorType.mapping_size,
        rw (named, found, long, check_mapping) refl,
      )
      | inr short ↦ elim (Result-cases (mark_bytes n m.offset mapped)) [
        | inl (x, bad) ↦ inl (x, rw (named, found, short, bad, check_mapping) refl)
        | inr (mapped', good) ↦
            inr (mapped', rw (named, found, short, good, check_mapping) refl, ground arith, good)
      ]
    ]

-- What the check of a list says of its first mapping and of the others
pub check_loop-cons :
    (t : TransmitPdoMapping) (m : Mapping) (ms : List Mapping) (e : Entry) (size total : ℕ)
    (mapped : List Bool)
    → Finds t m e
    → length mapped ≡ 8
    → check_loop t (m ∷ ms) size mapped ≡ ok total
    → let n = get_type_size e.type in
      (mapped' : List Bool) × (m.offset + n ≤ 8)
      × Marks m.offset n mapped mapped'
      × (check_loop t ms (size + n) mapped' ≡ ok total)
unfolding check_loop
check_loop-cons t m ms e size total mapped finds len passed =
    let n = get_type_size e.type in
    elim (check_mapping_cases t m e mapped finds) [
      | inl (x, bad) ↦
          let stops : check_loop t (m ∷ ms) size mapped ≡ err x = rw (bad, check_loop) refl in
          absurd (err≢ok (sym stops ∙ passed))
      | inr (mapped', good, room, marked) ↦
          let goes : check_loop t (m ∷ ms) size mapped ≡ check_loop t ms (size + n) mapped' =
            rw (good, check_loop) refl in
          (
            mapped',
            room,
            mark_bytes-Marks n m.offset mapped mapped' len room marked,
            sym goes ∙ passed,
          )
    ]
  where
    err≢ok : {x : Error} {a : ℕ} → err x ≡ ok a → ⊥
    err≢ok p = cc
