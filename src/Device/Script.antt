-- ===== src/Device/Script.antt =====
-- The configuration of a PDO as a list of writes.
use kacanopen.Prelude.{
  ℕ, zero, suc, ◌+◌, ◌%◌, ◌^◌, ◌≤◌, ◌<◌, ◌≡◌, refl, ap, sym, ◌∙◌, List, [], ◌∷◌, ◌++◌, arith,
  length, ltb, true, false, get_or, drop,
}
use kacanopen.Error.{ok}
use kacanopen.Exec.{◌>>=◌, Exec, ◌>>=◌, ◌>>◌}
use kacanopen.Prelude.{length-drop}
use kacanopen.Exec.Laws.{then_nothing, then_assoc}
use kacanopen.Value.{Value, of_uint8, of_uint32}
use kacanopen.Device.{Device}
use kacanopen.Device.Configure.{
  write, write_loop, write_entries, disabled_cob_id, enabled_cob_id, read_cob_id,
}

-- An index, a subindex and the value that is written there
abbrev pub Write : Type 0
Write = ℕ × ℕ × Value

unfoldable pub write_all : List Write → Exec Device (Unit {0})
write_all [] d = (ok tt, d)
write_all ((index, subindex, v) ∷ ws) d = (write index subindex v >> write_all ws) d

-- The entries of the mapping, from a subindex on
abbrev pub numbered : ℕ → ℕ → List ℕ → List Write
numbered index i [] = []
numbered index i (e ∷ es) = (index, i + 1, of_uint32 e) ∷ numbered index (i + 1) es

abbrev pub script : ℕ → ℕ → List ℕ → List Write → ℕ → List Write
script comm mapp entries settings cob_id =
    let off = disabled_cob_id cob_id in
    (comm, 1, of_uint32 off)
    ∷ (mapp, 0, of_uint8 0)
    ∷ (numbered mapp 0 entries
        ++ ((mapp, 0, of_uint8 (length entries))
            ∷ (settings ++ ((comm, 1, of_uint32 (enabled_cob_id off)) ∷ []))))

-- The COB-ID is read, and then the script is written.
abbrev pub configure : ℕ → ℕ → List ℕ → List Write → Exec Device (Unit {0})
configure comm mapp entries settings = do
  cob_id ← read_cob_id comm
  write_all (script comm mapp entries settings cob_id)

pub same_exec : {S A : Type 0} (f g : Exec S A) → ((s : S) → f s ≡ g s) → f ≡ g
same_exec f g h i s = h s i

pub then_rest :
    {S A B : Type 0} (m : Exec S A) (k l : Exec S B) (s : S)
    → ((t : S) → k t ≡ l t)
    → (m >> k) s ≡ (m >> l) s
then_rest m k l s h = ap (λ (j : Exec _ _). (m >> j) s) (same_exec k l h)

write_all-append :
    (xs ys : List Write) (d : Device) → write_all (xs ++ ys) d ≡ (write_all xs >> write_all ys) d
unfolding write_all
write_all-append [] ys d = refl
write_all-append ((index, subindex, v) ∷ xs) ys d =
    then_rest (write index subindex v) (write_all (xs ++ ys)) (write_all xs >> write_all ys) d
      (write_all-append xs ys)
    ∙ then_assoc (write index subindex v) (write_all xs) (write_all ys) d

write_all-one : (w : Write) (d : Device) → write_all (w ∷ []) d ≡ write w.0 w.1 w.2 d
unfolding write_all
write_all-one (index, subindex, v) d = then_nothing (write index subindex v) d

drop-cons :
    (i : ℕ) (xs ys : List ℕ) (y : ℕ)
    → drop i xs ≡ y ∷ ys
    → (get_or xs i 0 ≡ y) × (drop (suc i) xs ≡ ys) × (i < length xs)
drop-cons zero [] ys y h = absurd cc
drop-cons zero (x ∷ xs) ys y h = (cc, cc, omega arith)
drop-cons (suc i) [] ys y h = absurd cc
drop-cons (suc i) (x ∷ xs) ys y h =
    let (at, rest, lt) = drop-cons i xs ys y h in (at, rest, omega (arith, lt))

drop-nil : (i : ℕ) (xs : List ℕ) → drop i xs ≡ [] → length xs ≤ i
drop-nil i xs h = omega (arith, ap (λ (l : List ℕ). length l) h, length-drop i xs)

-- The counters stay below 256, so the loop writes the entries that are left, each once.
write_loop-numbered :
    (index : ℕ) (entries rest : List ℕ) (fuel i : ℕ) (d : Device)
    → drop i entries ≡ rest
    → length rest < fuel
    → length entries < 256
    → write_loop fuel index i i entries d ≡ write_all (numbered index i rest) d
unfolding write_loop write_all
write_loop-numbered index entries rest zero i d here enough few = absurd (omega arith)
write_loop-numbered index entries [] (suc fuel) i d here enough few =
    let over : ltb i (length entries) ≡ false = ground (arith, drop-nil i entries here) in
    rw (over, write_loop) refl
write_loop-numbered index entries (e ∷ es) (suc fuel) i d here enough few =
    let (at, later, lt) = drop-cons i entries es e here in
    let more : ltb i (length entries) ≡ true = ground arith in
    let next : (i + 1) % 2 ^ 8 ≡ i + 1 = omega arith in
    let further : drop (i + 1) entries ≡ es =
      ap (λ (k : ℕ). drop k entries) {x = i + 1} {y = suc i} (omega arith) ∙ later in
    rw (more, next, at, write_loop)
      (then_rest (write index (i + 1) (of_uint32 e)) (write_loop fuel index (i + 1) (i + 1) entries)
        (write_all (numbered index (i + 1) es)) d
        (λ t. write_loop-numbered index entries es fuel (i + 1) t further (omega arith) few))

write_entries-numbered :
    (index : ℕ) (entries : List ℕ) (d : Device)
    → length entries < 256
    → write_entries index entries d ≡ write_all (numbered index 0 entries) d
unfolding write_entries
write_entries-numbered index entries d few =
    write_loop-numbered index entries entries (length entries + 1) 0 d refl (omega arith) few

-- The writes after the COB-ID is known, as the methods chain them
module _ (comm mapp : ℕ) (entries : List ℕ) (few : length entries < 256) (settings : List Write)
    (cob_id : ℕ) where
  unfoldable pub chained : Exec Device (Unit {0}) → Exec Device (Unit {0})
  chained set_up = do
    write comm 1 (of_uint32 (disabled_cob_id cob_id))
    write mapp 0 (of_uint8 0)
    write_entries mapp entries
    write mapp 0 (of_uint8 (length entries % 2 ^ 8))
    set_up

  pub chained_lem :
      (set_up : Exec Device (Unit {0})) (d : Device)
      → ((t : Device)
          → set_up t
            ≡ write_all
                (settings ++ ((comm, 1, of_uint32 (enabled_cob_id (disabled_cob_id cob_id))) ∷ []))
                t)
      → chained set_up d ≡ write_all (script comm mapp entries settings cob_id) d
  unfolding chained write_all
  chained_lem set_up d same =
      let count : length entries % 2 ^ 8 ≡ length entries = omega arith in
      let enable =
        write_all
          (settings ++ ((comm, 1, of_uint32 (enabled_cob_id (disabled_cob_id cob_id))) ∷ [])) in
      let filled = write mapp 0 (of_uint8 (length entries % 2 ^ 8)) >> set_up in
      let tail : List Write =
        (mapp, 0, of_uint8 (length entries))
        ∷ (settings ++ ((comm, 1, of_uint32 (enabled_cob_id (disabled_cob_id cob_id))) ∷ [])) in
      let mapped : (u : Device)
          → (write_entries mapp entries >> filled) u
            ≡ write_all (numbered mapp 0 entries ++ tail) u =
        λ u.
          ap (λ (m : Exec Device (Unit {0})). (m >> filled) u)
            (same_exec (write_entries mapp entries) (write_all (numbered mapp 0 entries))
              (λ w. write_entries-numbered mapp entries w few))
          ∙ then_rest (write_all (numbered mapp 0 entries)) filled (write_all tail) u (λ w.
            ap (λ (k : ℕ). (write mapp 0 (of_uint8 k) >> set_up) w) count
            ∙ then_rest (write mapp 0 (of_uint8 (length entries))) set_up enable w same)
          ∙ sym (write_all-append (numbered mapp 0 entries) tail u) in
      then_rest (write comm 1 (of_uint32 (disabled_cob_id cob_id)))
        (write mapp 0 (of_uint8 0) >> (write_entries mapp entries >> filled))
        (write_all ((mapp, 0, of_uint8 0) ∷ (numbered mapp 0 entries ++ tail))) d
        (λ t.
          then_rest (write mapp 0 (of_uint8 0)) (write_entries mapp entries >> filled)
            (write_all (numbered mapp 0 entries ++ tail)) t mapped)

pub bind_rest :
    {S A B : Type 0} (m : Exec S A) (f g : A → Exec S B) (s : S)
    → ((a : A) (t : S) → f a t ≡ g a t)
    → (m >>= f) s ≡ (m >>= g) s
bind_rest m f g s h = ap (λ (j : _ → Exec _ _). (m >>= j) s) (λ i a t. h a t i)
