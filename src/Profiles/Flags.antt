-- ===== src/Profiles/Flags.antt =====
-- The flag operations on a control word that is read from and written to the cache.
use kacanopen.Prelude.{
  ℕ, ◌+◌, ◌-◌, ◌*◌, ◌^◌, ◌<◌, ◌≡◌, refl, ap, sym, ◌∙◌, List, [], arith, some, bit_and, Bool, true,
  false, set,
}
use kacanopen.Prelude.{codes, bit_or, bit_xor, bit_or_set, bit_and_clear}
use kacanopen.Error.{Result, ok}
use kacanopen.Exec.{pure}
use kacanopen.Exec.Laws.{bind_ok, then_ok}
use kacanopen.Value.{Value, uint16, of_uint16, of_string, nothing, type_of}
use kacanopen.Value.Casts.{to_uint16, to_string}
use kacanopen.Entry.{Entry, get_value, store, ReadAccessMethod, WriteAccessMethod}
use kacanopen.Entry.Changes.{is_comparable, get_value-store}
use kacanopen.Dictionary.{Address, find_name, find_entry, escape}
use kacanopen.Device.{Device}
use kacanopen.Device.Tables.{resolve_found}
use kacanopen.Device.Cached.{stored}
use kacanopen.Device.Served.{find_entry-stored}
use kacanopen.Device.Writes.{set_entry_value_quiet, set_entry_at_typed, send_written}
use kacanopen.Device.Access.{
  get_entry, get_entry_at, set_entry, set_entry_at, set_entry_value, cached_value, reads_via_sdo,
  writes_via_sdo,
}
use kacanopen.Profiles.{get_constant, set_controlword, read_flag, run_set_flag, run_unset_flag}

-- The control word is held in a quiet entry whose default access is the cache.
abbrev pub HoldsWord : Device → Address → Entry → ℕ → Type 0
HoldsWord d a e cw =
    (find_name (escape (codes "controlword")) d.name_to_address ≡ some a)
    × (find_entry a d.dictionary ≡ some e)
    × (get_value e ≡ ok (of_uint16 cw))
    × (e.type ≡ uint16)
    × (e.value_changed_callbacks ≡ [])
    × (reads_via_sdo ReadAccessMethod.use_default e ≡ false)
    × (writes_via_sdo WriteAccessMethod.use_default e ≡ false)

read_word :
    (a : Address) (e : Entry) (cw : ℕ) (d : Device)
    → HoldsWord d a e cw
    → get_entry (codes "controlword") ReadAccessMethod.use_default d ≡ (ok (of_uint16 cw), d)
unfolding get_entry get_entry_at cached_value
read_word a e cw d (named, found, holds, typed, quiet, local_read, local_write) =
    let (_, leads, stands) = resolve_found (codes "controlword") a e d named found in
    rw (leads, stands, local_read, stands, holds, get_entry, get_entry_at, cached_value) refl

write_word :
    (a : Address) (e : Entry) (cw w : ℕ) (d : Device)
    → HoldsWord d a e cw
    → (changed : Bool) × (set_controlword w d ≡ (ok tt, stored a e (of_uint16 w) changed d))
unfolding set_controlword set_entry
write_word a e cw w d (named, found, holds, typed, quiet, local_read, local_write) =
    let (_, leads, stands) = resolve_found (codes "controlword") a e d named found in
    let v = of_uint16 w in
    let word : type_of v ≡ e.type = unfold type_of in sym typed in
    let comparable : is_comparable e.type ≡ true = rw typed (unfold is_comparable in refl) in
    let (changed, set, _) = set_entry_value_quiet a e v d word comparable quiet in
    let d' = stored a e v changed d in
    let run : set_entry_at a v WriteAccessMethod.use_default d ≡ (ok tt, d') =
      set_entry_at_typed a e v WriteAccessMethod.use_default d found word
      ∙ then_ok (set_entry_value a e v) d d' (send_written WriteAccessMethod.use_default e v) tt set
      ∙ rw local_write refl in
    (changed, rw (leads, set_entry) run)

-- The entry still holds the control word after a write.
HoldsWord-stored :
    (a : Address) (e : Entry) (cw w : ℕ) (changed : Bool) (d : Device)
    → HoldsWord d a e cw
    → HoldsWord (stored a e (of_uint16 w) changed d) a (store (of_uint16 w) changed e) w
unfolding store reads_via_sdo writes_via_sdo
HoldsWord-stored a e cw w changed d (named, found, holds, typed, quiet, local_read, local_write) = (
  named,
  find_entry-stored a e (of_uint16 w) changed d found,
  get_value-store e (of_uint16 w) changed,
  typed,
  quiet,
  local_read,
  local_write,
)

read_flag_lem :
    (a : Address) (e : Entry) (cw f : ℕ) (name : List ℕ) (d : Device)
    → HoldsWord d a e cw
    → get_constant name d ≡ ok (of_uint16 f)
    → read_flag (of_string name) d ≡ (ok (cw, f), d)
unfolding read_flag to_uint16 to_string
read_flag_lem a e cw f name d holds constant =
    bind_ok (get_entry (codes "controlword") ReadAccessMethod.use_default) d d _ (of_uint16 cw)
      (read_word a e cw d holds)
    ∙ rw constant refl

constant_stored :
    (a : Address) (e : Entry) (w : ℕ) (changed : Bool) (name : List ℕ) (d : Device)
    {r : Result Value}
    → get_constant name d ≡ r
    → get_constant name (stored a e (of_uint16 w) changed d) ≡ r
unfolding get_constant
constant_stored a e w changed name d h = h

run_set_flag_lem :
    (a : Address) (e : Entry) (cw f : ℕ) (name : List ℕ) (d : Device)
    → HoldsWord d a e cw
    → get_constant name d ≡ ok (of_uint16 f)
    → (changed : Bool) × (run_set_flag (of_string name) d
        ≡ (ok nothing, stored a e (of_uint16 (bit_or cw f)) changed d))
unfolding run_set_flag
run_set_flag_lem a e cw f name d holds constant =
    let (changed, set) = write_word a e cw (bit_or cw f) d holds in
    (
      changed,
      bind_ok (read_flag (of_string name)) d d _ (cw, f)
            (read_flag_lem a e cw f name d holds constant)
          ∙ then_ok (set_controlword (bit_or cw f)) d
              (stored a e (of_uint16 (bit_or cw f)) changed d) (pure nothing) tt set,
    )

run_unset_flag_lem :
    (a : Address) (e : Entry) (cw f : ℕ) (name : List ℕ) (d : Device)
    → HoldsWord d a e cw
    → get_constant name d ≡ ok (of_uint16 f)
    → (changed : Bool) × (run_unset_flag (of_string name) d
        ≡ (ok nothing, stored a e (of_uint16 (bit_and cw (bit_xor 0xFFFF f))) changed d))
unfolding run_unset_flag
run_unset_flag_lem a e cw f name d holds constant =
    let w = bit_and cw (bit_xor 0xFFFF f) in
    let (changed, set) = write_word a e cw w d holds in
    (
      changed,
      bind_ok (read_flag (of_string name)) d d _ (cw, f)
            (read_flag_lem a e cw f name d holds constant)
          ∙ then_ok (set_controlword w) d (stored a e (of_uint16 w) changed d) (pure nothing) tt
              set,
    )

-- Setting and then unsetting the flag of bit `k` in a control word of 16 bits, whatever that bit was:
-- the first sets the bit and the second clears it, and the other bits stay. The control word is
-- written as its higher bits, bit `k` and its lower bits; its entry is by default read and written in
-- the cache, and has no callbacks. The flag's constant is 2 ^ k.
pub run_unset_flag-run_set_flag :
    (a : Address) (e : Entry) (k hi b lo : ℕ) (name : List ℕ) (d : Device)
    → k < 16
    → hi < 2 ^ (15 - k)
    → b < 2
    → lo < 2 ^ k
    → HoldsWord d a e ((hi * 2 + b) * 2 ^ k + lo)
    → get_constant name d ≡ ok (of_uint16 (2 ^ k))
    → let (r, d') = run_set_flag (of_string name) d in
      let (s, d'') = run_unset_flag (of_string name) d' in
      let read = get_entry (codes "controlword") ReadAccessMethod.use_default in
      (r ≡ ok nothing)
      × (read d' ≡ (ok (of_uint16 ((hi * 2 + 1) * 2 ^ k + lo)), d'))
      × (s ≡ ok nothing)
      × (read d'' ≡ (ok (of_uint16 (hi * 2 * 2 ^ k + lo)), d''))
run_unset_flag-run_set_flag a e k hi b lo name d range high bit low holds constant =
    let cw = (hi * 2 + b) * 2 ^ k + lo in
    let on = (hi * 2 + 1) * 2 ^ k + lo in
    let off = hi * 2 * 2 ^ k + lo in
    let (c1, set) = run_set_flag_lem a e cw (2 ^ k) name d holds constant in
    let w1 = bit_or cw (2 ^ k) in
    let d1 = stored a e (of_uint16 w1) c1 d in
    let e1 = store (of_uint16 w1) c1 e in
    let holds1 = HoldsWord-stored a e cw w1 c1 d holds in
    let (c2, unset) =
      run_unset_flag_lem a e1 w1 (2 ^ k) name d1 holds1
        (constant_stored a e w1 c1 name d constant) in
    let w2 = bit_and w1 (bit_xor 0xFFFF (2 ^ k)) in
    let d2 = stored a e1 (of_uint16 w2) c2 d1 in
    let holds2 = HoldsWord-stored a e1 w1 w2 c2 d1 holds1 in
    let is_on : w1 ≡ on = bit_or_set k hi b lo low bit in
    let is_off : w2 ≡ off =
      ap (λ (t : ℕ). bit_and t (bit_xor 0xFFFF (2 ^ k))) is_on
      ∙ bit_and_clear k hi 1 lo range low (omega arith) high in
    rw (set, unset)
      (
        refl,
        read_word a (store (of_uint16 w1) c1 e) w1 d1 holds1
            ∙ ap (λ (t : ℕ). (ok (of_uint16 t), d1)) is_on,
        refl,
        read_word a (store (of_uint16 w2) c2 e1) w2 d2 holds2
            ∙ ap (λ (t : ℕ). (ok (of_uint16 t), d2)) is_off,
      )
