-- ===== src/Tools/Remapped.antt =====
-- The tools configure a device as its own methods do.
use kacanopen.Prelude.{
  ℕ, zero, suc, ◌+◌, ◌*◌, ◌%◌, ◌^◌, ◌<◌, ◌≡◌, refl, ap, ◌∙◌, List, arith, length, ltb, inl, inr,
  get_or, Bool-cases,
}
use kacanopen.Exec.{Exec, ◌>>=◌, ◌>>◌}
use kacanopen.Error.{ok}
use kacanopen.Value.{of_uint8, of_uint16, of_uint32}
use kacanopen.Device.{Device}
use kacanopen.Device.Configure.{
  disabled_cob_id, enabled_cob_id, read_cob_id, write, write_loop, write_entries, map_basic,
  map_tpdo_in_device, map_tpdo_inhibit, map_tpdo_basic, map_rpdo_in_device, get_tpdo_indexes,
  get_rpdo_indexes,
}
use kacanopen.Device.Script.{same_exec, then_rest}
use kacanopen.Tools.{
  write_from, write_entry, remap, remap_inhibited, remap_timed, switch_rpdo, switch_tpdo, map_rpdo,
  map_tpdo, map_tpdo_inhibited, map_tpdo_timed,
}

write_from-write_loop :
    (fuel index i offset : ℕ) (entries : List ℕ) (d : Device)
    → write_from fuel index i offset entries d ≡ write_loop fuel index i offset entries d
unfolding write_from write_loop
write_from-write_loop zero index i offset entries d = refl
write_from-write_loop (suc fuel) index i offset entries d =
    elim (Bool-cases (ltb i (length entries))) [
      | inr over ↦ rw (over, write_from, write_loop) refl
      | inl more ↦
          rw (more, write_from, write_loop)
            (then_rest (write index ((offset + 1) % 2 ^ 8) (of_uint32 (get_or entries i 0)))
              (write_from fuel index ((i + 1) % 2 ^ 8) ((offset + 1) % 2 ^ 8) entries)
              (write_loop fuel index ((i + 1) % 2 ^ 8) ((offset + 1) % 2 ^ 8) entries) d
              (write_from-write_loop fuel index ((i + 1) % 2 ^ 8) ((offset + 1) % 2 ^ 8) entries))
    ]

write_entry-write_entries :
    (index : ℕ) (entries : List ℕ) → write_entry index entries ≡ write_entries index entries
unfolding write_entry write_entries
write_entry-write_entries index entries =
    same_exec (write_entry index entries) (write_entries index entries)
      (write_from-write_loop (length entries + 1) index 0 0 entries)

remap-map_basic :
    (comm mapp : ℕ) (entries : List ℕ) (transmit_type : ℕ)
    → remap comm mapp entries transmit_type ≡ map_basic comm mapp entries transmit_type
unfolding remap map_basic
remap-map_basic comm mapp entries transmit_type =
    ap
      (λ (w : Exec Device (Unit {0})). do
        cob_id ← read_cob_id comm
        write comm 1 (of_uint32 (disabled_cob_id cob_id))
        write mapp 0 (of_uint8 0)
        w
        write mapp 0 (of_uint8 (length entries % 2 ^ 8))
        write comm 2 (of_uint8 transmit_type)
        write comm 1 (of_uint32 (enabled_cob_id (disabled_cob_id cob_id))))
      (write_entry-write_entries mapp entries)

module _ (entries : List ℕ) (transmit_type inhibit_time : ℕ) (d : Device) where
  inhibited :
      (n comm mapp : ℕ)
      → get_tpdo_indexes n ≡ ok (comm, mapp)
      → remap_inhibited comm mapp entries transmit_type inhibit_time d
        ≡ map_tpdo_inhibit n entries transmit_type inhibit_time d
  unfolding remap_inhibited map_tpdo_inhibit
  inhibited n comm mapp at =
      rw (at, map_tpdo_inhibit)
        (ap
          (λ (w : Exec Device (Unit {0})).
            (do
              cob_id ← read_cob_id comm
              write comm 1 (of_uint32 (disabled_cob_id cob_id))
              write mapp 0 (of_uint8 0)
              w
              write mapp 0 (of_uint8 (length entries % 2 ^ 8))
              write comm 2 (of_uint8 transmit_type)
              write comm 3 (of_uint16 inhibit_time)
              write comm 1 (of_uint32 (enabled_cob_id (disabled_cob_id cob_id))))
              d)
          (write_entry-write_entries mapp entries))

  timed :
      (event_timer n comm mapp : ℕ)
      → get_tpdo_indexes n ≡ ok (comm, mapp)
      → remap_timed comm mapp entries transmit_type inhibit_time event_timer d
        ≡ map_tpdo_in_device n entries transmit_type inhibit_time event_timer d
  unfolding remap_timed map_tpdo_in_device
  timed event_timer n comm mapp at =
      rw (at, map_tpdo_in_device)
        (ap
          (λ (w : Exec Device (Unit {0})).
            (do
              cob_id ← read_cob_id comm
              write comm 1 (of_uint32 (disabled_cob_id cob_id))
              write mapp 0 (of_uint8 0)
              w
              write mapp 0 (of_uint8 (length entries % 2 ^ 8))
              write comm 2 (of_uint8 transmit_type)
              write comm 3 (of_uint16 inhibit_time)
              write comm 5 (of_uint16 event_timer)
              write comm 1 (of_uint32 (enabled_cob_id (disabled_cob_id cob_id))))
              d)
          (write_entry-write_entries mapp entries))

-- The four tools do to the device `d` what its own methods do
pub AreAlike : ℕ → List ℕ → ℕ → ℕ → ℕ → Device → Type 0
AreAlike n entries transmit_type inhibit_time event_timer d =
    (map_rpdo n entries transmit_type d
      ≡ map_rpdo_in_device (0x200 + 0x100 * n) entries transmit_type d)
    × (map_tpdo n entries transmit_type d
        ≡ map_tpdo_basic (0x180 + 0x100 * n) entries transmit_type d)
    × (map_tpdo_inhibited n entries transmit_type inhibit_time d
        ≡ map_tpdo_inhibit (0x180 + 0x100 * n) entries transmit_type inhibit_time d)
    × (map_tpdo_timed n entries transmit_type inhibit_time event_timer d
        ≡ map_tpdo_in_device (0x180 + 0x100 * n) entries transmit_type inhibit_time event_timer d)

module _ (entries : List ℕ) (transmit_type inhibit_time event_timer : ℕ) (d : Device) where
  alike :
      (n rcomm rmapp tcomm tmapp : ℕ)
      → get_rpdo_indexes (0x200 + 0x100 * n) ≡ ok (rcomm, rmapp)
      → get_tpdo_indexes (0x180 + 0x100 * n) ≡ ok (tcomm, tmapp)
      → ((body : ℕ → ℕ → Exec Device (Unit {0})) → switch_rpdo n body ≡ body rcomm rmapp)
      → ((body : ℕ → ℕ → Exec Device (Unit {0})) → switch_tpdo n body ≡ body tcomm tmapp)
      → AreAlike n entries transmit_type inhibit_time event_timer d
  unfolding AreAlike map_rpdo map_tpdo map_tpdo_inhibited map_tpdo_timed map_rpdo_in_device
      map_tpdo_basic
  alike n rcomm rmapp tcomm tmapp at_rpdo at_tpdo rpdo tpdo = (
    ap (λ (m : Exec Device (Unit {0})). m d)
          (rpdo (λ comm mapp. remap comm mapp entries transmit_type)
            ∙ remap-map_basic rcomm rmapp entries transmit_type)
        ∙ rw (at_rpdo, map_rpdo_in_device) refl,
    ap (λ (m : Exec Device (Unit {0})). m d)
          (tpdo (λ comm mapp. remap comm mapp entries transmit_type)
            ∙ remap-map_basic tcomm tmapp entries transmit_type)
        ∙ rw (at_tpdo, map_tpdo_basic) refl,
    ap (λ (m : Exec Device (Unit {0})). m d)
          (tpdo (λ comm mapp. remap_inhibited comm mapp entries transmit_type inhibit_time))
        ∙ inhibited entries transmit_type inhibit_time d (0x180 + 0x100 * n) tcomm tmapp at_tpdo,
    ap (λ (m : Exec Device (Unit {0})). m d)
          (tpdo (λ comm mapp. remap_timed comm mapp entries transmit_type inhibit_time event_timer))
        ∙ timed entries transmit_type inhibit_time d event_timer (0x180 + 0x100 * n) tcomm tmapp
            at_tpdo,
  )

-- For each of the four numbers, which the device's methods spell by the first COB-ID of the PDO,
-- a tool does to every device what the device's own method does: to map an RPDO, to map a TPDO, to
-- map one with an inhibit time, and with an event timer as well.
pub map_tpdo_timed-map_tpdo_in_device :
    (n : ℕ) (entries : List ℕ) (transmit_type inhibit_time event_timer : ℕ) (d : Device)
    → n < 4
    → AreAlike n entries transmit_type inhibit_time event_timer d
unfolding switch_rpdo switch_tpdo get_tpdo_indexes get_rpdo_indexes
map_tpdo_timed-map_tpdo_in_device zero entries kind inhibit event d few =
    alike entries kind inhibit event d 0 0x1400 0x1600 0x1800 0x1A00 refl refl (λ b. refl)
      (λ b. refl)
map_tpdo_timed-map_tpdo_in_device (suc zero) entries kind inhibit event d few =
    alike entries kind inhibit event d 1 0x1401 0x1601 0x1801 0x1A01 refl refl (λ b. refl)
      (λ b. refl)
map_tpdo_timed-map_tpdo_in_device (suc (suc zero)) entries kind inhibit event d few =
    alike entries kind inhibit event d 2 0x1402 0x1602 0x1802 0x1A02 refl refl (λ b. refl)
      (λ b. refl)
map_tpdo_timed-map_tpdo_in_device (suc (suc (suc zero))) entries kind inhibit event d few =
    alike entries kind inhibit event d 3 0x1403 0x1603 0x1803 0x1A03 refl refl (λ b. refl)
      (λ b. refl)
map_tpdo_timed-map_tpdo_in_device (suc (suc (suc (suc n)))) entries kind inhibit event d few =
    absurd (omega arith)
