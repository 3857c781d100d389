-- ===== src/Device/Configured.antt =====
-- The four methods that configure a PDO inside a device write one script.
use kacanopen.Prelude.{ℕ, ◌<◌, ◌≡◌, sym, List, [], ◌∷◌, length}
use kacanopen.Error.{ok}
use kacanopen.Exec.{Exec, ◌>>◌}
use kacanopen.Exec.Laws.{then_nothing}
use kacanopen.Value.{Value, of_uint8, of_uint16, of_uint32}
use kacanopen.Device.{Device}
use kacanopen.Device.Configure.{
  write, disabled_cob_id, enabled_cob_id, read_cob_id, map_tpdo_in_device, map_tpdo_inhibit,
  map_basic, map_tpdo_basic, map_rpdo_in_device, get_tpdo_indexes, get_rpdo_indexes,
}
use kacanopen.Device.Script.{
  Write, write_all, script, configure, then_rest, bind_rest, chained, chained_lem,
}

-- A write before a sequence that is known
then_write :
    (index subindex : ℕ) (v : Value) (k : Exec Device (Unit {0})) (ws : List Write)
    → ((t : Device) → k t ≡ write_all ws t)
    → (t : Device) → (write index subindex v >> k) t ≡ write_all ((index, subindex, v) ∷ ws) t
unfolding write_all
then_write index subindex v k ws same t = then_rest (write index subindex v) k (write_all ws) t same

-- The last write
write_last : (w : Write) (t : Device) → write w.0 w.1 w.2 t ≡ write_all (w ∷ []) t
unfolding write_all
write_last (index, subindex, v) t = sym (then_nothing (write index subindex v) t)

map_basic-configure :
    (comm mapp : ℕ) (entries : List ℕ) (transmit_type : ℕ) (d : Device)
    → length entries < 256
    → map_basic comm mapp entries transmit_type d
      ≡ configure comm mapp entries ((comm, 2, of_uint8 transmit_type) ∷ []) d
unfolding map_basic chained write_all
map_basic-configure comm mapp entries transmit_type d few =
    let settings : List Write = (comm, 2, of_uint8 transmit_type) ∷ [] in
    bind_rest (read_cob_id comm) _ (λ c. write_all (script comm mapp entries settings c)) d
      (λ c t.
        let end : Write = (comm, 1, of_uint32 (enabled_cob_id (disabled_cob_id c))) in
        let last = write comm 1 (of_uint32 (enabled_cob_id (disabled_cob_id c))) in
        chained_lem comm mapp entries few settings c (write comm 2 (of_uint8 transmit_type) >> last)
          t (then_write comm 2 (of_uint8 transmit_type) last (end ∷ []) (write_last end)))

-- For one of the four RPDOs and at most 255 entries, `map_rpdo_in_device` reads the COB-ID and then
-- writes, one after the other: the COB-ID disabled, a count of 0, the entries from subindex 1 on,
-- their count, the transmission type, and the COB-ID enabled.
pub map_rpdo_in_device-configure :
    (rpdo_no comm mapp : ℕ) (entries : List ℕ) (transmit_type : ℕ) (d : Device)
    → get_rpdo_indexes rpdo_no ≡ ok (comm, mapp)
    → length entries < 256
    → map_rpdo_in_device rpdo_no entries transmit_type d
      ≡ configure comm mapp entries ((comm, 2, of_uint8 transmit_type) ∷ []) d
unfolding map_rpdo_in_device
map_rpdo_in_device-configure rpdo_no comm mapp entries transmit_type d known few =
    rw (known, map_rpdo_in_device) (map_basic-configure comm mapp entries transmit_type d few)

map_tpdo_inhibit-configure :
    (tpdo_no comm mapp : ℕ) (entries : List ℕ) (transmit_type inhibit_time : ℕ) (d : Device)
    → get_tpdo_indexes tpdo_no ≡ ok (comm, mapp)
    → length entries < 256
    → map_tpdo_inhibit tpdo_no entries transmit_type inhibit_time d
      ≡ configure comm mapp entries
          ((comm, 2, of_uint8 transmit_type) ∷ (comm, 3, of_uint16 inhibit_time) ∷ [])
          d
unfolding map_tpdo_inhibit chained
map_tpdo_inhibit-configure tpdo_no comm mapp entries transmit_type inhibit_time d known few =
    let settings : List Write =
      (comm, 2, of_uint8 transmit_type) ∷ (comm, 3, of_uint16 inhibit_time) ∷ [] in
    rw (known, map_tpdo_inhibit)
      (bind_rest (read_cob_id comm) _ (λ c. write_all (script comm mapp entries settings c)) d
        (λ c t.
          let end : Write = (comm, 1, of_uint32 (enabled_cob_id (disabled_cob_id c))) in
          let last = write comm 1 (of_uint32 (enabled_cob_id (disabled_cob_id c))) in
          let third = write comm 3 (of_uint16 inhibit_time) >> last in
          chained_lem comm mapp entries few settings c
            (write comm 2 (of_uint8 transmit_type) >> third) t
            (then_write comm 2 (of_uint8 transmit_type) third
              ((comm, 3, of_uint16 inhibit_time) ∷ end ∷ [])
              (then_write comm 3 (of_uint16 inhibit_time) last (end ∷ []) (write_last end)))))

map_tpdo_in_device_full :
    (tpdo_no comm mapp : ℕ) (entries : List ℕ) (transmit_type inhibit_time event_timer : ℕ)
    (d : Device)
    → get_tpdo_indexes tpdo_no ≡ ok (comm, mapp)
    → length entries < 256
    → map_tpdo_in_device tpdo_no entries transmit_type inhibit_time event_timer d
      ≡ configure comm mapp entries
          ((comm, 2, of_uint8 transmit_type)
            ∷ (comm, 3, of_uint16 inhibit_time)
            ∷ (comm, 5, of_uint16 event_timer)
            ∷ [])
          d
unfolding map_tpdo_in_device chained
map_tpdo_in_device_full tpdo_no comm mapp entries transmit_type inhibit_time event_timer d known
      few =
    let settings : List Write =
      (comm, 2, of_uint8 transmit_type)
      ∷ (comm, 3, of_uint16 inhibit_time)
      ∷ (comm, 5, of_uint16 event_timer)
      ∷ [] in
    rw (known, map_tpdo_in_device)
      (bind_rest (read_cob_id comm) _ (λ c. write_all (script comm mapp entries settings c)) d
        (λ c t.
          let end : Write = (comm, 1, of_uint32 (enabled_cob_id (disabled_cob_id c))) in
          let last = write comm 1 (of_uint32 (enabled_cob_id (disabled_cob_id c))) in
          let fifth = write comm 5 (of_uint16 event_timer) >> last in
          let third = write comm 3 (of_uint16 inhibit_time) >> fifth in
          chained_lem comm mapp entries few settings c
            (write comm 2 (of_uint8 transmit_type) >> third) t
            (then_write comm 2 (of_uint8 transmit_type) third
              ((comm, 3, of_uint16 inhibit_time) ∷ (comm, 5, of_uint16 event_timer) ∷ end ∷ [])
              (then_write comm 3 (of_uint16 inhibit_time) fifth
                ((comm, 5, of_uint16 event_timer) ∷ end ∷ [])
                (then_write comm 5 (of_uint16 event_timer) last (end ∷ []) (write_last end))))))

-- For one of the four TPDOs and at most 255 entries, each overload of `map_tpdo_in_device` reads the
-- COB-ID and then writes, one after the other: the COB-ID disabled, a count of 0, the entries from
-- subindex 1 on, their count, the transmission type, the inhibit time and the event timer as far as
-- the overload has them, and the COB-ID enabled.
pub map_tpdo_in_device-configure :
    (tpdo_no comm mapp : ℕ) (entries : List ℕ) (transmit_type inhibit_time event_timer : ℕ)
    (d : Device)
    → get_tpdo_indexes tpdo_no ≡ ok (comm, mapp)
    → length entries < 256
    → (map_tpdo_basic tpdo_no entries transmit_type d
        ≡ configure comm mapp entries ((comm, 2, of_uint8 transmit_type) ∷ []) d)
      × (map_tpdo_inhibit tpdo_no entries transmit_type inhibit_time d
          ≡ configure comm mapp entries
              ((comm, 2, of_uint8 transmit_type) ∷ (comm, 3, of_uint16 inhibit_time) ∷ [])
              d)
      × (map_tpdo_in_device tpdo_no entries transmit_type inhibit_time event_timer d
          ≡ configure comm mapp entries
              ((comm, 2, of_uint8 transmit_type)
                ∷ (comm, 3, of_uint16 inhibit_time)
                ∷ (comm, 5, of_uint16 event_timer)
                ∷ [])
              d)
unfolding map_tpdo_basic
map_tpdo_in_device-configure tpdo_no comm mapp entries transmit_type inhibit_time event_timer d
      known few =
    (
      rw (known, map_tpdo_basic) (map_basic-configure comm mapp entries transmit_type d few),
      map_tpdo_inhibit-configure tpdo_no comm mapp entries transmit_type inhibit_time d known few,
      map_tpdo_in_device_full tpdo_no comm mapp entries transmit_type inhibit_time event_timer d
          known few,
    )
