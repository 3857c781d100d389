-- ===== src/Device/Stopping.antt =====
-- A configuration that fails stops at the write that fails.
use kacanopen.Prelude.{ℕ, ◌<◌, ◌≡◌, refl, ap, ◌∙◌, List, [], ◌∷◌, ◌++◌, length, ◌⊎◌, inl, inr}
use kacanopen.Error.{Error, Result, ok, err}
use kacanopen.Exec.{◌>>◌}
use kacanopen.Exec.Laws.{then_ok, then_err, bind_ok, bind_err}
use kacanopen.Value.{of_uint8}
use kacanopen.Device.{Device}
use kacanopen.Device.Configure.{write, read_cob_id, map_rpdo_in_device, get_rpdo_indexes}
use kacanopen.Device.Script.{Write, write_all, script, configure}
use kacanopen.Device.Configured.{map_rpdo_in_device-configure}

-- Where a list of writes stopped: never, or at a write that threw, after those before it were done.
abbrev pub Stops : List Write → Device → Result (Unit {0}) → Device → Type 0
Stops ws d r d' =
    (r ≡ ok tt)
    ⊎ ((before after : List Write) × (w : Write) × (x : Error) × (d1 : Device) × (ws
          ≡ before ++ (w ∷ after))
        × (write_all before d ≡ (ok tt, d1))
        × (write w.0 w.1 w.2 d1 ≡ (err x, d'))
        × (r ≡ err x))

write_all_nothing : (d : Device) → write_all [] d ≡ (ok tt, d)
unfolding write_all
write_all_nothing d = refl

write_all-cons :
    (w : Write) (ws : List Write) (d : Device)
    → write_all (w ∷ ws) d ≡ (write w.0 w.1 w.2 >> write_all ws) d
unfolding write_all
write_all-cons (index, subindex, v) ws d = refl

Stops-cons :
    (w : Write) (ws : List Write) (d d1 : Device) (r : Result (Unit {0}))
    → write w.0 w.1 w.2 d ≡ (r, d1)
    → (let (s, d2) = write_all ws d1 in Stops ws d1 s d2)
    → let (s, d2) = write_all (w ∷ ws) d in Stops (w ∷ ws) d s d2
Stops-cons w ws d d1 (err x) e later =
    let run : write_all (w ∷ ws) d ≡ (err x, d1) =
      write_all-cons w ws d ∙ then_err (write w.0 w.1 w.2) d d1 (write_all ws) x e in
    rw run (inr ([], ws, w, x, d, refl, write_all_nothing d, e, refl))
Stops-cons w ws d d1 (ok _) e later =
    let run : write_all (w ∷ ws) d ≡ write_all ws d1 =
      write_all-cons w ws d ∙ then_ok (write w.0 w.1 w.2) d d1 (write_all ws) tt e in
    rw run (elim later [
      | inl fine ↦ inl fine
      | inr (before, after, w', x, d2, parts, done, failed, res) ↦ inr (
        w ∷ before,
        after,
        w',
        x,
        d2,
        ap (λ (l : List Write). w ∷ l) parts,
        write_all-cons w before d ∙ then_ok (write w.0 w.1 w.2) d d1 (write_all before) tt e ∙ done,
        failed,
        res,
      )
    ])

write_all-Stops : (ws : List Write) (d : Device) → let (r, d') = write_all ws d in Stops ws d r d'
write_all-Stops [] d = inl (ap (λ (p : Result (Unit {0}) × Device). p.0) (write_all_nothing d))
write_all-Stops (w ∷ ws) d =
    let d1 = (write w.0 w.1 w.2 d).1 in
    Stops-cons w ws d d1 (write w.0 w.1 w.2 d).0 refl (write_all-Stops ws d1)

-- `map_rpdo_in_device` (for one of the four RPDOs and at most 255 entries) ends without an error, or
-- with that of reading the COB-ID, or with that of the first write of its script that throws, when
-- the writes before it are done and none after it is tried: the PDO, which the first write disables
-- and only the last one enables, is not enabled by a run that fails before that.
pub map_rpdo_in_device-Stops :
    (rpdo_no comm mapp : ℕ) (entries : List ℕ) (transmit_type : ℕ) (d : Device)
    → get_rpdo_indexes rpdo_no ≡ ok (comm, mapp)
    → length entries < 256
    → let (r, d') = map_rpdo_in_device rpdo_no entries transmit_type d in
      ((x : Error) × (read_cob_id comm d ≡ (err x, d')) × (r ≡ err x))
      ⊎ ((c : ℕ) × (d0 : Device) × (read_cob_id comm d ≡ (ok c, d0))
          × Stops (script comm mapp entries ((comm, 2, of_uint8 transmit_type) ∷ []) c) d0 r d')
map_rpdo_in_device-Stops rpdo_no comm mapp entries transmit_type d known few =
    rw (map_rpdo_in_device-configure rpdo_no comm mapp entries transmit_type d known few)
      (go (read_cob_id comm d).0 (read_cob_id comm d).1 refl)
  where
    go :
        (r : Result ℕ) (d0 : Device)
        → read_cob_id comm d ≡ (r, d0)
        → let (s, d') = configure comm mapp entries ((comm, 2, of_uint8 transmit_type) ∷ []) d in
          ((x : Error) × (read_cob_id comm d ≡ (err x, d')) × (s ≡ err x))
          ⊎ ((c : ℕ) × (d1 : Device) × (read_cob_id comm d ≡ (ok c, d1))
              × Stops (script comm mapp entries ((comm, 2, of_uint8 transmit_type) ∷ []) c) d1 s d')
    go (err x) d0 e =
        let ws = λ (c : ℕ).
          write_all (script comm mapp entries ((comm, 2, of_uint8 transmit_type) ∷ []) c) in
        let run = bind_err (read_cob_id comm) d d0 ws x e in rw run (inl (x, e, refl))
    go (ok c) d0 e =
        let ws = λ (c : ℕ).
          write_all (script comm mapp entries ((comm, 2, of_uint8 transmit_type) ∷ []) c) in
        let run = bind_ok (read_cob_id comm) d d0 ws c e in
        rw run (
          inr (
            c,
            d0,
            e,
            write_all-Stops (script comm mapp entries ((comm, 2, of_uint8 transmit_type) ∷ []) c)
                d0,
          ))
