-- ===== src/Transmit/Layout.antt =====
-- The layout of a transmit PDO.
use mathlib.Core.Path.{ap₂}
use kacanopen.Prelude.{
  ℕ, zero, suc, ◌+◌, ◌-◌, ◌≤◌, ◌<◌, ◌≡◌, refl, ap, sym, ◌∙◌, List, [], ◌∷◌, ◌++◌, length-take, max,
  arith, length, leb, Bool, true, false, ◌||◌, ◌&&◌, ◌⊎◌, inl, inr, get_or, take, drop, replicate,
  All,
}
use kacanopen.Error.{Result, ok, err}
use kacanopen.Value.{get_type_size}
use kacanopen.Entry.{Entry}
use kacanopen.Pdo.{Pdo, fill, message_of, send as send_pdo}
use kacanopen.Pdo.Traffic.{get_or-fill, length-fill}
use kacanopen.Transmit.{
  Mapping, TransmitPdoMapping, check_loop, check_correctness, mapped_bytes, send_loop, send,
}
use kacanopen.Transmit.Check.{within, Finds, check_loop-cons}

-- The mapped entry is in the tables and holds a value of as many bytes as its type has.
abbrev pub IsReady : TransmitPdoMapping → Mapping → Type 0
IsReady t m =
    (e : Entry) × Finds t m e
    × (bs : List ℕ) × (mapped_bytes t m ≡ ok bs)
    × (length bs ≡ get_type_size e.type)

-- The bytes of the mapped value stand in `array` at the mapping's offset, before `size`.
abbrev IsPlaced : TransmitPdoMapping → List ℕ → ℕ → Mapping → Type 0
IsPlaced t array size m =
    (bs : List ℕ) × (mapped_bytes t m ≡ ok bs)
    × (m.offset + length bs ≤ size)
    × ((j : ℕ) → j < length bs → get_or array (m.offset + j) 0 ≡ get_or bs j 0)

-- What the loop of `send` does to an array some bytes of which are taken
abbrev Sends : TransmitPdoMapping → List Mapping → List Bool → List ℕ → ℕ → Type 0
Sends t ms mapped array size =
    (array' : List ℕ) × (size' : ℕ) × (send_loop t ms array size ≡ ok (array', size'))
    × (length array' ≡ 8)
    × (size ≤ size')
    × (size' ≤ 8)
    × ((j : ℕ) → get_or mapped j false ≡ true → get_or array' j 0 ≡ get_or array j 0)
    × All (IsPlaced t array' size') ms

marks_of_size :
    (i n k : ℕ) (mapped mapped' : List Bool)
    → k ≡ n
    → ((j : ℕ)
        → (get_or mapped' j false ≡ (get_or mapped j false || within i n j))
          × (get_or mapped j false && within i n j ≡ false))
    → (j : ℕ)
    → (get_or mapped' j false ≡ (get_or mapped j false || within i k j))
      × (get_or mapped j false && within i k j ≡ false)
marks_of_size i n k mapped mapped' e marks = rw e marks

-- A byte that was taken stays so and is not of this entry; a byte of this entry is taken now.
marks_own :
    (i : ℕ) (bs : List ℕ) (mapped mapped' : List Bool)
    → ((j : ℕ)
        → (get_or mapped' j false ≡ (get_or mapped j false || within i (length bs) j))
          × (get_or mapped j false && within i (length bs) j ≡ false))
    → (j : ℕ)
    → (get_or mapped j false ≡ true → get_or mapped' j false ≡ true)
      × (get_or mapped j false ≡ true → within i (length bs) j ≡ false)
      × (within i (length bs) j ≡ true → get_or mapped' j false ≡ true)
marks_own i bs mapped mapped' marks j = (
  (λ h.
      bool_or (get_or mapped j false) (within i (length bs) j) (get_or mapped' j false) (marks j).0
        (inl h)),
  (λ h. bool_and (get_or mapped j false) (within i (length bs) j) (marks j).1 h),
  (λ h.
      bool_or (get_or mapped j false) (within i (length bs) j) (get_or mapped' j false) (marks j).0
        (inr h)),
)
  where
    bool_or : (a b c : Bool) → c ≡ (a || b) → (a ≡ true) ⊎ (b ≡ true) → c ≡ true
    bool_or true b c e h = e
    bool_or false b c e (inl h) = absurd (cc)
    bool_or false b c e (inr h) = e ∙ h

    bool_and : (a b : Bool) → a && b ≡ false → a ≡ true → b ≡ false
    bool_and true b e h = e
    bool_and false b e h = absurd (cc)

send_loop-Sends :
    (t : TransmitPdoMapping) (ms : List Mapping) (checked total : ℕ) (mapped : List Bool)
    (array : List ℕ) (size : ℕ)
    → length mapped ≡ 8
    → length array ≡ 8
    → size ≤ 8
    → check_loop t ms checked mapped ≡ ok total
    → All (IsReady t) ms
    → Sends t ms mapped array size
unfolding send_loop
send_loop-Sends t [] checked total mapped array size len room small passed ready =
    (array, size, refl, room, omega arith, small, λ j h. refl, tt)
send_loop-Sends t (m ∷ ms) checked total mapped array size len room small passed
      ((e, finds, bs, bytes, count), ready) =
    let (mapped', fits, (len', marks), rest) =
      check_loop-cons t m ms e checked total mapped finds len passed in
    let array1 = fill bs m.offset array in
    let size1 = max size (m.offset + length bs) in
    let short : leb (m.offset + length bs) 8 ≡ true = ground arith in
    let (array', size', run, room', more, small', keeps, placed) =
      send_loop-Sends t ms (checked + get_type_size e.type) total mapped' array1 size1 len'
        (length-fill bs m.offset array ∙ room) (omega arith) rest ready in
    let filled = λ (j : ℕ). get_or-fill bs m.offset array j 0 (omega arith) in
    let marked = λ (j : ℕ).
      marks_own m.offset bs mapped mapped'
        (marks_of_size m.offset (get_type_size e.type) (length bs) mapped mapped' count marks) j in
    (
      array',
      size',
      rw (bytes, short, send_loop) run,
      room',
      omega arith,
      small',
      (λ j h. keeps j ((marked j).0 h) ∙ (filled j ∙ rw ((marked j).1 h) refl)),
      (
        (
          bs,
          bytes,
          omega arith,
          λ j lt.
              let inside : within m.offset (length bs) (m.offset + j) ≡ true = ground arith in
              keeps (m.offset + j) ((marked (m.offset + j)).2 inside)
              ∙ (filled (m.offset + j)
                  ∙ rw inside (
                      ap (λ (k : ℕ). get_or bs k 0) {x = m.offset + j - m.offset} {y = j}
                        (omega arith))),
        ),
        placed,
      ),
    )

get_or-take : (n : ℕ) (xs : List ℕ) (j d : ℕ) → j < n → get_or (take n xs) j d ≡ get_or xs j d
get_or-take zero xs j d h = absurd (omega arith)
get_or-take (suc n) [] j d h = refl
get_or-take (suc n) (x ∷ xs) zero d h = refl
get_or-take (suc n) (x ∷ xs) (suc j) d h = get_or-take n xs j d (omega arith)

-- Bytes that agree one by one with those from `i` on are that part of the array.
slice :
    (i : ℕ) (bs xs : List ℕ)
    → i + length bs ≤ length xs
    → ((j : ℕ) → j < length bs → get_or xs (i + j) 0 ≡ get_or bs j 0)
    → take (length bs) (drop i xs) ≡ bs
slice zero [] xs h same = refl
slice zero (b ∷ bs) [] h same = absurd (omega arith)
slice zero (b ∷ bs) (x ∷ xs) h same =
    ap₂ {A = ℕ} {B = List ℕ} (λ y ys. y ∷ ys) (same 0 (omega arith))
      (slice zero bs xs (omega arith) λ j lt.
        ap (λ (k : ℕ). get_or (x ∷ xs) k 0) {x = suc (0 + j)} {y = 0 + suc j} (omega arith)
        ∙ same (suc j) (omega arith))
slice (suc i) [] [] h same = refl
slice (suc i) (b ∷ bs) [] h same = absurd (omega arith)
slice (suc i) bs (x ∷ xs) h same = slice i bs xs (omega arith) λ j lt.
    ap (λ (k : ℕ). get_or (x ∷ xs) k 0) {x = suc (i + j)} {y = suc i + j} (omega arith) ∙ same j lt

-- The PDO's data hold the bytes of the mapped value at the mapping's offset.
abbrev pub Carries : TransmitPdoMapping → List ℕ → Mapping → Type 0
Carries t array m =
    (bs : List ℕ) × (mapped_bytes t m ≡ ok bs) × (take (length bs) (drop m.offset array) ≡ bs)

IsPlaced-Carries :
    (t : TransmitPdoMapping) (array : List ℕ) (size : ℕ) (ms : List Mapping)
    → length array ≡ 8
    → size ≤ 8
    → All (IsPlaced t array size) ms
    → All (Carries t (take size array)) ms
IsPlaced-Carries t array size [] room small placed = tt
IsPlaced-Carries t array size (m ∷ ms) room small ((bs, bytes, ends, same), placed) = (
  (
    bs,
    bytes,
    slice m.offset bs (take size array) (omega (arith, length-take size array))
        λ j lt. get_or-take size array (m.offset + j) 0 (omega arith) ∙ same j lt,
  ),
  IsPlaced-Carries t array size ms room small placed,
)

loop_passed :
    (t : TransmitPdoMapping)
    → check_correctness t ≡ ok tt
    → (total : ℕ) × (check_loop t t.mappings 0 (replicate 8 false) ≡ ok total)
unfolding check_correctness
loop_passed t passed = go (check_loop t t.mappings 0 (replicate 8 false)) refl
  where
    go :
        (r : Result ℕ)
        → check_loop t t.mappings 0 (replicate 8 false) ≡ r
        → (total : ℕ) × (check_loop t t.mappings 0 (replicate 8 false) ≡ ok total)
    go (ok total) e = (total, e)
    go (err x) e =
        let stops : check_correctness t ≡ err x = rw (e, check_correctness) refl in
        let wrong : err x ≡ ok tt = sym stops ∙ passed in absurd cc

-- A mapping that passes the check, whose entries hold values of the size of their types, is sent as
-- one PDO of at most eight bytes under its COB-ID, in which the bytes of each mapped value stand
-- complete at the mapping's offset: no entry overwrites another, and no assertion fails.
pub send_layout :
    (stack : List ℕ) (t : TransmitPdoMapping) (pdo : Pdo)
    → check_correctness t ≡ ok tt
    → All (IsReady t) t.mappings
    → (bytes : List ℕ) × (length bytes ≤ 8)
      × (send stack t pdo
          ≡ (ok tt, record pdo { sent = pdo.sent ++ (message_of t.cob_id bytes stack ∷ []) }))
      × All (Carries t bytes) t.mappings
unfolding send send_pdo
send_layout stack t pdo passed ready =
    let (total, loop) = loop_passed t passed in
    let (array, size, run, room, _, small, _, placed) =
      send_loop-Sends t t.mappings 0 total (replicate 8 false) (replicate 8 0) 0 refl refl
        (omega arith) loop ready in
    let fits : length (take size array) ≤ 8 = omega (arith, length-take size array) in
    let sized : leb size 8 ≡ true = ground arith in
    let short : leb (length (take size array)) 8 ≡ true = ground arith in
    (
      take size array,
      fits,
      rw (run, sized, short, send) refl,
      IsPlaced-Carries t array size t.mappings room small placed,
    )
