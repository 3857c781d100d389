-- ===== src/Nmt/Devices.antt =====
-- The operations on the map of devices, seen from one node ID.
use kacanopen.Prelude.{
  false, inr, inl, Bool-cases, ◌∙◌, ==_iff, ◌==◌, ℕ, ◌≡◌, refl, sym, List, [], ◌∷◌, ◌++◌, map,
  arith, Option, none, some, if◌then◌else◌, true,
}
use kacanopen.Prelude.{arith, ◌==◌, if◌then◌else◌, ◌≡◌, ◌++◌}
use mathlib.Core.List.{append-nil}
use kacanopen.Nmt.{
  ◌∷◌, [], ◌++◌, map, some, Option, List, ℕ, DeviceState, alive, dead, to_be_killed, Devices, find,
  assign, insert, mark_all, sweep_all,
}

-- Each key once
abbrev pub IsMap : Devices → Type 0
IsMap [] = Unit {0}
IsMap ((n, s) ∷ ds) = (find n ds ≡ none) × IsMap ds

-- What the loops make of one device
unfoldable pub marked : Option DeviceState → Option DeviceState
marked (some alive) = some to_be_killed
marked s = s

unfoldable pub swept : Option DeviceState → Option DeviceState
swept (some to_be_killed) = some dead
swept s = s

pub find-assign :
    (k n : ℕ) (s : DeviceState) (ds : Devices)
    → find k (assign n s ds) ≡ (if n == k then some s else find k ds)
unfolding find assign
find-assign k n s [] = refl
find-assign k n s ((i, t) ∷ ds) = ground (arith, find-assign k n s ds)

unfoldable pub or_else : Option DeviceState → DeviceState → DeviceState
or_else (some t) s = t
or_else none s = s

pub find-insert :
    (k n : ℕ) (s : DeviceState) (ds : Devices)
    → find k (insert n s ds) ≡ (if n == k then some (or_else (find n ds) s) else find k ds)
unfolding find insert or_else
find-insert k n s [] = refl
find-insert k n s ((i, t) ∷ ds) = ground (arith, find-insert k n s ds)

pub find-mark_all : (k : ℕ) (ds : Devices) → find k (mark_all ds) ≡ marked (find k ds)
unfolding find mark_all marked
find-mark_all k [] = refl
find-mark_all k ((n, alive) ∷ ds) = ground (arith, find-mark_all k ds)
find-mark_all k ((n, dead) ∷ ds) = ground (arith, find-mark_all k ds)
find-mark_all k ((n, to_be_killed) ∷ ds) = ground (arith, find-mark_all k ds)

pub find-sweep_all :
    (k : ℕ) (cs : List ℕ) (ds : Devices) → find k (sweep_all cs ds).0 ≡ swept (find k ds)
unfolding find sweep_all swept
find-sweep_all k cs [] = refl
find-sweep_all k cs ((n, alive) ∷ ds) = ground (arith, find-sweep_all k cs ds)
find-sweep_all k cs ((n, dead) ∷ ds) = ground (arith, find-sweep_all k cs ds)
find-sweep_all k cs ((n, to_be_killed) ∷ ds) = ground (arith, find-sweep_all k cs ds)

-- The callbacks that were called for a node, in order
unfoldable pub calls_for : ℕ → List (ℕ × ℕ) → List ℕ
calls_for k [] = []
calls_for k ((c, n) ∷ calls) = let rest = calls_for k calls in if n == k then c ∷ rest else rest

pub calls_for-append :
    (k : ℕ) (xs ys : List (ℕ × ℕ)) → calls_for k (xs ++ ys) ≡ calls_for k xs ++ calls_for k ys
unfolding calls_for
calls_for-append k [] ys = refl
calls_for-append k ((c, n) ∷ xs) ys = ground (arith, calls_for-append k xs ys)

pub calls_for-map :
    (k n : ℕ) (cs : List ℕ) → calls_for k (map (λ c. (c, n)) cs) ≡ (if n == k then cs else [])
unfolding calls_for
calls_for-map k n [] = ground arith
calls_for-map k n (c ∷ cs) = ground (arith, calls_for-map k n cs)

-- The callbacks that a sweep calls for a device
unfoldable pub reports : List ℕ → Option DeviceState → List ℕ
reports cs (some to_be_killed) = cs
reports cs _ = []

same_key : (k n : ℕ) (ds : Devices) → (n == k) ≡ true → find n ds ≡ none → find k ds ≡ none
same_key k n ds same new = rw (sym ((==_iff n k).0 same)) new

pub calls_for-sweep_all :
    (k : ℕ) (cs : List ℕ) (ds : Devices)
    → IsMap ds
    → calls_for k (sweep_all cs ds).1 ≡ reports cs (find k ds)
unfolding sweep_all reports find calls_for
calls_for-sweep_all k cs [] u = refl
calls_for-sweep_all k cs ((n, alive) ∷ ds) (new, u) =
    ground (arith, calls_for-sweep_all k cs ds u, same_key k n ds)
calls_for-sweep_all k cs ((n, dead) ∷ ds) (new, u) =
    ground (arith, calls_for-sweep_all k cs ds u, same_key k n ds)
calls_for-sweep_all k cs ((n, to_be_killed) ∷ ds) (new, u) = ground (
  arith,
  calls_for-sweep_all k cs ds u,
  same_key k n ds,
  calls_for-append k (map (λ c. (c, n)) cs) (sweep_all cs ds).1,
  calls_for-map k n cs,
  append-nil cs,
)

-- Every operation on the map keeps each key once.
pub IsMap-assign : (n : ℕ) (s : DeviceState) (ds : Devices) → IsMap ds → IsMap (assign n s ds)
unfolding assign find
IsMap-assign n s [] u = (refl, tt)
IsMap-assign n s ((k, t) ∷ ds) (new, u) = elim (Bool-cases (k == n)) [
  | inl same ↦ rw same (new, u)
  | inr other ↦
      let apart : (n == k) ≡ false = ground (arith, other) in
      rw (other, assign) (rw (find-assign k n s ds, apart) new, IsMap-assign n s ds u)
]

pub IsMap-insert : (n : ℕ) (s : DeviceState) (ds : Devices) → IsMap ds → IsMap (insert n s ds)
unfolding insert find
IsMap-insert n s [] u = (refl, tt)
IsMap-insert n s ((k, t) ∷ ds) (new, u) = elim (Bool-cases (k == n)) [
  | inl same ↦ rw same (new, u)
  | inr other ↦
      let apart : (n == k) ≡ false = ground (arith, other) in
      rw (other, insert) (rw (find-insert k n s ds, apart) new, IsMap-insert n s ds u)
]

pub IsMap-mark_all : (ds : Devices) → IsMap ds → IsMap (mark_all ds)
unfolding mark_all marked
IsMap-mark_all [] u = tt
IsMap-mark_all ((n, alive) ∷ ds) (new, u) = (find-mark_all n ds ∙ rw new refl, IsMap-mark_all ds u)
IsMap-mark_all ((n, dead) ∷ ds) (new, u) = (find-mark_all n ds ∙ rw new refl, IsMap-mark_all ds u)
IsMap-mark_all ((n, to_be_killed) ∷ ds) (new, u) =
    (find-mark_all n ds ∙ rw new refl, IsMap-mark_all ds u)

pub IsMap-sweep_all : (cs : List ℕ) (ds : Devices) → IsMap ds → IsMap (sweep_all cs ds).0
unfolding sweep_all swept
IsMap-sweep_all cs [] u = tt
IsMap-sweep_all cs ((n, alive) ∷ ds) (new, u) =
    (find-sweep_all n cs ds ∙ rw new refl, IsMap-sweep_all cs ds u)
IsMap-sweep_all cs ((n, dead) ∷ ds) (new, u) =
    (find-sweep_all n cs ds ∙ rw new refl, IsMap-sweep_all cs ds u)
IsMap-sweep_all cs ((n, to_be_killed) ∷ ds) (new, u) =
    (find-sweep_all n cs ds ∙ rw new refl, IsMap-sweep_all cs ds u)
