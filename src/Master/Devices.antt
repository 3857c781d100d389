-- ===== src/Master/Devices.antt =====
-- Which devices the master has.
use kacanopen.Prelude.{
  ◌==◌, ℕ, suc, ◌+◌, ◌≡◌, refl, ap, List, [], ◌∷◌, ◌++◌, arith, if◌then◌else◌, Bool, false, ◌||◌,
}
use mathlib.Core.Path.{subst}
use kacanopen.Nmt.{Nmt}
use kacanopen.Master.{Master, new_master, device_alive_callback, announce}

unfoldable pub count : ℕ → List ℕ → ℕ
count k [] = 0
count k (n ∷ ns) = let rest = count k ns in if n == k then suc rest else rest

unfoldable pub occurs : ℕ → List ℕ → Bool
occurs k [] = false
occurs k (n ∷ ns) = (n == k) || occurs k ns

count-append :
    (k n : ℕ) (ns : List ℕ) → count k (ns ++ (n ∷ [])) ≡ count k ns + (if n == k then 1 else 0)
unfolding count
count-append k n [] = ground arith
count-append k n (x ∷ ns) = ground (arith, count-append k n ns)

-- The bit of a node ID says whether the master has its one device.
abbrev IsOnce : ℕ → Master → Bool → Type 0
IsOnce k s b = (s.device_alive k ≡ b) × (count k s.devices ≡ (if b then 1 else 0))

callback-IsOnce :
    (k n : ℕ) (s : Master) (b : Bool)
    → IsOnce k s b
    → IsOnce k (device_alive_callback n s) ((n == k) || b)
unfolding device_alive_callback
callback-IsOnce k n s b (bit, once) =
    ground (arith, count-append k n s.devices, ap s.device_alive {x = n} {y = k})

or_false : (b : Bool) → b ≡ (b || false)
or_false b = ground arith

or_swap : (a b c : Bool) → ((a || b) || c) ≡ (b || (a || c))
or_swap a b c = ground arith

announce-IsOnce :
    (k : ℕ) (ns : List ℕ) (s : Master) (b : Bool)
    → IsOnce k s b
    → IsOnce k (announce ns s) (b || occurs k ns)
unfolding announce occurs
announce-IsOnce k [] s b h = subst (λ (c : Bool). IsOnce k s c) (or_false b) h
announce-IsOnce k (n ∷ ns) s b h =
    subst (λ (c : Bool). IsOnce k (announce ns (device_alive_callback n s)) c)
      (or_swap (n == k) b (occurs k ns))
      (announce-IsOnce k ns (device_alive_callback n s) ((n == k) || b) (callback-IsOnce k n s b h))

-- However often nodes are announced, the master has one device for each node that was and none for
-- any other.
pub announce_lem :
    (k callback : ℕ) (ns : List ℕ) (nmt : Nmt)
    → count k (announce ns (new_master callback nmt)).devices ≡ (if occurs k ns then 1 else 0)
unfolding new_master count
announce_lem k callback ns nmt =
    (announce-IsOnce k ns (new_master callback nmt) false (refl, refl)).1
