-- ===== src/Profiles/Constants.antt =====
-- Loading the constants of a profile.
use kacanopen.Prelude.{
  ℕ, ◌≡◌, refl, ap, sym, ◌∙◌, List, [], ◌∷◌, ◌++◌, Option, none, some, if◌then◌else◌, Bool, true,
  false, inl, inr, Bool-cases,
}
use kacanopen.Prelude.{Option-cases}
use kacanopen.Error.{Result, ok}
use kacanopen.Exec.Laws.{bind_ok}
use kacanopen.Value.{Value}
use kacanopen.Value.Equality.{bytes_equal}
use kacanopen.Entry.Changes.{bytes_equal_iff}
use kacanopen.Dictionary.{escape}
use kacanopen.Device.{Device}
use kacanopen.Profiles.{
  find_key, insert_all, get_constant, get_device_profile_number, load_constants, profile_constants,
}

module _ {ℓ} {V : Type ℓ} where
  abbrev pub or_else : Option V → Option V → Option V
  or_else (some v) o = some v
  or_else none o = o

module _ {V : Type 0} where
  or_else_if :
      (x m : Option V) (c : Bool) (v : V)
      → or_else (or_else x (if c then some v else none)) m ≡ or_else x (if c then some v else m)
  or_else_if (some w) m c v = refl
  or_else_if none m true v = refl
  or_else_if none m false v = refl

  -- A name that is there is not looked for further.
  or_else_there :
      (n k : List ℕ) (v w : V) (m : Option V) (table : List (List ℕ × V))
      → find_key k table ≡ some w
      → or_else (find_key n table) m
        ≡ or_else (find_key n table) (if bytes_equal k n then some v else m)
  or_else_there n k v w m table there = elim (Bool-cases (bytes_equal k n)) [
    | inr miss ↦ rw miss refl
    | inl hit ↦
        let same : find_key n table ≡ some w =
          ap (λ (j : List ℕ). find_key j table) (sym ((bytes_equal_iff k n).0 hit)) ∙ there in
        rw same refl
  ]

  find_key-append :
      (n k : List ℕ) (v : V) (table : List (List ℕ × V))
      → find_key n (table ++ ((k, v) ∷ []))
        ≡ or_else (find_key n table) (if bytes_equal k n then some v else none)
  unfolding find_key
  find_key-append n k v [] = refl
  find_key-append n k v ((j, w) ∷ table) = elim (Bool-cases (bytes_equal j n)) [
    | inl hit ↦ rw hit refl
    | inr miss ↦ rw miss (find_key-append n k v table)
  ]

  -- What is there stays, and of the others the first of each name is added.
  find_key-insert_all :
      (n : List ℕ) (more table : List (List ℕ × V))
      → find_key n (insert_all more table) ≡ or_else (find_key n table) (find_key n more)
  unfolding find_key insert_all
  find_key-insert_all n [] table = elim (Option-cases (find_key n table)) [
    | inl absent ↦ rw absent refl
    | inr (v, there) ↦ rw there refl
  ]
  find_key-insert_all n ((k, v) ∷ more) table = elim (Option-cases (find_key k table)) [
    | inl absent ↦
        rw (absent, insert_all)
          (find_key-insert_all n more (table ++ ((k, v) ∷ []))
            ∙ ap (λ (o : Option V). or_else o (find_key n more)) (find_key-append n k v table)
            ∙ or_else_if (find_key n table) (find_key n more) (bytes_equal k n) v)
    | inr (w, there) ↦
        rw (there, insert_all)
          (find_key-insert_all n more table ∙ or_else_there n k v w (find_key n more) table there)
  ]

load_constants_run :
    (profile : ℕ) (table : List (List ℕ × Value)) (d d1 : Device)
    → get_device_profile_number d ≡ (ok profile, d1)
    → profile_constants profile ≡ some table
    → load_constants d ≡ (ok true, record d1 { constants = insert_all table d1.constants })
unfolding load_constants
load_constants_run profile table d d1 numbered listed =
    bind_ok get_device_profile_number d d1 _ profile numbered ∙ rw listed refl

get_constant-insert_all :
    (name : List ℕ) (table : List (List ℕ × Value)) (d : Device)
    → get_constant name (record d { constants = insert_all table d.constants })
      ≡ elim (find_key (escape name) d.constants) as (λ x. Result Value) [
        | some v ↦ ok v
        | none ↦ get_constant name (record d { constants = table })
      ]
unfolding get_constant
get_constant-insert_all name table d =
    rw (find_key-insert_all (escape name) table d.constants, get_constant)
      (elim (Option-cases (find_key (escape name) d.constants)) [
        | inl absent ↦ rw absent refl
        | inr (v, there) ↦ rw there refl
      ])

-- When the profile of the device has constants, loading them succeeds; a name then has the value that
-- it had before, or else that of the profile's table.
pub load_constants_lem :
    (name : List ℕ) (profile : ℕ) (table : List (List ℕ × Value)) (d d1 : Device)
    → get_device_profile_number d ≡ (ok profile, d1)
    → profile_constants profile ≡ some table
    → let (r, d') = load_constants d in
      (r ≡ ok true)
      × (get_constant name d' ≡ elim (find_key (escape name) d1.constants) [
        | some v ↦ ok v
        | none ↦ get_constant name (record d1 { constants = table })
      ])
load_constants_lem name profile table d d1 numbered listed =
    rw (load_constants_run profile table d d1 numbered listed)
      (refl, get_constant-insert_all name table d1)
