-- ===== src/Exec/Laws.antt =====
-- A sequence of calls whose first call is known.
use mathlib.Core.Path.{refl, ◌≡◌, ap}
use kacanopen.Error.{Error, Result, ok, err}
use kacanopen.Exec.{Exec, continue_with, ◌>>=◌, ◌>>◌}

module _ {ℓ} {S A B : Type ℓ} (m : Exec S A) (s s' : S) where
  pub bind_ok : (f : A → Exec S B) (a : A) → m s ≡ (ok a, s') → (m >>= f) s ≡ f a s'
  bind_ok f a h = ap (λ (p : Result A × S). continue_with p.0 f p.1) h

  pub bind_err : (f : A → Exec S B) (x : Error) → m s ≡ (err x, s') → (m >>= f) s ≡ (err x, s')
  bind_err f x h = ap (λ (p : Result A × S). continue_with p.0 f p.1) h

  pub then_ok : (k : Exec S B) (a : A) → m s ≡ (ok a, s') → (m >> k) s ≡ k s'
  then_ok k a h = ap (λ (p : Result A × S). continue_with p.0 (λ _. k) p.1) h

  pub then_err : (k : Exec S B) (x : Error) → m s ≡ (err x, s') → (m >> k) s ≡ (err x, s')
  then_err k x h = ap (λ (p : Result A × S). continue_with p.0 (λ _. k) p.1) h

-- A pair whose first part is known
pub with_result {ℓ} : {S A : Type ℓ} (p : Result A × S) (r : Result A) → p.0 ≡ r → p ≡ (r, p.1)
with_result {S = S} {A = A} p r h = ap (λ (x : Result A). (x, p.1)) h

module _ {ℓ} {S A B C : Type ℓ} where
  -- Where the brackets of a sequence stand does not matter.
  pub then_assoc :
      (m : Exec S A) (k : Exec S B) (l : Exec S C) (s : S) → (m >> (k >> l)) s ≡ ((m >> k) >> l) s
  then_assoc m k l s = go (m s).0 (m s).1
    where
      go :
          (r : Result A) (t : S)
          → continue_with r (λ _. k >> l) t
            ≡ continue_with (continue_with r (λ _. k) t).0 (λ _. l) (continue_with r (λ _. k) t).1
      go (ok a) t = refl
      go (err x) t = refl

module _ {ℓ} {S : Type ℓ} where
  -- Nothing happens after the last call.
  pub then_nothing : (m : Exec S (Unit {ℓ})) (s : S) → (m >> (λ t. (ok tt, t))) s ≡ m s
  then_nothing m s = go (m s).0 (m s).1
    where
      go : (r : Result (Unit {ℓ})) (t : S) → continue_with r (λ _ u. (ok tt, u)) t ≡ (r, t)
      go (ok tt) t = refl
      go (err x) t = refl
