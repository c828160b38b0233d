-- ===== src/Prelude/Exec/Attempts.antt =====
-- A list of arguments that an action is called with one after the other, whatever the calls return.
use Prim.Native.String.{String}
use mathlib.Core.Path.{◌≡◌, refl, ap}
use mathlib.Core.Logic.{◌⊎◌, inl, inr}
use mathlib.Core.List.{List, [], ◌∷◌}
use mantl_api.Prelude.Outcome.{Result, ok, err, panic}
use mantl_api.Prelude.Exec.{Exec, attempt}

-- Each argument has its call, which returns a value or an error, and the next starts from the world
-- that it leaves.
pub data Attempts {W A : Type 0} (act : String → Exec W A) : List String → W → W → Type 0 where
  finished : {w : W} → Attempts act [] w w
  returned :
      {x : String} {xs : List String} {w w1 w' : W} (a : A)
      → act x w ≡ (ok a, w1)
      → Attempts act xs w1 w'
      → Attempts act (x ∷ xs) w w'
  failed :
      {x : String} {xs : List String} {w w1 w' : W} (e : String)
      → act x w ≡ (err e, w1)
      → Attempts act xs w1 w'
      → Attempts act (x ∷ xs) w w'

module _ {W A : Type 0} (act : String → Exec W A) where
  -- A call that does not panic returned a value or an error.
  pub outcomes :
      (x : String) (w : W) (r : Result A) (w1 : W)
      → act x w ≡ (r, w1)
      → (r ≡ panic → ⊥)
      → ((a : A) × (act x w ≡ (ok a, w1))) ⊎ ((e : String) × (act x w ≡ (err e, w1)))
  outcomes x w (ok a) w1 h n = inl (a, h)
  outcomes x w (err e) w1 h n = inr (e, h)
  outcomes x w panic w1 h n = absurd (n refl)

  -- A loop that goes on after a call whatever it returned makes all its calls.
  pub attempt-Attempts :
      (x : String) (xs : List String) (rest : Exec W (Unit {0})) (w w' : W)
      → attempt (act x) (λ _. rest) (λ e. rest) w ≡ (ok tt, w')
      → ((w1 : W) → rest w1 ≡ (ok tt, w') → Attempts act xs w1 w')
      → Attempts act (x ∷ xs) w w'
  attempt-Attempts x xs rest w w' h more = go (act x w).0 (act x w).1 refl h
    where
      go :
          (r : Result A) (w1 : W)
          → act x w ≡ (r, w1)
          → attempt (λ (v : W). (r, w1)) (λ _. rest) (λ e. rest) w ≡ (ok tt, w')
          → Attempts act (x ∷ xs) w w'
      go (ok a) w1 p q = returned a p (more w1 q)
      go (err e) w1 p q = failed e p (more w1 q)
      go panic w1 p q = cc (ap (λ z. z.0) q)
