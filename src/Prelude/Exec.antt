-- ===== src/Prelude/Exec.antt =====
-- Calls of the outside world `W`. An action returns its result and the world that it leaves, also
-- where it fails.
pub mod Keeps
pub mod Attempts
use Prim.Native.String.{String}
use mathlib.Core.Path.{◌≡◌, refl, ap}
use mathlib.Core.Logic.{◌⊎◌, inl, inr}
use mantl_api.Prelude.Outcome.{Result, ok, err, panic}

abbrev pub Exec : Type 0 → Type 0 → Type 0
Exec W A = W → Result A × W

module _ {W A : Type 0} where
  abbrev pub pure : A → Exec W A
  pure a w = (ok a, w)

  abbrev pub fail : String → Exec W A
  fail e w = (err e, w)

  abbrev pub lift : Result A → Exec W A
  lift r w = (r, w)

module _ {W A B : Type 0} where
  abbrev continue : Result A → (A → Exec W B) → Exec W B
  continue (ok a) f w = f a w
  continue (err e) f w = (err e, w)
  continue panic f w = (panic, w)

  -- the rest runs if the call succeeds
  infixl 5 ◌>>=◌ ◌>>◌
  abbrev pub ◌>>=◌ : Exec W A → (A → Exec W B) → Exec W B
  ◌>>=◌ m f w = let (r, w') = m w in continue r f w'

  abbrev pub ◌>>◌ : Exec W A → Exec W B → Exec W B
  m >> n = m >>= λ _. n

  abbrev decide : Result A → (A → Exec W B) → (String → Exec W B) → Exec W B
  decide (ok a) f g w = f a w
  decide (err e) f g w = g e w
  decide panic f g w = (panic, w)

  -- a call whose error the caller looks at
  abbrev pub attempt : Exec W A → (A → Exec W B) → (String → Exec W B) → Exec W B
  attempt m f g w = let (r, w') = m w in decide r f g w'

module _ {W A B : Type 0} (f : A → Exec W B) where
  continue-eq-err :
      {e : String} {w' : W} (r : Result A) (w1 : W)
      → continue r f w1 ≡ (err e, w')
      → (Path (Result A × W) (r, w1) (err e, w'))
        ⊎ ((a : A) × (Path (Result A × W) (r, w1) (ok a, w1)) × (f a w1 ≡ (err e, w')))
  continue-eq-err (ok a) w1 h = inr (a, refl, h)
  continue-eq-err (err x) w1 h = inl (cc)
  continue-eq-err panic w1 h = cc (ap (λ p. p.0) h)

  continue-eq-ok :
      {b : B} {w' : W} (r : Result A) (w1 : W)
      → continue r f w1 ≡ (ok b, w')
      → (a : A) × (Path (Result A × W) (r, w1) (ok a, w1)) × (f a w1 ≡ (ok b, w'))
  continue-eq-ok (ok a) w1 h = (a, refl, h)
  continue-eq-ok (err x) w1 h = cc (ap (λ p. p.0) h)
  continue-eq-ok panic w1 h = cc (ap (λ p. p.0) h)

  -- Actions that end in an error have failed at the first, in the world it leaves, or go on from what
  -- it returned to one that does.
  pub >>=-eq-err :
      {e : String} {w' : W} (m : Exec W A) (w : W)
      → (m >>= f) w ≡ (err e, w')
      → (m w ≡ (err e, w')) ⊎ ((a : A) × (w1 : W) × (m w ≡ (ok a, w1)) × (f a w1 ≡ (err e, w')))
  >>=-eq-err m w h = elim (continue-eq-err (m w).0 (m w).1 h) [
    | inl p ↦ inl p
    | inr (a, p, q) ↦ inr (a, (m w).1, p, q)
  ]

  pub >>=-eq-ok :
      {b : B} {w' : W} (m : Exec W A) (w : W)
      → (m >>= f) w ≡ (ok b, w')
      → (a : A) × (w1 : W) × (m w ≡ (ok a, w1)) × (f a w1 ≡ (ok b, w'))
  >>=-eq-ok m w h = let (a, p, q) = continue-eq-ok (m w).0 (m w).1 h in (a, (m w).1, p, q)

module _ {W A B : Type 0} (f : A → Exec W B) (g : String → Exec W B) {b : B} {w' : W} where
  decide-eq-ok :
      (r : Result A) (w1 : W)
      → decide r f g w1 ≡ (ok b, w')
      → ((a : A) × (f a w1 ≡ (ok b, w'))) ⊎ ((e : String) × (g e w1 ≡ (ok b, w')))
  decide-eq-ok (ok a) w1 h = inl (a, h)
  decide-eq-ok (err x) w1 h = inr (x, h)
  decide-eq-ok panic w1 h = cc (ap (λ p. p.0) h)

  -- A call whose error is looked at and that ends well goes on with its value or with its error.
  pub attempt-eq-ok :
      (m : Exec W A) (w : W)
      → attempt m f g w ≡ (ok b, w')
      → (w1 : W) × (((a : A) × (f a w1 ≡ (ok b, w'))) ⊎ ((e : String) × (g e w1 ≡ (ok b, w'))))
  attempt-eq-ok m w h = ((m w).1, decide-eq-ok (m w).0 (m w).1 h)

module _ {W A B : Type 0} (f : A → Exec W B) (g : String → Exec W B) {e : String} {w' : W} where
  decide-eq-err :
      (r : Result A) (w1 : W)
      → decide r f g w1 ≡ (err e, w')
      → ((a : A) × (f a w1 ≡ (err e, w'))) ⊎ ((x : String) × (g x w1 ≡ (err e, w')))
  decide-eq-err (ok a) w1 h = inl (a, h)
  decide-eq-err (err x) w1 h = inr (x, h)
  decide-eq-err panic w1 h = cc (ap (λ p. p.0) h)

  -- A call whose error is looked at fails only as what follows its value or its error does.
  pub attempt-eq-err :
      (m : Exec W A) (w : W)
      → attempt m f g w ≡ (err e, w')
      → (w1 : W) × (((a : A) × (f a w1 ≡ (err e, w'))) ⊎ ((x : String) × (g x w1 ≡ (err e, w'))))
  attempt-eq-err m w h = ((m w).1, decide-eq-err (m w).0 (m w).1 h)
