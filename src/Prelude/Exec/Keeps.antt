-- ===== src/Prelude/Exec/Keeps.antt =====
-- What calls leave alone: a view of the world that is the same before and after.
use mathlib.Core.Path.{◌≡◌, refl, sym, ap, ◌∙◌}
use Prim.Native.String.{String}
use mathlib.Core.Bool.{Bool, true, false}
use mantl_api.Prelude.Tests.{if◌then◌else◌}
use mantl_api.Prelude.Outcome.{Result, ok, err, panic}
use mantl_api.Prelude.Exec.{Exec, lift, ◌>>=◌, attempt, continue, decide}

pub record Keeps {W V A : Type 0} (view : W → V) (call : Exec W A) : Type 0 where
  pub same : (w : W) → view (call w).1 ≡ view w

module _ {W V A : Type 0} (view : W → V) where
  -- a call that does nothing but return
  pub lift-Keeps : (r : Result A) → Keeps view (lift r)
  lift-Keeps r = record { same = λ w. refl }

  -- a choice between two calls
  pub if-Keeps :
      (b : Bool) {m n : Exec W A} → Keeps view m → Keeps view n → Keeps view (if b then m else n)
  if-Keeps true h k = h
  if-Keeps false h k = k

module _ {W V A B : Type 0} (view : W → V) where
  continue-Keeps :
      (r : Result A) (f : A → Exec W B) → ((a : A) → Keeps view (f a)) → Keeps view (continue r f)
  continue-Keeps (ok a) f h = h a
  continue-Keeps (err e) f h = record { same = λ w. refl }
  continue-Keeps panic f h = record { same = λ w. refl }

  -- a call and what follows it
  pub >>=-Keeps :
      {m : Exec W A} {f : A → Exec W B}
      → Keeps view m
      → ((a : A) → Keeps view (f a))
      → Keeps view (m >>= f)
  >>=-Keeps {m} {f} h k = record {
    same = λ w. (continue-Keeps (m w).0 f k).same (m w).1 ∙ h.same w;
  }

  decide-Keeps :
      (r : Result A) (f : A → Exec W B) (g : String → Exec W B)
      → ((a : A) → Keeps view (f a))
      → ((e : String) → Keeps view (g e))
      → Keeps view (decide r f g)
  decide-Keeps (ok a) f g h k = h a
  decide-Keeps (err e) f g h k = k e
  decide-Keeps panic f g h k = record { same = λ w. refl }

  -- a call whose error is looked at
  pub attempt-Keeps :
      {m : Exec W A} {f : A → Exec W B} {g : String → Exec W B}
      → Keeps view m
      → ((a : A) → Keeps view (f a))
      → ((e : String) → Keeps view (g e))
      → Keeps view (attempt m f g)
  attempt-Keeps {m} {f} {g} h k l = record {
    same = λ w. (decide-Keeps (m w).0 f g k l).same (m w).1 ∙ h.same w;
  }

module _ {W V A : Type 0} (view : W → V) where
  -- what a call that was run left alone
  pub same_after :
      (call : Exec W A) {r : Result A} {w w' : W}
      → Keeps view call
      → call w ≡ (r, w')
      → view w' ≡ view w
  same_after call {r} {w} {w'} h e = ap (λ (z : Result A × W). view z.1) (sym e) ∙ h.same w
