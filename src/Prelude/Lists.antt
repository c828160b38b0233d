-- ===== src/Prelude/Lists.antt =====
-- Lists over the native numbers, the loops that filter and search a slice, membership and
-- predicates by recursion.
use Prim.Native.Nat.{ℕ, suc}
use mathlib.Core.Path.{◌≡◌, sym, subst}
use mathlib.Core.Logic.{◌⊎◌, inl, inr, ◌↔◌}
use mathlib.Core.Bool.{Bool, true, false}
use mathlib.Core.Option.{Option, none, some}
use mathlib.Core.List.{List, [], ◌∷◌}
use native.Mathlib.Omega.{arith}
use mantl_api.Prelude.Tests.{if◌then◌else◌, Bool-cases}

module _ {ℓ} {A : Type ℓ} where
  abbrev pub length : List A → ℕ
  length [] = 0
  length (x ∷ xs) = suc (length xs)

  -- `for _, x := range xs { if keep(x) { out = append(out, x) } }`
  unfoldable pub select : (A → Bool) → List A → List A
  select keep [] = []
  select keep (x ∷ xs) = let rest = select keep xs in if keep x then x ∷ rest else rest

  -- a loop that returns the first element that passes its test
  unfoldable pub first : (A → Bool) → List A → Option A
  first test [] = none
  first test (x ∷ xs) = let rest = first test xs in if test x then some x else rest

  abbrev pub All {κ} : (A → Type κ) → List A → Type κ
  All P [] = Unit
  All P (x ∷ xs) = P x × All P xs

module _ {A : Type 0} where
  abbrev pub In : A → List A → Type 0
  In a [] = ⊥
  In a (x ∷ xs) = (a ≡ x) ⊎ In a xs

  -- `a` passes the test of a filter and is in the list, or is not in the result.
  pub In-select :
      (keep : A → Bool) (a : A) (xs : List A) → In a (select keep xs) ↔ (In a xs × (keep a ≡ true))
  unfolding select
  In-select keep a [] = (λ h. absurd h, λ h. absurd h.0)
  In-select keep a (x ∷ xs) = elim (Bool-cases (keep x)) [
    | inl e ↦ rw e (
      λ h. elim h [
        | inl p ↦ (inl p, rw p e)
        | inr m ↦ (inr ((In-select keep a xs).0 m).0, ((In-select keep a xs).0 m).1)
      ],
      λ h. elim h.0 [ inl p ↦ inl p | inr m ↦ inr ((In-select keep a xs).1 (m, h.1)) ],
    )
    | inr e ↦ rw e (
      λ m. (inr ((In-select keep a xs).0 m).0, ((In-select keep a xs).0 m).1),
      λ h. elim h.0 [ inl p ↦ absurd_test p e h.1 | inr m ↦ (In-select keep a xs).1 (m, h.1) ],
    )
  ]
    where
      absurd_test : {T : Type 0} → a ≡ x → keep x ≡ false → keep a ≡ true → T
      absurd_test p e h = cc

  -- What the loop returns is in the list and passes the test.
  pub first-In :
      (test : A → Bool) (xs : List A) {a : A} → first test xs ≡ some a → In a xs × (test a ≡ true)
  unfolding first
  first-In test [] h = cc
  first-In test (x ∷ xs) {a} h = elim (Bool-cases (test x)) [
    | inl e ↦ ground (arith, h, e)
    | inr e ↦ ground (arith, first-In test xs {a = a})
  ]

  pub first-none :
      (test : A → Bool) (xs : List A) (a : A) → first test xs ≡ none → In a xs → test a ≡ false
  unfolding first
  first-none test [] a h m = absurd m
  first-none test (x ∷ xs) a h m = ground (arith, first-none test xs a)

  pub All-In {κ} : (P : A → Type κ) (xs : List A) (a : A) → All P xs → In a xs → P a
  All-In P [] a h m = absurd m
  All-In P (x ∷ xs) a h m = elim m [ inl p ↦ subst P (sym p) h.0 | inr r ↦ All-In P xs a h.1 r ]
