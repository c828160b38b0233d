-- ===== src/Prelude/Sort.antt =====
-- `sort.Sort` and `sort.Strings`: insertion sort by a `Less`, which is what the package runs on a
-- dozen elements or fewer. What is proved of it holds of any sorted rearrangement.
use mathlib.Core.Path.{◌≡◌}
use mathlib.Core.Logic.{inl, inr, ◌↔◌}
use mathlib.Core.Bool.{Bool, true, false}
use mathlib.Core.List.{List, [], ◌∷◌}
use native.Mathlib.Omega.{arith}
use mantl_api.Prelude.Tests.{if◌then◌else◌, Bool-cases}
use mathlib.Core.Option.{some}
use mantl_api.Prelude.Lists.{In, All, All-In, first}

-- A `Less` by which a list can be sorted.
pub record IsOrder {A : Type 0} (less : A → A → Bool) : Type 0 where
  pub asymm : (a b : A) → less a b ≡ true → less b a ≡ false
  pub trans : (a b c : A) → less b a ≡ false → less c b ≡ false → less c a ≡ false

module _ {A : Type 0} (less : A → A → Bool) where
  insert : A → List A → List A
  insert x [] = x ∷ []
  insert x (y ∷ ys) = let rest = insert x ys in if less y x then y ∷ rest else x ∷ y ∷ ys

  unfoldable pub sort : List A → List A
  unfolding insert
  sort [] = []
  sort (x ∷ xs) = insert x (sort xs)

  -- nothing that stands later is less
  abbrev pub IsSorted : List A → Type 0
  IsSorted [] = Unit
  IsSorted (x ∷ xs) = All (λ y. less y x ≡ false) xs × IsSorted xs

module _ {A : Type 0} (less : A → A → Bool) where
  In-insert : (a x : A) (xs : List A) → In a (insert less x xs) ↔ In a (x ∷ xs)
  unfolding insert
  In-insert a x [] = (λ h. h, λ h. h)
  In-insert a x (y ∷ ys) = elim (Bool-cases (less y x)) [
    | inl e ↦ rw e (
      λ h. elim h [
        | inl p ↦ inr (inl p)
        | inr m ↦ elim ((In-insert a x ys).0 m) [ inl p ↦ inl p | inr r ↦ inr (inr r) ]
      ],
      λ h. elim h [
        | inl p ↦ inr ((In-insert a x ys).1 (inl p))
        | inr m ↦ elim m [ inl p ↦ inl p | inr r ↦ inr ((In-insert a x ys).1 (inr r)) ]
      ],
    )
    | inr e ↦ rw e (λ h. h, λ h. h)
  ]

  pub In-sort : (a : A) (xs : List A) → In a (sort less xs) ↔ In a xs
  unfolding sort
  In-sort a [] = (λ h. h, λ h. h)
  In-sort a (x ∷ xs) = (
    λ h. elim ((In-insert a x (sort less xs)).0 h) [
      | inl p ↦ inl p
      | inr m ↦ inr ((In-sort a xs).0 m)
    ],
    λ h.
        (In-insert a x (sort less xs)).1
          (elim h [ inl p ↦ inl p | inr m ↦ inr ((In-sort a xs).1 m) ]),
  )

  All-insert {κ} :
      (P : A → Type κ) (x : A) (xs : List A) → P x → All P xs → All P (insert less x xs)
  unfolding insert
  All-insert P x [] p h = (p, tt)
  All-insert P x (y ∷ ys) p h = elim (Bool-cases (less y x)) [
    | inl e ↦ rw e (h.0, All-insert P x ys p h.1)
    | inr e ↦ rw e (p, h)
  ]

  module _ (order : IsOrder less) where
    above :
        (x y : A) (ys : List A)
        → less y x ≡ false
        → All (λ z. less z y ≡ false) ys
        → All (λ z. less z x ≡ false) ys
    above x y [] e h = tt
    above x y (z ∷ zs) e h = (order.trans x y z e h.0, above x y zs e h.1)

    insert-IsSorted : (x : A) (xs : List A) → IsSorted less xs → IsSorted less (insert less x xs)
    unfolding insert
    insert-IsSorted x [] s = (tt, tt)
    insert-IsSorted x (y ∷ ys) s = elim (Bool-cases (less y x)) [
      | inl e ↦ rw e (
        All-insert (λ z. less z y ≡ false) x ys (order.asymm y x e) s.0,
        insert-IsSorted x ys s.1,
      )
      | inr e ↦ rw e ((e, above x y ys e s.0), s)
    ]

    pub sort-IsSorted : (xs : List A) → IsSorted less (sort less xs)
    unfolding sort
    sort-IsSorted [] = tt
    sort-IsSorted (x ∷ xs) = insert-IsSorted x (sort less xs) (sort-IsSorted xs)

-- The first element of a sorted list that passes a test is before every other that does.
pub first-IsSorted :
    {A : Type 0} (less : A → A → Bool) (test : A → Bool) (xs : List A) (b : A) {a : A}
    → ((x : A) → less x x ≡ false)
    → IsSorted less xs
    → first test xs ≡ some a
    → In b xs
    → test b ≡ true
    → less b a ≡ false
unfolding first
first-IsSorted less test [] b irr s h m t = absurd m
first-IsSorted less test (x ∷ xs) b {a} irr s h m t = elim (Bool-cases (test x)) [
  | inl e ↦
      let p : x ≡ a = ground arith in
      elim m [
        | inl q ↦ rw (q, p) (irr a)
        | inr r ↦ rw (← p) (All-In (λ y. less y x ≡ false) xs b s.0 r)
      ]
  | inr e ↦ elim m [
    | inl q ↦ ground arith
    | inr r ↦ first-IsSorted less test xs b {a = a} irr s.1 (rw e at h) r t
  ]
]
