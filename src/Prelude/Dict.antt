-- ===== src/Prelude/Dict.antt =====
-- Go's maps with string keys. The list is in the order of one `range` over the map, which the
-- language leaves open, so what is proved for every list holds for every order.
use Prim.Native.String.{String}
use mathlib.Core.Path.{◌≡◌, refl, sym}
use mathlib.Core.Logic.{inl, inr}
use mathlib.Core.Option.{Option, none, some}
use mathlib.Core.List.{List, [], ◌∷◌}
use native.Mathlib.Omega.{arith}
use text.Mathlib.Text.{◌==◌}
use text.Mathlib.TextEquality.{eq_iff}
use mantl_api.Prelude.Tests.{if◌then◌else◌, Bool-cases}
use mantl_api.Prelude.Lists.{In}

abbrev pub Map {ℓ} : Type ℓ → Type ℓ
Map V = List (String × V)

module _ {ℓ} {V : Type ℓ} where
  -- `v, ok := m[k]`
  unfoldable pub get : String → Map V → Option V
  get k [] = none
  get k ((j, v) ∷ m) = let rest = get k m in if j == k then some v else rest

  -- `m[k] = v`
  unfoldable pub put : String → V → Map V → Map V
  put k v [] = (k, v) ∷ []
  put k v ((j, w) ∷ m) = let rest = put k v m in if j == k then (k, v) ∷ m else (j, w) ∷ rest

  unfoldable pub keys : Map V → List String
  keys [] = []
  keys ((k, v) ∷ m) = k ∷ keys m

  unfoldable pub values : Map V → List V
  values [] = []
  values ((k, v) ∷ m) = v ∷ values m

  -- No key is bound twice.
  abbrev pub Unique : Map V → Type ℓ
  Unique [] = Unit
  Unique ((k, v) ∷ m) = (get k m ≡ none) × Unique m

  pub get-put :
      (k j : String) (v : V) (m : Map V) → get j (put k v m) ≡ (if k == j then some v else get j m)
  unfolding get put
  get-put k j v [] = refl
  get-put k j v ((i, w) ∷ m) = ground (arith, eq_iff k j, eq_iff i k, eq_iff i j, get-put k j v m)

  pub put-Unique : (k : String) (v : V) (m : Map V) → Unique m → Unique (put k v m)
  unfolding get put
  put-Unique k v [] u = (refl, tt)
  put-Unique k v ((j, w) ∷ m) u = elim (Bool-cases (j == k)) [
    | inl e ↦ rw e (rw ((eq_iff j k).0 e) at u.0, u.1)
    | inr e ↦
        rw e (ground (arith, get-put k j v m, eq_iff k j, eq_iff j k, u.0), put-Unique k v m u.1)
  ]

  pub In-keys : (k : String) (v : V) (m : Map V) → get k m ≡ some v → In k (keys m)
  unfolding get keys
  In-keys k v [] h = cc
  In-keys k v ((j, w) ∷ m) h = ground (arith, eq_iff j k, In-keys k v m)

  pub get-In-keys : (k : String) (m : Map V) → In k (keys m) → (v : V) × (get k m ≡ some v)
  unfolding get keys
  get-In-keys k [] h = absurd h
  get-In-keys k ((j, w) ∷ m) h = elim (Bool-cases (j == k)) [
    | inl e ↦ rw e (w, refl)
    | inr e ↦ rw e (get-In-keys k m (elim h [ inl p ↦ cc ((eq_iff j k).1 (sym p)) | inr r ↦ r ]))
  ]
